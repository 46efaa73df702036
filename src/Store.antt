-- ===== src/Store.antt =====
-- internal/store: the tables that hold incidents, and the operations on them.
pub mod MessageIds
pub mod Tables
pub mod Incidents
pub mod Decisions
pub mod Operations
pub mod Captcha
