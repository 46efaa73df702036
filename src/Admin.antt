-- ===== src/Admin.antt =====
-- internal/admin: what a moderator does from the admin chat.
pub mod World
pub mod Parse
pub mod Guard
pub mod Effects
pub mod Callbacks
