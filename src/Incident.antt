-- ===== src/Incident.antt =====
-- internal/incident: the state machine that copies evidence, tells the admins and sanctions.
pub mod World
pub mod Machine
pub mod Trace
