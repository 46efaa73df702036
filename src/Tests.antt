-- ===== src/Tests.antt =====
-- Tests, and the theorems at concrete inputs.
mod Incidents
mod Stored
mod Detectors
mod Decisions
mod Ordering
mod Outbound
mod Blocked
mod Challenges
mod Presses
mod Administrators
mod Albums
mod Checks
