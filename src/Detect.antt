-- ===== src/Detect.antt =====
-- internal/detect: the detectors of the cascade.
pub mod Message
pub mod Identity
pub mod Trust
pub mod Levenshtein
pub mod FakeAdmin
pub mod History
pub mod Behavior
pub mod Rules
pub mod Cascade
