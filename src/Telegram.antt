-- ===== src/Telegram.antt =====
-- internal/telegram: the parts with state of their own.
pub mod Sequencer
pub mod AdminCache
pub mod Album
