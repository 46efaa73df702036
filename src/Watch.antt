-- ===== src/Watch.antt =====
-- internal/watch: what the program does as members join.
pub mod World
pub mod Captcha
pub mod Sound
