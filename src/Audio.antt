-- ===== src/Audio.antt =====
-- Audio containers (internal/audio).
pub mod Wav
