-- ===== src/Media.antt =====
-- The audio path of a call, crates/rsiprtp/src/media.
pub mod Jitter
pub mod Mixer
