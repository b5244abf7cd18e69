-- ===== src/Srtp.antt =====
-- SRTP, crates/rsiprtp/src/srtp.
pub mod Crypto
pub mod Context
pub mod Rollover
pub mod Header
pub mod Reach
pub mod Srtcp
pub mod Rejection
pub mod RoundTrip
mod Examples
