-- ===== src/Rtp.antt =====
-- RTP packets, sequence numbers and telephone events, crates/rsiprtp/src/rtp.
pub mod Packet
pub mod Sequence
pub mod Dtmf
pub mod Session
pub mod Congestion
