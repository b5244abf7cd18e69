-- ===== src/Ice.antt =====
-- ICE, crates/rsiprtp/src/ice.
pub mod Candidate
pub mod Pairs
