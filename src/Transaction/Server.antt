-- ===== src/Transaction/Server.antt =====
-- Server transactions, crates/rsiprtp/src/transaction/server.
pub mod NonInvite
pub mod Invite
