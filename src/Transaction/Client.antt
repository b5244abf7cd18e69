-- ===== src/Transaction/Client.antt =====
-- Client transactions, crates/rsiprtp/src/transaction/client.
pub mod NonInvite
pub mod Invite
