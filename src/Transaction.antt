-- ===== src/Transaction.antt =====
-- The transaction layer, crates/rsiprtp/src/transaction.
pub mod Timer
pub mod TimerValues
pub mod Messages
pub mod TransactionId
pub mod Action
mod Sample
pub mod Client
pub mod Server
pub mod Manager
