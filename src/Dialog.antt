-- ===== src/Dialog.antt =====
-- Dialogs, crates/rsiprtp/src/dialog.
pub mod Messages
pub mod Sample
pub mod State
pub mod Invite
pub mod Manager
