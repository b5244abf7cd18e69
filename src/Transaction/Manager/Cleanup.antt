-- ===== src/Transaction/Manager/Cleanup.antt =====
-- `cleanup_terminated` of the transaction manager, crates/rsiprtp/src/transaction/manager.rs. The two
-- loops for each table: the handles and ids of its terminated transactions, then their removal.
use rsiprtp.Common.{List, map, expired, remove_all, number_key}
use rsiprtp.Transaction.Messages.{Messages}
use rsiprtp.Transaction.TransactionId.{TransactionId, id_key}
use rsiprtp.Transaction.Client.Invite as InviteClient
use rsiprtp.Transaction.Client.NonInvite as NonInviteClient
use rsiprtp.Transaction.Server.Invite as InviteServer
use rsiprtp.Transaction.Server.NonInvite as NonInviteServer
use rsiprtp.Transaction.Manager.Actions.{TransactionHandle}
use rsiprtp.Transaction.Manager.Store.{TransactionManager}

module _ {M : Messages} where
  abbrev forget :
      List (TransactionHandle × TransactionId) → TransactionManager M → TransactionManager M
  forget gone m = record m {
    id_to_handle = remove_all (map (λ e. e.1) gone) m.id_to_handle;
    handle_to_type = remove_all (map (λ e. e.0) gone) m.handle_to_type;
  }

  unfoldable pub clean_invite_clients : TransactionManager M → TransactionManager M
  clean_invite_clients m =
      let gone = expired InviteClient.is_terminated (λ tx. tx.id) m.invite_clients in
      forget gone (record m { invite_clients = remove_all (map (λ e. e.0) gone) m.invite_clients })

  unfoldable pub clean_non_invite_clients : TransactionManager M → TransactionManager M
  clean_non_invite_clients m =
      let gone = expired NonInviteClient.is_terminated (λ tx. tx.id) m.non_invite_clients in
      forget gone
        (record m { non_invite_clients = remove_all (map (λ e. e.0) gone) m.non_invite_clients })

  unfoldable pub clean_invite_servers : TransactionManager M → TransactionManager M
  clean_invite_servers m =
      let gone = expired InviteServer.is_terminated (λ tx. tx.id) m.invite_servers in
      forget gone (record m { invite_servers = remove_all (map (λ e. e.0) gone) m.invite_servers })

  unfoldable pub clean_non_invite_servers : TransactionManager M → TransactionManager M
  clean_non_invite_servers m =
      let gone = expired NonInviteServer.is_terminated (λ tx. tx.id) m.non_invite_servers in
      forget gone
        (record m { non_invite_servers = remove_all (map (λ e. e.0) gone) m.non_invite_servers })

  unfoldable pub cleanup_terminated : TransactionManager M → TransactionManager M
  cleanup_terminated m =
      clean_non_invite_servers
        (clean_invite_servers (clean_non_invite_clients (clean_invite_clients m)))
