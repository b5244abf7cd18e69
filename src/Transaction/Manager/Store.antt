-- ===== src/Transaction/Manager/Store.antt =====
-- The state of the transaction manager, crates/rsiprtp/src/transaction/manager.rs, and what its
-- operations do to its tables.
use rsiprtp.Common.{◌+◌, ◌%◌, List, [], ◌++◌, Bool, none, some, lookup, insert, number_key}
use rsiprtp.Transaction.Messages.{Messages}
use rsiprtp.Transaction.TransactionId.{TransactionId, id_key}
use rsiprtp.Transaction.Client.Invite as InviteClient
use rsiprtp.Transaction.Client.Invite.{InviteClientTransaction}
use rsiprtp.Transaction.Client.NonInvite as NonInviteClient
use rsiprtp.Transaction.Client.NonInvite.{NonInviteClientTransaction}
use rsiprtp.Transaction.Server.Invite as InviteServer
use rsiprtp.Transaction.Server.Invite.{InviteServerTransaction}
use rsiprtp.Transaction.Server.NonInvite as NonInviteServer
use rsiprtp.Transaction.Server.NonInvite.{NonInviteServerTransaction}
use rsiprtp.Transaction.Manager.Actions.{
  TransactionHandle, TransactionType, ManagerAction, collect_invite_client,
  collect_non_invite_client, collect_invite_server, collect_non_invite_server,
}

pub record TransactionManager (M : Messages) : Type 0 where
  pub next_handle : TransactionHandle
  pub invite_clients : List (TransactionHandle × InviteClientTransaction M)
  pub non_invite_clients : List (TransactionHandle × NonInviteClientTransaction M)
  pub invite_servers : List (TransactionHandle × InviteServerTransaction M)
  pub non_invite_servers : List (TransactionHandle × NonInviteServerTransaction M)
  pub id_to_handle : List (TransactionId × TransactionHandle)
  pub handle_to_type : List (TransactionHandle × TransactionType)
  pub actions : List (ManagerAction M)
  pub reliable : Bool

module _ (M : Messages) where
  unfoldable pub new : Bool → TransactionManager M
  new reliable = record {
    next_handle = 1;
    invite_clients = [];
    non_invite_clients = [];
    invite_servers = [];
    non_invite_servers = [];
    id_to_handle = [];
    handle_to_type = [];
    actions = [];
    reliable = reliable;
  }

module _ {M : Messages} where
  -- The counter after `alloc_handle`, which returns the handle `next_handle`.
  unfoldable pub alloc_handle : TransactionManager M → TransactionManager M
  alloc_handle m = record m { next_handle = (m.next_handle + 1) % 18446744073709551616 }

  -- The transaction under a handle, its actions moved to the manager: `collect_..._actions` and the
  -- insertion into the map, or the write through `get_mut`.
  unfoldable pub put_invite_client :
      TransactionHandle → InviteClientTransaction M → TransactionManager M → TransactionManager M
  put_invite_client h tx m =
      let (tx, as') = InviteClient.poll_actions tx in
      record m {
        invite_clients = insert h tx m.invite_clients;
        actions = m.actions ++ collect_invite_client h as';
      }

  unfoldable pub put_non_invite_client :
      TransactionHandle → NonInviteClientTransaction M → TransactionManager M → TransactionManager M
  put_non_invite_client h tx m =
      let (tx, as') = NonInviteClient.poll_actions tx in
      record m {
        non_invite_clients = insert h tx m.non_invite_clients;
        actions = m.actions ++ collect_non_invite_client h as';
      }

  unfoldable pub put_invite_server :
      TransactionHandle → InviteServerTransaction M → TransactionManager M → TransactionManager M
  put_invite_server h tx m =
      let (tx, as') = InviteServer.poll_actions tx in
      record m {
        invite_servers = insert h tx m.invite_servers;
        actions = m.actions ++ collect_invite_server h as';
      }

  unfoldable pub put_non_invite_server :
      TransactionHandle → NonInviteServerTransaction M → TransactionManager M → TransactionManager M
  put_non_invite_server h tx m =
      let (tx, as') = NonInviteServer.poll_actions tx in
      record m {
        non_invite_servers = insert h tx m.non_invite_servers;
        actions = m.actions ++ collect_non_invite_server h as';
      }

  -- `if let Some(tx) = self.invite_clients.get_mut(&handle)`, with what is done to `tx`.
  unfoldable pub with_invite_client :
      TransactionHandle
      → (InviteClientTransaction M → InviteClientTransaction M)
      → TransactionManager M
      → TransactionManager M
  with_invite_client h f m = elim (lookup h m.invite_clients) [
    | none ↦ m
    | some tx ↦ put_invite_client h (f tx) m
  ]

  unfoldable pub with_non_invite_client :
      TransactionHandle
      → (NonInviteClientTransaction M → NonInviteClientTransaction M)
      → TransactionManager M
      → TransactionManager M
  with_non_invite_client h f m = elim (lookup h m.non_invite_clients) [
    | none ↦ m
    | some tx ↦ put_non_invite_client h (f tx) m
  ]

  unfoldable pub with_invite_server :
      TransactionHandle
      → (InviteServerTransaction M → InviteServerTransaction M)
      → TransactionManager M
      → TransactionManager M
  with_invite_server h f m = elim (lookup h m.invite_servers) [
    | none ↦ m
    | some tx ↦ put_invite_server h (f tx) m
  ]

  unfoldable pub with_non_invite_server :
      TransactionHandle
      → (NonInviteServerTransaction M → NonInviteServerTransaction M)
      → TransactionManager M
      → TransactionManager M
  with_non_invite_server h f m = elim (lookup h m.non_invite_servers) [
    | none ↦ m
    | some tx ↦ put_non_invite_server h (f tx) m
  ]

  -- The two entries that a new transaction gets beside its own.
  unfoldable pub register :
      TransactionId
      → TransactionHandle
      → TransactionType
      → TransactionManager M
      → TransactionManager M
  register id h type m = record m {
    id_to_handle = insert id h m.id_to_handle;
    handle_to_type = insert h type m.handle_to_type;
  }
