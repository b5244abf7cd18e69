-- ===== src/Transaction/Manager.antt =====
-- The transaction manager, crates/rsiprtp/src/transaction/manager.rs. A hash map is a list of entries;
-- the order in which the source iterates over one is not fixed, and here it is that of the list.
mod Actions
mod Labels
mod Store
mod Cleanup
pub mod View
pub mod WellFormed
pub mod Creation
pub mod Removal
pub mod Ids
pub mod Run
pub mod Invariant
pub mod Agreement
pub mod Unacked
pub mod Acks
mod Examples
pub use Actions.{
  TransactionHandle, TransactionType, invite_client, non_invite_client, invite_server,
  non_invite_server, ManagerEvent, ManagerAction,
}
pub use Store.{TransactionManager}
unfoldable pub use Store.{new}
unfoldable pub use Cleanup.{cleanup_terminated}
use Prim.Native.String.{String}
use rsiprtp.Common.{
  ℕ, ◌+◌, ◌%◌, List, [], ◌∷◌, ◌++◌, Bool, true, false, Option, none, some, if◌then◌else◌, lookup,
  insert, remove, number_key,
}
use rsiprtp.Transaction.Timer.{Timer}
use rsiprtp.Transaction.Messages.{
  Messages, SipMessage, sip_request, sip_response, Method, invite, ack, prack, same_method,
}
use rsiprtp.Transaction.TransactionId.{TransactionId, from_request, from_response, id_key}
use rsiprtp.Transaction.Client.Invite as InviteClient
use rsiprtp.Transaction.Client.Invite.{InviteClientTransaction}
use rsiprtp.Transaction.Client.NonInvite as NonInviteClient
use rsiprtp.Transaction.Client.NonInvite.{NonInviteClientTransaction}
use rsiprtp.Transaction.Server.Invite as InviteServer
use rsiprtp.Transaction.Server.Invite.{InviteServerTransaction}
use rsiprtp.Transaction.Server.NonInvite as NonInviteServer
use rsiprtp.Transaction.Server.NonInvite.{NonInviteServerTransaction}
use Store.{
  alloc_handle, put_invite_client, put_non_invite_client, put_invite_server, put_non_invite_server,
  with_invite_client, with_non_invite_client, with_invite_server, with_non_invite_server, register,
}

module _ {M : Messages} where
  -- `none` is the `?` on the constructors; the handle is used up all the same.
  unfoldable pub create_client_transaction :
      M.Request → TransactionManager M → Option TransactionHandle × TransactionManager M
  create_client_transaction request m =
      let handle = m.next_handle in
      let m = alloc_handle m in
      if same_method (M.method request) invite
      then elim (InviteClient.new M request m.reliable) [
        | none ↦ (none, m)
        | some tx ↦
            (some handle, register tx.id handle invite_client (put_invite_client handle tx m))
      ]
      else elim (NonInviteClient.new M request m.reliable) [
        | none ↦ (none, m)
        | some tx ↦ (
          some handle,
          register tx.id handle non_invite_client (put_non_invite_client handle tx m),
        )
      ]

  -- The end of `handle_request`: a new server transaction.
  unfoldable pub create_server_transaction : M.Request → TransactionManager M → TransactionManager M
  create_server_transaction request m =
      let handle = m.next_handle in
      let m = alloc_handle m in
      if same_method (M.method request) invite
      then elim (InviteServer.new M request m.reliable) [
        | none ↦ m
        | some tx ↦ register tx.id handle invite_server (put_invite_server handle tx m)
      ]
      else if same_method (M.method request) ack
      then m
      else elim (NonInviteServer.new M request m.reliable) [
        | none ↦ m
        | some tx ↦ register tx.id handle non_invite_server (put_non_invite_server handle tx m)
      ]

  -- The first INVITE server transaction of the dialog.
  unfoldable pub find_invite_dialog :
      String
      → String
      → List (TransactionHandle × InviteServerTransaction M)
      → Option TransactionHandle
  find_invite_dialog call_id from_tag [] = none
  find_invite_dialog call_id from_tag ((h, tx) ∷ txs) =
      if InviteServer.matches_invite_dialog tx call_id from_tag
      then some h
      else find_invite_dialog call_id from_tag txs

  unfoldable pub route_prack : M.Request → TransactionManager M → TransactionManager M
  route_prack request m = elim (M.rack request) [
    | none ↦ m
    | some rseq ↦ elim (M.call_id request) [
      | none ↦ m
      | some call_id ↦ elim (M.from_tag request) [
        | none ↦ m
        | some from_tag ↦ elim (find_invite_dialog call_id from_tag m.invite_servers) [
          | none ↦ m
          | some h ↦
              with_invite_server h
                (λ tx. InviteServer.handle_event tx (InviteServer.prack_received rseq)) m
        ]
      ]
    ]
  ]

  -- A request to the transaction that has its id: only a server transaction takes it.
  unfoldable pub route_request :
      TransactionHandle → M.Request → TransactionManager M → TransactionManager M
  route_request h request m = elim (lookup h m.handle_to_type) [
    | none ↦ m
    | some invite_client ↦ m
    | some non_invite_client ↦ m
    | some invite_server ↦ with_invite_server h (λ tx. InviteServer.handle_request tx request) m
    | some non_invite_server ↦
        with_non_invite_server h (λ tx. NonInviteServer.handle_request tx request) m
  ]

  unfoldable pub handle_request : M.Request → TransactionManager M → TransactionManager M
  handle_request request m =
      let m = if same_method (M.method request) prack then route_prack request m else m in
      elim (from_request M request) [
        | none ↦ create_server_transaction request m
        | some id ↦ elim (lookup id m.id_to_handle) [
          | none ↦ create_server_transaction request m
          | some h ↦ route_request h request m
        ]
      ]

  unfoldable pub handle_response : M.Response → TransactionManager M → TransactionManager M
  handle_response response m = elim (from_response M response) [
    | none ↦ m
    | some id ↦ elim (lookup id m.id_to_handle) [
      | none ↦ m
      | some h ↦ elim (lookup h m.handle_to_type) [
        | none ↦ m
        | some invite_client ↦
            with_invite_client h (λ tx. InviteClient.handle_response tx response) m
        | some non_invite_client ↦
            with_non_invite_client h (λ tx. NonInviteClient.handle_response tx response) m
        | some invite_server ↦ m
        | some non_invite_server ↦ m
      ]
    ]
  ]

  unfoldable pub handle_message : SipMessage M → TransactionManager M → TransactionManager M
  handle_message (sip_request request) m = handle_request request m
  handle_message (sip_response response) m = handle_response response m

  unfoldable pub handle_timeout :
      TransactionHandle → Timer → TransactionManager M → TransactionManager M
  handle_timeout h timer m = elim (lookup h m.handle_to_type) [
    | none ↦ m
    | some invite_client ↦ with_invite_client h (λ tx. InviteClient.handle_timeout tx timer) m
    | some non_invite_client ↦
        with_non_invite_client h (λ tx. NonInviteClient.handle_timeout tx timer) m
    | some invite_server ↦ with_invite_server h (λ tx. InviteServer.handle_timeout tx timer) m
    | some non_invite_server ↦
        with_non_invite_server h (λ tx. NonInviteServer.handle_timeout tx timer) m
  ]

  unfoldable pub send_response :
      TransactionHandle → M.Response → TransactionManager M → TransactionManager M
  send_response h response m = elim (lookup h m.handle_to_type) [
    | none ↦ m
    | some invite_client ↦ m
    | some non_invite_client ↦ m
    | some invite_server ↦ with_invite_server h (λ tx. InviteServer.send_response tx response) m
    | some non_invite_server ↦
        with_non_invite_server h (λ tx. NonInviteServer.send_response tx response) m
  ]

  unfoldable pub handle_transport_error :
      TransactionHandle → TransactionManager M → TransactionManager M
  handle_transport_error h m = elim (lookup h m.handle_to_type) [
    | none ↦ m
    | some invite_client ↦ with_invite_client h InviteClient.handle_transport_error m
    | some non_invite_client ↦ with_non_invite_client h NonInviteClient.handle_transport_error m
    | some invite_server ↦ with_invite_server h InviteServer.handle_transport_error m
    | some non_invite_server ↦ with_non_invite_server h NonInviteServer.handle_transport_error m
  ]

  unfoldable pub poll_actions : TransactionManager M → TransactionManager M × List (ManagerAction M)
  poll_actions m = (record m { actions = [] }, m.actions)
