-- ===== src/Transaction/Manager/View.antt =====
-- The manager as a family of independent transactions: what stands under a handle, and what a call for
-- a handle does to it.
use rsiprtp.Common.{
  List, [], ◌++◌, append-nil, Bool, true, false, Option, none, some, if◌then◌else◌, lookup,
  lookup-insert, number_key, Option-cases, inl, inr, ◌==◌, ◌≡◌, arith,
}
use rsiprtp.Transaction.Timer.{Timer}
use rsiprtp.Transaction.Messages.{Messages}
use rsiprtp.Transaction.Client.Invite as InviteClient
use rsiprtp.Transaction.Client.Invite.{InviteClientTransaction}
use rsiprtp.Transaction.Client.NonInvite as NonInviteClient
use rsiprtp.Transaction.Client.NonInvite.{NonInviteClientTransaction}
use rsiprtp.Transaction.Server.Invite as InviteServer
use rsiprtp.Transaction.Server.Invite.{InviteServerTransaction}
use rsiprtp.Transaction.Server.NonInvite as NonInviteServer
use rsiprtp.Transaction.Server.NonInvite.{NonInviteServerTransaction}
use rsiprtp.Transaction.Manager.Actions.{
  TransactionHandle, TransactionType, ManagerAction, invite_client, non_invite_client,
  invite_server, non_invite_server,
}
use rsiprtp.Transaction.Manager.Labels.{
  labelled, read_invite_client, read_non_invite_client, read_invite_server, read_non_invite_server,
  collect_invite_client_lem, collect_non_invite_client_lem, collect_invite_server_lem,
  collect_non_invite_server_lem,
}
use rsiprtp.Transaction.Manager.Store.{
  TransactionManager, put_invite_client, put_non_invite_client, put_invite_server,
  put_non_invite_server, with_invite_client, with_non_invite_client, with_invite_server,
  with_non_invite_server,
}
use rsiprtp.Transaction.Manager.{handle_timeout, send_response, handle_transport_error}

pub data Transaction (M : Messages) : Type 0 where
  client_invite : InviteClientTransaction M → Transaction M
  client_non_invite : NonInviteClientTransaction M → Transaction M
  server_invite : InviteServerTransaction M → Transaction M
  server_non_invite : NonInviteServerTransaction M → Transaction M

abbrev pub map_some : {A B : Type 0} → (A → B) → Option A → Option B
map_some f none = none
map_some f (some a) = some (f a)

-- The calls that name a handle.
pub data Call (M : Messages) : Type 0 where
  fire : Timer → Call M
  respond : M.Response → Call M
  fail : Call M

module _ {M : Messages} where
  abbrev pub entry :
      Option TransactionType → TransactionHandle → TransactionManager M → Option (Transaction M)
  entry none h m = none
  entry (some invite_client) h m = map_some client_invite (lookup h m.invite_clients)
  entry (some non_invite_client) h m = map_some client_non_invite (lookup h m.non_invite_clients)
  entry (some invite_server) h m = map_some server_invite (lookup h m.invite_servers)
  entry (some non_invite_server) h m = map_some server_non_invite (lookup h m.non_invite_servers)

  abbrev pub find : TransactionManager M → TransactionHandle → Option (Transaction M)
  find m h = entry (lookup h m.handle_to_type) h m

  abbrev pub type_of : Transaction M → TransactionType
  type_of (client_invite tx) = invite_client
  type_of (client_non_invite tx) = non_invite_client
  type_of (server_invite tx) = invite_server
  type_of (server_non_invite tx) = non_invite_server

  unfoldable pub perform : TransactionHandle → Call M → TransactionManager M → TransactionManager M
  perform h (fire timer) m = handle_timeout h timer m
  perform h (respond response) m = send_response h response m
  perform h fail m = handle_transport_error h m

  -- What the call does to the transaction itself.
  abbrev pub respond_to : Call M → Transaction M → Transaction M
  respond_to (fire t) (client_invite tx) = client_invite (InviteClient.handle_timeout tx t)
  respond_to (fire t) (client_non_invite tx) =
      client_non_invite (NonInviteClient.handle_timeout tx t)
  respond_to (fire t) (server_invite tx) = server_invite (InviteServer.handle_timeout tx t)
  respond_to (fire t) (server_non_invite tx) =
      server_non_invite (NonInviteServer.handle_timeout tx t)
  respond_to (respond r) (client_invite tx) = client_invite tx
  respond_to (respond r) (client_non_invite tx) = client_non_invite tx
  respond_to (respond r) (server_invite tx) = server_invite (InviteServer.send_response tx r)
  respond_to (respond r) (server_non_invite tx) =
      server_non_invite (NonInviteServer.send_response tx r)
  respond_to fail (client_invite tx) = client_invite (InviteClient.handle_transport_error tx)
  respond_to fail (client_non_invite tx) =
      client_non_invite (NonInviteClient.handle_transport_error tx)
  respond_to fail (server_invite tx) = server_invite (InviteServer.handle_transport_error tx)
  respond_to fail (server_non_invite tx) =
      server_non_invite (NonInviteServer.handle_transport_error tx)

  abbrev pub polled : Transaction M → Transaction M
  polled (client_invite tx) = client_invite (record tx { actions = [] })
  polled (client_non_invite tx) = client_non_invite (record tx { actions = [] })
  polled (server_invite tx) = server_invite (record tx { actions = [] })
  polled (server_non_invite tx) = server_non_invite (record tx { actions = [] })

  abbrev pub queued : TransactionHandle → Transaction M → List (ManagerAction M)
  queued h (client_invite tx) = labelled read_invite_client h tx.actions
  queued h (client_non_invite tx) = labelled read_non_invite_client h tx.actions
  queued h (server_invite tx) = labelled read_invite_server h tx.actions
  queued h (server_non_invite tx) = labelled read_non_invite_server h tx.actions

  -- A client transaction takes no response of the user.
  abbrev pub takes : Call M → Transaction M → Bool
  takes (respond r) (client_invite tx) = false
  takes (respond r) (client_non_invite tx) = false
  takes _ x = true

  abbrev pub after : Call M → Option (Transaction M) → Option (Transaction M)
  after c none = none
  after c (some x) = some (if takes c x then polled (respond_to c x) else x)

  abbrev pub told : TransactionHandle → Call M → Option (Transaction M) → List (ManagerAction M)
  told h c none = []
  told h c (some x) = if takes c x then queued h (respond_to c x) else []

  with_invite_client_lem :
      (m : TransactionManager M) (h j : TransactionHandle)
      (f : InviteClientTransaction M → InviteClientTransaction M)
      → lookup h m.handle_to_type ≡ some invite_client
      → let new = with_invite_client h f m in
        (find new j ≡ (
          if h == j
          then map_some
              (λ tx. client_invite (record (f tx) { actions = [] }))
              (lookup j m.invite_clients)
          else find m j))
        × (new.actions
            ≡ m.actions ++ (elim (lookup h m.invite_clients) [
              | none ↦ []
              | some tx ↦ labelled read_invite_client h (f tx).actions
            ]))
  unfolding with_invite_client put_invite_client
  with_invite_client_lem m h j f e = elim (Option-cases (lookup h m.invite_clients)) [
    | inl absent ↦ ground (arith, append-nil m.actions)
    | inr (tx, found) ↦ ground (
      arith,
      lookup-insert h j (record (f tx) { actions = [] }) m.invite_clients,
      collect_invite_client_lem h (f tx).actions,
    )
  ]

  with_non_invite_client_lem :
      (m : TransactionManager M) (h j : TransactionHandle)
      (f : NonInviteClientTransaction M → NonInviteClientTransaction M)
      → lookup h m.handle_to_type ≡ some non_invite_client
      → let new = with_non_invite_client h f m in
        (find new j ≡ (
          if h == j
          then map_some
              (λ tx. client_non_invite (record (f tx) { actions = [] }))
              (lookup j m.non_invite_clients)
          else find m j))
        × (new.actions
            ≡ m.actions ++ (elim (lookup h m.non_invite_clients) [
              | none ↦ []
              | some tx ↦ labelled read_non_invite_client h (f tx).actions
            ]))
  unfolding with_non_invite_client put_non_invite_client
  with_non_invite_client_lem m h j f e = elim (Option-cases (lookup h m.non_invite_clients)) [
    | inl absent ↦ ground (arith, append-nil m.actions)
    | inr (tx, found) ↦ ground (
      arith,
      lookup-insert h j (record (f tx) { actions = [] }) m.non_invite_clients,
      collect_non_invite_client_lem h (f tx).actions,
    )
  ]

  with_invite_server_lem :
      (m : TransactionManager M) (h j : TransactionHandle)
      (f : InviteServerTransaction M → InviteServerTransaction M)
      → lookup h m.handle_to_type ≡ some invite_server
      → let new = with_invite_server h f m in
        (find new j ≡ (
          if h == j
          then map_some
              (λ tx. server_invite (record (f tx) { actions = [] }))
              (lookup j m.invite_servers)
          else find m j))
        × (new.actions
            ≡ m.actions ++ (elim (lookup h m.invite_servers) [
              | none ↦ []
              | some tx ↦ labelled read_invite_server h (f tx).actions
            ]))
  unfolding with_invite_server put_invite_server
  with_invite_server_lem m h j f e = elim (Option-cases (lookup h m.invite_servers)) [
    | inl absent ↦ ground (arith, append-nil m.actions)
    | inr (tx, found) ↦ ground (
      arith,
      lookup-insert h j (record (f tx) { actions = [] }) m.invite_servers,
      collect_invite_server_lem h (f tx).actions,
    )
  ]

  with_non_invite_server_lem :
      (m : TransactionManager M) (h j : TransactionHandle)
      (f : NonInviteServerTransaction M → NonInviteServerTransaction M)
      → lookup h m.handle_to_type ≡ some non_invite_server
      → let new = with_non_invite_server h f m in
        (find new j ≡ (
          if h == j
          then map_some
              (λ tx. server_non_invite (record (f tx) { actions = [] }))
              (lookup j m.non_invite_servers)
          else find m j))
        × (new.actions
            ≡ m.actions ++ (elim (lookup h m.non_invite_servers) [
              | none ↦ []
              | some tx ↦ labelled read_non_invite_server h (f tx).actions
            ]))
  unfolding with_non_invite_server put_non_invite_server
  with_non_invite_server_lem m h j f e = elim (Option-cases (lookup h m.non_invite_servers)) [
    | inl absent ↦ ground (arith, append-nil m.actions)
    | inr (tx, found) ↦ ground (
      arith,
      lookup-insert h j (record (f tx) { actions = [] }) m.non_invite_servers,
      collect_non_invite_server_lem h (f tx).actions,
    )
  ]

  -- A call for a handle acts on the transaction under it as on that transaction alone, and leaves every
  -- other one; the manager queues the actions of that transaction, with its handle.
  pub perform_lem :
      (m : TransactionManager M) (h j : TransactionHandle) (c : Call M)
      → (find (perform h c m) j ≡ (if h == j then after c (find m j) else find m j))
        × ((perform h c m).actions ≡ m.actions ++ told h c (find m h))
  unfolding perform handle_timeout send_response handle_transport_error
  perform_lem m h j (fire t) = ground (
    arith,
    append-nil m.actions,
    with_invite_client_lem m h j
        (λ (tx : InviteClientTransaction M). InviteClient.handle_timeout tx t),
    with_non_invite_client_lem m h j
        (λ (tx : NonInviteClientTransaction M). NonInviteClient.handle_timeout tx t),
    with_invite_server_lem m h j
        (λ (tx : InviteServerTransaction M). InviteServer.handle_timeout tx t),
    with_non_invite_server_lem m h j
        (λ (tx : NonInviteServerTransaction M). NonInviteServer.handle_timeout tx t),
  )
  perform_lem m h j (respond r) = ground (
    arith,
    append-nil m.actions,
    with_invite_server_lem m h j
        (λ (tx : InviteServerTransaction M). InviteServer.send_response tx r),
    with_non_invite_server_lem m h j
        (λ (tx : NonInviteServerTransaction M). NonInviteServer.send_response tx r),
  )
  perform_lem m h j fail = ground (
    arith,
    append-nil m.actions,
    with_invite_client_lem m h j (InviteClient.handle_transport_error),
    with_non_invite_client_lem m h j (NonInviteClient.handle_transport_error),
    with_invite_server_lem m h j (InviteServer.handle_transport_error),
    with_non_invite_server_lem m h j (NonInviteServer.handle_transport_error),
  )
