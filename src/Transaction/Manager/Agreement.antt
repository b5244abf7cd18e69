-- ===== src/Transaction/Manager/Agreement.antt =====
-- The ids of new transactions, `id_to_handle` in crates/rsiprtp/src/transaction/manager.rs.
use rsiprtp.Common.{
  ◌+◌, ◌<◌, ◌≤◌, List, [], length, Bool, Option, none, some, Option-cases, Bool-cases, inl, inr,
  if◌then◌else◌, lookup, lookup-insert, number_key, ==_iff, ◌≡◌, refl, subst, arith,
}
use rsiprtp.Transaction.Messages.{
  Messages, sip_request, sip_response, invite, ack, prack, same_method,
}
use rsiprtp.Transaction.TransactionId.{id_key, same_id_iff, from_request}
use rsiprtp.Transaction.Client.Invite as InviteClient
use rsiprtp.Transaction.Client.Invite.{InviteClientTransaction}
use rsiprtp.Transaction.Client.NonInvite as NonInviteClient
use rsiprtp.Transaction.Client.NonInvite.{NonInviteClientTransaction}
use rsiprtp.Transaction.Server.Invite as InviteServer
use rsiprtp.Transaction.Server.Invite.{InviteServerTransaction}
use rsiprtp.Transaction.Server.NonInvite as NonInviteServer
use rsiprtp.Transaction.Server.NonInvite.{NonInviteServerTransaction}
use rsiprtp.Transaction.Manager.{
  TransactionManager, new, create_client_transaction, create_server_transaction, route_prack,
  route_request, handle_request, handle_message, poll_actions, TransactionHandle, invite_client,
  non_invite_client, invite_server, non_invite_server,
}
use rsiprtp.Transaction.Manager.Store.{
  alloc_handle, register, put_invite_client, put_non_invite_client, put_invite_server,
  put_non_invite_server,
}
use rsiprtp.Transaction.Manager.View.{Transaction, find}
use rsiprtp.Transaction.Manager.WellFormed.{Consistent, transaction_id}
use rsiprtp.Transaction.Manager.Run.{
  Input, create, message, call, poll, cleanup, step, run, Room, route_request-Consistent,
}
use rsiprtp.Transaction.Manager.Invariant.{
  route_prack-Same, start-Consistent, route_request-Same, handle_response-Same, perform-Same,
  cleanup_terminated-next, step-Consistent, run-Consistent, run-next,
}

module _ {M : Messages} where
  -- The id of the transaction leads to the handle.
  abbrev pub Indexed : TransactionManager M → TransactionHandle → Option (Transaction M) → Type 0
  Indexed m h none = Unit {0}
  Indexed m h (some tx) = lookup (transaction_id tx) m.id_to_handle ≡ some h

  -- The handle has no transaction, or one whose id leads to it.
  abbrev pub Found : TransactionManager M → TransactionHandle → Type 0
  Found m h = Indexed m h (find m h)

  unused-Found :
      (m : TransactionManager M) (h : TransactionHandle)
      → m.next_handle ≤ h
      → Consistent m
      → Found m h
  unused-Found m h le v = rw (v.fresh h le) tt

  alloc_handle-Found :
      (m : TransactionManager M) → Consistent m → Found (alloc_handle m) m.next_handle
  unfolding alloc_handle
  alloc_handle-Found m v = rw (v.fresh m.next_handle (omega arith)) tt

  create_invite_client-Found :
      (m : TransactionManager M) (tx : InviteClientTransaction M)
      → Found
          (register tx.id m.next_handle invite_client
            (put_invite_client m.next_handle tx (alloc_handle m)))
          m.next_handle
  unfolding alloc_handle register put_invite_client
  create_invite_client-Found m tx =
      let n = m.next_handle in
      let new = record tx { actions = [] } in
      let id = tx.id in
      rw
        (
          lookup-insert n n invite_client m.handle_to_type,
          (==_iff n n).1 refl,
          lookup-insert n n new m.invite_clients,
          (==_iff n n).1 refl,
        )
        (rw (lookup-insert id id n m.id_to_handle, (same_id_iff id id).1 refl) refl)

  create_non_invite_client-Found :
      (m : TransactionManager M) (tx : NonInviteClientTransaction M)
      → Found
          (register tx.id m.next_handle non_invite_client
            (put_non_invite_client m.next_handle tx (alloc_handle m)))
          m.next_handle
  unfolding alloc_handle register put_non_invite_client
  create_non_invite_client-Found m tx =
      let n = m.next_handle in
      let new = record tx { actions = [] } in
      let id = tx.id in
      rw
        (
          lookup-insert n n non_invite_client m.handle_to_type,
          (==_iff n n).1 refl,
          lookup-insert n n new m.non_invite_clients,
          (==_iff n n).1 refl,
        )
        (rw (lookup-insert id id n m.id_to_handle, (same_id_iff id id).1 refl) refl)

  create_invite_server-Found :
      (m : TransactionManager M) (tx : InviteServerTransaction M)
      → Found
          (register tx.id m.next_handle invite_server
            (put_invite_server m.next_handle tx (alloc_handle m)))
          m.next_handle
  unfolding alloc_handle register put_invite_server
  create_invite_server-Found m tx =
      let n = m.next_handle in
      let new = record tx { actions = [] } in
      let id = tx.id in
      rw
        (
          lookup-insert n n invite_server m.handle_to_type,
          (==_iff n n).1 refl,
          lookup-insert n n new m.invite_servers,
          (==_iff n n).1 refl,
        )
        (rw (lookup-insert id id n m.id_to_handle, (same_id_iff id id).1 refl) refl)

  create_non_invite_server-Found :
      (m : TransactionManager M) (tx : NonInviteServerTransaction M)
      → Found
          (register tx.id m.next_handle non_invite_server
            (put_non_invite_server m.next_handle tx (alloc_handle m)))
          m.next_handle
  unfolding alloc_handle register put_non_invite_server
  create_non_invite_server-Found m tx =
      let n = m.next_handle in
      let new = record tx { actions = [] } in
      let id = tx.id in
      rw
        (
          lookup-insert n n non_invite_server m.handle_to_type,
          (==_iff n n).1 refl,
          lookup-insert n n new m.non_invite_servers,
          (==_iff n n).1 refl,
        )
        (rw (lookup-insert id id n m.id_to_handle, (same_id_iff id id).1 refl) refl)

  create_client_transaction-Found :
      (r : M.Request) (m : TransactionManager M)
      → Consistent m
      → Found (create_client_transaction r m).1 m.next_handle
  unfolding create_client_transaction
  create_client_transaction-Found r m v = elim (Bool-cases (same_method (M.method r) invite)) [
    | inl is_invite ↦ elim (Option-cases (InviteClient.new M r (alloc_handle m).reliable)) [
      | inl bad ↦ rw (create_client_transaction, is_invite, bad) (alloc_handle-Found m v)
      | inr (tx, made) ↦
          rw (create_client_transaction, is_invite, made) (create_invite_client-Found m tx)
    ]
    | inr not_invite ↦ elim (Option-cases (NonInviteClient.new M r (alloc_handle m).reliable)) [
      | inl bad ↦ rw (create_client_transaction, not_invite, bad) (alloc_handle-Found m v)
      | inr (tx, made) ↦
          rw (create_client_transaction, not_invite, made) (create_non_invite_client-Found m tx)
    ]
  ]

  create_server_transaction-Found :
      (r : M.Request) (m : TransactionManager M)
      → Consistent m
      → Found (create_server_transaction r m) m.next_handle
  unfolding create_server_transaction
  create_server_transaction-Found r m v = elim (Bool-cases (same_method (M.method r) invite)) [
    | inl is_invite ↦ elim (Option-cases (InviteServer.new M r (alloc_handle m).reliable)) [
      | inl bad ↦ rw (create_server_transaction, is_invite, bad) (alloc_handle-Found m v)
      | inr (tx, made) ↦
          rw (create_server_transaction, is_invite, made) (create_invite_server-Found m tx)
    ]
    | inr not_invite ↦ elim (Bool-cases (same_method (M.method r) ack)) [
      | inl is_ack ↦ rw (create_server_transaction, not_invite, is_ack) (alloc_handle-Found m v)
      | inr not_ack ↦ elim (Option-cases (NonInviteServer.new M r (alloc_handle m).reliable)) [
        | inl bad ↦
            rw (create_server_transaction, not_invite, not_ack, bad) (alloc_handle-Found m v)
        | inr (tx, made) ↦
            rw (create_server_transaction, not_invite, not_ack, made)
              (create_non_invite_server-Found m tx)
      ]
    ]
  ]

  handle_request-Found :
      (r : M.Request) (m : TransactionManager M)
      → Room m
      → Consistent m
      → Found (handle_request r m) m.next_handle
  unfolding handle_request
  handle_request-Found r m room v =
      let start = if same_method (M.method r) prack then route_prack r m else m in
      let kept : start.next_handle ≡ m.next_handle = ground (arith, (route_prack-Same r m).0) in
      let ready : Consistent start = start-Consistent r m v in
      let created : Found (create_server_transaction r start) m.next_handle =
        subst (Found (create_server_transaction r start)) kept
          (create_server_transaction-Found r start ready) in
      elim (Option-cases (from_request M r)) [
        | inl missing ↦ rw (handle_request, missing) created
        | inr (id, known) ↦ elim (Option-cases (lookup id start.id_to_handle)) [
          | inl unused ↦ rw (handle_request, known, unused) created
          | inr (h, leads) ↦
              rw (handle_request, known, leads)
                (unused-Found (route_request h r start) m.next_handle
                  (ground (arith, kept, (route_request-Same h r start).0))
                  (route_request-Consistent h r start ready))
        ]
      ]

  step-Found :
      (m : TransactionManager M) (i : Input M)
      → Room m
      → Consistent m
      → Found (step m i) m.next_handle
  unfolding step handle_message poll_actions
  step-Found m (create r) room v = create_client_transaction-Found r m v
  step-Found m (message (sip_request r)) room v = handle_request-Found r m room v
  step-Found m (message (sip_response r)) room v =
      unused-Found (step m (message (sip_response r))) m.next_handle
        (ground (arith, (handle_response-Same r m).0))
        (step-Consistent m (message (sip_response r)) room v)
  step-Found m (call h c) room v =
      unused-Found (step m (call h c)) m.next_handle (ground (arith, (perform-Same m h c).0))
        (step-Consistent m (call h c) room v)
  step-Found m poll room v =
      unused-Found (step m poll) m.next_handle (omega arith) (step-Consistent m poll room v)
  step-Found m cleanup room v =
      unused-Found (step m cleanup) m.next_handle (ground (arith, cleanup_terminated-next m))
        (step-Consistent m cleanup room v)

  -- From a new manager, over any sequence of calls that is too short to use up the handles of 64 bits,
  -- the tables stay in agreement: no table of transactions has two entries of one handle, an entry of
  -- such a table has the table's type, a handle that has a type has a transaction of that type, an unused
  -- handle has no entry, and an id leads to a transaction with that id. If one more call makes a
  -- transaction, that transaction's id leads to it.
  pub tables_agree :
      (reliable : Bool) (is : List (Input M)) (i : Input M)
      → length is + 1 < 18446744073709551615
      → let m = run (new M reliable) is in Consistent m × Found (step m i) m.next_handle
  unfolding new
  tables_agree reliable is i short =
      let m = run (new M reliable) is in
      let v = run-Consistent reliable is (omega arith) in
      (v, step-Found m i (ground (arith, run-next (new M reliable) is)) v)
