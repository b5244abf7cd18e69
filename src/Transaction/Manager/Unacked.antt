-- ===== src/Transaction/Manager/Unacked.antt =====
-- The ids that lead to a server transaction, crates/rsiprtp/src/transaction/manager.rs, and the method
-- ACK.
use rsiprtp.Common.{
  ◌+◌, ◌<◌, List, [], ◌∷◌, length, Bool, true, false, Option, none, some, Option-cases, Bool-cases,
  inl, inr, if◌then◌else◌, lookup, insert, remove_all, lookup-insert, lookup-remove_all, number_key,
  ==_iff, ◌≡◌, ◌≢◌, refl, arith,
}
use rsiprtp.Transaction.Messages.{
  Messages, sip_request, sip_response, invite, ack, prack, same_method, same_method_iff,
}
use rsiprtp.Transaction.TransactionId.{TransactionId, id_key, same_id_iff, from_request}
use rsiprtp.Transaction.Client.Invite as InviteClient
use rsiprtp.Transaction.Client.NonInvite as NonInviteClient
use rsiprtp.Transaction.Server.Invite as InviteServer
use rsiprtp.Transaction.Server.Invite.{InviteServerTransaction}
use rsiprtp.Transaction.Server.NonInvite as NonInviteServer
use rsiprtp.Transaction.Server.NonInvite.{NonInviteServerTransaction}
use rsiprtp.Transaction.Manager.{
  TransactionManager, create_client_transaction, create_server_transaction, route_prack,
  route_request, handle_request, handle_message, handle_response, poll_actions, cleanup_terminated,
  TransactionHandle, TransactionType, invite_client, non_invite_client, invite_server,
  non_invite_server,
}
use rsiprtp.Transaction.Manager.Store.{
  alloc_handle, register, put_invite_client, put_non_invite_client, put_invite_server,
  put_non_invite_server,
}
use rsiprtp.Transaction.Manager.Cleanup.{
  clean_invite_clients, clean_non_invite_clients, clean_invite_servers, clean_non_invite_servers,
}
use rsiprtp.Transaction.Manager.View.{perform}
use rsiprtp.Transaction.Manager.WellFormed.{Consistent}
use rsiprtp.Transaction.Manager.Run.{
  Input, create, message, call, poll, cleanup, step, run, Room, route_prack-Consistent,
}
use rsiprtp.Transaction.Manager.Invariant.{
  Same, route_prack-Same, route_request-Same, handle_response-Same, perform-Same, step-Consistent,
  step-next,
}

abbrev pub is_server : Option TransactionType → Bool
is_server none = false
is_server (some invite_client) = false
is_server (some non_invite_client) = false
is_server (some invite_server) = true
is_server (some non_invite_server) = true

-- No id with the method ACK leads to a server transaction.
abbrev pub Unacked :
    List (TransactionId × TransactionHandle) → List (TransactionHandle × TransactionType) → Type 0
Unacked ids types =
    (id : TransactionId) (h : TransactionHandle)
    → same_method id.method ack ≡ true
    → lookup id ids ≡ some h
    → is_server (lookup h types) ≡ false

insert-Unacked :
    (id : TransactionId) (k : TransactionHandle) (type : TransactionType)
    (ids : List (TransactionId × TransactionHandle))
    (types : List (TransactionHandle × TransactionType))
    → ((j : TransactionId) → lookup j ids ≢ some k)
    → (same_method id.method ack ≡ true → is_server (some type) ≡ false)
    → Unacked ids types
    → Unacked (insert id k ids) (insert k type types)
insert-Unacked id k type ids types fresh own free j h is_ack leads = ground (
  arith,
  same_id_iff id j,
  ==_iff k h,
  lookup-insert id j k ids,
  lookup-insert k h type types,
  free j h is_ack,
  fresh j,
  own,
)

remove_all-Unacked :
    (gone_ids : List TransactionId) (gone : List TransactionHandle)
    (ids : List (TransactionId × TransactionHandle))
    (types : List (TransactionHandle × TransactionType))
    → Unacked ids types
    → Unacked (remove_all gone_ids ids) (remove_all gone types)
remove_all-Unacked gone_ids gone ids types free j h is_ack leads =
    ground
      (arith, lookup-remove_all gone_ids j ids, lookup-remove_all gone h types, free j h is_ack)

module _ {M : Messages} where
  abbrev pub Holds : TransactionManager M → Type 0
  Holds m = Unacked m.id_to_handle m.handle_to_type

  Holds-of_Same : (m n : TransactionManager M) → Same m n → Holds m → Holds n
  Holds-of_Same m n (a, b, c) free = rw (b, c) free

  unused :
      (m : TransactionManager M)
      → Consistent m
      → (id : TransactionId) → lookup id m.id_to_handle ≢ some m.next_handle
  unused m v id leads = ground (arith, v.known id, v.fresh m.next_handle (omega arith))

  invite_server_method :
      (r : M.Request) (reliable : Bool) (tx : InviteServerTransaction M)
      → InviteServer.new M r reliable ≡ some tx
      → tx.id.method ≡ M.method r
  unfolding InviteServer.new from_request
  invite_server_method r reliable tx made = ground arith

  non_invite_server_method :
      (r : M.Request) (reliable : Bool) (tx : NonInviteServerTransaction M)
      → NonInviteServer.new M r reliable ≡ some tx
      → tx.id.method ≡ M.method r
  unfolding NonInviteServer.new from_request
  non_invite_server_method r reliable tx made = ground arith

  create_client_transaction-Holds :
      (r : M.Request) (m : TransactionManager M)
      → Consistent m
      → Holds m
      → Holds (create_client_transaction r m).1
  unfolding create_client_transaction alloc_handle register put_invite_client put_non_invite_client
  create_client_transaction-Holds r m v free =
      let n = m.next_handle in
      let ids = m.id_to_handle in
      elim (Bool-cases (same_method (M.method r) invite)) [
        | inl is_invite ↦ elim (Option-cases (InviteClient.new M r m.reliable)) [
          | inl bad ↦ rw (is_invite, bad) free
          | inr (tx, made) ↦
              rw (is_invite, made)
                (insert-Unacked tx.id n invite_client ids m.handle_to_type (unused m v) (λ e. refl)
                  free)
        ]
        | inr not_invite ↦ elim (Option-cases (NonInviteClient.new M r m.reliable)) [
          | inl bad ↦ rw (not_invite, bad) free
          | inr (tx, made) ↦
              rw (not_invite, made)
                (insert-Unacked tx.id n non_invite_client ids m.handle_to_type (unused m v)
                  (λ e. refl) free)
        ]
      ]

  create_server_transaction-Holds :
      (r : M.Request) (m : TransactionManager M)
      → Consistent m
      → Holds m
      → Holds (create_server_transaction r m)
  unfolding create_server_transaction alloc_handle register put_invite_server put_non_invite_server
  create_server_transaction-Holds r m v free =
      let n = m.next_handle in
      let ids = m.id_to_handle in
      elim (Bool-cases (same_method (M.method r) invite)) [
        | inl is_invite ↦ elim (Option-cases (InviteServer.new M r m.reliable)) [
          | inl bad ↦ rw (is_invite, bad) free
          | inr (tx, made) ↦
              rw (is_invite, made)
                (insert-Unacked tx.id n invite_server ids m.handle_to_type (unused m v)
                  (ground (
                    arith,
                    invite_server_method r m.reliable tx made,
                    same_method_iff (M.method r) invite,
                  ))
                  free)
        ]
        | inr not_invite ↦ elim (Bool-cases (same_method (M.method r) ack)) [
          | inl is_ack ↦ rw (not_invite, is_ack) free
          | inr not_ack ↦ elim (Option-cases (NonInviteServer.new M r m.reliable)) [
            | inl bad ↦ rw (not_invite, not_ack, bad) free
            | inr (tx, made) ↦
                rw (not_invite, not_ack, made)
                  (insert-Unacked tx.id n non_invite_server ids m.handle_to_type (unused m v)
                    (ground (arith, non_invite_server_method r m.reliable tx made)) free)
          ]
        ]
      ]

  cleanup_terminated-Holds : (m : TransactionManager M) → Holds m → Holds (cleanup_terminated m)
  unfolding cleanup_terminated clean_invite_clients clean_non_invite_clients clean_invite_servers
      clean_non_invite_servers
  cleanup_terminated-Holds m free =
      remove_all-Unacked _ _ _ _
        (remove_all-Unacked _ _ _ _ (remove_all-Unacked _ _ _ _ (remove_all-Unacked _ _ _ _ free)))

  handle_request-Holds :
      (r : M.Request) (m : TransactionManager M)
      → Room m
      → Consistent m
      → Holds m
      → Holds (handle_request r m)
  unfolding handle_request
  handle_request-Holds r m room v free =
      let start = if same_method (M.method r) prack then route_prack r m else m in
      let ready : Consistent start × Holds start =
        elim (Bool-cases (same_method (M.method r) prack)) [
          | inl is_prack ↦ rw is_prack (
            route_prack-Consistent r m v,
            Holds-of_Same m (route_prack r m) (route_prack-Same r m) free,
          )
          | inr other ↦ rw other (v, free)
        ] in
      let made = create_server_transaction-Holds r start ready.0 ready.1 in
      elim (Option-cases (from_request M r)) [
        | inl missing ↦ rw (handle_request, missing) made
        | inr (id, known) ↦ elim (Option-cases (lookup id start.id_to_handle)) [
          | inl absent ↦ rw (handle_request, known, absent) made
          | inr (h, leads) ↦
              rw (handle_request, known, leads)
                (Holds-of_Same start (route_request h r start) (route_request-Same h r start)
                  ready.1)
        ]
      ]

  step-Holds :
      (m : TransactionManager M) (i : Input M) → Room m → Consistent m → Holds m → Holds (step m i)
  unfolding step handle_message poll_actions
  step-Holds m (create r) room v free = create_client_transaction-Holds r m v free
  step-Holds m (message (sip_request r)) room v free = handle_request-Holds r m room v free
  step-Holds m (message (sip_response r)) room v free =
      Holds-of_Same m (handle_response r m) (handle_response-Same r m) free
  step-Holds m (call h c) room v free = Holds-of_Same m (perform h c m) (perform-Same m h c) free
  step-Holds m poll room v free = free
  step-Holds m cleanup room v free = cleanup_terminated-Holds m free

  pub run-Holds :
      (m : TransactionManager M) (is : List (Input M))
      → m.next_handle + length is < 18446744073709551616
      → Consistent m
      → Holds m
      → Holds (run m is)
  unfolding run
  run-Holds m [] room v free = free
  run-Holds m (i ∷ is) room v free =
      let near : Room m = ground arith in
      run-Holds (step m i) is (ground (arith, step-next m i)) (step-Consistent m i near v)
        (step-Holds m i near v free)
