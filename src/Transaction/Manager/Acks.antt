-- ===== src/Transaction/Manager/Acks.antt =====
-- What the manager does with an ACK request, crates/rsiprtp/src/transaction/manager.rs.
use rsiprtp.Common.{
  ◌<◌, List, length, Bool, true, false, some, Option-cases, inl, inr, lookup, number_key, ◌≡◌, ◌⊎◌,
  refl, arith,
}
use rsiprtp.Transaction.Messages.{Messages, ack, prack, same_method}
use rsiprtp.Transaction.TransactionId.{TransactionId, id_key, from_request}
use rsiprtp.Transaction.Manager.{
  TransactionManager, new, create_server_transaction, route_request, handle_request,
  TransactionHandle, invite_client, non_invite_client, invite_server, non_invite_server,
}
use rsiprtp.Transaction.Manager.Store.{alloc_handle}
use rsiprtp.Transaction.Manager.View.{find}
use rsiprtp.Transaction.Manager.Run.{Input, run}
use rsiprtp.Transaction.Manager.Invariant.{new-Consistent}
use rsiprtp.Transaction.Manager.Unacked.{is_server, Holds, run-Holds}

from_request_method :
    (M : Messages) (r : M.Request) (id : TransactionId)
    → from_request M r ≡ some id
    → id.method ≡ M.method r
unfolding from_request
from_request_method M r id known = ground arith

module _ {M : Messages} where
  find-alloc_handle :
      (m : TransactionManager M) (h : TransactionHandle) → find (alloc_handle m) h ≡ find m h
  unfolding alloc_handle
  find-alloc_handle m h = ground arith

  alloc_handle-actions : (m : TransactionManager M) → (alloc_handle m).actions ≡ m.actions
  unfolding alloc_handle
  alloc_handle-actions m = refl

  route_request_to_client :
      (h : TransactionHandle) (r : M.Request) (m : TransactionManager M)
      → is_server (lookup h m.handle_to_type) ≡ false
      → route_request h r m ≡ m
  unfolding route_request
  route_request_to_client h r m client = elim (Option-cases (lookup h m.handle_to_type)) [
    | inl unknown ↦ rw (route_request, unknown) refl
    | inr (invite_client, typed) ↦ rw (route_request, typed) refl
    | inr (non_invite_client, typed) ↦ rw (route_request, typed) refl
    | inr (invite_server, typed) ↦ ground arith
    | inr (non_invite_server, typed) ↦ ground arith
  ]

  create_server_transaction_ack :
      (r : M.Request) (m : TransactionManager M)
      → M.method r ≡ ack
      → create_server_transaction r m ≡ alloc_handle m
  unfolding create_server_transaction
  create_server_transaction_ack r m e = rw e refl

  ack_outcome :
      (m : TransactionManager M) (r : M.Request)
      → M.method r ≡ ack
      → Holds m
      → (handle_request r m ≡ m) ⊎ (handle_request r m ≡ alloc_handle m)
  unfolding handle_request
  ack_outcome m r e free =
      let not_prack : same_method (M.method r) prack ≡ false = rw e refl in
      let is_ack : (id : TransactionId)
          → from_request M r ≡ some id
          → same_method id.method ack ≡ true =
        λ id known. rw (from_request_method M r id known, e) refl in
      elim (Option-cases (from_request M r)) [
        | inl missing ↦
            inr (rw (handle_request, missing, not_prack) (create_server_transaction_ack r m e))
        | inr (id, known) ↦ elim (Option-cases (lookup id m.id_to_handle)) [
          | inl absent ↦ inr (
              rw (handle_request, known, not_prack, absent, not_prack)
                (create_server_transaction_ack r m e))
          | inr (h, leads) ↦ inl (
              rw (handle_request, known, not_prack, leads, not_prack)
                (route_request_to_client h r m (free id h (is_ack id known) leads)))
        ]
      ]

  ack_dropped :
      (m : TransactionManager M) (r : M.Request)
      → M.method r ≡ ack
      → Holds m
      → ((h : TransactionHandle) → find (handle_request r m) h ≡ find m h)
        × ((handle_request r m).actions ≡ m.actions)
  ack_dropped m r e free = elim (ack_outcome m r e free) [
    | inl same ↦ rw same (λ h. refl, refl)
    | inr spent ↦ rw spent (λ h. find-alloc_handle m h, alloc_handle-actions m)
  ]

  -- After any sequence of calls on a new manager that is too short to use up the handles of 64 bits, an
  -- ACK request leaves every transaction as it was and queues no action: it reaches no INVITE server
  -- transaction.
  pub ack_reaches_nothing :
      (reliable : Bool) (is : List (Input M)) (r : M.Request)
      → length is < 18446744073709551615
      → M.method r ≡ ack
      → let m = run (new M reliable) is in
        ((h : TransactionHandle) → find (handle_request r m) h ≡ find m h)
        × ((handle_request r m).actions ≡ m.actions)
  unfolding new lookup
  ack_reaches_nothing reliable is r short is_ack = ack_dropped (run (new M reliable) is) r is_ack (
      run-Holds (new M reliable) is (omega arith) (new-Consistent reliable)
        (λ id h acked leads. refl))
