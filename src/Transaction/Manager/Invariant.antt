-- ===== src/Transaction/Manager/Invariant.antt =====
-- The tables of the manager over sequences of calls, crates/rsiprtp/src/transaction/manager.rs.
use rsiprtp.Common.{
  ◌+◌, ◌<◌, ◌≤◌, List, [], ◌∷◌, length, Bool, Option-cases, Bool-cases, inl, inr, if◌then◌else◌,
  lookup, number_key, ◌≡◌, refl, arith,
}
use rsiprtp.Transaction.Messages.{Messages, sip_request, sip_response, prack, same_method}
use rsiprtp.Transaction.TransactionId.{id_key}
use rsiprtp.Transaction.Client.Invite as InviteClient
use rsiprtp.Transaction.Client.Invite.{InviteClientTransaction}
use rsiprtp.Transaction.Client.NonInvite as NonInviteClient
use rsiprtp.Transaction.Client.NonInvite.{NonInviteClientTransaction}
use rsiprtp.Transaction.Manager.{
  TransactionManager, new, create_client_transaction, create_server_transaction, route_prack,
  route_request, handle_request, handle_message, handle_response, handle_timeout, send_response,
  handle_transport_error, poll_actions, cleanup_terminated, TransactionHandle, invite_client,
  non_invite_client, invite_server, non_invite_server,
}
use rsiprtp.Transaction.TransactionId.{from_request, from_response}
use rsiprtp.Transaction.Manager.Store.{
  alloc_handle, register, put_invite_client, with_invite_client, put_non_invite_client,
  with_non_invite_client, put_invite_server, with_invite_server, put_non_invite_server,
  with_non_invite_server,
}
use rsiprtp.Transaction.Manager.View.{Call, fire, respond, fail, perform}
use rsiprtp.Transaction.Manager.WellFormed.{
  Consistent, Known-of_find, with_invite_client-Consistent, with_non_invite_client-Consistent,
}
use rsiprtp.Transaction.Manager.Removal.{cleanup_terminated-Consistent}
use rsiprtp.Transaction.Manager.Ids
use rsiprtp.Transaction.Manager.Cleanup.{
  clean_invite_clients, clean_non_invite_clients, clean_invite_servers, clean_non_invite_servers,
}
use rsiprtp.Transaction.Manager.Run.{
  Input, create, message, call, poll, cleanup, step, run, Room,
  create_client_transaction-Consistent, create_server_transaction-Consistent,
  route_prack-Consistent, route_request-Consistent, handle_timeout-Consistent,
  send_response-Consistent, handle_transport_error-Consistent,
}

module _ {M : Messages} where
  -- The counter and the tables that lead to a transaction are as before.
  abbrev pub Same : TransactionManager M → TransactionManager M → Type 0
  Same m n =
      (n.next_handle ≡ m.next_handle)
      × (n.id_to_handle ≡ m.id_to_handle)
      × (n.handle_to_type ≡ m.handle_to_type)

  pub route_prack-Same : (r : M.Request) (m : TransactionManager M) → Same m (route_prack r m)
  unfolding route_prack with_invite_server put_invite_server
  route_prack-Same r m = ground arith

  pub start-Consistent :
      (r : M.Request) (m : TransactionManager M)
      → Consistent m
      → Consistent (if same_method (M.method r) prack then route_prack r m else m)
  start-Consistent r m v = elim (Bool-cases (same_method (M.method r) prack)) [
    | inl is_prack ↦ rw is_prack (route_prack-Consistent r m v)
    | inr other ↦ rw other v
  ]

  handle_request-Consistent :
      (r : M.Request) (m : TransactionManager M)
      → Room m
      → Consistent m
      → Consistent (handle_request r m)
  unfolding handle_request
  handle_request-Consistent r m room v =
      let start = if same_method (M.method r) prack then route_prack r m else m in
      let ready : Consistent start = start-Consistent r m v in
      let room_left : Room start = ground (arith, (route_prack-Same r m).0) in
      elim (Option-cases (from_request M r)) [
        | inl missing ↦
            rw (handle_request, missing)
              (create_server_transaction-Consistent r start room_left ready)
        | inr (id, known) ↦ elim (Option-cases (lookup id start.id_to_handle)) [
          | inl unused ↦
              rw (handle_request, known, unused)
                (create_server_transaction-Consistent r start room_left ready)
          | inr (h, leads) ↦
              rw (handle_request, known, leads) (route_request-Consistent h r start ready)
        ]
      ]

  handle_response-Consistent :
      (r : M.Response) (m : TransactionManager M) → Consistent m → Consistent (handle_response r m)
  unfolding handle_response
  handle_response-Consistent r m v = elim (Option-cases (from_response M r)) [
    | inl missing ↦ rw (handle_response, missing) v
    | inr (id, known) ↦ elim (Option-cases (lookup id m.id_to_handle)) [
      | inl unused ↦ rw (handle_response, known, unused) v
      | inr (h, leads) ↦ elim (Option-cases (lookup h m.handle_to_type)) [
        | inl unknown ↦ rw (handle_response, known, leads, unknown) v
        | inr (invite_client, typed) ↦
            rw (handle_response, known, leads, typed)
              (with_invite_client-Consistent m h (λ tx. InviteClient.handle_response tx r)
                (λ tx. Ids.invite_client_handle_response_keeps_id tx r) v)
        | inr (non_invite_client, typed) ↦
            rw (handle_response, known, leads, typed)
              (with_non_invite_client-Consistent m h (λ tx. NonInviteClient.handle_response tx r)
                (λ tx. Ids.non_invite_client_handle_response_keeps_id tx r) v)
        | inr (invite_server, typed) ↦ rw (handle_response, known, leads, typed) v
        | inr (non_invite_server, typed) ↦ rw (handle_response, known, leads, typed) v
      ]
    ]
  ]

  poll_actions-Consistent :
      (m : TransactionManager M) → Consistent m → Consistent (poll_actions m).0
  unfolding poll_actions
  poll_actions-Consistent m v = record {
    invite_clients_Distinct = v.invite_clients_Distinct;
    non_invite_clients_Distinct = v.non_invite_clients_Distinct;
    invite_servers_Distinct = v.invite_servers_Distinct;
    non_invite_servers_Distinct = v.non_invite_servers_Distinct;
    invite_clients_Typed = v.invite_clients_Typed;
    non_invite_clients_Typed = v.non_invite_clients_Typed;
    invite_servers_Typed = v.invite_servers_Typed;
    non_invite_servers_Typed = v.non_invite_servers_Typed;
    standing = λ h. ground (arith, v.standing h);
    fresh = v.fresh;
    known = λ id. Known-of_find m _ id (lookup id m.id_to_handle) (λ j. ground arith) (v.known id);
  }

  pub step-Consistent :
      (m : TransactionManager M) (i : Input M) → Room m → Consistent m → Consistent (step m i)
  unfolding step handle_message perform
  step-Consistent m (create r) room v = create_client_transaction-Consistent r m room v
  step-Consistent m (message (sip_request r)) room v = handle_request-Consistent r m room v
  step-Consistent m (message (sip_response r)) room v = handle_response-Consistent r m v
  step-Consistent m (call h (fire t)) room v = handle_timeout-Consistent h t m v
  step-Consistent m (call h (respond r)) room v = send_response-Consistent h r m v
  step-Consistent m (call h fail) room v = handle_transport_error-Consistent h m v
  step-Consistent m poll room v = poll_actions-Consistent m v
  step-Consistent m cleanup room v = cleanup_terminated-Consistent m v

  create_client_transaction-next :
      (r : M.Request) (m : TransactionManager M)
      → (create_client_transaction r m).1.next_handle ≤ m.next_handle + 1
  unfolding create_client_transaction alloc_handle register put_invite_client put_non_invite_client
  create_client_transaction-next r m = ground arith

  create_server_transaction-next :
      (r : M.Request) (m : TransactionManager M)
      → (create_server_transaction r m).next_handle ≤ m.next_handle + 1
  unfolding create_server_transaction alloc_handle register put_invite_server put_non_invite_server
  create_server_transaction-next r m = ground arith

  pub route_request-Same :
      (h : TransactionHandle) (r : M.Request) (m : TransactionManager M)
      → Same m (route_request h r m)
  unfolding route_request with_invite_server put_invite_server with_non_invite_server
      put_non_invite_server
  route_request-Same h r m = ground arith

  pub handle_response-Same :
      (r : M.Response) (m : TransactionManager M) → Same m (handle_response r m)
  unfolding handle_response with_invite_client put_invite_client with_non_invite_client
      put_non_invite_client
  handle_response-Same r m = ground arith

  pub perform-Same :
      (m : TransactionManager M) (h : TransactionHandle) (c : Call M) → Same m (perform h c m)
  unfolding perform handle_timeout send_response handle_transport_error with_invite_client
      put_invite_client with_non_invite_client put_non_invite_client with_invite_server
      put_invite_server with_non_invite_server put_non_invite_server
  perform-Same m h (fire t) = ground arith
  perform-Same m h (respond r) = ground arith
  perform-Same m h fail = ground arith

  pub cleanup_terminated-next :
      (m : TransactionManager M) → (cleanup_terminated m).next_handle ≡ m.next_handle
  unfolding cleanup_terminated clean_invite_clients clean_non_invite_clients clean_invite_servers
      clean_non_invite_servers
  cleanup_terminated-next m = refl

  handle_request-next :
      (r : M.Request) (m : TransactionManager M)
      → (handle_request r m).next_handle ≤ m.next_handle + 1
  unfolding handle_request
  handle_request-next r m =
      let start = if same_method (M.method r) prack then route_prack r m else m in
      let kept : start.next_handle ≡ m.next_handle = ground (arith, (route_prack-Same r m).0) in
      elim (Option-cases (from_request M r)) [
        | inl missing ↦
            rw (handle_request, missing)
              (ground (arith, kept, create_server_transaction-next r start))
        | inr (id, known) ↦ elim (Option-cases (lookup id start.id_to_handle)) [
          | inl unused ↦
              rw (handle_request, known, unused)
                (ground (arith, kept, create_server_transaction-next r start))
          | inr (h, leads) ↦
              rw (handle_request, known, leads)
                (ground (arith, kept, (route_request-Same h r start).0))
        ]
      ]

  pub step-next :
      (m : TransactionManager M) (i : Input M) → (step m i).next_handle ≤ m.next_handle + 1
  unfolding step handle_message poll_actions
  step-next m (create r) = create_client_transaction-next r m
  step-next m (message (sip_request r)) = handle_request-next r m
  step-next m (message (sip_response r)) = ground (arith, (handle_response-Same r m).0)
  step-next m (call h c) = ground (arith, (perform-Same m h c).0)
  step-next m poll = omega arith
  step-next m cleanup = ground (arith, cleanup_terminated-next m)

  pub new-Consistent : (reliable : Bool) → Consistent (new M reliable)
  unfolding new lookup
  new-Consistent reliable = record {
    invite_clients_Distinct = tt;
    non_invite_clients_Distinct = tt;
    invite_servers_Distinct = tt;
    non_invite_servers_Distinct = tt;
    invite_clients_Typed = λ h. tt;
    non_invite_clients_Typed = λ h. tt;
    invite_servers_Typed = λ h. tt;
    non_invite_servers_Typed = λ h. tt;
    standing = λ h. refl;
    fresh = λ h le. refl;
    known = λ id. tt {0};
  }

  run_on-Consistent :
      (m : TransactionManager M) (is : List (Input M))
      → m.next_handle + length is < 18446744073709551616
      → Consistent m
      → Consistent (run m is)
  unfolding run
  run_on-Consistent m [] room v = v
  run_on-Consistent m (i ∷ is) room v =
      run_on-Consistent (step m i) is (ground (arith, step-next m i))
        (step-Consistent m i (ground arith) v)

  pub run-next :
      (m : TransactionManager M) (is : List (Input M))
      → (run m is).next_handle ≤ m.next_handle + length is
  unfolding run
  run-next m [] = omega arith
  run-next m (i ∷ is) = ground (arith, step-next m i, run-next (step m i) is)

  pub run-Consistent :
      (reliable : Bool) (is : List (Input M))
      → length is < 18446744073709551615
      → Consistent (run (new M reliable) is)
  unfolding new
  run-Consistent reliable is short =
      run_on-Consistent (new M reliable) is (omega arith) (new-Consistent reliable)
