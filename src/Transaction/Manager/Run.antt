-- ===== src/Transaction/Manager/Run.antt =====
-- Sequences of calls of the manager, crates/rsiprtp/src/transaction/manager.rs, and its tables after
-- each call.
use rsiprtp.Common.{◌+◌, ◌<◌, List, [], ◌∷◌, Option-cases, Bool-cases, inl, inr, lookup, number_key}
use rsiprtp.Transaction.Timer.{Timer}
use rsiprtp.Transaction.Messages.{Messages, SipMessage, invite, ack, same_method}
use rsiprtp.Transaction.TransactionId.{id_key}
use rsiprtp.Transaction.Client.Invite as InviteClient
use rsiprtp.Transaction.Client.Invite.{InviteClientTransaction}
use rsiprtp.Transaction.Client.NonInvite as NonInviteClient
use rsiprtp.Transaction.Client.NonInvite.{NonInviteClientTransaction}
use rsiprtp.Transaction.Server.Invite as InviteServer
use rsiprtp.Transaction.Server.Invite.{InviteServerTransaction}
use rsiprtp.Transaction.Server.NonInvite as NonInviteServer
use rsiprtp.Transaction.Server.NonInvite.{NonInviteServerTransaction}
use rsiprtp.Transaction.Manager.{
  TransactionManager, create_client_transaction, create_server_transaction, route_prack,
  route_request, handle_message, handle_timeout, send_response, handle_transport_error,
  poll_actions, cleanup_terminated, find_invite_dialog, TransactionHandle, invite_client,
  non_invite_client, invite_server, non_invite_server,
}
use rsiprtp.Transaction.Manager.Store.{alloc_handle}
use rsiprtp.Transaction.Manager.View.{Call, perform}
use rsiprtp.Transaction.Manager.WellFormed.{
  Consistent, with_invite_client-Consistent, with_non_invite_client-Consistent,
  with_invite_server-Consistent, with_non_invite_server-Consistent,
}
use rsiprtp.Transaction.Manager.Creation.{alloc_handle-Consistent}
use rsiprtp.Transaction.Manager.Creation.Clients.{
  create_invite_client-Consistent, create_non_invite_client-Consistent,
}
use rsiprtp.Transaction.Manager.Creation.Servers.{
  create_invite_server-Consistent, create_non_invite_server-Consistent,
}
use rsiprtp.Transaction.Manager.Ids

pub data Input (M : Messages) : Type 0 where
  create : M.Request → Input M
  message : SipMessage M → Input M
  call : TransactionHandle → Call M → Input M
  poll : Input M
  cleanup : Input M

module _ {M : Messages} where
  unfoldable pub step : TransactionManager M → Input M → TransactionManager M
  step m (create r) = (create_client_transaction r m).1
  step m (message s) = handle_message s m
  step m (call h c) = perform h c m
  step m poll = (poll_actions m).0
  step m cleanup = cleanup_terminated m

  unfoldable pub run : TransactionManager M → List (Input M) → TransactionManager M
  run m [] = m
  run m (i ∷ is) = run (step m i) is

  abbrev pub Room : TransactionManager M → Type 0
  Room m = m.next_handle + 1 < 18446744073709551616

  pub create_client_transaction-Consistent :
      (r : M.Request) (m : TransactionManager M)
      → Room m
      → Consistent m
      → Consistent (create_client_transaction r m).1
  unfolding create_client_transaction
  create_client_transaction-Consistent r m room v =
      let spent = alloc_handle-Consistent m room v in
      elim (Bool-cases (same_method (M.method r) invite)) [
        | inl is_invite ↦ elim (Option-cases (InviteClient.new M r (alloc_handle m).reliable)) [
          | inl bad ↦ rw (create_client_transaction, is_invite, bad) spent
          | inr (tx, made) ↦
              rw (create_client_transaction, is_invite, made)
                (create_invite_client-Consistent m tx room v)
        ]
        | inr not_invite ↦ elim (Option-cases (NonInviteClient.new M r (alloc_handle m).reliable)) [
          | inl bad ↦ rw (create_client_transaction, not_invite, bad) spent
          | inr (tx, made) ↦
              rw (create_client_transaction, not_invite, made)
                (create_non_invite_client-Consistent m tx room v)
        ]
      ]

  pub create_server_transaction-Consistent :
      (r : M.Request) (m : TransactionManager M)
      → Room m
      → Consistent m
      → Consistent (create_server_transaction r m)
  unfolding create_server_transaction
  create_server_transaction-Consistent r m room v =
      let spent = alloc_handle-Consistent m room v in
      elim (Bool-cases (same_method (M.method r) invite)) [
        | inl is_invite ↦ elim (Option-cases (InviteServer.new M r (alloc_handle m).reliable)) [
          | inl bad ↦ rw (create_server_transaction, is_invite, bad) spent
          | inr (tx, made) ↦
              rw (create_server_transaction, is_invite, made)
                (create_invite_server-Consistent m tx room v)
        ]
        | inr not_invite ↦ elim (Bool-cases (same_method (M.method r) ack)) [
          | inl is_ack ↦ rw (create_server_transaction, not_invite, is_ack) spent
          | inr not_ack ↦ elim (Option-cases (NonInviteServer.new M r (alloc_handle m).reliable)) [
            | inl bad ↦ rw (create_server_transaction, not_invite, not_ack, bad) spent
            | inr (tx, made) ↦
                rw (create_server_transaction, not_invite, not_ack, made)
                  (create_non_invite_server-Consistent m tx room v)
          ]
        ]
      ]

  pub route_prack-Consistent :
      (r : M.Request) (m : TransactionManager M) → Consistent m → Consistent (route_prack r m)
  unfolding route_prack
  route_prack-Consistent r m v = elim (Option-cases (M.rack r)) [
    | inl missing ↦ rw (route_prack, missing) v
    | inr (rseq, a) ↦ elim (Option-cases (M.call_id r)) [
      | inl missing ↦ rw (route_prack, a, missing) v
      | inr (call_id, b) ↦ elim (Option-cases (M.from_tag r)) [
        | inl missing ↦ rw (route_prack, a, b, missing) v
        | inr (from_tag, c) ↦
            elim (Option-cases (find_invite_dialog call_id from_tag m.invite_servers)) [
              | inl missing ↦ rw (route_prack, a, b, c, missing) v
              | inr (h, found) ↦
                  rw (route_prack, a, b, c, found)
                    (with_invite_server-Consistent m h
                      (λ tx. InviteServer.handle_event tx (InviteServer.prack_received rseq))
                      (λ tx.
                        Ids.invite_server_handle_event_keeps_id tx
                          (InviteServer.prack_received rseq))
                      v)
            ]
      ]
    ]
  ]

  pub route_request-Consistent :
      (h : TransactionHandle) (r : M.Request) (m : TransactionManager M)
      → Consistent m
      → Consistent (route_request h r m)
  unfolding route_request
  route_request-Consistent h r m v = elim (Option-cases (lookup h m.handle_to_type)) [
    | inl unknown ↦ rw (route_request, unknown) v
    | inr (invite_client, typed) ↦ rw (route_request, typed) v
    | inr (non_invite_client, typed) ↦ rw (route_request, typed) v
    | inr (invite_server, typed) ↦
        rw (route_request, typed)
          (with_invite_server-Consistent m h (λ tx. InviteServer.handle_request tx r)
            (λ tx. Ids.invite_server_handle_request_keeps_id tx r) v)
    | inr (non_invite_server, typed) ↦
        rw (route_request, typed)
          (with_non_invite_server-Consistent m h (λ tx. NonInviteServer.handle_request tx r)
            (λ tx. Ids.non_invite_server_handle_request_keeps_id tx r) v)
  ]

  pub handle_timeout-Consistent :
      (h : TransactionHandle) (t : Timer) (m : TransactionManager M)
      → Consistent m
      → Consistent (handle_timeout h t m)
  unfolding handle_timeout
  handle_timeout-Consistent h t m v = elim (Option-cases (lookup h m.handle_to_type)) [
    | inl unknown ↦ rw (handle_timeout, unknown) v
    | inr (invite_client, typed) ↦
        rw (handle_timeout, typed)
          (with_invite_client-Consistent m h (λ tx. InviteClient.handle_timeout tx t)
            (λ tx. Ids.invite_client_handle_timeout_keeps_id tx t) v)
    | inr (non_invite_client, typed) ↦
        rw (handle_timeout, typed)
          (with_non_invite_client-Consistent m h (λ tx. NonInviteClient.handle_timeout tx t)
            (λ tx. Ids.non_invite_client_handle_timeout_keeps_id tx t) v)
    | inr (invite_server, typed) ↦
        rw (handle_timeout, typed)
          (with_invite_server-Consistent m h (λ tx. InviteServer.handle_timeout tx t)
            (λ tx. Ids.invite_server_handle_timeout_keeps_id tx t) v)
    | inr (non_invite_server, typed) ↦
        rw (handle_timeout, typed)
          (with_non_invite_server-Consistent m h (λ tx. NonInviteServer.handle_timeout tx t)
            (λ tx. Ids.non_invite_server_handle_timeout_keeps_id tx t) v)
  ]

  pub send_response-Consistent :
      (h : TransactionHandle) (r : M.Response) (m : TransactionManager M)
      → Consistent m
      → Consistent (send_response h r m)
  unfolding send_response
  send_response-Consistent h r m v = elim (Option-cases (lookup h m.handle_to_type)) [
    | inl unknown ↦ rw (send_response, unknown) v
    | inr (invite_client, typed) ↦ rw (send_response, typed) v
    | inr (non_invite_client, typed) ↦ rw (send_response, typed) v
    | inr (invite_server, typed) ↦
        rw (send_response, typed)
          (with_invite_server-Consistent m h (λ tx. InviteServer.send_response tx r)
            (λ tx. Ids.invite_server_send_response_keeps_id tx r) v)
    | inr (non_invite_server, typed) ↦
        rw (send_response, typed)
          (with_non_invite_server-Consistent m h (λ tx. NonInviteServer.send_response tx r)
            (λ tx. Ids.non_invite_server_send_response_keeps_id tx r) v)
  ]

  pub handle_transport_error-Consistent :
      (h : TransactionHandle) (m : TransactionManager M)
      → Consistent m
      → Consistent (handle_transport_error h m)
  unfolding handle_transport_error
  handle_transport_error-Consistent h m v = elim (Option-cases (lookup h m.handle_to_type)) [
    | inl unknown ↦ rw (handle_transport_error, unknown) v
    | inr (invite_client, typed) ↦
        rw (handle_transport_error, typed)
          (with_invite_client-Consistent m h (λ tx. InviteClient.handle_transport_error tx)
            (λ tx. Ids.invite_client_handle_transport_error_keeps_id tx) v)
    | inr (non_invite_client, typed) ↦
        rw (handle_transport_error, typed)
          (with_non_invite_client-Consistent m h (λ tx. NonInviteClient.handle_transport_error tx)
            (λ tx. Ids.non_invite_client_handle_transport_error_keeps_id tx) v)
    | inr (invite_server, typed) ↦
        rw (handle_transport_error, typed)
          (with_invite_server-Consistent m h (λ tx. InviteServer.handle_transport_error tx)
            (λ tx. Ids.invite_server_handle_transport_error_keeps_id tx) v)
    | inr (non_invite_server, typed) ↦
        rw (handle_transport_error, typed)
          (with_non_invite_server-Consistent m h (λ tx. NonInviteServer.handle_transport_error tx)
            (λ tx. Ids.non_invite_server_handle_transport_error_keeps_id tx) v)
  ]
