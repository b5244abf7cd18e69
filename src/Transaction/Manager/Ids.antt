-- ===== src/Transaction/Manager/Ids.antt =====
-- No transaction changes its id.
use rsiprtp.Common.{◌≡◌, arith}
use rsiprtp.Transaction.Timer.{Timer}
use rsiprtp.Transaction.Messages.{Messages}
use rsiprtp.Transaction.Client.Invite as InviteClient
use rsiprtp.Transaction.Client.Invite.{InviteClientTransaction}
use rsiprtp.Transaction.Client.NonInvite as NonInviteClient
use rsiprtp.Transaction.Client.NonInvite.{NonInviteClientTransaction}
use rsiprtp.Transaction.Server.Invite as InviteServer
use rsiprtp.Transaction.Server.Invite.{InviteServerTransaction}
use rsiprtp.Transaction.Server.NonInvite as NonInviteServer
use rsiprtp.Transaction.Server.NonInvite.{NonInviteServerTransaction}

module _ {M : Messages} where
  pub invite_client_handle_timeout_keeps_id :
      (tx : InviteClientTransaction M) (t : Timer) → (InviteClient.handle_timeout tx t).id ≡ tx.id
  unfolding InviteClient.handle_timeout
  invite_client_handle_timeout_keeps_id tx t = ground arith

  pub invite_client_handle_response_keeps_id :
      (tx : InviteClientTransaction M) (r : M.Response)
      → (InviteClient.handle_response tx r).id ≡ tx.id
  unfolding InviteClient.handle_response InviteClient.send_ack
  invite_client_handle_response_keeps_id tx r = ground arith

  pub invite_client_handle_transport_error_keeps_id :
      (tx : InviteClientTransaction M) → (InviteClient.handle_transport_error tx).id ≡ tx.id
  unfolding InviteClient.handle_transport_error
  invite_client_handle_transport_error_keeps_id tx = ground arith

  pub non_invite_client_handle_timeout_keeps_id :
      (tx : NonInviteClientTransaction M) (t : Timer)
      → (NonInviteClient.handle_timeout tx t).id ≡ tx.id
  unfolding NonInviteClient.handle_timeout
  non_invite_client_handle_timeout_keeps_id tx t = ground arith

  pub non_invite_client_handle_response_keeps_id :
      (tx : NonInviteClientTransaction M) (r : M.Response)
      → (NonInviteClient.handle_response tx r).id ≡ tx.id
  unfolding NonInviteClient.handle_response
  non_invite_client_handle_response_keeps_id tx r = ground arith

  pub non_invite_client_handle_transport_error_keeps_id :
      (tx : NonInviteClientTransaction M) → (NonInviteClient.handle_transport_error tx).id ≡ tx.id
  unfolding NonInviteClient.handle_transport_error
  non_invite_client_handle_transport_error_keeps_id tx = ground arith

  pub invite_server_handle_timeout_keeps_id :
      (tx : InviteServerTransaction M) (t : Timer) → (InviteServer.handle_timeout tx t).id ≡ tx.id
  unfolding InviteServer.handle_timeout InviteServer.fire_timer_n
  invite_server_handle_timeout_keeps_id tx t = ground arith

  pub invite_server_handle_request_keeps_id :
      (tx : InviteServerTransaction M) (r : M.Request)
      → (InviteServer.handle_request tx r).id ≡ tx.id
  unfolding InviteServer.handle_request
  invite_server_handle_request_keeps_id tx r = ground arith

  pub invite_server_send_response_keeps_id :
      (tx : InviteServerTransaction M) (r : M.Response)
      → (InviteServer.send_response tx r).id ≡ tx.id
  unfolding InviteServer.send_response InviteServer.drain_reliable_provisionals
  invite_server_send_response_keeps_id tx r = ground arith

  pub invite_server_handle_event_keeps_id :
      (tx : InviteServerTransaction M) (e : InviteServer.Event M)
      → (InviteServer.handle_event tx e).id ≡ tx.id
  unfolding InviteServer.handle_event InviteServer.handle_prack_received
  invite_server_handle_event_keeps_id tx e = ground arith

  pub invite_server_handle_transport_error_keeps_id :
      (tx : InviteServerTransaction M) → (InviteServer.handle_transport_error tx).id ≡ tx.id
  unfolding InviteServer.handle_transport_error
  invite_server_handle_transport_error_keeps_id tx = ground arith

  pub non_invite_server_handle_timeout_keeps_id :
      (tx : NonInviteServerTransaction M) (t : Timer)
      → (NonInviteServer.handle_timeout tx t).id ≡ tx.id
  unfolding NonInviteServer.handle_timeout
  non_invite_server_handle_timeout_keeps_id tx t = ground arith

  pub non_invite_server_handle_request_keeps_id :
      (tx : NonInviteServerTransaction M) (r : M.Request)
      → (NonInviteServer.handle_request tx r).id ≡ tx.id
  unfolding NonInviteServer.handle_request
  non_invite_server_handle_request_keeps_id tx r = ground arith

  pub non_invite_server_send_response_keeps_id :
      (tx : NonInviteServerTransaction M) (r : M.Response)
      → (NonInviteServer.send_response tx r).id ≡ tx.id
  unfolding NonInviteServer.send_response
  non_invite_server_send_response_keeps_id tx r = ground arith

  pub non_invite_server_handle_transport_error_keeps_id :
      (tx : NonInviteServerTransaction M) → (NonInviteServer.handle_transport_error tx).id ≡ tx.id
  unfolding NonInviteServer.handle_transport_error
  non_invite_server_handle_transport_error_keeps_id tx = ground arith
