-- ===== src/Transaction/Manager/Labels.antt =====
-- What the user of the transaction manager gets for the actions of a transaction under a handle.
use rsiprtp.Common.{List, [], ◌∷◌, ◌++◌, Option, none, some, ◌≡◌, refl, arith}
use rsiprtp.Transaction.Messages.{Messages}
use rsiprtp.Transaction.Action.{Action, send, event, set_timer, cancel_timer}
use rsiprtp.Transaction.Client.Invite as InviteClient
use rsiprtp.Transaction.Client.NonInvite as NonInviteClient
use rsiprtp.Transaction.Server.Invite as InviteServer
use rsiprtp.Transaction.Server.NonInvite as NonInviteServer
use rsiprtp.Transaction.Manager.Actions.{
  TransactionHandle, ManagerEvent, provisional, invite_success, invite_failure,
  non_invite_final_response, non_invite_provisional, invite_request, non_invite_request,
  ack_received, timeout, transport_error, prack_timeout, ManagerAction, send_bytes, start_timer,
  stop_timer, tell, collect_invite_client, collect_non_invite_client, collect_invite_server,
  collect_non_invite_server,
}

module _ {M : Messages} where
  abbrev pub told_event : TransactionHandle → Option (ManagerEvent M) → List (ManagerAction M)
  told_event h none = []
  told_event h (some e) = tell h e ∷ []

  -- One action, with the handle; `read` is how the manager names an event.
  abbrev pub label :
      {E : Type 0}
      → (E → Option (ManagerEvent M))
      → TransactionHandle
      → Action E
      → List (ManagerAction M)
  label read h (send bytes) = send_bytes bytes ∷ []
  label read h (set_timer t d) = start_timer h t d ∷ []
  label read h (cancel_timer t) = stop_timer h t ∷ []
  label read h (event e) = told_event h (read e)

  abbrev pub labelled :
      {E : Type 0}
      → (E → Option (ManagerEvent M))
      → TransactionHandle
      → List (Action E)
      → List (ManagerAction M)
  labelled read h [] = []
  labelled read h (a ∷ as') = label read h a ++ labelled read h as'

  abbrev pub read_invite_client : InviteClient.Event M → Option (ManagerEvent M)
  read_invite_client (InviteClient.provisional r) = some (provisional r)
  read_invite_client (InviteClient.success r) = some (invite_success r)
  read_invite_client (InviteClient.failure r) = some (invite_failure r)
  read_invite_client InviteClient.timeout = some timeout
  read_invite_client InviteClient.transport_error = some transport_error

  abbrev pub read_non_invite_client : NonInviteClient.Event M → Option (ManagerEvent M)
  read_non_invite_client (NonInviteClient.provisional r) = some (non_invite_provisional r)
  read_non_invite_client (NonInviteClient.final_response r) = some (non_invite_final_response r)
  read_non_invite_client NonInviteClient.timeout = some timeout
  read_non_invite_client NonInviteClient.transport_error = some transport_error

  abbrev pub read_invite_server : InviteServer.Event M → Option (ManagerEvent M)
  read_invite_server (InviteServer.request_received r) = some (invite_request r)
  read_invite_server InviteServer.ack_received = some ack_received
  read_invite_server InviteServer.timeout = some timeout
  read_invite_server InviteServer.transport_error = some transport_error
  read_invite_server (InviteServer.prack_timeout rseq sent) = some (prack_timeout rseq sent)
  read_invite_server (InviteServer.prack_received rseq) = none

  abbrev pub read_non_invite_server : NonInviteServer.Event M → Option (ManagerEvent M)
  read_non_invite_server (NonInviteServer.request_received r) = some (non_invite_request r)
  read_non_invite_server NonInviteServer.transport_error = some transport_error

  pub collect_invite_client_lem :
      (h : TransactionHandle) (as' : List (Action (InviteClient.Event M)))
      → collect_invite_client h as' ≡ labelled read_invite_client h as'
  unfolding collect_invite_client
  collect_invite_client_lem h [] = refl
  collect_invite_client_lem h (a ∷ as') = ground (arith, collect_invite_client_lem h as')

  pub collect_non_invite_client_lem :
      (h : TransactionHandle) (as' : List (Action (NonInviteClient.Event M)))
      → collect_non_invite_client h as' ≡ labelled read_non_invite_client h as'
  unfolding collect_non_invite_client
  collect_non_invite_client_lem h [] = refl
  collect_non_invite_client_lem h (a ∷ as') = ground (arith, collect_non_invite_client_lem h as')

  pub collect_invite_server_lem :
      (h : TransactionHandle) (as' : List (Action (InviteServer.Event M)))
      → collect_invite_server h as' ≡ labelled read_invite_server h as'
  unfolding collect_invite_server
  collect_invite_server_lem h [] = refl
  collect_invite_server_lem h (a ∷ as') = ground (arith, collect_invite_server_lem h as')

  pub collect_non_invite_server_lem :
      (h : TransactionHandle) (as' : List (Action (NonInviteServer.Event M)))
      → collect_non_invite_server h as' ≡ labelled read_non_invite_server h as'
  unfolding collect_non_invite_server
  collect_non_invite_server_lem h [] = refl
  collect_non_invite_server_lem h (a ∷ as') = ground (arith, collect_non_invite_server_lem h as')
