-- ===== src/Transaction/Manager/Actions.antt =====
-- What the transaction manager hands to its user, and how it reads the actions of a transaction:
-- crates/rsiprtp/src/transaction/manager.rs.
use rsiprtp.Common.{ℕ, List, [], ◌∷◌}
use rsiprtp.Transaction.Timer.{Timer}
use rsiprtp.Transaction.TimerValues.{Duration}
use rsiprtp.Transaction.Messages.{Messages}
use rsiprtp.Transaction.Action.{Action, send, event, set_timer, cancel_timer}
use rsiprtp.Transaction.Client.Invite as InviteClient
use rsiprtp.Transaction.Client.NonInvite as NonInviteClient
use rsiprtp.Transaction.Server.Invite as InviteServer
use rsiprtp.Transaction.Server.Invite.{FinalSent}
use rsiprtp.Transaction.Server.NonInvite as NonInviteServer

-- A number of 64 bits.
abbrev pub TransactionHandle : Type 0
TransactionHandle = ℕ

pub data TransactionType : Type 0 where
  invite_client non_invite_client invite_server non_invite_server : TransactionType

pub data ManagerEvent (M : Messages) : Type 0 where
  provisional : M.Response → ManagerEvent M
  invite_success : M.Response → ManagerEvent M
  invite_failure : M.Response → ManagerEvent M
  non_invite_final_response : M.Response → ManagerEvent M
  non_invite_provisional : M.Response → ManagerEvent M
  invite_request : M.Request → ManagerEvent M
  non_invite_request : M.Request → ManagerEvent M
  ack_received : ManagerEvent M
  timeout : ManagerEvent M
  transport_error : ManagerEvent M
  prack_timeout : ℕ → FinalSent → ManagerEvent M

pub data ManagerAction (M : Messages) : Type 0 where
  send_bytes : List ℕ → ManagerAction M
  start_timer : TransactionHandle → Timer → Duration → ManagerAction M
  stop_timer : TransactionHandle → Timer → ManagerAction M
  tell : TransactionHandle → ManagerEvent M → ManagerAction M

module _ {M : Messages} where
  -- The loops of `collect_..._actions`, each over the actions that `poll_actions` took.
  unfoldable pub collect_invite_client :
      TransactionHandle → List (Action (InviteClient.Event M)) → List (ManagerAction M)
  collect_invite_client handle [] = []
  collect_invite_client handle (send bytes ∷ as') =
      send_bytes bytes ∷ collect_invite_client handle as'
  collect_invite_client handle (set_timer t d ∷ as') =
      start_timer handle t d ∷ collect_invite_client handle as'
  collect_invite_client handle (cancel_timer t ∷ as') =
      stop_timer handle t ∷ collect_invite_client handle as'
  collect_invite_client handle (event e ∷ as') =
      let told : ManagerEvent M = elim e [
        | InviteClient.provisional r ↦ provisional r
        | InviteClient.success r ↦ invite_success r
        | InviteClient.failure r ↦ invite_failure r
        | InviteClient.timeout ↦ timeout
        | InviteClient.transport_error ↦ transport_error
      ] in
      tell handle told ∷ collect_invite_client handle as'

  unfoldable pub collect_non_invite_client :
      TransactionHandle → List (Action (NonInviteClient.Event M)) → List (ManagerAction M)
  collect_non_invite_client handle [] = []
  collect_non_invite_client handle (send bytes ∷ as') =
      send_bytes bytes ∷ collect_non_invite_client handle as'
  collect_non_invite_client handle (set_timer t d ∷ as') =
      start_timer handle t d ∷ collect_non_invite_client handle as'
  collect_non_invite_client handle (cancel_timer t ∷ as') =
      stop_timer handle t ∷ collect_non_invite_client handle as'
  collect_non_invite_client handle (event e ∷ as') =
      let told : ManagerEvent M = elim e [
        | NonInviteClient.provisional r ↦ non_invite_provisional r
        | NonInviteClient.final_response r ↦ non_invite_final_response r
        | NonInviteClient.timeout ↦ timeout
        | NonInviteClient.transport_error ↦ transport_error
      ] in
      tell handle told ∷ collect_non_invite_client handle as'

  -- A `PrackReceived` is skipped; in a debug build it is an assertion.
  unfoldable pub collect_invite_server :
      TransactionHandle → List (Action (InviteServer.Event M)) → List (ManagerAction M)
  collect_invite_server handle [] = []
  collect_invite_server handle (send bytes ∷ as') =
      send_bytes bytes ∷ collect_invite_server handle as'
  collect_invite_server handle (set_timer t d ∷ as') =
      start_timer handle t d ∷ collect_invite_server handle as'
  collect_invite_server handle (cancel_timer t ∷ as') =
      stop_timer handle t ∷ collect_invite_server handle as'
  collect_invite_server handle (event e ∷ as') =
      let rest = collect_invite_server handle as' in
      elim e [
        | InviteServer.request_received r ↦ tell handle (invite_request r) ∷ rest
        | InviteServer.ack_received ↦ tell handle ack_received ∷ rest
        | InviteServer.timeout ↦ tell handle timeout ∷ rest
        | InviteServer.transport_error ↦ tell handle transport_error ∷ rest
        | InviteServer.prack_timeout rseq sent ↦ tell handle (prack_timeout rseq sent) ∷ rest
        | InviteServer.prack_received rseq ↦ rest
      ]

  unfoldable pub collect_non_invite_server :
      TransactionHandle → List (Action (NonInviteServer.Event M)) → List (ManagerAction M)
  collect_non_invite_server handle [] = []
  collect_non_invite_server handle (send bytes ∷ as') =
      send_bytes bytes ∷ collect_non_invite_server handle as'
  collect_non_invite_server handle (set_timer t d ∷ as') =
      start_timer handle t d ∷ collect_non_invite_server handle as'
  collect_non_invite_server handle (cancel_timer t ∷ as') =
      stop_timer handle t ∷ collect_non_invite_server handle as'
  collect_non_invite_server handle (event e ∷ as') =
      let told : ManagerEvent M = elim e [
        | NonInviteServer.request_received r ↦ non_invite_request r
        | NonInviteServer.transport_error ↦ transport_error
      ] in
      tell handle told ∷ collect_non_invite_server handle as'
