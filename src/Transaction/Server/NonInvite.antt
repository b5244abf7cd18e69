-- ===== src/Transaction/Server/NonInvite.antt =====
-- The non-INVITE server transaction, crates/rsiprtp/src/transaction/server/non_invite.rs.
pub mod Lifecycle
mod Examples
use rsiprtp.Common.{
  ℕ, List, [], ◌∷◌, ◌++◌, Bool, true, false, ◌&&◌, Option, none, some, leb, ltb, if◌then◌else◌,
}
use rsiprtp.Transaction.Timer.{Timer, timer_j}
use rsiprtp.Transaction.TimerValues
use rsiprtp.Transaction.TimerValues.{TimerValues, is_zero}
use rsiprtp.Transaction.Messages.{Messages, invite, same_method}
use rsiprtp.Transaction.TransactionId.{TransactionId, from_request}
use rsiprtp.Transaction.Action.{Action, send, event, set_timer}

pub data State : Type 0 where
  trying proceeding completed terminated : State

pub data Event (M : Messages) : Type 0 where
  request_received : M.Request → Event M
  transport_error : Event M

pub record NonInviteServerTransaction (M : Messages) : Type 0 where
  pub id : TransactionId
  pub state : State
  pub request : M.Request
  pub last_response : Option (List ℕ)
  pub timers : TimerValues
  pub reliable : Bool
  pub actions : List (Action (Event M))

module _ {M : Messages} where
  -- `self.actions.push(a)`.
  abbrev pub push : Action (Event M) → NonInviteServerTransaction M → NonInviteServerTransaction M
  push a tx = record tx { actions = tx.actions ++ (a ∷ []) }

  unfoldable pub is_terminated : NonInviteServerTransaction M → Bool
  is_terminated tx = elim tx.state [ terminated ↦ true | _ ↦ false ]

  dispatch_timeout : State → Timer → NonInviteServerTransaction M → NonInviteServerTransaction M
  dispatch_timeout completed timer_j tx = record tx { state = terminated }
  dispatch_timeout _ _ tx = tx

  unfoldable pub handle_timeout :
      NonInviteServerTransaction M → Timer → NonInviteServerTransaction M
  unfolding dispatch_timeout
  handle_timeout tx timer = dispatch_timeout tx.state timer tx

  resend : Option (List ℕ) → NonInviteServerTransaction M → NonInviteServerTransaction M
  resend none tx = tx
  resend (some bytes) tx = push (send bytes) tx

  dispatch_request : State → NonInviteServerTransaction M → NonInviteServerTransaction M
  unfolding resend
  dispatch_request trying tx = tx
  dispatch_request proceeding tx = resend tx.last_response tx
  dispatch_request completed tx = resend tx.last_response tx
  dispatch_request terminated tx = tx

  unfoldable pub handle_request :
      NonInviteServerTransaction M → M.Request → NonInviteServerTransaction M
  unfolding dispatch_request
  handle_request tx request = dispatch_request tx.state tx

  -- The two branches for a final response read the same in the source.
  complete : NonInviteServerTransaction M → List ℕ → NonInviteServerTransaction M
  complete tx resp_bytes =
      let tx = record tx { state = completed; last_response = some resp_bytes } in
      let tx = push (send resp_bytes) tx in
      let duration = TimerValues.timer_j tx.timers tx.reliable in
      if is_zero duration
      then record tx { state = terminated }
      else push (set_timer timer_j duration) tx

  dispatch_response :
      State → NonInviteServerTransaction M → ℕ → List ℕ → NonInviteServerTransaction M
  unfolding complete
  dispatch_response trying tx code resp_bytes =
      if leb 100 code && ltb code 200
      then push (send resp_bytes)
          (record tx { state = proceeding; last_response = some resp_bytes })
      else if leb 200 code
      then complete tx resp_bytes
      else tx
  dispatch_response proceeding tx code resp_bytes =
      if leb 100 code && ltb code 200
      then push (send resp_bytes) (record tx { last_response = some resp_bytes })
      else if leb 200 code
      then complete tx resp_bytes
      else tx
  dispatch_response _ tx code resp_bytes = tx

  unfoldable pub send_response :
      NonInviteServerTransaction M → M.Response → NonInviteServerTransaction M
  unfolding dispatch_response
  send_response tx response =
      dispatch_response tx.state tx (M.status_code response) (M.response_bytes response)

  -- `poll_actions`: the actions queued so far, and the transaction without them.
  abbrev pub poll_actions :
      NonInviteServerTransaction M → NonInviteServerTransaction M × List (Action (Event M))
  poll_actions tx = (record tx { actions = [] }, tx.actions)

  dispatch_transport_error : State → NonInviteServerTransaction M → NonInviteServerTransaction M
  dispatch_transport_error terminated tx = tx
  dispatch_transport_error _ tx = push (event transport_error) (record tx { state = terminated })

  unfoldable pub handle_transport_error :
      NonInviteServerTransaction M → NonInviteServerTransaction M
  unfolding dispatch_transport_error
  handle_transport_error tx = dispatch_transport_error tx.state tx

module _ (M : Messages) where
  unfoldable pub new : M.Request → Bool → Option (NonInviteServerTransaction M)
  new request reliable =
      if same_method (M.method request) invite then none else elim (from_request M request) [
        | none ↦ none
        | some id ↦
            let tx : NonInviteServerTransaction M = record {
              id = id;
              state = trying;
              request = request;
              last_response = none;
              timers = TimerValues.default;
              reliable = reliable;
              actions = [];
            } in
            some (push (event (request_received request)) tx)
      ]
