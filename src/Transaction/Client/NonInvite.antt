-- ===== src/Transaction/Client/NonInvite.antt =====
-- The non-INVITE client transaction, crates/rsiprtp/src/transaction/client/non_invite.rs.
pub mod Lifecycle
pub mod Retransmit
mod Examples
use rsiprtp.Common.{
  List, [], ◌∷◌, ◌++◌, Bool, true, false, ◌&&◌, Option, none, some, leb, ltb, if◌then◌else◌,
}
use rsiprtp.Transaction.Timer.{Timer, timer_e, timer_f, timer_k}
use rsiprtp.Transaction.TimerValues
use rsiprtp.Transaction.TimerValues.{TimerValues, Duration, is_zero}
use rsiprtp.Transaction.Messages.{Messages, invite, same_method}
use rsiprtp.Transaction.TransactionId.{TransactionId, from_request}
use rsiprtp.Transaction.Action.{Action, send, event, set_timer, cancel_timer}

pub data State : Type 0 where
  trying proceeding completed terminated : State

pub data Event (M : Messages) : Type 0 where
  provisional : M.Response → Event M
  final_response : M.Response → Event M
  timeout : Event M
  transport_error : Event M

pub record NonInviteClientTransaction (M : Messages) : Type 0 where
  pub id : TransactionId
  pub state : State
  pub request : M.Request
  pub timers : TimerValues
  pub reliable : Bool
  pub retransmit_interval : Duration
  pub actions : List (Action (Event M))

module _ {M : Messages} where
  -- `self.actions.push(a)`.
  abbrev pub push : Action (Event M) → NonInviteClientTransaction M → NonInviteClientTransaction M
  push a tx = record tx { actions = tx.actions ++ (a ∷ []) }

  unfoldable pub is_terminated : NonInviteClientTransaction M → Bool
  is_terminated tx = elim tx.state [ terminated ↦ true | _ ↦ false ]

  retransmit : NonInviteClientTransaction M → NonInviteClientTransaction M
  retransmit tx =
      let tx = push (send (M.request_bytes tx.request)) tx in
      let next = TimerValues.next_retransmit tx.timers tx.retransmit_interval in
      push (set_timer timer_e next) (record tx { retransmit_interval = next })

  time_out : NonInviteClientTransaction M → NonInviteClientTransaction M
  time_out tx = push (event timeout) (record tx { state = terminated })

  dispatch_timeout : State → Timer → NonInviteClientTransaction M → NonInviteClientTransaction M
  unfolding retransmit time_out
  dispatch_timeout trying timer_e tx = retransmit tx
  dispatch_timeout proceeding timer_e tx = retransmit tx
  dispatch_timeout trying timer_f tx = time_out tx
  dispatch_timeout proceeding timer_f tx = time_out tx
  dispatch_timeout completed timer_k tx = record tx { state = terminated }
  dispatch_timeout _ _ tx = tx

  unfoldable pub handle_timeout :
      NonInviteClientTransaction M → Timer → NonInviteClientTransaction M
  unfolding dispatch_timeout
  handle_timeout tx timer = dispatch_timeout tx.state timer tx

  -- The two branches for a final response read the same in the source.
  complete : NonInviteClientTransaction M → M.Response → NonInviteClientTransaction M
  complete tx response =
      let tx = record tx { state = completed } in
      let tx = if tx.reliable then tx else push (cancel_timer timer_e) tx in
      let tx = push (cancel_timer timer_f) tx in
      let tx = push (event (final_response response)) tx in
      let duration = TimerValues.timer_k tx.timers tx.reliable in
      if is_zero duration
      then record tx { state = terminated }
      else push (set_timer timer_k duration) tx

  dispatch_response :
      State → NonInviteClientTransaction M → M.Response → NonInviteClientTransaction M
  unfolding complete
  dispatch_response trying tx response =
      let code = M.status_code response in
      if leb 100 code && ltb code 200
      then push (event (provisional response)) (record tx { state = proceeding })
      else if leb 200 code
      then complete tx response
      else tx
  dispatch_response proceeding tx response =
      let code = M.status_code response in
      if leb 100 code && ltb code 200
      then push (event (provisional response)) tx
      else if leb 200 code
      then complete tx response
      else tx
  dispatch_response completed tx response = tx
  dispatch_response terminated tx response = tx

  unfoldable pub handle_response :
      NonInviteClientTransaction M → M.Response → NonInviteClientTransaction M
  unfolding dispatch_response
  handle_response tx response = dispatch_response tx.state tx response

  -- `poll_actions`: the actions queued so far, and the transaction without them.
  abbrev pub poll_actions :
      NonInviteClientTransaction M → NonInviteClientTransaction M × List (Action (Event M))
  poll_actions tx = (record tx { actions = [] }, tx.actions)

  dispatch_transport_error : State → NonInviteClientTransaction M → NonInviteClientTransaction M
  dispatch_transport_error trying tx =
      push (event transport_error) (record tx { state = terminated })
  dispatch_transport_error proceeding tx =
      push (event transport_error) (record tx { state = terminated })
  dispatch_transport_error _ tx = tx

  unfoldable pub handle_transport_error :
      NonInviteClientTransaction M → NonInviteClientTransaction M
  unfolding dispatch_transport_error
  handle_transport_error tx = dispatch_transport_error tx.state tx

module _ (M : Messages) where
  unfoldable pub new : M.Request → Bool → Option (NonInviteClientTransaction M)
  new request reliable =
      if same_method (M.method request) invite then none else elim (from_request M request) [
        | none ↦ none
        | some id ↦
            let timers = TimerValues.default in
            let tx : NonInviteClientTransaction M = record {
              id = id;
              state = trying;
              request = request;
              timers = timers;
              reliable = reliable;
              retransmit_interval = TimerValues.timer_e timers;
              actions = [];
            } in
            let tx = push (send (M.request_bytes request)) tx in
            let tx = if reliable then tx else push (set_timer timer_e tx.retransmit_interval) tx in
            some (push (set_timer timer_f (TimerValues.timer_f timers)) tx)
      ]
