-- ===== src/Transaction/Client/Invite.antt =====
-- The INVITE client transaction, crates/rsiprtp/src/transaction/client/invite.rs.
pub mod Lifecycle
pub mod Retransmit
pub mod Ack
mod Examples
use rsiprtp.Common.{
  ℕ, List, [], ◌∷◌, ◌++◌, Bool, true, false, ◌&&◌, Option, none, some, leb, ltb, if◌then◌else◌,
}
use rsiprtp.Transaction.Timer.{Timer, timer_a, timer_b, timer_d}
use rsiprtp.Transaction.TimerValues
use rsiprtp.Transaction.TimerValues.{TimerValues, Duration, is_zero}
use rsiprtp.Transaction.Messages.{Messages, Method, Via, RequestFields, invite, ack, same_method}
use rsiprtp.Transaction.TransactionId.{TransactionId, from_request}
use rsiprtp.Transaction.Action.{Action, send, event, set_timer, cancel_timer}
use Prim.Native.String.{String}

pub data State : Type 0 where
  calling proceeding completed terminated : State

pub data Event (M : Messages) : Type 0 where
  provisional : M.Response → Event M
  success : M.Response → Event M
  failure : M.Response → Event M
  timeout : Event M
  transport_error : Event M

pub record InviteClientTransaction (M : Messages) : Type 0 where
  pub id : TransactionId
  pub state : State
  pub request : M.Request
  pub timers : TimerValues
  pub reliable : Bool
  pub retransmit_interval : Duration
  pub actions : List (Action (Event M))

-- The first `Via` line of the request if there is one that parses. The `branch` of the default goes
-- unread: the builder takes the branch of the request.
module _ (M : Messages) where
  unfoldable pub parse_via_or_default : Option String → Via
  parse_via_or_default via_raw =
      let otherwise : Via = record { protocol = "UDP"; host = "0.0.0.0"; port = 5060 } in
      elim via_raw [
        | none ↦ otherwise
        | some v ↦ elim (M.via_parse v) [ none ↦ otherwise | some via ↦ via ]
      ]

  abbrev pub first : List String → Option String
  first [] = none
  first (v ∷ vs) = some v

infixl 5 ◌>>=◌
abbrev pub ◌>>=◌ : {A B : Type 0} → Option A → (A → Option B) → Option B
none >>= f = none
some a >>= f = f a

module _ (M : Messages) where
  -- What the ACK is built from.
  unfoldable pub ack_fields : M.Request → Option RequestFields
  ack_fields request = do
    branch ← M.via_branch request
    call_id ← M.call_id request
    (from_tag, from_uri) ← M.from_tag_and_uri request
    let via = parse_via_or_default M (first M (M.via_headers_raw request))
    to_uri ← M.to_uri request
    cseq ← M.cseq request
    some (record {
      method = ack;
      uri = M.uri request;
      via = via;
      branch = branch;
      from_uri = from_uri;
      from_tag = from_tag;
      to_uri = to_uri;
      call_id = call_id;
      cseq = cseq;
    })

  unfoldable pub build_ack_for_non_2xx : M.Request → Option M.Request
  build_ack_for_non_2xx request = ack_fields request >>= M.build

module _ {M : Messages} where
  -- `self.actions.push(a)`.
  abbrev pub push : Action (Event M) → InviteClientTransaction M → InviteClientTransaction M
  push a tx = record tx { actions = tx.actions ++ (a ∷ []) }

  unfoldable pub is_terminated : InviteClientTransaction M → Bool
  is_terminated tx = elim tx.state [ terminated ↦ true | _ ↦ false ]

  dispatch_timeout : State → Timer → InviteClientTransaction M → InviteClientTransaction M
  dispatch_timeout calling timer_a tx =
      let tx = push (send (M.request_bytes tx.request)) tx in
      let next = TimerValues.next_retransmit tx.timers tx.retransmit_interval in
      push (set_timer timer_a next) (record tx { retransmit_interval = next })
  dispatch_timeout calling timer_b tx = push (event timeout) (record tx { state = terminated })
  dispatch_timeout proceeding timer_b tx = push (event timeout) (record tx { state = terminated })
  dispatch_timeout completed timer_d tx = record tx { state = terminated }
  dispatch_timeout _ _ tx = tx

  unfoldable pub handle_timeout : InviteClientTransaction M → Timer → InviteClientTransaction M
  unfolding dispatch_timeout
  handle_timeout tx timer = dispatch_timeout tx.state timer tx

  unfoldable pub send_ack : InviteClientTransaction M → M.Response → InviteClientTransaction M
  send_ack tx response = elim (build_ack_for_non_2xx M tx.request) [
    | none ↦ tx
    | some request ↦ push (send (M.request_bytes request)) tx
  ]

  -- The end of the branch for 300 and above, which reads the same in Calling and Proceeding.
  complete : InviteClientTransaction M → M.Response → InviteClientTransaction M
  complete tx response =
      let tx = send_ack tx response in
      let tx = push (event (failure response)) tx in
      let duration = if tx.reliable then 0 else TimerValues.timer_d tx.timers in
      if is_zero duration
      then record tx { state = terminated }
      else push (set_timer timer_d duration) tx

  dispatch_response : State → InviteClientTransaction M → M.Response → InviteClientTransaction M
  unfolding complete
  dispatch_response calling tx response =
      let code = M.status_code response in
      if leb 100 code && ltb code 200
      then (let tx = record tx { state = proceeding } in
          let tx = if tx.reliable then tx else push (cancel_timer timer_a) tx in
          push (event (provisional response)) tx)
      else if leb 200 code && ltb code 300
      then (let tx = push (cancel_timer timer_a) (record tx { state = terminated }) in
          let tx = push (cancel_timer timer_b) tx in push (event (success response)) tx)
      else if leb 300 code
      then (let tx = push (cancel_timer timer_a) (record tx { state = completed }) in
          complete (push (cancel_timer timer_b) tx) response)
      else tx
  dispatch_response proceeding tx response =
      let code = M.status_code response in
      if leb 100 code && ltb code 200
      then push (event (provisional response)) tx
      else if leb 200 code && ltb code 300
      then (let tx = push (cancel_timer timer_b) (record tx { state = terminated }) in
          push (event (success response)) tx)
      else if leb 300 code
      then complete (push (cancel_timer timer_b) (record tx { state = completed })) response
      else tx
  dispatch_response completed tx response =
      if leb 300 (M.status_code response) then send_ack tx response else tx
  dispatch_response terminated tx response =
      let code = M.status_code response in
      if leb 200 code && ltb code 300 then push (event (success response)) tx else tx

  unfoldable pub handle_response :
      InviteClientTransaction M → M.Response → InviteClientTransaction M
  unfolding dispatch_response
  handle_response tx response = dispatch_response tx.state tx response

  -- `poll_actions`: the actions queued so far, and the transaction without them.
  abbrev pub poll_actions :
      InviteClientTransaction M → InviteClientTransaction M × List (Action (Event M))
  poll_actions tx = (record tx { actions = [] }, tx.actions)

  dispatch_transport_error : State → InviteClientTransaction M → InviteClientTransaction M
  dispatch_transport_error calling tx =
      push (event transport_error) (record tx { state = terminated })
  dispatch_transport_error proceeding tx =
      push (event transport_error) (record tx { state = terminated })
  dispatch_transport_error _ tx = tx

  unfoldable pub handle_transport_error : InviteClientTransaction M → InviteClientTransaction M
  unfolding dispatch_transport_error
  handle_transport_error tx = dispatch_transport_error tx.state tx

module _ (M : Messages) where
  unfoldable pub new : M.Request → Bool → Option (InviteClientTransaction M)
  new request reliable =
      if same_method (M.method request) invite
      then elim (from_request M request) [
        | none ↦ none
        | some id ↦
            let timers = TimerValues.default in
            let tx : InviteClientTransaction M = record {
              id = id;
              state = calling;
              request = request;
              timers = timers;
              reliable = reliable;
              retransmit_interval = TimerValues.timer_a timers;
              actions = [];
            } in
            let tx = push (send (M.request_bytes request)) tx in
            let tx = if reliable then tx else push (set_timer timer_a tx.retransmit_interval) tx in
            some (push (set_timer timer_b (TimerValues.timer_b timers)) tx)
      ]
      else none
