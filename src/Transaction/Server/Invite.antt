-- ===== src/Transaction/Server/Invite.antt =====
-- The INVITE server transaction, crates/rsiprtp/src/transaction/server/invite.rs. The reliable
-- provisionals have a module of their own, `Provisional`.
pub mod Provisional
pub mod TimerN
pub mod Lifecycle
pub mod Abandon
pub mod Reach
pub mod Prack
mod Examples
use rsiprtp.Common.{
  ℕ, ◌+◌, ◌*◌, ◌^◌, List, [], ◌∷◌, ◌++◌, Bool, true, false, not, ◌&&◌, Option, none, some, leb, ltb,
  ◌==◌, if◌then◌else◌, length,
}
use Prim.Native.String.{String}
use text.Mathlib.Text.{◌==◌ as str_eq}
use rsiprtp.Transaction.Timer.{Timer, timer_g, timer_h, timer_i, timer_n}
use rsiprtp.Transaction.TimerValues
use rsiprtp.Transaction.TimerValues.{TimerValues, Duration, is_zero}
use rsiprtp.Transaction.Messages.{Messages, Method, invite, ack, same_method}
use rsiprtp.Transaction.TransactionId.{TransactionId, from_request}
use rsiprtp.Transaction.Action.{Action, send, event, set_timer, cancel_timer}
use Provisional.{
  ReliableProvisional, Ticked, tick_all, retain_not_in, retain_ne, next_due, is_empty, resends,
  abandoned, kept,
}

pub data State : Type 0 where
  proceeding completed confirmed terminated : State

-- What final response has been sent: `FinalSent::None`, `NonTwoXx`, `TwoXx`.
pub data FinalSent : Type 0 where
  nothing_sent non_two_xx two_xx : FinalSent

pub data Event (M : Messages) : Type 0 where
  request_received : M.Request → Event M
  ack_received : Event M
  prack_received : ℕ → Event M
  prack_timeout : ℕ → FinalSent → Event M
  timeout : Event M
  transport_error : Event M

pub record InviteServerTransaction (M : Messages) : Type 0 where
  pub id : TransactionId
  pub state : State
  pub request : M.Request
  pub last_response : Option (List ℕ)
  pub timers : TimerValues
  pub reliable : Bool
  pub retransmit_interval : Duration
  pub actions : List (Action (Event M))
  pub next_rseq : ℕ  -- u32
  pub reliable_provisionals : List ReliableProvisional
  pub final_sent : FinalSent

module _ {M : Messages} where
  -- `self.actions.push(a)`, and the same for several actions in a row.
  abbrev pub push : Action (Event M) → InviteServerTransaction M → InviteServerTransaction M
  push a tx = record tx { actions = tx.actions ++ (a ∷ []) }

  abbrev pub push_all :
      List (Action (Event M)) → InviteServerTransaction M → InviteServerTransaction M
  push_all as' tx = record tx { actions = tx.actions ++ as' }

  unfoldable pub is_terminated : InviteServerTransaction M → Bool
  is_terminated tx = elim tx.state [ terminated ↦ true | _ ↦ false ]

  unfoldable pub matches_invite_dialog : InviteServerTransaction M → String → String → Bool
  matches_invite_dialog tx call_id from_tag = elim (M.call_id tx.request) [
    | none ↦ false
    | some req_call_id ↦ elim (M.from_tag tx.request) [
      | none ↦ false
      | some req_from_tag ↦ str_eq req_call_id call_id && str_eq req_from_tag from_tag
    ]
  ]

  abbrev pub send_bytes : List (List ℕ) → List (Action (Event M))
  send_bytes [] = []
  send_bytes (bytes ∷ rest) = send bytes ∷ send_bytes rest

  abbrev pub timeouts : FinalSent → List ℕ → List (Action (Event M))
  timeouts final_sent [] = []
  timeouts final_sent (rseq ∷ rest) =
      event (prack_timeout rseq final_sent) ∷ timeouts final_sent rest

  -- `SetTimer(Timer::N, next)` if an entry is left.
  abbrev pub reschedule : Option Duration → InviteServerTransaction M → InviteServerTransaction M
  reschedule none tx = tx
  reschedule (some next) tx = push (set_timer timer_n next) tx

  unfoldable pub fire_timer_n : InviteServerTransaction M → InviteServerTransaction M
  fire_timer_n tx =
      if is_empty tx.reliable_provisionals
      then tx
      else (let due_in : Duration = elim (next_due tx.reliable_provisionals) [
        | none ↦ tx.timers.t1
        | some d ↦ d
      ] in
          let ticked = tick_all due_in tx.timers tx.reliable_provisionals in
          let tx = push_all (send_bytes (resends ticked)) tx in
          let left = retain_not_in (abandoned ticked) (kept ticked) in
          let tx = record tx { reliable_provisionals = left } in
          let tx = push_all (timeouts tx.final_sent (abandoned ticked)) tx in
          reschedule (next_due left) tx)

  resend : Option (List ℕ) → InviteServerTransaction M → InviteServerTransaction M
  resend none tx = tx
  resend (some bytes) tx = push (send bytes) tx

  dispatch_timeout : State → Timer → InviteServerTransaction M → InviteServerTransaction M
  unfolding resend
  dispatch_timeout completed timer_g tx =
      let tx = resend tx.last_response tx in
      let next = TimerValues.next_retransmit tx.timers tx.retransmit_interval in
      push (set_timer timer_g next) (record tx { retransmit_interval = next })
  dispatch_timeout completed timer_h tx = push (event timeout) (record tx { state = terminated })
  dispatch_timeout confirmed timer_i tx = record tx { state = terminated }
  dispatch_timeout _ timer_n tx = fire_timer_n tx
  dispatch_timeout _ _ tx = tx

  unfoldable pub handle_timeout : InviteServerTransaction M → Timer → InviteServerTransaction M
  unfolding dispatch_timeout
  handle_timeout tx timer = dispatch_timeout tx.state timer tx

  unfoldable pub drain_reliable_provisionals : InviteServerTransaction M → InviteServerTransaction M
  drain_reliable_provisionals tx =
      if is_empty tx.reliable_provisionals
      then tx
      else push (cancel_timer timer_n) (record tx { reliable_provisionals = [] })

  acknowledge : InviteServerTransaction M → InviteServerTransaction M
  acknowledge tx =
      let tx = record tx { state = confirmed } in
      let tx = if tx.reliable then tx else push (cancel_timer timer_g) tx in
      let tx = push (cancel_timer timer_h) tx in
      let tx = push (event ack_received) tx in
      let duration = if tx.reliable then 0 else TimerValues.timer_i tx.timers in
      if is_zero duration
      then record tx { state = terminated }
      else push (set_timer timer_i duration) tx

  dispatch_request : State → Method → InviteServerTransaction M → InviteServerTransaction M
  unfolding resend acknowledge
  dispatch_request proceeding method tx =
      if same_method method invite then resend tx.last_response tx else tx
  dispatch_request completed method tx =
      if same_method method invite
      then resend tx.last_response tx
      else if same_method method ack
      then acknowledge tx
      else tx
  dispatch_request confirmed method tx = tx
  dispatch_request terminated method tx = tx

  unfoldable pub handle_request : InviteServerTransaction M → M.Request → InviteServerTransaction M
  unfolding dispatch_request
  handle_request tx request = dispatch_request tx.state (M.method request) tx

  dispatch_response : State → InviteServerTransaction M → ℕ → List ℕ → InviteServerTransaction M
  unfolding drain_reliable_provisionals
  dispatch_response proceeding tx code resp_bytes =
      if leb 100 code && ltb code 200
      then push (send resp_bytes) (record tx { last_response = some resp_bytes })
      else if leb 200 code && ltb code 300
      then (let tx = drain_reliable_provisionals (record tx { final_sent = two_xx }) in
          push (send resp_bytes) (record tx { state = terminated }))
      else if leb 300 code
      then (let tx = drain_reliable_provisionals (record tx { final_sent = non_two_xx }) in
          let tx = record tx { state = completed; last_response = some resp_bytes } in
          let tx = push (send resp_bytes) tx in
          let tx = if tx.reliable then tx else push (set_timer timer_g tx.retransmit_interval) tx in
          push (set_timer timer_h (TimerValues.timer_h tx.timers)) tx)
      else tx
  dispatch_response _ tx code resp_bytes = tx

  unfoldable pub send_response : InviteServerTransaction M → M.Response → InviteServerTransaction M
  unfolding dispatch_response
  send_response tx response =
      dispatch_response tx.state tx (M.status_code response) (M.response_bytes response)

  -- `none` is the panic of `expect` when the counter has reached the last u32. The assertions on the
  -- status are in debug builds only and are left out.
  dispatch_provisional :
      State → InviteServerTransaction M → M.Response → Option (InviteServerTransaction M)
  dispatch_provisional proceeding tx response =
      if tx.next_rseq + 1 == 2 ^ 32
      then none
      else (let rseq = tx.next_rseq in
          let stamped = M.stamp_reliable_headers response rseq in
          let was_empty = is_empty tx.reliable_provisionals in
          let entry : ReliableProvisional = record {
            rseq = rseq;
            bytes = stamped;
            next_fire_after = tx.timers.t1;
            next_interval = tx.timers.t1;
            elapsed = 0;
            abandon_at = tx.timers.t1 * 64;
          } in
          let tx = record tx {
            next_rseq = tx.next_rseq + 1;
            reliable_provisionals = tx.reliable_provisionals ++ (entry ∷ []);
            last_response = some stamped;
          } in
          let tx = push (send stamped) tx in
          some (if was_empty then push (set_timer timer_n tx.timers.t1) tx else tx))
  dispatch_provisional _ tx response = some tx

  unfoldable pub send_provisional_reliable :
      InviteServerTransaction M → M.Response → Option (InviteServerTransaction M)
  unfolding dispatch_provisional
  send_provisional_reliable tx response = dispatch_provisional tx.state tx response

  unfoldable pub handle_prack_received : InviteServerTransaction M → ℕ → InviteServerTransaction M
  handle_prack_received tx rseq =
      let left = retain_ne rseq tx.reliable_provisionals in
      if length left == length tx.reliable_provisionals
      then tx
      else (let tx = push (cancel_timer timer_n) (record tx { reliable_provisionals = left }) in
          reschedule (next_due left) tx)

  unfoldable pub handle_event : InviteServerTransaction M → Event M → InviteServerTransaction M
  handle_event tx (prack_received rseq) = handle_prack_received tx rseq
  handle_event tx _ = tx

  -- `poll_actions`: the actions queued so far, and the transaction without them.
  abbrev pub poll_actions :
      InviteServerTransaction M → InviteServerTransaction M × List (Action (Event M))
  poll_actions tx = (record tx { actions = [] }, tx.actions)

  dispatch_transport_error : State → InviteServerTransaction M → InviteServerTransaction M
  dispatch_transport_error proceeding tx =
      push (event transport_error) (record tx { state = terminated })
  dispatch_transport_error completed tx =
      push (event transport_error) (record tx { state = terminated })
  dispatch_transport_error _ tx = tx

  unfoldable pub handle_transport_error : InviteServerTransaction M → InviteServerTransaction M
  unfolding dispatch_transport_error
  handle_transport_error tx = dispatch_transport_error tx.state tx

module _ (M : Messages) where
  unfoldable pub new : M.Request → Bool → Option (InviteServerTransaction M)
  new request reliable =
      if same_method (M.method request) invite
      then elim (from_request M request) [
        | none ↦ none
        | some id ↦
            let timers = TimerValues.default in
            let tx : InviteServerTransaction M = record {
              id = id;
              state = proceeding;
              request = request;
              last_response = none;
              timers = timers;
              reliable = reliable;
              retransmit_interval = TimerValues.timer_g timers;
              actions = [];
              next_rseq = 1;
              reliable_provisionals = [];
              final_sent = nothing_sent;
            } in
            some (push (event (request_received request)) tx)
      ]
      else none
