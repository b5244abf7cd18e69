-- ===== src/Transaction/Server/NonInvite/Lifecycle.antt =====
-- A non-INVITE server transaction in its environment, against a description of what a retransmitted
-- request is answered with.
use rsiprtp.Common.{
  ℕ, suc, ◌+◌, ◌≡◌, ◌≢◌, List, [], ◌∷◌, Bool, true, false, Option, none, some, leb, ltb, ◌||◌,
  if◌then◌else◌, arith,
}
use rsiprtp.Transaction.Timer.{Timer, timer_j}
use rsiprtp.Transaction.TimerValues
use rsiprtp.Transaction.Messages.{Messages}
use rsiprtp.Transaction.Action.{
  Action, send, event, set_timer, cancel_timer, Armed, disarm, nothing_armed, apply_actions, sent,
}
use rsiprtp.Transaction.Server.NonInvite.{
  State, trying, proceeding, completed, terminated, Event, request_received, transport_error,
  NonInviteServerTransaction, new, poll_actions, handle_timeout, handle_request, send_response,
  handle_transport_error,
}

pub data Input (M : Messages) : Type 0 where
  receive : M.Request → Input M
  respond : M.Response → Input M
  fire : Timer → Input M
  fail : Input M

-- The answer that stands: what was sent last, and whether it was final. Responses after a final one
-- and statuses below 100 do not count.
pub record Answer : Type 0 where
  pub last : Option (List ℕ)
  pub final : Bool

abbrev pub answer_with : ℕ → List ℕ → Answer → Answer
answer_with code bytes a =
    if a.final || ltb code 100 then a else record { last = some bytes; final = leb 200 code }

-- How often the user was told of the request.
abbrev pub requests : {M : Messages} → List (Action (Event M)) → ℕ
requests [] = 0
requests (send bytes ∷ as') = requests as'
requests (event (request_received r) ∷ as') = suc (requests as')
requests (event transport_error ∷ as') = requests as'
requests (set_timer t d ∷ as') = requests as'
requests (cancel_timer t ∷ as') = requests as'

pub record World (M : Messages) : Type 0 where
  pub tx : NonInviteServerTransaction M
  pub armed : Armed
  pub told : ℕ
  pub answer : Answer

-- What the answer that stands says of the state.
abbrev pub Follows : State → Answer → Option (List ℕ) → Armed → Type 0
Follows trying a last armed = (a.final ≡ false) × (a.last ≡ none) × (last ≡ none)
Follows proceeding a last armed = (a.final ≡ false) × (a.last ≢ none) × (last ≡ a.last)
Follows completed a last armed =
    (a.final ≡ true) × (a.last ≢ none) × (last ≡ a.last) × (armed timer_j ≡ true)
Follows terminated a last armed = Unit {0}

abbrev pub answer_bytes : Option (List ℕ) → List (List ℕ)
answer_bytes none = []
answer_bytes (some bytes) = bytes ∷ []

module _ {M : Messages} where
  abbrev pub settle : Armed → ℕ → Answer → NonInviteServerTransaction M → World M
  settle armed told answer tx = record {
    tx = (poll_actions tx).0;
    armed = apply_actions (poll_actions tx).1 armed;
    told = told + requests (poll_actions tx).1;
    answer = answer;
  }

  unfoldable pub start : NonInviteServerTransaction M → World M
  start tx = settle nothing_armed 0 (record { last = none; final = false }) tx

  unfoldable pub step : World M → Input M → World M
  step w (receive r) = settle w.armed w.told w.answer (handle_request w.tx r)
  step w (respond r) =
      settle w.armed w.told (answer_with (M.status_code r) (M.response_bytes r) w.answer)
        (send_response w.tx r)
  step w (fire t) =
      if w.armed t then settle (disarm t w.armed) w.told w.answer (handle_timeout w.tx t) else w
  step w fail = settle w.armed w.told w.answer (handle_transport_error w.tx)

  unfoldable pub run : World M → List (Input M) → World M
  run w [] = w
  run w (i ∷ is) = run (step w i) is

  pub record Inv (w : World M) : Type 0 where
    pub polled : w.tx.actions ≡ []
    pub timers : w.tx.timers ≡ TimerValues.default
    pub once : w.told ≡ 1
    pub follows : Follows w.tx.state w.answer w.tx.last_response w.armed

  start-Inv :
      (request : M.Request) (reliable : Bool) {tx : NonInviteServerTransaction M}
      → new M request reliable ≡ some tx
      → Inv (start tx)
  unfolding new start
  start-Inv request reliable h = ground arith

  step-Inv : (w : World M) (i : Input M) → Inv w → Inv (step w i)
  unfolding step handle_request send_response handle_timeout handle_transport_error
      TimerValues.timer_j
  step-Inv w (receive r) h = ground arith
  step-Inv w (respond r) h = ground arith
  step-Inv w (fire t) h = ground arith
  step-Inv w fail h = ground arith

  run-Inv : (w : World M) (is : List (Input M)) → Inv w → Inv (run w is)
  unfolding run
  run-Inv w [] h = h
  run-Inv w (i ∷ is) h = run-Inv (step w i) is (step-Inv w i h)

  -- From the creation of a non-INVITE server transaction on, whatever comes in whatever order, the user
  -- is told of the request exactly once.
  pub request_told_once :
      (request : M.Request) (reliable : Bool) {tx : NonInviteServerTransaction M}
      (is : List (Input M))
      → new M request reliable ≡ some tx
      → (run (start tx) is).told ≡ 1
  request_told_once request reliable {tx} is h =
      (run-Inv (start tx) is (start-Inv request reliable h)).once

  resends :
      (w : World M) (r : M.Request)
      → Inv w
      → w.tx.state ≢ terminated
      → sent (handle_request w.tx r).actions ≡ answer_bytes w.answer.last
  unfolding handle_request
  resends w r h live = ground arith

  -- After any inputs, while the transaction has not terminated, a request that comes in again is
  -- answered with the response that stands (the last one sent, where nothing replaces a final one),
  -- and with nothing while there is none.
  pub retransmission_answered :
      (request : M.Request) (reliable : Bool) {tx : NonInviteServerTransaction M}
      (is : List (Input M)) (again : M.Request)
      → new M request reliable ≡ some tx
      → (run (start tx) is).tx.state ≢ terminated
      → sent (handle_request (run (start tx) is).tx again).actions
        ≡ answer_bytes (run (start tx) is).answer.last
  retransmission_answered request reliable {tx} is again h live =
      resends _ again (run-Inv (start tx) is (start-Inv request reliable h)) live

  fire_j :
      (w : World M) → Inv w → w.answer.final ≡ true → (step w (fire timer_j)).tx.state ≡ terminated
  unfolding step handle_timeout
  fire_j w h final = ground arith

  -- Once a final response stands, the expiry of Timer J ends the transaction, if it has not ended.
  pub final_not_stuck :
      (request : M.Request) (reliable : Bool) {tx : NonInviteServerTransaction M}
      (is : List (Input M))
      → new M request reliable ≡ some tx
      → (run (start tx) is).answer.final ≡ true
      → (step (run (start tx) is) (fire timer_j)).tx.state ≡ terminated
  final_not_stuck request reliable {tx} is h final =
      fire_j _ (run-Inv (start tx) is (start-Inv request reliable h)) final
