-- ===== src/Transaction/Client/NonInvite/Lifecycle.antt =====
-- A non-INVITE client transaction in its environment: inputs in any order, timers that fire only
-- while they run, and the outcomes that the transaction user is told.
use rsiprtp.Common.{ℕ, ◌+◌, ◌≡◌, List, [], ◌∷◌, Bool, true, false, not, some, if◌then◌else◌, arith}
use rsiprtp.Transaction.Timer.{Timer, timer_e, timer_f, timer_k}
use rsiprtp.Transaction.TimerValues
use rsiprtp.Transaction.Messages.{Messages}
use rsiprtp.Transaction.Action.{
  Action, send, event, set_timer, cancel_timer, Armed, disarm, nothing_armed, apply_actions,
}
use rsiprtp.Transaction.Client.NonInvite.{
  State, trying, proceeding, completed, terminated, Event, provisional, final_response, timeout,
  transport_error, NonInviteClientTransaction, new, poll_actions, handle_timeout, handle_response,
  handle_transport_error,
}

-- A final response, a timeout or a transport error.
abbrev pub event_outcomes : {M : Messages} → Event M → ℕ
event_outcomes (provisional r) = 0
event_outcomes (final_response r) = 1
event_outcomes timeout = 1
event_outcomes transport_error = 1

abbrev pub outcomes : {M : Messages} → List (Action (Event M)) → ℕ
outcomes [] = 0
outcomes (send bytes ∷ as') = outcomes as'
outcomes (event e ∷ as') = event_outcomes e + outcomes as'
outcomes (set_timer t d ∷ as') = outcomes as'
outcomes (cancel_timer t ∷ as') = outcomes as'

pub data Input (M : Messages) : Type 0 where
  receive : M.Response → Input M
  fire : Timer → Input M
  fail : Input M

pub record World (M : Messages) : Type 0 where
  pub tx : NonInviteClientTransaction M
  pub armed : Armed
  pub told : ℕ

-- How often the user has been told an outcome, as it follows from the state.
abbrev pub due_outcomes : State → ℕ
due_outcomes trying = 0
due_outcomes proceeding = 0
due_outcomes completed = 1
due_outcomes terminated = 1

-- The timers that run in each state.
abbrev pub Running : State → Bool → Armed → Type 0
Running trying reliable armed =
    (armed timer_e ≡ not reliable) × (armed timer_f ≡ true) × (armed timer_k ≡ false)
Running proceeding reliable armed =
    (armed timer_e ≡ not reliable) × (armed timer_f ≡ true) × (armed timer_k ≡ false)
Running completed reliable armed =
    (armed timer_e ≡ false) × (armed timer_f ≡ false) × (armed timer_k ≡ true)
Running terminated reliable armed = Unit {0}

module _ {M : Messages} where
  -- The caller drains the actions after each call, and carries them out.
  abbrev pub settle : Armed → ℕ → NonInviteClientTransaction M → World M
  settle armed told tx = record {
    tx = (poll_actions tx).0;
    armed = apply_actions (poll_actions tx).1 armed;
    told = told + outcomes (poll_actions tx).1;
  }

  unfoldable pub start : NonInviteClientTransaction M → World M
  start tx = settle nothing_armed 0 tx

  unfoldable pub step : World M → Input M → World M
  step w (receive r) = settle w.armed w.told (handle_response w.tx r)
  step w (fire t) =
      if w.armed t then settle (disarm t w.armed) w.told (handle_timeout w.tx t) else w
  step w fail = settle w.armed w.told (handle_transport_error w.tx)

  unfoldable pub run : World M → List (Input M) → World M
  run w [] = w
  run w (i ∷ is) = run (step w i) is

  pub record Inv (w : World M) : Type 0 where
    pub polled : w.tx.actions ≡ []
    pub timers : w.tx.timers ≡ TimerValues.default
    pub running : Running w.tx.state w.tx.reliable w.armed
    pub told : w.told ≡ due_outcomes w.tx.state

  start-Inv :
      (request : M.Request) (reliable : Bool) {tx : NonInviteClientTransaction M}
      → new M request reliable ≡ some tx
      → Inv (start tx)
  unfolding new start
  start-Inv request reliable h = ground arith

  step-Inv : (w : World M) (i : Input M) → Inv w → Inv (step w i)
  unfolding step handle_response handle_timeout handle_transport_error TimerValues.timer_k
  step-Inv w (receive r) h = ground arith
  step-Inv w (fire t) h = ground arith
  step-Inv w fail h = ground arith

  run-Inv : (w : World M) (is : List (Input M)) → Inv w → Inv (run w is)
  unfolding run
  run-Inv w [] h = h
  run-Inv w (i ∷ is) h = run-Inv (step w i) is (step-Inv w i h)

  -- From the creation of a non-INVITE client transaction on, whatever responses, timers and transport
  -- errors come in whatever order, the user is told of no outcome (final response, timeout or
  -- transport error) while the state is Trying or Proceeding, and of exactly one in Completed and
  -- Terminated.
  pub one_outcome :
      (request : M.Request) (reliable : Bool) {tx : NonInviteClientTransaction M}
      (is : List (Input M))
      → new M request reliable ≡ some tx
      → (run (start tx) is).told ≡ due_outcomes (run (start tx) is).tx.state
  one_outcome request reliable {tx} is h =
      (run-Inv (start tx) is (start-Inv request reliable h)).told

  -- After any inputs, the timers that run are: in Trying and Proceeding, F, and E on an unreliable
  -- transport; in Completed, K alone of the three.
  pub non_invite_client-Running :
      (request : M.Request) (reliable : Bool) {tx : NonInviteClientTransaction M}
      (is : List (Input M))
      → new M request reliable ≡ some tx
      → Running
          (run (start tx) is).tx.state
          (run (start tx) is).tx.reliable
          (run (start tx) is).armed
  non_invite_client-Running request reliable {tx} is h =
      (run-Inv (start tx) is (start-Inv request reliable h)).running

  fire_both :
      (w : World M) → Inv w → (run w (fire timer_f ∷ fire timer_k ∷ [])).tx.state ≡ terminated
  unfolding run step handle_timeout
  fire_both w h = ground arith

  -- After any inputs, letting the timers F and K expire ends the transaction, if it has not ended: in
  -- Trying and Proceeding F is running, and in Completed K is.
  pub non_invite_client_never_stuck :
      (request : M.Request) (reliable : Bool) {tx : NonInviteClientTransaction M}
      (is : List (Input M))
      → new M request reliable ≡ some tx
      → (run (run (start tx) is) (fire timer_f ∷ fire timer_k ∷ [])).tx.state ≡ terminated
  non_invite_client_never_stuck request reliable {tx} is h =
      fire_both _ (run-Inv (start tx) is (start-Inv request reliable h))

  -- A terminated transaction takes every input without a change and without an action.
  pub terminated_absorbs :
      (tx : NonInviteClientTransaction M) (r : M.Response) (t : Timer)
      → tx.state ≡ terminated
      → (handle_response tx r ≡ tx) × (handle_timeout tx t ≡ tx) × (handle_transport_error tx ≡ tx)
  unfolding handle_response handle_timeout handle_transport_error
  terminated_absorbs tx r t h = ground arith
