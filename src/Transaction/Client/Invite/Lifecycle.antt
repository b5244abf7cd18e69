-- ===== src/Transaction/Client/Invite/Lifecycle.antt =====
-- An INVITE client transaction in its environment: inputs in any order, timers that fire only while
-- they run, and the outcomes that the transaction user is told.
use rsiprtp.Common.{
  ℕ, suc, ◌+◌, ◌≤◌, ◌≡◌, List, [], ◌∷◌, Bool, true, false, not, some, if◌then◌else◌, arith,
}
use rsiprtp.Transaction.Timer.{Timer, timer_a, timer_b, timer_d}
use rsiprtp.Transaction.TimerValues
use rsiprtp.Transaction.Messages.{Messages}
use rsiprtp.Transaction.Action.{
  Action, send, event, set_timer, cancel_timer, Armed, disarm, nothing_armed, apply_actions,
}
use rsiprtp.Transaction.Client.Invite.{
  State, calling, proceeding, completed, terminated, Event, provisional, success, failure, timeout,
  transport_error, InviteClientTransaction, new, poll_actions, handle_timeout, handle_response,
  handle_transport_error, send_ack,
}

-- How often the user was told of success, and how often of failure: a failure response, a timeout or
-- a transport error.
pub record Told : Type 0 where
  pub successes : ℕ
  pub failures : ℕ

abbrev pub tell : {M : Messages} → Event M → Told → Told
tell (provisional r) n = n
tell (success r) n = record n { successes = suc n.successes }
tell (failure r) n = record n { failures = suc n.failures }
tell timeout n = record n { failures = suc n.failures }
tell transport_error n = record n { failures = suc n.failures }

abbrev pub tell_all : {M : Messages} → List (Action (Event M)) → Told → Told
tell_all [] n = n
tell_all (send bytes ∷ as') n = tell_all as' n
tell_all (event e ∷ as') n = tell_all as' (tell e n)
tell_all (set_timer t d ∷ as') n = tell_all as' n
tell_all (cancel_timer t ∷ as') n = tell_all as' n

pub data Input (M : Messages) : Type 0 where
  receive : M.Response → Input M
  fire : Timer → Input M
  fail : Input M

pub record World (M : Messages) : Type 0 where
  pub tx : InviteClientTransaction M
  pub armed : Armed
  pub told : Told

-- The timers that run in each state.
abbrev pub Running : State → Bool → Armed → Type 0
Running calling reliable armed =
    (armed timer_a ≡ not reliable) × (armed timer_b ≡ true) × (armed timer_d ≡ false)
Running proceeding reliable armed =
    (armed timer_a ≡ false) × (armed timer_b ≡ true) × (armed timer_d ≡ false)
Running completed reliable armed =
    (armed timer_a ≡ false) × (armed timer_b ≡ false) × (armed timer_d ≡ true)
Running terminated reliable armed = Unit {0}

-- What the user has been told in each state. A success is told again for each forked 2xx.
abbrev pub Accounts : State → Told → Type 0
Accounts calling n = (n.successes ≡ 0) × (n.failures ≡ 0)
Accounts proceeding n = (n.successes ≡ 0) × (n.failures ≡ 0)
Accounts completed n = (n.successes ≡ 0) × (n.failures ≡ 1)
Accounts terminated n = (1 ≤ n.successes + n.failures) × (n.failures ≤ 1)

module _ {M : Messages} where
  -- The caller drains the actions after each call, and carries them out.
  abbrev pub settle : Armed → Told → InviteClientTransaction M → World M
  settle armed told tx = record {
    tx = (poll_actions tx).0;
    armed = apply_actions (poll_actions tx).1 armed;
    told = tell_all (poll_actions tx).1 told;
  }

  unfoldable pub start : InviteClientTransaction M → World M
  start tx = settle nothing_armed (record { successes = 0; failures = 0 }) tx

  unfoldable pub step : World M → Input M → World M
  step w (receive r) = settle w.armed w.told (handle_response w.tx r)
  step w (fire t) =
      if w.armed t then settle (disarm t w.armed) w.told (handle_timeout w.tx t) else w
  step w fail = settle w.armed w.told (handle_transport_error w.tx)

  unfoldable pub run : World M → List (Input M) → World M
  run w [] = w
  run w (i ∷ is) = run (step w i) is

  pub record Inv (w : World M) : Type 0 where
    pub polled : w.tx.actions ≡ []
    pub timers : w.tx.timers ≡ TimerValues.default
    pub running : Running w.tx.state w.tx.reliable w.armed
    pub accounts : Accounts w.tx.state w.told

  start-Inv :
      (request : M.Request) (reliable : Bool) {tx : InviteClientTransaction M}
      → new M request reliable ≡ some tx
      → Inv (start tx)
  unfolding new start
  start-Inv request reliable h = ground arith

  step-Inv : (w : World M) (i : Input M) → Inv w → Inv (step w i)
  unfolding step handle_response handle_timeout handle_transport_error TimerValues.timer_d send_ack
  step-Inv w (receive r) h = ground arith
  step-Inv w (fire t) h = ground arith
  step-Inv w fail h = ground arith

  run-Inv : (w : World M) (is : List (Input M)) → Inv w → Inv (run w is)
  unfolding run
  run-Inv w [] h = h
  run-Inv w (i ∷ is) h = run-Inv (step w i) is (step-Inv w i h)

  -- From the creation of an INVITE client transaction on, whatever comes in whatever order, the user
  -- is told of no success and no failure (failure response, timeout or transport error) in Calling and
  -- Proceeding, of exactly one failure and no success in Completed, and of at least one of the two and
  -- at most one failure in Terminated.
  pub outcome-Accounts :
      (request : M.Request) (reliable : Bool) {tx : InviteClientTransaction M} (is : List (Input M))
      → new M request reliable ≡ some tx
      → Accounts (run (start tx) is).tx.state (run (start tx) is).told
  outcome-Accounts request reliable {tx} is h =
      (run-Inv (start tx) is (start-Inv request reliable h)).accounts

  -- After any inputs, the timers that run are: in Calling, B, and A on an unreliable transport; in
  -- Proceeding, B alone; in Completed, D alone.
  pub invite_client-Running :
      (request : M.Request) (reliable : Bool) {tx : InviteClientTransaction M} (is : List (Input M))
      → new M request reliable ≡ some tx
      → Running
          (run (start tx) is).tx.state
          (run (start tx) is).tx.reliable
          (run (start tx) is).armed
  invite_client-Running request reliable {tx} is h =
      (run-Inv (start tx) is (start-Inv request reliable h)).running

  fire_both :
      (w : World M) → Inv w → (run w (fire timer_b ∷ fire timer_d ∷ [])).tx.state ≡ terminated
  unfolding run step handle_timeout
  fire_both w h = ground arith

  -- After any inputs, letting the timers B and D expire ends the transaction, if it has not ended.
  pub invite_client_never_stuck :
      (request : M.Request) (reliable : Bool) {tx : InviteClientTransaction M} (is : List (Input M))
      → new M request reliable ≡ some tx
      → (run (run (start tx) is) (fire timer_b ∷ fire timer_d ∷ [])).tx.state ≡ terminated
  invite_client_never_stuck request reliable {tx} is h =
      fire_both _ (run-Inv (start tx) is (start-Inv request reliable h))
