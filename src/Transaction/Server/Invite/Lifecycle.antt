-- ===== src/Transaction/Server/Invite/Lifecycle.antt =====
-- An INVITE server transaction in its environment: requests, responses, PRACKs, timers and transport
-- errors in any order.
use rsiprtp.Common.{
  Option-cases, ℕ, ◌+◌, ◌≡◌, ◌≢◌, refl, List, [], ◌∷◌, Bool, true, false, not, Option, none, some,
  if◌then◌else◌, Bool-cases, inl, inr, ◌⊎◌, arith,
}
use rsiprtp.Transaction.Timer.{Timer, timer_h, timer_i, timer_n, same_timer}
use rsiprtp.Transaction.TimerValues
use rsiprtp.Transaction.TimerValues.{TimerValues, Duration}
use rsiprtp.Transaction.Messages.{Messages}
use rsiprtp.Transaction.Action.{Armed, disarm, nothing_armed, apply_actions}
use rsiprtp.Transaction.Server.Invite.{
  State, proceeding, completed, confirmed, terminated, FinalSent, nothing_sent, prack_received,
  InviteServerTransaction, new, poll_actions, handle_timeout, handle_request, send_response,
  handle_transport_error, send_provisional_reliable, handle_event, handle_prack_received,
  fire_timer_n,
}
use rsiprtp.Transaction.Server.Invite.TimerN.{
  late, fire_timer_n-full, fire_timer_n-empty, late-queued, apply_actions-queued, next_due-cases,
  is_empty-append, is_empty-retain_ne,
}
use rsiprtp.Transaction.Server.Invite.Provisional.{is_empty, retain_ne}

pub data Input (M : Messages) : Type 0 where
  receive : M.Request → Input M
  respond : M.Response → Input M
  respond_reliably : M.Response → Input M
  prack : ℕ → Input M
  fire : Timer → Input M
  fail : Input M

pub record World (M : Messages) : Type 0 where
  pub tx : InviteServerTransaction M
  pub armed : Armed
  pub late_timeouts : ℕ

-- What runs in each state, besides Timer N.
abbrev pub Running : State → Armed → Option (List ℕ) → Bool → FinalSent → Type 0
Running proceeding armed last empty final = final ≡ nothing_sent
Running completed armed last empty final = (armed timer_h ≡ true) × (last ≢ none) × (empty ≡ true)
Running confirmed armed last empty final = (armed timer_i ≡ true) × (empty ≡ true)
Running terminated armed last empty final = Unit {0}

module _ {M : Messages} where
  abbrev pub settle : Armed → ℕ → InviteServerTransaction M → World M
  settle armed late_timeouts tx = record {
    tx = (poll_actions tx).0;
    armed = apply_actions (poll_actions tx).1 armed;
    late_timeouts = late_timeouts + late (poll_actions tx).1;
  }

  unfoldable pub start : InviteServerTransaction M → World M
  start tx = settle nothing_armed 0 tx

  -- `none` if the transaction panics.
  unfoldable pub step : World M → Input M → Option (World M)
  step w (receive r) = some (settle w.armed w.late_timeouts (handle_request w.tx r))
  step w (respond r) = some (settle w.armed w.late_timeouts (send_response w.tx r))
  step w (respond_reliably r) = elim (send_provisional_reliable w.tx r) [
    | none ↦ none
    | some tx ↦ some (settle w.armed w.late_timeouts tx)
  ]
  step w (prack n) = some (settle w.armed w.late_timeouts (handle_event w.tx (prack_received n)))
  step w (fire t) =
      if w.armed t
      then some (settle (disarm t w.armed) w.late_timeouts (handle_timeout w.tx t))
      else some w
  step w fail = some (settle w.armed w.late_timeouts (handle_transport_error w.tx))

  unfoldable pub run : World M → List (Input M) → Option (World M)
  run w [] = some w
  run w (i ∷ is) = elim (step w i) [ none ↦ none | some w' ↦ run w' is ]

  pub record Inv (w : World M) : Type 0 where
    pub polled : w.tx.actions ≡ []
    pub timers : w.tx.timers ≡ TimerValues.default
    pub running :
        Running w.tx.state w.armed w.tx.last_response
          (is_empty w.tx.reliable_provisionals)
          w.tx.final_sent
    pub n_runs : w.armed timer_n ≡ not (is_empty w.tx.reliable_provisionals)
    pub unanswered : is_empty w.tx.reliable_provisionals ≡ false → w.tx.final_sent ≡ nothing_sent
    pub none_late : w.late_timeouts ≡ 0

  pub start-Inv :
      (request : M.Request) (reliable : Bool) {tx : InviteServerTransaction M}
      → new M request reliable ≡ some tx
      → Inv (start tx)
  unfolding new start
  start-Inv request reliable h = ground arith

  -- What changes when Timer N fires.
  record Fired (w : World M) (tx : InviteServerTransaction M) : Type 0 where
    fired_state : tx.state ≡ w.tx.state
    fired_timers : tx.timers ≡ w.tx.timers
    fired_last : tx.last_response ≡ w.tx.last_response
    fired_final : tx.final_sent ≡ w.tx.final_sent
    fired_empty :
        is_empty w.tx.reliable_provisionals ≡ true → is_empty tx.reliable_provisionals ≡ true
    fired_late : late tx.actions ≡ 0
    fired_armed :
        (t : Timer)
        → apply_actions tx.actions (disarm timer_n w.armed) t
          ≡ (if same_timer timer_n t then not (is_empty tx.reliable_provisionals) else w.armed t)

  fire_timer_n-Fired : (w : World M) → Inv w → Fired w (fire_timer_n w.tx)
  fire_timer_n-Fired w h = elim (Bool-cases (is_empty w.tx.reliable_provisionals)) [
    | inl empty ↦ rw (fire_timer_n-empty M w.tx empty) (record {
      fired_state = refl;
      fired_timers = refl;
      fired_last = refl;
      fired_final = refl;
      fired_empty = λ e. e;
      fired_late = ground arith;
      fired_armed = λ t. ground arith;
    })
    | inr full ↦ rw (fire_timer_n-full M w.tx full) (record {
      fired_state = refl;
      fired_timers = refl;
      fired_last = refl;
      fired_final = refl;
      fired_empty = λ e. ground arith;
      fired_late = late-queued M w.tx h.polled (h.unanswered full);
      fired_armed = λ t. apply_actions-queued M w.tx w.armed t h.polled;
    })
  ]

  pub handle_timeout-timer_n :
      (tx : InviteServerTransaction M) → handle_timeout tx timer_n ≡ fire_timer_n tx
  unfolding handle_timeout
  handle_timeout-timer_n tx = ground arith

  fire_n-Inv :
      (w : World M)
      → Inv w
      → Inv (settle (disarm timer_n w.armed) w.late_timeouts (handle_timeout w.tx timer_n))
  fire_n-Inv w h =
      let f : Fired w (fire_timer_n w.tx) = fire_timer_n-Fired w h in
      rw (handle_timeout-timer_n w.tx) (record {
        polled = refl;
        timers = ground arith;
        running = ground (arith, f.fired_armed timer_h, f.fired_armed timer_i);
        n_runs = ground (arith, f.fired_armed timer_n);
        unanswered = λ e. ground arith;
        none_late = ground arith;
      })

  pub step-Inv : (w w' : World M) (i : Input M) → step w i ≡ some w' → Inv w → Inv w'
  unfolding step handle_request send_response handle_timeout handle_transport_error
      send_provisional_reliable handle_event handle_prack_received
  step-Inv w w' (receive r) e h = ground arith
  step-Inv w w' (respond r) e h = ground arith
  step-Inv w w' (respond_reliably r) e h =
      ground (arith, is_empty-append M w.tx.reliable_provisionals)
  step-Inv w w' (prack n) e h = ground (
    arith,
    next_due-cases M (retain_ne n w.tx.reliable_provisionals),
    is_empty-retain_ne M n w.tx.reliable_provisionals,
  )
  step-Inv w w' (fire timer_n) e h = ground (arith, fire_n-Inv w h)
  step-Inv w w' (fire t) e h = ground arith
  step-Inv w w' fail e h = ground arith

  pub run-Inv : (w w' : World M) (is : List (Input M)) → run w is ≡ some w' → Inv w → Inv w'
  unfolding run
  run-Inv w w' [] e h = ground arith
  run-Inv w w' (i ∷ is) e h = elim (Option-cases (step w i)) [
    | inl none_next ↦ absurd (ground arith)
    | inr (v, next) ↦ run-Inv v w' is (ground arith) (step-Inv w v i next h)
  ]

  pub reached-Inv :
      (request : M.Request) (reliable : Bool) {tx : InviteServerTransaction M} (is : List (Input M))
      {w : World M}
      → new M request reliable ≡ some tx
      → run (start tx) is ≡ some w
      → Inv w
  reached-Inv request reliable {tx} is {w} h r =
      run-Inv (start tx) w is r (start-Inv request reliable h)

  -- From the creation of an INVITE server transaction on, whatever comes in whatever order, every
  -- `PrackTimeout` that it reports says that no final response has been sent.
  pub prack_timeout_never_late :
      (request : M.Request) (reliable : Bool) {tx : InviteServerTransaction M} (is : List (Input M))
      {w : World M}
      → new M request reliable ≡ some tx
      → run (start tx) is ≡ some w
      → w.late_timeouts ≡ 0
  prack_timeout_never_late request reliable is h r = (reached-Inv request reliable is h r).none_late

  -- In every state that can be reached, Timer N runs exactly if a reliable provisional waits for its
  -- PRACK; in Completed, H runs, a response is kept and no provisional waits; in Confirmed, I runs and
  -- no provisional waits; in Proceeding, no final response has been sent.
  pub invite_server-Running :
      (request : M.Request) (reliable : Bool) {tx : InviteServerTransaction M} (is : List (Input M))
      {w : World M}
      → new M request reliable ≡ some tx
      → run (start tx) is ≡ some w
      → (w.armed timer_n ≡ not (is_empty w.tx.reliable_provisionals))
        × Running w.tx.state w.armed w.tx.last_response
            (is_empty w.tx.reliable_provisionals)
            w.tx.final_sent
  invite_server-Running request reliable is h r =
      let v = reached-Inv request reliable is h r in (v.n_runs, v.running)

  abbrev pub state_of : Option (World M) → Option State
  state_of none = none
  state_of (some w) = some w.tx.state

  ends :
      (w : World M)
      → Inv w
      → (w.tx.state ≡ completed) ⊎ (w.tx.state ≡ confirmed)
      → state_of (run w (fire timer_h ∷ fire timer_i ∷ [])) ≡ some terminated
  unfolding run step handle_timeout
  ends w h live = ground arith

  -- In every state that can be reached, if it is Completed or Confirmed, letting the timers H and I
  -- expire ends the transaction.
  pub invite_server_never_stuck :
      (request : M.Request) (reliable : Bool) {tx : InviteServerTransaction M} (is : List (Input M))
      {w : World M}
      → new M request reliable ≡ some tx
      → run (start tx) is ≡ some w
      → (w.tx.state ≡ completed) ⊎ (w.tx.state ≡ confirmed)
      → state_of (run w (fire timer_h ∷ fire timer_i ∷ [])) ≡ some terminated
  invite_server_never_stuck request reliable is {w} h r live =
      ends w (reached-Inv request reliable is h r) live
