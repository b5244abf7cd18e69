-- ===== src/Transaction/Server/Invite/Examples.antt =====
-- Runs of an INVITE server transaction, and its theorems at concrete inputs.
use rsiprtp.Common.{
  ℕ, ◌+◌, ◌*◌, List, [], ◌∷◌, true, false, not, some, none, ◌≡◌, ◌≢◌, refl, inl, length,
}
use rsiprtp.Transaction.Timer.{timer_g, timer_h, timer_i, timer_n}
use rsiprtp.Transaction.TimerValues
use rsiprtp.Transaction.Messages.{invite}
use rsiprtp.Transaction.TransactionId.{from_request}
use rsiprtp.Transaction.Sample.{sample, request_with, reply_with}
use rsiprtp.Transaction.Action.{event}
use rsiprtp.Transaction.Server.Invite.{
  proceeding, completed, terminated, nothing_sent, request_received, prack_received,
  InviteServerTransaction, new, handle_timeout, send_response, send_provisional_reliable,
  handle_event, fire_timer_n,
}
use rsiprtp.Transaction.Server.Invite.Provisional.{
  next_due, tick, tick_all, kept, resends, abandoned, retain_not_in, is_empty,
}
use rsiprtp.Transaction.Server.Invite.Lifecycle.{
  Input, respond, respond_reliably, fire, World, start, step, run, state_of, Running,
  prack_timeout_never_late, invite_server-Running, invite_server_never_stuck,
}
use rsiprtp.Transaction.Server.Invite.Abandon.{fire_timer_n_times}
use rsiprtp.Transaction.Server.Invite.Reach.{provisionals_given_up}
use rsiprtp.Transaction.Server.Invite.Prack.{find_rseq, prack_acknowledges}

abbrev invite_tx : InviteServerTransaction sample
invite_tx = record {
  id = record { branch = "z9hG4bKtest"; method = invite };
  state = proceeding;
  request = request_with invite;
  last_response = none;
  timers = TimerValues.default;
  reliable = false;
  retransmit_interval = 500000000;
  actions = event (request_received (request_with invite)) ∷ [];
  next_rseq = 1;
  reliable_provisionals = [];
  final_sent = nothing_sent;
}

new_invite : new sample (request_with invite) false ≡ some invite_tx
unfolding new from_request TimerValues.timer_g
new_invite = refl

abbrev ringing : List (Input sample)
ringing = respond_reliably (reply_with 180 invite) ∷ fire timer_n ∷ []

abbrev rejected : List (Input sample)
rejected =
    respond_reliably (reply_with 183 invite) ∷ respond (reply_with 486 invite) ∷ fire timer_g ∷ []

abbrev after : List (Input sample) → World sample
unfolding run step start
after is = elim (run (start invite_tx) is) [ none ↦ start invite_tx | some w ↦ w ]

run-ringing : run (start invite_tx) ringing ≡ some (after ringing)
unfolding after run step start send_provisional_reliable handle_timeout fire_timer_n next_due
    tick_all tick kept resends abandoned retain_not_in
run-ringing = refl

run-rejected : run (start invite_tx) rejected ≡ some (after rejected)
unfolding after run step start send_provisional_reliable send_response handle_timeout
run-rejected = refl

rejected_state : (after rejected).tx.state ≡ completed
unfolding after run step start send_provisional_reliable send_response handle_timeout
rejected_state = refl

ringing_buffer : length (after ringing).tx.reliable_provisionals ≡ 1
unfolding after run step start send_provisional_reliable handle_timeout fire_timer_n next_due
    tick_all tick kept resends abandoned retain_not_in
ringing_buffer = refl

-- T1 after T1, 2 * T1 and so on: the eleventh firing gives a single provisional up.
lone_given_up : (fire_timer_n_times 10 (after ringing).tx).reliable_provisionals ≡ []
unfolding after run step start send_provisional_reliable handle_timeout fire_timer_n next_due
    tick_all tick kept resends abandoned retain_not_in fire_timer_n_times
lone_given_up = refl

prack_timeout_never_late_example : (after ringing).late_timeouts ≡ 0
prack_timeout_never_late_example =
    prack_timeout_never_late (request_with invite) false ringing new_invite run-ringing

invite_server-Running_example :
    ((after ringing).armed timer_n ≡ not (is_empty (after ringing).tx.reliable_provisionals))
    × Running
        (after ringing).tx.state
        (after ringing).armed
        (after ringing).tx.last_response
        (is_empty (after ringing).tx.reliable_provisionals)
        (after ringing).tx.final_sent
invite_server-Running_example =
    invite_server-Running (request_with invite) false ringing new_invite run-ringing

invite_server_never_stuck_example :
    state_of (run (after rejected) (fire timer_h ∷ fire timer_i ∷ [])) ≡ some terminated
invite_server_never_stuck_example =
    invite_server_never_stuck (request_with invite) false rejected new_invite run-rejected
      (inl rejected_state)

provisionals_given_up_example :
    is_empty
      (fire_timer_n_times
        (64 * length (after ringing).tx.reliable_provisionals + 1)
        (after ringing).tx).reliable_provisionals
    ≡ true
provisionals_given_up_example =
    provisionals_given_up (request_with invite) false ringing new_invite run-ringing

prack_acknowledges_example :
    (find_rseq 1 (handle_event (after ringing).tx (prack_received 1)).reliable_provisionals ≡ none)
    × ((m : ℕ)
        → m ≢ 1
        → find_rseq m (handle_event (after ringing).tx (prack_received 1)).reliable_provisionals
          ≡ find_rseq m (after ringing).tx.reliable_provisionals)
    × (find_rseq 1 (after ringing).tx.reliable_provisionals ≡ none
        → handle_event (after ringing).tx (prack_received 1) ≡ (after ringing).tx)
prack_acknowledges_example = prack_acknowledges (after ringing).tx 1
