-- ===== src/Transaction/Client/NonInvite/Examples.antt =====
-- Runs of a non-INVITE client transaction, and its theorems at concrete inputs.
use rsiprtp.Common.{List, [], ◌∷◌, false, some, none, ◌≡◌, refl}
use rsiprtp.Transaction.Timer.{timer_e, timer_f}
use rsiprtp.Transaction.TimerValues
use rsiprtp.Transaction.Messages.{bye, invite}
use rsiprtp.Transaction.TransactionId.{from_request}
use rsiprtp.Transaction.Sample.{sample, request_with, reply_with}
use rsiprtp.Transaction.Action.{send, set_timer}
use rsiprtp.Transaction.Client.NonInvite.{
  trying, completed, terminated, NonInviteClientTransaction, new, handle_response, handle_timeout,
  handle_transport_error,
}
use rsiprtp.Transaction.Client.NonInvite.Lifecycle.{
  Input, receive, fire, fail, start, step, run, due_outcomes, one_outcome,
}

abbrev bye_tx : NonInviteClientTransaction sample
bye_tx = record {
  id = record { branch = "z9hG4bKtest"; method = bye };
  state = trying;
  request = request_with bye;
  timers = TimerValues.default;
  reliable = false;
  retransmit_interval = 500000000;
  actions = send (2 ∷ []) ∷ set_timer timer_e 500000000 ∷ set_timer timer_f 32000000000 ∷ [];
}

abbrev ended_tx : NonInviteClientTransaction sample
ended_tx = record bye_tx { state = terminated }

new_bye : new sample (request_with bye) false ≡ some bye_tx
unfolding new from_request TimerValues.timer_e TimerValues.timer_f
new_bye = refl

new_invite : new sample (request_with invite) false ≡ none
unfolding new
new_invite = refl

abbrev inputs : List (Input sample)
inputs = fire timer_e ∷ receive (reply_with 100 bye) ∷ receive (reply_with 200 bye) ∷ fail ∷ []

run_completes : (run (start bye_tx) inputs).tx.state ≡ completed
unfolding run start step handle_timeout handle_response handle_transport_error TimerValues.timer_k
run_completes = refl

one_outcome_example :
    (run (start bye_tx) inputs).told ≡ due_outcomes (run (start bye_tx) inputs).tx.state
one_outcome_example = one_outcome (request_with bye) false inputs new_bye
