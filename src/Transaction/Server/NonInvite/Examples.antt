-- ===== src/Transaction/Server/NonInvite/Examples.antt =====
-- Runs of a non-INVITE server transaction, and its theorems at concrete inputs.
use rsiprtp.Common.{List, [], ◌∷◌, true, false, some, none, ◌≡◌, ◌≢◌, refl}
use rsiprtp.Transaction.TimerValues
use rsiprtp.Transaction.Messages.{bye, invite}
use rsiprtp.Transaction.TransactionId.{from_request}
use rsiprtp.Transaction.Sample.{sample, request_with, reply_with}
use rsiprtp.Transaction.Action.{event, sent}
use rsiprtp.Transaction.Server.NonInvite.{
  trying, completed, terminated, request_received, NonInviteServerTransaction, new, handle_request,
  handle_timeout, send_response, handle_transport_error,
}
use rsiprtp.Transaction.Server.NonInvite.Lifecycle.{
  Input, receive, respond, start, step, run, answer_bytes, retransmission_answered,
}

abbrev bye_tx : NonInviteServerTransaction sample
bye_tx = record {
  id = record { branch = "z9hG4bKtest"; method = bye };
  state = trying;
  request = request_with bye;
  last_response = none;
  timers = TimerValues.default;
  reliable = false;
  actions = event (request_received (request_with bye)) ∷ [];
}

new_bye : new sample (request_with bye) false ≡ some bye_tx
unfolding new from_request
new_bye = refl

new_invite : new sample (request_with invite) false ≡ none
unfolding new
new_invite = refl

abbrev inputs : List (Input sample)
inputs =
    receive (request_with bye)
    ∷ respond (reply_with 100 bye)
    ∷ respond (reply_with 200 bye)
    ∷ respond (reply_with 500 bye)
    ∷ []

run_completes : (run (start bye_tx) inputs).tx.state ≡ completed
unfolding run start step handle_request send_response handle_timeout handle_transport_error
    TimerValues.timer_j
run_completes = refl

run_is_live : (run (start bye_tx) inputs).tx.state ≢ terminated
run_is_live e = cc run_completes

run_is_final : (run (start bye_tx) inputs).answer.final ≡ true
unfolding run start step
run_is_final = refl

answered_with_200 : (run (start bye_tx) inputs).answer.last ≡ some (200 ∷ [])
unfolding run start step
answered_with_200 = refl

retransmission_answered_example :
    sent (handle_request (run (start bye_tx) inputs).tx (request_with bye)).actions
    ≡ answer_bytes (run (start bye_tx) inputs).answer.last
retransmission_answered_example =
    retransmission_answered (request_with bye) false inputs (request_with bye) new_bye run_is_live
