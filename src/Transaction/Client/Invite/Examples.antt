-- ===== src/Transaction/Client/Invite/Examples.antt =====
-- Runs of an INVITE client transaction, and its theorems at concrete inputs.
use rsiprtp.Common.{◌++◌, List, [], ◌∷◌, false, some, none, ◌≡◌, refl, arith}
use rsiprtp.Transaction.Timer.{timer_a, timer_b}
use rsiprtp.Transaction.TimerValues
use rsiprtp.Transaction.Messages.{RequestFields, ack, invite, bye}
use rsiprtp.Transaction.TransactionId.{from_request}
use rsiprtp.Transaction.Sample.{sample, request_with, reply_with}
use rsiprtp.Transaction.Action.{send, set_timer}
use rsiprtp.Transaction.Client.Invite.{
  calling, completed, InviteClientTransaction, new, handle_response, handle_timeout,
  handle_transport_error, build_ack_for_non_2xx, ack_fields, parse_via_or_default, send_ack,
}
use rsiprtp.Transaction.Client.Invite.Lifecycle.{
  Input, receive, fire, fail, start, step, run, Accounts, outcome-Accounts,
}
use rsiprtp.Transaction.Client.Invite.Retransmit.{
  fire_timer_a, retransmissions, invite_client_retransmit_schedule,
}
use rsiprtp.Transaction.Client.Invite.Ack.{KeepsFields}

abbrev invite_tx : InviteClientTransaction sample
invite_tx = record {
  id = record { branch = "z9hG4bKtest"; method = invite };
  state = calling;
  request = request_with invite;
  timers = TimerValues.default;
  reliable = false;
  retransmit_interval = 500000000;
  actions = send (0 ∷ []) ∷ set_timer timer_a 500000000 ∷ set_timer timer_b 32000000000 ∷ [];
}

abbrev drained_tx : InviteClientTransaction sample
drained_tx = record invite_tx { actions = [] }

abbrev ack_of_invite : RequestFields
ack_of_invite = record (request_with ack) {
  via = record { protocol = "UDP"; host = "0.0.0.0"; port = 5060 };
}

new_invite : new sample (request_with invite) false ≡ some invite_tx
unfolding new from_request TimerValues.timer_a TimerValues.timer_b
new_invite = refl

new_bye : new sample (request_with bye) false ≡ none
unfolding new
new_bye = refl

abbrev inputs : List (Input sample)
inputs =
    fire timer_a ∷ receive (reply_with 180 invite) ∷ receive (reply_with 486 invite) ∷ fail ∷ []

run_completes : (run (start invite_tx) inputs).tx.state ≡ completed
unfolding run start step handle_timeout handle_response handle_transport_error send_ack
    TimerValues.timer_d build_ack_for_non_2xx ack_fields
run_completes = refl

ack_built : build_ack_for_non_2xx sample (request_with invite) ≡ some ack_of_invite
unfolding build_ack_for_non_2xx ack_fields parse_via_or_default
ack_built = refl

outcome-Accounts_example :
    Accounts (run (start invite_tx) inputs).tx.state (run (start invite_tx) inputs).told
outcome-Accounts_example = outcome-Accounts (request_with invite) false inputs new_invite

invite_client_retransmit_schedule_example :
    (fire_timer_a 5 invite_tx).actions ≡ invite_tx.actions ++ retransmissions invite_tx 0 5
invite_client_retransmit_schedule_example =
    invite_client_retransmit_schedule 5 invite_tx refl (omega arith) refl

sample_keeps :
    (f : RequestFields) → sample.build f ≡ some ack_of_invite → KeepsFields sample f ack_of_invite
sample_keeps f e = ground arith
