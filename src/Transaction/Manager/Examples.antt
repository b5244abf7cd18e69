-- ===== src/Transaction/Manager/Examples.antt =====
-- Runs of the transaction manager: an incoming INVITE that is answered and an outgoing OPTIONS.
use rsiprtp.Common.{ℕ, [], ◌∷◌, ◌++◌, List, false, ◌≡◌, refl, arith}
use rsiprtp.Transaction.Timer.{timer_g}
use rsiprtp.Transaction.Messages.{sip_request, invite, ack, options}
use rsiprtp.Transaction.Sample.{sample, request_with, reply_with}
use rsiprtp.Transaction.Manager.{TransactionManager, new, handle_request, cleanup_terminated}
use rsiprtp.Transaction.Manager.View.{find, perform, respond, fire, after, told, perform_lem}
use rsiprtp.Transaction.Manager.WellFormed.{Consistent}
use rsiprtp.Transaction.Manager.Removal.{lives, Holds, find-cleanup_terminated}
use rsiprtp.Transaction.Manager.Run.{step, Input, create, message, call, run}
use rsiprtp.Transaction.Manager.Invariant.{run-Consistent}
use rsiprtp.Transaction.Manager.Agreement.{Found, tables_agree}
use rsiprtp.Transaction.Manager.Acks.{ack_reaches_nothing}

abbrev answered : List (Input sample)
answered =
    message (sip_request (request_with invite))
    ∷ create (request_with options)
    ∷ call 1 (respond (reply_with 486 invite))
    ∷ []

abbrev manager : TransactionManager sample
manager = run (new sample false) answered

answered-Consistent : Consistent (run (new sample false) answered)
answered-Consistent = run-Consistent false answered (omega arith)

tables_agree_example :
    Consistent (run (new sample false) answered)
    × Found
        (step (run (new sample false) answered) (create (request_with invite)))
        (run (new sample false) answered).next_handle
tables_agree_example = tables_agree false answered (create (request_with invite)) (omega arith)

perform_lem_example :
    (find (perform 1 (fire timer_g) manager) 1 ≡ after (fire timer_g) (find manager 1))
    × ((perform 1 (fire timer_g) manager).actions
        ≡ manager.actions ++ told 1 (fire timer_g) (find manager 1))
perform_lem_example = perform_lem manager 1 1 (fire timer_g)

find-cleanup_terminated_example :
    (find (cleanup_terminated manager) 1 ≡ lives (find manager 1))
    × Holds (cleanup_terminated manager) 1 (lives (find manager 1))
find-cleanup_terminated_example = find-cleanup_terminated manager 1 answered-Consistent

ack_reaches_nothing_example :
    ((h : ℕ) → find (handle_request (request_with ack) manager) h ≡ find manager h)
    × ((handle_request (request_with ack) manager).actions ≡ manager.actions)
ack_reaches_nothing_example =
    ack_reaches_nothing false answered (request_with ack) (omega arith) refl
