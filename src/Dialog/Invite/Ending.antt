-- ===== src/Dialog/Invite/Ending.antt =====
-- How an INVITE dialog ends by a BYE of its own, crates/rsiprtp/src/dialog/invite.rs.
use rsiprtp.Common.{List, [], ◌∷◌, Bool, true, some, Option-cases, inl, inr, not, ◌≡◌, arith}
use rsiprtp.Transaction.Messages.{Method, invite, ack, cancel, prack, same_method}
use rsiprtp.Transaction.Messages as Requested
use rsiprtp.Dialog.Messages.{DialogMessages}
use rsiprtp.Dialog.State.{terminating, next_local_seq}
use rsiprtp.Dialog.Invite.{
  handle_response, handle_request, dispatch_request, send_response, send_bye, build_bye_with_reason,
  build_prack, build_update, mark_ack_sent,
}
use rsiprtp.Dialog.Invite.Run.{
  Input, take_response, take_request, answer, hang_up, hang_up_for, acknowledge, refresh, note_ack,
  World, step, run,
}

module _ {D : DialogMessages} where
  -- The input is not a BYE from the peer.
  abbrev pub no_bye : Input D → Bool
  no_bye (take_response r) = true
  no_bye (take_request r) = not (same_method (D.base.method r) Requested.bye)
  no_bye (answer r) = true
  no_bye (hang_up branch) = true
  no_bye (hang_up_for reason branch) = true
  no_bye (acknowledge to branch) = true
  no_bye (refresh session_expires branch) = true
  no_bye note_ack = true

  abbrev pub NoBye : List (Input D) → Type 0
  NoBye [] = Unit {0}
  NoBye (i ∷ is) = (no_bye i ≡ true) × NoBye is

  abbrev Waits : World D → Type 0
  Waits w = (w.dialog.actions ≡ []) × (w.dialog.info.state ≡ terminating)

  step-Waits :
      (w v : World D) (i : Input D) → no_bye i ≡ true → step w i ≡ some v → Waits w → Waits v
  unfolding step handle_response handle_request dispatch_request send_response send_bye
      build_bye_with_reason build_prack build_update mark_ack_sent next_local_seq
  step-Waits w v (take_response r) other e (a, h) = ground arith
  step-Waits w v (take_request r) other e (a, h) = ground arith
  step-Waits w v (answer r) other e (a, h) = ground arith
  step-Waits w v (hang_up branch) other e (a, h) = ground arith
  step-Waits w v (hang_up_for reason branch) other e (a, h) = ground arith
  step-Waits w v (acknowledge to branch) other e (a, h) = ground arith
  step-Waits w v (refresh session_expires branch) other e (a, h) = ground arith
  step-Waits w v note_ack other e (a, h) = ground arith

  run-Waits :
      (w v : World D) (is : List (Input D)) → NoBye is → run w is ≡ some v → Waits w → Waits v
  unfolding run
  run-Waits w v [] others e h = ground arith
  run-Waits w v (i ∷ is) (other, others) e h = elim (Option-cases (step w i)) [
    | inl none_yet ↦ absurd (ground arith)
    | inr (u, s) ↦ run-Waits u v is others (rw (run, s) at e) (step-Waits w u i other s h)
  ]

  -- A dialog that has sent its BYE stays in Terminating over any calls, the response to the BYE
  -- included, until a BYE comes from the peer.
  pub bye_never_completes :
      (w v : World D) (is : List (Input D))
      → w.dialog.actions ≡ []
      → w.dialog.info.state ≡ terminating
      → NoBye is
      → run w is ≡ some v
      → v.dialog.info.state ≡ terminating
  bye_never_completes w v is polled waits others e = (run-Waits w v is others e (polled, waits)).1
