-- ===== src/Dialog/Invite/Sequence.antt =====
-- The CSeq numbers of an INVITE dialog's requests over sequences of calls, crates/rsiprtp/src/dialog/invite.rs.
use Prim.Native.String.{String}
use rsiprtp.Common.{
  ◌+◌, ◌<◌, ◌≤◌, List, [], ◌∷◌, length, Bool, true, false, some, Option-cases, inl, inr, ◌≡◌, ◌≢◌,
  arith,
}
use rsiprtp.Dialog.Messages.{DialogMessages}
use rsiprtp.Dialog.State.{
  DialogState, early, confirmed, terminating, terminated, next_local_seq, update_remote_seq,
}
use rsiprtp.Dialog.Invite.{
  handle_response, handle_request, dispatch_request, take_reinvite, send_response, send_bye,
  build_bye_with_reason, build_prack, build_update, mark_ack_sent,
}
use rsiprtp.Dialog.Invite.Run.{
  Input, take_response, take_request, answer, hang_up, hang_up_for, acknowledge, refresh, note_ack,
  World, step, run, settle,
}
use rsiprtp.Dialog.Invite.Built.{
  CseqKept, send_bye-cseq, build_bye-cseq, build_prack-cseq, build_update-cseq,
}
use rsiprtp.Dialog.Invite.Lifecycle.{Descending, Under}

abbrev past_early : DialogState → Bool
past_early early = false
past_early confirmed = true
past_early terminating = true
past_early terminated = true

module _ {D : DialogMessages} where
  pub record Ordered (w : World D) : Type 0 where
    pub polled : w.dialog.actions ≡ []
    pub past : past_early w.dialog.info.state ≡ true
    pub below : Under (w.dialog.info.local_seq + 1) w.sent
    pub descends : Descending w.sent

  abbrev Grown : World D → World D → Type 0
  Grown w v = Ordered v × (v.dialog.info.local_seq ≤ w.dialog.info.local_seq + 1)

  response-Grown :
      (w : World D) (r : D.base.Response)
      → Ordered w
      → Grown w (settle w (handle_response r w.dialog))
  unfolding handle_response
  response-Grown w r h = ground arith

  request-Grown :
      (w : World D) (r : D.base.Request)
      → Ordered w
      → Grown w (settle w (handle_request r w.dialog))
  unfolding handle_request dispatch_request take_reinvite update_remote_seq
  request-Grown w r h = ground arith

  answer-Grown :
      (w : World D) (r : D.base.Response)
      → Ordered w
      → Grown w (settle w (send_response r w.dialog))
  unfolding send_response
  answer-Grown w r h = ground arith

  step-Grown :
      (w v : World D) (i : Input D)
      → CseqKept D
      → w.dialog.info.local_seq + 1 < 4294967296
      → step w i ≡ some v
      → Ordered w
      → Grown w v
  unfolding step send_bye build_bye_with_reason mark_ack_sent next_local_seq
  step-Grown w v (take_response r) kept room e h = ground (arith, response-Grown w r)
  step-Grown w v (take_request r) kept room e h = ground (arith, request-Grown w r)
  step-Grown w v (answer r) kept room e h = ground (arith, answer-Grown w r)
  step-Grown w v (hang_up branch) kept room e h = elim (Option-cases (send_bye branch w.dialog).0) [
    | inl none_sent ↦ ground arith
    | inr (r, sent) ↦ ground (arith, send_bye-cseq w.dialog branch r kept sent)
  ]
  step-Grown w v (hang_up_for reason branch) kept room e h =
      elim (Option-cases (build_bye_with_reason reason branch w.dialog).0) [
        | inl none_sent ↦ ground arith
        | inr (r, sent) ↦ ground (arith, build_bye-cseq w.dialog reason branch r kept sent)
      ]
  step-Grown w v (acknowledge to branch) kept room e h =
      elim (Option-cases (build_prack to branch w.dialog)) [
        | inl panics ↦ absurd (ground arith)
        | inr ((r, d), built) ↦ ground (arith, build_prack-cseq w.dialog d to branch r kept built)
      ]
  step-Grown w v (refresh session_expires branch) kept room e h =
      elim (Option-cases (build_update session_expires branch w.dialog)) [
        | inl panics ↦ absurd (ground arith)
        | inr ((r, d), built) ↦
            ground (arith, build_update-cseq w.dialog d session_expires branch r kept built)
      ]
  step-Grown w v note_ack kept room e h = ground arith

  run-Ordered :
      (w v : World D) (is : List (Input D))
      → CseqKept D
      → w.dialog.info.local_seq + length is < 4294967296
      → run w is ≡ some v
      → Ordered w
      → Ordered v
  unfolding run
  run-Ordered w v [] kept room e h = ground arith
  run-Ordered w v (i ∷ is) kept room e h = elim (Option-cases (step w i)) [
    | inl none_yet ↦ absurd (ground arith)
    | inr (u, s) ↦
        let (ordered, grown) = step-Grown w u i kept (ground arith) s h in
        run-Ordered u v is kept (ground arith) (rw (run, s) at e) ordered
  ]

  -- When the builder keeps the CSeq that it is given: from a dialog that is no longer early and has built
  -- no request yet, over any calls that leave its CSeq below 2^32, the CSeq of each request that it
  -- builds is higher than that of the one before it.
  pub sent-Descending :
      (w v : World D) (is : List (Input D))
      → CseqKept D
      → w.dialog.actions ≡ []
      → w.dialog.info.state ≢ early
      → w.sent ≡ []
      → w.dialog.info.local_seq + length is < 4294967296
      → run w is ≡ some v
      → Descending v.sent
  sent-Descending w v is kept polled past none_sent room e =
      (run-Ordered w v is kept room e (ground arith)).descends
