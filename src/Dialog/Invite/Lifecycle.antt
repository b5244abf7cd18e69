-- ===== src/Dialog/Invite/Lifecycle.antt =====
-- What the user of an INVITE dialog is told in each state, crates/rsiprtp/src/dialog/invite.rs.
use Prim.Native.String.{String}
use rsiprtp.Common.{
  ℕ, ◌≤◌, ◌<◌, List, [], ◌∷◌, Option, none, some, Option-cases, Bool-cases, inl, inr, ◌&&◌, leb,
  ◌≡◌, ◌⊎◌, arith,
}
use rsiprtp.Dialog.Messages.{DialogMessages}
use rsiprtp.Dialog.State.{
  DialogState, early, confirmed, terminating, terminated, same_state, DialogInfo, update_remote_seq,
  next_local_seq, from_invite_response_uac, from_invite_uas,
}
use rsiprtp.Dialog.Invite.{
  uac, same_role, within, InviteDialog, new_uac, new_uas, handle_response, take_provisional,
  take_success, take_failure, handle_request, dispatch_request, take_reinvite, send_response,
  send_bye, build_bye_with_reason, build_prack, build_update, mark_ack_sent,
}
use rsiprtp.Dialog.Invite.Run.{
  Input, take_response, take_request, answer, hang_up, hang_up_for, acknowledge, refresh, note_ack,
  World, step, run, start, settle,
}

-- How often the user has been told that the dialog is established, and that it has ended.
abbrev pub Due : DialogState → ℕ → ℕ → Type 0
Due early begun over = (begun ≡ 0) × (over ≡ 0)
Due confirmed begun over = (begun ≡ 1) × (over ≡ 0)
Due terminating begun over = (begun ≡ 1) × (over ≡ 0)
Due terminated begun over = (begun ≤ 1) × (1 ≤ over)

abbrev pub Under : ℕ → List ℕ → Type 0
Under n [] = Unit {0}
Under n (m ∷ ms) = m < n

-- Each number is smaller than the one before it.
abbrev pub Descending : List ℕ → Type 0
Descending [] = Unit {0}
Descending (n ∷ ns) = Under n ns × Descending ns

abbrev Heard : DialogState → Option ℕ → List ℕ → Type 0
Heard early remote_seq heard = heard ≡ []
Heard s remote_seq [] = Unit {0}
Heard s remote_seq (n ∷ ns) = (remote_seq ≡ some n) × Descending (n ∷ ns)

Heard-Descending :
    (s : DialogState) (remote_seq : Option ℕ) (heard : List ℕ)
    → Heard s remote_seq heard
    → Descending heard
Heard-Descending early remote_seq [] h = tt
Heard-Descending early remote_seq (n ∷ ns) h = absurd (ground arith)
Heard-Descending confirmed remote_seq [] h = tt
Heard-Descending confirmed remote_seq (n ∷ ns) (e, h) = h
Heard-Descending terminating remote_seq [] h = tt
Heard-Descending terminating remote_seq (n ∷ ns) (e, h) = h
Heard-Descending terminated remote_seq [] h = tt
Heard-Descending terminated remote_seq (n ∷ ns) (e, h) = h

pub response_info :
    (D : DialogMessages) (q : D.base.Request) (r : D.base.Response) (state : DialogState)
    (info : DialogInfo)
    → from_invite_response_uac D q r state ≡ some info
    → (info.state ≡ state) × (info.remote_seq ≡ none) × (D.base.cseq q ≡ some info.local_seq)
unfolding from_invite_response_uac
response_info D q r state info e = ground arith

module _ {D : DialogMessages} where
  pub record Inv (w : World D) : Type 0 where
    pub polled : w.dialog.actions ≡ []
    pub due : Due w.dialog.info.state w.established_told w.ended_told
    pub heard : Heard w.dialog.info.state w.dialog.info.remote_seq w.reinvites

  provisional-Inv :
      (w : World D) (r : D.base.Response)
      → w.dialog.info.state ≡ early
      → Inv w
      → Inv (settle w (take_provisional r w.dialog))
  unfolding take_provisional
  provisional-Inv w r is_early h =
      elim (Option-cases (from_invite_response_uac D w.dialog.invite r early)) [
        | inl e ↦ ground arith
        | inr (i, e) ↦ ground (arith, response_info D w.dialog.invite r early i e)
      ]

  success-Inv :
      (w : World D) (r : D.base.Response)
      → w.dialog.info.state ≡ early
      → Inv w
      → Inv (settle w (take_success r w.dialog))
  unfolding take_success
  success-Inv w r is_early h =
      elim (Option-cases (from_invite_response_uac D w.dialog.invite r confirmed)) [
        | inl e ↦ rw (take_success, e) (ground arith)
        | inr (i, e) ↦
            rw (take_success, e) (ground (arith, response_info D w.dialog.invite r confirmed i e))
      ]

  failure-Inv :
      (w : World D) (code : ℕ)
      → w.dialog.info.state ≡ early
      → Inv w
      → Inv (settle w (take_failure code w.dialog))
  unfolding take_failure
  failure-Inv w code is_early h = ground arith

  idle-Inv : (w : World D) → Inv w → Inv (settle w w.dialog)
  idle-Inv w h = ground arith

  response-Inv :
      (w : World D) (r : D.base.Response) → Inv w → Inv (settle w (handle_response r w.dialog))
  unfolding handle_response
  response-Inv w r h =
      let code = D.base.status_code r in
      let is_open = same_role w.dialog.role uac && same_state w.dialog.info.state early in
      elim (Bool-cases is_open) [
        | inr shut ↦ rw (handle_response, shut) (idle-Inv w h)
        | inl taken ↦
            let start : w.dialog.info.state ≡ early = ground arith in
            elim (Bool-cases (within 100 200 code)) [
              | inl a ↦ rw (handle_response, taken, a) (provisional-Inv w r start h)
              | inr a ↦ elim (Bool-cases (within 200 300 code)) [
                | inl b ↦ rw (handle_response, taken, a, b) (success-Inv w r start h)
                | inr b ↦ elim (Bool-cases (leb 300 code)) [
                  | inl c ↦ rw (handle_response, taken, a, b, c) (failure-Inv w code start h)
                  | inr c ↦ rw (handle_response, taken, a, b, c) (idle-Inv w h)
                ]
              ]
            ]
      ]

  request-Inv :
      (w : World D) (r : D.base.Request) → Inv w → Inv (settle w (handle_request r w.dialog))
  unfolding handle_request dispatch_request take_reinvite update_remote_seq
  request-Inv w r h = ground arith

  answer-Inv :
      (w : World D) (r : D.base.Response) → Inv w → Inv (settle w (send_response r w.dialog))
  unfolding send_response
  answer-Inv w r h = ground arith

  step-Inv : (w v : World D) (i : Input D) → step w i ≡ some v → Inv w → Inv v
  unfolding step send_bye build_bye_with_reason build_prack build_update mark_ack_sent
      next_local_seq
  step-Inv w v (take_response r) e h = ground (arith, response-Inv w r)
  step-Inv w v (take_request r) e h = ground (arith, request-Inv w r)
  step-Inv w v (answer r) e h = ground (arith, answer-Inv w r)
  step-Inv w v (hang_up branch) e h = ground arith
  step-Inv w v (hang_up_for reason branch) e h = ground arith
  step-Inv w v (acknowledge to branch) e h = ground arith
  step-Inv w v (refresh session_expires branch) e h = ground arith
  step-Inv w v note_ack e h = ground arith

  run-Inv : (w v : World D) (is : List (Input D)) → run w is ≡ some v → Inv w → Inv v
  unfolding run
  run-Inv w v [] e h = ground arith
  run-Inv w v (i ∷ is) e h = elim (Option-cases (step w i)) [
    | inl none_yet ↦ absurd (ground arith)
    | inr (u, s) ↦ run-Inv u v is (rw (run, s) at e) (step-Inv w u i s h)
  ]

  -- A dialog as `new_uac` or `new_uas` makes it.
  abbrev pub Fresh : InviteDialog D → Type 0
  Fresh d =
      (r : D.base.Request) × ((d ≡ new_uac D r)
        ⊎ ((tag : String) × (local_contact : String) × (new_uas D r tag local_contact ≡ some d)))

  Fresh-Inv : (d : InviteDialog D) → Fresh d → Inv (start d)
  unfolding new_uac new_uas from_invite_uas
  Fresh-Inv d (r, inl e) = ground arith
  Fresh-Inv d (r, inr (tag, local_contact, e)) = ground arith

  -- From a new dialog on, whatever responses and requests come and whatever the user sends, the user
  -- has been told neither that the dialog is established nor that it has ended while it is early,
  -- exactly once that it is established and not that it has ended while it is confirmed or terminating,
  -- and at least once that it has ended and at most once that it was established when it is terminated.
  pub dialog-Due :
      (d : InviteDialog D) (is : List (Input D)) (v : World D)
      → Fresh d
      → run (start d) is ≡ some v
      → Due v.dialog.info.state v.established_told v.ended_told
  dialog-Due d is v fresh e = (run-Inv (start d) v is e (Fresh-Inv d fresh)).due

  -- From a new dialog on, whatever responses and requests come and whatever the user sends, each
  -- re-INVITE that the user is told of has a higher CSeq than the one before it.
  pub reinvites-Descending :
      (d : InviteDialog D) (is : List (Input D)) (v : World D)
      → Fresh d
      → run (start d) is ≡ some v
      → Descending v.reinvites
  reinvites-Descending d is v fresh e =
      let h = (run-Inv (start d) v is e (Fresh-Inv d fresh)).heard in
      Heard-Descending v.dialog.info.state v.dialog.info.remote_seq v.reinvites h
