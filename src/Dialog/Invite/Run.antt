-- ===== src/Dialog/Invite/Run.antt =====
-- An INVITE dialog, crates/rsiprtp/src/dialog/invite.rs, over sequences of calls, with what its user is
-- told and the CSeq numbers that go out and come in.
use Prim.Native.String.{String}
use rsiprtp.Common.{ℕ, ◌+◌, List, [], ◌∷◌, ◌++◌, Option, none, some}
use rsiprtp.Dialog.Messages.{DialogMessages}
use rsiprtp.Dialog.Invite.{
  established, provisional, reinvite, bye, ended, session_progress, Action, send_request, respond,
  event, InviteDialog, handle_response, handle_request, send_response, send_bye,
  build_bye_with_reason, build_prack, build_update, mark_ack_sent,
}

-- `hang_up` and the three after it have the branch last.
pub data Input (D : DialogMessages) : Type 0 where
  take_response : D.base.Response → Input D
  take_request : D.base.Request → Input D
  answer : D.base.Response → Input D
  hang_up : String → Input D
  hang_up_for : String → String → Input D
  acknowledge : D.base.Response → String → Input D
  refresh : Option ℕ → String → Input D
  note_ack : Input D

-- The user drains the actions after each call. `reinvites` has the CSeq numbers of the re-INVITEs that
-- the user is told of and `sent` those of the requests that are built, both the last one first.
pub record World (D : DialogMessages) : Type 0 where
  pub dialog : InviteDialog D
  pub established_told : ℕ
  pub ended_told : ℕ
  pub reinvites : List ℕ
  pub sent : List ℕ

abbrev pub cseq_onto : Option ℕ → List ℕ → List ℕ
cseq_onto none ns = ns
cseq_onto (some n) ns = n ∷ ns

module _ {D : DialogMessages} where
  abbrev is_established : Action D → ℕ
  is_established (send_request r) = 0
  is_established (respond r) = 0
  is_established (event established) = 1
  is_established (event (provisional r)) = 0
  is_established (event (reinvite r)) = 0
  is_established (event (bye r)) = 0
  is_established (event (ended e)) = 0
  is_established (event (session_progress r)) = 0

  abbrev is_ended : Action D → ℕ
  is_ended (send_request r) = 0
  is_ended (respond r) = 0
  is_ended (event established) = 0
  is_ended (event (provisional r)) = 0
  is_ended (event (reinvite r)) = 0
  is_ended (event (bye r)) = 0
  is_ended (event (ended e)) = 1
  is_ended (event (session_progress r)) = 0

  abbrev reinvite_seq : Action D → List ℕ
  reinvite_seq (send_request r) = []
  reinvite_seq (respond r) = []
  reinvite_seq (event established) = []
  reinvite_seq (event (provisional r)) = []
  reinvite_seq (event (reinvite r)) = elim (D.base.cseq r) [ none ↦ [] | some seq ↦ seq ∷ [] ]
  reinvite_seq (event (bye r)) = []
  reinvite_seq (event (ended e)) = []
  reinvite_seq (event (session_progress r)) = []

  abbrev pub carry_out : List (Action D) → World D → World D
  carry_out [] w = w
  carry_out (a ∷ as') w = carry_out as' (record w {
    established_told = w.established_told + is_established a;
    ended_told = w.ended_told + is_ended a;
    reinvites = reinvite_seq a ++ w.reinvites;
  })

  -- `poll_actions`.
  abbrev pub settle : World D → InviteDialog D → World D
  settle w d = carry_out d.actions (record w { dialog = record d { actions = [] } })

  abbrev built : D.base.Request → World D → World D
  built r w = record w { sent = cseq_onto (D.base.cseq r) w.sent }

  -- `none` is a panic.
  unfoldable pub step : World D → Input D → Option (World D)
  step w (take_response r) = some (settle w (handle_response r w.dialog))
  step w (take_request r) = some (settle w (handle_request r w.dialog))
  step w (answer r) = some (settle w (send_response r w.dialog))
  step w (hang_up branch) =
      let (request, d) = send_bye branch w.dialog in
      elim request [ none ↦ some (settle w d) | some r ↦ some (settle (built r w) d) ]
  step w (hang_up_for reason branch) =
      let (request, d) = build_bye_with_reason reason branch w.dialog in
      elim request [ none ↦ some (settle w d) | some r ↦ some (settle (built r w) d) ]
  step w (acknowledge to branch) = elim (build_prack to branch w.dialog) [
    | none ↦ none
    | some (r, d) ↦ some (settle (built r w) d)
  ]
  step w (refresh session_expires branch) = elim (build_update session_expires branch w.dialog) [
    | none ↦ none
    | some (r, d) ↦ some (settle (built r w) d)
  ]
  step w note_ack = some (settle w (mark_ack_sent w.dialog))

  unfoldable pub run : World D → List (Input D) → Option (World D)
  run w [] = some w
  run w (i ∷ is) = elim (step w i) [ none ↦ none | some v ↦ run v is ]

  abbrev pub start : InviteDialog D → World D
  start d = record { dialog = d; established_told = 0; ended_told = 0; reinvites = []; sent = [] }
