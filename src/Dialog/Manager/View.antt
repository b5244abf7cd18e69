-- ===== src/Dialog/Manager/View.antt =====
-- The dialog manager, crates/rsiprtp/src/dialog/manager.rs, as a family of dialogs under handles: which
-- dialog a call is for, and what it does to that dialog.
use Prim.Native.String.{String}
use rsiprtp.Common.{
  List, [], ◌++◌, Bool, true, false, Option, none, some, Option-cases, inl, inr, lookup,
  lookup-insert, append-nil, if◌then◌else◌, number_key, ==_iff, ◌==◌, ◌≡◌, arith, map, refl, ◌∷◌,
}
use rsiprtp.Dialog.Messages.{DialogMessages}
use rsiprtp.Dialog.State.{dialog_key}
use rsiprtp.Dialog.Invite as Dialogs
use rsiprtp.Dialog.Invite.{
  InviteDialog, Action, Role, uac, uas, same_role, new_uac, new_uas, is_terminated, mark_ack_sent,
  dispatch_request, take_reinvite,
}
use rsiprtp.Dialog.Manager.{
  DialogManager, DialogHandle, pending_key, find_dialog_for_request, handle_request,
  find_dialog_for_response, note_confirmed, forget_pending, deliver_response, handle_response,
  send_response, send_bye, ack_sent,
}
use rsiprtp.Dialog.Manager.Store.{put_dialog, with_dialog}
use rsiprtp.Dialog.Manager.Run.{
  Input, create, request, response, answer, hang_up, note_ack, poll, cleanup, step,
}
use rsiprtp.Dialog.Manager.Store.{
  ManagerAction, convert_all, send_request, respond, event, established, provisional,
  session_progress, reinvite, bye_received, ended,
}

abbrev pub map_some : {A B : Type 0} → (A → B) → Option A → Option B
map_some f none = none
map_some f (some a) = some (f a)

module _ {D : DialogMessages} where
  -- The handle that a call is for.
  abbrev pub addressed : DialogManager D → Input D → Option DialogHandle
  addressed m (create r) = none
  addressed m (request r local_tag) = find_dialog_for_request r m
  addressed m (response r) = elim (D.response_call_id r) [
    | none ↦ none
    | some call_id ↦ elim (D.response_from_tag r) [
      | none ↦ none
      | some from_tag ↦ find_dialog_for_response call_id from_tag (D.response_to_tag r) m
    ]
  ]
  addressed m (answer h r) = some h
  addressed m (hang_up h branch) = some h
  addressed m (note_ack h) = some h
  addressed m poll = none
  addressed m cleanup = none

  -- What it does to a dialog.
  abbrev pub respond_to : Input D → InviteDialog D → InviteDialog D
  respond_to (create r) d = d
  respond_to (request r local_tag) d = Dialogs.handle_request r d
  respond_to (response r) d = Dialogs.handle_response r d
  respond_to (answer h r) d = Dialogs.send_response r d
  respond_to (hang_up h branch) d = (Dialogs.send_bye branch d).1
  respond_to (note_ack h) d = mark_ack_sent d
  respond_to poll d = d
  respond_to cleanup d = d

  -- `ack_sent` does not collect the actions of the dialog.
  abbrev pub collects : Input D → Bool
  collects (note_ack h) = false
  collects i = true

  abbrev pub after : Input D → InviteDialog D → InviteDialog D
  after i d = if collects i then record (respond_to i d) { actions = [] } else respond_to i d

  -- An action of the dialog under a handle, as the manager's user gets it.
  abbrev pub labelled : DialogHandle → Action D → ManagerAction D
  labelled h (Dialogs.send_request r) = send_request r
  labelled h (Dialogs.respond r) = respond r
  labelled h (Dialogs.event Dialogs.established) = event h established
  labelled h (Dialogs.event (Dialogs.provisional r)) = event h (provisional r)
  labelled h (Dialogs.event (Dialogs.reinvite r)) = event h (reinvite r)
  labelled h (Dialogs.event (Dialogs.bye r)) = event h (bye_received r)
  labelled h (Dialogs.event (Dialogs.ended reason)) = event h (ended reason)
  labelled h (Dialogs.event (Dialogs.session_progress r)) = event h (session_progress r)

  convert_all_lem :
      (h : DialogHandle) (as' : List (Action D)) → convert_all h as' ≡ map (labelled h) as'
  unfolding convert_all
  convert_all_lem h [] = refl
  convert_all_lem h (a ∷ as') = ground (arith, convert_all_lem h as')

  abbrev pub told : DialogHandle → Input D → Option (InviteDialog D) → List (ManagerAction D)
  told h i none = []
  told h i (some d) = if collects i then map (labelled h) (respond_to i d).actions else []

  deliver_response_lem :
      (m : DialogManager D) (r : D.base.Response) (k : String × String) (h j : DialogHandle)
      → (lookup j (deliver_response r k h m).dialogs ≡ (
          if h == j
          then map_some (after (response r)) (lookup j m.dialogs)
          else lookup j m.dialogs))
        × ((deliver_response r k h m).actions
            ≡ m.actions ++ told h (response r) (lookup h m.dialogs))
  unfolding deliver_response note_confirmed forget_pending put_dialog Dialogs.poll_actions
  deliver_response_lem m r k h j = elim (Option-cases (lookup h m.dialogs)) [
    | inl absent ↦ ground (arith, append-nil m.actions, ==_iff h j)
    | inr (d, found) ↦ ground (
      arith,
      ==_iff h j,
      lookup-insert h j (record (Dialogs.handle_response r d) { actions = [] }) m.dialogs,
      convert_all_lem h (Dialogs.handle_response r d).actions,
    )
  ]

  -- A call that is for a handle acts on the dialog under it as on that dialog alone, and leaves every
  -- other one; the manager queues what that dialog asks for, under this handle.
  pub acts_alone :
      (m : DialogManager D) (i : Input D) (h j : DialogHandle)
      → addressed m i ≡ some h
      → (lookup j (step m i).dialogs
          ≡ (if h == j then map_some (after i) (lookup j m.dialogs) else lookup j m.dialogs))
        × ((step m i).actions ≡ m.actions ++ told h i (lookup h m.dialogs))
  unfolding step handle_request with_dialog handle_response send_response note_confirmed send_bye
      ack_sent put_dialog Dialogs.poll_actions
  acts_alone m (create r) h j e = absurd (ground arith)
  acts_alone m (request r local_tag) h j e = elim (Option-cases (lookup h m.dialogs)) [
    | inl absent ↦ ground (arith, append-nil m.actions, ==_iff h j)
    | inr (d, found) ↦ ground (
      arith,
      ==_iff h j,
      lookup-insert h j (record (Dialogs.handle_request r d) { actions = [] }) m.dialogs,
      convert_all_lem h (Dialogs.handle_request r d).actions,
    )
  ]
  acts_alone m (response r) h j e = elim (Option-cases (D.response_call_id r)) [
    | inl missing ↦ absurd (ground arith)
    | inr (call_id, a) ↦ elim (Option-cases (D.response_from_tag r)) [
      | inl missing ↦ absurd (ground arith)
      | inr (from_tag, b) ↦
          rw (step, handle_response, a, b, (rw (addressed, a, b) at e))
            (deliver_response_lem m r (call_id, from_tag) h j)
    ]
  ]
  acts_alone m (answer k r) h j e = elim (Option-cases (lookup h m.dialogs)) [
    | inl absent ↦ ground (arith, append-nil m.actions, ==_iff h j)
    | inr (d, found) ↦ ground (
      arith,
      ==_iff h j,
      lookup-insert h j (record (Dialogs.send_response r d) { actions = [] }) m.dialogs,
      convert_all_lem h (Dialogs.send_response r d).actions,
    )
  ]
  acts_alone m (hang_up k branch) h j e = elim (Option-cases (lookup h m.dialogs)) [
    | inl absent ↦ ground (arith, append-nil m.actions, ==_iff h j)
    | inr (d, found) ↦ ground (
      arith,
      ==_iff h j,
      lookup-insert h j (record (Dialogs.send_bye branch d).1 { actions = [] }) m.dialogs,
      convert_all_lem h (Dialogs.send_bye branch d).1.actions,
    )
  ]
  acts_alone m (note_ack k) h j e = elim (Option-cases (lookup h m.dialogs)) [
    | inl absent ↦ ground (arith, append-nil m.actions, ==_iff h j)
    | inr (d, found) ↦
        ground
          (arith, append-nil m.actions, ==_iff h j, lookup-insert h j (mark_ack_sent d) m.dialogs)
  ]
  acts_alone m poll h j e = absurd (ground arith)
  acts_alone m cleanup h j e = absurd (ground arith)
