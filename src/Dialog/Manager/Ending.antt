-- ===== src/Dialog/Manager/Ending.antt =====
-- From the end of a dialog to `cleanup_terminated`, and a call that is answered or rejected, in the dialog
-- manager, crates/rsiprtp/src/dialog/manager.rs.
use Prim.Native.String.{String}
use rsiprtp.Common.{
  ℕ, [], map, true, none, some, Option-cases, inl, inr, lookup, insert, remove, expired,
  contains-expired_label, lookup-insert, lookup-remove, lookup-remove_all, leb, if◌then◌else◌,
  number_key, ==_iff, ◌≡◌, arith,
}
use rsiprtp.Dialog.Messages.{DialogMessages}
use rsiprtp.Dialog.State.{
  DialogId, early, confirmed, terminated, same_state, same_dialog_iff, dialog_key,
}
use rsiprtp.Dialog.Invite as Dialogs
use rsiprtp.Dialog.Invite.{
  InviteDialog, Role, uac, uas, same_role, new_uac, new_uas, is_terminated, mark_ack_sent,
  dispatch_request, take_reinvite,
}
use rsiprtp.Dialog.Manager.{
  DialogManager, DialogHandle, pending_key, find_dialog_for_request, handle_request,
  find_dialog_for_response, note_confirmed, forget_pending, deliver_response, handle_response,
  cleanup_terminated,
}
use rsiprtp.Dialog.Manager.Store.{put_dialog, with_dialog, same_pending_iff}
use rsiprtp.Dialog.Manager.WellFormed.{Consistent}
use rsiprtp.Dialog.Manager.Run.{request, response, step}
use rsiprtp.Dialog.State.{DialogInfo, from_invite_response_uac, from_response_uac}
use rsiprtp.Dialog.Invite.{within, take_success, take_failure, Action}
use rsiprtp.Transaction.Messages.{bye}
use rsiprtp.Dialog.Manager.View.{addressed, acts_alone}
use rsiprtp.Dialog.Manager.Calls.{handle_response-Consistent, with_dialog-Consistent, request-Keeps}
use rsiprtp.Dialog.Manager.Invariant.{cleanup_terminated-lookup}

read_id :
    (D : DialogMessages) (q : D.base.Request) (r : D.base.Response) (info : DialogInfo)
    (call_id from_tag to_tag : String)
    → from_invite_response_uac D q r confirmed ≡ some info
    → D.response_call_id r ≡ some call_id
    → D.response_from_tag r ≡ some from_tag
    → D.response_to_tag r ≡ some to_tag
    → (info.id ≡ record { call_id = call_id; local_tag = from_tag; remote_tag = to_tag })
      × (info.state ≡ confirmed)
unfolding from_invite_response_uac from_response_uac
read_id D q r info call_id from_tag to_tag read a b c = ground arith

module _ {D : DialogMessages} where
  -- The id that a request is looked up by.
  found_by :
      (r : D.base.Request) (m : DialogManager D) (h : DialogHandle)
      → find_dialog_for_request r m ≡ some h
      → (id : DialogId) × (lookup id m.id_to_handle ≡ some h)
        × ((o : DialogManager D) → find_dialog_for_request r o ≡ lookup id o.id_to_handle)
  unfolding find_dialog_for_request
  found_by r m h found = elim (Option-cases (D.base.call_id r)) [
    | inl missing ↦ absurd (ground arith)
    | inr (call_id, a) ↦ elim (Option-cases (D.base.from_tag r)) [
      | inl missing ↦ absurd (ground arith)
      | inr (from_tag, b) ↦ elim (Option-cases (D.to_tag r)) [
        | inl missing ↦ absurd (ground arith)
        | inr (to_tag, c) ↦ (
          record { call_id = call_id; local_tag = to_tag; remote_tag = from_tag },
          ground arith,
          λ o. ground arith,
        )
      ]
    ]
  ]

  bye_terminates :
      (r : D.base.Request) (n : ℕ) (d : InviteDialog D)
      → D.base.method r ≡ bye
      → D.base.cseq r ≡ some n
      → (is_terminated (Dialogs.handle_request r d) ≡ true)
        × ((Dialogs.handle_request r d).info.id ≡ d.info.id)
  unfolding Dialogs.handle_request dispatch_request is_terminated
  bye_terminates r n d is_bye numbered = ground arith

  with_dialog-id_to_handle :
      (h : DialogHandle) (f : InviteDialog D → InviteDialog D) (m : DialogManager D)
      → (with_dialog h f m).id_to_handle ≡ m.id_to_handle
  unfolding with_dialog put_dialog
  with_dialog-id_to_handle h f m = ground arith

  -- When the tables are in agreement, a BYE that has a CSeq and finds its dialog ends it: after
  -- `cleanup_terminated` the dialog is gone and no request with these tags finds it.
  pub bye_then_cleanup_forgets :
      (m : DialogManager D) (r : D.base.Request) (n : ℕ) (h : DialogHandle) (local_tag : String)
      → Consistent m
      → D.base.method r ≡ bye
      → D.base.cseq r ≡ some n
      → find_dialog_for_request r m ≡ some h
      → let after = cleanup_terminated (handle_request r local_tag m).1 in
        (lookup h after.dialogs ≡ none) × (find_dialog_for_request r after ≡ none)
  unfolding step handle_request cleanup_terminated is_terminated
  bye_then_cleanup_forgets m r n h local_tag v is_bye numbered found =
      let (id, leads, looked_up) = found_by r m h found in
      elim (Option-cases (lookup h m.dialogs)) [
        | inl absent ↦ absurd (ground (arith, v.known id))
        | inr (old, there) ↦
            let d = record (Dialogs.handle_request r old) { actions = [] } in
            let mid = (handle_request r local_tag m).1 in
            let (over, same) = bye_terminates r n old is_bye numbered in
            let written : lookup h mid.dialogs ≡ some d =
              ground (arith, acts_alone m (request r local_tag) h h found, ==_iff h h) in
            let kept : mid.id_to_handle ≡ m.id_to_handle =
              ground (arith, with_dialog-id_to_handle h (λ d. Dialogs.handle_request r d) m) in
            let w : Consistent mid =
              rw (handle_request, found)
                (with_dialog-Consistent m h (λ d. Dialogs.handle_request r d)
                  (λ d. request-Keeps r d) v) in
            let ids = map (λ e. e.1) (expired is_terminated (λ d. d.info.id) mid.dialogs) in
            (
              ground (arith, cleanup_terminated-lookup mid h w, written, over),
              ground (
                arith,
                v.known id,
                looked_up (cleanup_terminated mid),
                lookup-remove_all ids id mid.id_to_handle,
                contains-expired_label is_terminated (λ d. d.info.id) h d mid.dialogs written,
              ),
            )
      ]

  answered_info :
      (r : D.base.Response) (d : InviteDialog D) (info : DialogInfo)
      → d.role ≡ uac
      → d.info.state ≡ early
      → within 200 300 (D.base.status_code r) ≡ true
      → from_invite_response_uac D d.invite r confirmed ≡ some info
      → (Dialogs.handle_response r d).info ≡ info
  unfolding Dialogs.handle_response take_success
  answered_info r d info caller is_early ok read = ground arith

  rejected_lem :
      (r : D.base.Response) (d : InviteDialog D)
      → d.role ≡ uac
      → d.info.state ≡ early
      → leb 300 (D.base.status_code r) ≡ true
      → (Dialogs.handle_response r d).info.state ≡ terminated
  unfolding Dialogs.handle_response take_failure
  rejected_lem r d caller is_early bad = ground arith

  pending_route :
      (m : DialogManager D) (r : D.base.Response) (h : DialogHandle) (call_id from_tag : String)
      → lookup (call_id, from_tag) m.pending_uac ≡ some h
      → D.response_call_id r ≡ some call_id
      → D.response_from_tag r ≡ some from_tag
      → handle_response r m ≡ (some h, deliver_response r (call_id, from_tag) h m)
  unfolding handle_response find_dialog_for_response
  pending_route m r h call_id from_tag waits a b = ground arith

  delivered :
      (m : DialogManager D) (r : D.base.Response) (k : String × String) (h : DialogHandle)
      (d : InviteDialog D)
      → lookup h m.dialogs ≡ some d
      → d.info.state ≡ early
      → let new = Dialogs.handle_response r d in
        let n = deliver_response r k h m in
        let begun = same_state new.info.state confirmed in
        (n.id_to_handle ≡ (if begun then insert new.info.id h m.id_to_handle else m.id_to_handle))
        × (n.pending_uac ≡ (if begun then remove k m.pending_uac else m.pending_uac))
  unfolding deliver_response note_confirmed forget_pending put_dialog
  delivered m r k h d found is_early = ground arith

  -- A caller's early dialog that is pending, answered by a 2xx that can be read: its dialog is confirmed,
  -- is no longer pending, and a request from the peer with the tags of the 2xx finds it.
  pub answered_call_takes_requests :
      (m : DialogManager D) (r : D.base.Response) (q : D.base.Request) (h : DialogHandle)
      (d : InviteDialog D) (info : DialogInfo) (call_id from_tag to_tag : String)
      → lookup (call_id, from_tag) m.pending_uac ≡ some h
      → lookup h m.dialogs ≡ some d
      → d.role ≡ uac
      → d.info.state ≡ early
      → within 200 300 (D.base.status_code r) ≡ true
      → from_invite_response_uac D d.invite r confirmed ≡ some info
      → D.response_call_id r ≡ some call_id
      → D.response_from_tag r ≡ some from_tag
      → D.response_to_tag r ≡ some to_tag
      → D.base.call_id q ≡ some call_id
      → D.base.from_tag q ≡ some to_tag
      → D.to_tag q ≡ some from_tag
      → let after = (handle_response r m).1 in
        (find_dialog_for_request q after ≡ some h)
        × (lookup (call_id, from_tag) after.pending_uac ≡ none)
  unfolding find_dialog_for_request
  answered_call_takes_requests m r q h d info call_id from_tag to_tag waits found caller is_early ok
        read a b c e f g =
      let id : DialogId = record { call_id = call_id; local_tag = from_tag; remote_tag = to_tag } in
      let k : String × String = (call_id, from_tag) in
      let stored = answered_info r d info caller is_early ok read in
      let read = read_id D d.invite r info call_id from_tag to_tag read a b c in
      let (linked, freed) = delivered m r k h d found is_early in
      rw (pending_route m r h call_id from_tag waits a b) (
        ground (
          arith,
          linked,
          stored,
          read,
          lookup-insert id id h m.id_to_handle,
          same_dialog_iff id id,
        ),
        ground (arith, freed, stored, read, lookup-remove k k m.pending_uac, same_pending_iff k k),
      )

  -- A caller's early dialog that is pending and is rejected is gone after `cleanup_terminated`, but
  -- `handle_response` still returns its handle for every response with its Call-ID and tag.
  pub rejected_call_stays_pending :
      (m : DialogManager D) (r s : D.base.Response) (h : DialogHandle) (d : InviteDialog D)
      (call_id from_tag : String)
      → Consistent m
      → lookup (call_id, from_tag) m.pending_uac ≡ some h
      → lookup h m.dialogs ≡ some d
      → d.role ≡ uac
      → d.info.state ≡ early
      → leb 300 (D.base.status_code r) ≡ true
      → D.response_call_id r ≡ some call_id
      → D.response_from_tag r ≡ some from_tag
      → D.response_call_id s ≡ some call_id
      → D.response_from_tag s ≡ some from_tag
      → let after = cleanup_terminated (handle_response r m).1 in
        (lookup h after.dialogs ≡ none) × ((handle_response s after).0 ≡ some h)
  unfolding is_terminated cleanup_terminated step find_dialog_for_response
  rejected_call_stays_pending m r s h d call_id from_tag v waits found caller is_early bad a b c e =
      let mid = (handle_response r m).1 in
      let w = handle_response-Consistent r m v in
      let over = rejected_lem r d caller is_early bad in
      let route = pending_route m r h call_id from_tag waits a b in
      let waits_on : lookup (call_id, from_tag) (cleanup_terminated mid).pending_uac ≡ some h =
        ground (arith, route, over, delivered m r (call_id, from_tag) h d found is_early) in
      let found_at : addressed m (response r) ≡ some h = ground arith in
      let written : lookup h mid.dialogs
          ≡ some (record (Dialogs.handle_response r d) { actions = [] }) =
        ground (arith, acts_alone m (response r) h h found_at, ==_iff h h) in
      (
        ground (arith, cleanup_terminated-lookup mid h w, written, over),
        ground (arith, pending_route (cleanup_terminated mid) s h call_id from_tag waits_on c e),
      )
