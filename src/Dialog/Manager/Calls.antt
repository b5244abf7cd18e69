-- ===== src/Dialog/Manager/Calls.antt =====
-- The tables of the dialog manager after a request, a response or a call of its user,
-- crates/rsiprtp/src/dialog/manager.rs.
use Prim.Native.String.{String}
use rsiprtp.Common.{◌&&◌, Option-cases, Bool-cases, inl, inr, lookup, number_key, refl, arith}
use rsiprtp.Transaction.Messages.{invite, same_method}
use rsiprtp.Dialog.Messages.{DialogMessages}
use rsiprtp.Dialog.State.{
  early, confirmed, same_state, dialog_key, next_local_seq, update_remote_seq,
}
use rsiprtp.Dialog.Invite as Dialogs
use rsiprtp.Dialog.Invite.{
  InviteDialog, Role, uac, uas, same_role, new_uac, new_uas, is_terminated, mark_ack_sent,
  dispatch_request, take_reinvite,
}
use rsiprtp.Dialog.Manager.{
  DialogManager, DialogHandle, pending_key, find_dialog_for_request, handle_request,
  find_dialog_for_response, note_confirmed, forget_pending, deliver_response, handle_response,
  send_response, send_bye, ack_sent,
}
use rsiprtp.Dialog.Manager.Store.{put_dialog, with_dialog}
use rsiprtp.Dialog.Manager.WellFormed.{
  Consistent, Keeps, store-Consistent, put_dialog-Consistent, forget-Consistent,
  note_confirmed-Consistent,
}
use rsiprtp.Dialog.Manager.Run.{Room}
use rsiprtp.Dialog.Manager.Creation.{create_uas_dialog-Consistent}

module _ {D : DialogMessages} where
  pub request-Keeps :
      (r : D.base.Request) (d : InviteDialog D) → Keeps d (Dialogs.handle_request r d)
  unfolding Dialogs.handle_request dispatch_request take_reinvite update_remote_seq
  request-Keeps r d = ground arith

  pub response-Keeps :
      (r : D.base.Response) (d : InviteDialog D) → Keeps d (Dialogs.handle_response r d)
  unfolding Dialogs.handle_response
  response-Keeps r d = ground arith

  pub answer-Keeps :
      (r : D.base.Response) (d : InviteDialog D) → Keeps d (Dialogs.send_response r d)
  unfolding Dialogs.send_response
  answer-Keeps r d = ground arith

  pub bye-Keeps : (branch : String) (d : InviteDialog D) → Keeps d (Dialogs.send_bye branch d).1
  unfolding Dialogs.send_bye next_local_seq
  bye-Keeps branch d = ground arith

  pub with_dialog-Consistent :
      (m : DialogManager D) (h : DialogHandle) (f : InviteDialog D → InviteDialog D)
      → ((d : InviteDialog D) → Keeps d (f d))
      → Consistent m
      → Consistent (with_dialog h f m)
  unfolding with_dialog
  with_dialog-Consistent m h f kept v = elim (Option-cases (lookup h m.dialogs)) [
    | inl absent ↦ rw (with_dialog, absent) v
    | inr (d, found) ↦ rw (with_dialog, found) (put_dialog-Consistent m h d (f d) found (kept d) v)
  ]

  pub handle_request-Consistent :
      (r : D.base.Request) (local_tag : String) (m : DialogManager D)
      → Room m
      → Consistent m
      → Consistent (handle_request r local_tag m).1
  unfolding handle_request
  handle_request-Consistent r local_tag m room v =
      elim (Option-cases (find_dialog_for_request r m)) [
        | inr (h, found) ↦
            rw (handle_request, found)
              (with_dialog-Consistent m h (λ d. Dialogs.handle_request r d) (λ d. request-Keeps r d)
                v)
        | inl unknown ↦ elim (Bool-cases (same_method (D.base.method r) invite)) [
          | inl is_invite ↦
              rw (handle_request, unknown, is_invite)
                (create_uas_dialog-Consistent r local_tag m room v)
          | inr other ↦ rw (handle_request, unknown, other) v
        ]
      ]

  pub deliver_response-Consistent :
      (r : D.base.Response) (k : String × String) (h : DialogHandle) (m : DialogManager D)
      → Consistent m
      → Consistent (deliver_response r k h m)
  unfolding deliver_response forget_pending put_dialog
  deliver_response-Consistent r k h m v = elim (Option-cases (lookup h m.dialogs)) [
    | inl absent ↦ rw (deliver_response, absent) v
    | inr (old, found) ↦
        let d = Dialogs.handle_response r old in
        let w = note_confirmed-Consistent m h old d found (response-Keeps r old) v in
        elim (Bool-cases (same_state old.info.state early && same_state d.info.state confirmed)) [
          | inl begun ↦
              rw (deliver_response, found, forget_pending, begun)
                (forget-Consistent (put_dialog h d (note_confirmed h old d m)) k w)
          | inr same ↦ rw (deliver_response, found, forget_pending, same) w
        ]
  ]

  pub handle_response-Consistent :
      (r : D.base.Response) (m : DialogManager D)
      → Consistent m
      → Consistent (handle_response r m).1
  unfolding handle_response
  handle_response-Consistent r m v = elim (Option-cases (D.response_call_id r)) [
    | inl missing ↦ rw (handle_response, missing) v
    | inr (call_id, a) ↦ elim (Option-cases (D.response_from_tag r)) [
      | inl missing ↦ rw (handle_response, a, missing) v
      | inr (from_tag, b) ↦
          elim (Option-cases (find_dialog_for_response call_id from_tag (D.response_to_tag r) m)) [
            | inl missing ↦ rw (handle_response, a, b, missing) v
            | inr (h, found) ↦
                rw (handle_response, a, b, found)
                  (deliver_response-Consistent r (call_id, from_tag) h m v)
          ]
    ]
  ]

  pub send_response-Consistent :
      (h : DialogHandle) (r : D.base.Response) (m : DialogManager D)
      → Consistent m
      → Consistent (send_response h r m)
  unfolding send_response
  send_response-Consistent h r m v = elim (Option-cases (lookup h m.dialogs)) [
    | inl absent ↦ rw (send_response, absent) v
    | inr (old, found) ↦
        rw (send_response, found)
          (note_confirmed-Consistent m h old (Dialogs.send_response r old) found
            (answer-Keeps r old) v)
  ]

  pub send_bye-Consistent :
      (h : DialogHandle) (branch : String) (m : DialogManager D)
      → Consistent m
      → Consistent (send_bye h branch m).1
  unfolding send_bye
  send_bye-Consistent h branch m v = elim (Option-cases (lookup h m.dialogs)) [
    | inl absent ↦ rw (send_bye, absent) v
    | inr (d, found) ↦
        rw (send_bye, found)
          (put_dialog-Consistent m h d (Dialogs.send_bye branch d).1 found (bye-Keeps branch d) v)
  ]

  pub ack_sent-Consistent :
      (h : DialogHandle) (m : DialogManager D) → Consistent m → Consistent (ack_sent h m)
  unfolding ack_sent mark_ack_sent
  ack_sent-Consistent h m v = elim (Option-cases (lookup h m.dialogs)) [
    | inl absent ↦ rw (ack_sent, absent) v
    | inr (d, found) ↦
        rw (ack_sent, found)
          (store-Consistent m h d (mark_ack_sent d) found (λ is_settled. (refl, is_settled)) v)
  ]
