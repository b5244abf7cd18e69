-- ===== src/Dialog/Manager/Creation.antt =====
-- The tables of the dialog manager after a new dialog, crates/rsiprtp/src/dialog/manager.rs.
use Prim.Native.String.{String}
use rsiprtp.Common.{
  ◌<◌, true, none, some, Option-cases, Bool-cases, inl, inr, lookup, insert, lookup-insert,
  insert-Distinct, number_key, ==_iff, ◌≡◌, arith,
}
use rsiprtp.Transaction.Messages.{invite, same_method}
use rsiprtp.Dialog.Messages.{DialogMessages}
use rsiprtp.Dialog.State.{dialog_key}
use rsiprtp.Dialog.Invite.{InviteDialog, new_uac, new_uas}
use rsiprtp.Dialog.Manager.{
  DialogManager, DialogHandle, pending_key, create_dialog, create_uas_dialog,
}
use rsiprtp.Dialog.Manager.Store.{alloc_handle, same_pending}
use rsiprtp.Dialog.Manager.WellFormed.{settled, Consistent, link-Consistent}
use rsiprtp.Dialog.Manager.Run.{Room}

module _ {D : DialogMessages} where
  pub alloc_handle-Consistent :
      (m : DialogManager D) → Room m → Consistent m → Consistent (alloc_handle m)
  unfolding alloc_handle
  alloc_handle-Consistent m room v = record {
    dialogs_Distinct = v.dialogs_Distinct;
    fresh = λ h le. v.fresh h (ground arith);
    known = v.known;
    pending = λ k. ground (arith, v.pending k);
  }

  -- A new dialog under the next handle.
  add-Consistent :
      (m : DialogManager D) (d : InviteDialog D)
      → Room m
      → Consistent m
      → Consistent (record (alloc_handle m) { dialogs = insert m.next_handle d m.dialogs })
  unfolding alloc_handle
  add-Consistent m d room v =
      let unused : lookup m.next_handle m.dialogs ≡ none = v.fresh m.next_handle (omega arith) in
      record {
        dialogs_Distinct = insert-Distinct m.next_handle d m.dialogs v.dialogs_Distinct;
        fresh = λ h le.
            ground
              (arith, v.fresh h, ==_iff m.next_handle h, lookup-insert m.next_handle h d m.dialogs);
        known = λ id. elim (Option-cases (lookup id m.id_to_handle)) [
          | inl unknown ↦ rw unknown tt
          | inr (h, leads) ↦ rw leads (
              ground (
                arith,
                v.known id,
                ==_iff m.next_handle h,
                lookup-insert m.next_handle h d m.dialogs,
              ))
        ];
        pending = λ k. ground (arith, v.pending k);
      }

  wait-Consistent :
      (m : DialogManager D) (k : String × String) (h : DialogHandle)
      → h < m.next_handle
      → Consistent m
      → Consistent (record m { pending_uac = insert k h m.pending_uac })
  wait-Consistent m k h used v = record {
    dialogs_Distinct = v.dialogs_Distinct;
    fresh = v.fresh;
    known = v.known;
    pending = λ other.
        rw (lookup-insert k other h m.pending_uac) (elim (Bool-cases (same_pending k other)) [
          | inl here ↦ rw here used
          | inr there ↦ rw there (v.pending other)
        ]);
  }

  pub create_dialog-Consistent :
      (r : D.base.Request) (m : DialogManager D)
      → Room m
      → Consistent m
      → Consistent (create_dialog r m).1
  unfolding create_dialog alloc_handle
  create_dialog-Consistent r m room v =
      let spent = alloc_handle-Consistent m room v in
      elim (Bool-cases (same_method (D.base.method r) invite)) [
        | inr other ↦ rw (create_dialog, other) v
        | inl is_invite ↦ elim (Option-cases (D.base.call_id r)) [
          | inl missing ↦ rw (create_dialog, is_invite, missing) spent
          | inr (call_id, a) ↦ elim (Option-cases (D.base.from_tag r)) [
            | inl missing ↦ rw (create_dialog, is_invite, a, missing) spent
            | inr (from_tag, b) ↦
                let added = record (alloc_handle m) {
                  dialogs = insert m.next_handle (new_uac D r) m.dialogs;
                } in
                rw (create_dialog, is_invite, a, b)
                  (wait-Consistent added (call_id, from_tag) m.next_handle (omega arith)
                    (add-Consistent m (new_uac D r) room v))
          ]
        ]
      ]

  pub uas_settled :
      (r : D.base.Request) (local_tag local_contact : String) (d : InviteDialog D)
      → new_uas D r local_tag local_contact ≡ some d
      → settled d ≡ true
  unfolding new_uas
  uas_settled r local_tag local_contact d made = ground arith

  pub create_uas_dialog-Consistent :
      (r : D.base.Request) (local_tag : String) (m : DialogManager D)
      → Room m
      → Consistent m
      → Consistent (create_uas_dialog r local_tag m).1
  unfolding create_uas_dialog alloc_handle
  create_uas_dialog-Consistent r local_tag m room v =
      elim (Option-cases (new_uas D r local_tag m.local_contact)) [
        | inl bad ↦ rw (create_uas_dialog, bad) (alloc_handle-Consistent m room v)
        | inr (d, made) ↦
            let added = record (alloc_handle m) { dialogs = insert m.next_handle d m.dialogs } in
            let w =
              link-Consistent added m.next_handle d.info.id
                (ground (
                  arith,
                  lookup-insert m.next_handle m.next_handle d m.dialogs,
                  ==_iff m.next_handle m.next_handle,
                  uas_settled r local_tag m.local_contact d made,
                ))
                (add-Consistent m d room v) in
            rw (create_uas_dialog, made)
              (record {
                dialogs_Distinct = w.dialogs_Distinct;
                fresh = w.fresh;
                known = w.known;
                pending = w.pending;
              })
      ]
