-- ===== src/Dialog/Manager/WellFormed.antt =====
-- The tables of the dialog manager agree with one another.
use Prim.Native.String.{String}
use rsiprtp.Common.{
  ◌≤◌, ◌<◌, Bool, true, ◌||◌, not, Option, none, some, Option-cases, Bool-cases, inl, inr, lookup,
  insert, remove, lookup-insert, lookup-remove, insert-Distinct, Distinct, number_key, ==_iff, ◌&&◌,
  [], ◌≡◌, arith,
}
use rsiprtp.Dialog.Messages.{DialogMessages}
use rsiprtp.Dialog.State.{
  DialogId, early, confirmed, same_state, same_dialog, same_dialog_iff, dialog_key,
}
use rsiprtp.Dialog.Invite.{InviteDialog, uas, same_role, poll_actions}
use rsiprtp.Dialog.Manager.{DialogManager, DialogHandle, pending_key, note_confirmed}
use rsiprtp.Dialog.Manager.Store.{put_dialog, same_pending}

module _ {D : DialogMessages} where
  -- The id of the dialog does not change any more: a 1xx or a 2xx can give an early dialog of a caller
  -- another one.
  abbrev pub settled : InviteDialog D → Bool
  settled d = same_role d.role uas || not (same_state d.info.state early)

  abbrev pub named : Option (InviteDialog D) → Option (DialogId × Bool)
  named none = none
  named (some d) = some (d.info.id, settled d)

  abbrev pub Known : DialogManager D → DialogId → Option DialogHandle → Type 0
  Known m id none = Unit {0}
  Known m id (some h) = named (lookup h m.dialogs) ≡ some (id, true)

  abbrev pub Used : DialogManager D → Option DialogHandle → Type 0
  Used m none = Unit {0}
  Used m (some h) = h < m.next_handle

  -- A handle has one dialog, handles from `next_handle` on have none, an id leads to a dialog with that
  -- id, and what is pending leads to a handle that has been given out.
  pub record Consistent (m : DialogManager D) : Type 0 where
    pub dialogs_Distinct : Distinct m.dialogs
    pub fresh : (h : DialogHandle) → m.next_handle ≤ h → lookup h m.dialogs ≡ none
    pub known : (id : DialogId) → Known m id (lookup id m.id_to_handle)
    pub pending : (k : String × String) → Used m (lookup k m.pending_uac)

  -- What an operation on a dialog leaves.
  abbrev pub Keeps : InviteDialog D → InviteDialog D → Type 0
  Keeps old d = settled old ≡ true → (d.info.id ≡ old.info.id) × (settled d ≡ true)

  pub store-Consistent :
      (m : DialogManager D) (h : DialogHandle) (old d : InviteDialog D)
      → lookup h m.dialogs ≡ some old
      → Keeps old d
      → Consistent m
      → Consistent (record m { dialogs = insert h d m.dialogs })
  store-Consistent m h old d found kept v = record {
    dialogs_Distinct = insert-Distinct h d m.dialogs v.dialogs_Distinct;
    fresh = λ j le. ground (arith, v.fresh j le, ==_iff h j, lookup-insert h j d m.dialogs);
    known = λ id. elim (Option-cases (lookup id m.id_to_handle)) [
      | inl unknown ↦ rw unknown tt
      | inr (j, leads) ↦
          rw leads (ground (arith, v.known id, ==_iff h j, lookup-insert h j d m.dialogs))
    ];
    pending = v.pending;
  }

  pub put_dialog-Consistent :
      (m : DialogManager D) (h : DialogHandle) (old d : InviteDialog D)
      → lookup h m.dialogs ≡ some old
      → Keeps old d
      → Consistent m
      → Consistent (put_dialog h d m)
  unfolding put_dialog poll_actions
  put_dialog-Consistent m h old d found kept v =
      let w = store-Consistent m h old (record d { actions = [] }) found kept v in
      record {
        dialogs_Distinct = w.dialogs_Distinct;
        fresh = w.fresh;
        known = w.known;
        pending = w.pending;
      }

  pub link-Consistent :
      (m : DialogManager D) (h : DialogHandle) (id : DialogId)
      → named (lookup h m.dialogs) ≡ some (id, true)
      → Consistent m
      → Consistent (record m { id_to_handle = insert id h m.id_to_handle })
  link-Consistent m h id found v = record {
    dialogs_Distinct = v.dialogs_Distinct;
    fresh = v.fresh;
    known = λ other.
        rw (lookup-insert id other h m.id_to_handle) (elim (Bool-cases (same_dialog id other)) [
          | inl here ↦ rw here (ground (arith, same_dialog_iff id other))
          | inr there ↦ rw there (v.known other)
        ]);
    pending = v.pending;
  }

  pub forget-Consistent :
      (m : DialogManager D) (k : String × String)
      → Consistent m
      → Consistent (record m { pending_uac = remove k m.pending_uac })
  forget-Consistent m k v = record {
    dialogs_Distinct = v.dialogs_Distinct;
    fresh = v.fresh;
    known = v.known;
    pending = λ other.
        rw (lookup-remove k other m.pending_uac) (elim (Bool-cases (same_pending k other)) [
          | inl here ↦ rw here tt
          | inr there ↦ rw there (v.pending other)
        ]);
  }

  -- A dialog written back, with its new entry when it has just been confirmed.
  pub note_confirmed-Consistent :
      (m : DialogManager D) (h : DialogHandle) (old d : InviteDialog D)
      → lookup h m.dialogs ≡ some old
      → Keeps old d
      → Consistent m
      → Consistent (put_dialog h d (note_confirmed h old d m))
  unfolding note_confirmed put_dialog poll_actions
  note_confirmed-Consistent m h old d found kept v =
      let w = put_dialog-Consistent m h old d found kept v in
      elim (Bool-cases (same_state old.info.state early && same_state d.info.state confirmed)) [
        | inr same ↦ rw (note_confirmed, same) w
        | inl begun ↦
            rw (note_confirmed, begun)
              (link-Consistent (put_dialog h d m) h d.info.id
                (ground
                  (arith, lookup-insert h h (record d { actions = [] }) m.dialogs, ==_iff h h))
                w)
      ]
