-- ===== src/Dialog/Manager/Invariant.antt =====
-- The tables of the dialog manager after each call, crates/rsiprtp/src/dialog/manager.rs.
use Prim.Native.String.{String}
use rsiprtp.Common.{
  ◌+◌, ◌≤◌, ◌<◌, List, [], ◌∷◌, map, length, none, Option-cases, Bool-cases, inl, inr, lookup,
  expired, contains, contains-expired, contains-expired_label, is_done, lookup-remove_all,
  remove_all-Distinct, if◌then◌else◌, number_key, ◌≡◌, refl, arith,
}
use rsiprtp.Dialog.Messages.{DialogMessages}
use rsiprtp.Dialog.State.{dialog_key}
use rsiprtp.Dialog.Invite.{is_terminated}
use rsiprtp.Dialog.Manager.{
  DialogManager, DialogHandle, pending_key, new, create_dialog, create_uas_dialog, handle_request,
  note_confirmed, forget_pending, deliver_response, handle_response, send_response, send_bye,
  ack_sent, poll_actions, cleanup_terminated,
}
use rsiprtp.Dialog.Manager.Store.{alloc_handle, put_dialog, with_dialog}
use rsiprtp.Dialog.Manager.WellFormed.{Consistent}
use rsiprtp.Dialog.Manager.Run.{
  Input, create, request, response, answer, hang_up, note_ack, poll, cleanup, step, run, Room,
}
use rsiprtp.Dialog.Manager.Creation.{create_dialog-Consistent}
use rsiprtp.Dialog.Manager.Calls.{
  handle_request-Consistent, handle_response-Consistent, send_response-Consistent,
  send_bye-Consistent, ack_sent-Consistent,
}

module _ {D : DialogMessages} where
  poll_actions-Consistent : (m : DialogManager D) → Consistent m → Consistent (poll_actions m).0
  unfolding poll_actions
  poll_actions-Consistent m v = record {
    dialogs_Distinct = v.dialogs_Distinct;
    fresh = v.fresh;
    known = v.known;
    pending = v.pending;
  }

  pub cleanup_terminated-lookup :
      (m : DialogManager D) (h : DialogHandle)
      → Consistent m
      → lookup h (cleanup_terminated m).dialogs
        ≡ (if is_done is_terminated (lookup h m.dialogs) then none else lookup h m.dialogs)
  unfolding cleanup_terminated
  cleanup_terminated-lookup m h v =
      let gone = map (λ e. e.0) (expired is_terminated (λ d. d.info.id) m.dialogs) in
      ground (
        arith,
        lookup-remove_all gone h m.dialogs,
        contains-expired is_terminated (λ d. d.info.id) h m.dialogs v.dialogs_Distinct,
      )

  cleanup_terminated-Consistent :
      (m : DialogManager D) → Consistent m → Consistent (cleanup_terminated m)
  unfolding cleanup_terminated
  cleanup_terminated-Consistent m v =
      let gone = expired is_terminated (λ d. d.info.id) m.dialogs in
      let handles = map (λ e. e.0) gone in
      let ids = map (λ e. e.1) gone in
      record {
        dialogs_Distinct = remove_all-Distinct handles m.dialogs v.dialogs_Distinct;
        fresh = λ h le. ground (arith, cleanup_terminated-lookup m h v, v.fresh h);
        known = λ id. elim (Option-cases (lookup id m.id_to_handle)) [
          | inl unknown ↦ rw (lookup-remove_all ids id m.id_to_handle, unknown) (ground arith)
          | inr (h, leads) ↦ elim (Bool-cases (contains id ids)) [
            | inl lost ↦ rw (lookup-remove_all ids id m.id_to_handle, lost) tt
            | inr kept ↦ elim (Option-cases (lookup h m.dialogs)) [
              | inl absent ↦ absurd (ground (arith, v.known id))
              | inr (d, found) ↦
                  rw (lookup-remove_all ids id m.id_to_handle, kept, leads)
                    (ground (
                      arith,
                      v.known id,
                      cleanup_terminated-lookup m h v,
                      contains-expired_label is_terminated (λ d. d.info.id) h d m.dialogs found,
                    ))
            ]
          ]
        ];
        pending = v.pending;
      }

  step-Consistent :
      (m : DialogManager D) (i : Input D) → Room m → Consistent m → Consistent (step m i)
  unfolding step
  step-Consistent m (create r) room v = create_dialog-Consistent r m room v
  step-Consistent m (request r local_tag) room v = handle_request-Consistent r local_tag m room v
  step-Consistent m (response r) room v = handle_response-Consistent r m v
  step-Consistent m (answer h r) room v = send_response-Consistent h r m v
  step-Consistent m (hang_up h branch) room v = send_bye-Consistent h branch m v
  step-Consistent m (note_ack h) room v = ack_sent-Consistent h m v
  step-Consistent m poll room v = poll_actions-Consistent m v
  step-Consistent m cleanup room v = cleanup_terminated-Consistent m v

  step-next : (m : DialogManager D) (i : Input D) → (step m i).next_handle ≤ m.next_handle + 1
  unfolding step create_dialog create_uas_dialog alloc_handle handle_request with_dialog put_dialog
      handle_response deliver_response note_confirmed forget_pending send_response send_bye ack_sent
      poll_actions cleanup_terminated
  step-next m (create r) = ground arith
  step-next m (request r local_tag) = ground arith
  step-next m (response r) = ground arith
  step-next m (answer h r) = ground arith
  step-next m (hang_up h branch) = ground arith
  step-next m (note_ack h) = ground arith
  step-next m poll = ground arith
  step-next m cleanup = ground arith

  new-Consistent : (local_contact : String) → Consistent (new D local_contact)
  unfolding new lookup
  new-Consistent local_contact = record {
    dialogs_Distinct = tt;
    fresh = λ h le. refl;
    known = λ id. tt {0};
    pending = λ k. tt {0};
  }

  run_on-Consistent :
      (m : DialogManager D) (is : List (Input D))
      → m.next_handle + length is < 18446744073709551616
      → Consistent m
      → Consistent (run m is)
  unfolding run
  run_on-Consistent m [] room v = v
  run_on-Consistent m (i ∷ is) room v =
      run_on-Consistent (step m i) is (ground (arith, step-next m i))
        (step-Consistent m i (ground arith) v)

  -- From a new manager, over any sequence of calls that is too short to use up the handles of 64 bits,
  -- the tables stay in agreement: no handle has two dialogs, an unused handle has none, an id leads to a
  -- dialog that has this id and will keep it, and what is pending leads to a handle that was given out.
  pub manager-Consistent :
      (local_contact : String) (is : List (Input D))
      → length is < 18446744073709551615
      → Consistent (run (new D local_contact) is)
  unfolding new
  manager-Consistent local_contact is short =
      run_on-Consistent (new D local_contact) is (omega arith) (new-Consistent local_contact)
