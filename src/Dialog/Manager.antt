-- ===== src/Dialog/Manager.antt =====
-- The dialog manager, crates/rsiprtp/src/dialog/manager.rs. A hash map is a list of entries; the order in
-- which the source iterates over one is not fixed, and here it is that of the list.
mod Store
pub mod WellFormed
pub mod Run
pub mod Creation
pub mod Calls
pub mod Invariant
pub mod View
pub mod Ending
mod Examples
pub use Store.{DialogHandle, ManagerEvent, ManagerAction, DialogManager, pending_key}
use Prim.Native.String.{String}
use rsiprtp.Common.{
  ℕ, List, [], ◌∷◌, ◌++◌, map, ◌&&◌, Option, none, some, if◌then◌else◌, lookup, insert, remove,
  remove_all, expired, number_key,
}
use rsiprtp.Transaction.Messages.{invite, same_method}
use rsiprtp.Transaction.Client.Invite.{◌>>=◌}
use rsiprtp.Dialog.Messages.{DialogMessages}
use rsiprtp.Dialog.State.{DialogId, DialogState, early, confirmed, same_state, dialog_key}
use rsiprtp.Dialog.Invite as Dialogs
use rsiprtp.Dialog.Invite.{InviteDialog, new_uac, new_uas, is_terminated, mark_ack_sent}
use Store.{alloc_handle, put_dialog, with_dialog, event, incoming_invite}

module _ (D : DialogMessages) where
  unfoldable pub new : String → DialogManager D
  new local_contact = record {
    next_handle = 1;
    dialogs = [];
    id_to_handle = [];
    pending_uac = [];
    actions = [];
    local_contact = local_contact;
  }

module _ {D : DialogMessages} where
  -- The handle is used up also where the `?` on an accessor returns.
  unfoldable pub create_dialog :
      D.base.Request → DialogManager D → Option DialogHandle × DialogManager D
  create_dialog request m =
      if same_method (D.base.method request) invite
      then (let handle = m.next_handle in
          let m = alloc_handle m in
          let dialog = new_uac D request in
          elim (D.base.call_id request) [
            | none ↦ (none, m)
            | some call_id ↦ elim (D.base.from_tag request) [
              | none ↦ (none, m)
              | some from_tag ↦ (
                some handle,
                record m {
                  pending_uac = insert (call_id, from_tag) handle m.pending_uac;
                  dialogs = insert handle dialog m.dialogs;
                },
              )
            ]
          ])
      else (none, m)

  -- The local tag, which the source makes at random, is an argument.
  unfoldable pub create_uas_dialog :
      D.base.Request → String → DialogManager D → Option DialogHandle × DialogManager D
  create_uas_dialog request local_tag m =
      let handle = m.next_handle in
      let m = alloc_handle m in
      elim (new_uas D request local_tag m.local_contact) [
        | none ↦ (none, m)
        | some dialog ↦ (
          some handle,
          record m {
            dialogs = insert handle dialog m.dialogs;
            id_to_handle = insert dialog.info.id handle m.id_to_handle;
            actions = m.actions ++ (event handle (incoming_invite request) ∷ []);
          },
        )
      ]

  unfoldable pub find_dialog_for_request : D.base.Request → DialogManager D → Option DialogHandle
  find_dialog_for_request request m = do
    call_id ← D.base.call_id request
    from_tag ← D.base.from_tag request
    to_tag ← D.to_tag request
    lookup (record { call_id = call_id; local_tag = to_tag; remote_tag = from_tag }) m.id_to_handle

  unfoldable pub handle_request :
      D.base.Request → String → DialogManager D → Option DialogHandle × DialogManager D
  handle_request request local_tag m = elim (find_dialog_for_request request m) [
    | some handle ↦ (some handle, with_dialog handle (λ d. Dialogs.handle_request request d) m)
    | none ↦
        if same_method (D.base.method request) invite
        then create_uas_dialog request local_tag m
        else (none, m)
  ]

  -- The handle that a response with this Call-ID and tag of `From` is for.
  unfoldable pub find_dialog_for_response :
      String → String → Option String → DialogManager D → Option DialogHandle
  find_dialog_for_response call_id from_tag to_tag m =
      elim (lookup (call_id, from_tag) m.pending_uac) [
        | some handle ↦ some handle
        | none ↦ elim to_tag [
          | none ↦ none
          | some to_tag ↦
              lookup (record { call_id = call_id; local_tag = from_tag; remote_tag = to_tag })
                m.id_to_handle
        ]
      ]

  -- The entry of a dialog that goes from `Early` to `Confirmed`.
  unfoldable pub note_confirmed :
      DialogHandle → InviteDialog D → InviteDialog D → DialogManager D → DialogManager D
  note_confirmed handle old dialog m =
      if same_state old.info.state early && same_state dialog.info.state confirmed
      then record m { id_to_handle = insert dialog.info.id handle m.id_to_handle }
      else m

  unfoldable pub forget_pending :
      String × String → InviteDialog D → InviteDialog D → DialogManager D → DialogManager D
  forget_pending key old dialog m =
      if same_state old.info.state early && same_state dialog.info.state confirmed
      then record m { pending_uac = remove key m.pending_uac }
      else m

  unfoldable pub deliver_response :
      D.base.Response → String × String → DialogHandle → DialogManager D → DialogManager D
  deliver_response response key handle m = elim (lookup handle m.dialogs) [
    | none ↦ m
    | some old ↦
        let dialog = Dialogs.handle_response response old in
        put_dialog handle dialog
          (forget_pending key old dialog (note_confirmed handle old dialog m))
  ]

  unfoldable pub handle_response :
      D.base.Response → DialogManager D → Option DialogHandle × DialogManager D
  handle_response response m = elim (D.response_call_id response) [
    | none ↦ (none, m)
    | some call_id ↦ elim (D.response_from_tag response) [
      | none ↦ (none, m)
      | some from_tag ↦
          elim (find_dialog_for_response call_id from_tag (D.response_to_tag response) m) [
            | none ↦ (none, m)
            | some handle ↦ (some handle, deliver_response response (call_id, from_tag) handle m)
          ]
    ]
  ]

  unfoldable pub send_response : DialogHandle → D.base.Response → DialogManager D → DialogManager D
  send_response handle response m = elim (lookup handle m.dialogs) [
    | none ↦ m
    | some old ↦
        let dialog = Dialogs.send_response response old in
        put_dialog handle dialog (note_confirmed handle old dialog m)
  ]

  unfoldable pub send_bye :
      DialogHandle → String → DialogManager D → Option D.base.Request × DialogManager D
  send_bye handle branch m = elim (lookup handle m.dialogs) [
    | none ↦ (none, m)
    | some d ↦ let (bye, d) = Dialogs.send_bye branch d in (bye, put_dialog handle d m)
  ]

  unfoldable pub ack_sent : DialogHandle → DialogManager D → DialogManager D
  ack_sent handle m = elim (lookup handle m.dialogs) [
    | none ↦ m
    | some d ↦ record m { dialogs = insert handle (mark_ack_sent d) m.dialogs }
  ]

  unfoldable pub poll_actions : DialogManager D → DialogManager D × List (ManagerAction D)
  poll_actions m = (record m { actions = [] }, m.actions)

  -- The two loops: the handles and ids of the terminated dialogs, then their removal.
  unfoldable pub cleanup_terminated : DialogManager D → DialogManager D
  cleanup_terminated m =
      let gone = expired is_terminated (λ d. d.info.id) m.dialogs in
      record m {
        dialogs = remove_all (map (λ e. e.0) gone) m.dialogs;
        id_to_handle = remove_all (map (λ e. e.1) gone) m.id_to_handle;
      }
