-- ===== src/Dialog/Manager/Run.antt =====
-- Sequences of calls of the dialog manager, crates/rsiprtp/src/dialog/manager.rs.
use Prim.Native.String.{String}
use rsiprtp.Common.{◌+◌, ◌<◌, List, [], ◌∷◌, number_key}
use rsiprtp.Dialog.Messages.{DialogMessages}
use rsiprtp.Dialog.State.{dialog_key}
use rsiprtp.Dialog.Manager.{
  DialogManager, DialogHandle, pending_key, create_dialog, handle_request, handle_response,
  send_response, send_bye, ack_sent, poll_actions, cleanup_terminated,
}

-- The last argument of `request` is the local tag of a new dialog, that of `hang_up` the branch.
pub data Input (D : DialogMessages) : Type 0 where
  create : D.base.Request → Input D
  request : D.base.Request → String → Input D
  response : D.base.Response → Input D
  answer : DialogHandle → D.base.Response → Input D
  hang_up : DialogHandle → String → Input D
  note_ack : DialogHandle → Input D
  poll : Input D
  cleanup : Input D

module _ {D : DialogMessages} where
  unfoldable pub step : DialogManager D → Input D → DialogManager D
  step m (create r) = (create_dialog r m).1
  step m (request r local_tag) = (handle_request r local_tag m).1
  step m (response r) = (handle_response r m).1
  step m (answer h r) = send_response h r m
  step m (hang_up h branch) = (send_bye h branch m).1
  step m (note_ack h) = ack_sent h m
  step m poll = (poll_actions m).0
  step m cleanup = cleanup_terminated m

  unfoldable pub run : DialogManager D → List (Input D) → DialogManager D
  run m [] = m
  run m (i ∷ is) = run (step m i) is

  abbrev pub Room : DialogManager D → Type 0
  Room m = m.next_handle + 1 < 18446744073709551616
