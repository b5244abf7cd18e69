-- ===== src/Dialog/Manager/Store.antt =====
-- The state of the dialog manager, crates/rsiprtp/src/dialog/manager.rs, and what its operations do to
-- its tables.
use Prim.Native.String.{String}
use text.Mathlib.Text.{◌==◌ as str_eq}
use text.Mathlib.TextEquality.{eq_iff}
use rsiprtp.Common.{
  ℕ, ◌+◌, ◌%◌, List, [], ◌∷◌, ◌++◌, Bool, true, ◌&&◌, none, some, Key, lookup, insert, number_key,
  ◌≡◌, ◌↔◌, arith,
}
use rsiprtp.Dialog.Messages.{DialogMessages}
use rsiprtp.Dialog.State.{DialogId}
use rsiprtp.Dialog.Invite as Dialogs
use rsiprtp.Dialog.Invite.{InviteDialog, TerminationReason, Action, Event, poll_actions}

abbrev pub DialogHandle : Type 0
DialogHandle = ℕ

pub data ManagerEvent (D : DialogMessages) : Type 0 where
  incoming_invite : D.base.Request → ManagerEvent D
  established : ManagerEvent D
  provisional : D.base.Response → ManagerEvent D
  session_progress : D.base.Response → ManagerEvent D
  reinvite : D.base.Request → ManagerEvent D
  bye_received : D.base.Request → ManagerEvent D
  ended : TerminationReason → ManagerEvent D

pub data ManagerAction (D : DialogMessages) : Type 0 where
  send_request : D.base.Request → ManagerAction D
  respond : D.base.Response → ManagerAction D
  event : DialogHandle → ManagerEvent D → ManagerAction D

-- The key of `pending_uac`, a Call-ID and a tag of `From`.
unfoldable pub same_pending : String × String → String × String → Bool
same_pending a b = str_eq a.0 b.0 && str_eq a.1 b.1

pub same_pending_iff : (a b : String × String) → (same_pending a b ≡ true) ↔ (a ≡ b)
unfolding same_pending
same_pending_iff a b = (
  λ h. ground (arith, eq_iff a.0 b.0, eq_iff a.1 b.1),
  λ h. ground (arith, eq_iff a.0 b.0, eq_iff a.1 b.1),
)

instance abbrev pub pending_key : Key (String × String)
pending_key = record { same = same_pending; same_iff = same_pending_iff }

pub record DialogManager (D : DialogMessages) : Type 0 where
  pub next_handle : DialogHandle
  pub dialogs : List (DialogHandle × InviteDialog D)
  pub id_to_handle : List (DialogId × DialogHandle)
  pub pending_uac : List ((String × String) × DialogHandle)
  pub actions : List (ManagerAction D)
  pub local_contact : String

module _ {D : DialogMessages} where
  -- The counter after `alloc_handle`, which returns the handle `next_handle`.
  unfoldable pub alloc_handle : DialogManager D → DialogManager D
  alloc_handle m = record m { next_handle = (m.next_handle + 1) % 18446744073709551616 }

  abbrev pub convert : DialogHandle → Action D → ManagerAction D
  convert h (Dialogs.send_request r) = send_request r
  convert h (Dialogs.respond r) = respond r
  convert h (Dialogs.event Dialogs.established) = event h established
  convert h (Dialogs.event (Dialogs.provisional r)) = event h (provisional r)
  convert h (Dialogs.event (Dialogs.session_progress r)) = event h (session_progress r)
  convert h (Dialogs.event (Dialogs.reinvite r)) = event h (reinvite r)
  convert h (Dialogs.event (Dialogs.bye r)) = event h (bye_received r)
  convert h (Dialogs.event (Dialogs.ended reason)) = event h (ended reason)

  unfoldable pub convert_all : DialogHandle → List (Action D) → List (ManagerAction D)
  convert_all h [] = []
  convert_all h (a ∷ as') = convert h a ∷ convert_all h as'

  -- The write through `get_mut`, then `collect_dialog_actions`.
  unfoldable pub put_dialog : DialogHandle → InviteDialog D → DialogManager D → DialogManager D
  put_dialog h d m =
      let (d, as') = poll_actions d in
      record m { dialogs = insert h d m.dialogs; actions = m.actions ++ convert_all h as' }

  -- `if let Some(dialog) = self.dialogs.get_mut(&handle)`, with what is done to the dialog.
  unfoldable pub with_dialog :
      DialogHandle → (InviteDialog D → InviteDialog D) → DialogManager D → DialogManager D
  with_dialog h f m = elim (lookup h m.dialogs) [ none ↦ m | some d ↦ put_dialog h (f d) m ]
