-- ===== src/Dialog/Invite/Events.antt =====
-- The state of an INVITE dialog and what it tells its user, crates/rsiprtp/src/dialog/invite.rs.
use Prim.Native.String.{String}
use rsiprtp.Common.{ℕ, List, [], ◌∷◌, ◌++◌, Bool}
use rsiprtp.Dialog.Messages.{DialogMessages}
use rsiprtp.Dialog.State.{DialogInfo, DialogState}

pub data Role : Type 0 where
  uac uas : Role

pub data TerminationReason : Type 0 where
  bye_sent : TerminationReason
  bye_received : TerminationReason
  rejected : ℕ → TerminationReason
  cancelled : TerminationReason
  error : String → TerminationReason

pub data Event (D : DialogMessages) : Type 0 where
  established : Event D
  provisional : D.base.Response → Event D
  reinvite : D.base.Request → Event D
  bye : D.base.Request → Event D
  ended : TerminationReason → Event D
  session_progress : D.base.Response → Event D

pub data Action (D : DialogMessages) : Type 0 where
  send_request : D.base.Request → Action D
  respond : D.base.Response → Action D
  event : Event D → Action D

pub record InviteDialog (D : DialogMessages) : Type 0 where
  pub info : DialogInfo
  pub role : Role
  pub invite : D.base.Request
  pub actions : List (Action D)
  pub ack_sent : Bool

module _ {D : DialogMessages} where
  abbrev pub set_state : DialogState → InviteDialog D → InviteDialog D
  set_state state d = record d { info = record d.info { state = state } }

  -- `self.actions.push(...)`.
  abbrev pub push : Action D → InviteDialog D → InviteDialog D
  push a d = record d { actions = d.actions ++ (a ∷ []) }
