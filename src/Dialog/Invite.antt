-- ===== src/Dialog/Invite.antt =====
-- The INVITE dialog, crates/rsiprtp/src/dialog/invite.rs.
mod Events
mod Requests
pub mod Run
pub mod Lifecycle
pub mod Ending
pub mod Built
pub mod Sequence
mod Examples
pub use Events.{
  Role, uac, uas, TerminationReason, bye_sent, bye_received, rejected, cancelled, error, Event,
  established, provisional, reinvite, ended, session_progress, Action, send_request, respond, event,
  InviteDialog, set_state, push,
}
pub use Events.{bye}
unfoldable pub use Requests.{
  build_prack, build_update, handle_update, build_in_dialog_request_with, build_in_dialog_request,
  send_bye, build_bye_with_reason, in_dialog,
}
use Prim.Native.String.{String}
use rsiprtp.Common.{
  ℕ, ◌+◌, List, [], ◌∷◌, ◌++◌, max, Bool, true, false, ◌&&◌, Option, none, some, ltb, leb, ◌==◌,
  if◌then◌else◌,
}
use rsiprtp.Transaction.Messages.{Method, invite, ack, cancel, same_method}
use rsiprtp.Transaction.Messages as Requested
use rsiprtp.Dialog.Messages.{DialogMessages}
use rsiprtp.Dialog.State.{
  DialogId, DialogState, early, confirmed, terminating, terminated, same_state, DialogInfo,
  or_empty, no_routes, update_remote_seq, from_invite_response_uac, from_invite_uas,
}

abbrev pub same_role : Role → Role → Bool
same_role uac uac = true
same_role uac uas = false
same_role uas uac = false
same_role uas uas = true

-- `(low..high).contains(&code)`.
abbrev pub within : ℕ → ℕ → ℕ → Bool
within low high code = leb low code && ltb code high

module _ (D : DialogMessages) where
  unfoldable pub new_uac : D.base.Request → InviteDialog D
  new_uac request = record {
    info = record {
      id = record { call_id = ""; local_tag = ""; remote_tag = "" };
      state = early;
      local_seq = elim (D.base.cseq request) [ none ↦ 1 | some seq ↦ seq ];
      remote_seq = none;
      local_uri = or_empty (D.from_uri request);
      remote_uri = or_empty (D.base.to_uri request);
      remote_target = "";
      local_contact = or_empty (D.contact_uri request);
      route_set = no_routes;
      secure = false;
    };
    role = uac;
    invite = request;
    actions = [];
    ack_sent = false;
  }

  unfoldable pub new_uas : D.base.Request → String → String → Option (InviteDialog D)
  new_uas request local_tag local_contact =
      elim (from_invite_uas D request local_tag local_contact early) [
        | none ↦ none
        | some info ↦
            some
              (record { info = info; role = uas; invite = request; actions = []; ack_sent = false })
      ]

  -- `none` is the panic of `expect`.
  unfoldable pub from_dialog_info : DialogInfo → Role → Option (InviteDialog D)
  from_dialog_info info role =
      let id = info.id in
      elim (D.build_placeholder info.remote_uri info.local_uri id.local_tag id.call_id
        (max info.local_seq 1)) [
          | none ↦ none
          | some request ↦ some (record {
            info = info;
            role = role;
            invite = request;
            actions = [];
            ack_sent = false;
          })
        ]

module _ {D : DialogMessages} where
  unfoldable pub is_terminated : InviteDialog D → Bool
  is_terminated d = same_state d.info.state terminated

  -- The three ranges of a status code in an early dialog.
  unfoldable pub take_provisional : D.base.Response → InviteDialog D → InviteDialog D
  take_provisional response d =
      if D.base.status_code response == 100
      then d
      else (let d : InviteDialog D = elim (from_invite_response_uac D d.invite response early) [
        | none ↦ d
        | some info ↦ record d { info = info }
      ] in
          let d =
            if D.base.status_code response == 183
            then push (event (session_progress response)) d
            else d in
          push (event (provisional response)) d)

  unfoldable pub take_success : D.base.Response → InviteDialog D → InviteDialog D
  take_success response d =
      let d : InviteDialog D = elim (from_invite_response_uac D d.invite response confirmed) [
        | none ↦ set_state confirmed d
        | some info ↦ record d { info = info }
      ] in
      push (event established) d

  unfoldable pub take_failure : ℕ → InviteDialog D → InviteDialog D
  take_failure code d = push (event (ended (rejected code))) (set_state terminated d)

  unfoldable pub handle_response : D.base.Response → InviteDialog D → InviteDialog D
  handle_response response d =
      let code = D.base.status_code response in
      if same_role d.role uac && same_state d.info.state early
      then (if within 100 200 code
          then take_provisional response d
          else if within 200 300 code
          then take_success response d
          else if leb 300 code
          then take_failure code d
          else d)
      else d

  unfoldable pub take_reinvite : D.base.Request → ℕ → InviteDialog D → InviteDialog D
  take_reinvite request cseq d =
      let (valid, info) = update_remote_seq cseq d.info in
      let d = record d { info = info } in if valid then push (event (reinvite request)) d else d

  -- The match on the method, of a request with this CSeq.
  unfoldable pub dispatch_request : Method → D.base.Request → ℕ → InviteDialog D → InviteDialog D
  dispatch_request method request cseq d =
      if same_method method Requested.bye
      then push (event (ended bye_received)) (push (event (bye request)) (set_state terminated d))
      else if same_method method invite && same_state d.info.state confirmed
      then take_reinvite request cseq d
      else if same_method method ack && same_role d.role uas && same_state d.info.state confirmed
      then record d { ack_sent = true }
      else if same_method method cancel && same_state d.info.state early && same_role d.role uas
      then push (event (ended cancelled)) (set_state terminated d)
      else d

  unfoldable pub handle_request : D.base.Request → InviteDialog D → InviteDialog D
  handle_request request d = elim (D.base.cseq request) [
    | none ↦ d
    | some cseq ↦ dispatch_request (D.base.method request) request cseq d
  ]

  unfoldable pub send_response : D.base.Response → InviteDialog D → InviteDialog D
  send_response response d =
      let code = D.base.status_code response in
      let is_early = same_state d.info.state early in
      if same_role d.role uas
      then (if within 200 300 code && is_early
          then push (event established) (push (respond response) (set_state confirmed d))
          else if leb 300 code && is_early
          then push (event (ended (rejected code)))
              (push (respond response) (set_state terminated d))
          else push (respond response) d)
      else d

  unfoldable pub mark_ack_sent : InviteDialog D → InviteDialog D
  mark_ack_sent d = record d { ack_sent = true }

  unfoldable pub poll_actions : InviteDialog D → InviteDialog D × List (Action D)
  poll_actions d = (record d { actions = [] }, d.actions)
