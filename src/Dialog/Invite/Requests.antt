-- ===== src/Dialog/Invite/Requests.antt =====
-- The requests and responses inside a dialog, the `build_...` methods of
-- crates/rsiprtp/src/dialog/invite.rs. The branch, which the source makes at random, is an argument;
-- `none` is the panic of an `expect`, where the method has no `Option` of its own.
use Prim.Native.String.{String}
use rsiprtp.Common.{ℕ, ◌+◌, List, [], ◌∷◌, min, Option, none, some, if◌then◌else◌}
use rsiprtp.Transaction.Messages.{Method, invite, ack, bye, cancel, options, prack, update}
use rsiprtp.Dialog.Messages.{DialogMessages, InDialogRequest, Refresher}
use rsiprtp.Dialog.State.{DialogInfo, confirmed, terminating, next_local_seq, same_state}
use rsiprtp.Dialog.Invite.Events.{InviteDialog, send_request, set_state, push}

abbrev pub or_zero : Option ℕ → ℕ
or_zero none = 0
or_zero (some n) = n

abbrev pub non_empty : String → Option String
non_empty String.[] = none
non_empty (String.◌∷◌ c s) = some (String.◌∷◌ c s)

-- `if !self.info.local_contact.is_empty()`.
abbrev pub contact : DialogInfo → Option String
contact info = non_empty info.local_contact

-- The methods of `Allow`.
abbrev pub allowed : List Method
allowed = invite ∷ ack ∷ bye ∷ cancel ∷ options ∷ prack ∷ update ∷ []

-- What all the requests have in common. Both roles have the local party in `From`.
unfoldable pub in_dialog : DialogInfo → Method → ℕ → String → InDialogRequest
in_dialog info method cseq branch = record {
  method = method;
  uri = info.remote_target;
  branch = branch;
  from_uri = info.local_uri;
  from_tag = info.id.local_tag;
  to_uri = info.remote_uri;
  to_tag = info.id.remote_tag;
  call_id = info.id.call_id;
  cseq = cseq;
  rack = none;
  routes = info.route_set.routes;
  contact = contact info;
  allow = [];
  session_expires = none;
  supported = [];
  headers = [];
}

module _ {D : DialogMessages} where
  unfoldable pub build_prack :
      D.base.Response → String → InviteDialog D → Option (D.base.Request × InviteDialog D)
  build_prack to branch d = elim (D.base.cseq_method to) [
    | none ↦ none
    | some method ↦
        let info = next_local_seq d.info in
        let fields = record (in_dialog info prack info.local_seq branch) {
          rack = some (or_zero (D.rseq to), or_zero (D.response_cseq to), method);
        } in
        elim (D.build_in_dialog fields) [
          | none ↦ none
          | some request ↦ some (request, record d { info = info })
        ]
  ]

  unfoldable pub build_update :
      Option ℕ → String → InviteDialog D → Option (D.base.Request × InviteDialog D)
  build_update session_expires branch d =
      let info = next_local_seq d.info in
      let fields = record (in_dialog info update info.local_seq branch) { allow = allowed } in
      let fields : InDialogRequest = elim session_expires [
        | none ↦ fields
        | some secs ↦ record fields {
          session_expires = some (record { delta_seconds = secs; refresher = some Refresher.uac });
          supported = "timer" ∷ [];
        }
      ] in
      elim (D.build_in_dialog fields) [
        | none ↦ none
        | some request ↦ some (request, record d { info = info })
      ]

  unfoldable pub handle_update : D.base.Request → InviteDialog D → Option D.base.Response
  handle_update req d = D.build_ok req allowed (contact d.info) (D.session_expires req)

  unfoldable pub build_in_dialog_request_with :
      Method → ℕ → List (String × String) → String → InviteDialog D → Option D.base.Request
  build_in_dialog_request_with method cseq extra_headers branch d =
      D.build_in_dialog (record (in_dialog d.info method cseq branch) { headers = extra_headers })

  unfoldable pub build_in_dialog_request :
      Method → ℕ → String → InviteDialog D → Option D.base.Request
  build_in_dialog_request method cseq branch d =
      build_in_dialog_request_with method cseq [] branch d

  unfoldable pub send_bye : String → InviteDialog D → Option D.base.Request × InviteDialog D
  send_bye branch d =
      if same_state d.info.state confirmed
      then (let d = set_state terminating d in
          let d = record d { info = next_local_seq d.info } in
          elim (build_in_dialog_request bye d.info.local_seq branch d) [
            | none ↦ (none, d)
            | some request ↦ (some request, push (send_request request) d)
          ])
      else (none, d)

  unfoldable pub build_bye_with_reason :
      String → String → InviteDialog D → Option D.base.Request × InviteDialog D
  build_bye_with_reason reason branch d =
      if same_state d.info.state confirmed
      then (let cseq = min (d.info.local_seq + 1) 4294967295 in
          elim (build_in_dialog_request_with bye cseq (("Reason", reason) ∷ []) branch d) [
            | none ↦ (none, d)
            | some request ↦
                let d = record d {
                  info = record d.info { local_seq = cseq; state = terminating };
                } in
                (some request, push (send_request request) d)
          ])
      else (none, d)
