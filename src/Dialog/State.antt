-- ===== src/Dialog/State.antt =====
-- Dialog identifiers, states and information, crates/rsiprtp/src/dialog/state.rs.
use Prim.Native.String.{String}
use text.Mathlib.Text.{◌==◌ as str_eq}
use text.Mathlib.TextEquality.{eq_iff}
use rsiprtp.Common.{
  ℕ, ◌+◌, ◌%◌, List, [], ◌∷◌, map, reverse, Bool, true, false, ◌&&◌, Option, none, some, Key, ◌==◌,
  ltb, if◌then◌else◌, ◌≡◌, ◌↔◌, arith,
}
use rsiprtp.Common.Text.{trim, strip_prefix, eq_ignore_ascii_case}
use rsiprtp.Transaction.Client.Invite.{◌>>=◌}
use rsiprtp.Dialog.Messages.{DialogMessages, RecordRoute}

pub record DialogId : Type 0 where
  pub call_id : String
  pub local_tag : String
  pub remote_tag : String

-- The derived equality.
unfoldable pub same_dialog : DialogId → DialogId → Bool
same_dialog a b =
    str_eq a.call_id b.call_id && str_eq a.local_tag b.local_tag && str_eq a.remote_tag b.remote_tag

pub same_dialog_iff : (a b : DialogId) → (same_dialog a b ≡ true) ↔ (a ≡ b)
unfolding same_dialog
same_dialog_iff a b = (
  λ h. ground (
    arith,
    eq_iff a.call_id b.call_id,
    eq_iff a.local_tag b.local_tag,
    eq_iff a.remote_tag b.remote_tag,
  ),
  λ h. ground (
    arith,
    eq_iff a.call_id b.call_id,
    eq_iff a.local_tag b.local_tag,
    eq_iff a.remote_tag b.remote_tag,
  ),
)

instance abbrev pub dialog_key : Key DialogId
dialog_key = record { same = same_dialog; same_iff = same_dialog_iff }

pub data DialogState : Type 0 where
  early confirmed terminating terminated : DialogState

abbrev pub state_index : DialogState → ℕ
state_index early = 0
state_index confirmed = 1
state_index terminating = 2
state_index terminated = 3

-- The derived equality of states.
abbrev pub same_state : DialogState → DialogState → Bool
same_state a b = state_index a == state_index b

pub record RouteSet : Type 0 where
  pub routes : List String
  pub loose_routing : Bool

abbrev pub no_routes : RouteSet
no_routes = record { routes = []; loose_routing = false }

pub record DialogInfo : Type 0 where
  pub id : DialogId
  pub state : DialogState
  pub local_seq : ℕ
  pub remote_seq : Option ℕ
  pub local_uri : String
  pub remote_uri : String
  pub remote_target : String
  pub local_contact : String
  pub route_set : RouteSet
  pub secure : Bool

abbrev first_lr : List RecordRoute → Bool
first_lr [] = false
first_lr (r ∷ rs) = r.lr

abbrev pub or_empty : Option String → String
or_empty none = ""
or_empty (some s) = s

unfoldable pub next_local_seq : DialogInfo → DialogInfo
next_local_seq info = record info { local_seq = (info.local_seq + 1) % 4294967296 }

unfoldable pub update_remote_seq : ℕ → DialogInfo → Bool × DialogInfo
update_remote_seq seq info = elim info.remote_seq [
  | none ↦ (true, record info { remote_seq = some seq })
  | some current ↦
      if ltb current seq then (true, record info { remote_seq = some seq }) else (false, info)
]

module _ (D : DialogMessages) where
  unfoldable pub from_record_route_values : List String → Bool → RouteSet
  from_record_route_values values reversed =
      let record_routes = D.parse_record_routes values in
      let routes = map (λ r. r.header_value) record_routes in
      record {
        routes = if reversed then reverse routes else routes;
        loose_routing = first_lr record_routes;
      }

  unfoldable pub from_request_uac : D.base.Request → String → Option DialogId
  from_request_uac request remote_tag = do
    call_id ← D.base.call_id request
    local_tag ← D.base.from_tag request
    some (record { call_id = call_id; local_tag = local_tag; remote_tag = remote_tag })

  unfoldable pub from_response_uac : D.base.Response → Option DialogId
  from_response_uac response = do
    call_id ← D.response_call_id response
    local_tag ← D.response_from_tag response
    remote_tag ← D.response_to_tag response
    some (record { call_id = call_id; local_tag = local_tag; remote_tag = remote_tag })

  unfoldable pub from_request_uas : D.base.Request → String → Option DialogId
  from_request_uas request local_tag = do
    call_id ← D.base.call_id request
    remote_tag ← D.base.from_tag request
    some (record { call_id = call_id; local_tag = local_tag; remote_tag = remote_tag })

  unfoldable pub detect_secure_transport : D.base.Request → Bool
  detect_secure_transport request = elim (D.base.via_headers_raw request) [
    | [] ↦ false
    | first_via ∷ others ↦
        let via_value : String = elim (strip_prefix "Via:" (trim first_via)) [
          | none ↦ first_via
          | some value ↦ value
        ] in
        elim (D.base.via_parse (trim via_value)) [
          | none ↦ false
          | some via ↦ eq_ignore_ascii_case via.protocol "TLS"
        ]
  ]

  unfoldable pub from_invite_response_uac :
      D.base.Request → D.base.Response → DialogState → Option DialogInfo
  from_invite_response_uac request response state = do
    id ← from_response_uac response
    local_uri ← D.from_uri request
    remote_uri ← D.base.to_uri request
    remote_target ← D.response_contact_uri response
    local_seq ← D.base.cseq request
    some (record {
      id = id;
      state = state;
      local_seq = local_seq;
      remote_seq = none;
      local_uri = local_uri;
      remote_uri = remote_uri;
      remote_target = remote_target;
      local_contact = or_empty (D.contact_uri request);
      route_set = from_record_route_values (D.response_record_routes response) true;
      secure = detect_secure_transport request;
    })

  unfoldable pub from_invite_uas :
      D.base.Request → String → String → DialogState → Option DialogInfo
  from_invite_uas request local_tag local_contact state = do
    call_id ← D.base.call_id request
    (remote_tag, remote_uri) ← D.base.from_tag_and_uri request
    local_uri ← D.base.to_uri request
    remote_target ← D.contact_uri request
    remote_seq ← D.base.cseq request
    some (record {
      id = record { call_id = call_id; local_tag = local_tag; remote_tag = remote_tag };
      state = state;
      local_seq = 0;
      remote_seq = some remote_seq;
      local_uri = local_uri;
      remote_uri = remote_uri;
      remote_target = remote_target;
      local_contact = local_contact;
      route_set = from_record_route_values (D.record_routes request) false;
      secure = detect_secure_transport request;
    })
