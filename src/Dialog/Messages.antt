-- ===== src/Dialog/Messages.antt =====
-- What the dialogs use of SIP messages, beside what the transactions use: more accessors of
-- crates/rsiprtp/src/sip/message.rs, and what the builders of requests and responses are given.
use Prim.Native.String.{String}
use rsiprtp.Common.{ℕ, List, Bool, Option}
use rsiprtp.Transaction.Messages.{Messages, Method}

-- A value of `SipRecordRoute::parse_all`: `to_header_value()` and the parameter `lr`.
pub record RecordRoute : Type 0 where
  pub header_value : String
  pub lr : Bool

pub data Refresher : Type 0 where
  uac uas : Refresher

pub record SessionExpires : Type 0 where
  pub delta_seconds : ℕ
  pub refresher : Option Refresher

-- What is set on `SipRequest::builder()` inside a dialog. The `Via` is always that of the address
-- 0.0.0.0, the port 5060 and UDP, with this branch, and `Max-Forwards` is 70.
pub record InDialogRequest : Type 0 where
  pub method : Method
  pub uri : String
  pub branch : String
  pub from_uri : String
  pub from_tag : String
  pub to_uri : String
  pub to_tag : String
  pub call_id : String
  pub cseq : ℕ
  pub rack : Option (ℕ × ℕ × Method)
  pub routes : List String
  pub contact : Option String
  pub allow : List Method
  pub session_expires : Option SessionExpires
  pub supported : List String
  pub headers : List (String × String)

-- Accessors that return a `Result` have `none` for the error. `build_in_dialog` is
-- `SipRequestBuilder::build`, and `build_placeholder` is it on the INVITE of `from_dialog_info`:
-- its arguments are the remote and the local URI, the local tag, the Call-ID and the CSeq.
pub record DialogMessages : Type 1 where
  pub base : Messages
  pub from_uri : base.Request → Option String
  pub to_tag : base.Request → Option String
  pub contact_uri : base.Request → Option String
  pub record_routes : base.Request → List String
  pub session_expires : base.Request → Option SessionExpires
  pub build_in_dialog : InDialogRequest → Option base.Request
  pub build_placeholder : String → String → String → String → ℕ → Option base.Request
  pub response_call_id : base.Response → Option String
  pub response_from_tag : base.Response → Option String
  pub response_to_tag : base.Response → Option String
  pub response_contact_uri : base.Response → Option String
  pub response_record_routes : base.Response → List String
  pub response_cseq : base.Response → Option ℕ
  pub rseq : base.Response → Option ℕ
  pub build_ok :
      base.Request → List Method → Option String → Option SessionExpires → Option base.Response
  pub parse_record_routes : List String → List RecordRoute
