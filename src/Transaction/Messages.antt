-- ===== src/Transaction/Messages.antt =====
-- What the transactions use of SIP messages: the method of a request
-- (crates/rsiprtp/src/sip/message.rs, `Method`) and an interface to the requests and responses that
-- crates/rsiprtp/src/sip/message.rs parses, reads and builds.
use Prim.Native.String.{String}
use rsiprtp.Common.{ℕ, List, Option, Bool, true, ◌==◌, ◌≡◌, ◌↔◌, arith}

pub data Method : Type 0 where
  invite ack bye cancel register options info update refer notify subscribe prack message publish :
      Method

abbrev pub method_index : Method → ℕ
method_index invite = 0
method_index ack = 1
method_index bye = 2
method_index cancel = 3
method_index register = 4
method_index options = 5
method_index info = 6
method_index update = 7
method_index refer = 8
method_index notify = 9
method_index subscribe = 10
method_index prack = 11
method_index message = 12
method_index publish = 13

-- The derived equality of methods.
abbrev pub same_method : Method → Method → Bool
same_method m n = method_index m == method_index n

pub same_method_iff : (m n : Method) → (same_method m n ≡ true) ↔ (m ≡ n)
same_method_iff m n = (λ h. ground arith, λ h. ground arith)

-- The fields of a `Via` value that the transactions read.
pub record Via : Type 0 where
  pub protocol : String
  pub host : String
  pub port : ℕ

-- What the transactions hand to `SipRequest::builder`.
pub record RequestFields : Type 0 where
  pub method : Method
  pub uri : String
  pub via : Via
  pub branch : String
  pub from_uri : String
  pub from_tag : String
  pub to_uri : String
  pub call_id : String
  pub cseq : ℕ

-- Accessors that return a `Result` have `none` for the error. `build` is `RequestBuilder::build`
-- on the fields set so, `via_parse` is `Via::parse`, and `stamp_reliable_headers` is the function
-- of that name, which gives the bytes of the response with `Require: 100rel` and the `RSeq` added.
pub record Messages : Type 1 where
  pub Request : Type 0
  pub Response : Type 0
  pub method : Request → Method
  pub uri : Request → String
  pub via_branch : Request → Option String
  pub via_headers_raw : Request → List String
  pub via_parse : String → Option Via
  pub call_id : Request → Option String
  pub from_tag : Request → Option String
  pub from_tag_and_uri : Request → Option (String × String)
  pub to_uri : Request → Option String
  pub cseq : Request → Option ℕ
  pub rack : Request → Option ℕ
  pub request_bytes : Request → List ℕ
  pub build : RequestFields → Option Request
  pub status_code : Response → ℕ
  pub response_via_branch : Response → Option String
  pub cseq_method : Response → Option Method
  pub response_bytes : Response → List ℕ
  pub stamp_reliable_headers : Response → ℕ → List ℕ

pub data SipMessage (M : Messages) : Type 0 where
  sip_request : M.Request → SipMessage M
  sip_response : M.Response → SipMessage M
