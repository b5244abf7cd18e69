-- ===== src/Dialog/Sample.antt =====
-- A small set of messages, on which the tests of the dialogs run.
use Prim.Native.String.{String}
use rsiprtp.Common.{ℕ, [], ◌∷◌, none, some}
use rsiprtp.Transaction.Messages.{Messages, Method, invite, method_index}
use rsiprtp.Dialog.Messages.{DialogMessages, InDialogRequest}

pub record Reply : Type 0 where
  pub code : ℕ
  pub to_tag : String
  pub cseq : ℕ

abbrev plain : Method → String → String → ℕ → InDialogRequest
plain method from_tag to_tag cseq = record {
  method = method;
  uri = "sip:bob@example.com";
  branch = "z9hG4bKtest";
  from_uri = "sip:alice@example.com";
  from_tag = from_tag;
  to_uri = "sip:bob@example.com";
  to_tag = to_tag;
  call_id = "test@example.com";
  cseq = cseq;
  rack = none;
  routes = [];
  contact = some "sip:alice@192.168.1.1";
  allow = [];
  session_expires = none;
  supported = [];
  headers = [];
}

abbrev base : Messages
base = record {
  Request = InDialogRequest;
  Response = Reply;
  method = λ r. r.method;
  uri = λ r. r.uri;
  via_branch = λ r. some r.branch;
  via_headers_raw = λ r. [];
  via_parse = λ s. none;
  call_id = λ r. some r.call_id;
  from_tag = λ r. some r.from_tag;
  from_tag_and_uri = λ r. some (r.from_tag, r.from_uri);
  to_uri = λ r. some r.to_uri;
  cseq = λ r. some r.cseq;
  rack = λ r. none;
  request_bytes = λ r. method_index r.method ∷ [];
  build = λ f. some (record (plain f.method f.from_tag "" f.cseq) { uri = f.uri });
  status_code = λ r. r.code;
  response_via_branch = λ r. some "z9hG4bKtest";
  cseq_method = λ r. some invite;
  response_bytes = λ r. r.code ∷ [];
  stamp_reliable_headers = λ r n. r.code ∷ n ∷ [];
}

abbrev pub messages : DialogMessages
messages = record {
  base = base;
  from_uri = λ r. some r.from_uri;
  to_tag = λ r. some r.to_tag;
  contact_uri = λ r. r.contact;
  record_routes = λ r. [];
  session_expires = λ r. none;
  build_in_dialog = λ f. some f;
  build_placeholder = λ remote_uri local_uri tag call_id cseq. some (plain invite tag "" cseq);
  response_call_id = λ r. some "test@example.com";
  response_from_tag = λ r. some "alicetag";
  response_to_tag = λ r. some r.to_tag;
  response_contact_uri = λ r. some "sip:bob@192.168.1.2";
  response_record_routes = λ r. [];
  response_cseq = λ r. some r.cseq;
  rseq = λ r. some 1;
  build_ok = λ r methods contact expires. some (record { code = 200; to_tag = ""; cseq = r.cseq });
  parse_record_routes = λ values. [];
}

abbrev pub request_with : Method → String → String → ℕ → InDialogRequest
request_with = plain

abbrev pub reply_with : ℕ → Reply
reply_with code = record { code = code; to_tag = "bobtag"; cseq = 1 }
