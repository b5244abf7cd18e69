-- ===== src/Transaction/Sample.antt =====
-- A small set of messages, on which the tests of the transaction layer run.
use Prim.Native.String.{String}
use rsiprtp.Common.{ℕ, [], ◌∷◌, none, some}
use rsiprtp.Transaction.Messages.{Messages, Method, RequestFields, method_index}

pub record Reply : Type 0 where
  pub code : ℕ
  pub branch : String
  pub method : Method

abbrev pub sample : Messages
sample = record {
  Request = RequestFields;
  Response = Reply;
  method = λ r. r.method;
  uri = λ r. r.uri;
  via_branch = λ r. some r.branch;
  via_headers_raw = λ r. [];
  via_parse = λ s. none;
  call_id = λ r. some r.call_id;
  from_tag = λ r. some r.from_tag;
  from_tag_and_uri = λ r. some (r.from_tag, r.from_uri);
  to_uri = λ r. some r.to_uri;
  cseq = λ r. some r.cseq;
  rack = λ r. some r.cseq;
  request_bytes = λ r. method_index r.method ∷ [];
  build = λ f. some f;
  status_code = λ r. r.code;
  response_via_branch = λ r. some r.branch;
  cseq_method = λ r. some r.method;
  response_bytes = λ r. r.code ∷ [];
  stamp_reliable_headers = λ r n. r.code ∷ n ∷ [];
}

abbrev pub request_with : Method → RequestFields
request_with m = record {
  method = m;
  uri = "sip:bob@example.com";
  via = record { protocol = "UDP"; host = "192.168.1.1"; port = 5060 };
  branch = "z9hG4bKtest";
  from_uri = "sip:alice@example.com";
  from_tag = "fromtag";
  to_uri = "sip:bob@example.com";
  call_id = "test@example.com";
  cseq = 1;
}

abbrev pub reply_with : ℕ → Method → Reply
reply_with code m = record { code = code; branch = "z9hG4bKtest"; method = m }
