-- ===== src/Transaction/Client/Invite/Ack.antt =====
-- The ACK that the INVITE client transaction sends for a final response of 300 and above.
use rsiprtp.Common.{
  Option-cases, ℕ, inl, inr, leb, List, [], ◌∷◌, some, none, if◌then◌else◌, ◌≡◌, ◌≢◌, arith,
}
use rsiprtp.Transaction.Messages.{Messages, RequestFields, ack}
use rsiprtp.Transaction.Action.{sent}
use rsiprtp.Transaction.Client.Invite.{
  terminated, InviteClientTransaction, ack_fields, build_ack_for_non_2xx, send_ack, handle_response,
}

-- What the builder of requests keeps of the fields that it is given.
pub record KeepsFields (M : Messages) (f : RequestFields) (r : M.Request) : Type 0 where
  pub keeps_method : M.method r ≡ f.method
  pub keeps_branch : M.via_branch r ≡ some f.branch
  pub keeps_call_id : M.call_id r ≡ some f.call_id
  pub keeps_cseq : M.cseq r ≡ some f.cseq

module _ (M : Messages) where
  ack_fields_lem :
      (request : M.Request) {f : RequestFields}
      → ack_fields M request ≡ some f
      → (f.method ≡ ack)
        × (M.via_branch request ≡ some f.branch)
        × (M.call_id request ≡ some f.call_id)
        × (M.cseq request ≡ some f.cseq)
  unfolding ack_fields
  ack_fields_lem request h = ground arith

  -- If the builder keeps the method, branch, Call-ID and CSeq number that it is given, then the ACK
  -- for a non-2xx response is an ACK with the branch, the Call-ID and the CSeq number of the INVITE.
  pub ack_matches_invite :
      (request : M.Request) {r : M.Request}
      → ((f : RequestFields) → M.build f ≡ some r → KeepsFields M f r)
      → build_ack_for_non_2xx M request ≡ some r
      → (M.method r ≡ ack)
        × (M.via_branch r ≡ M.via_branch request)
        × (M.call_id r ≡ M.call_id request)
        × (M.cseq r ≡ M.cseq request)
  unfolding build_ack_for_non_2xx
  ack_matches_invite request keeps h = elim (Option-cases (ack_fields M request)) [
    | inl e ↦ absurd (ground arith)
    | inr (f, e) ↦ ground (arith, ack_fields_lem request e, keeps f)
  ]

module _ {M : Messages} where
  -- The ACK of the INVITE, if one can be built.
  abbrev pub ack_bytes : InviteClientTransaction M → List (List ℕ)
  ack_bytes tx = elim (build_ack_for_non_2xx M tx.request) [
    | none ↦ []
    | some r ↦ M.request_bytes r ∷ []
  ]

  -- What a drained transaction that has not terminated sends on a response: for a status of 300 or
  -- above the ACK of the INVITE, if one can be built, and otherwise nothing.
  pub response_sends :
      (tx : InviteClientTransaction M) (response : M.Response)
      → tx.actions ≡ []
      → tx.state ≢ terminated
      → sent (handle_response tx response).actions
        ≡ (if leb 300 (M.status_code response) then ack_bytes tx else [])
  unfolding handle_response send_ack
  response_sends tx response polled live = ground arith
