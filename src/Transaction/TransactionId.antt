-- ===== src/Transaction/TransactionId.antt =====
-- The key that matches messages to transactions, `TransactionId` of
-- crates/rsiprtp/src/transaction/client/invite.rs.
use Prim.Native.String.{String}
use text.Mathlib.Text.{◌==◌ as str_eq}
use text.Mathlib.TextEquality.{eq_iff}
use rsiprtp.Common.{Bool, true, ◌&&◌, ◌≡◌, ◌↔◌, Option, none, some, Key, arith}
use rsiprtp.Transaction.Messages.{Messages, Method, same_method, same_method_iff}

pub record TransactionId : Type 0 where
  pub branch : String
  pub method : Method

-- The derived equality.
unfoldable pub same_id : TransactionId → TransactionId → Bool
same_id a b = str_eq a.branch b.branch && same_method a.method b.method

pub same_id_iff : (a b : TransactionId) → (same_id a b ≡ true) ↔ (a ≡ b)
unfolding same_id
same_id_iff a b = (
  λ h. ground (arith, eq_iff a.branch b.branch, same_method_iff a.method b.method),
  λ h. ground (arith, eq_iff a.branch b.branch, same_method_iff a.method b.method),
)

instance abbrev pub id_key : Key TransactionId
id_key = record { same = same_id; same_iff = same_id_iff }

module _ (M : Messages) where
  unfoldable pub from_request : M.Request → Option TransactionId
  from_request req = elim (M.via_branch req) [
    | none ↦ none
    | some branch ↦ some (record { branch = branch; method = M.method req })
  ]

  unfoldable pub from_response : M.Response → Option TransactionId
  from_response resp = elim (M.response_via_branch resp) [
    | none ↦ none
    | some branch ↦ elim (M.cseq_method resp) [
      | none ↦ none
      | some method ↦ some (record { branch = branch; method = method })
    ]
  ]
