-- ===== src/Transaction/Server/Invite/Prack.antt =====
-- What a PRACK does to the reliable provisionals of an INVITE server transaction.
use rsiprtp.Common.{
  ℕ, ◌≡◌, ◌≢◌, refl, List, [], ◌∷◌, Option, none, some, if◌then◌else◌, ◌==◌, length, ◌≤◌, arith,
}
use rsiprtp.Transaction.Messages.{Messages}
use rsiprtp.Transaction.Server.Invite.{
  InviteServerTransaction, prack_received, handle_event, handle_prack_received,
}
use rsiprtp.Transaction.Server.Invite.Provisional.{ReliableProvisional, retain_ne}
use rsiprtp.Transaction.Server.Invite.TimerN.{next_due-cases}

-- The first entry with the number, if there is one.
unfoldable pub find_rseq : ℕ → List ReliableProvisional → Option ReliableProvisional
find_rseq n [] = none
find_rseq n (e ∷ es) = let rest = find_rseq n es in if e.rseq == n then some e else rest

find_rseq-retain_self :
    (n : ℕ) (es : List ReliableProvisional) → find_rseq n (retain_ne n es) ≡ none
unfolding find_rseq retain_ne
find_rseq-retain_self n [] = refl
find_rseq-retain_self n (e ∷ es) = ground (arith, find_rseq-retain_self n es)

find_rseq-retain_other :
    (n m : ℕ) (es : List ReliableProvisional)
    → m ≢ n
    → find_rseq m (retain_ne n es) ≡ find_rseq m es
unfolding find_rseq retain_ne
find_rseq-retain_other n m [] h = refl
find_rseq-retain_other n m (e ∷ es) h = ground (arith, find_rseq-retain_other n m es h)

retain_ne-absent :
    (n : ℕ) (es : List ReliableProvisional) → find_rseq n es ≡ none → retain_ne n es ≡ es
unfolding find_rseq retain_ne
retain_ne-absent n [] h = refl
retain_ne-absent n (e ∷ es) h = ground (arith, retain_ne-absent n es)

length-retain_ne : (n : ℕ) (es : List ReliableProvisional) → length (retain_ne n es) ≤ length es
unfolding retain_ne
length-retain_ne n [] = omega arith
length-retain_ne n (e ∷ es) = ground (arith, length-retain_ne n es)

retain_ne-same_length :
    (n : ℕ) (es : List ReliableProvisional)
    → length (retain_ne n es) ≡ length es
    → find_rseq n es ≡ none
unfolding find_rseq retain_ne
retain_ne-same_length n [] h = refl
retain_ne-same_length n (e ∷ es) h =
    ground (arith, retain_ne-same_length n es, length-retain_ne n es)

module _ {M : Messages} where
  prack_retains :
      (tx : InviteServerTransaction M) (n : ℕ)
      → (handle_event tx (prack_received n)).reliable_provisionals
        ≡ retain_ne n tx.reliable_provisionals
  unfolding handle_event handle_prack_received
  prack_retains tx n = ground (
    arith,
    next_due-cases M (retain_ne n tx.reliable_provisionals),
    retain_ne-same_length n tx.reliable_provisionals,
    retain_ne-absent n tx.reliable_provisionals,
  )

  -- A PRACK for `n` leaves no provisional numbered `n` and every provisional with another number as it
  -- was; if none is numbered `n`, the transaction does not change at all and queues no action.
  pub prack_acknowledges :
      (tx : InviteServerTransaction M) (n : ℕ)
      → (find_rseq n (handle_event tx (prack_received n)).reliable_provisionals ≡ none)
        × ((m : ℕ)
            → m ≢ n
            → find_rseq m (handle_event tx (prack_received n)).reliable_provisionals
              ≡ find_rseq m tx.reliable_provisionals)
        × (find_rseq n tx.reliable_provisionals ≡ none → handle_event tx (prack_received n) ≡ tx)
  prack_acknowledges tx n = (
    rw (prack_retains tx n) (find_rseq-retain_self n tx.reliable_provisionals),
    λ m h. rw (prack_retains tx n) (find_rseq-retain_other n m tx.reliable_provisionals h),
    λ absent.
        unfold handle_event handle_prack_received in
        ground (arith, retain_ne-absent n tx.reliable_provisionals absent),
  )
