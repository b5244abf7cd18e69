-- ===== src/Transaction/Client/Invite/Retransmit.antt =====
-- The retransmissions of a INVITE: what Timer A sends, and at which intervals.
use rsiprtp.Common.{
  ℕ, zero, suc, ◌≤◌, List, [], ◌∷◌, ◌++◌, append_assoc, append-nil, ◌≡◌, ◌∙◌, refl, sym, arith,
}
use rsiprtp.Transaction.Timer.{timer_a}
use rsiprtp.Transaction.TimerValues.Backoff.{backoff, next_retransmit-backoff, backoff-zero}
use rsiprtp.Transaction.Messages.{Messages}
use rsiprtp.Transaction.Action.{Action, send, set_timer}
use rsiprtp.Transaction.Client.Invite.{calling, Event, InviteClientTransaction, handle_timeout}

module _ {M : Messages} where
  -- Timer A fires `n` times.
  unfoldable pub fire_timer_a : ℕ → InviteClientTransaction M → InviteClientTransaction M
  fire_timer_a zero tx = tx
  fire_timer_a (suc n) tx = fire_timer_a n (handle_timeout tx timer_a)

  -- The request `n` times, each time followed by Timer A, the interval doubling from that after `k`
  -- retransmissions up to T2.
  abbrev pub retransmissions : InviteClientTransaction M → ℕ → ℕ → List (Action (Event M))
  retransmissions tx k zero = []
  retransmissions tx k (suc n) =
      send (M.request_bytes tx.request)
      ∷ set_timer timer_a (backoff tx.timers (suc k))
      ∷ retransmissions tx (suc k) n

  -- A live transaction when Timer A has fired once more.
  abbrev once_more : InviteClientTransaction M → ℕ → InviteClientTransaction M
  once_more tx k = record tx {
    retransmit_interval = backoff tx.timers (suc k);
    actions =
        tx.actions
        ++ (send (M.request_bytes tx.request) ∷ set_timer timer_a (backoff tx.timers (suc k)) ∷ []);
  }

  handle_timeout-once_more :
      (tx : InviteClientTransaction M) (k : ℕ)
      → tx.state ≡ calling
      → tx.retransmit_interval ≡ backoff tx.timers k
      → handle_timeout tx timer_a ≡ once_more tx k
  unfolding handle_timeout
  handle_timeout-once_more tx k live h = ground (
    arith,
    next_retransmit-backoff tx.timers k,
    append_assoc tx.actions (send (M.request_bytes tx.request) ∷ [])
        (set_timer timer_a (backoff tx.timers (suc k)) ∷ []),
  )

  fire_timer_a-retransmissions :
      (n k : ℕ) (tx : InviteClientTransaction M)
      → tx.state ≡ calling
      → tx.retransmit_interval ≡ backoff tx.timers k
      → (fire_timer_a n tx).actions ≡ tx.actions ++ retransmissions tx k n
  unfolding fire_timer_a
  fire_timer_a-retransmissions zero k tx live h = sym (append-nil tx.actions)
  fire_timer_a-retransmissions (suc n) k tx live h =
      rw (handle_timeout-once_more tx k live h, fire_timer_a)
        (fire_timer_a-retransmissions n (suc k) (once_more tx k) live refl
          ∙ append_assoc tx.actions
              (send (M.request_bytes tx.request)
                ∷ set_timer timer_a (backoff tx.timers (suc k))
                ∷ [])
              (retransmissions tx (suc k) n))

  -- In Calling, `n` firings of Timer A queue exactly `n` copies of the INVITE,
  -- the `k`-th followed by setting Timer A again for min (T1 * 2 ^ k) T2. The transaction starts out
  -- with T1 as its interval, and T1 is at most T2.
  pub invite_client_retransmit_schedule :
      (n : ℕ) (tx : InviteClientTransaction M)
      → tx.state ≡ calling
      → tx.timers.t1 ≤ tx.timers.t2
      → tx.retransmit_interval ≡ tx.timers.t1
      → (fire_timer_a n tx).actions ≡ tx.actions ++ retransmissions tx 0 n
  invite_client_retransmit_schedule n tx live le h =
      fire_timer_a-retransmissions n 0 tx live (h ∙ sym (backoff-zero tx.timers le))
