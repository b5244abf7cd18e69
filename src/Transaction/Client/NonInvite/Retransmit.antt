-- ===== src/Transaction/Client/NonInvite/Retransmit.antt =====
-- The retransmissions of a non-INVITE request: what Timer E sends, and at which intervals.
use rsiprtp.Common.{
  ℕ, zero, suc, ◌≤◌, List, [], ◌∷◌, ◌++◌, append_assoc, append-nil, ◌≡◌, ◌∙◌, refl, sym, ◌⊎◌, arith,
}
use rsiprtp.Transaction.Timer.{timer_e}
use rsiprtp.Transaction.TimerValues.Backoff.{backoff, next_retransmit-backoff, backoff-zero}
use rsiprtp.Transaction.Messages.{Messages}
use rsiprtp.Transaction.Action.{Action, send, set_timer}
use rsiprtp.Transaction.Client.NonInvite.{
  trying, proceeding, Event, NonInviteClientTransaction, handle_timeout,
}

module _ {M : Messages} where
  -- Timer E fires `n` times.
  unfoldable pub fire_timer_e : ℕ → NonInviteClientTransaction M → NonInviteClientTransaction M
  fire_timer_e zero tx = tx
  fire_timer_e (suc n) tx = fire_timer_e n (handle_timeout tx timer_e)

  -- The request `n` times, each time followed by Timer E, the interval doubling from that after `k`
  -- retransmissions up to T2.
  abbrev pub retransmissions : NonInviteClientTransaction M → ℕ → ℕ → List (Action (Event M))
  retransmissions tx k zero = []
  retransmissions tx k (suc n) =
      send (M.request_bytes tx.request)
      ∷ set_timer timer_e (backoff tx.timers (suc k))
      ∷ retransmissions tx (suc k) n

  -- A live transaction when Timer E has fired once more.
  abbrev once_more : NonInviteClientTransaction M → ℕ → NonInviteClientTransaction M
  once_more tx k = record tx {
    retransmit_interval = backoff tx.timers (suc k);
    actions =
        tx.actions
        ++ (send (M.request_bytes tx.request) ∷ set_timer timer_e (backoff tx.timers (suc k)) ∷ []);
  }

  handle_timeout-once_more :
      (tx : NonInviteClientTransaction M) (k : ℕ)
      → (tx.state ≡ trying) ⊎ (tx.state ≡ proceeding)
      → tx.retransmit_interval ≡ backoff tx.timers k
      → handle_timeout tx timer_e ≡ once_more tx k
  unfolding handle_timeout
  handle_timeout-once_more tx k live h = ground (
    arith,
    next_retransmit-backoff tx.timers k,
    append_assoc tx.actions (send (M.request_bytes tx.request) ∷ [])
        (set_timer timer_e (backoff tx.timers (suc k)) ∷ []),
  )

  fire_timer_e-retransmissions :
      (n k : ℕ) (tx : NonInviteClientTransaction M)
      → (tx.state ≡ trying) ⊎ (tx.state ≡ proceeding)
      → tx.retransmit_interval ≡ backoff tx.timers k
      → (fire_timer_e n tx).actions ≡ tx.actions ++ retransmissions tx k n
  unfolding fire_timer_e
  fire_timer_e-retransmissions zero k tx live h = sym (append-nil tx.actions)
  fire_timer_e-retransmissions (suc n) k tx live h =
      rw (handle_timeout-once_more tx k live h, fire_timer_e)
        (fire_timer_e-retransmissions n (suc k) (once_more tx k) live refl
          ∙ append_assoc tx.actions
              (send (M.request_bytes tx.request)
                ∷ set_timer timer_e (backoff tx.timers (suc k))
                ∷ [])
              (retransmissions tx (suc k) n))

  -- While no final response has come, `n` firings of Timer E queue exactly `n` copies of the request,
  -- the `k`-th followed by setting Timer E again for min (T1 * 2 ^ k) T2. The transaction starts out
  -- with T1 as its interval, and T1 is at most T2.
  pub non_invite_client_retransmit_schedule :
      (n : ℕ) (tx : NonInviteClientTransaction M)
      → (tx.state ≡ trying) ⊎ (tx.state ≡ proceeding)
      → tx.timers.t1 ≤ tx.timers.t2
      → tx.retransmit_interval ≡ tx.timers.t1
      → (fire_timer_e n tx).actions ≡ tx.actions ++ retransmissions tx 0 n
  non_invite_client_retransmit_schedule n tx live le h =
      fire_timer_e-retransmissions n 0 tx live (h ∙ sym (backoff-zero tx.timers le))
