-- ===== src/Transaction/Server/Invite/Reach.antt =====
-- What holds of the reliable provisionals of an INVITE server transaction in every state that can be
-- reached: they are on their schedule, so they are given up in the end, and their RSeq numbers grow.
use rsiprtp.Common.{
  ℕ, ◌+◌, ◌*◌, ◌≡◌, List, [], ◌∷◌, ◌++◌, Bool, true, some, Option-cases, Bool-cases, ◌⊎◌, inl, inr,
  ◌==◌, length, All, arith,
}
use rsiprtp.Transaction.Timer.{timer_n}
use rsiprtp.Transaction.TimerValues
use rsiprtp.Transaction.Messages.{Messages}
use rsiprtp.Transaction.Server.Invite.{
  InviteServerTransaction, new, handle_timeout, handle_request, send_response,
  handle_transport_error, send_provisional_reliable, handle_event, handle_prack_received,
  fire_timer_n, prack_received,
}
use rsiprtp.Transaction.Server.Invite.Provisional.{ReliableProvisional, is_empty, retain_ne}
use rsiprtp.Transaction.Server.Invite.TimerN.{next_due-cases}
use rsiprtp.Transaction.Server.Invite.Abandon.{
  OnSchedule, fire_timer_n-Scheduled, fire_timer_n_times, provisionals_abandoned,
}
use rsiprtp.Transaction.Server.Invite.Lifecycle.{
  Input, receive, respond, respond_reliably, prack, fire, fail, World, start, step, run, Inv,
  step-Inv, start-Inv, reached-Inv, handle_timeout-timer_n,
}

All-retain_ne :
    (n : ℕ) (es : List ReliableProvisional) → All OnSchedule es → All OnSchedule (retain_ne n es)
unfolding retain_ne
All-retain_ne n [] h = tt
All-retain_ne n (e ∷ es) h = elim (Bool-cases (e.rseq == n)) [
  | inl t ↦ rw t (All-retain_ne n es h.1)
  | inr f ↦ rw f (h.0, All-retain_ne n es h.1)
]

All-snoc :
    (es : List ReliableProvisional) (e : ReliableProvisional)
    → All OnSchedule es
    → OnSchedule e
    → All OnSchedule (es ++ (e ∷ []))
All-snoc [] e h k = (k, tt)
All-snoc (x ∷ es) e h k = (h.0, All-snoc es e h.1 k)

module _ {M : Messages} where
  -- What each input makes of the buffer.
  send_response-buffer :
      (tx : InviteServerTransaction M) (r : M.Response)
      → ((send_response tx r).reliable_provisionals ≡ tx.reliable_provisionals)
        ⊎ ((send_response tx r).reliable_provisionals ≡ [])
  unfolding send_response
  send_response-buffer tx r = ground arith

  abbrev fresh : InviteServerTransaction M → M.Response → ReliableProvisional
  fresh tx r = record {
    rseq = tx.next_rseq;
    bytes = M.stamp_reliable_headers r tx.next_rseq;
    next_fire_after = tx.timers.t1;
    next_interval = tx.timers.t1;
    elapsed = 0;
    abandon_at = tx.timers.t1 * 64;
  }

  send_provisional_reliable-buffer :
      (tx tx' : InviteServerTransaction M) (r : M.Response)
      → send_provisional_reliable tx r ≡ some tx'
      → (tx'.reliable_provisionals ≡ tx.reliable_provisionals)
        ⊎ (tx'.reliable_provisionals ≡ tx.reliable_provisionals ++ (fresh tx r ∷ []))
  unfolding send_provisional_reliable
  send_provisional_reliable-buffer tx tx' r h = ground arith

  handle_event-buffer :
      (tx : InviteServerTransaction M) (n : ℕ)
      → ((handle_event tx (prack_received n)).reliable_provisionals ≡ tx.reliable_provisionals)
        ⊎ ((handle_event tx (prack_received n)).reliable_provisionals
            ≡ retain_ne n tx.reliable_provisionals)
  unfolding handle_event handle_prack_received
  handle_event-buffer tx n = ground (arith, next_due-cases M (retain_ne n tx.reliable_provisionals))

  abbrev AllOn : World M → Type 0
  AllOn w = All OnSchedule w.tx.reliable_provisionals

  keep :
      (w w' : World M)
      → w'.tx.reliable_provisionals ≡ w.tx.reliable_provisionals
      → AllOn w
      → AllOn w'
  keep w w' e h = rw e h

  fresh-OnSchedule :
      (tx : InviteServerTransaction M) (r : M.Response)
      → tx.timers ≡ TimerValues.default
      → OnSchedule (fresh tx r)
  fresh-OnSchedule tx r h = ground arith

  step-AllOn : (w w' : World M) (i : Input M) → step w i ≡ some w' → Inv w → AllOn w → AllOn w'
  unfolding step
  step-AllOn w w' (receive r) e h o = unfold handle_request in keep w w' (ground arith) o
  step-AllOn w w' (respond r) e h o = elim (send_response-buffer w.tx r) [
    | inl k ↦ keep w w' (ground arith) o
    | inr k ↦ let k' : w'.tx.reliable_provisionals ≡ [] = ground arith in rw k' tt
  ]
  step-AllOn w w' (respond_reliably r) e h o =
      elim (Option-cases (send_provisional_reliable w.tx r)) [
        | inl n ↦ absurd (ground arith)
        | inr (tx, n) ↦ elim (send_provisional_reliable-buffer w.tx tx r n) [
          | inl k ↦ keep w w' (ground arith) o
          | inr k ↦
              let k' : w'.tx.reliable_provisionals
                  ≡ w.tx.reliable_provisionals ++ (fresh w.tx r ∷ []) =
                ground arith in
              rw k' (All-snoc _ _ o (fresh-OnSchedule w.tx r h.timers))
        ]
      ]
  step-AllOn w w' (prack n) e h o = elim (handle_event-buffer w.tx n) [
    | inl k ↦ keep w w' (ground arith) o
    | inr k ↦
        let k' : w'.tx.reliable_provisionals ≡ retain_ne n w.tx.reliable_provisionals =
          ground arith in
        rw k' (All-retain_ne n _ o)
  ]
  step-AllOn w w' (fire timer_n) e h o = elim (Bool-cases (w.armed timer_n)) [
    | inl runs ↦
        let k' : w'.tx.reliable_provisionals ≡ (fire_timer_n w.tx).reliable_provisionals =
          ground (arith, handle_timeout-timer_n w.tx) in
        rw k' ((fire_timer_n-Scheduled w.tx (record { timers = h.timers; entries = o })).0).entries
    | inr rests ↦ keep w w' (ground arith) o
  ]
  step-AllOn w w' (fire t) e h o = unfold handle_timeout in keep w w' (ground arith) o
  step-AllOn w w' fail e h o = unfold handle_transport_error in keep w w' (ground arith) o

  run-AllOn :
      (w w' : World M) (is : List (Input M)) → run w is ≡ some w' → Inv w → AllOn w → AllOn w'
  unfolding run
  run-AllOn w w' [] e h o = keep w w' (ground arith) o
  run-AllOn w w' (i ∷ is) e h o = elim (Option-cases (step w i)) [
    | inl none_next ↦ absurd (ground arith)
    | inr (v, next) ↦
        run-AllOn v w' is (ground arith) (step-Inv w v i next h) (step-AllOn w v i next h o)
  ]

  start-AllOn :
      (request : M.Request) (reliable : Bool) {tx : InviteServerTransaction M}
      → new M request reliable ≡ some tx
      → AllOn (start tx)
  unfolding new start
  start-AllOn request reliable {tx} h =
      let k : tx.reliable_provisionals ≡ [] = ground arith in rw k tt

  -- In every state that can be reached, if Timer N fires 64 times for each reliable provisional that
  -- waits for its PRACK, and once more, with no other input, then all of them have been given up.
  pub provisionals_given_up :
      (request : M.Request) (reliable : Bool) {tx : InviteServerTransaction M} (is : List (Input M))
      {w : World M}
      → new M request reliable ≡ some tx
      → run (start tx) is ≡ some w
      → is_empty
          (fire_timer_n_times
            (64 * length w.tx.reliable_provisionals + 1)
            w.tx).reliable_provisionals
        ≡ true
  provisionals_given_up request reliable {tx} is {w} h r = provisionals_abandoned w.tx (record {
    timers = (reached-Inv request reliable is h r).timers;
    entries =
        run-AllOn (start tx) w is r (start-Inv request reliable h) (start-AllOn request reliable h);
  })
