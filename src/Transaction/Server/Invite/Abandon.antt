-- ===== src/Transaction/Server/Invite/Abandon.antt =====
-- A reliable provisional that no PRACK acknowledges is given up after boundedly many firings of
-- Timer N.
use rsiprtp.Common.{
  Option-cases, ℕ, zero, suc, ◌+◌, ◌-◌, ◌*◌, ◌/◌, ◌≤◌, ◌<◌, ◌≡◌, refl, List, [], ◌∷◌, true, false,
  some, ◌⊎◌, inl, inr, if◌then◌else◌, Bool-cases, leb, length, All, arith,
}
use rsiprtp.Transaction.TimerValues
use rsiprtp.Transaction.TimerValues.{TimerValues, Duration, is_zero}
use rsiprtp.Transaction.Messages.{Messages}
use rsiprtp.Transaction.Server.Invite.{InviteServerTransaction, fire_timer_n}
use rsiprtp.Transaction.Server.Invite.Provisional.{
  ReliableProvisional, Ticked, waits, abandons, resends_entry, tick, tick_all, kept, abandoned,
  contains, retain_not_in, is_empty, next_due,
}
use rsiprtp.Transaction.Server.Invite.TimerN.{
  due, left, fire_timer_n-full, fire_timer_n-empty, next_due-cases,
}

-- An entry on the schedule of the default timers: T1 is 500 ms and 64 * T1 is 32 s.
pub record OnSchedule (e : ReliableProvisional) : Type 0 where
  pub abandoned_at : e.abandon_at ≡ 32000000000
  pub interval : 500000000 ≤ e.next_interval
  pub not_yet : e.elapsed < 32000000000

-- How many more times the entry can be due, as each time counts for T1 at least.
abbrev pub turns : ReliableProvisional → ℕ
turns e = (32499999999 - e.elapsed) / 500000000

unfoldable pub total_turns : List ReliableProvisional → ℕ
total_turns [] = 0
total_turns (e ∷ es) = turns e + total_turns es

-- What one pass makes of an entry on the schedule.
abbrev Turned : ReliableProvisional → Ticked → Type 0
Turned e (waits e') = OnSchedule e' × (turns e' ≡ turns e)
Turned e (abandons e') = 1 ≤ turns e
Turned e (resends_entry e') = OnSchedule e' × (turns e' + 1 ≤ turns e)

tick-Turned :
    (d : Duration) (e : ReliableProvisional)
    → OnSchedule e
    → Turned e (tick d TimerValues.default e)
unfolding tick
tick-Turned d e h = ground arith

-- 1 for an entry that is due, 0 for one that waits.
abbrev due_count : Duration → ReliableProvisional → ℕ
due_count d e = if leb e.next_fire_after d then 1 else 0

due_total : Duration → List ReliableProvisional → ℕ
due_total d [] = 0
due_total d (e ∷ es) = due_count d e + due_total d es

waits-not_due :
    (d : Duration) (v : TimerValues) (e e' : ReliableProvisional)
    → tick d v e ≡ waits e'
    → due_count d e ≡ 0
unfolding tick
waits-not_due d v e e' h = ground arith

due_count-le : (d : Duration) (e : ReliableProvisional) → due_count d e ≤ 1
due_count-le d e = ground arith

-- The two parts of a pass that the induction carries: the entries left are on the schedule, and a turn
-- is gone for each entry that was due.
record Passed (d : Duration) (gone : List ℕ) (es : List ReliableProvisional) (ts : List Ticked)
    : Type 0 where
  still : All OnSchedule (retain_not_in gone (kept ts))
  fewer : total_turns (retain_not_in gone (kept ts)) + due_total d es ≤ total_turns es

pass_step :
    (d : Duration) (gone : List ℕ) (e : ReliableProvisional) (es : List ReliableProvisional)
    (t : Ticked) (ts : List Ticked)
    → Turned e t
    → tick d TimerValues.default e ≡ t
    → All (λ n. contains gone n ≡ true) (abandoned (t ∷ ts))
    → Passed d gone es ts
    → Passed d gone (e ∷ es) (t ∷ ts)
unfolding total_turns due_total kept abandoned retain_not_in
pass_step d gone e es (waits e') ts h q c p = record {
  still = ground (arith, p.still);
  fewer = ground (arith, p.fewer, waits-not_due d TimerValues.default e e' q);
}
pass_step d gone e es (abandons e') ts h q c p = record {
  still = ground (arith, p.still);
  fewer = ground (arith, p.fewer, due_count-le d e);
}
pass_step d gone e es (resends_entry e') ts h q c p = record {
  still = ground (arith, p.still);
  fewer = ground (arith, p.fewer, due_count-le d e);
}

All-split :
    (gone : List ℕ) (t : Ticked) (ts : List Ticked)
    → All (λ n. contains gone n ≡ true) (abandoned (t ∷ ts))
    → All (λ n. contains gone n ≡ true) (abandoned ts)
unfolding abandoned
All-split gone (waits e) ts c = c
All-split gone (abandons e) ts c = c.1
All-split gone (resends_entry e) ts c = c

pass :
    (d : Duration) (gone : List ℕ) (es : List ReliableProvisional)
    → All OnSchedule es
    → All (λ n. contains gone n ≡ true) (abandoned (tick_all d TimerValues.default es))
    → Passed d gone es (tick_all d TimerValues.default es)
unfolding tick_all
pass d gone [] h c =
    unfold kept retain_not_in total_turns due_total in record { still = tt; fewer = omega arith }
pass d gone (e ∷ es) h c =
    let ts = tick_all d TimerValues.default es in
    pass_step d gone e es (tick d TimerValues.default e) ts (tick-Turned d e h.0) refl c
      (pass d gone es h.1 (All-split gone (tick d TimerValues.default e) ts c))

contains_more :
    (m : ℕ) (gone ns : List ℕ)
    → All (λ n. contains gone n ≡ true) ns
    → All (λ n. contains (m ∷ gone) n ≡ true) ns
unfolding contains
contains_more m gone [] h = tt
contains_more m gone (n ∷ ns) h = (ground arith, contains_more m gone ns h.1)

contains_self : (ns : List ℕ) → All (λ n. contains ns n ≡ true) ns
unfolding contains
contains_self [] = tt
contains_self (n ∷ ns) = (ground arith, contains_more n ns ns (contains_self ns))

next_due-due_total :
    (es : List ReliableProvisional) (d b : Duration)
    → next_due es ≡ some d
    → d ≤ b
    → 1 ≤ due_total b es
unfolding next_due due_total
next_due-due_total [] d b h le = cc
next_due-due_total (e ∷ es) d b h le = elim (Option-cases (next_due es)) [
  | inl n ↦ ground arith
  | inr (d', n) ↦ ground (arith, next_due-due_total es d' b n)
]

pass_whole :
    (d : Duration) (v : TimerValues) (es : List ReliableProvisional)
    → v ≡ TimerValues.default
    → All OnSchedule es
    → next_due es ≡ some d
    → All OnSchedule (retain_not_in (abandoned (tick_all d v es)) (kept (tick_all d v es)))
      × (total_turns (retain_not_in (abandoned (tick_all d v es)) (kept (tick_all d v es))) + 1
          ≤ total_turns es)
pass_whole d v es e h n =
    let p = pass d (abandoned (tick_all d TimerValues.default es)) es h (contains_self _) in
    rw e (p.still, omega (arith, p.fewer, next_due-due_total es d d n))

total_turns-le : (es : List ReliableProvisional) → total_turns es ≤ 64 * length es
unfolding total_turns
total_turns-le [] = omega arith
total_turns-le (e ∷ es) = omega (arith, total_turns-le es)

module _ {M : Messages} where
  pub record Scheduled (tx : InviteServerTransaction M) : Type 0 where
    pub timers : tx.timers ≡ TimerValues.default
    pub entries : All OnSchedule tx.reliable_provisionals

  -- One firing, and `n` firings one after the other.
  unfoldable pub fire_timer_n_times : ℕ → InviteServerTransaction M → InviteServerTransaction M
  fire_timer_n_times zero tx = tx
  fire_timer_n_times (suc n) tx = fire_timer_n_times n (fire_timer_n tx)

  left-Scheduled :
      (tx : InviteServerTransaction M)
      → Scheduled tx
      → is_empty tx.reliable_provisionals ≡ false
      → All OnSchedule (left tx)
        × (total_turns (left tx) + 1 ≤ total_turns tx.reliable_provisionals)
  left-Scheduled tx h full = elim (next_due-cases M tx.reliable_provisionals) [
    | inl (a, b) ↦ absurd (ground arith)
    | inr (a, (d, b)) ↦
        pass_whole (due tx) tx.timers tx.reliable_provisionals h.timers h.entries (ground arith)
  ]

  pub fire_timer_n-Scheduled :
      (tx : InviteServerTransaction M)
      → Scheduled tx
      → Scheduled (fire_timer_n tx)
        × ((is_empty (fire_timer_n tx).reliable_provisionals ≡ true)
            ⊎ (total_turns (fire_timer_n tx).reliable_provisionals + 1
                ≤ total_turns tx.reliable_provisionals))
  fire_timer_n-Scheduled tx h = elim (Bool-cases (is_empty tx.reliable_provisionals)) [
    | inl empty ↦ rw (fire_timer_n-empty M tx empty) (h, inl empty)
    | inr full ↦
        let (entries, fewer) = left-Scheduled tx h full in
        rw (fire_timer_n-full M tx full)
          (record { timers = h.timers; entries = entries }, inr fewer)
  ]

  fire_timer_n_times-empty :
      (n : ℕ) (tx : InviteServerTransaction M)
      → is_empty tx.reliable_provisionals ≡ true
      → fire_timer_n_times n tx ≡ tx
  unfolding fire_timer_n_times
  fire_timer_n_times-empty zero tx h = refl
  fire_timer_n_times-empty (suc n) tx h =
      rw (fire_timer_n-empty M tx h) (fire_timer_n_times-empty n tx h)

  empties :
      (n : ℕ) (tx : InviteServerTransaction M)
      → Scheduled tx
      → total_turns tx.reliable_provisionals < n
      → is_empty (fire_timer_n_times n tx).reliable_provisionals ≡ true
  unfolding fire_timer_n_times
  empties zero tx h lt = absurd (omega arith)
  empties (suc n) tx h lt = elim (fire_timer_n-Scheduled tx h).1 [
    | inl empty ↦ rw (fire_timer_n_times-empty n (fire_timer_n tx) empty) empty
    | inr fewer ↦ empties n (fire_timer_n tx) (fire_timer_n-Scheduled tx h).0 (omega arith)
  ]

  -- With the default timers, a buffer of reliable provisionals on their schedule is empty after Timer N
  -- has fired 64 times for each entry and once more, if no PRACK comes and no provisional is added: every
  -- entry is given up in the end.
  pub provisionals_abandoned :
      (tx : InviteServerTransaction M)
      → Scheduled tx
      → is_empty
          (fire_timer_n_times (64 * length tx.reliable_provisionals + 1) tx).reliable_provisionals
        ≡ true
  provisionals_abandoned tx h =
      empties (64 * length tx.reliable_provisionals + 1) tx h
        (omega (arith, total_turns-le tx.reliable_provisionals))
