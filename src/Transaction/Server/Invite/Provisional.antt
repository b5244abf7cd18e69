-- ===== src/Transaction/Server/Invite/Provisional.antt =====
-- The buffer of reliable provisional responses (RFC 3262) of
-- crates/rsiprtp/src/transaction/server/invite.rs: `ReliableProvisional`, and the passes over the
-- buffer that `fire_timer_n` and `handle_prack_received` make.
use rsiprtp.Common.{
  ℕ, ◌+◌, ◌-◌, ◌*◌, min, List, [], ◌∷◌, Bool, true, false, not, ◌||◌, Option, none, some, leb, ◌==◌,
  if◌then◌else◌,
}
use rsiprtp.Transaction.TimerValues.{TimerValues, Duration, is_zero, duration_max}

pub record ReliableProvisional : Type 0 where
  pub rseq : ℕ  -- u32
  pub bytes : List ℕ
  pub next_fire_after : Duration
  pub next_interval : Duration
  pub elapsed : Duration
  pub abandon_at : Duration

abbrev pub is_empty : List ReliableProvisional → Bool
is_empty [] = true
is_empty (e ∷ es) = false

-- The smallest `next_fire_after`, `none` for an empty buffer.
unfoldable pub next_due : List ReliableProvisional → Option Duration
next_due [] = none
next_due (e ∷ es) = elim (next_due es) [
  | none ↦ some e.next_fire_after
  | some d ↦ some (min e.next_fire_after d)
]

abbrev pub saturating_add : Duration → Duration → Duration
saturating_add a b = min (a + b) duration_max

-- One entry in the loop of `fire_timer_n`: it waits, it is due and abandoned, or it is sent again.
pub data Ticked : Type 0 where
  waits : ReliableProvisional → Ticked
  abandons : ReliableProvisional → Ticked
  resends_entry : ReliableProvisional → Ticked

unfoldable pub tick : Duration → TimerValues → ReliableProvisional → Ticked
tick due_in timers entry =
    let entry = record entry { next_fire_after = entry.next_fire_after - due_in } in
    if not (is_zero entry.next_fire_after)
    then waits entry
    else (let entry = record entry { elapsed = saturating_add entry.elapsed entry.next_interval } in
        if leb entry.abandon_at entry.elapsed
        then abandons entry
        else (let entry = record entry {
          next_interval = min (entry.next_interval * 2) timers.t2;
        } in
            resends_entry (record entry { next_fire_after = entry.next_interval })))

unfoldable pub tick_all : Duration → TimerValues → List ReliableProvisional → List Ticked
tick_all due_in timers [] = []
tick_all due_in timers (e ∷ es) = tick due_in timers e ∷ tick_all due_in timers es

-- The entries as the loop leaves them, the bytes that it sends, and `to_abandon`, each in order.
unfoldable pub kept : List Ticked → List ReliableProvisional
kept [] = []
kept (waits e ∷ ts) = e ∷ kept ts
kept (abandons e ∷ ts) = e ∷ kept ts
kept (resends_entry e ∷ ts) = e ∷ kept ts

unfoldable pub resends : List Ticked → List (List ℕ)
resends [] = []
resends (waits e ∷ ts) = resends ts
resends (abandons e ∷ ts) = resends ts
resends (resends_entry e ∷ ts) = e.bytes ∷ resends ts

unfoldable pub abandoned : List Ticked → List ℕ
abandoned [] = []
abandoned (waits e ∷ ts) = abandoned ts
abandoned (abandons e ∷ ts) = e.rseq ∷ abandoned ts
abandoned (resends_entry e ∷ ts) = abandoned ts

unfoldable pub contains : List ℕ → ℕ → Bool
contains [] n = false
contains (m ∷ ms) n = m == n || contains ms n

-- `retain(|e| !to_abandon.contains(&e.rseq))`.
unfoldable pub retain_not_in : List ℕ → List ReliableProvisional → List ReliableProvisional
unfolding contains
retain_not_in gone [] = []
retain_not_in gone (e ∷ es) =
    let rest = retain_not_in gone es in if contains gone e.rseq then rest else e ∷ rest

-- `retain(|e| e.rseq != rseq)`.
unfoldable pub retain_ne : ℕ → List ReliableProvisional → List ReliableProvisional
retain_ne rseq [] = []
retain_ne rseq (e ∷ es) = let rest = retain_ne rseq es in if e.rseq == rseq then rest else e ∷ rest
