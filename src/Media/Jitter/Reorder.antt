-- ===== src/Media/Jitter/Reorder.antt =====
-- Packets that reach the jitter buffer, crates/rsiprtp/src/media/jitter.rs, in any order.
use rsiprtp.Common.{
  ℕ, ◌+◌, ◌*◌, ◌%◌, ◌≤◌, ◌<◌, List, [], ◌∷◌, map, length, true, false, Option, none, some, lookup,
  insert, lookup-insert, number_key, Distinct, ==_iff, ◌≡◌, ◌∙◌, refl, ap, arith,
}
use rsiprtp.Media.Jitter.{Floats, BufferedPacket, JitterBuffer, play, is_late, accept, push}
use rsiprtp.Media.Jitter.Values.{add_one}
use rsiprtp.Media.Jitter.Delay.{Valid, Within, Playing, noted, noted_lem, store_lem}
use rsiprtp.Media.Jitter.Order.{Waiting, pop_times, plays_in_order}

-- The packets in the order in which they arrive; the entry of each is what the buffer keeps.
abbrev pub arrived : List BufferedPacket → List (ℕ × BufferedPacket)
arrived [] = []
arrived (p ∷ ps) = (p.timestamp, p) ∷ arrived ps

-- What stands under a time after the arrivals.
abbrev either : Option BufferedPacket → Option BufferedPacket → Option BufferedPacket
either none q = q
either (some p) q = some p

abbrev pub Timely : ℕ → List BufferedPacket → Type 0
Timely ts [] = Unit {0}
Timely ts (p ∷ ps) = (is_late (some ts) p.timestamp ≡ false) × Timely ts ps

abbrev pub New : List BufferedPacket → List (ℕ × BufferedPacket) → Type 0
New [] d = Unit {0}
New (p ∷ ps) d = (lookup p.timestamp d ≡ none) × New ps d

insert-New :
    (p : BufferedPacket) (ps : List BufferedPacket) (d : List (ℕ × BufferedPacket))
    → lookup p.timestamp (arrived ps) ≡ none
    → New ps d
    → New ps (insert p.timestamp p d)
unfolding lookup
insert-New p [] d other new = tt
insert-New p (q ∷ ps) d other (here, rest) = (
  ground (
    arith,
    lookup-insert p.timestamp q.timestamp p d,
    ==_iff p.timestamp q.timestamp,
    ==_iff q.timestamp p.timestamp,
  ),
  insert-New p ps d (ground arith) rest,
)

Waiting-of_either :
    (step ts : ℕ) (qs : List BufferedPacket) (a d n : List (ℕ × BufferedPacket))
    → ((j : ℕ) → lookup j n ≡ either (lookup j a) (lookup j d))
    → Waiting step ts qs a
    → Waiting step ts qs n
Waiting-of_either step ts [] a d n same w = tt
Waiting-of_either step ts (q ∷ qs) a d n same (here, rest) =
    (same ts ∙ rw here refl, Waiting-of_either step ((ts + step) % 4294967296) qs a d n same rest)

module _ {F : Floats} where
  unfoldable pub push_all : List BufferedPacket → JitterBuffer F → Option (JitterBuffer F)
  push_all [] b = some b
  push_all (p ∷ ps) b = elim (push p.received_at p.sequence p.timestamp p.samples b) [
    | none ↦ none
    | some (accepted, b) ↦ push_all ps b
  ]

  push_waits :
      (p : BufferedPacket) (b : JitterBuffer F) (t ts : ℕ)
      → Valid b.config
      → Within b
      → Playing t ts b
      → lookup p.timestamp b.packets ≡ none
      → is_late (some ts) p.timestamp ≡ false
      → (n : JitterBuffer F) × (push p.received_at p.sequence p.timestamp p.samples b
          ≡ some (true, n))
        × (n.config ≡ b.config)
        × Within n
        × Playing t ts n
        × (n.packets ≡ insert p.timestamp p b.packets)
  unfolding push accept
  push_waits p b t ts valid within playing absent timely =
      let counted : JitterBuffer F = record b {
        stats = record b.stats { packets_received = add_one b.stats.packets_received };
      } in
      let start = noted p.received_at p.sequence p.timestamp counted in
      let (kept, delay) = noted_lem p.received_at p.sequence p.timestamp counted in
      let going = kept.same_playing t ts playing in
      let (n, stored, k, fine) =
        store_lem p.received_at p.sequence p.timestamp p.samples start (rw kept.same_config valid)
          (rw (kept.same_config, delay) within) in
      let missing : lookup p.timestamp start.packets ≡ none = rw kept.same_packets absent in
      let early : is_late start.next_playout_ts p.timestamp ≡ false = rw (going.2) timely in
      let accepts : accept p.received_at p.sequence p.timestamp p.samples start ≡ some (true, n) =
        rw (accept, missing, early, stored) refl in
      (
        n,
        accepts,
        k.same_config ∙ kept.same_config,
        fine,
        k.same_playing t ts going,
        k.same_packets ∙ ap (insert p.timestamp p) kept.same_packets,
      )

  push_all_waits :
      (ps : List BufferedPacket) (b : JitterBuffer F) (t ts : ℕ)
      → Valid b.config
      → Within b
      → Playing t ts b
      → Distinct (arrived ps)
      → Timely ts ps
      → New ps b.packets
      → (n : JitterBuffer F) × (push_all ps b ≡ some n)
        × (n.config ≡ b.config)
        × Playing t ts n
        × ((j : ℕ) → lookup j n.packets ≡ either (lookup j (arrived ps)) (lookup j b.packets))
  unfolding push_all lookup
  push_all_waits [] b t ts valid within playing apart timely new =
      (b, refl, refl, playing, λ j. refl)
  push_all_waits (p ∷ ps) b t ts valid within playing (other, apart) (early, timely) (absent, new) =
      let (m, pushed, same, fine, going, stored) =
        push_waits p b t ts valid within playing absent early in
      let later : New ps m.packets = rw stored (insert-New p ps b.packets other new) in
      let (n, rest, config, on, found) =
        push_all_waits ps m t ts (rw same valid) fine going apart timely later in
      (
        n,
        rw (push_all, pushed) rest,
        config ∙ same,
        on,
        λ j. ground (
          arith,
          found j,
          ap (lookup j) stored,
          lookup-insert p.timestamp j p b.packets,
          ==_iff p.timestamp j,
        ),
      )

  -- Packets arrive in a buffer that plays, in any order, each with a time of its own that is not late
  -- and not taken. If those for the next playout times are among them, as many calls of `pop` play
  -- these, in the order of their times.
  pub reordered_packets_play :
      (ps qs : List BufferedPacket) (b : JitterBuffer F) (t ts : ℕ)
      → Valid b.config
      → Within b
      → Playing t ts b
      → ts < 4294967296
      → Distinct (arrived ps)
      → Timely ts ps
      → New ps b.packets
      → length qs * b.config.samples_per_packet ≤ 4294967296
      → Waiting b.config.samples_per_packet ts qs (arrived ps)
      → (n m : JitterBuffer F) × (push_all ps b ≡ some n)
        × (pop_times (length qs) n ≡ some (map (λ q. (play, q.samples)) qs, m))
  reordered_packets_play ps qs b t ts valid within playing in_clock apart timely new short w =
      let (n, pushed, config, (primed, since, due), found) =
        push_all_waits ps b t ts valid within playing apart timely new in
      let step = b.config.samples_per_packet in
      let there = Waiting-of_either step ts qs (arrived ps) b.packets n.packets found w in
      let (m, played, at) =
        plays_in_order n ts qs primed due (rw config (omega (arith, valid.frame))) in_clock
          (rw config short) (rw config there) in
      (n, m, pushed, played)
