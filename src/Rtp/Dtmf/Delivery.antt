-- ===== src/Rtp/Dtmf/Delivery.antt =====
-- A digit from the sender to the receiver: each packet is parsed, and its payload type and payload
-- are handed to `process_packet`.
use rsiprtp.Common.{
  ℕ, zero, suc, ◌+◌, ◌-◌, ◌/◌, ◌<◌, ◌≤◌, ◌≡◌, ◌∙◌, refl, sym, ap, List, [], ◌∷◌, map, Bool, true,
  false, ◌&&◌, Option, none, some, leb, ◌==◌, ==_iff, if◌then◌else◌, min, Bool-cases, inl, inr,
  arith,
}
use rsiprtp.Rtp.Packet.{
  RtpPacket, Outcome, ok, err, panic, parse, build, new, with_marker, with_payload,
}
use rsiprtp.Rtp.Packet.RoundTrip.{parse-build, WellFormed}
use rsiprtp.Rtp.Dtmf.{
  DtmfDigit, DtmfEvent, event_code, from_event_code, new_event, with_end, encode, decode,
}
use rsiprtp.Rtp.Dtmf.Codes.{from_event_code-event_code, decode-encode}
use rsiprtp.Rtp.Dtmf.Sender.{DtmfSender, event_at, packet_count, generate_packets}
use rsiprtp.Rtp.Dtmf.Stream.{telephone_packet, telephone_packets, after, generate_packets-telephone}
use rsiprtp.Rtp.Dtmf.Receiver.{DtmfReceiver, is_last, process_event, process_packet}

abbrev receive_parsed : Outcome RtpPacket → DtmfReceiver → Option DtmfDigit × DtmfReceiver
receive_parsed (ok p) r = process_packet p.payload_type p.payload r
receive_parsed (err e) r = (none, r)
receive_parsed panic r = (none, r)

abbrev pub receive : List ℕ → DtmfReceiver → Option DtmfDigit × DtmfReceiver
receive bytes r = receive_parsed (parse bytes) r

abbrev cons_some : Option DtmfDigit → List DtmfDigit → List DtmfDigit
cons_some none digits = digits
cons_some (some d) digits = d ∷ digits

-- The digits that the packets yield, in order.
abbrev pub receive_all : List (List ℕ) → DtmfReceiver → List DtmfDigit × DtmfReceiver
receive_all [] r = ([], r)
receive_all (bytes ∷ packets) r =
    let (digit, r) = receive bytes r in
    let (digits, r) = receive_all packets r in (cons_some digit digits, r)

telephone_packet-WellFormed :
    (s : DtmfSender) (digit : DtmfDigit) (samples timestamp count k : ℕ)
    → s.payload_type < 128
    → s.ssrc < 4294967296
    → timestamp < 4294967296
    → WellFormed (telephone_packet s digit samples timestamp count k)
unfolding new with_marker with_payload
telephone_packet-WellFormed s digit samples timestamp count k ht hs hi = record {
  version_two = refl;
  no_padding = refl;
  extension_flag = refl;
  payload_type_fits = ht;
  sequence_fits = omega arith;
  timestamp_fits = hi;
  ssrc_fits = hs;
  csrc_count = omega arith;
  csrc_fit = tt;
  extension_fits = tt;
}

decode-event_at :
    (digit : DtmfDigit) (samples i : ℕ) (is_last : Bool)
    → decode (encode (event_at digit samples i is_last)) ≡ some (event_at digit samples i is_last)
unfolding encode event_at new_event with_end
decode-event_at digit samples i true =
    decode-encode (event_at digit samples i true) [] (omega arith) (omega arith)
decode-event_at digit samples i false =
    decode-encode (event_at digit samples i false) [] (omega arith) (omega arith)

process_packet-encode :
    (event : DtmfEvent) (payload_type : ℕ) (r : DtmfReceiver)
    → payload_type ≡ r.payload_type
    → decode (encode event) ≡ some event
    → process_packet payload_type (encode event) r ≡ process_event event r
unfolding process_packet
process_packet-encode event payload_type r hr hd =
    rw ((==_iff payload_type r.payload_type).1 hr, hd) refl

receive_one :
    (s : DtmfSender) (digit : DtmfDigit) (samples timestamp count k : ℕ) (r : DtmfReceiver)
    → s.payload_type < 128
    → s.ssrc < 4294967296
    → timestamp < 4294967296
    → s.payload_type ≡ r.payload_type
    → receive (build (telephone_packet s digit samples timestamp count k)) r
      ≡ process_event (event_at digit samples (min k (count - 1)) (leb (count - 1) k)) r
unfolding new with_marker with_payload
receive_one s digit samples timestamp count k r ht hs hi hr =
    ap (λ o. receive_parsed o r)
      (parse-build (telephone_packet s digit samples timestamp count k)
        (telephone_packet-WellFormed s digit samples timestamp count k ht hs hi))
    ∙ process_packet-encode _ s.payload_type r hr
        (decode-event_at digit samples (min k (count - 1)) (leb (count - 1) k))

event_code_injective : (a b : DtmfDigit) → event_code a ≡ event_code b → a ≡ b
event_code_injective a b h =
    let same : some a ≡ some b =
      sym (from_event_code-event_code a) ∙ (ap from_event_code h ∙ from_event_code-event_code b) in
    cc

-- The receiver when a digit has ended.
abbrev pub ended : DtmfDigit → DtmfReceiver → DtmfReceiver
ended digit r = record r { current_event = none; last_event = some digit }

abbrev pub reported : Bool → DtmfDigit → List DtmfDigit
reported suppressed digit = if suppressed then [] else (digit ∷ [])

is_last_same :
    (last : Option DtmfDigit) (digit : DtmfDigit) → is_last last digit ≡ true → last ≡ some digit
is_last_same none digit h = absurd (ground arith)
is_last_same (some last) digit h = ap some (event_code_injective last digit ((==_iff _ _).0 h))

process_end :
    (digit : DtmfDigit) (samples i : ℕ) (r : DtmfReceiver)
    → process_event (event_at digit samples i true) r
      ≡ (if is_last r.last_event digit then none else some digit, ended digit r)
unfolding process_event event_at new_event with_end
process_end digit samples i r = elim (Bool-cases (is_last r.last_event digit)) [
  | inl same ↦ rw same (
      ap (λ l. (none, record r { current_event = none; last_event = l }))
        (is_last_same r.last_event digit same))
  | inr other ↦ rw other refl
]

process_progress :
    (digit : DtmfDigit) (samples i : ℕ) (r : DtmfReceiver)
    → process_event (event_at digit samples i false) r
      ≡ (none, record r { current_event = some (digit, 0); last_event = none })
unfolding process_event event_at new_event
process_progress digit samples i r = refl

is_last-ended : (digit : DtmfDigit) → is_last (some digit) digit ≡ true
is_last-ended digit = (==_iff (event_code digit) (event_code digit)).1 refl

receive_all-cons :
    (bytes : List ℕ) (packets : List (List ℕ)) (r : DtmfReceiver) {d : Option DtmfDigit}
    {r1 r2 : DtmfReceiver} {ds : List DtmfDigit}
    → receive bytes r ≡ (d, r1)
    → receive_all packets r1 ≡ (ds, r2)
    → receive_all (bytes ∷ packets) r ≡ (cons_some d ds, r2)
receive_all-cons bytes packets r {d = d} hd hs =
    ap (λ x. let later = receive_all packets x.1 in (cons_some x.0 later.0, later.1)) hd
    ∙ ap (λ y. (cons_some d y.0, y.1)) hs

module _ (s : DtmfSender) (digit : DtmfDigit) (samples timestamp count : ℕ)
    (type_fits : s.payload_type < 128) (ssrc_fits : s.ssrc < 4294967296)
    (timestamp_fits : timestamp < 4294967296) where
  receive_end :
      (k : ℕ) (r : DtmfReceiver)
      → s.payload_type ≡ r.payload_type
      → count - 1 ≤ k
      → receive (build (telephone_packet s digit samples timestamp count k)) r
        ≡ (if is_last r.last_event digit then none else some digit, ended digit r)
  receive_end k r hr hk =
      let last : leb (count - 1) k ≡ true = ground arith in
      receive_one s digit samples timestamp count k r type_fits ssrc_fits timestamp_fits hr
      ∙ (ap (λ b. process_event (event_at digit samples (min k (count - 1)) b) r) last
          ∙ process_end digit samples (min k (count - 1)) r)

  receive_progress :
      (k : ℕ) (r : DtmfReceiver)
      → s.payload_type ≡ r.payload_type
      → k < count - 1
      → receive (build (telephone_packet s digit samples timestamp count k)) r
        ≡ (none, record r { current_event = some (digit, 0); last_event = none })
  receive_progress k r hr hk =
      let earlier : leb (count - 1) k ≡ false = ground arith in
      receive_one s digit samples timestamp count k r type_fits ssrc_fits timestamp_fits hr
      ∙ (ap (λ b. process_event (event_at digit samples (min k (count - 1)) b) r) earlier
          ∙ process_progress digit samples (min k (count - 1)) r)

  -- The packets after the end: only the first can report the digit.
  receive_ends :
      (n k : ℕ) (r : DtmfReceiver)
      → s.payload_type ≡ r.payload_type
      → count - 1 ≤ k
      → receive_all (map build (telephone_packets s digit samples timestamp count k (suc n))) r
        ≡ (reported (is_last r.last_event digit) digit, ended digit r)
  receive_ends zero k r hr hk = elim (Bool-cases (is_last r.last_event digit)) [
    | inl same ↦ rw (receive_end k r hr hk, same) refl
    | inr other ↦ rw (receive_end k r hr hk, other) refl
  ]
  receive_ends (suc n) k r hr hk =
      let again = receive_ends n (k + 1) (ended digit r) hr (omega arith) in
      let both =
        receive_all-cons (build (telephone_packet s digit samples timestamp count k))
          (map build (telephone_packets s digit samples timestamp count (k + 1) (suc n))) r
          (receive_end k r hr hk) again in
      elim (Bool-cases (is_last r.last_event digit)) [
        | inl same ↦ both ∙ rw (is_last-ended digit, same) refl
        | inr other ↦ both ∙ rw (is_last-ended digit, other) refl
      ]

  receive_packets :
      (m k : ℕ) (r : DtmfReceiver)
      → s.payload_type ≡ r.payload_type
      → k + suc m ≡ count
      → receive_all
          (map build (telephone_packets s digit samples timestamp count k (suc (suc (suc m)))))
          r
        ≡ (reported ((m == 0) && is_last r.last_event digit) digit, ended digit r)
  receive_packets zero k r hr hk = receive_ends 2 k r hr (omega arith)
  receive_packets (suc m) k r hr hk =
      let later =
        receive_packets m (k + 1) (record r { current_event = some (digit, 0); last_event = none })
          hr (omega arith) in
      let shown : reported ((m == 0) && is_last none digit) digit ≡ digit ∷ [] = ground arith in
      let first : (suc m == 0) ≡ false = ground arith in
      receive_all-cons (build (telephone_packet s digit samples timestamp count k))
        (map build (telephone_packets s digit samples timestamp count (k + 1) (suc (suc (suc m)))))
        r (receive_progress k r hr (omega arith)) later
      ∙ rw (shown, first) refl

packet_count_positive : (rate duration_ms : ℕ) → 1 ≤ packet_count rate duration_ms
unfolding packet_count
packet_count_positive rate duration_ms = omega arith

-- A digit sent with `generate_packets` at a sample rate of at least 20 Hz, its packets received in order
-- without loss, is reported exactly once, unless it takes a single round and the receiver still holds
-- the same digit as its last: then it is not reported at all.
pub digit_delivered :
    (digit : DtmfDigit) (duration_ms timestamp : ℕ) (s : DtmfSender) (r : DtmfReceiver)
    → s.payload_type < 128
    → s.sequence < 65536
    → s.ssrc < 4294967296
    → timestamp < 4294967296
    → 20 ≤ s.sample_rate
    → s.payload_type ≡ r.payload_type
    → let count = packet_count s.sample_rate duration_ms in
      (packets : List (List ℕ)) × (generate_packets digit duration_ms timestamp s
        ≡ some (packets, after (count + 2) s))
      × (receive_all packets r
          ≡ (reported ((count == 1) && is_last r.last_event digit) digit, ended digit r))
digit_delivered digit duration_ms timestamp s r ht hs hi ho hr hp =
    let count = packet_count s.sample_rate duration_ms in
    let some_round : 1 ≤ count = packet_count_positive s.sample_rate duration_ms in
    let samples = s.sample_rate / 20 in
    (
      map build (telephone_packets s digit samples timestamp count 0 (count + 2)),
      generate_packets-telephone digit duration_ms timestamp s ht hs hr,
      let received =
            receive_packets s digit samples timestamp count ht hi ho (count - 1) 0 r hp
              (omega arith) in
          let all : suc (suc (suc (count - 1))) ≡ count + 2 = omega arith in
          let single : (count - 1 == 0) ≡ (count == 1) = ground arith in
          rw (sym all, sym single) received,
    )
