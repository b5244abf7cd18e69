-- ===== src/Rtp/Packet/RoundTrip.antt =====
-- `parse` reads back what `build` wrote.
use rsiprtp.Common.{
  ℕ, suc, ◌+◌, ◌-◌, ◌*◌, ◌/◌, ◌%◌, ◌≤◌, ◌<◌, ◌≡◌, ◌∙◌, refl, List, [], ◌∷◌, ◌++◌, Bool, true, false,
  Option, none, some, ltb, ◌==◌, ==_iff, length, length-append, length-replicate,
  take-append-length, drop-append-length, take-length, All, replicate, from_be16, from_be32,
  from_be16-be16, from_be32-be32, every_below, every_below-row, arith,
}
use rsiprtp.Rtp.Packet.{
  ExtensionHeader, RtpPacket, ok, get_csrc, get_extension, get_payload_len, slice_to, parse, flag,
  is_some, first_byte, second_byte, put_csrc, put_extension, build, words_of,
}

-- An extension is sent in whole 32-bit words.
abbrev pub pad_words : List ℕ → List ℕ
pad_words bytes = bytes ++ replicate (words_of (length bytes) * 4 - length bytes) 0

abbrev pub pad_extension : Option ExtensionHeader → Option ExtensionHeader
pad_extension none = none
pad_extension (some e) = some (record e { payload = pad_words e.payload })

abbrev pub ExtensionFits : Option ExtensionHeader → Type 0
ExtensionFits none = Unit {0}
ExtensionFits (some e) = (e.profile < 65536) × (length e.payload ≤ 262140)

pub record WellFormed (p : RtpPacket) : Type 0 where
  pub version_two : p.version ≡ 2
  pub no_padding : p.padding ≡ false
  pub extension_flag : p.extension ≡ is_some p.extension_header
  pub payload_type_fits : p.payload_type < 128
  pub sequence_fits : p.sequence_number < 65536
  pub timestamp_fits : p.timestamp < 4294967296
  pub ssrc_fits : p.ssrc < 4294967296
  pub csrc_count : length p.csrc ≤ 15
  pub csrc_fit : All (λ c. c < 4294967296) p.csrc
  pub extension_fits : ExtensionFits p.extension_header

first_byte_row : (x : Bool) (c : ℕ) → c < 16 → first_byte 2 false x c ≡ 128 + flag x * 16 + c
unfolding every_below first_byte
first_byte_row false c h =
    (==_iff _ _).0 (every_below-row (λ c. first_byte 2 false false c == 128 + c) 16 c refl h)
    ∙ omega arith
first_byte_row true c h =
    (==_iff _ _).0 (every_below-row (λ c. first_byte 2 false true c == 144 + c) 16 c refl h)
    ∙ omega arith

second_byte_row : (m : Bool) (t : ℕ) → t < 128 → second_byte m t ≡ flag m * 128 + t
unfolding every_below second_byte
second_byte_row false t h =
    (==_iff _ _).0 (every_below-row (λ t. second_byte false t == t) 128 t refl h) ∙ omega arith
second_byte_row true t h =
    (==_iff _ _).0 (every_below-row (λ t. second_byte true t == 128 + t) 128 t refl h) ∙ omega arith

get_csrc-put_csrc :
    (cs rest : List ℕ)
    → All (λ c. c < 4294967296) cs
    → get_csrc (length cs) (put_csrc cs ++ rest) ≡ ok (cs, rest)
unfolding get_csrc put_csrc
get_csrc-put_csrc [] rest h = refl
get_csrc-put_csrc (c ∷ cs) rest h = rw (get_csrc-put_csrc cs rest h.1, from_be32-be32 c h.0) refl

pub length-put_csrc : (cs : List ℕ) → length (put_csrc cs) ≡ length cs * 4
unfolding put_csrc
length-put_csrc [] = refl
length-put_csrc (c ∷ cs) = omega (arith, length-put_csrc cs)

length-pad_words : (bytes : List ℕ) → length (pad_words bytes) ≡ words_of (length bytes) * 4
length-pad_words bytes = omega (
  arith,
  length-append bytes (replicate (words_of (length bytes) * 4 - length bytes) 0),
  length-replicate {A = ℕ} (words_of (length bytes) * 4 - length bytes) 0,
)

read_extension :
    (profile words : ℕ) (xs rest : List ℕ)
    → profile < 65536
    → words < 65536
    → length xs ≡ words * 4
    → get_extension true (
        (profile / 256 % 256)
        ∷ (profile % 256)
        ∷ (words / 256 % 256)
        ∷ (words % 256)
        ∷ (xs ++ rest))
      ≡ ok (some (record { profile = profile; payload = xs }), rest)
unfolding get_extension
read_extension profile words xs rest hp hw hl =
    rw (from_be16-be16 profile hp, from_be16-be16 words hw)
      (ground (
        arith,
        length-append xs rest,
        take-append-length (words * 4) xs rest,
        drop-append-length (words * 4) xs rest,
      ))

get_extension-put_extension :
    (e : Option ExtensionHeader) (rest : List ℕ)
    → ExtensionFits e
    → get_extension (is_some e) (put_extension e ++ rest) ≡ ok (pad_extension e, rest)
unfolding put_extension
get_extension-put_extension none rest h = unfold get_extension in refl
get_extension-put_extension (some e) rest h =
    read_extension e.profile (words_of (length e.payload) % 65536) (pad_words e.payload) rest h.0
      (omega arith) (omega (arith, length-pad_words e.payload))

get_payload_len-unpadded : (bytes buf : List ℕ) → get_payload_len false bytes buf ≡ ok (length buf)
unfolding get_payload_len
get_payload_len-unpadded bytes buf = refl

slice_to-length : (buf : List ℕ) → slice_to (length buf) buf ≡ ok buf
slice_to-length buf = ground (arith, take-length buf)

first_byte_fields :
    (x : Bool) (c : ℕ)
    → c < 16
    → ((128 + flag x * 16 + c) / 64 % 4 ≡ 2)
      × (((128 + flag x * 16 + c) / 32 % 2 == 1) ≡ false)
      × (((128 + flag x * 16 + c) / 16 % 2 == 1) ≡ x)
      × ((128 + flag x * 16 + c) % 16 ≡ c)
first_byte_fields false c h = (ground arith, ground arith, ground arith, ground arith)
first_byte_fields true c h = (ground arith, ground arith, ground arith, ground arith)

second_byte_fields :
    (m : Bool) (t : ℕ)
    → t < 128
    → (((flag m * 128 + t) / 128 % 2 == 1) ≡ m) × ((flag m * 128 + t) % 128 ≡ t)
second_byte_fields false t h = (ground arith, ground arith)
second_byte_fields true t h = (ground arith, ground arith)

not_short :
    (n : ℕ)
    → ltb (suc (suc (suc (suc (suc (suc (suc (suc (suc (suc (suc (suc n)))))))))))) 12 ≡ false
not_short n = ground arith

ltb-false : (a b : ℕ) → b ≤ a → ltb a b ≡ false
ltb-false a b h = ground arith

-- `parse` on a packet of version 2 with no padding, given its parts.
parse_parts :
    (x m : Bool) (c t s0 s1 t0 t1 t2 t3 r0 r1 r2 r3 : ℕ) (rest rest1 rest2 cs : List ℕ)
    (e : Option ExtensionHeader)
    → c < 16
    → t < 128
    → c * 4 ≤ length rest
    → get_csrc c rest ≡ ok (cs, rest1)
    → get_extension x rest1 ≡ ok (e, rest2)
    → parse (
        (128 + flag x * 16 + c)
        ∷ (flag m * 128 + t)
        ∷ s0
        ∷ s1
        ∷ t0
        ∷ t1
        ∷ t2
        ∷ t3
        ∷ r0
        ∷ r1
        ∷ r2
        ∷ r3
        ∷ rest)
      ≡ ok (record {
        version = 2;
        padding = false;
        extension = x;
        marker = m;
        payload_type = t;
        sequence_number = from_be16 s0 s1;
        timestamp = from_be32 t0 t1 t2 t3;
        ssrc = from_be32 r0 r1 r2 r3;
        csrc = cs;
        extension_header = e;
        payload = rest2;
      })
unfolding parse
parse_parts x m c t s0 s1 t0 t1 t2 t3 r0 r1 r2 r3 rest rest1 rest2 cs e hc ht fits got_csrc
      got_extension =
    let (two, unpadded, extended, count) = first_byte_fields x c hc in
    let (marked, type) = second_byte_fields m t ht in
    rw
      (
        not_short (length rest),
        two,
        unpadded,
        extended,
        count,
        marked,
        type,
        ltb-false (length rest) (c * 4) fits,
        got_csrc,
        got_extension,
        get_payload_len-unpadded,
        slice_to-length,
      )
      refl

-- A well-formed packet, as `build` sends it, is read back by `parse`: every field as it was, but the
-- extension data filled up with zeros to whole 32-bit words.
pub parse-build :
    (p : RtpPacket)
    → WellFormed p
    → parse (build p) ≡ ok (record p { extension_header = pad_extension p.extension_header })
unfolding build
parse-build p h =
    let tail = put_extension p.extension_header ++ p.payload in
    let x = is_some p.extension_header in
    let bytes = put_csrc p.csrc ++ tail in
    let room : length p.csrc * 4 ≤ length bytes =
      omega (arith, length-append (put_csrc p.csrc) tail, length-put_csrc p.csrc) in
    let parts =
      parse_parts x p.marker (length p.csrc) p.payload_type (p.sequence_number / 256 % 256)
        (p.sequence_number % 256) (p.timestamp / 16777216 % 256) (p.timestamp / 65536 % 256)
        (p.timestamp / 256 % 256) (p.timestamp % 256) (p.ssrc / 16777216 % 256)
        (p.ssrc / 65536 % 256) (p.ssrc / 256 % 256) (p.ssrc % 256) bytes tail p.payload p.csrc
        (pad_extension p.extension_header) (omega arith) h.payload_type_fits room
        (get_csrc-put_csrc p.csrc tail h.csrc_fit)
        (get_extension-put_extension p.extension_header p.payload h.extension_fits) in
    ground (
      arith,
      parts,
      first_byte_row x (length p.csrc),
      second_byte_row p.marker p.payload_type,
      from_be16-be16 p.sequence_number,
      from_be32-be32 p.timestamp,
      from_be32-be32 p.ssrc,
    )
