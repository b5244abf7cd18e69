-- ===== src/Rtp/Packet/Total.antt =====
-- `parse` on any bytes: it never reads past the end, and what it returns accounts for the packet.
use rsiprtp.Common.{
  ℕ, zero, suc, ◌+◌, ◌-◌, ◌*◌, ◌/◌, ◌%◌, ◌≤◌, ◌<◌, ◌≡◌, refl, List, [], ◌∷◌, Bool, true, false,
  Option, none, some, ltb, ◌==◌, length, length-take, length-drop, take, drop, arith, Bool-cases,
  inl, inr, ◌⊎◌, from_be16, from_be32, get_or,
}
use rsiprtp.Rtp.Packet.{
  ExtensionHeader, RtpPacket, RtpParseError, too_short, invalid_version, extension_truncated,
  payload_truncated, ok, err, get_csrc, get_extension, get_payload_len, slice_to, parse, words_of,
  header_size,
}

-- What the readers of the variable part take from the buffer.
get_csrc_ok :
    (n : ℕ) (buf : List ℕ)
    → n * 4 ≤ length buf
    → (cs : List ℕ) × (rest : List ℕ) × (get_csrc n buf ≡ ok (cs, rest))
      × (length cs ≡ n)
      × (length rest + n * 4 ≡ length buf)
unfolding get_csrc
get_csrc_ok zero buf h = ([], buf, refl, refl, omega arith)
get_csrc_ok (suc n) [] h = absurd (omega arith)
get_csrc_ok (suc n) (a ∷ []) h = absurd (omega arith)
get_csrc_ok (suc n) (a ∷ b ∷ []) h = absurd (omega arith)
get_csrc_ok (suc n) (a ∷ b ∷ c ∷ []) h = absurd (omega arith)
get_csrc_ok (suc n) (a ∷ b ∷ c ∷ d ∷ buf) h =
    let (cs, rest, e, l, r) = get_csrc_ok n buf (omega arith) in
    (from_be32 a b c d ∷ cs, rest, rw e refl, omega (arith, l), omega (arith, r))

abbrev pub extension_size : Option ExtensionHeader → ℕ
extension_size none = 0
extension_size (some e) = 4 + words_of (length e.payload) * 4

get_extension_cases :
    (x : Bool) (buf : List ℕ)
    → (get_extension x buf ≡ err extension_truncated)
      ⊎ ((e : Option ExtensionHeader) × (rest : List ℕ) × (get_extension x buf ≡ ok (e, rest))
          × (length rest + extension_size e ≡ length buf))
unfolding get_extension
get_extension_cases false buf = inr (none, buf, refl, omega arith)
get_extension_cases true [] = inl refl
get_extension_cases true (a ∷ []) = inl refl
get_extension_cases true (a ∷ b ∷ []) = inl refl
get_extension_cases true (a ∷ b ∷ c ∷ []) = inl refl
get_extension_cases true (a ∷ b ∷ c ∷ d ∷ buf) =
    let size = from_be16 c d * 4 in
    elim (Bool-cases (ltb (length buf) size)) [
      | inl short ↦ inl (ground arith)
      | inr long ↦ inr (
        some (record { profile = from_be16 a b; payload = take size buf }),
        drop size buf,
        ground arith,
        ground (arith, length-take size buf, length-drop size buf),
      )
    ]

get_payload_len_cases :
    (padding : Bool) (first : ℕ) (bytes buf : List ℕ)
    → (get_payload_len padding (first ∷ bytes) buf ≡ err payload_truncated)
      ⊎ ((n : ℕ) × (get_payload_len padding (first ∷ bytes) buf ≡ ok n)
          × (n ≤ length buf)
          × (padding ≡ false → n ≡ length buf))
unfolding get_payload_len
get_payload_len_cases false first bytes buf = inr (length buf, refl, omega arith, λ e. refl)
get_payload_len_cases true first bytes [] = inr (0, refl, omega arith, λ e. refl)
get_payload_len_cases true first bytes (b ∷ buf) =
    let last = get_or (first ∷ bytes) (length bytes) 0 in
    elim (Bool-cases (ltb (length (b ∷ buf)) last)) [
      | inl short ↦ inl (ground arith)
      | inr long ↦ inr (length (b ∷ buf) - last, ground arith, omega arith, λ e. cc)
    ]

slice_to_ok : (n : ℕ) (buf : List ℕ) → n ≤ length buf → slice_to n buf ≡ ok (take n buf)
slice_to_ok n buf h = ground arith

-- How a packet that `parse` returns accounts for the bytes it was read from.
pub record Accounts (bytes : List ℕ) (p : RtpPacket) : Type 0 where
  pub version_two : p.version ≡ 2
  pub within : header_size p + length p.payload ≤ length bytes
  pub exact : p.padding ≡ false → header_size p + length p.payload ≡ length bytes
  pub type_fits : p.payload_type < 128
  pub csrc_fits : length p.csrc ≤ 15

abbrev Parsed : List ℕ → Type 0
Parsed bytes =
    ((e : RtpParseError) × (parse bytes ≡ err e))
    ⊎ ((p : RtpPacket) × (parse bytes ≡ ok p) × Accounts bytes p)

Parsed-long :
    (b0 b1 s0 s1 t0 t1 t2 t3 r0 r1 r2 r3 : ℕ) (rest : List ℕ)
    → Parsed (b0 ∷ b1 ∷ s0 ∷ s1 ∷ t0 ∷ t1 ∷ t2 ∷ t3 ∷ r0 ∷ r1 ∷ r2 ∷ r3 ∷ rest)
unfolding parse header_size
Parsed-long b0 b1 s0 s1 t0 t1 t2 t3 r0 r1 r2 r3 rest = elim (Bool-cases (b0 / 64 % 4 == 2)) [
  | inr other ↦ inl (invalid_version (b0 / 64 % 4), ground arith)
  | inl two ↦ elim (Bool-cases (ltb (length rest) (b0 % 16 * 4))) [
    | inl short ↦ inl (too_short (12 + length rest), ground arith)
    | inr long ↦
        let (cs, rest1, got, l, r) = get_csrc_ok (b0 % 16) rest (ground arith) in
        elim (get_extension_cases (b0 / 16 % 2 == 1) rest1) [
          | inl cut ↦ inl (extension_truncated, ground arith)
          | inr (e, rest2, read, size) ↦
              elim (get_payload_len_cases (b0 / 32 % 2 == 1) b0
                (b1 ∷ s0 ∷ s1 ∷ t0 ∷ t1 ∷ t2 ∷ t3 ∷ r0 ∷ r1 ∷ r2 ∷ r3 ∷ rest) rest2) [
                  | inl over ↦ inl (payload_truncated, ground arith)
                  | inr (n, known, fits, all) ↦ inr (
                    record {
                      version = b0 / 64 % 4;
                      padding = b0 / 32 % 2 == 1;
                      extension = b0 / 16 % 2 == 1;
                      marker = b1 / 128 % 2 == 1;
                      payload_type = b1 % 128;
                      sequence_number = from_be16 s0 s1;
                      timestamp = from_be32 t0 t1 t2 t3;
                      ssrc = from_be32 r0 r1 r2 r3;
                      csrc = cs;
                      extension_header = e;
                      payload = take n rest2;
                    },
                    ground (arith, slice_to_ok n rest2),
                    record {
                      version_two = ground arith;
                      within = ground (arith, length-take n rest2);
                      exact = λ k. ground (arith, length-take n rest2, all k);
                      type_fits = omega arith;
                      csrc_fits = omega (arith, l);
                    },
                  )
                ]
        ]
  ]
]

-- `parse` on any bytes returns an error or a packet: no read, no slice and no subtraction of lengths goes
-- past the end. A packet that it returns has version 2, a payload type below 128 and at most 15 CSRC
-- identifiers; its header and payload lie within the bytes, and make up all of them if the packet has no
-- padding.
pub parse-Accounts :
    (bytes : List ℕ)
    → ((e : RtpParseError) × (parse bytes ≡ err e))
      ⊎ ((p : RtpPacket) × (parse bytes ≡ ok p) × Accounts bytes p)
unfolding parse
parse-Accounts (b0 ∷ b1 ∷ s0 ∷ s1 ∷ t0 ∷ t1 ∷ t2 ∷ t3 ∷ r0 ∷ r1 ∷ r2 ∷ r3 ∷ rest) =
    Parsed-long b0 b1 s0 s1 t0 t1 t2 t3 r0 r1 r2 r3 rest
parse-Accounts bytes = inl (too_short (length bytes), refl)
