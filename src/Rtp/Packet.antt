-- ===== src/Rtp/Packet.antt =====
-- RTP packets, crates/rsiprtp/src/rtp/packet.rs. A byte is a number below 256.
pub mod RoundTrip
pub mod Total
pub mod Size
mod Examples
use Prim.Native.Nat.{bit_or}
use rsiprtp.Common.{
  ℕ, zero, suc, ◌+◌, ◌-◌, ◌*◌, ◌/◌, ◌%◌, List, [], ◌∷◌, ◌++◌, Bool, true, false, not, ◌&&◌, Option,
  none, some, ltb, leb, ◌==◌, if◌then◌else◌, length, take, drop, get_or, replicate, be16, be32,
  from_be16, from_be32,
}

abbrev pub rtp_header_size : ℕ
rtp_header_size = 12

abbrev pub max_csrc : ℕ
max_csrc = 15

pub record ExtensionHeader : Type 0 where
  pub profile : ℕ  -- u16
  pub payload : List ℕ  -- `data`

pub record RtpPacket : Type 0 where
  pub version : ℕ  -- u8
  pub padding : Bool
  pub extension : Bool
  pub marker : Bool
  pub payload_type : ℕ  -- u8
  pub sequence_number : ℕ  -- u16
  pub timestamp : ℕ  -- u32
  pub ssrc : ℕ  -- u32
  pub csrc : List ℕ  -- u32 each
  pub extension_header : Option ExtensionHeader
  pub payload : List ℕ

pub data RtpParseError : Type 0 where
  too_short : ℕ → RtpParseError
  invalid_version : ℕ → RtpParseError
  extension_truncated payload_truncated : RtpParseError

-- `panic` is no Rust value: a read or a slice past the end of the buffer, or a length below 0.
pub data Outcome (A : Type 0) : Type 0 where
  ok : A → Outcome A
  err : RtpParseError → Outcome A
  panic : Outcome A

infixl 5 ◌>>=◌
abbrev pub ◌>>=◌ : {A B : Type 0} → Outcome A → (A → Outcome B) → Outcome B
ok a >>= f = f a
err e >>= f = err e
panic >>= f = panic

-- The readers of `bytes::Buf`, each with the rest of the buffer.
abbrev pub get_u8 : List ℕ → Outcome (ℕ × List ℕ)
get_u8 [] = panic
get_u8 (b ∷ buf) = ok (b, buf)

abbrev pub get_u16 : List ℕ → Outcome (ℕ × List ℕ)
get_u16 (a ∷ b ∷ buf) = ok (from_be16 a b, buf)
get_u16 _ = panic

abbrev pub get_u32 : List ℕ → Outcome (ℕ × List ℕ)
get_u32 (a ∷ b ∷ c ∷ d ∷ buf) = ok (from_be32 a b c d, buf)
get_u32 _ = panic

-- `&buf[..n]`, `buf.advance(n)` and `buf.remaining() - n`.
abbrev pub slice_to : ℕ → List ℕ → Outcome (List ℕ)
slice_to n buf = if leb n (length buf) then ok (take n buf) else panic

abbrev pub advance : ℕ → List ℕ → Outcome (List ℕ)
advance n buf = if leb n (length buf) then ok (drop n buf) else panic

abbrev pub remaining_less : ℕ → List ℕ → Outcome ℕ
remaining_less n buf = if leb n (length buf) then ok (length buf - n) else panic

unfoldable pub get_csrc : ℕ → List ℕ → Outcome (List ℕ × List ℕ)
get_csrc zero buf = ok ([], buf)
get_csrc (suc n) buf = do (c, buf) ← get_u32 buf; (cs, buf) ← get_csrc n buf; ok (c ∷ cs, buf)

unfoldable pub get_extension : Bool → List ℕ → Outcome (Option ExtensionHeader × List ℕ)
get_extension false buf = ok (none, buf)
get_extension true buf = if ltb (length buf) 4 then err extension_truncated else (do
  (profile, buf) ← get_u16 buf
  (words, buf) ← get_u16 buf
  let size = words * 4
  if ltb (length buf) size then err extension_truncated else (do
    ext_data ← slice_to size buf
    buf ← advance size buf
    ok (some (record { profile = profile; payload = ext_data }), buf)))

-- `data[data.len() - 1]`.
abbrev pub last_byte : List ℕ → Outcome ℕ
last_byte [] = panic
last_byte (b ∷ bytes) = ok (get_or (b ∷ bytes) (length bytes) 0)

-- How much of the rest is payload.
unfoldable pub get_payload_len : Bool → List ℕ → List ℕ → Outcome ℕ
get_payload_len padding bytes buf =
    if padding && ltb 0 (length buf)
    then (do
      padding_count ← last_byte bytes
      if ltb (length buf) padding_count
          then err payload_truncated
          else remaining_less padding_count buf)
    else ok (length buf)

-- `b >> 6 & 0x03` is `b / 64 % 4`, and so on.
unfoldable pub parse : List ℕ → Outcome RtpPacket
parse bytes = if ltb (length bytes) rtp_header_size then err (too_short (length bytes)) else (do
  (first_byte, buf) ← get_u8 bytes
  let version = first_byte / 64 % 4
  let padding = first_byte / 32 % 2 == 1
  let extension = first_byte / 16 % 2 == 1
  let csrc_count = first_byte % 16
  if not (version == 2) then err (invalid_version version) else (do
    (second_byte, buf) ← get_u8 buf
    let marker = second_byte / 128 % 2 == 1
    let payload_type = second_byte % 128
    (sequence_number, buf) ← get_u16 buf
    (timestamp, buf) ← get_u32 buf
    (ssrc, buf) ← get_u32 buf
    if ltb (length buf) (csrc_count * 4) then err (too_short (length bytes)) else (do
      (csrc, buf) ← get_csrc csrc_count buf
      (extension_header, buf) ← get_extension extension buf
      payload_len ← get_payload_len padding bytes buf
      payload ← slice_to payload_len buf
      ok (record {
        version = version;
        padding = padding;
        extension = extension;
        marker = marker;
        payload_type = payload_type;
        sequence_number = sequence_number;
        timestamp = timestamp;
        ssrc = ssrc;
        csrc = csrc;
        extension_header = extension_header;
        payload = payload;
      }))))

abbrev pub flag : Bool → ℕ
flag true = 1
flag false = 0

abbrev pub is_some : Option ExtensionHeader → Bool
is_some none = false
is_some (some e) = true

-- `version << 6`, the two flags, and the low half of the CSRC count as u8.
unfoldable pub first_byte : ℕ → Bool → Bool → ℕ → ℕ
first_byte version padding extension csrc_len =
    bit_or (bit_or (bit_or (version * 64 % 256) (flag padding * 32)) (flag extension * 16))
      (csrc_len % 256 % 16)

unfoldable pub second_byte : Bool → ℕ → ℕ
second_byte marker payload_type = bit_or (flag marker * 128) (payload_type % 128)

unfoldable pub put_csrc : List ℕ → List ℕ
put_csrc [] = []
put_csrc (c ∷ cs) = be32 c ++ put_csrc cs

-- `div_ceil(4)`.
abbrev pub words_of : ℕ → ℕ
words_of n = (n + 3) / 4

unfoldable pub put_extension : Option ExtensionHeader → List ℕ
put_extension none = []
put_extension (some e) =
    be16 e.profile
    ++ (be16 (words_of (length e.payload) % 65536)
        ++ (e.payload ++ replicate (words_of (length e.payload) * 4 - length e.payload) 0))

unfoldable pub build : RtpPacket → List ℕ
build p =
    first_byte p.version p.padding (is_some p.extension_header) (length p.csrc)
    ∷ second_byte p.marker p.payload_type
    ∷ (be16 p.sequence_number
        ++ (be32 p.timestamp
            ++ (be32 p.ssrc
                ++ (put_csrc p.csrc ++ (put_extension p.extension_header ++ p.payload)))))

-- `RtpPacket::new`.
unfoldable pub new : ℕ → ℕ → ℕ → ℕ → RtpPacket
new payload_type sequence_number timestamp ssrc = record {
  version = 2;
  padding = false;
  extension = false;
  marker = false;
  payload_type = payload_type;
  sequence_number = sequence_number;
  timestamp = timestamp;
  ssrc = ssrc;
  csrc = [];
  extension_header = none;
  payload = [];
}

unfoldable pub with_marker : Bool → RtpPacket → RtpPacket
with_marker marker p = record p { marker = marker }

unfoldable pub with_payload : List ℕ → RtpPacket → RtpPacket
with_payload payload p = record p { payload = payload }

unfoldable pub with_csrc : ℕ → RtpPacket → RtpPacket
with_csrc csrc p =
    if ltb (length p.csrc) max_csrc then record p { csrc = p.csrc ++ (csrc ∷ []) } else p

unfoldable pub header_size : RtpPacket → ℕ
header_size p =
    rtp_header_size
    + length p.csrc * 4
    + (elim p.extension_header [ none ↦ 0 | some e ↦ 4 + words_of (length e.payload) * 4 ])
