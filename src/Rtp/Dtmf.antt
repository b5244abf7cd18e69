-- ===== src/Rtp/Dtmf.antt =====
-- DTMF digits and telephone events (RFC 4733), crates/rsiprtp/src/rtp/dtmf.rs. A `char` is its code
-- point.
pub mod Sender
pub mod Receiver
pub mod Codes
pub mod Stream
pub mod Described
pub mod Delivery
mod Examples
use Prim.Native.Nat.{bit_or}
use rsiprtp.Common.{
  ℕ, zero, suc, ◌+◌, ◌-◌, ◌*◌, ◌/◌, ◌%◌, List, [], ◌∷◌, ◌++◌, Bool, true, false, ◌||◌, Option, none,
  some, ltb, leb, ◌==◌, if◌then◌else◌, length, min, be16, be32, from_be16,
}

pub data DtmfDigit : Type 0 where
  digit_zero one two three four five six seven eight nine star pound digit_a digit_b digit_c
        digit_d :
      DtmfDigit

unfoldable pub event_code : DtmfDigit → ℕ
event_code digit_zero = 0
event_code one = 1
event_code two = 2
event_code three = 3
event_code four = 4
event_code five = 5
event_code six = 6
event_code seven = 7
event_code eight = 8
event_code nine = 9
event_code star = 10
event_code pound = 11
event_code digit_a = 12
event_code digit_b = 13
event_code digit_c = 14
event_code digit_d = 15

unfoldable pub from_event_code : ℕ → Option DtmfDigit
from_event_code code =
    if code == 0
    then some digit_zero
    else if code == 1
    then some one
    else if code == 2
    then some two
    else if code == 3
    then some three
    else if code == 4
    then some four
    else if code == 5
    then some five
    else if code == 6
    then some six
    else if code == 7
    then some seven
    else if code == 8
    then some eight
    else if code == 9
    then some nine
    else if code == 10
    then some star
    else if code == 11
    then some pound
    else if code == 12
    then some digit_a
    else if code == 13
    then some digit_b
    else if code == 14
    then some digit_c
    else if code == 15
    then some digit_d
    else none

unfoldable pub from_char : ℕ → Option DtmfDigit
from_char c =
    if c == b'0'
    then some digit_zero
    else if c == b'1'
    then some one
    else if c == b'2'
    then some two
    else if c == b'3'
    then some three
    else if c == b'4'
    then some four
    else if c == b'5'
    then some five
    else if c == b'6'
    then some six
    else if c == b'7'
    then some seven
    else if c == b'8'
    then some eight
    else if c == b'9'
    then some nine
    else if c == b'*'
    then some star
    else if c == b'#'
    then some pound
    else if (c == b'A') || (c == b'a')
    then some digit_a
    else if (c == b'B') || (c == b'b')
    then some digit_b
    else if (c == b'C') || (c == b'c')
    then some digit_c
    else if (c == b'D') || (c == b'd')
    then some digit_d
    else none

unfoldable pub as_char : DtmfDigit → ℕ
as_char digit_zero = b'0'
as_char one = b'1'
as_char two = b'2'
as_char three = b'3'
as_char four = b'4'
as_char five = b'5'
as_char six = b'6'
as_char seven = b'7'
as_char eight = b'8'
as_char nine = b'9'
as_char star = b'*'
as_char pound = b'#'
as_char digit_a = b'A'
as_char digit_b = b'B'
as_char digit_c = b'C'
as_char digit_d = b'D'

pub record DtmfEvent : Type 0 where
  pub digit : DtmfDigit
  pub end : Bool
  pub volume : ℕ  -- u8
  pub duration : ℕ  -- u16

-- `DtmfEvent::new`.
unfoldable pub new_event : DtmfDigit → ℕ → DtmfEvent
new_event digit duration = record { digit = digit; end = false; volume = 10; duration = duration }

unfoldable pub with_end : DtmfEvent → DtmfEvent
with_end e = record e { end = true }

unfoldable pub with_volume : ℕ → DtmfEvent → DtmfEvent
with_volume volume e = record e { volume = min volume 63 }

-- `volume & 0x3F` is `volume % 64`.
unfoldable pub encode : DtmfEvent → List ℕ
encode e =
    event_code e.digit
    ∷ bit_or (if e.end then 128 else 0) (e.volume % 64)
    ∷ (e.duration / 256 % 256)
    ∷ (e.duration % 256)
    ∷ []

unfoldable pub decode : List ℕ → Option DtmfEvent
decode (code ∷ flags ∷ high ∷ low ∷ rest) = elim (from_event_code code) [
  | none ↦ none
  | some digit ↦ some (record {
    digit = digit;
    end = flags / 128 % 2 == 1;
    volume = flags % 64;
    duration = from_be16 high low;
  })
]
decode _ = none
