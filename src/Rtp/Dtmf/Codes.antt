-- ===== src/Rtp/Dtmf/Codes.antt =====
-- The digits and their codes and characters, and events and their four bytes.
use Prim.Native.Nat.{bit_or}
use rsiprtp.Common.{
  ℕ, ◌+◌, ◌%◌, ◌<◌, ◌≡◌, ◌∙◌, refl, List, ◌++◌, Bool, true, false, some, ◌==◌, ==_iff,
  if◌then◌else◌, from_be16-be16, every_below, every_below-row, arith,
}
use rsiprtp.Rtp.Dtmf.{
  DtmfDigit, digit_zero, one, two, three, four, five, six, seven, eight, nine, star, pound, digit_a,
  digit_b, digit_c, digit_d, event_code, from_event_code, from_char, as_char, DtmfEvent, encode,
  decode,
}

pub from_event_code-event_code : (d : DtmfDigit) → from_event_code (event_code d) ≡ some d
unfolding from_event_code event_code
from_event_code-event_code digit_zero = refl
from_event_code-event_code one = refl
from_event_code-event_code two = refl
from_event_code-event_code three = refl
from_event_code-event_code four = refl
from_event_code-event_code five = refl
from_event_code-event_code six = refl
from_event_code-event_code seven = refl
from_event_code-event_code eight = refl
from_event_code-event_code nine = refl
from_event_code-event_code star = refl
from_event_code-event_code pound = refl
from_event_code-event_code digit_a = refl
from_event_code-event_code digit_b = refl
from_event_code-event_code digit_c = refl
from_event_code-event_code digit_d = refl

from_char-as_char : (d : DtmfDigit) → from_char (as_char d) ≡ some d
unfolding from_char as_char
from_char-as_char digit_zero = refl
from_char-as_char one = refl
from_char-as_char two = refl
from_char-as_char three = refl
from_char-as_char four = refl
from_char-as_char five = refl
from_char-as_char six = refl
from_char-as_char seven = refl
from_char-as_char eight = refl
from_char-as_char nine = refl
from_char-as_char star = refl
from_char-as_char pound = refl
from_char-as_char digit_a = refl
from_char-as_char digit_b = refl
from_char-as_char digit_c = refl
from_char-as_char digit_d = refl

code_unique : (n : ℕ) (d : DtmfDigit) → from_event_code n ≡ some d → event_code d ≡ n
unfolding from_event_code event_code
code_unique n d h = ground arith

-- Every digit is read back from its character, and a code that reads as a digit is the code of that
-- digit.
pub digits_round_trip :
    (d : DtmfDigit)
    → (from_char (as_char d) ≡ some d)
      × (from_event_code (event_code d) ≡ some d)
      × ((n : ℕ) → from_event_code n ≡ some d → event_code d ≡ n)
digits_round_trip d = (from_char-as_char d, from_event_code-event_code d, λ n. code_unique n d)

flags_row :
    (e : Bool) (v : ℕ)
    → v < 64
    → bit_or (if e then 128 else 0) (v % 64) ≡ (if e then 128 else 0) + v
unfolding every_below
flags_row false v h =
    (==_iff _ _).0 (every_below-row (λ v. bit_or 0 (v % 64) == v) 64 v refl h) ∙ omega arith
flags_row true v h =
    (==_iff _ _).0 (every_below-row (λ v. bit_or 128 (v % 64) == 128 + v) 64 v refl h) ∙ omega arith

-- An event whose volume fits in 6 bits and whose duration fits in 16 is decoded from the bytes it is
-- encoded as, whatever follows them.
pub decode-encode :
    (e : DtmfEvent) (rest : List ℕ)
    → e.volume < 64
    → e.duration < 65536
    → decode (encode e ++ rest) ≡ some e
unfolding decode encode
decode-encode e rest hv hd = ground (
  arith,
  from_event_code-event_code e.digit,
  flags_row e.end e.volume hv,
  from_be16-be16 e.duration hd,
)
