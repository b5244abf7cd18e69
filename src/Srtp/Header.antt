-- ===== src/Srtp/Header.antt =====
-- Lemmas on headers, tags and bytes.
use Prim.Native.Nat.{bit_or, bit_xor}
use rsiprtp.Common.{
  ℕ, zero, suc, ◌+◌, ◌*◌, ◌/◌, ◌%◌, ◌<◌, ◌≤◌, ◌≡◌, refl, ap, List, [], ◌∷◌, ◌++◌, true, ◌==◌,
  ==_iff, Bool-cases, inl, inr, All, length, take, drop, get_or, every_below, every_below-row,
  arith,
}
use rsiprtp.Srtp.Context.{ok, get_rtp_header_len, differences, constant_time_compare}

xor_self : (b : ℕ) → b < 256 → bit_or 0 (bit_xor b b) ≡ 0
unfolding every_below
xor_self b h = (==_iff _ _).0 (every_below-row (λ b. bit_or 0 (bit_xor b b) == 0) 256 b refl h)

differences_self : (bytes : List ℕ) → All (λ b. b < 256) bytes → differences 0 bytes bytes ≡ 0
unfolding differences
differences_self [] h = refl
differences_self (b ∷ bytes) (h, hs) = rw (xor_self b h) (differences_self bytes hs)

pub compare_self :
    (bytes : List ℕ) → All (λ b. b < 256) bytes → constant_time_compare bytes bytes ≡ true
unfolding constant_time_compare
compare_self bytes h =
    rw ((==_iff (length bytes) (length bytes)).1 refl, differences_self bytes h) refl

pub All-take : (n : ℕ) (xs : List ℕ) → All (λ b. b < 256) xs → All (λ b. b < 256) (take n xs)
All-take zero xs h = tt
All-take (suc n) [] h = tt
All-take (suc n) (x ∷ xs) (h, hs) = (h, All-take n xs hs)

pub take-drop : (n : ℕ) (xs : List ℕ) → take n xs ++ drop n xs ≡ xs
take-drop zero xs = refl
take-drop (suc n) [] = refl
take-drop (suc n) (x ∷ xs) = ap (λ l. x ∷ l) (take-drop n xs)

pub get_or-take :
    (n i : ℕ) (xs ys : List ℕ)
    → i < n
    → n ≤ length xs
    → get_or (take n xs ++ ys) i 0 ≡ get_or xs i 0
get_or-take zero i xs ys hi hn = absurd (omega arith)
get_or-take (suc n) i [] ys hi hn = absurd (omega arith)
get_or-take (suc n) zero (x ∷ xs) ys hi hn = refl
get_or-take (suc n) (suc i) (x ∷ xs) ys hi hn = get_or-take n i xs ys (omega arith) (omega arith)

-- What a header length that is found says of the packet.
abbrev fixed_len : List ℕ → ℕ
fixed_len rtp = 12 + get_or rtp 0 0 % 16 * 4

pub header_len_fits :
    (rtp : List ℕ) (h : ℕ)
    → get_rtp_header_len rtp ≡ ok h
    → (12 ≤ h) × (h ≤ length rtp) × ((get_or rtp 0 0 / 16 % 2 == 1) ≡ true → fixed_len rtp + 4 ≤ h)
unfolding get_rtp_header_len
header_len_fits rtp h e = (ground arith, ground arith, λ x. ground arith)

pub header_len_agrees :
    (rtp out : List ℕ) (h : ℕ)
    → get_rtp_header_len rtp ≡ ok h
    → length out ≡ length rtp
    → ((i : ℕ) → i < h → get_or out i 0 ≡ get_or rtp i 0)
    → get_rtp_header_len out ≡ ok h
unfolding get_rtp_header_len
header_len_agrees rtp out h e l same =
    let (least, most, extended) = header_len_fits rtp h e in
    let first = same 0 (omega arith) in
    elim (Bool-cases (get_or rtp 0 0 / 16 % 2 == 1)) [
      | inl x ↦
          let high = same (fixed_len rtp + 2) (omega (arith, extended x)) in
          let low = same (fixed_len rtp + 3) (omega (arith, extended x)) in
          rw (l, first, high, low) e
      | inr x ↦ ground arith
    ]
