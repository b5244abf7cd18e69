-- ===== src/Srtp/Srtcp/RoundTrip.antt =====
-- `SrtcpContext::unprotect` gives back what `SrtcpContext::protect` was given.
use rsiprtp.Common.{
  ℕ, suc, ◌+◌, ◌-◌, ◌/◌, ◌%◌, ◌<◌, ◌≤◌, ◌≡◌, ◌∙◌, refl, sym, ap, List, [], ◌∷◌, ◌++◌, true, false,
  ltb, length, length-append, length-take, length-drop, take, drop, take-append-length,
  drop-append-length, get_or, be32, from_be32-be32, arith,
}
use rsiprtp.Srtp.Crypto.{Crypto, auth_tag_len}
use rsiprtp.Srtp.Context.{ok, constant_time_compare}
use rsiprtp.Srtp.Header.{compare_self, All-take, take-drop, get_or-take}
use rsiprtp.Srtp.Reach.{tag_len_fits}
use rsiprtp.Srtp.Srtcp.{
  SrtcpContext, build_srtcp_iv, encrypted, with_e_flag, word_at, compute_auth_tag, transform,
  protect, unprotect,
}

get_or-append : (xs ys : List ℕ) (k : ℕ) → get_or (xs ++ ys) (length xs + k) 0 ≡ get_or ys k 0
get_or-append [] ys k = let start : 0 + k ≡ k = omega arith in rw start refl
get_or-append (x ∷ xs) ys k =
    let next : suc (length xs) + k ≡ suc (length xs + k) = omega arith in
    rw next (get_or-append xs ys k)

word_at-be32 : (xs : List ℕ) (n : ℕ) → n < 4294967296 → word_at (xs ++ be32 n) (length xs) ≡ n
word_at-be32 xs n h =
    let first : get_or (xs ++ be32 n) (length xs) 0 ≡ n / 16777216 % 256 =
      ap (λ k. get_or (xs ++ be32 n) k 0) (omega arith) ∙ get_or-append xs (be32 n) 0 in
    rw
      (first, get_or-append xs (be32 n) 1, get_or-append xs (be32 n) 2, get_or-append xs (be32 n) 3)
      (from_be32-be32 n h)

with_e_flag-encrypted :
    (index : ℕ)
    → index < 2147483648
    → (encrypted (with_e_flag index) ≡ true) × (with_e_flag index < 4294967296)
unfolding with_e_flag
with_e_flag-encrypted index h = (ground arith, ground arith)

module _ (C : Crypto) where
  length-transform :
      (ctx : SrtcpContext) (rtcp : List ℕ) (index : ℕ)
      → 8 ≤ length rtcp
      → length (transform C ctx rtcp index) ≡ length rtcp
  unfolding transform
  length-transform ctx rtcp index long =
      let iv = build_srtcp_iv ctx.keys.srtcp_salt (word_at rtcp 4) index in
      let body = C.apply_keystream ctx.keys.srtcp_enc_key iv (drop 8 rtcp) in
      omega (
        arith,
        length-append (take 8 rtcp) body,
        length-take 8 rtcp,
        length-drop 8 rtcp,
        C.length-apply_keystream ctx.keys.srtcp_enc_key iv (drop 8 rtcp),
      )

  transform-transform :
      (s r : SrtcpContext) (rtcp : List ℕ) (index : ℕ)
      → s.keys ≡ r.keys
      → 8 ≤ length rtcp
      → transform C r (transform C s rtcp index) index ≡ rtcp
  unfolding transform
  transform-transform s r rtcp index keys long =
      let key = s.keys.srtcp_enc_key in
      let iv = build_srtcp_iv s.keys.srtcp_salt (word_at rtcp 4) index in
      let body = C.apply_keystream key iv (drop 8 rtcp) in
      let cut : length (take 8 rtcp) ≡ 8 = omega (arith, length-take 8 rtcp) in
      rw
        (
          sym keys,
          get_or-take 8 4 rtcp body (omega arith) long,
          get_or-take 8 5 rtcp body (omega arith) long,
          get_or-take 8 6 rtcp body (omega arith) long,
          get_or-take 8 7 rtcp body (omega arith) long,
          take-append-length 8 (take 8 rtcp) body cut,
          drop-append-length 8 (take 8 rtcp) body cut,
          C.apply_keystream_twice key iv (drop 8 rtcp),
        )
        (take-drop 8 rtcp)

  length-tag :
      (r : SrtcpContext) (packet : List ℕ)
      → length (take (auth_tag_len r.suite) (compute_auth_tag C r packet)) ≡ auth_tag_len r.suite
  unfolding compute_auth_tag
  length-tag r packet = omega (
    arith,
    length-take (auth_tag_len r.suite) (C.hmac r.keys.srtcp_auth_key packet),
    C.length-hmac r.keys.srtcp_auth_key packet,
    tag_len_fits r.suite,
  )

  tag_accepted :
      (r : SrtcpContext) (packet : List ℕ)
      → let tag = take (auth_tag_len r.suite) (compute_auth_tag C r packet) in
        constant_time_compare tag tag ≡ true
  unfolding compute_auth_tag
  tag_accepted r packet =
      let hmac = C.hmac r.keys.srtcp_auth_key packet in
      compare_self (take (auth_tag_len r.suite) hmac)
        (All-take (auth_tag_len r.suite) hmac (C.hmac_bytes r.keys.srtcp_auth_key packet))

  -- `unprotect` on an encrypted packet with its index and the tag that the receiver computes.
  unprotect_sealed :
      (r : SrtcpContext) (packet : List ℕ) (index : ℕ)
      → 8 ≤ length packet
      → index < 4294967296
      → encrypted index ≡ true
      → let whole = packet ++ be32 index in
        unprotect C r (whole ++ take (auth_tag_len r.suite) (compute_auth_tag C r whole))
        ≡ ok (transform C r packet index)
  unfolding unprotect
  unprotect_sealed r packet index long small flag =
      let n = auth_tag_len r.suite in
      let whole = packet ++ be32 index in
      let tag = take n (compute_auth_tag C r whole) in
      let size = length-tag r whole in
      let sum : length whole ≡ length packet + 4 =
        omega (arith, length-append packet (be32 index)) in
      let split : length (whole ++ tag) - n ≡ length whole =
        omega (arith, length-append whole tag, size) in
      let enough : ltb (length (whole ++ tag)) (12 + n) ≡ false =
        ground (arith, length-append whole tag, size, sum) in
      let offset : length whole - 4 ≡ length packet = omega (arith, sum) in
      rw
        (
          enough,
          split,
          take-append-length (length whole) whole tag refl,
          drop-append-length (length whole) whole tag refl,
          offset,
          take-append-length (length packet) packet (be32 index) refl,
          word_at-be32 packet index small,
          tag_accepted r whole,
          flag,
        )
        refl

  -- An RTCP packet of at least 8 bytes is protected, and a context with the same suite and keys gets it
  -- back from `unprotect`, whatever its own index.
  pub srtcp_unprotect-protect :
      (s r : SrtcpContext) (rtcp : List ℕ)
      → s.suite ≡ r.suite
      → s.keys ≡ r.keys
      → s.index < 2147483648
      → 8 ≤ length rtcp
      → (srtcp : List ℕ) × ((protect C s rtcp).0 ≡ ok srtcp) × (unprotect C r srtcp ≡ ok rtcp)
  unfolding protect compute_auth_tag
  srtcp_unprotect-protect s r rtcp suites keys small long =
      let index = with_e_flag s.index in
      let (flag, fits) = with_e_flag-encrypted s.index small in
      let packet = transform C s rtcp index in
      let whole = packet ++ be32 index in
      let enough : ltb (length rtcp) 8 ≡ false = ground arith in
      let size = length-transform s rtcp index long in
      (
        whole ++ take (auth_tag_len r.suite) (compute_auth_tag C r whole),
        rw (enough, sym suites, sym keys) refl,
        unprotect_sealed r packet index (omega (arith, size)) fits flag
            ∙ ap ok (transform-transform s r rtcp index keys long),
      )
