-- ===== src/Srtp/Srtcp.antt =====
-- The SRTCP context, crates/rsiprtp/src/srtp/context.rs.
pub mod RoundTrip
use rsiprtp.Common.{
  ℕ, ◌+◌, ◌-◌, ◌*◌, ◌/◌, ◌%◌, List, [], ◌∷◌, ◌++◌, Bool, true, false, not, ltb, ◌==◌, if◌then◌else◌,
  length, take, drop, get_or, replicate, be32, from_be32,
}
use rsiprtp.Srtp.Crypto.{Crypto, CryptoSuite, auth_tag_len, SessionKeys}
use rsiprtp.Srtp.Context.{
  Result, ok, err, rtcp_too_short, srtcp_too_short, authentication_failed, xor_from,
  constant_time_compare,
}

pub record SrtcpContext : Type 0 where
  pub suite : CryptoSuite
  pub keys : SessionKeys
  pub index : ℕ  -- u32, below 2^31

-- `SrtcpContext::new`, from the keys that `SessionKeys::derive` returns.
unfoldable pub new : CryptoSuite → SessionKeys → SrtcpContext
new suite keys = record { suite = suite; keys = keys; index = 0 }

unfoldable pub build_srtcp_iv : List ℕ → ℕ → ℕ → List ℕ
build_srtcp_iv salt ssrc index =
    let iv = salt ++ replicate (16 - length salt) 0 in
    xor_from 10 (be32 index) (xor_from 4 (be32 ssrc) iv)

-- `index & 0x80000000 != 0`.
abbrev pub encrypted : ℕ → Bool
encrypted index = index / 2147483648 % 2 == 1

-- `0x80000000 | index`.
unfoldable pub with_e_flag : ℕ → ℕ
with_e_flag index = if encrypted index then index else index + 2147483648

-- The four bytes at `at`.
abbrev pub word_at : List ℕ → ℕ → ℕ
word_at bytes at =
    from_be32 (get_or bytes at 0) (get_or bytes (at + 1) 0) (get_or bytes (at + 2) 0)
      (get_or bytes (at + 3) 0)

module _ (C : Crypto) where
  unfoldable pub compute_auth_tag : SrtcpContext → List ℕ → List ℕ
  compute_auth_tag ctx packet = C.hmac ctx.keys.srtcp_auth_key packet

  -- The first 8 bytes as they are, and the rest under the keystream.
  unfoldable pub transform : SrtcpContext → List ℕ → ℕ → List ℕ
  transform ctx packet srtcp_index =
      let iv = build_srtcp_iv ctx.keys.srtcp_salt (word_at packet 4) srtcp_index in
      take 8 packet ++ C.apply_keystream ctx.keys.srtcp_enc_key iv (drop 8 packet)

  unfoldable pub protect : SrtcpContext → List ℕ → Result (List ℕ) × SrtcpContext
  protect ctx rtcp =
      let srtcp_index = with_e_flag ctx.index in
      let output = transform ctx rtcp srtcp_index ++ be32 srtcp_index in
      let tag = compute_auth_tag ctx output in
      if ltb (length rtcp) 8 then (err rtcp_too_short, ctx) else (
        ok (output ++ take (auth_tag_len ctx.suite) tag),
        record ctx { index = (ctx.index + 1) % 2147483648 },
      )

  -- It changes nothing in the context.
  unfoldable pub unprotect : SrtcpContext → List ℕ → Result (List ℕ)
  unprotect ctx srtcp =
      let tag_len = auth_tag_len ctx.suite in
      let packet_with_index = take (length srtcp - tag_len) srtcp in
      let received_tag = drop (length srtcp - tag_len) srtcp in
      let expected_tag = compute_auth_tag ctx packet_with_index in
      let index_offset = length packet_with_index - 4 in
      let srtcp_index = word_at packet_with_index index_offset in
      let packet = take index_offset packet_with_index in
      if ltb (length srtcp) (8 + 4 + tag_len)
      then err srtcp_too_short
      else if not (constant_time_compare (take tag_len expected_tag) received_tag)
      then err authentication_failed
      else if not (encrypted srtcp_index)
      then ok packet
      else ok (transform ctx packet srtcp_index)
