-- ===== src/Srtp/Context.antt =====
-- The SRTP context, crates/rsiprtp/src/srtp/context.rs. A byte is a number below 256; a slice read past
-- its end, which the guards exclude, reads 0. An error message is a constructor.
use Prim.Native.Nat.{bit_or, bit_xor}
use rsiprtp.Common.{
  ℕ, zero, suc, ◌+◌, ◌-◌, ◌*◌, ◌/◌, ◌%◌, List, [], ◌∷◌, ◌++◌, Bool, true, false, not, ◌&&◌, ltb,
  ◌==◌, if◌then◌else◌, length, take, drop, get_or, replicate, be16, be32, from_be16, from_be32,
}
use rsiprtp.Srtp.Crypto.{Crypto, CryptoSuite, auth_tag_len, SessionKeys}

pub data SrtpError : Type 0 where
  rtp_too_short srtp_too_short too_short_for_extension too_short_for_header authentication_failed
        rtcp_too_short srtcp_too_short :
      SrtpError

pub data Result (A : Type 0) : Type 0 where
  ok : A → Result A
  err : SrtpError → Result A

pub record SrtpContext : Type 0 where
  pub suite : CryptoSuite
  pub keys : SessionKeys
  pub sender_roc : ℕ  -- u32
  pub receiver_roc : ℕ  -- u32
  pub highest_seq : ℕ  -- u16
  pub first_packet : Bool

-- `SrtpContext::new`, from the keys that `SessionKeys::derive` returns.
unfoldable pub new : CryptoSuite → SessionKeys → SrtpContext
new suite keys = record {
  suite = suite;
  keys = keys;
  sender_roc = 0;
  receiver_roc = 0;
  highest_seq = 0;
  first_packet = true;
}

-- `iv[at] ^= b`.
abbrev xor_at : ℕ → ℕ → List ℕ → List ℕ
xor_at at b [] = []
xor_at zero b (x ∷ xs) = bit_xor x b ∷ xs
xor_at (suc at) b (x ∷ xs) = x ∷ xor_at at b xs

abbrev pub xor_from : ℕ → List ℕ → List ℕ → List ℕ
xor_from at [] iv = iv
xor_from at (b ∷ bs) iv = xor_from (at + 1) bs (xor_at at b iv)

unfoldable pub build_iv : List ℕ → ℕ → ℕ → List ℕ
build_iv salt ssrc index =
    let iv = salt ++ replicate (16 - length salt) 0 in
    xor_from 8 (be16 (index / 4294967296) ++ be32 (index % 4294967296)) (xor_from 4 (be32 ssrc) iv)

unfoldable pub get_rtp_header_len : List ℕ → Result ℕ
get_rtp_header_len rtp =
    let header_len = 12 + get_or rtp 0 0 % 16 * 4 in
    if ltb (length rtp) 12
    then err rtp_too_short
    else if get_or rtp 0 0 / 16 % 2 == 1
    then (let extended =
          header_len
          + (4 + from_be16 (get_or rtp (header_len + 2) 0) (get_or rtp (header_len + 3) 0) * 4) in
        if ltb (length rtp) (header_len + 4)
        then err too_short_for_extension
        else if ltb (length rtp) extended
        then err too_short_for_header
        else ok extended)
    else if ltb (length rtp) header_len
    then err too_short_for_header
    else ok header_len

-- `wrapping_sub(1)` and `wrapping_add(1)` on a u32.
unfoldable pub estimate_roc : ℕ → ℕ → ℕ → ℕ
estimate_roc v s_l seq =
    if ltb s_l 32768
    then (if ltb s_l seq && ltb 32768 (seq - s_l) then (v + 4294967295) % 4294967296 else v)
    else if ltb seq s_l && ltb 32768 (s_l - seq)
    then (v + 1) % 4294967296
    else v

-- The accumulated differences of the bytes.
unfoldable pub differences : ℕ → List ℕ → List ℕ → ℕ
differences result [] bs = result
differences result (a ∷ as') [] = result
differences result (a ∷ as') (b ∷ bs) = differences (bit_or result (bit_xor a b)) as' bs

unfoldable pub constant_time_compare : List ℕ → List ℕ → Bool
constant_time_compare a b = if not (length a == length b) then false else differences 0 a b == 0

-- `u16::from_be_bytes([rtp[2], rtp[3]])` and `u32::from_be_bytes([rtp[8], ..])`.
abbrev pub seq_of : List ℕ → ℕ
seq_of rtp = from_be16 (get_or rtp 2 0) (get_or rtp 3 0)

abbrev pub ssrc_of : List ℕ → ℕ
ssrc_of rtp = from_be32 (get_or rtp 8 0) (get_or rtp 9 0) (get_or rtp 10 0) (get_or rtp 11 0)

-- The sender's side of the context after a packet with this sequence number.
unfoldable pub advance_sender : SrtpContext → ℕ → SrtpContext
advance_sender ctx seq = record ctx {
  sender_roc =
      (if ltb seq 32768 && ltb 32768 ctx.highest_seq
        then (ctx.sender_roc + 1) % 4294967296
        else ctx.sender_roc);
  highest_seq = seq;
}

-- The roll-over counter that `unprotect` takes, and the context, which the first packet changes.
unfoldable pub take_roc : SrtpContext → ℕ → ℕ × SrtpContext
take_roc ctx seq =
    if ctx.first_packet
    then (0, record ctx { first_packet = false; highest_seq = seq })
    else (estimate_roc ctx.receiver_roc ctx.highest_seq seq, ctx)

unfoldable pub update_receiver : SrtpContext → ℕ → ℕ → SrtpContext
update_receiver ctx roc seq =
    if ltb (ctx.receiver_roc * 65536 + ctx.highest_seq) (roc * 65536 + seq)
    then record ctx { receiver_roc = roc; highest_seq = seq }
    else ctx

module _ (C : Crypto) where
  unfoldable pub compute_auth_tag : SrtpContext → List ℕ → ℕ → List ℕ
  compute_auth_tag ctx packet roc = C.hmac ctx.keys.srtp_auth_key (packet ++ be32 roc)

  -- The header as it is, and the payload under the keystream for the packet index.
  unfoldable pub transform : SrtpContext → List ℕ → ℕ → ℕ → List ℕ
  transform ctx packet index header_len =
      let iv = build_iv ctx.keys.srtp_salt (ssrc_of packet) index in
      take header_len packet ++ C.apply_keystream ctx.keys.srtp_enc_key iv (drop header_len packet)

  unfoldable pub protect : SrtpContext → List ℕ → Result (List ℕ) × SrtpContext
  protect ctx rtp =
      let seq = seq_of rtp in
      let advanced = advance_sender ctx seq in
      let index = advanced.sender_roc * 65536 + seq in
      if ltb (length rtp) 12 then (err rtp_too_short, ctx) else elim (get_rtp_header_len rtp) [
        | err e ↦ (err e, advanced)
        | ok header_len ↦
            let output = transform advanced rtp index header_len in
            let tag = compute_auth_tag advanced output advanced.sender_roc in
            (ok (output ++ take (auth_tag_len ctx.suite) tag), advanced)
      ]

  unfoldable pub unprotect : SrtpContext → List ℕ → Result (List ℕ) × SrtpContext
  unprotect ctx srtp =
      let tag_len = auth_tag_len ctx.suite in
      let packet = take (length srtp - tag_len) srtp in
      let received_tag = drop (length srtp - tag_len) srtp in
      let seq = seq_of packet in
      let (roc, started) = take_roc ctx seq in
      let expected_tag = compute_auth_tag started packet roc in
      let updated = update_receiver started roc seq in
      if ltb (length srtp) (12 + tag_len)
      then (err srtp_too_short, ctx)
      else if not (constant_time_compare (take tag_len expected_tag) received_tag)
      then (err authentication_failed, started)
      else elim (get_rtp_header_len packet) [
        | err e ↦ (err e, updated)
        | ok header_len ↦ (ok (transform updated packet (roc * 65536 + seq) header_len), updated)
      ]
