-- ===== src/Srtp/RoundTrip.antt =====
-- `unprotect` gives back what `protect` was given.
use rsiprtp.Common.{
  ℕ, ◌+◌, ◌-◌, ◌*◌, ◌<◌, ◌≤◌, ◌≡◌, ◌∙◌, refl, sym, ap, List, ◌++◌, true, false, ltb, All, length,
  length-append, length-take, length-drop, take, drop, take-append-length, drop-append-length,
  get_or, be32, arith,
}
use rsiprtp.Srtp.Crypto.{Crypto, auth_tag_len}
use rsiprtp.Srtp.Context.{
  ok, SrtpContext, get_rtp_header_len, constant_time_compare, seq_of, ssrc_of, compute_auth_tag,
  transform, advance_sender, protect, take_roc, update_receiver, unprotect, build_iv,
}
use rsiprtp.Srtp.Header.{
  compare_self, All-take, take-drop, get_or-take, header_len_fits, header_len_agrees,
}
use rsiprtp.Srtp.Reach.{
  InReach, roc_agrees, take_roc-keys, update_receiver-keys, tag_len_fits, seq_of-fits,
  advance_sender-keys,
}

module _ (C : Crypto) where
  length-transform :
      (ctx : SrtpContext) (rtp : List ℕ) (index h : ℕ)
      → h ≤ length rtp
      → length (transform C ctx rtp index h) ≡ length rtp
  unfolding transform
  length-transform ctx rtp index h fits =
      let iv = build_iv ctx.keys.srtp_salt (ssrc_of rtp) index in
      let body = C.apply_keystream ctx.keys.srtp_enc_key iv (drop h rtp) in
      omega (
        arith,
        length-append (take h rtp) body,
        length-take h rtp,
        length-drop h rtp,
        C.length-apply_keystream ctx.keys.srtp_enc_key iv (drop h rtp),
      )

  transform-transform :
      (s r : SrtpContext) (rtp : List ℕ) (index h : ℕ)
      → s.keys ≡ r.keys
      → 12 ≤ h
      → h ≤ length rtp
      → transform C r (transform C s rtp index h) index h ≡ rtp
  unfolding transform
  transform-transform s r rtp index h keys least fits =
      let key = s.keys.srtp_enc_key in
      let iv = build_iv s.keys.srtp_salt (ssrc_of rtp) index in
      let body = C.apply_keystream key iv (drop h rtp) in
      let cut : length (take h rtp) ≡ h = omega (arith, length-take h rtp) in
      rw
        (
          sym keys,
          get_or-take h 8 rtp body (omega arith) fits,
          get_or-take h 9 rtp body (omega arith) fits,
          get_or-take h 10 rtp body (omega arith) fits,
          get_or-take h 11 rtp body (omega arith) fits,
          take-append-length h (take h rtp) body cut,
          drop-append-length h (take h rtp) body cut,
          C.apply_keystream_twice key iv (drop h rtp),
        )
        (take-drop h rtp)

module _ (C : Crypto) where
  compute_auth_tag-keys :
      (s r : SrtpContext) (packet : List ℕ) (roc : ℕ)
      → s.keys ≡ r.keys
      → compute_auth_tag C s packet roc ≡ compute_auth_tag C r packet roc
  unfolding compute_auth_tag
  compute_auth_tag-keys s r packet roc keys = rw keys refl

  transform-keys :
      (s r : SrtpContext) (packet : List ℕ) (index h : ℕ)
      → s.keys ≡ r.keys
      → transform C s packet index h ≡ transform C r packet index h
  unfolding transform
  transform-keys s r packet index h keys = rw keys refl

  length-tag :
      (r : SrtpContext) (packet : List ℕ) (roc : ℕ)
      → length (take (auth_tag_len r.suite) (compute_auth_tag C r packet roc))
        ≡ auth_tag_len r.suite
  unfolding compute_auth_tag
  length-tag r packet roc =
      let message = packet ++ be32 roc in
      omega (
        arith,
        length-take (auth_tag_len r.suite) (C.hmac r.keys.srtp_auth_key message),
        C.length-hmac r.keys.srtp_auth_key message,
        tag_len_fits r.suite,
      )

  tag_accepted :
      (r : SrtpContext) (packet : List ℕ) (roc : ℕ)
      → let tag = take (auth_tag_len r.suite) (compute_auth_tag C r packet roc) in
        constant_time_compare tag tag ≡ true
  unfolding compute_auth_tag
  tag_accepted r packet roc =
      let hmac = C.hmac r.keys.srtp_auth_key (packet ++ be32 roc) in
      compare_self (take (auth_tag_len r.suite) hmac) (
        All-take (auth_tag_len r.suite) hmac
          (C.hmac_bytes r.keys.srtp_auth_key (packet ++ be32 roc)))

  -- `unprotect` on a packet with the tag that the receiver computes.
  unprotect_sealed :
      (r : SrtpContext) (packet : List ℕ) (roc h : ℕ)
      → 12 ≤ length packet
      → (take_roc r (seq_of packet)).0 ≡ roc
      → get_rtp_header_len packet ≡ ok h
      → (unprotect C r (packet ++ take (auth_tag_len r.suite) (compute_auth_tag C r packet roc))).0
        ≡ ok (transform C r packet (roc * 65536 + seq_of packet) h)
  unfolding unprotect
  unprotect_sealed r packet roc h long agreed found =
      let n = auth_tag_len r.suite in
      let tag = take n (compute_auth_tag C r packet roc) in
      let started = (take_roc r (seq_of packet)).1 in
      let updated = update_receiver started roc (seq_of packet) in
      let size = length-tag r packet roc in
      let split : length (packet ++ tag) - n ≡ length packet =
        omega (arith, length-append packet tag, size) in
      let enough : ltb (length (packet ++ tag)) (12 + n) ≡ false =
        ground (arith, length-append packet tag, size) in
      let kept : updated.keys ≡ r.keys =
        update_receiver-keys started roc (seq_of packet) ∙ take_roc-keys r (seq_of packet) in
      rw
        (
          enough,
          split,
          take-append-length (length packet) packet tag refl,
          drop-append-length (length packet) packet tag refl,
          agreed,
          compute_auth_tag-keys started r packet roc (take_roc-keys r (seq_of packet)),
          tag_accepted r packet roc,
          found,
          split,
          take-append-length (length packet) packet tag refl,
          agreed,
          transform-keys updated r packet (roc * 65536 + seq_of packet) h kept,
        )
        refl

  get_or-transform :
      (s : SrtpContext) (rtp : List ℕ) (index h : ℕ)
      → h ≤ length rtp
      → (i : ℕ) → i < h
      → get_or (transform C s rtp index h) i 0 ≡ get_or rtp i 0
  unfolding transform
  get_or-transform s rtp index h fits i below =
      get_or-take h i rtp
        (C.apply_keystream s.keys.srtp_enc_key (build_iv s.keys.srtp_salt (ssrc_of rtp) index)
          (drop h rtp))
        below fits

  protect_found :
      (s : SrtpContext) (rtp : List ℕ) (h : ℕ)
      → 12 ≤ length rtp
      → get_rtp_header_len rtp ≡ ok h
      → let sender = advance_sender s (seq_of rtp) in
        let packet = transform C sender rtp (sender.sender_roc * 65536 + seq_of rtp) h in
        (protect C s rtp).0
        ≡ ok (
            packet
            ++ take (auth_tag_len s.suite) (compute_auth_tag C sender packet sender.sender_roc))
  unfolding protect
  protect_found s rtp h long found =
      let enough : ltb (length rtp) 12 ≡ false = ground arith in rw (enough, found) refl

  -- A packet of bytes with a header that can be read is protected, and a receiver in whose reach its
  -- index lies gets it back from `unprotect`.
  pub unprotect-protect :
      (s r : SrtpContext) (rtp : List ℕ) (h : ℕ)
      → All (λ b. b < 256) rtp
      → get_rtp_header_len rtp ≡ ok h
      → InReach s r (seq_of rtp)
      → (srtp : List ℕ) × ((protect C s rtp).0 ≡ ok srtp) × ((unprotect C r srtp).0 ≡ ok rtp)
  unprotect-protect s r rtp h bytes found reach =
      let seq = seq_of rtp in
      let sender = advance_sender s seq in
      let roc = sender.sender_roc in
      let (least, fits, extended) = header_len_fits rtp h found in
      let packet = transform C sender rtp (roc * 65536 + seq) h in
      let keys : sender.keys ≡ r.keys = advance_sender-keys s seq ∙ reach.same_keys in
      let size = length-transform C sender rtp (roc * 65536 + seq) h fits in
      let same = get_or-transform sender rtp (roc * 65536 + seq) h fits in
      let seq_kept : seq_of packet ≡ seq =
        omega (arith, same 2 (omega arith), same 3 (omega arith)) in
      let agreed : (take_roc r (seq_of packet)).0 ≡ roc =
        rw seq_kept (roc_agrees s r seq (seq_of-fits rtp bytes) reach) in
      let tagged = compute_auth_tag-keys sender r packet roc keys in
      let opened =
        unprotect_sealed r packet roc h (omega arith) agreed
          (header_len_agrees rtp packet h found size same) in
      (
        packet ++ take (auth_tag_len r.suite) (compute_auth_tag C r packet roc),
        protect_found s rtp h (omega arith) found ∙ rw (tagged, reach.same_suite) refl,
        opened
            ∙ rw seq_kept
                (ap ok (transform-transform C sender r rtp (roc * 65536 + seq) h keys least fits)),
      )
