-- ===== src/Srtp/Reach.antt =====
-- When the receiver finds the packet index of the sender, and what the state changes leave alone.
use rsiprtp.Common.{
  ℕ, ◌+◌, ◌*◌, ◌/◌, ◌%◌, ◌<◌, ◌≤◌, ◌≡◌, refl, sym, List, [], ◌∷◌, true, false, ltb, Bool-cases, inl,
  inr, ◌⊎◌, All, arith,
}
use rsiprtp.Srtp.Crypto.{CryptoSuite, auth_tag_len}
use rsiprtp.Srtp.Context.{SrtpContext, seq_of, advance_sender, take_roc, update_receiver}
use rsiprtp.Srtp.Rollover.{estimate_roc_lem}

-- The receiver has the suite and keys of the sender; and either this is its first packet and the
-- sender's counter is 0, or the packet index lies less than 2^15 from the receiver's.
pub record InReach (s r : SrtpContext) (seq : ℕ) : Type 0 where
  pub same_suite : s.suite ≡ r.suite
  pub same_keys : s.keys ≡ r.keys
  pub in_window :
      ((r.first_packet ≡ true) × ((advance_sender s seq).sender_roc ≡ 0))
      ⊎ ((r.first_packet ≡ false)
          × (r.receiver_roc < 4294967296)
          × (r.highest_seq < 65536)
          × (s.sender_roc < 4294967296)
          × ((advance_sender s seq).sender_roc * 65536 + seq
              < r.receiver_roc * 65536 + r.highest_seq + 32768)
          × (r.receiver_roc * 65536 + r.highest_seq
              < (advance_sender s seq).sender_roc * 65536 + seq + 32768))

sender_roc_fits :
    (s : SrtpContext) (seq : ℕ)
    → s.sender_roc < 4294967296
    → (advance_sender s seq).sender_roc < 4294967296
unfolding advance_sender
sender_roc_fits s seq h = ground arith

pub roc_agrees :
    (s r : SrtpContext) (seq : ℕ)
    → seq < 65536
    → InReach s r seq
    → (take_roc r seq).0 ≡ (advance_sender s seq).sender_roc
unfolding take_roc
roc_agrees s r seq hs reach = elim reach.in_window [
  | inl (first, zero_roc) ↦ rw first (sym zero_roc)
  | inr (later, hv, hq, hr, above, below) ↦
      let n = (advance_sender s seq).sender_roc * 65536 + seq in
      let small : (advance_sender s seq).sender_roc < 4294967296 = sender_roc_fits s seq hr in
      let low : n % 65536 ≡ seq = omega arith in
      let high : n / 65536 ≡ (advance_sender s seq).sender_roc = omega arith in
      let estimate =
        estimate_roc_lem r.receiver_roc r.highest_seq n hv hq (omega arith) above below in
      rw later (rw (low, high) at estimate)
]

pub take_roc-keys : (r : SrtpContext) (seq : ℕ) → (take_roc r seq).1.keys ≡ r.keys
unfolding take_roc
take_roc-keys r seq = elim (Bool-cases r.first_packet) [
  | inl first ↦ rw first refl
  | inr later ↦ rw later refl
]

pub update_receiver-keys :
    (r : SrtpContext) (roc seq : ℕ) → (update_receiver r roc seq).keys ≡ r.keys
unfolding update_receiver
update_receiver-keys r roc seq =
    elim (Bool-cases (ltb (r.receiver_roc * 65536 + r.highest_seq) (roc * 65536 + seq))) [
      | inl newer ↦ rw newer refl
      | inr older ↦ rw older refl
    ]

pub tag_len_fits : (suite : CryptoSuite) → auth_tag_len suite ≤ 20
unfolding auth_tag_len
tag_len_fits suite = ground arith

pub seq_of-fits : (rtp : List ℕ) → All (λ b. b < 256) rtp → seq_of rtp < 65536
seq_of-fits [] h = omega arith
seq_of-fits (a ∷ []) h = omega arith
seq_of-fits (a ∷ b ∷ []) h = omega arith
seq_of-fits (a ∷ b ∷ c ∷ []) (ha, (hb, (hc, hs))) = omega arith
seq_of-fits (a ∷ b ∷ c ∷ d ∷ rest) (ha, (hb, (hc, (hd, hs)))) = omega arith

pub advance_sender-keys : (s : SrtpContext) (seq : ℕ) → (advance_sender s seq).keys ≡ s.keys
unfolding advance_sender
advance_sender-keys s seq = refl
