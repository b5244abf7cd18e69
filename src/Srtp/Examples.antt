-- ===== src/Srtp/Examples.antt =====
-- The SRTP theorems at a packet whose sequence number has just wrapped around. The cipher of the example
-- swaps the bytes in pairs, and its hash is constant.
use rsiprtp.Common.{
  ℕ, ◌%◌, ◌/◌, ◌<◌, ◌≡◌, refl, ap, List, [], ◌∷◌, All, length, replicate, arith, Bool, true, false,
  ◌&&◌, ltb, if◌then◌else◌, take, ◌-◌, inr,
}
use rsiprtp.Srtp.Crypto.{Crypto, aes_cm128_hmac_sha1_80, auth_tag_len, SessionKeys}
use rsiprtp.Srtp.Context.{
  SrtpContext, ok, err, authentication_failed, compute_auth_tag, differences, estimate_roc,
  constant_time_compare, get_rtp_header_len, seq_of, advance_sender, protect, unprotect, new,
}
use rsiprtp.Srtp.Rollover.{estimate_roc_lem}
use rsiprtp.Srtp.Rejection.{unprotect_rejected}
use rsiprtp.Srtp.Reach.{InReach}
use rsiprtp.Srtp.Srtcp
use rsiprtp.Srtp.Srtcp.{SrtcpContext}
use rsiprtp.Srtp.Srtcp.RoundTrip.{srtcp_unprotect-protect}
use rsiprtp.Srtp.RoundTrip.{unprotect-protect}

all_bytes : List ℕ → Bool
all_bytes [] = true
all_bytes (b ∷ bs) = ltb b 256 && all_bytes bs

all_bytes_lem : (bytes : List ℕ) → all_bytes bytes ≡ true → All (λ b. b < 256) bytes
unfolding all_bytes
all_bytes_lem [] h = tt
all_bytes_lem (b ∷ bs) h = (ground arith, all_bytes_lem bs (ground arith))

constant_hash_bytes : All (λ b. b < 256) (replicate 20 7)
unfolding all_bytes
constant_hash_bytes = all_bytes_lem (replicate 20 7) refl

swap : List ℕ → List ℕ
swap [] = []
swap (a ∷ []) = a ∷ []
swap (a ∷ b ∷ rest) = b ∷ a ∷ swap rest

swap-swap : (bytes : List ℕ) → swap (swap bytes) ≡ bytes
unfolding swap
swap-swap [] = refl
swap-swap (a ∷ []) = refl
swap-swap (a ∷ b ∷ rest) = ap (λ l. a ∷ b ∷ l) (swap-swap rest)

length-swap : (bytes : List ℕ) → length (swap bytes) ≡ length bytes
unfolding swap
length-swap [] = refl
length-swap (a ∷ []) = refl
length-swap (a ∷ b ∷ rest) = omega (arith, length-swap rest)

abbrev crypto : Crypto
crypto = record {
  apply_keystream = λ key iv bytes. swap bytes;
  hmac = λ key message. replicate 20 7;
  apply_keystream_twice = λ key iv bytes. swap-swap bytes;
  length-apply_keystream = λ key iv bytes. length-swap bytes;
  length-hmac = λ key message. refl;
  hmac_bytes = λ key message. constant_hash_bytes;
}

abbrev keys : SessionKeys
keys = record {
  srtp_enc_key = replicate 16 1;
  srtp_auth_key = replicate 20 2;
  srtp_salt = replicate 14 3;
  srtcp_enc_key = replicate 16 4;
  srtcp_auth_key = replicate 20 5;
  srtcp_salt = replicate 14 6;
}

-- The sender has sent the packet 65534, and the receiver has the packet 65530.
abbrev sender : SrtpContext
sender = record {
  suite = aes_cm128_hmac_sha1_80;
  keys = keys;
  sender_roc = 0;
  receiver_roc = 0;
  highest_seq = 65534;
  first_packet = true;
}

abbrev receiver : SrtpContext
receiver = record sender { highest_seq = 65530; first_packet = false }

-- Sequence number 2, one CSRC identifier, and a payload of three bytes.
abbrev rtp : List ℕ
rtp = 129 ∷ 0 ∷ 0 ∷ 2 ∷ 0 ∷ 0 ∷ 0 ∷ 160 ∷ 18 ∷ 52 ∷ 86 ∷ 120 ∷ 0 ∷ 0 ∷ 0 ∷ 9 ∷ 1 ∷ 2 ∷ 3 ∷ []

rtp_bytes : All (λ b. b < 256) rtp
unfolding all_bytes
rtp_bytes = all_bytes_lem rtp refl

rtp_header : get_rtp_header_len rtp ≡ ok 16
unfolding get_rtp_header_len
rtp_header = refl

in_reach : InReach sender receiver (seq_of rtp)
unfolding advance_sender
in_reach = record {
  same_suite = refl;
  same_keys = refl;
  in_window = inr (refl, omega arith, omega arith, omega arith, omega arith, omega arith);
}

estimate_roc_lem_example : estimate_roc 0 65530 (65538 % 65536) ≡ 65538 / 65536
estimate_roc_lem_example =
    estimate_roc_lem 0 65530 65538 (omega arith) (omega arith) (omega arith) (omega arith)
      (omega arith)

unprotect-protect_example :
    (srtp : List ℕ) × ((protect crypto sender rtp).0 ≡ ok srtp)
    × ((unprotect crypto receiver srtp).0 ≡ ok rtp)
unprotect-protect_example =
    unprotect-protect crypto sender receiver rtp 16 rtp_bytes rtp_header in_reach

-- Bytes with a wrong tag, to a receiver that has had no packet yet.
abbrev forged : List ℕ
forged = 128 ∷ 0 ∷ 200 ∷ 0 ∷ replicate 18 0

forged_refused :
    (unprotect crypto (new aes_cm128_hmac_sha1_80 keys) forged).0 ≡ err authentication_failed
unfolding unprotect constant_time_compare auth_tag_len new compute_auth_tag differences
forged_refused = refl

unprotect_rejected_example :
    let fresh = new aes_cm128_hmac_sha1_80 keys in
    (unprotect crypto fresh forged).1 ≡ (
      if fresh.first_packet
      then record fresh {
        first_packet = false;
        highest_seq = seq_of (take (length forged - 10) forged);
      }
      else fresh)
unfolding auth_tag_len new
unprotect_rejected_example =
    unprotect_rejected crypto (new aes_cm128_hmac_sha1_80 keys) forged forged_refused

abbrev control : SrtcpContext
control = record { suite = aes_cm128_hmac_sha1_80; keys = keys; index = 2147483647 }

-- A receiver report without report blocks, and 4 bytes after it.
abbrev rtcp : List ℕ
rtcp = 128 ∷ 201 ∷ 0 ∷ 2 ∷ 18 ∷ 52 ∷ 86 ∷ 120 ∷ 1 ∷ 2 ∷ 3 ∷ 4 ∷ []

srtcp_unprotect-protect_example :
    (srtcp : List ℕ) × ((Srtcp.protect crypto control rtcp).0 ≡ ok srtcp)
    × (Srtcp.unprotect crypto (record control { index = 5 }) srtcp ≡ ok rtcp)
srtcp_unprotect-protect_example =
    srtcp_unprotect-protect crypto control (record control { index = 5 }) rtcp refl refl
      (omega arith) (omega arith)
