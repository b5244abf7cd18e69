-- ===== src/Srtp/Crypto.antt =====
-- What crates/rsiprtp/src/srtp/context.rs takes from other crates and from srtp/kdf.rs: AES in counter
-- mode, HMAC-SHA1 and the session keys, which `SessionKeys::derive` makes from the master key and salt.
use rsiprtp.Common.{ℕ, ◌<◌, ◌≡◌, List, All, length}

-- `apply_keystream key iv data` is `Aes128Ctr::new(key, iv)` applied to `data`; `hmac key message` is
-- the 20 bytes of HMAC-SHA1. The laws hold for every stream cipher and for every hash of that size.
pub record Crypto : Type 0 where
  pub apply_keystream : List ℕ → List ℕ → List ℕ → List ℕ
  pub hmac : List ℕ → List ℕ → List ℕ
  pub apply_keystream_twice :
      (key iv bytes : List ℕ) → apply_keystream key iv (apply_keystream key iv bytes) ≡ bytes
  pub length-apply_keystream :
      (key iv bytes : List ℕ) → length (apply_keystream key iv bytes) ≡ length bytes
  pub length-hmac : (key message : List ℕ) → length (hmac key message) ≡ 20
  pub hmac_bytes : (key message : List ℕ) → All (λ b. b < 256) (hmac key message)

pub data CryptoSuite : Type 0 where
  aes_cm128_hmac_sha1_80 aes_cm128_hmac_sha1_32 : CryptoSuite

unfoldable pub auth_tag_len : CryptoSuite → ℕ
auth_tag_len aes_cm128_hmac_sha1_80 = 10
auth_tag_len aes_cm128_hmac_sha1_32 = 4

pub record SessionKeys : Type 0 where
  pub srtp_enc_key : List ℕ
  pub srtp_auth_key : List ℕ
  pub srtp_salt : List ℕ
  pub srtcp_enc_key : List ℕ
  pub srtcp_auth_key : List ℕ
  pub srtcp_salt : List ℕ
