-- ===== src/Srtp/Rejection.antt =====
-- What `unprotect` does to the context when the authentication fails.
use rsiprtp.Common.{ℕ, ◌-◌, ◌≡◌, ◌≢◌, List, false, if◌then◌else◌, length, take, arith}
use rsiprtp.Srtp.Crypto.{Crypto, auth_tag_len}
use rsiprtp.Srtp.Context.{
  err, authentication_failed, SrtpContext, get_rtp_header_len, seq_of, take_roc, unprotect,
}

get_rtp_header_len_error : (rtp : List ℕ) → get_rtp_header_len rtp ≢ err authentication_failed
unfolding get_rtp_header_len
get_rtp_header_len_error rtp h = ground arith

-- A packet that fails the authentication leaves the context alone if the receiver has had a packet
-- before; if it is the first packet, its sequence number is kept as the highest, although it is refused.
pub unprotect_rejected :
    (C : Crypto) (r : SrtpContext) (srtp : List ℕ)
    → (unprotect C r srtp).0 ≡ err authentication_failed
    → (unprotect C r srtp).1 ≡ (
        if r.first_packet
        then record r {
          first_packet = false;
          highest_seq = seq_of (take (length srtp - auth_tag_len r.suite) srtp);
        }
        else r)
unfolding unprotect take_roc
unprotect_rejected C r srtp refused =
    let packet = take (length srtp - auth_tag_len r.suite) srtp in
    let readable = get_rtp_header_len_error packet in ground (arith, readable)
