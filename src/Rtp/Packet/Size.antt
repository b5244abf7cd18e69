-- ===== src/Rtp/Packet/Size.antt =====
-- The size of a packet that is sent.
use rsiprtp.Common.{
  ℕ, ◌+◌, ◌-◌, ◌*◌, ◌≡◌, refl, ◌++◌, Option, none, some, length, length-append, length-replicate,
  replicate, arith,
}
use rsiprtp.Rtp.Packet.{
  ExtensionHeader, RtpPacket, put_csrc, put_extension, build, words_of, header_size,
}
use rsiprtp.Rtp.Packet.RoundTrip.{length-put_csrc}
use rsiprtp.Rtp.Packet.Total.{extension_size}

length-put_extension : (e : Option ExtensionHeader) → length (put_extension e) ≡ extension_size e
unfolding put_extension
length-put_extension none = refl
length-put_extension (some e) =
    let blank : ℕ = 0 in
    let padding = words_of (length e.payload) * 4 - length e.payload in
    omega (arith, length-append e.payload (replicate padding blank), length-replicate padding blank)

-- `build` writes as many bytes as `header_size` counts, and the payload.
pub length-build : (p : RtpPacket) → length (build p) ≡ header_size p + length p.payload
unfolding build header_size
length-build p =
    let tail = put_extension p.extension_header ++ p.payload in
    ground (
      arith,
      length-append (put_csrc p.csrc) tail,
      length-append (put_extension p.extension_header) p.payload,
      length-put_csrc p.csrc,
      length-put_extension p.extension_header,
    )
