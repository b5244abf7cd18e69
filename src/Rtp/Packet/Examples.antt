-- ===== src/Rtp/Packet/Examples.antt =====
-- The packet theorems at one packet: two CSRC identifiers and an extension of five bytes.
use rsiprtp.Common.{[], ◌∷◌, true, false, some, arith, ◌≡◌, refl, ◌⊎◌}
use rsiprtp.Rtp.Packet.{RtpPacket, RtpParseError, ok, err, parse, build}
use rsiprtp.Rtp.Packet.RoundTrip.{pad_extension, WellFormed, parse-build}
use rsiprtp.Rtp.Packet.Total.{Accounts, parse-Accounts}

abbrev packet : RtpPacket
packet = record {
  version = 2;
  padding = false;
  extension = true;
  marker = true;
  payload_type = 101;
  sequence_number = 65535;
  timestamp = 4000000000;
  ssrc = 305419896;
  csrc = 7 ∷ 8 ∷ [];
  extension_header = some (record { profile = 48862; payload = 1 ∷ 2 ∷ 3 ∷ 4 ∷ 5 ∷ [] });
  payload = 9 ∷ 10 ∷ [];
}

packet-WellFormed : WellFormed packet
packet-WellFormed = record {
  version_two = refl;
  no_padding = refl;
  extension_flag = refl;
  payload_type_fits = omega arith;
  sequence_fits = omega arith;
  timestamp_fits = omega arith;
  ssrc_fits = omega arith;
  csrc_count = omega arith;
  csrc_fit = (omega arith, (omega arith, tt));
  extension_fits = (omega arith, omega arith);
}

parse-build_example :
    parse (build packet)
    ≡ ok (record packet { extension_header = pad_extension packet.extension_header })
parse-build_example = parse-build packet packet-WellFormed

parse-Accounts_example :
    ((e : RtpParseError) × (parse (build packet) ≡ err e))
    ⊎ ((p : RtpPacket) × (parse (build packet) ≡ ok p) × Accounts (build packet) p)
parse-Accounts_example = parse-Accounts (build packet)
