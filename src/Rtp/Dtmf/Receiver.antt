-- ===== src/Rtp/Dtmf/Receiver.antt =====
-- The receiver of telephone events, crates/rsiprtp/src/rtp/dtmf.rs.
use rsiprtp.Common.{ℕ, List, Bool, false, not, Option, none, some, ◌==◌, if◌then◌else◌}
use rsiprtp.Rtp.Dtmf.{DtmfDigit, DtmfEvent, event_code, decode}

-- `current_event` holds the digit and a timestamp, which is always 0.
pub record DtmfReceiver : Type 0 where
  pub payload_type : ℕ  -- u8
  pub current_event : Option (DtmfDigit × ℕ)
  pub last_event : Option DtmfDigit

-- `DtmfReceiver::new`.
unfoldable pub new_receiver : ℕ → DtmfReceiver
new_receiver payload_type = record {
  payload_type = payload_type;
  current_event = none;
  last_event = none;
}

-- The derived `==` on digits: their codes are different.
abbrev pub is_last : Option DtmfDigit → DtmfDigit → Bool
is_last none digit = false
is_last (some last) digit = event_code last == event_code digit

unfoldable pub process_event : DtmfEvent → DtmfReceiver → Option DtmfDigit × DtmfReceiver
process_event event r =
    if event.end
    then (let r = record r { current_event = none } in
        if not (is_last r.last_event event.digit)
        then (some event.digit, record r { last_event = some event.digit })
        else (none, r))
    else (none, record r { current_event = some (event.digit, 0); last_event = none })

unfoldable pub process_packet : ℕ → List ℕ → DtmfReceiver → Option DtmfDigit × DtmfReceiver
process_packet payload_type payload r =
    if not (payload_type == r.payload_type)
    then (none, r)
    else (elim (decode payload) [ none ↦ (none, r) | some event ↦ process_event event r ])

unfoldable pub current_digit : DtmfReceiver → Option DtmfDigit
current_digit r = elim r.current_event [ none ↦ none | some e ↦ some e.0 ]

unfoldable pub reset : DtmfReceiver → DtmfReceiver
reset r = record r { current_event = none; last_event = none }
