-- ===== src/Ice/Candidate.antt =====
-- ICE candidates and their priorities, crates/rsiprtp/src/ice/candidate.rs.
use Prim.Native.String.{String}
use rsiprtp.Common.{
  ℕ, ◌+◌, ◌-◌, ◌*◌, ◌%◌, ◌<◌, ◌≤◌, min, max, Bool, true, false, not, Option, ltb, if◌then◌else◌,
  ◌≡◌, arith,
}

pub data CandidateType : Type 0 where
  host server_reflexive peer_reflexive relay : CandidateType

unfoldable pub type_preference : CandidateType → ℕ
type_preference host = 126
type_preference peer_reflexive = 110
type_preference server_reflexive = 100
type_preference relay = 0

pub data Transport : Type 0 where
  udp tcp : Transport

abbrev pub same_transport : Transport → Transport → Bool
same_transport udp udp = true
same_transport udp tcp = false
same_transport tcp udp = false
same_transport tcp tcp = true

-- The type of socket addresses is a parameter.
pub record Candidate (A : Type 0) : Type 0 where
  pub foundation : String
  pub component : ℕ
  pub transport : Transport
  pub priority : ℕ
  pub address : A
  pub candidate_type : CandidateType
  pub related_address : Option A

-- The component is a u8, so that nothing is subtracted below 0; the sum is not cut to 32 bits, as the
-- local preference is 65535 wherever the source calls this.
unfoldable pub calculate_priority : CandidateType → ℕ → ℕ → ℕ
calculate_priority candidate_type local_preference component =
    type_preference candidate_type * 16777216 + local_preference * 256 + (256 - component)

unfoldable pub calculate_pair_priority : Bool → ℕ → ℕ → ℕ
calculate_pair_priority controlling g d =
    let (g, d) = if controlling then (g, d) else (d, g) in
    (4294967296 * min g d + 2 * max g d + (if ltb d g then 1 else 0)) % 18446744073709551616

-- Both agents compute one priority for a pair, whose local candidate is the remote one of the other,
-- and of two pairs the one whose lower priority is higher comes first, if the priorities are those
-- that candidates of any type, preference and component up to 255 are given.
pub pair_priority_lem :
    (controlling : Bool) (g d e f : ℕ)
    → g < 2147483648
    → d < 2147483648
    → e < 2147483648
    → f < 2147483648
    → (calculate_pair_priority controlling g d ≡ calculate_pair_priority (not controlling) d g)
      × (min g d < min e f
          → calculate_pair_priority controlling g d < calculate_pair_priority controlling e f)
unfolding calculate_pair_priority
pair_priority_lem controlling g d e f a b c h = ground arith

-- The priority of a candidate with a 16-bit preference is below 2^31.
pub priority_bound :
    (t : CandidateType) (preference component : ℕ)
    → preference < 65536
    → 1 ≤ component
    → calculate_priority t preference component < 2147483648
unfolding calculate_priority type_preference
priority_bound t preference component a b = ground arith
