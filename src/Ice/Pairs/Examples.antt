-- ===== src/Ice/Pairs/Examples.antt =====
-- Two local and two remote candidates of an ICE agent, whose pairs are formed on top of one that is there.
use Prim.Native.String.{String}
use rsiprtp.Common.{ℕ, List, [], ◌∷◌, true, false, none, ◌||◌, ◌≡◌, number_key}
use rsiprtp.Ice.Candidate.{Candidate, CandidateType, host, relay, udp, calculate_priority}
use rsiprtp.Ice.Pairs.{CandidatePair, failed, exists, form_candidate_pairs}
use rsiprtp.Ice.Pairs.Formed.{Sorted, allowed, pairs_formed}

abbrev candidate : CandidateType → String → ℕ → ℕ → Candidate ℕ
candidate type foundation component address = record {
  foundation = foundation;
  component = component;
  transport = udp;
  priority = calculate_priority type 65535 component;
  address = address;
  candidate_type = type;
  related_address = none;
}

abbrev locals : List (Candidate ℕ)
locals = candidate relay "relay1" 1 10 ∷ candidate host "host1" 1 11 ∷ []

abbrev remotes : List (Candidate ℕ)
remotes = candidate host "host1" 1 20 ∷ candidate host "host2" 2 21 ∷ []

abbrev pairs : List (CandidatePair ℕ)
pairs =
    record {
      local = candidate relay "relay1" 1 10;
      remote = candidate host "host1" 1 20;
      priority = 7;
      state = failed;
      nominated = false;
    }
    ∷ []

pairs_formed_example :
    let formed = form_candidate_pairs true locals remotes pairs in
    (exists 11 20 formed ≡ (exists 11 20 pairs || allowed 11 20 locals remotes)) × Sorted formed
pairs_formed_example = pairs_formed true 11 20 locals remotes pairs
