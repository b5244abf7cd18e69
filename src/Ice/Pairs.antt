-- ===== src/Ice/Pairs.antt =====
-- The candidate pairs of an ICE agent, `form_candidate_pairs` of crates/rsiprtp/src/ice/agent.rs. The locks
-- that it takes on its three lists are not modelled: it holds them to its end.
pub mod Formed
mod Examples
use Prim.Native.String.{String}
use text.Mathlib.Text.{◌==◌ as str_eq}
use rsiprtp.Common.{
  ℕ, List, [], ◌∷◌, ◌++◌, Bool, true, false, ◌&&◌, ◌||◌, ltb, ◌==◌, if◌then◌else◌, Key,
}
use rsiprtp.Ice.Candidate.{Candidate, same_transport, calculate_pair_priority}

pub data PairState : Type 0 where
  waiting in_progress succeeded failed frozen : PairState

pub record CandidatePair (A : Type 0) : Type 0 where
  pub local : Candidate A
  pub remote : Candidate A
  pub priority : ℕ
  pub state : PairState
  pub nominated : Bool

abbrev pub seen : String → String → List (String × String) → Bool
seen f g [] = false
seen f g ((a, b) ∷ ks) = str_eq a f && str_eq b g || seen f g ks

module _ {A : Type 0} where
  -- `sort_by_key` is stable: a pair goes before the ones of lower priority behind it in the list.
  unfoldable pub insert_pair : CandidatePair A → List (CandidatePair A) → List (CandidatePair A)
  insert_pair p [] = p ∷ []
  insert_pair p (q ∷ qs) =
      let rest = insert_pair p qs in if ltb p.priority q.priority then q ∷ rest else p ∷ q ∷ qs

  unfoldable pub sort_pairs : List (CandidatePair A) → List (CandidatePair A)
  sort_pairs [] = []
  sort_pairs (p ∷ ps) = insert_pair p (sort_pairs ps)

  unfoldable pub unfreeze : List (String × String) → List (CandidatePair A) → List (CandidatePair A)
  unfreeze seen_foundations [] = []
  unfreeze seen_foundations (p ∷ ps) =
      let f = p.local.foundation in
      let g = p.remote.foundation in
      let here = unfreeze seen_foundations ps in
      let next = unfreeze ((f, g) ∷ seen_foundations) ps in
      if seen f g seen_foundations then p ∷ here else record p { state = waiting } ∷ next

  -- The two tests of the inner loop.
  abbrev pub compatible : Candidate A → Candidate A → Bool
  compatible l r = l.component == r.component && same_transport l.transport r.transport

module _ {A : Type 0} ⦃key : Key A⦄ where
  unfoldable pub exists : A → A → List (CandidatePair A) → Bool
  exists a b [] = false
  exists a b (p ∷ ps) = key.same p.local.address a && key.same p.remote.address b || exists a b ps

  unfoldable pub add_pair :
      Bool → Candidate A → Candidate A → List (CandidatePair A) → List (CandidatePair A)
  add_pair is_controlling l r pairs =
      if compatible l r
      then (if exists l.address r.address pairs
          then pairs
          else pairs
            ++ (record {
              local = l;
              remote = r;
              priority = calculate_pair_priority is_controlling l.priority r.priority;
              state = frozen;
              nominated = false;
            }
                ∷ []))
      else pairs

  unfoldable pub add_pairs :
      Bool → Candidate A → List (Candidate A) → List (CandidatePair A) → List (CandidatePair A)
  add_pairs is_controlling l [] pairs = pairs
  add_pairs is_controlling l (r ∷ rs) pairs =
      add_pairs is_controlling l rs (add_pair is_controlling l r pairs)

  unfoldable pub add_all :
      Bool
      → List (Candidate A)
      → List (Candidate A)
      → List (CandidatePair A)
      → List (CandidatePair A)
  add_all is_controlling [] remote pairs = pairs
  add_all is_controlling (l ∷ ls) remote pairs =
      add_all is_controlling ls remote (add_pairs is_controlling l remote pairs)

  unfoldable pub form_candidate_pairs :
      Bool
      → List (Candidate A)
      → List (Candidate A)
      → List (CandidatePair A)
      → List (CandidatePair A)
  form_candidate_pairs is_controlling local remote pairs =
      unfreeze [] (sort_pairs (add_all is_controlling local remote pairs))
