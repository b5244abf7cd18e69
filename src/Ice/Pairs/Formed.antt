-- ===== src/Ice/Pairs/Formed.antt =====
-- Which pairs `form_candidate_pairs` forms, crates/rsiprtp/src/ice/agent.rs, and in which order.
use Prim.Native.String.{String}
use rsiprtp.Common.{
  ◌==◌, ℕ, ◌≤◌, List, [], ◌∷◌, ◌++◌, Bool, false, ◌&&◌, ◌||◌, Bool-cases, inl, inr, ltb, Key, ◌≡◌,
  refl, arith,
}
use rsiprtp.Ice.Candidate.{Candidate, same_transport}
use rsiprtp.Ice.Pairs.{
  CandidatePair, insert_pair, sort_pairs, unfreeze, compatible, exists, add_pair, add_pairs,
  add_all, form_candidate_pairs,
}

module _ {A : Type 0} where
  abbrev Below : ℕ → List (CandidatePair A) → Type 0
  Below n [] = Unit {0}
  Below n (p ∷ ps) = p.priority ≤ n

  -- By falling priority.
  abbrev pub Sorted : List (CandidatePair A) → Type 0
  Sorted [] = Unit {0}
  Sorted (p ∷ ps) = Below p.priority ps × Sorted ps

  insert_pair-Below :
      (n : ℕ) (p : CandidatePair A) (ps : List (CandidatePair A))
      → p.priority ≤ n
      → Below n ps
      → Below n (insert_pair p ps)
  unfolding insert_pair
  insert_pair-Below n p [] a b = a
  insert_pair-Below n p (q ∷ qs) a b = ground arith

  insert_pair-Sorted :
      (p : CandidatePair A) (ps : List (CandidatePair A)) → Sorted ps → Sorted (insert_pair p ps)
  unfolding insert_pair
  insert_pair-Sorted p [] h = (tt, tt)
  insert_pair-Sorted p (q ∷ qs) (b, h) = elim (Bool-cases (ltb p.priority q.priority)) [
    | inl after ↦
        rw after (insert_pair-Below q.priority p qs (ground arith) b, insert_pair-Sorted p qs h)
    | inr before ↦ rw before (ground arith, (b, h))
  ]

  sort_pairs-Sorted : (ps : List (CandidatePair A)) → Sorted (sort_pairs ps)
  unfolding sort_pairs
  sort_pairs-Sorted [] = tt
  sort_pairs-Sorted (p ∷ ps) = insert_pair-Sorted p (sort_pairs ps) (sort_pairs-Sorted ps)

  unfreeze-Below :
      (n : ℕ) (ks : List (String × String)) (ps : List (CandidatePair A))
      → Below n ps
      → Below n (unfreeze ks ps)
  unfolding unfreeze
  unfreeze-Below n ks [] h = h
  unfreeze-Below n ks (p ∷ ps) h = ground arith

  unfreeze-Sorted :
      (ks : List (String × String)) (ps : List (CandidatePair A))
      → Sorted ps
      → Sorted (unfreeze ks ps)
  unfolding unfreeze
  unfreeze-Sorted ks [] h = tt
  unfreeze-Sorted ks (p ∷ ps) (b, h) =
      let key : String × String = (p.local.foundation, p.remote.foundation) in
      ground (
        arith,
        unfreeze-Below p.priority ks ps b,
        unfreeze-Below p.priority (key ∷ ks) ps b,
        unfreeze-Sorted ks ps h,
        unfreeze-Sorted (key ∷ ks) ps h,
      )

module _ {A : Type 0} ⦃key : Key A⦄ where
  -- The pairs of addresses that the lists allow: same component and transport.
  abbrev pub allowed_with : A → A → Candidate A → List (Candidate A) → Bool
  allowed_with a b l [] = false
  allowed_with a b l (r ∷ rs) =
      l.component == r.component
        && same_transport l.transport r.transport
        && key.same l.address a
        && key.same r.address b
      || allowed_with a b l rs

  abbrev pub allowed : A → A → List (Candidate A) → List (Candidate A) → Bool
  allowed a b [] remote = false
  allowed a b (l ∷ ls) remote = allowed_with a b l remote || allowed a b ls remote

  exists-append :
      (a b : A) (ps : List (CandidatePair A)) (p : CandidatePair A)
      → exists a b (ps ++ (p ∷ []))
        ≡ (exists a b ps || key.same p.local.address a && key.same p.remote.address b)
  unfolding exists
  exists-append a b [] p = ground arith
  exists-append a b (q ∷ qs) p = ground (arith, exists-append a b qs p)

  exists-add_pair :
      (controlling : Bool) (a b : A) (l r : Candidate A) (ps : List (CandidatePair A))
      → exists a b (add_pair controlling l r ps)
        ≡ (exists a b ps || compatible l r && key.same l.address a && key.same r.address b)
  unfolding add_pair exists
  exists-add_pair controlling a b l r ps = elim (Bool-cases (compatible l r)) [
    | inr apart ↦ rw (add_pair, apart) (ground arith)
    | inl fits ↦ elim (Bool-cases (exists l.address r.address ps)) [
      | inr new ↦ rw (add_pair, fits, new) (exists-append a b ps _)
      | inl known ↦
          rw (add_pair, fits, known)
            (ground (arith, key.same_iff l.address a, key.same_iff r.address b))
    ]
  ]

  exists-insert_pair :
      (a b : A) (p : CandidatePair A) (ps : List (CandidatePair A))
      → exists a b (insert_pair p ps) ≡ exists a b (p ∷ ps)
  unfolding insert_pair exists
  exists-insert_pair a b p [] = refl
  exists-insert_pair a b p (q ∷ qs) = ground (arith, exists-insert_pair a b p qs)

  exists-sort_pairs :
      (a b : A) (ps : List (CandidatePair A)) → exists a b (sort_pairs ps) ≡ exists a b ps
  unfolding sort_pairs exists
  exists-sort_pairs a b [] = refl
  exists-sort_pairs a b (p ∷ ps) =
      ground (arith, exists-insert_pair a b p (sort_pairs ps), exists-sort_pairs a b ps)

  exists-unfreeze :
      (a b : A) (ks : List (String × String)) (ps : List (CandidatePair A))
      → exists a b (unfreeze ks ps) ≡ exists a b ps
  unfolding unfreeze exists
  exists-unfreeze a b ks [] = refl
  exists-unfreeze a b ks (p ∷ ps) = ground (
    arith,
    exists-unfreeze a b ks ps,
    exists-unfreeze a b ((p.local.foundation, p.remote.foundation) ∷ ks) ps,
  )

  exists-add_pairs :
      (controlling : Bool) (a b : A) (l : Candidate A) (rs : List (Candidate A))
      (ps : List (CandidatePair A))
      → exists a b (add_pairs controlling l rs ps) ≡ (exists a b ps || allowed_with a b l rs)
  unfolding add_pairs
  exists-add_pairs controlling a b l [] ps = ground arith
  exists-add_pairs controlling a b l (r ∷ rs) ps = ground (
    arith,
    exists-add_pairs controlling a b l rs (add_pair controlling l r ps),
    exists-add_pair controlling a b l r ps,
  )

  exists-add_all :
      (controlling : Bool) (a b : A) (ls rs : List (Candidate A)) (ps : List (CandidatePair A))
      → exists a b (add_all controlling ls rs ps) ≡ (exists a b ps || allowed a b ls rs)
  unfolding add_all
  exists-add_all controlling a b [] rs ps = ground arith
  exists-add_all controlling a b (l ∷ ls) rs ps = ground (
    arith,
    exists-add_all controlling a b ls rs (add_pairs controlling l rs ps),
    exists-add_pairs controlling a b l rs ps,
  )

  -- The agent has a pair of two addresses afterwards exactly if it had one or if a local and a remote
  -- candidate with these addresses have one component and one transport; and the pairs stand by falling
  -- priority.
  pub pairs_formed :
      (controlling : Bool) (a b : A) (ls rs : List (Candidate A)) (ps : List (CandidatePair A))
      → let formed = form_candidate_pairs controlling ls rs ps in
        (exists a b formed ≡ (exists a b ps || allowed a b ls rs)) × Sorted formed
  unfolding form_candidate_pairs
  pairs_formed controlling a b ls rs ps =
      let added = add_all controlling ls rs ps in
      (
        ground (
          arith,
          exists-unfreeze a b [] (sort_pairs added),
          exists-sort_pairs a b added,
          exists-add_all controlling a b ls rs ps,
        ),
        unfreeze-Sorted [] (sort_pairs added) (sort_pairs-Sorted added),
      )
