-- ===== src/Common/Dict.antt =====
-- Hash maps as lists of entries. Keys have a Boolean equality, an instance.
use Prim.Native.Nat.{ℕ, ◌+◌}
use mathlib.Core.Path.{◌≡◌, refl, sym}
use mathlib.Core.Logic.{◌↔◌, inl, inr}
use mathlib.Core.Bool.{Bool, true, false, ◌||◌}
use mathlib.Core.Option.{Option, none, some}
use mathlib.Core.List.{List, [], ◌∷◌, map}
use native.Mathlib.Omega.{arith}
use rsiprtp.Common.Lists.{length}
use rsiprtp.Common.Tests.{Bool-cases, ◌==◌, ==_iff, if◌then◌else◌}

pub record Key {ℓ} (K : Type ℓ) : Type ℓ where
  pub same : K → K → Bool
  pub same_iff : (a b : K) → (same a b ≡ true) ↔ (a ≡ b)

instance abbrev pub number_key : Key ℕ
number_key = record { same = ◌==◌; same_iff = ==_iff }

module _ {ℓ} {K : Type ℓ} ⦃key : Key K⦄ where
  abbrev pub contains : K → List K → Bool
  contains k [] = false
  contains k (j ∷ js) = key.same j k || contains k js

module _ {ℓ} {K V : Type ℓ} ⦃key : Key K⦄ where
  unfoldable pub lookup : K → List (K × V) → Option V
  lookup k [] = none
  lookup k ((j, v) ∷ d) = if key.same j k then some v else lookup k d

  -- `HashMap::insert`, which replaces the value of a key that is there.
  unfoldable pub insert : K → V → List (K × V) → List (K × V)
  insert k v [] = (k, v) ∷ []
  insert k v ((j, w) ∷ d) = if key.same j k then (k, v) ∷ d else (j, w) ∷ insert k v d

  unfoldable pub remove : K → List (K × V) → List (K × V)
  remove k [] = []
  remove k ((j, w) ∷ d) = let rest = remove k d in if key.same j k then rest else (j, w) ∷ rest

  pub lookup-insert :
      (k j : K) (v : V) (d : List (K × V))
      → lookup j (insert k v d) ≡ (if key.same k j then some v else lookup j d)
  unfolding lookup insert
  lookup-insert k j v [] = refl
  lookup-insert k j v ((i, w) ∷ d) =
      ground (arith, key.same_iff k j, key.same_iff i k, key.same_iff i j, lookup-insert k j v d)

  pub lookup-remove :
      (k j : K) (d : List (K × V))
      → lookup j (remove k d) ≡ (if key.same k j then none else lookup j d)
  unfolding lookup remove
  lookup-remove k j [] = ground arith
  lookup-remove k j ((i, w) ∷ d) =
      ground (arith, key.same_iff k j, key.same_iff i k, key.same_iff i j, lookup-remove k j d)

  -- Each key stands in one entry.
  abbrev pub Distinct : List (K × V) → Type ℓ
  Distinct [] = Unit {ℓ}
  Distinct ((k, v) ∷ d) = (lookup k d ≡ none) × Distinct d

  pub insert-Distinct : (k : K) (v : V) (d : List (K × V)) → Distinct d → Distinct (insert k v d)
  unfolding lookup insert
  insert-Distinct k v [] h = (refl, tt)
  insert-Distinct k v ((j, w) ∷ d) (h, hs) = elim (Bool-cases (key.same j k)) [
    | inl here ↦ rw (here, sym ((key.same_iff j k).0 here)) (h, hs)
    | inr there ↦
        rw (there, lookup-insert k j v d)
          (ground (arith, key.same_iff k j, key.same_iff j k), insert-Distinct k v d hs)
  ]

  pub remove-Distinct : (k : K) (d : List (K × V)) → Distinct d → Distinct (remove k d)
  unfolding remove
  remove-Distinct k [] h = tt
  remove-Distinct k ((j, w) ∷ d) (h, hs) = elim (Bool-cases (key.same j k)) [
    | inl here ↦ rw here (remove-Distinct k d hs)
    | inr there ↦ rw (there, lookup-remove k j d) (ground arith, remove-Distinct k d hs)
  ]

  unfoldable pub remove_all : List K → List (K × V) → List (K × V)
  remove_all [] d = d
  remove_all (k ∷ ks) d = remove_all ks (remove k d)

  pub lookup-remove_all :
      (ks : List K) (j : K) (d : List (K × V))
      → lookup j (remove_all ks d) ≡ (if contains j ks then none else lookup j d)
  unfolding remove_all
  lookup-remove_all [] j d = refl
  lookup-remove_all (k ∷ ks) j d =
      ground (arith, lookup-remove k j d, lookup-remove_all ks j (remove k d))

  pub remove_all-Distinct :
      (ks : List K) (d : List (K × V)) → Distinct d → Distinct (remove_all ks d)
  unfolding remove_all
  remove_all-Distinct [] d h = h
  remove_all-Distinct (k ∷ ks) d h = remove_all-Distinct ks (remove k d) (remove-Distinct k d h)

abbrev pub is_done {ℓ} : {V : Type ℓ} → (V → Bool) → Option V → Bool
is_done done none = false
is_done done (some v) = done v

module _ {ℓ} {K L V : Type ℓ} ⦃key : Key K⦄ ⦃label : Key L⦄ (done : V → Bool) (name : V → L) where
  -- The keys and labels of the entries that are done.
  unfoldable pub expired : List (K × V) → List (K × L)
  expired [] = []
  expired ((k, v) ∷ d) = let rest = expired d in if done v then (k, name v) ∷ rest else rest

  pub contains-expired :
      (k : K) (d : List (K × V))
      → Distinct d
      → contains k (map (λ e. e.0) (expired d)) ≡ is_done done (lookup k d)
  unfolding lookup expired
  contains-expired k [] h = refl
  contains-expired k ((j, v) ∷ d) (h, hs) =
      ground (arith, key.same_iff j k, contains-expired k d hs)

  pub contains-expired_label :
      (k : K) (v : V) (d : List (K × V))
      → lookup k d ≡ some v
      → done v ≡ true
      → contains (name v) (map (λ e. e.1) (expired d)) ≡ true
  unfolding lookup expired
  contains-expired_label k v [] h e = ground arith
  contains-expired_label k v ((j, w) ∷ d) h e =
      ground (arith, label.same_iff (name w) (name v), contains-expired_label k v d)

module _ {ℓ} {K V : Type ℓ} ⦃key : Key K⦄ where
  pub length-insert :
      (k : K) (v : V) (d : List (K × V)) → lookup k d ≡ none → length (insert k v d) ≡ length d + 1
  unfolding lookup insert
  length-insert k v [] h = refl
  length-insert k v ((j, w) ∷ d) h = ground (arith, length-insert k v d)

  remove_missing : (k : K) (d : List (K × V)) → lookup k d ≡ none → remove k d ≡ d
  unfolding lookup remove
  remove_missing k [] h = refl
  remove_missing k ((j, w) ∷ d) h = ground (arith, remove_missing k d)

  pub length-remove :
      (k : K) (v : V) (d : List (K × V))
      → Distinct d
      → lookup k d ≡ some v
      → length (remove k d) + 1 ≡ length d
  unfolding lookup remove
  length-remove k v [] hs h = ground arith
  length-remove k v ((j, w) ∷ d) (new, hs) h = elim (Bool-cases (key.same j k)) [
    | inl here ↦
        rw (here, remove_missing k d (rw (sym ((key.same_iff j k).0 here)) new)) (omega arith)
    | inr there ↦ rw there (ground (arith, length-remove k v d hs))
  ]
