-- ===== src/Prelude/Dict.antt =====
-- `std::unordered_map`: an association list with the operations that the program uses. The order
-- of the entries is not observed by the program.
use mathlib.Core.Path.{◌≡◌, refl}
use mathlib.Core.Bool.{true}
use mathlib.Core.Logic.{inl, inr}
use mathlib.Core.Option
use mathlib.Core.Option.{Option, none, some}
use mathlib.Core.List.{List, [], ◌∷◌}
use native.Mathlib.Omega.{arith}
use dtio.Prelude.Tests.{EqualTo, ◌==◌, Option-cases, if◌then◌else◌}

abbrev pub Dict {ℓ κ} : Type ℓ → Type κ → Type (ℓ ⊔ κ)
Dict K V = List (K × V)

pub ==_refl {ℓ} : {K : Type ℓ} ⦃e : EqualTo K⦄ (k : K) → (k == k) ≡ true
==_refl ⦃e⦄ k = (e.equal_iff k k).1 refl

module _ {ℓ κ} {K : Type ℓ} {V : Type κ} ⦃e : EqualTo K⦄ where
  -- `m.find(k)`
  unfoldable pub lookup : K → Dict K V → Option V
  lookup k [] = none
  lookup k ((j, v) ∷ d) = if j == k then some v else lookup k d

  -- `m[k] = v`
  unfoldable pub insert : K → V → Dict K V → Dict K V
  insert k v [] = (k, v) ∷ []
  insert k v ((j, w) ∷ d) = if j == k then (j, v) ∷ d else (j, w) ∷ insert k v d

  -- `m.erase(k)`
  unfoldable pub erase : K → Dict K V → Dict K V
  erase k [] = []
  erase k ((j, v) ∷ d) = let rest = erase k d in if j == k then rest else (j, v) ∷ rest

  -- `auto it = m.find(k); if (it != m.end()) it->second = f(it->second);`
  unfoldable pub modify : K → (V → V) → Dict K V → Dict K V
  modify k f d = elim (lookup k d) [ none ↦ d | some v ↦ insert k (f v) d ]

  pub lookup-insert :
      (j k : K) (v : V) (d : Dict K V)
      → lookup j (insert k v d) ≡ (if k == j then some v else lookup j d)
  unfolding lookup insert
  lookup-insert j k v [] = refl
  lookup-insert j k v ((i, w) ∷ d) =
      ground (arith, e.equal_iff k j, e.equal_iff i k, e.equal_iff i j, lookup-insert j k v d)

  pub lookup-erase :
      (j k : K) (d : Dict K V) → lookup j (erase k d) ≡ (if k == j then none else lookup j d)
  unfolding lookup erase
  lookup-erase j k [] = ground arith
  lookup-erase j k ((i, w) ∷ d) =
      ground (arith, e.equal_iff k j, e.equal_iff i k, e.equal_iff i j, lookup-erase j k d)

  lookup-modify_missing :
      (j k : K) (f : V → V) (d : Dict K V)
      → lookup k d ≡ none
      → lookup j d ≡ (if k == j then Option.map f (lookup j d) else lookup j d)
  lookup-modify_missing j k f d h = ground (arith, e.equal_iff k j)

  lookup-modify_found :
      (j k : K) (f : V → V) (d : Dict K V) (v : V)
      → lookup k d ≡ some v
      → lookup j (insert k (f v) d) ≡ (if k == j then Option.map f (lookup j d) else lookup j d)
  lookup-modify_found j k f d v h = ground (arith, e.equal_iff k j, lookup-insert j k (f v) d)

  pub lookup-modify :
      (j k : K) (f : V → V) (d : Dict K V)
      → lookup j (modify k f d) ≡ (if k == j then Option.map f (lookup j d) else lookup j d)
  unfolding modify
  lookup-modify j k f d = elim (Option-cases (lookup k d)) [
    | inl e ↦ rw (e, modify) (lookup-modify_missing j k f d e)
    | inr (v, e) ↦ rw (e, modify) (lookup-modify_found j k f d v e)
  ]

  -- No key stands twice.
  abbrev pub NodupKeys : Dict K V → Type κ
  NodupKeys [] = Unit
  NodupKeys ((k, _) ∷ d) = (lookup k d ≡ none) × NodupKeys d

  pub insert-NodupKeys : (k : K) (v : V) (d : Dict K V) → NodupKeys d → NodupKeys (insert k v d)
  unfolding insert lookup
  insert-NodupKeys k v [] u = (refl, tt)
  insert-NodupKeys k v ((j, w) ∷ d) (fresh, u) =
      ground
        (arith, e.equal_iff j k, e.equal_iff k j, insert-NodupKeys k v d u, lookup-insert j k v d)

  pub erase-NodupKeys : (k : K) (d : Dict K V) → NodupKeys d → NodupKeys (erase k d)
  unfolding erase lookup
  erase-NodupKeys k [] u = tt
  erase-NodupKeys k ((j, w) ∷ d) (fresh, u) =
      ground (arith, erase-NodupKeys k d u, lookup-erase j k d, e.equal_iff k j)
