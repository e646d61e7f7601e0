-- ===== src/Loader/Search.antt =====
-- Which library `RealApi` of adapter/real_api.h finds.
use dtio.Prelude.{
  ◌≡◌, refl, ap, ◌∙◌, ◌⊎◌, inl, inr, Bool, true, false, not, ◌&&◌, Option, none, some, List, [],
  ◌∷◌, ◌++◌, All, Str, Bool-cases, arith, if◌then◌else◌,
}
use dtio.Loader.{RealApiIter, real_api_iter, callback, iterate, real_api}

module _ (exports : Str → Str → Bool) (symbol_name marker : Str) where
  -- An object that has the symbol, and is no adapter of DTIO.
  abbrev pub is_real : Str → Bool
  is_real path = not (exports path marker) && exports path symbol_name

  -- The search has not found anything yet.
  abbrev searching : RealApiIter
  searching = real_api_iter symbol_name marker

  -- The search has ended with an object.
  abbrev ended : Str → RealApiIter
  ended path = record searching { lib_path = some path }

  iterate-ended :
      (objects : List Str) (path : Str) → iterate exports objects (ended path) ≡ ended path
  unfolding iterate callback
  iterate-ended [] path = refl
  iterate-ended (p ∷ objects) path =
      ap (iterate exports objects) (kept p) ∙ iterate-ended objects path
    where
      kept : (p : Str) → callback exports p (ended path) ≡ ended path
      kept p = ground arith

  callback-searching :
      (p : Str) → callback exports p searching ≡ (if is_real p then ended p else searching)
  unfolding callback
  callback-searching p = ground arith

  -- What the search ends with: nothing, if no object is real, or the first that is.
  abbrev pub IsFirst : List Str → Option Str → Type 0
  IsFirst objects o =
      ((o ≡ none) × All (λ p. is_real p ≡ false) objects)
      ⊎ ((before : List Str) × (path : Str) × (after : List Str) × (objects
            ≡ before ++ (path ∷ after))
          × All (λ p. is_real p ≡ false) before
          × (is_real path ≡ true)
          × (o ≡ some path))

  iterate-IsFirst :
      (objects : List Str) → IsFirst objects (iterate exports objects searching).lib_path
  unfolding iterate
  iterate-IsFirst [] = inl (refl, tt)
  iterate-IsFirst (p ∷ objects) = elim (Bool-cases (is_real p)) [
    | inl real ↦ inr (
      [],
      p,
      objects,
      refl,
      tt,
      real,
      ap (λ i. (iterate exports objects i).lib_path) (callback-searching p ∙ rw real refl)
          ∙ ap (λ i. i.lib_path) (iterate-ended objects p),
    )
    | inr other ↦
        let next : callback exports p searching ≡ searching =
          callback-searching p ∙ rw other refl in
        let same = ap (λ i. (iterate exports objects i).lib_path) next in
        elim (iterate-IsFirst objects) [
          | inl (missing, all) ↦ inl (same ∙ missing, (other, all))
          | inr (before, path, after, split, all, real, found) ↦
              inr (p ∷ before, path, after, ap (◌∷◌ p) split, (other, all), real, same ∙ found)
        ]
  ]

-- The library of an adapter is the first loaded object that exports the symbol and does not export
-- the adapter's own marker, so never an object with the marker; and no library is set exactly when
-- there is no such object.
pub real_api-IsFirst :
    (exports : Str → Str → Bool) (defined : Str → Bool) (objects : List Str)
    (symbol_name is_intercepted : Str)
    → IsFirst exports symbol_name is_intercepted objects
        (real_api exports defined objects symbol_name is_intercepted).real_lib
unfolding real_api
real_api-IsFirst exports defined objects symbol_name is_intercepted =
    iterate-IsFirst exports symbol_name is_intercepted objects
