-- ===== src/Vol/Chunks/Selected.antt =====
-- `H5VL_dtio_get_selected_chunk_info` of adapter/vol/vol-old/H5VLDTIO.cc finds the chunks that a
-- selection touches.
use dtio.Prelude.{
  ℕ, zero, suc, ◌+◌, ◌-◌, ◌%◌, ◌^◌, ◌<◌, ◌≤◌, ◌≡◌, refl, sym, ap, ◌∙◌, Bool, true, false, List, [],
  ◌∷◌, Option, some, length, if◌then◌else◌, ltb, nat_eq, ◌==◌, Bool-cases, inl, inr, arith,
}
use dtio.Exec.{Exec, ok}
use dtio.Vol.Chunks.{
  SpaceApi, ChunkInfo, Axis, Found, chunk_loop, round, go_on, with_info, end_coords, increment,
  starts,
}
use dtio.Vol.Chunks.Grid.{Place, ahead, here}
use dtio.Vol.Chunks.Step.{AllFit, increment-Stepped}

-- The points in the chunks of a list, and the entries for those that have some.
abbrev pub total : (List ℕ → ℕ) → List (List ℕ) → ℕ
total count [] = 0
total count (c ∷ cs) = count c + total count cs

abbrev pub touched {ℓ} : {A : Type ℓ} → (List ℕ → ℕ) → (List ℕ → A) → List (List ℕ) → List A
touched count entry [] = []
touched count entry (c ∷ cs) =
    if ltb 0 (count c) then entry c ∷ touched count entry cs else touched count entry cs

none_touched {ℓ} :
    {A : Type ℓ} (count : List ℕ → ℕ) (entry : List ℕ → A) (cs : List (List ℕ))
    → total count cs ≡ 0
    → touched count entry cs ≡ []
none_touched count entry [] h = refl
none_touched count entry (c ∷ cs) h = ground (arith, none_touched count entry cs)

-- Where there are points, some chunk has them.
pub some_touched {ℓ} :
    {A : Type ℓ} (count : List ℕ → ℕ) (entry : List ℕ → A) (cs : List (List ℕ)) (n : ℕ)
    → total count cs ≡ suc n
    → (a : A) × (others : List A) × (touched count entry cs ≡ a ∷ others)
some_touched count entry [] n h = absurd (omega arith)
some_touched count entry (c ∷ cs) n h = elim (Bool-cases (ltb 0 (count c))) [
  | inl yes_points ↦ (entry c, touched count entry cs, rw yes_points refl)
  | inr no_points ↦
      let (a, others, e) = some_touched count entry cs n (none_here no_points h) in
      (a, others, rw no_points e)
]
  where
    none_here : ltb 0 (count c) ≡ false → count c + total count cs ≡ suc n → total count cs ≡ suc n
    none_here b e = ground arith

module _ {D : Type 0} (api : SpaceApi D) (file : D) (axes : List Axis) (count : List ℕ → ℕ)
    (entry : List ℕ → ChunkInfo D) (info : List ℕ → Exec (Option (ChunkInfo D × ℕ)))
    (touches : (c : List ℕ)
      → api.intersect_block file c (end_coords axes c) ≡ some (ltb 0 (count c)))
    (informs : (ps : List Place)
      → AllFit axes ps
      → info (here ps) ≡ ok (some (entry (here ps), count (here ps)))) where
  abbrev loop : ℕ → ℕ → List ℕ → Found D
  loop fuel n c = chunk_loop api fuel file info axes n c

  abbrev all_of : List (List ℕ) → Found D
  all_of cs = some (ok (some (touched count entry cs)))

  -- A round on a chunk that is touched, and one on a chunk that is not.
  abbrev goes_on : (ℕ → List ℕ → Found D) → ℕ → Bool × List ℕ → Found D
  goes_on next n r = go_on api (next n) r

  round_touched :
      (next : ℕ → List ℕ → Found D) (ps : List Place) (n : ℕ) (r : Bool × List ℕ)
      → AllFit axes ps
      → ltb 0 (count (here ps)) ≡ true
      → increment axes (here ps) ≡ r
      → round api next info axes
          (here ps)
          n
          (api.intersect_block file (here ps) (end_coords axes (here ps)))
        ≡ with_info (entry (here ps)) (
            if (n + 2 ^ 64 - count (here ps)) % 2 ^ 64 == 0
            then some (ok (some []))
            else goes_on next ((n + 2 ^ 64 - count (here ps)) % 2 ^ 64) r)
  round_touched next ps n r fit some_points e =
      rw (touches (here ps), some_points, informs ps fit, e) refl

  round_empty :
      (next : ℕ → List ℕ → Found D) (ps : List Place) (n : ℕ) (r : Bool × List ℕ)
      → ltb 0 (count (here ps)) ≡ false
      → increment axes (here ps) ≡ r
      → round api next info axes
          (here ps)
          n
          (api.intersect_block file (here ps) (end_coords axes (here ps)))
        ≡ goes_on next n r
  round_empty next ps n r no_points e = rw (touches (here ps), no_points, e) refl

  positive : (t : ℕ) → suc t == 0 ≡ false
  positive t = ground arith

  points_left : (n k t : ℕ) → n < 2 ^ 64 → n ≡ k + t → (n + 2 ^ 64 - k) % 2 ^ 64 ≡ t
  points_left n k t h e = omega arith

  -- What is left to be found after the present chunk.
  abbrev Rest : ℕ → List Place → List (List ℕ) → Bool × List ℕ → Type 0
  Rest fuel ps cs r =
      (n : ℕ) → 0 < n → n < 2 ^ 64 → n ≡ total count cs → goes_on (loop fuel) n r ≡ all_of cs

  one_round :
      (fuel n : ℕ) (ps : List Place) (cs : List (List ℕ)) (r : Bool × List ℕ)
      → AllFit axes ps
      → suc n < 2 ^ 64
      → suc n ≡ count (here ps) + total count cs
      → increment axes (here ps) ≡ r
      → Rest fuel ps cs r
      → loop (suc fuel) (suc n) (here ps) ≡ all_of (here ps ∷ cs)
  unfolding chunk_loop
  one_round fuel n ps cs r fit bound e step rest = elim (Bool-cases (ltb 0 (count (here ps)))) [
    | inl some_points ↦
        round_touched (loop fuel) ps (suc n) r fit some_points step
        ∙ (ap
              (λ (left : ℕ).
                with_info (entry (here ps))
                  (if left == 0 then some (ok (some [])) else goes_on (loop fuel) left r))
              (points_left (suc n) (count (here ps)) (total count cs) bound e)
            ∙ (ap (with_info (entry (here ps))) (later (total count cs) refl)
                ∙ ap
                    (λ (b : Bool). some (
                      ok (
                        some (
                          if b
                          then entry (here ps) ∷ touched count entry cs
                          else touched count entry cs))))
                    (sym some_points)))
    | inr no_points ↦
        round_empty (loop fuel) ps (suc n) r no_points step
        ∙ (rest (suc n) (omega arith) bound (ground arith)
            ∙ ap
                (λ (b : Bool). some (
                  ok (
                    some (
                      if b
                      then entry (here ps) ∷ touched count entry cs
                      else touched count entry cs))))
                (sym no_points))
  ]
    where
      later :
          (t : ℕ)
          → t ≡ total count cs
          → (if t == 0 then some (ok (some [])) else goes_on (loop fuel) t r) ≡ all_of cs
      later zero z =
          ap (λ (l : List (ChunkInfo D)). some (ok (some l)))
            (sym (none_touched count entry cs (sym z)))
      later (suc t) z = rw (positive t) (rest (suc t) (omega arith) (omega arith) z)

  some_ahead : (ps : List Place) → AllFit axes ps → 0 < length (ahead ps)
  some_ahead ps fit = elim (increment-Stepped axes ps fit) [
    | inl (_, last) ↦ omega (arith, ap length last)
    | inr (qs, _, _, _, next) ↦ omega (arith, ap length next)
  ]

  -- From a place on, the loop finds the chunks from there that have points.
  pub chunk_loop_lem :
      (fuel n : ℕ) (ps : List Place)
      → AllFit axes ps
      → n < 2 ^ 64
      → n ≡ total count (ahead ps)
      → length (ahead ps) ≤ fuel
      → chunk_loop api fuel file info axes n (here ps) ≡ all_of (ahead ps)
  unfolding chunk_loop
  chunk_loop_lem fuel zero ps fit bound e enough =
      ap (λ (l : List (ChunkInfo D)). some (ok (some l)))
        (sym (none_touched count entry (ahead ps) (sym e)))
  chunk_loop_lem zero (suc n) ps fit bound e enough = absurd (omega (arith, some_ahead ps fit))
  chunk_loop_lem (suc fuel) (suc n) ps fit bound e enough = elim (increment-Stepped axes ps fit) [
    | inl (step, last) ↦
        one_round fuel n ps [] (true, starts axes) fit bound (e ∙ ap (total count) last) step
          (λ m p b z. absurd (omega arith))
        ∙ ap all_of (sym last)
    | inr (qs, step, fit', _, next) ↦
        one_round fuel n ps (ahead qs) (false, here qs) fit bound (e ∙ ap (total count) next) step
          (λ m p b z. chunk_loop_lem fuel m qs fit' b z (omega (arith, ap length next)))
        ∙ ap all_of (sym next)
  ]
