-- ===== src/Vol/Chunks/Step.antt =====
-- The step to the next chunk in adapter/vol/vol-old/H5VLDTIO.cc follows the order of the grid.
use dtio.Prelude.{
  ℕ, zero, suc, ◌+◌, ◌*◌, ◌/◌, ◌%◌, ◌^◌, ◌<◌, ◌≤◌, ◌≡◌, refl, sym, ap, ◌∙◌, Bool, true, false, List,
  [], ◌∷◌, if◌then◌else◌, ltb, ◌⊎◌, inl, inr, All, arith,
}
use native.Mathlib.Nat.{div-add-mod', mod-lt, add-mul}
use dtio.Vol.Chunks.{Axis, increment, moved, starts}
use dtio.Vol.Chunks.Grid.{
  Place, grid, ahead, here, restart, onward, grid-restart, ahead_last, ahead-onward, ahead_inner,
  chunk_starts, crossed,
}

-- A dimension of the selection and the walk over its chunks: no chunk is empty, the next one's start
-- is a word of 62 bits, and the last number is that of the chunk in which the selection ends.
pub record Fits (a : Axis) (p : Place) : Type 0 where
  pub same_chunk : a.chunk_dim ≡ p.chunk
  pub some_length : 0 < a.chunk_dim
  pub from : a.first_start ≡ p.first * p.chunk
  pub in_word : a.sel_end + a.chunk_dim < 2 ^ 62
  pub last_first : a.sel_end / a.chunk_dim ≡ p.first + p.more
  pub last_here : a.sel_end / a.chunk_dim ≡ p.at + p.left

abbrev pub AllFit : List Axis → List Place → Type 0
AllFit [] [] = Unit
AllFit [] (p ∷ ps) = ⊥
AllFit (a ∷ axes) [] = ⊥
AllFit (a ∷ axes) (p ∷ ps) = Fits a p × AllFit axes ps

pub AllFit-restart :
    (axes : List Axis) (ps : List Place) → AllFit axes ps → AllFit axes (restart ps)
AllFit-restart [] [] h = tt
AllFit-restart [] (p ∷ ps) h = absurd h
AllFit-restart (a ∷ axes) [] h = absurd h
AllFit-restart (a ∷ axes) (p ∷ ps) (f, h) = (
  record {
    same_chunk = f.same_chunk;
    some_length = f.some_length;
    from = f.from;
    in_word = f.in_word;
    last_first = f.last_first;
    last_here = f.last_first;
  },
  AllFit-restart axes ps h,
)

-- The start of the chunk after the present one, and whether it is in the bounds.
next_start : (k d e : ℕ) → k * d ≤ e → e + d < 2 ^ 62 → (k * d + d) % 2 ^ 64 ≡ suc k * d
next_start k d e h w = omega (arith, add-mul k 1 d)

at_most : (k d e n : ℕ) → 0 < d → e / d ≡ k + n → k * d + n * d ≤ e
at_most k d e n h q = omega (arith, div-add-mod' e d, ap (λ (t : ℕ). t * d) q, add-mul k n d)

beyond : (k d e : ℕ) → 0 < d → e / d ≡ k + 0 → e < suc k * d
beyond k d e h q =
    omega (arith, div-add-mod' e d, mod-lt e h, ap (λ (t : ℕ). t * d) q, add-mul k 1 d)

within : (k d e n : ℕ) → 0 < d → e / d ≡ k + suc n → suc k * d ≤ e
within k d e n h q = omega (arith, at_most k d e (suc n) h q, add-mul k 1 d, add-mul 1 n d)

-- A walk at the start is at the chunk in which the selection starts.
pub starts_lem :
    (axes : List Axis) (ps : List Place) → AllFit axes ps → starts axes ≡ here (restart ps)
starts_lem [] [] h = refl
starts_lem [] (p ∷ ps) h = absurd h
starts_lem (a ∷ axes) [] h = absurd h
starts_lem (a ∷ axes) (p ∷ ps) (f, h) = λ i. f.from i ∷ starts_lem axes ps h i

-- Either the present chunk is the last one, or the step gives the place of the next one.
abbrev pub Stepped : List Axis → List Place → Bool × List ℕ → Type 0
Stepped axes ps r =
    ((r ≡ (true, starts axes)) × (ahead ps ≡ here ps ∷ []))
    ⊎ ((qs : List Place) × (r ≡ (false, here qs))
        × AllFit axes qs
        × (grid qs ≡ grid ps)
        × (ahead ps ≡ here ps ∷ ahead qs))

past_end :
    (a : Axis) (p : Place)
    → Fits a p
    → p.left ≡ 0
    → ltb a.sel_end ((p.at * p.chunk + a.chunk_dim) % 2 ^ 64) ≡ true
past_end a p f z =
    let q = f.last_here ∙ ap (λ (n : ℕ). p.at + n) z in
    let low = at_most p.at a.chunk_dim a.sel_end 0 f.some_length q in
    let next = next_start p.at a.chunk_dim a.sel_end (omega arith) f.in_word in
    rw (sym f.same_chunk, next) (ground (arith, beyond p.at a.chunk_dim a.sel_end f.some_length q))

not_past_end :
    (a : Axis) (p : Place) (n : ℕ)
    → Fits a p
    → p.left ≡ suc n
    → (ltb a.sel_end ((p.at * p.chunk + a.chunk_dim) % 2 ^ 64) ≡ false)
      × ((p.at * p.chunk + a.chunk_dim) % 2 ^ 64 ≡ suc p.at * p.chunk)
not_past_end a p n f z =
    let q = f.last_here ∙ ap (λ (m : ℕ). p.at + m) z in
    let low = at_most p.at a.chunk_dim a.sel_end (suc n) f.some_length q in
    let next = next_start p.at a.chunk_dim a.sel_end (omega arith) f.in_word in
    (
      rw (sym f.same_chunk, next)
          (ground (arith, within p.at a.chunk_dim a.sel_end n f.some_length q)),
      rw (sym f.same_chunk) next,
    )

-- A dimension that is asked to move.
carry :
    (a : Axis) (axes : List Axis) (p : Place) (ps : List Place) (n : ℕ)
    → p.left ≡ n
    → Fits a p
    → AllFit axes ps
    → ahead ps ≡ here ps ∷ []
    → Stepped (a ∷ axes) (p ∷ ps) (moved a (p.at * p.chunk) (true, starts axes))
unfolding grid
carry a axes p ps zero z f h e = inl (
  ap
      (λ (b : Bool).
        if b
        then (true, starts (a ∷ axes))
        else (false, (p.at * p.chunk + a.chunk_dim) % 2 ^ 64 ∷ starts axes))
      (past_end a p f z),
  ahead_last p ps e z,
)
carry a axes p ps (suc n) z f h e =
    let (stays, next) = not_past_end a p n f z in
    inr (
      onward p n ∷ restart ps,
      ap
            (λ (b : Bool).
              if b
              then (true, starts (a ∷ axes))
              else (false, (p.at * p.chunk + a.chunk_dim) % 2 ^ 64 ∷ starts axes))
            stays
          ∙ (λ i. (false, next i ∷ starts_lem axes ps h i)),
      (
        record {
          same_chunk = f.same_chunk;
          some_length = f.some_length;
          from = f.from;
          in_word = f.in_word;
          last_first = f.last_first;
          last_here = omega (arith, f.last_here);
        },
        AllFit-restart axes ps h,
      ),
      ap (crossed (chunk_starts p.chunk p.first (suc p.more))) (grid-restart ps),
      ahead-onward p ps n e z,
    )

in_front :
    (a : Axis) (axes : List Axis) (p : Place) (ps : List Place) (r : Bool × List ℕ)
    → Fits a p
    → AllFit axes ps
    → Stepped axes ps r
    → Stepped (a ∷ axes) (p ∷ ps) (moved a (p.at * p.chunk) r)
unfolding grid
in_front a axes p ps r f h (inl (e, last)) = rw (e) (carry a axes p ps p.left refl f h last)
in_front a axes p ps r f h (inr (qs, e, fit, g, next)) = inr (
  p ∷ qs,
  ap (moved a (p.at * p.chunk)) e,
  (f, fit),
  ap (crossed (chunk_starts p.chunk p.first (suc p.more))) g,
  ahead_inner p ps qs next g,
)

pub increment-Stepped :
    (axes : List Axis) (ps : List Place)
    → AllFit axes ps
    → Stepped axes ps (increment axes (here ps))
unfolding increment grid ahead
increment-Stepped [] [] h = inl (refl, refl)
increment-Stepped [] (p ∷ ps) h = absurd h
increment-Stepped (a ∷ axes) [] h = absurd h
increment-Stepped (a ∷ axes) (p ∷ ps) (f, h) =
    in_front a axes p ps (increment axes (here ps)) f h (increment-Stepped axes ps h)

-- The coordinates of a place in the bounds.
pub here_small :
    (axes : List Axis) (ps : List Place) → AllFit axes ps → All (λ x. x < 2 ^ 62) (here ps)
here_small [] [] h = tt
here_small [] (p ∷ ps) h = absurd h
here_small (a ∷ axes) [] h = absurd h
here_small (a ∷ axes) (p ∷ ps) (f, h) = (
  rw (sym f.same_chunk) (
      omega
        (arith, at_most p.at a.chunk_dim a.sel_end p.left f.some_length f.last_here, f.in_word)),
  here_small axes ps h,
)
