-- ===== src/Vol/Chunks/Found.antt =====
-- The whole of `H5VL_dtio_get_selected_chunk_info`, adapter/vol/vol-old/H5VLDTIO.cc, where the calls of
-- HDF5 succeed.
use dtio.Prelude.{
  ℕ, suc, ◌+◌, ◌-◌, ◌*◌, ◌/◌, ◌^◌, ◌<◌, ◌≤◌, ◌≡◌, refl, sym, ap, ◌∙◌, true, false, List, [], ◌∷◌,
  some, length, nat_eq, ◌==◌, arith,
}
use native.Mathlib.Nat.{div-mul-le_self, le-div_iff_mul-le}
use dtio.Exec.{ok}
use dtio.Prelude.Dict.{==_refl}
use dtio.Vol.Chunks.{
  SpaceApi, Axis, Found, axes_of, starts, get_selected_chunk_info, chunk_info, chunk_loop,
}
use dtio.Vol.Chunks.Grid.{Place, grid, ahead, here, restart, ahead-restart}
use dtio.Vol.Chunks.Step.{AllFit, starts_lem, here_small}
use dtio.Vol.Chunks.Laws.{
  Works, Counts, Starts62, about, chunk_info_lem, file_adjust_lem, differences,
}
use dtio.Vol.Chunks.Selected.{total, touched, chunk_loop_lem}

-- The bounding box of a selection: in each dimension it has a start and an end, the chunks are not
-- empty, and the start of the chunk behind the box is below 2 ^ 62.
abbrev pub IsBox : List (ℕ × ℕ) → List ℕ → Type 0
IsBox [] [] = Unit
IsBox [] (d ∷ dims) = ⊥
IsBox (b ∷ bounds) [] = ⊥
IsBox (b ∷ bounds) (d ∷ dims) = (0 < d) × (b.0 ≤ b.1) × (b.1 + d < 2 ^ 62) × IsBox bounds dims

abbrev pub axis : ℕ × ℕ → ℕ → Axis
axis b d = record { chunk_dim = d; first_start = b.0 / d * d; sel_end = b.1 }

abbrev pub axes : List (ℕ × ℕ) → List ℕ → List Axis
axes [] dims = []
axes (b ∷ bounds) [] = []
axes (b ∷ bounds) (d ∷ dims) = axis b d ∷ axes bounds dims

-- From the chunk in which the box starts to the one in which it ends.
abbrev pub place : ℕ × ℕ → ℕ → Place
place b d = record {
  chunk = d;
  first = b.0 / d;
  more = b.1 / d - b.0 / d;
  at = b.0 / d;
  left = b.1 / d - b.0 / d;
}

abbrev pub places : List (ℕ × ℕ) → List ℕ → List Place
places [] dims = []
places (b ∷ bounds) [] = []
places (b ∷ bounds) (d ∷ dims) = place b d ∷ places bounds dims

-- The corners of the chunks of a box, in row-major order.
abbrev pub box_chunks : List (ℕ × ℕ) → List ℕ → List (List ℕ)
box_chunks bounds dims = grid (places bounds dims)

axes_of_lem :
    (bounds : List (ℕ × ℕ)) (dims : List ℕ)
    → IsBox bounds dims
    → axes_of bounds dims ≡ ok (axes bounds dims)
unfolding axes_of
axes_of_lem [] [] h = refl
axes_of_lem [] (d ∷ dims) h = absurd h
axes_of_lem (b ∷ bounds) [] h = absurd h
axes_of_lem (b ∷ bounds) (d ∷ dims) (p, _, _, h) = rw (not_zero p, axes_of_lem bounds dims h) refl
  where
    not_zero : 0 < d → d == 0 ≡ false
    not_zero q = ground arith

order : (s e d : ℕ) → 0 < d → s ≤ e → s / d ≤ e / d
order s e d p q = (le-div_iff_mul-le p).1 (omega (arith, div-mul-le_self s d))

places-AllFit :
    (bounds : List (ℕ × ℕ)) (dims : List ℕ)
    → IsBox bounds dims
    → AllFit (axes bounds dims) (places bounds dims)
places-AllFit [] [] h = tt
places-AllFit [] (d ∷ dims) h = absurd h
places-AllFit (b ∷ bounds) [] h = absurd h
places-AllFit (b ∷ bounds) (d ∷ dims) (p, q, r, h) =
    let low = order b.0 b.1 d p q in
    (
      record {
        same_chunk = refl;
        some_length = p;
        from = refl;
        in_word = r;
        last_first = omega arith;
        last_here = omega arith;
      },
      places-AllFit bounds dims h,
    )

restart-places :
    (bounds : List (ℕ × ℕ)) (dims : List ℕ) → restart (places bounds dims) ≡ places bounds dims
restart-places [] dims = refl
restart-places (b ∷ bounds) [] = refl
restart-places (b ∷ bounds) (d ∷ dims) = ap (◌∷◌ (place b d)) (restart-places bounds dims)

starts-Starts62 : (bounds : List (ℕ × ℕ)) (dims : List ℕ) → IsBox bounds dims → Starts62 bounds
starts-Starts62 [] [] h = tt
starts-Starts62 [] (d ∷ dims) h = absurd h
starts-Starts62 (b ∷ bounds) [] h = absurd h
starts-Starts62 (b ∷ bounds) (d ∷ dims) (p, q, r, h) = (omega arith, starts-Starts62 bounds dims h)

rank_of :
    (bounds : List (ℕ × ℕ)) (dims : List ℕ) (ps : List Place)
    → AllFit (axes bounds dims) ps
    → IsBox bounds dims
    → length (here ps) ≡ length bounds
rank_of [] [] [] f h = refl
rank_of [] [] (p ∷ ps) f h = absurd f
rank_of [] (d ∷ dims) ps f h = absurd h
rank_of (b ∷ bounds) [] ps f h = absurd h
rank_of (b ∷ bounds) (d ∷ dims) [] f h = absurd f
rank_of (b ∷ bounds) (d ∷ dims) (p ∷ ps) (f, fs) (_, _, _, h) = ap suc (rank_of bounds dims ps fs h)

module _ {D : Type 0} {api : SpaceApi D} (works : Works api) where
  loop_from_box :
      (fuel n : ℕ) (file mem : D) (dims : List ℕ) (bounds mem_bounds : List (ℕ × ℕ))
      (count : List ℕ → ℕ)
      → Counts works file dims (axes bounds dims) count
      → IsBox bounds dims
      → Starts62 mem_bounds
      → length mem_bounds ≡ length bounds
      → n < 2 ^ 64
      → total count (box_chunks bounds dims) ≡ n
      → length (box_chunks bounds dims) ≤ fuel
      → chunk_loop api fuel file
          (chunk_info api file mem dims true (differences bounds mem_bounds))
          (axes bounds dims)
          n
          (starts (axes bounds dims))
        ≡ some (
            ok (
              some (
                touched count
                  (about works file mem dims bounds mem_bounds)
                  (box_chunks bounds dims))))
  loop_from_box fuel n file mem dims bounds mem_bounds count counts box small same bound sum
        enough =
      ap loop (
        starts_lem (axes bounds dims) (places bounds dims) fit
        ∙ ap here (restart-places bounds dims))
      ∙ (chunk_loop_lem api file (axes bounds dims) count
            (about works file mem dims bounds mem_bounds)
            (chunk_info api file mem dims true (differences bounds mem_bounds)) counts.touches
            informs fuel n (places bounds dims) fit bound (sym sum ∙ ap (total count) (sym all))
            (omega (arith, ap length all))
          ∙ ap
              (λ (cs : List (List ℕ)).
                some (ok (some (touched count (about works file mem dims bounds mem_bounds) cs))))
              all)
    where
      fit : AllFit (axes bounds dims) (places bounds dims)
      fit = places-AllFit bounds dims box

      loop : List ℕ → Found D
      loop =
          chunk_loop api fuel file
            (chunk_info api file mem dims true (differences bounds mem_bounds)) (axes bounds dims) n

      all : ahead (places bounds dims) ≡ box_chunks bounds dims
      all = ap ahead (sym (restart-places bounds dims)) ∙ ahead-restart (places bounds dims)

      informs :
          (ps : List Place)
          → AllFit (axes bounds dims) ps
          → chunk_info api file mem dims true (differences bounds mem_bounds) (here ps)
            ≡ ok (some (about works file mem dims bounds mem_bounds (here ps), count (here ps)))
      informs ps f =
          chunk_info_lem works file mem dims bounds mem_bounds (here ps) (count (here ps))
            (starts-Starts62 bounds dims box) small (here_small (axes bounds dims) ps f) same
            (rank_of bounds dims ps f box) (counts.points (here ps))

  -- With at least as much fuel as the bounding box of the selection has chunks, the function succeeds
  -- and returns exactly the chunks that have selected points, in row-major order and each once, with
  -- their corners, the selection inside them, and the same selection moved to its place in the memory:
  -- where the two selections have one shape, the calls of HDF5 succeed, and the numbers of points in
  -- the chunks of the box add up to that of the selection. It never steps out of the box.
  pub get_selected_chunk_info_lem :
      (fuel n rank : ℕ) (file mem : D) (dims : List ℕ) (bounds mem_bounds : List (ℕ × ℕ))
      (count : List ℕ → ℕ)
      → Counts works file dims (axes bounds dims) count
      → IsBox bounds dims
      → Starts62 mem_bounds
      → length mem_bounds ≡ length bounds
      → api.npoints file ≡ some n
      → n < 2 ^ 64
      → total count (box_chunks bounds dims) ≡ n
      → api.ndims file ≡ some rank
      → api.ndims mem ≡ some rank
      → api.select_bounds file ≡ some bounds
      → api.select_bounds mem ≡ some mem_bounds
      → api.shape_same file mem ≡ some true
      → length (box_chunks bounds dims) ≤ fuel
      → get_selected_chunk_info api fuel (some dims) file mem
        ≡ some (
            ok (
              some (
                touched count
                  (about works file mem dims bounds mem_bounds)
                  (box_chunks bounds dims))))
  unfolding get_selected_chunk_info
  get_selected_chunk_info_lem fuel n rank file mem dims bounds mem_bounds count counts box small
        same points bound sum file_rank mem_rank file_box mem_box shape enough =
      rw (points, file_rank, mem_rank, ==_refl rank, file_box, mem_box)
        (rw
          (
            file_adjust_lem bounds mem_bounds (starts-Starts62 bounds dims box) small same,
            axes_of_lem bounds dims box,
            shape,
          )
          (loop_from_box fuel n file mem dims bounds mem_bounds count counts box small same bound
            sum enough))
