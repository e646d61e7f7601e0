-- ===== src/Vol/Chunks/Laws.antt =====
-- What adapter/vol/vol-old/H5VLDTIO.cc relies on of HDF5's calls on dataspaces, and the information on
-- one chunk that it makes by them.
use dtio.Prelude.{
  ℕ, ◌+◌, ◌-◌, ◌^◌, ◌<◌, ◌≡◌, refl, ap, true, List, [], ◌∷◌, Option, some, length, if◌then◌else◌,
  ltb, leb, All, arith,
}
use dtio.Prelude.Int.{ℤ, pos, negsuc, of_word, of_word_small}
use dtio.Exec.{ok}
use dtio.Vol.Chunks.{
  SpaceApi, ChunkInfo, Axis, end_coords, file_adjust, mem_adjust, minus_signed, chunk_info,
  with_points,
}

-- Every call that changes a dataspace succeeds, and gives what the field says.
pub record Works {D : Type 0} (api : SpaceApi D) : Type 0 where
  pub restricted : List ℕ → List ℕ → D → D
  pub resized : List ℕ → D → D
  pub adjusted_u : List ℕ → D → D
  pub released : D → D
  pub selected_as : D → D → D
  pub adjusted_s : List ℤ → D → D
  pub copy_lem : (s : D) → api.copy s ≡ some s
  pub select_and_lem :
      (c dims : List ℕ) (s : D) → api.select_and c dims s ≡ some (restricted c dims s)
  pub set_extent_lem : (dims : List ℕ) (s : D) → api.set_extent dims s ≡ some (resized dims s)
  pub adjust_u_lem : (c : List ℕ) (s : D) → api.adjust_u c s ≡ some (adjusted_u c s)
  pub release_lem : (s : D) → api.release s ≡ some (released s)
  pub select_copy_lem : (s t : D) → api.select_copy s t ≡ some (selected_as s t)
  pub adjust_s_lem : (by : List ℤ) (s : D) → api.adjust_s by s ≡ some (adjusted_s by s)

module _ {D : Type 0} {api : SpaceApi D} (works : Works api) where
  -- The selection of the file inside a chunk, in an extent of a chunk and counted from its corner.
  abbrev pub in_chunk : D → List ℕ → List ℕ → D
  in_chunk file dims c = works.adjusted_u c (works.resized dims (works.restricted c dims file))

  -- In a dataspace of the memory, the same selection moved by so much.
  abbrev pub in_memory : D → List ℤ → D → D
  in_memory mem by s = works.adjusted_s by (works.selected_as (works.released mem) s)

-- The number of points of a selection in each chunk, and what the tests say of it.
pub record Counts {D : Type 0} {api : SpaceApi D} (works : Works api) (file : D) (dims : List ℕ)
    (axes : List Axis) (count : List ℕ → ℕ) : Type 0 where
  pub touches :
      (c : List ℕ) → api.intersect_block file c (end_coords axes c) ≡ some (ltb 0 (count c))
  pub points : (c : List ℕ) → api.npoints (in_chunk works file dims c) ≡ some (count c)

-- The start of the file's selection, less that of the memory's, less the coordinate of the chunk.
abbrev pub shift : ℕ → ℕ → ℕ → ℤ
shift f m x = if leb (m + x) f then pos (f - m - x) else negsuc (m + x - f - 1)

abbrev pub shifts : List (ℕ × ℕ) → List (ℕ × ℕ) → List ℕ → List ℤ
shifts [] mem c = []
shifts (b ∷ file) [] c = []
shifts (b ∷ file) (m ∷ mem) [] = []
shifts (b ∷ file) (m ∷ mem) (x ∷ c) = shift b.0 m.0 x ∷ shifts file mem c

abbrev pub Starts62 : List (ℕ × ℕ) → Type 0
Starts62 bounds = All (λ b. b.0 < 2 ^ 62) bounds

abbrev difference : ℕ → ℕ → ℤ
difference f m = if leb m f then pos (f - m) else negsuc (m - f - 1)

abbrev pub differences : List (ℕ × ℕ) → List (ℕ × ℕ) → List ℤ
differences [] mem = []
differences (b ∷ file) [] = []
differences (b ∷ file) (m ∷ mem) = difference b.0 m.0 ∷ differences file mem

minus_starts :
    (f m : ℕ) → f < 2 ^ 62 → m < 2 ^ 62 → minus_signed (of_word f) (of_word m) ≡ ok (difference f m)
unfolding minus_signed
minus_starts f m p q = rw (of_word_small f (omega arith), of_word_small m (omega arith)) refl

minus_coord :
    (f m x : ℕ)
    → f < 2 ^ 62
    → m < 2 ^ 62
    → x < 2 ^ 62
    → minus_signed (difference f m) (of_word x) ≡ ok (shift f m x)
unfolding minus_signed
minus_coord f m x p q r = rw (of_word_small x (omega arith)) (ground arith)

pub file_adjust_lem :
    (file mem : List (ℕ × ℕ))
    → Starts62 file
    → Starts62 mem
    → length mem ≡ length file
    → file_adjust file mem ≡ ok (differences file mem)
unfolding file_adjust
file_adjust_lem [] mem p q e = refl
file_adjust_lem (b ∷ file) [] p q e = absurd (omega arith)
file_adjust_lem (b ∷ file) (m ∷ mem) (p, ps) (q, qs) e =
    rw (minus_starts b.0 m.0 p q, file_adjust_lem file mem ps qs (omega arith)) refl

pub mem_adjust_lem :
    (file mem : List (ℕ × ℕ)) (c : List ℕ)
    → Starts62 file
    → Starts62 mem
    → All (λ x. x < 2 ^ 62) c
    → length mem ≡ length file
    → length c ≡ length file
    → mem_adjust (differences file mem) c ≡ ok (shifts file mem c)
unfolding mem_adjust
mem_adjust_lem [] mem c p q r e e' = refl
mem_adjust_lem (b ∷ file) [] c p q r e e' = absurd (omega arith)
mem_adjust_lem (b ∷ file) (m ∷ mem) [] p q r e e' = absurd (omega arith)
mem_adjust_lem (b ∷ file) (m ∷ mem) (x ∷ c) (p, ps) (q, qs) (r, rs) e e' =
    rw (minus_coord b.0 m.0 x p q r, mem_adjust_lem file mem c ps qs rs (omega arith) (omega arith))
      refl

module _ {D : Type 0} {api : SpaceApi D} (works : Works api) where
  -- The information on a chunk.
  abbrev pub about : D → D → List ℕ → List (ℕ × ℕ) → List (ℕ × ℕ) → List ℕ → ChunkInfo D
  about file mem dims bounds mem_bounds c = record {
    chunk_coords = c;
    fspace = in_chunk works file dims c;
    mspace = in_memory works mem (shifts bounds mem_bounds c) (in_chunk works file dims c);
  }

  pub chunk_info_lem :
      (file mem : D) (dims : List ℕ) (bounds mem_bounds : List (ℕ × ℕ)) (c : List ℕ) (n : ℕ)
      → Starts62 bounds
      → Starts62 mem_bounds
      → All (λ x. x < 2 ^ 62) c
      → length mem_bounds ≡ length bounds
      → length c ≡ length bounds
      → api.npoints (in_chunk works file dims c) ≡ some n
      → chunk_info api file mem dims true (differences bounds mem_bounds) c
        ≡ ok (some (about file mem dims bounds mem_bounds c, n))
  unfolding chunk_info
  chunk_info_lem file mem dims bounds mem_bounds c n p q r e e' points =
      rw
        (
          works.copy_lem file,
          works.select_and_lem c dims file,
          works.set_extent_lem dims (works.restricted c dims file),
          works.adjust_u_lem c (works.resized dims (works.restricted c dims file)),
          works.copy_lem mem,
          works.release_lem mem,
          works.select_copy_lem (works.released mem) (in_chunk works file dims c),
          mem_adjust_lem bounds mem_bounds c p q r e e',
          works.adjust_s_lem (shifts bounds mem_bounds c)
              (works.selected_as (works.released mem) (in_chunk works file dims c)),
        )
        (ap
          (λ (o : Option ℕ). ok (
            with_points api c (in_chunk works file dims c)
              (in_memory works mem (shifts bounds mem_bounds c) (in_chunk works file dims c)) o))
          points)
