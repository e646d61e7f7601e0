-- ===== src/Examples/Vol/Spaces.antt =====
-- Dataspaces as lists of points, and a run of `H5VL_dtio_get_selected_chunk_info` over them.
use dtio.Prelude.{
  ℕ, ◌+◌, ◌-◌, ◌%◌, ◌^◌, ◌≡◌, refl, Bool, true, false, ◌&&◌, List, [], ◌∷◌, some, length,
  if◌then◌else◌, ltb, leb, arith,
}
use dtio.Prelude.Int.{ℤ}
use dtio.Exec.{ok}
use dtio.Vol.Chunks.{SpaceApi, end_coords, get_selected_chunk_info}
use dtio.Vol.Chunks.Grid.{grid}
use dtio.Vol.Chunks.Laws.{Works, Counts, about}
use dtio.Vol.Chunks.Selected.{touched}
use dtio.Vol.Chunks.Found.{axes, box_chunks, get_selected_chunk_info_lem}

-- The points, counted from a corner and moved by a vector, and the bounds of the selection.
pub record Space : Type 0 where
  pub points : List (List ℕ)
  pub corner : List ℕ
  pub shifted : List ℤ
  pub box : List (ℕ × ℕ)

abbrev pub inside : List ℕ → List ℕ → List ℕ → Bool
inside [] ends xs = true
inside (c ∷ cs) [] xs = false
inside (c ∷ cs) (e ∷ ends) [] = false
inside (c ∷ cs) (e ∷ ends) (x ∷ xs) = leb c x && leb x e && inside cs ends xs

abbrev pub within : List ℕ → List ℕ → List (List ℕ) → List (List ℕ)
within cs ends [] = []
within cs ends (p ∷ ps) =
    let rest = within cs ends ps in if inside cs ends p then p ∷ rest else rest

abbrev pub ends_of : List ℕ → List ℕ → List ℕ
ends_of [] cs = []
ends_of (d ∷ dims) [] = []
ends_of (d ∷ dims) (c ∷ cs) = (c + d + 2 ^ 64 - 1) % 2 ^ 64 ∷ ends_of dims cs

abbrev pub spaces : SpaceApi Space
spaces = record {
  npoints = λ s. some (length s.points);
  ndims = λ s. some (length s.box);
  select_bounds = λ s. some s.box;
  shape_same = λ s t. some true;
  intersect_block = λ s c e. some (ltb 0 (length (within c e s.points)));
  copy = λ s. some s;
  select_and = λ c dims s. some (record s { points = within c (ends_of dims c) s.points });
  set_extent = λ dims s. some s;
  adjust_u = λ c s. some (record s { corner = c });
  release = λ s. some (record s { points = [] });
  select_copy = λ s t. some (record s { points = t.points; corner = t.corner });
  adjust_s = λ by s. some (record s { shifted = by });
}

abbrev pub spaces_work : Works spaces
spaces_work = record {
  restricted = λ c dims s. record s { points = within c (ends_of dims c) s.points };
  resized = λ dims s. s;
  adjusted_u = λ c s. record s { corner = c };
  released = λ s. record s { points = [] };
  selected_as = λ s t. record s { points = t.points; corner = t.corner };
  adjusted_s = λ by s. record s { shifted = by };
  copy_lem = λ s. refl;
  select_and_lem = λ c dims s. refl;
  set_extent_lem = λ dims s. refl;
  adjust_u_lem = λ c s. refl;
  release_lem = λ s. refl;
  select_copy_lem = λ s t. refl;
  adjust_s_lem = λ by s. refl;
}

-- Four points of a plane with chunks of two by three.
abbrev pub plane : Space
plane = record {
  points = (1 ∷ 2 ∷ []) ∷ (1 ∷ 3 ∷ []) ∷ (1 ∷ 4 ∷ []) ∷ (2 ∷ 7 ∷ []) ∷ [];
  corner = [];
  shifted = [];
  box = (1, 2) ∷ (2, 7) ∷ [];
}

abbrev pub buffer : Space
buffer = record { points = []; corner = []; shifted = []; box = (5, 6) ∷ (0, 5) ∷ [] }

abbrev pub chunk : List ℕ
chunk = 2 ∷ 3 ∷ []

abbrev pub points_in : List ℕ → ℕ
points_in c = length (within c (ends_of chunk c) plane.points)

ends_lem : (c : List ℕ) → end_coords (axes plane.box chunk) c ≡ ends_of chunk c
unfolding end_coords
ends_lem [] = refl
ends_lem (x ∷ []) = refl
ends_lem (x ∷ y ∷ c) = refl

pub plane-Counts : Counts spaces_work plane chunk (axes plane.box chunk) points_in
plane-Counts = record { touches = λ c. rw (ends_lem c) refl; points = λ c. refl }

-- The chunks at (0, 0), (0, 3) and (2, 6) are found in a box of six.
found_corners :
    touched points_in (λ c. c) (box_chunks plane.box chunk)
    ≡ (0 ∷ 0 ∷ []) ∷ (0 ∷ 3 ∷ []) ∷ (2 ∷ 6 ∷ []) ∷ []
unfolding grid
found_corners = refl

get_selected_chunk_info_lem_example :
    get_selected_chunk_info spaces 6 (some chunk) plane buffer
    ≡ some (
        ok (
          some (
            touched points_in
              (about spaces_work plane buffer chunk plane.box buffer.box)
              (box_chunks plane.box chunk))))
unfolding grid
get_selected_chunk_info_lem_example =
    get_selected_chunk_info_lem spaces_work 6 4 2 plane buffer chunk plane.box buffer.box points_in
      plane-Counts (omega arith) (omega arith) refl refl (omega arith) refl refl refl refl refl refl
      (omega arith)
