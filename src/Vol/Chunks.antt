-- ===== src/Vol/Chunks.antt =====
-- `H5VL_dtio_get_selected_chunk_info` of adapter/vol/vol-old/H5VLDTIO.cc: the chunks of a dataset that
-- a selection touches, found by stepping through the bounding box of the selection. The calls on
-- dataspaces are HDF5's and are the fields of a record; a dataspace is its value, since each is
-- copied before it is changed. Buffers are always given.
pub mod Grid
pub mod Step
pub mod Laws
pub mod Selected
pub mod Found
use dtio.Prelude.{
  ℕ, zero, suc, ◌+◌, ◌-◌, ◌*◌, ◌/◌, ◌%◌, ◌^◌, Bool, true, false, not, ◌&&◌, List, [], ◌∷◌, Option,
  none, some, if◌then◌else◌, ltb, leb, nat_eq, ◌==◌,
}
use dtio.Prelude.Int.{ℤ, pos, negsuc, of_word}
use dtio.Exec.{
  Exec, ok, fault, failed_assertion, uninitialised, int_overflow, division_by_zero, bad_index,
  ◌>>=◌, ◌>>◌, guard,
}

-- The calls that the function makes; `none` is a result that it takes for a failure. `D` are the
-- dataspaces.
pub record SpaceApi (D : Type 0) : Type 0 where
  -- `H5Sget_select_npoints`, `H5Sget_simple_extent_ndims` and `H5Sget_select_bounds`
  pub npoints : D → Option ℕ
  pub ndims : D → Option ℕ
  pub select_bounds : D → Option (List (ℕ × ℕ))
  -- `H5Sselect_shape_same` and `H5Shyper_intersect_block`
  pub shape_same : D → D → Option Bool
  pub intersect_block : D → List ℕ → List ℕ → Option Bool
  -- `H5Scopy`, and then `H5Sselect_hyperslab` with `H5S_SELECT_AND`
  pub copy : D → Option D
  pub select_and : List ℕ → List ℕ → D → Option D
  -- `H5Sset_extent_real`, `H5Sselect_adjust_u` and `H5Sselect_release`
  pub set_extent : List ℕ → D → Option D
  pub adjust_u : List ℕ → D → Option D
  pub release : D → Option D
  -- `H5Sselect_copy` to a dataspace from another, and `H5Shyper_adjust_s`
  pub select_copy : D → D → Option D
  pub adjust_s : List ℤ → D → Option D

-- `H5VL_dtio_select_chunk_info_t`
pub record ChunkInfo (D : Type 0) : Type 0 where
  pub chunk_coords : List ℕ
  pub fspace : D
  pub mspace : D

-- What the loops over the dimensions use of one: the length of a chunk, `selection_start_coords` and
-- `file_sel_end`.
pub record Axis : Type 0 where
  pub chunk_dim : ℕ
  pub first_start : ℕ
  pub sel_end : ℕ

-- A dimension for which `chunk_dims` was not filled in has no value.
unfoldable pub axes_of : List (ℕ × ℕ) → List ℕ → Exec (List Axis)
axes_of [] dims = ok []
axes_of (b ∷ bounds) [] = fault uninitialised
axes_of ((start, end_at) ∷ bounds) (d ∷ dims) =
    guard (not (d == 0)) division_by_zero
    >> (axes_of bounds dims >>= λ axes.
        ok (record { chunk_dim = d; first_start = start / d * d; sel_end = end_at } ∷ axes))

-- `end_coords`, which the code keeps along with `start_coords`.
unfoldable pub end_coords : List Axis → List ℕ → List ℕ
end_coords [] coords = []
end_coords (a ∷ axes) [] = []
end_coords (a ∷ axes) (x ∷ coords) =
    (x + a.chunk_dim + 2 ^ 64 - 1) % 2 ^ 64 ∷ end_coords axes coords

-- The coordinates of the next chunk: the last dimension is the fastest, and one that leaves the bounds
-- is set back and moves the one before it. `true` says that there is none to move, an `increment_dim`
-- below 0.
abbrev pub moved : Axis → ℕ → Bool × List ℕ → Bool × List ℕ
moved a x (false, coords) = (false, x ∷ coords)
moved a x (true, coords) =
    let next = (x + a.chunk_dim) % 2 ^ 64 in
    if ltb a.sel_end next then (true, a.first_start ∷ coords) else (false, next ∷ coords)

unfoldable pub increment : List Axis → List ℕ → Bool × List ℕ
increment [] coords = (true, [])
increment (a ∷ axes) [] = (true, [])
increment (a ∷ axes) (x ∷ coords) = moved a x (increment axes coords)

-- `selection_start_coords`
abbrev pub starts : List Axis → List ℕ
starts [] = []
starts (a ∷ axes) = a.first_start ∷ starts axes

-- `a - b` on `hssize_t`.
unfoldable pub minus_signed : ℤ → ℤ → Exec ℤ
minus_signed (pos a) (pos b) = ok (if leb b a then pos (a - b) else negsuc (b - a - 1))
minus_signed (negsuc a) (negsuc b) = ok (if leb a b then pos (b - a) else negsuc (a - b - 1))
minus_signed (pos a) (negsuc b) =
    if ltb (a + b + 1) (2 ^ 63) then ok (pos (a + b + 1)) else fault int_overflow
minus_signed (negsuc a) (pos b) =
    if ltb (a + b) (2 ^ 63) then ok (negsuc (a + b)) else fault int_overflow

-- `chunk_file_space_adjust`
unfoldable pub file_adjust : List (ℕ × ℕ) → List (ℕ × ℕ) → Exec (List ℤ)
file_adjust [] mem = ok []
file_adjust (b ∷ file) [] = fault uninitialised
file_adjust (b ∷ file) (m ∷ mem) =
    minus_signed (of_word b.0) (of_word m.0) >>= λ d. file_adjust file mem >>= λ ds. ok (d ∷ ds)

-- `chunk_mem_space_adjust`
unfoldable pub mem_adjust : List ℤ → List ℕ → Exec (List ℤ)
mem_adjust [] coords = ok []
mem_adjust (d ∷ ds) [] = fault uninitialised
mem_adjust (d ∷ ds) (x ∷ coords) =
    minus_signed d (of_word x) >>= λ e. mem_adjust ds coords >>= λ es. ok (e ∷ es)

-- What a failed call ends with, and what stands behind one that succeeds. `none` is `FAIL`.
infixl 5 ◌>>?◌
abbrev pub ◌>>?◌ {ℓ κ} :
    {A : Type ℓ} {B : Type κ} → Option A → (A → Exec (Option B)) → Exec (Option B)
none >>? f = ok none
some a >>? f = f a

-- `none`: the fuel is used up.
abbrev pub Found : Type 0 → Type 0
Found D = Option (Exec (Option (List (ChunkInfo D))))

-- A chunk's information in front of what the later rounds find.
abbrev pub with_info : {D : Type 0} → ChunkInfo D → Found D → Found D
with_info info none = none
with_info info (some (fault e)) = some (fault e)
with_info info (some (ok none)) = some (ok none)
with_info info (some (ok (some infos))) = some (ok (some (info ∷ infos)))

module _ {D : Type 0} (api : SpaceApi D) where
  -- The file space of a chunk.
  abbrev pub chunk_fspace : D → List ℕ → List ℕ → Exec (Option D)
  chunk_fspace file dims coords = api.copy file >>? λ s. api.select_and coords dims s >>? λ s.
      api.set_extent dims s >>? λ s. api.adjust_u coords s >>? λ s. ok (some s)

  abbrev pub adjusted : Exec (List ℤ) → D → Exec (Option D)
  adjusted adjust s = adjust >>= λ by. api.adjust_s by s >>? λ s. ok (some s)

  -- Its memory space.
  abbrev pub chunk_mspace : D → Bool → List ℤ → List ℕ → D → Exec (Option D)
  chunk_mspace mem false adjust coords fspace = ok none
  chunk_mspace mem true adjust coords fspace = api.copy mem >>? λ s.
      api.release s >>? λ s. api.select_copy s fspace >>? λ s. adjusted (mem_adjust adjust coords) s

  abbrev pub with_points : List ℕ → D → D → Option ℕ → Option (ChunkInfo D × ℕ)
  with_points coords fspace mspace none = none
  with_points coords fspace mspace (some n) =
      some (record { chunk_coords = coords; fspace = fspace; mspace = mspace }, n)

  abbrev pub info_of : List ℕ → D → Option D → Option (ChunkInfo D × ℕ)
  info_of coords fspace none = none
  info_of coords fspace (some mspace) = with_points coords fspace mspace (api.npoints fspace)

  -- The information on a chunk that the selection touches, and the number of its points.
  unfoldable pub chunk_info :
      D → D → List ℕ → Bool → List ℤ → List ℕ → Exec (Option (ChunkInfo D × ℕ))
  chunk_info file mem dims same adjust coords = chunk_fspace file dims coords >>= λ f.
      f >>? λ fspace.
      chunk_mspace mem same adjust coords fspace >>= λ m. ok (info_of coords fspace m)

  -- The step to the next chunk.
  abbrev pub go_on : (List ℕ → Found D) → Bool × List ℕ → Found D
  go_on next (true, coords) = some (fault bad_index)
  go_on next (false, coords) = next coords

  -- After a chunk: the points that are left, of which none ends the loop.
  abbrev pub after_chunk :
      (ℕ → List ℕ → Found D) → List Axis → List ℕ → ℕ → Exec (Option (ChunkInfo D × ℕ)) → Found D
  after_chunk next axes coords n (fault e) = some (fault e)
  after_chunk next axes coords n (ok none) = some (ok none)
  after_chunk next axes coords n (ok (some (info, k))) =
      let left = (n + 2 ^ 64 - k) % 2 ^ 64 in
      let later = go_on (next left) (increment axes coords) in
      with_info info (if left == 0 then some (ok (some [])) else later)

  abbrev pub round :
      (ℕ → List ℕ → Found D)
      → (List ℕ → Exec (Option (ChunkInfo D × ℕ)))
      → List Axis
      → List ℕ
      → ℕ
      → Option Bool
      → Found D
  round next info axes coords n none = some (ok none)
  round next info axes coords n (some true) = after_chunk next axes coords n (info coords)
  round next info axes coords n (some false) = go_on (next n) (increment axes coords)

  -- The loop, with the points that are still to be found.
  unfoldable pub chunk_loop :
      ℕ → D → (List ℕ → Exec (Option (ChunkInfo D × ℕ))) → List Axis → ℕ → List ℕ → Found D
  unfolding end_coords increment
  chunk_loop fuel file info axes zero coords = some (ok (some []))
  chunk_loop zero file info axes (suc n) coords = none
  chunk_loop (suc fuel) file info axes (suc n) coords =
      round (chunk_loop fuel file info axes) info axes coords (suc n)
        (api.intersect_block file coords (end_coords axes coords))

  abbrev pub run : ℕ → D → D → List ℕ → ℕ → List ℤ → Exec (List Axis) → Option Bool → Found D
  run fuel file mem dims n adjust (fault e) same = some (fault e)
  run fuel file mem dims n adjust (ok axes) none = some (ok none)
  run fuel file mem dims n adjust (ok axes) (some same) =
      chunk_loop fuel file (chunk_info file mem dims same adjust) axes n (starts axes)

  abbrev pub with_adjust : Exec (List ℤ) → (List ℤ → Found D) → Found D
  with_adjust (fault e) f = some (fault e)
  with_adjust (ok adjust) f = f adjust

  -- The queries before the loop, in the order of the code.
  abbrev pub bounded :
      ℕ → D → D → ℕ → List ℕ → Option (List (ℕ × ℕ)) → Option (List (ℕ × ℕ)) → Found D
  bounded fuel file mem n dims none mem_bounds = some (ok none)
  bounded fuel file mem n dims (some bounds) none = some (ok none)
  bounded fuel file mem n dims (some bounds) (some mem_bounds) =
      with_adjust (file_adjust bounds mem_bounds)
        λ adjust. run fuel file mem dims n adjust (axes_of bounds dims) (api.shape_same file mem)

  abbrev pub ranked : Option ℕ → Option ℕ → Found D → Found D
  ranked none m k = some (ok none)
  ranked (some f) none k = some (ok none)
  ranked (some f) (some m) k = if m == f then k else some (fault failed_assertion)

  abbrev pub counted : ℕ → D → D → Option (List ℕ) → Option ℕ → Found D
  counted fuel file mem chunk_dims none = some (ok none)
  counted fuel file mem none (some n) = some (ok none)
  counted fuel file mem (some dims) (some n) =
      ranked (api.ndims file) (api.ndims mem)
        (bounded fuel file mem n dims (api.select_bounds file) (api.select_bounds mem))

  -- `chunk_dims` is what `H5Pget_chunk` gives for the property list.
  unfoldable pub get_selected_chunk_info : ℕ → Option (List ℕ) → D → D → Found D
  unfolding axes_of file_adjust mem_adjust chunk_info chunk_loop
  get_selected_chunk_info fuel chunk_dims file mem =
      counted fuel file mem chunk_dims (api.npoints file)
