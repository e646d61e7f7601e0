-- ===== src/Vol/Transfer.antt =====
-- `H5VL_dtio_dataset_write` of adapter/vol/vol-old/H5VLDTIO.cc. The conventions are those of Vol/Datasets.
-- A query of a dataspace that fails is printed and -1 is used as a number; where something is computed
-- from it, that is a fault here, and so is
-- the use of what a failed call did not set, or left from the dataset before. The buffers are always given.
pub mod Plain
pub mod Written
use dtio.Prelude.{
  ℕ, zero, suc, ◌+◌, ◌*◌, Bool, true, false, not, ◌&&◌, List, [], ◌∷◌, ◌++◌, Option, none, some,
  Str, length, replicate, take, drop, if◌then◌else◌, ltb, leb, nat_eq, ◌==◌,
}
use dtio.Exec.{
  Exec, ok, fault, bad_pointer, bad_buffer, uninitialised, failed_assertion, double_free, ◌>>=◌,
  ◌>>◌, guard,
}
use dtio.Vol.Oids.{oid_create_chunk}
use dtio.Vol.IoOps.{
  IoOp, op_read, op_write, SeqReply, Built, build_io_op_match, build_io_op_merge,
  build_io_op_contig,
}
use dtio.Vol.Chunks.{SpaceApi, ChunkInfo, get_selected_chunk_info}
use dtio.Vol.Conversion.{DataType, Conversion, Reuse, reuse_none, tconv_init}
use dtio.Vol.Buffers.{pieces, asked, placed}
use dtio.Vol.Groups.{World}
use dtio.Vol.Datasets.{Dataset}
use dtio.Vol.Requests.{
  Layout, DataApi, Request, ◌>>+◌, Leftover, initial, freed, Running, or_fault, key_of, larger,
  compact, contiguous, chunked, other_layout,
}

module _ {S D : Type 0} (spaces : SpaceApi D) (api : DataApi S D) (unset : Option Bool)
    (above : Bool) where
  abbrev pub given_or : D → Option D → D
  given_or other none = other
  given_or other (some s) = s

  abbrev pub real_file_space : Request D → D
  real_file_space r = given_or (api.space_of r.dset.space_id) r.file_space

  abbrev pub real_mem_space : Request D → D
  real_mem_space r = given_or (real_file_space r) r.mem_space

  -- A negative answer of `H5Sextent_equal` is only reported, and counts as true.
  abbrev pub equal_extents : Option Bool → Bool
  equal_extents none = true
  equal_extents (some b) = b

  -- Whether the file and the memory have one layout: only for `H5S_ALL` and a single chunk.
  abbrev pub match_from : Request D → ℕ → ChunkInfo D → Option D → Bool
  match_from r chunks info (some s) = false
  match_from r chunks info none =
      if chunks == 1
      then equal_extents (api.extent_equal (real_file_space r) info.fspace)
      else false

  abbrev pub match_select : Request D → ℕ → ChunkInfo D → Bool
  match_select r chunks info = match_from r chunks info r.mem_space

  -- The operations where no conversion is necessary.
  abbrev pub plain_ops : ℕ → Bool → ℕ → ChunkInfo D → ℕ → Option Built
  plain_ops fuel true size info n =
      some (build_io_op_match (api.sequences info.fspace size) n false true)
  plain_ops fuel false size info n =
      build_io_op_merge fuel (api.sequences info.mspace size) (api.sequences info.fspace size) size
        n false true

  abbrev pub write_pieces : Str → List IoOp → Str → Running S → Exec (Running S)
  write_pieces key ops buf run =
      pieces ops buf >>= λ ps. ok (record run { kept = api.write_op_operate key ps run.kept })

  -- A chunk whose elements are converted: the background is read first if it is to be filled.
  abbrev pub background : Str → Conversion → ChunkInfo D → ℕ → Running S → Exec (List IoOp × Str)
  background key c info n run =
      if c.fill_bkg
      then (guard c.need_bkg failed_assertion
          >> (build_io_op_contig (api.sequences info.fspace c.src_type_size) n true true >>= λ b.
              ok (b.1, placed b.1 (api.read_op_operate key (asked b.1) run.kept) run.bkg_buf)))
      else (build_io_op_contig (api.sequences info.fspace c.src_type_size) n false true >>= λ b.
          ok (b.1, run.bkg_buf))

  abbrev pub write_converted :
      Str → Conversion → Request D → ChunkInfo D → ℕ → Running S → Exec (Running S)
  write_converted key c r info n run = background key c info n run >>= λ bg.
      let gathered =
        api.gather info.mspace r.buf r.mem_type_id (n * c.dst_type_size) run.tconv_buf in
      let tconv = api.convert r.mem_type_id r.dset.type_id n gathered bg.1 in
      write_pieces key bg.0 tconv (record run { tconv_buf = tconv; bkg_buf = bg.1 })

  -- The coordinates that name a chunk: as many as the dataset's own dataspace has dimensions. Those
  -- behind the rank of the file's selection were given no value.
  unfoldable pub named_coords : ℕ → List ℕ → Exec (List ℕ)
  named_coords ndims coords =
      if leb ndims (length coords) then ok (take ndims coords) else fault uninitialised

  unfoldable pub write_chunk :
      ℕ → Str → ℕ → Conversion → Request D → ℕ → ChunkInfo D → Running S → Option (Exec (Running S))
  unfolding named_coords
  write_chunk fuel file_name ndims c r chunks info run =
      some (
        named_coords ndims info.chunk_coords >>= λ loc.
        oid_create_chunk file_name r.dset.bin_oid loc)
      >>+ key_of
      >>+ λ key. or_fault (spaces.npoints info.mspace) >>+ λ n.
          (if c.types_equal
            then (plain_ops fuel (match_select r chunks info) c.src_type_size info n >>+ λ b.
                some (write_pieces key b.1 r.buf run))
            else some (write_converted key c r info n run))

  unfoldable pub write_chunks :
      ℕ
      → Str
      → ℕ
      → Conversion
      → Request D
      → ℕ
      → List (ChunkInfo D)
      → Running S
      → Option (Exec (Running S))
  write_chunks fuel file_name ndims c r chunks [] run = some (ok run)
  write_chunks fuel file_name ndims c r chunks (info ∷ infos) run =
      write_chunk fuel file_name ndims c r chunks info run
      >>+ write_chunks fuel file_name ndims c r chunks infos

  -- A layout without chunks is one chunk at coordinate 0. Where there are none to be had, `chunk_info`
  -- stays null.
  abbrev pub found_or_null : Option (List (ChunkInfo D)) → Option (Exec (List (ChunkInfo D)))
  found_or_null none = some (fault bad_pointer)
  found_or_null (some infos) = some (ok infos)

  abbrev pub single : Request D → ℕ → List (ChunkInfo D)
  single r ndims =
      record {
        chunk_coords = replicate ndims 0;
        fspace = real_file_space r;
        mspace = real_mem_space r;
      }
      ∷ []

  abbrev pub chunks_of : ℕ → Request D → ℕ → Layout → Option (Exec (List (ChunkInfo D)))
  chunks_of fuel r ndims compact = some (ok (single r ndims))
  chunks_of fuel r ndims contiguous = some (ok (single r ndims))
  chunks_of fuel r ndims chunked =
      get_selected_chunk_info spaces fuel (api.chunk_dims r.dset.dcpl_id) (real_file_space r)
        (real_mem_space r)
      >>+ found_or_null
  chunks_of fuel r ndims other_layout = some (fault bad_pointer)

  -- `num_elem_chunk`, from the first chunk; `none` is -1.
  abbrev pub chunk_points : List (ChunkInfo D) → Option (Exec (Option ℕ))
  chunk_points [] = some (fault uninitialised)
  chunk_points (info ∷ infos) = some (ok (api.extent_npoints info.fspace))

  -- A buffer for so many elements of a size, if it is necessary.
  abbrev pub allocated : Bool → Option ℕ → ℕ → Exec Str
  allocated false n size = ok []
  allocated true none size = fault uninitialised
  allocated true (some n) size = ok (api.malloc (n * size))

  abbrev pub started : Conversion → Option ℕ → S → Exec (Running S)
  started c n s =
      allocated (not c.types_equal) n (larger c.src_type_size c.dst_type_size) >>= λ tconv.
      allocated c.need_bkg n c.dst_type_size >>= λ bkg.
      ok (record { tconv_buf = tconv; bkg_buf = bkg; kept = s })

  abbrev pub conversion_of : Leftover → Request D → Option (Exec (Option Conversion))
  conversion_of left r = some (
      tconv_init unset left.reuse_left above (api.same_type r.dset.type_id r.mem_type_id)
        (api.type_of r.dset.type_id) (api.type_of r.mem_type_id) left.fill_left)

  -- What stands after a dataset; its buffers were freed.
  abbrev pub leftover : Leftover → Conversion → Exec Leftover
  leftover left c = freed (not c.types_equal) left.tconv_freed >>= λ t.
      freed c.need_bkg left.bkg_freed >>= λ b.
      ok (record { reuse_left = c.reuse; fill_left = c.fill_bkg; tconv_freed = t; bkg_freed = b })

  -- One dataset, where something is selected.
  unfoldable pub write_selected :
      ℕ → Leftover → Request D → ℕ → World S → Option (Exec (Leftover × World S))
  write_selected fuel left r ndims w = conversion_of left r >>+ or_fault >>+ λ c.
      chunks_of fuel r ndims (api.layout r.dset.dcpl_id) >>+ λ infos. chunk_points infos >>+ λ n.
      some (started c n w.store) >>+ λ at_first.
      write_chunks fuel w.file_name ndims c r (length infos) infos at_first >>+ λ run.
      some (leftover left c) >>+ λ left'. some (ok (left', record w { store = run.kept }))

  -- A count of 0 ends the call, and one that is not known does not.
  abbrev pub unless_none : Option ℕ → World S → Option (Exec (World S)) → Option (Exec (World S))
  unless_none none w rest = rest
  unless_none (some zero) w rest = some (ok w)
  unless_none (some (suc n)) w rest = rest

  -- The datasets in their order. One for which nothing is selected ends the call. Missing write intent
  -- is only reported, and so is a selection of the memory that has another count or none.
  unfoldable pub write_each : ℕ → Leftover → List (Request D) → World S → Option (Exec (World S))
  write_each fuel left [] w = some (ok w)
  write_each fuel left (r ∷ rs) w =
      or_fault (spaces.ndims (api.space_of r.dset.space_id)) >>+ λ ndims.
      unless_none (spaces.npoints (real_file_space r)) w
        (write_selected fuel left r ndims w >>+ λ (left', w'). write_each fuel left' rs w')

  unfoldable pub dataset_write : ℕ → List (Request D) → World S → Option (Exec (World S))
  unfolding write_each
  dataset_write fuel rs w = write_each fuel initial rs w
