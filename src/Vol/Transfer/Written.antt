-- ===== src/Vol/Transfer/Written.antt =====
-- What `H5VL_dtio_dataset_write` of adapter/vol/vol-old/H5VLDTIO.cc writes where the types are equal.
use dtio.Prelude.{
  ℕ, suc, ◌+◌, ◌^◌, ◌<◌, ◌≤◌, ◌≡◌, ap, ◌∙◌, Bool, true, List, [], ◌∷◌, Option, some, length, nat_eq,
  All,
}
use dtio.Exec.{Exec, ok}
use dtio.Vol.Chunks.{SpaceApi, ChunkInfo, Found, get_selected_chunk_info}
use dtio.Vol.Conversion.{size_of}
use dtio.Vol.Groups.{World}
use dtio.Vol.Transfer.{
  dataset_write, write_selected, real_file_space, given_or, real_mem_space, write_each,
  chunk_points,
}
use dtio.Vol.Chunks.Laws.{Works, Counts, Starts62, about}
use dtio.Vol.Chunks.Selected.{total, touched, some_touched}
use dtio.Vol.Chunks.Found.{IsBox, axes, box_chunks, get_selected_chunk_info_lem}
use dtio.Vol.Requests.{DataApi, Request, Running, chunked, ◌>>+◌, initial}
use dtio.Vol.Transfer.Plain.{IsReady, Writes, write_chunks-Writes, conversion_equal}

module _ {S D : Type 0} (spaces : SpaceApi D) (api : DataApi S D) (unset : Option Bool)
    (above : Bool) where
  -- What the search for the chunks of a selection relies on: a box of non-empty chunks below 2 ^ 62, two
  -- selections of one rank and one shape, a count of the points in each chunk that HDF5's calls agree
  -- with, and at least as much fuel as the box has chunks.
  pub record IsSelected (works : Works spaces) (fuel n : ℕ) (file mem : D) (dims : List ℕ)
      (bounds mem_bounds : List (ℕ × ℕ)) (count : List ℕ → ℕ) : Type 0 where
    pub counts : Counts works file dims (axes bounds dims) count
    pub box : IsBox bounds dims
    pub starts_62 : Starts62 mem_bounds
    pub same_rank : length mem_bounds ≡ length bounds
    pub points : spaces.npoints file ≡ some n
    pub bound : n < 2 ^ 64
    pub all_points : total count (box_chunks bounds dims) ≡ n
    pub file_rank : spaces.ndims file ≡ some (length bounds)
    pub mem_rank : spaces.ndims mem ≡ some (length bounds)
    pub file_box : spaces.select_bounds file ≡ some bounds
    pub mem_box : spaces.select_bounds mem ≡ some mem_bounds
    pub shape : spaces.shape_same file mem ≡ some true
    pub enough : length (box_chunks bounds dims) ≤ fuel

  -- The chunks that have selected points.
  abbrev pub chunks_in :
      Works spaces
      → Request D
      → D
      → List ℕ
      → List (ℕ × ℕ)
      → List (ℕ × ℕ)
      → (List ℕ → ℕ)
      → List (ChunkInfo D)
  chunks_in works r ms dims bounds mem_bounds count =
      touched count
        (about works (real_file_space spaces api unset above r) ms dims bounds mem_bounds)
        (box_chunks bounds dims)

  -- Writing to a chunked dataset a buffer of the dataset's own type completes, and all that changes is
  -- the store: for each chunk in which points are selected, in row-major order, each selected place of
  -- the chunk's object gets the byte of the buffer that has the same position in the memory's selection.
  -- A memory dataspace of the shape of the file's selection is given, something is selected, and HDF5's
  -- calls on both succeed; the file's selection has the rank of the dataset, which is at most 99; the
  -- iterators over each chunk's selections succeed, and give as many bytes of the file as of the memory,
  -- all of them in the buffer; the box of the selection ends below 2^62, and the file's name leaves
  -- room for that of an object in an `int`; the fuel is at least the number of chunks in the box, and
  -- the number of sequences in each chunk.
  pub dataset_write-Writes :
      (works : Works spaces) (fuel ndims n : ℕ) (r : Request D) (ms : D) (dims : List ℕ)
      (bounds mem_bounds : List (ℕ × ℕ)) (count : List ℕ → ℕ) (w : World S)
      → length w.file_name + 18 < 2 ^ 31
      → spaces.ndims (api.space_of r.dset.space_id) ≡ some ndims
      → ndims ≤ 99
      → r.mem_space ≡ some ms
      → api.same_type r.dset.type_id r.mem_type_id ≡ some true
      → 0 < size_of (api.type_of r.dset.type_id)
      → api.layout r.dset.dcpl_id ≡ chunked
      → api.chunk_dims r.dset.dcpl_id ≡ some dims
      → IsSelected works fuel
          (suc n)
          (real_file_space spaces api unset above r)
          ms
          dims
          bounds
          mem_bounds
          count
      → All
          (IsReady spaces api unset above fuel ndims (size_of (api.type_of r.dset.type_id)) r.buf)
          (chunks_in works r ms dims bounds mem_bounds count)
      → (s' : S) × (dataset_write spaces api unset above fuel (r ∷ []) w
          ≡ some (ok (record w { store = s' })))
        × Writes spaces api unset above w.file_name r
            (size_of (api.type_of r.dset.type_id))
            (chunks_in works r ms dims bounds mem_bounds count)
            w.store
            s'
  unfolding dataset_write write_each write_selected
  dataset_write-Writes works fuel ndims n r ms dims bounds mem_bounds count w short rank low given
        same positive layout chunk_dims sel ready =
      let size = size_of (api.type_of r.dset.type_id) in
      let (first_info, more, shape) =
        some_touched count
          (about works (real_file_space spaces api unset above r) ms dims bounds mem_bounds)
          (box_chunks bounds dims) n sel.all_points in
      let infos = chunks_in works r ms dims bounds mem_bounds count in
      let (s', done, writes) =
        write_chunks-Writes spaces api unset above fuel ndims size (length infos) w.file_name r ms
          infos (at_first w.store) short low given ready in
      (
        s',
        rw
            (
              rank,
              sel.points,
              conversion_equal spaces api unset above r same positive,
              layout,
              ap selected_chunks to_memory ∙ finds,
              ap (chunk_points spaces api unset above) shape,
            )
            (ap keeps done),
        writes,
      )
    where
      at_first : S → Running S
      at_first s = record { tconv_buf = []; bkg_buf = []; kept = s }

      selected_chunks : D → Found D
      selected_chunks =
          get_selected_chunk_info spaces fuel (api.chunk_dims r.dset.dcpl_id)
            (real_file_space spaces api unset above r)

      to_memory : real_mem_space spaces api unset above r ≡ ms
      to_memory =
          ap (given_or spaces api unset above (real_file_space spaces api unset above r)) given

      finds :
          selected_chunks ms ≡ some (ok (some (chunks_in works r ms dims bounds mem_bounds count)))
      finds =
          ap
            (λ (o : Option (List ℕ)).
              get_selected_chunk_info spaces fuel o (real_file_space spaces api unset above r) ms)
            chunk_dims
          ∙ get_selected_chunk_info_lem works fuel (suc n) (length bounds)
              (real_file_space spaces api unset above r) ms dims bounds mem_bounds count sel.counts
              sel.box sel.starts_62 sel.same_rank sel.points sel.bound sel.all_points sel.file_rank
              sel.mem_rank sel.file_box sel.mem_box sel.shape sel.enough

      keeps : Option (Exec (Running S)) → Option (Exec (World S))
      keeps m = m >>+ (λ run. some (ok (initial, record w { store = run.kept }))) >>+ λ (left, w').
          some (ok w')
