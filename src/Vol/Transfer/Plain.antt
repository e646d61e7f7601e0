-- ===== src/Vol/Transfer/Plain.antt =====
-- How `H5VL_dtio_dataset_write` of adapter/vol/vol-old/H5VLDTIO.cc writes the chunks that it has found,
-- where the types are equal.
use dtio.Prelude.{
  ℕ, ◌+◌, ◌*◌, ◌^◌, ◌<◌, ◌≤◌, ◌≡◌, refl, sym, ap, ◌∙◌, Bool, true, false, List, [], ◌∷◌, ◌++◌,
  Option, some, Str, length, take_all, leb, nat_eq, ◌==◌, All, arith,
}
use mathlib.Core.List.{map}
use dtio.Exec.{Exec, ok}
use dtio.Vol.Oids.{oid_create_chunk, two_digits, hex_word, hex_words}
use dtio.Vol.Oids.Total.{oid_create_chunk_total}
use dtio.Vol.IoOps.Ranges.{addresses, selected}
use dtio.Vol.IoOps.Sides.{AllFull}
use dtio.Vol.IoOps.Merge.{build_io_op_merge_lem}
use dtio.Vol.Chunks.{SpaceApi, ChunkInfo}
use dtio.Vol.Conversion.{Conversion, tconv_init, size_of, reuse_none}
use dtio.Vol.Buffers.Pieces.{byte_at, pairs, spread, InBuffer, pieces-spread}
use dtio.Vol.Transfer.{write_chunks, write_chunk, conversion_of, named_coords}
use dtio.Vol.Requests.{DataApi, Request, Running, ◌>>+◌, initial}

-- The name of the object of a chunk.
abbrev pub chunk_key : Str → ℕ → List ℕ → Str
chunk_key file_name bin_oid coords =
    (two_digits (length coords) ++ (file_name ++ hex_word bin_oid)) ++ hex_words coords

key_lem :
    (f : Str) (a : ℕ) (loc : List ℕ)
    → length f + 18 < 2 ^ 31
    → length loc ≤ 99
    → oid_create_chunk f a loc ≡ ok (some (chunk_key f a loc))
key_lem f a loc short rank = rw (oid_create_chunk_total f a loc short, small) refl
  where
    small : leb (length loc) 99 ≡ true
    small = ground arith

module _ {S D : Type 0} (spaces : SpaceApi D) (api : DataApi S D) (unset : Option Bool)
    (above : Bool) where
  -- The places of a chunk's selection in the chunk's object, and those of its memory in the buffer.
  abbrev pub file_places : ℕ → ChunkInfo D → List ℕ
  file_places size info = addresses (selected (api.sequences info.fspace size))

  abbrev pub mem_places : ℕ → ChunkInfo D → List ℕ
  mem_places size info = addresses (selected (api.sequences info.mspace size))

  -- The iterators over the two selections of a chunk succeed and give as many bytes as the memory's
  -- selection has points, all in the buffer; the chunk has one coordinate for each dimension of the
  -- dataset; and the fuel is enough to merge the two.
  pub record IsReady (fuel ndims size : ℕ) (buf : Str) (info : ChunkInfo D) : Type 0 where
    pub count : ℕ
    pub rank : length info.chunk_coords ≡ ndims
    pub points : spaces.npoints info.mspace ≡ some count
    pub some_bytes : 0 < count * size
    pub in_word : count * size < 2 ^ 64
    pub mem_full : AllFull (api.sequences info.mspace size)
    pub file_full : AllFull (api.sequences info.fspace size)
    pub mem_count : length (mem_places size info) ≡ count * size
    pub file_count : length (file_places size info) ≡ count * size
    pub in_buffer : InBuffer buf (mem_places size info)
    pub enough :
        length (selected (api.sequences info.mspace size))
          + length (selected (api.sequences info.fspace size))
        ≤ fuel

  -- The stores after the chunks were written one after the other: to the object of each, at each place of
  -- the file's selection, the byte of the buffer that has the same position in the memory's.
  pub data Writes (file_name : Str) (r : Request D) (size : ℕ)
      : List (ChunkInfo D) → S → S → Type 0 where
    no_chunks : {s s' : S} → s ≡ s' → Writes file_name r size [] s s'
    one_chunk :
        {info : ChunkInfo D} {infos : List (ChunkInfo D)} {s s' : S} (ps : List (ℕ × Str))
        → spread ps ≡ pairs (file_places size info) (map (byte_at r.buf) (mem_places size info))
        → Writes file_name r size infos
            (api.write_op_operate (chunk_key file_name r.dset.bin_oid info.chunk_coords) ps s)
            s'
        → Writes file_name r size (info ∷ infos) s s'

  -- The conversion of equal types.
  abbrev pub equal_types : ℕ → Conversion
  equal_types size = record {
    src_type_size = size;
    dst_type_size = size;
    types_equal = true;
    reuse = reuse_none;
    need_bkg = false;
    fill_bkg = false;
  }

  pub conversion_equal :
      (r : Request D)
      → api.same_type r.dset.type_id r.mem_type_id ≡ some true
      → 0 < size_of (api.type_of r.dset.type_id)
      → conversion_of spaces api unset above initial r
        ≡ some (ok (some (equal_types (size_of (api.type_of r.dset.type_id)))))
  unfolding tconv_init
  conversion_equal r same positive = rw (same, not_zero positive) refl
    where
      not_zero :
          0 < size_of (api.type_of r.dset.type_id)
          → size_of (api.type_of r.dset.type_id) == 0 ≡ false
      not_zero h = ground arith

  whole_coords :
      (ndims : ℕ) (coords : List ℕ)
      → length coords ≡ ndims
      → named_coords spaces api unset above ndims coords ≡ ok coords
  unfolding named_coords
  whole_coords ndims coords e = rw (leb_same, take_all ndims coords (omega arith)) refl
    where
      leb_same : leb ndims (length coords) ≡ true
      leb_same = ground arith

  write_chunk_lem :
      (fuel ndims size chunks : ℕ) (f : Str) (r : Request D) (ms : D) (info : ChunkInfo D)
      (run : Running S)
      → length f + 18 < 2 ^ 31
      → ndims ≤ 99
      → r.mem_space ≡ some ms
      → IsReady fuel ndims size r.buf info
      → (ps : List (ℕ × Str)) × (write_chunk spaces api unset above fuel f ndims
            (equal_types size)
            r
            chunks
            info
            run
          ≡ some (
              ok (record run {
                kept =
                    api.write_op_operate (chunk_key f r.dset.bin_oid info.chunk_coords) ps run.kept;
              })))
        × (spread ps ≡ pairs (file_places size info) (map (byte_at r.buf) (mem_places size info)))
  unfolding write_chunk
  write_chunk_lem fuel ndims size chunks f r ms info run short low given ready =
      let (ops, built, mem, file, toward) =
        build_io_op_merge_lem fuel (api.sequences info.mspace size) (api.sequences info.fspace size)
          size ready.count false true refl ready.some_bytes ready.in_word ready.mem_full
          ready.file_full ready.mem_count ready.file_count ready.enough in
      let (ps, taken, places) = pieces-spread ops r.buf toward (rw (sym mem) at ready.in_buffer) in
      (
        ps,
        rw
            (
              whole_coords ndims info.chunk_coords ready.rank,
              key_lem f r.dset.bin_oid info.chunk_coords short (omega (arith, ready.rank)),
              ready.points,
              given,
              built,
              taken,
            )
            refl,
        places ∙ (λ i. pairs (file i) (map (byte_at r.buf) (mem i))),
      )

  pub write_chunks-Writes :
      (fuel ndims size chunks : ℕ) (f : Str) (r : Request D) (ms : D) (infos : List (ChunkInfo D))
      (run : Running S)
      → length f + 18 < 2 ^ 31
      → ndims ≤ 99
      → r.mem_space ≡ some ms
      → All (IsReady fuel ndims size r.buf) infos
      → (s' : S) × (write_chunks spaces api unset above fuel f ndims
            (equal_types size)
            r
            chunks
            infos
            run
          ≡ some (ok (record run { kept = s' })))
        × Writes f r size infos run.kept s'
  unfolding write_chunks
  write_chunks-Writes fuel ndims size chunks f r ms [] run short low given ready =
      (run.kept, refl, no_chunks refl)
  write_chunks-Writes fuel ndims size chunks f r ms (info ∷ infos) run short low given
        (now, later) =
      let (ps, e, places) =
        write_chunk_lem fuel ndims size chunks f r ms info run short low given now in
      let (s', rest, writes) =
        write_chunks-Writes fuel ndims size chunks f r ms infos
          (record run {
            kept = api.write_op_operate (chunk_key f r.dset.bin_oid info.chunk_coords) ps run.kept;
          })
          short low given later in
      (
        s',
        ap
              (λ (m : Option (Exec (Running S))).
                m
                >>+ write_chunks spaces api unset above fuel f ndims (equal_types size) r chunks
                    infos)
              e
            ∙ rest,
        one_chunk ps places writes,
      )
