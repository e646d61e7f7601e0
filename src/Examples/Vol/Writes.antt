-- ===== src/Examples/Vol/Writes.antt =====
-- A buffer written to the points of a plane.
use dtio.Prelude.{
  ℕ, ◌+◌, ◌≡◌, refl, true, false, All, List, [], ◌∷◌, none, some, Str, codes, length, nat_eq, arith,
}
use dtio.Exec.{ok}
use dtio.Vol.IoOps.{seqs}
use dtio.Vol.Groups.{World}
use dtio.Vol.Chunks.{ChunkInfo}
use dtio.Vol.Chunks.Grid.{grid}
use dtio.Vol.Chunks.Laws.{about}
use dtio.Vol.Conversion.{atomic}
use dtio.Vol.Transfer.{dataset_write}
use dtio.Vol.Requests.{DataApi, Request, chunked}
use dtio.Vol.Transfer.Plain.{IsReady, Writes}
use dtio.Vol.Transfer.Written.{IsSelected, chunks_in, dataset_write-Writes}
use dtio.Examples.Vol.Memory.{writable}
use dtio.Examples.Vol.Spaces.{
  Space, spaces, spaces_work, plane, buffer, chunk, points_in, plane-Counts,
}

-- The store is the list of what was written, the last first; the elements of a selection stand one
-- behind the other.
abbrev Log : Type 0
Log = List (Str × List (ℕ × Str))

abbrev one_by_one : ℕ → ℕ → List (List ℕ) → List (ℕ × ℕ)
one_by_one size off [] = []
one_by_one size off (p ∷ ps) = (off, size) ∷ one_by_one size (off + size) ps

abbrev calls : DataApi Log Space
calls = record {
  space_of = λ n. plane;
  type_of = λ n. atomic 2;
  layout = λ n. chunked;
  chunk_dims = λ n. some chunk;
  same_type = λ m n. some true;
  extent_npoints = λ s. some 6;
  extent_equal = λ s t. some false;
  sequences = λ s size. seqs (length s.points) (one_by_one size 0 s.points) ∷ [];
  malloc = λ n. [];
  gather = λ s buf t len old. old;
  convert = λ s t n buf bkg. buf;
  read_op_operate = λ key places log. [];
  write_op_operate = λ key ps log. (key, ps) ∷ log;
}

abbrev request : Request Space
request = record {
  dset = record {
    bin_oid = 2;
    oid = none;
    rc = 1;
    type_id = 3;
    space_id = 4;
    dcpl_id = 5;
    dapl_id = 6;
  };
  mem_type_id = 3;
  mem_space = some buffer;
  file_space = none;
  buf = codes "abcdefgh";
}

abbrev file : World Log
file = record {
  file_name = codes "f";
  flags = writable;
  glob_md_oid = [];
  max_oid = 2;
  max_oid_dirty = false;
  root = 1;
  heap = [];
  fresh_ptr = 2;
  store = [];
}

abbrev info_at : List ℕ → ChunkInfo Space
info_at c = about spaces_work plane buffer chunk plane.box buffer.box c

abbrev Ready : List ℕ → Type 0
Ready c = IsReady spaces calls (some false) true 6 2 2 request.buf (info_at c)

first-Ready : Ready (0 ∷ 0 ∷ [])
first-Ready = record {
  count = 1;
  rank = refl;
  points = refl;
  some_bytes = omega arith;
  in_word = omega arith;
  mem_full = ((omega arith, tt), tt);
  file_full = ((omega arith, tt), tt);
  mem_count = refl;
  file_count = refl;
  in_buffer = omega arith;
  enough = omega arith;
}

second-Ready : Ready (0 ∷ 3 ∷ [])
second-Ready = record {
  count = 2;
  rank = refl;
  points = refl;
  some_bytes = omega arith;
  in_word = omega arith;
  mem_full = ((omega arith, (omega arith, tt)), tt);
  file_full = ((omega arith, (omega arith, tt)), tt);
  mem_count = refl;
  file_count = refl;
  in_buffer = omega arith;
  enough = omega arith;
}

third-Ready : Ready (2 ∷ 6 ∷ [])
third-Ready = record {
  count = 1;
  rank = refl;
  points = refl;
  some_bytes = omega arith;
  in_word = omega arith;
  mem_full = ((omega arith, tt), tt);
  file_full = ((omega arith, tt), tt);
  mem_count = refl;
  file_count = refl;
  in_buffer = omega arith;
  enough = omega arith;
}

plane-IsSelected :
    IsSelected spaces calls
      (some false)
      true
      spaces_work
      6
      4
      plane
      buffer
      chunk
      plane.box
      buffer.box
      points_in
unfolding grid
plane-IsSelected = record {
  counts = plane-Counts;
  box = omega arith;
  starts_62 = omega arith;
  same_rank = refl;
  points = refl;
  bound = omega arith;
  all_points = refl;
  file_rank = refl;
  mem_rank = refl;
  file_box = refl;
  mem_box = refl;
  shape = refl;
  enough = omega arith;
}

abbrev chunks : List (ChunkInfo Space)
chunks = info_at (0 ∷ 0 ∷ []) ∷ info_at (0 ∷ 3 ∷ []) ∷ info_at (2 ∷ 6 ∷ []) ∷ []

found :
    chunks_in spaces calls
      (some false)
      true
      spaces_work
      request
      buffer
      chunk
      plane.box
      buffer.box
      points_in
    ≡ chunks
unfolding grid
found = refl

All-IsReady : All (IsReady spaces calls (some false) true 6 2 2 request.buf) (
    chunks_in spaces calls
      (some false)
      true
      spaces_work
      request
      buffer
      chunk
      plane.box
      buffer.box
      points_in)
unfolding grid
All-IsReady = (first-Ready, (second-Ready, (third-Ready, tt)))

dataset_write-Writes_example :
    (s' : Log) × (dataset_write spaces calls (some false) true 6 (request ∷ []) file
      ≡ some (ok (record file { store = s' })))
    × Writes spaces calls
        (some false)
        true
        (codes "f")
        request
        2
        (chunks_in spaces calls
          (some false)
          true
          spaces_work
          request
          buffer
          chunk
          plane.box
          buffer.box
          points_in)
        []
        s'
dataset_write-Writes_example =
    dataset_write-Writes spaces calls (some false) true spaces_work 6 2 3 request buffer chunk
      plane.box buffer.box points_in file (omega arith) refl (omega arith) refl refl (omega arith)
      refl refl plane-IsSelected All-IsReady
