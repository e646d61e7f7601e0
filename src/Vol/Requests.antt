-- ===== src/Vol/Requests.antt =====
-- The arguments and variables of `H5VL_dtio_dataset_write` of adapter/vol/vol-old/H5VLDTIO.cc, and the
-- calls that it makes.
use dtio.Prelude.{ℕ, Bool, true, false, List, Option, none, some, Str, if◌then◌else◌, ltb, nat_eq}
use dtio.Exec.{Exec, ok, fault, bad_pointer, uninitialised, double_free}
use dtio.Vol.IoOps.{SeqReply}
use dtio.Vol.Conversion.{DataType, Reuse, reuse_none}
use dtio.Vol.Datasets.{Dataset}

-- `H5D_layout_t`
pub data Layout : Type 0 where
  compact : Layout
  contiguous : Layout
  chunked : Layout
  other_layout : Layout

-- The calls of HDF5 and of the object store, besides those on dataspaces.
pub record DataApi (S D : Type 0) : Type 0 where
  -- what the numbers of a dataset stand for
  pub space_of : ℕ → D
  pub type_of : ℕ → DataType
  pub layout : ℕ → Layout
  pub chunk_dims : ℕ → Option (List ℕ)
  -- `H5Tequal`, `H5Sget_simple_extent_npoints` and `H5Sextent_equal`
  pub same_type : ℕ → ℕ → Option Bool
  pub extent_npoints : D → Option ℕ
  pub extent_equal : D → D → Option Bool
  -- the replies of an iterator over a selection, for elements of a size
  pub sequences : D → ℕ → List SeqReply
  -- `malloc`, `H5Dgather` from a buffer, and `H5Tconvert` with a background buffer
  pub malloc : ℕ → Str
  pub gather : D → Str → ℕ → ℕ → Str → Str
  pub convert : ℕ → ℕ → ℕ → Str → Str → Str
  -- `dtio_read_op_operate`, with what is read for each operation, and `dtio_write_op_operate`
  pub read_op_operate : Str → List (ℕ × ℕ) → S → List Str
  pub write_op_operate : Str → List (ℕ × Str) → S → S

-- The arguments for one dataset; `none` is `H5S_ALL`, and `buf` is what the buffer holds.
pub record Request (D : Type 0) : Type 0 where
  pub dset : Dataset
  pub mem_type_id : ℕ
  pub mem_space : Option D
  pub file_space : Option D
  pub buf : Str

-- `none`: the fuel is used up.
infixl 5 ◌>>+◌
abbrev pub ◌>>+◌ : {A B : Type 0} → Option (Exec A) → (A → Option (Exec B)) → Option (Exec B)
none >>+ f = none
some (fault e) >>+ f = some (fault e)
some (ok a) >>+ f = f a

-- The variables that one dataset leaves for the next: `reuse`, `fill_bkg`, and whether `tconv_buf` and
-- `bkg_buf` point to buffers that were freed.
pub record Leftover : Type 0 where
  pub reuse_left : Reuse
  pub fill_left : Bool
  pub tconv_freed : Bool
  pub bkg_freed : Bool

-- Their initial values.
abbrev pub initial : Leftover
initial = record {
  reuse_left = reuse_none;
  fill_left = false;
  tconv_freed = false;
  bkg_freed = false;
}

-- `free` of a buffer that was allocated for this dataset, and otherwise of what is left; the answer is
-- whether the pointer is now one to a freed buffer.
abbrev pub freed : Bool → Bool → Exec Bool
freed true left = ok true
freed false true = fault double_free
freed false false = ok false

-- The conversion and the background buffer, and the store.
pub record Running (S : Type 0) : Type 0 where
  pub tconv_buf : Str
  pub bkg_buf : Str
  pub kept : S

abbrev pub or_fault : {A : Type 0} → Option A → Option (Exec A)
or_fault none = some (fault uninitialised)
or_fault (some a) = some (ok a)

abbrev pub key_of : Option Str → Option (Exec Str)
key_of none = some (fault bad_pointer)
key_of (some key) = some (ok key)

abbrev pub larger : ℕ → ℕ → ℕ
larger a b = if ltb b a then a else b
