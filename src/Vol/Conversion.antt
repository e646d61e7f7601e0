-- ===== src/Vol/Conversion.antt =====
-- `H5VL_dtio_need_bkg` and `H5VL_dtio_tconv_init` of adapter/vol/vol-old/H5VLDTIO.cc: whether the
-- conversion between two types needs a background buffer, and whether that must be filled. A type is
-- the tree of what HDF5's queries return for it; the queries on a type that has what is asked for
-- succeed, as do the calls that close types.
pub mod Yields
pub mod Covers
pub mod Total
use dtio.Prelude.{
  ℕ, ◌+◌, ◌%◌, ◌^◌, Bool, true, false, not, List, [], ◌∷◌, Option, none, some, Str, if◌then◌else◌,
  leb, nat_eq, str_eq, ◌==◌,
}
use dtio.Exec.{Exec, ok, fault, failed_assertion, ◌>>=◌, ◌>>◌, guard}

-- The classes of types: those without parts, compounds, arrays, enumerations with the names of their
-- members and their base type, and those that are refused, variable-length types with their base type,
-- and references. Each has its size in bytes.
mutual
  pub data DataType : Type 0 where
    atomic : ℕ → DataType
    compound : ℕ → Members → DataType
    array : ℕ → DataType → DataType
    enumeration : ℕ → List Str → DataType → DataType
    vlen : ℕ → DataType → DataType
    reference : ℕ → DataType

  pub data Members : Type 0 where
    no_member : Members
    member : Str → DataType → Members → Members

-- `H5VL_dtio_tconv_reuse_t`
pub data Reuse : Type 0 where
  reuse_none : Reuse
  reuse_tconv : Reuse
  reuse_bkg : Reuse

-- `H5Tget_size`
abbrev pub size_of : DataType → ℕ
size_of (atomic n) = n
size_of (compound n ms) = n
size_of (array n t) = n
size_of (enumeration n names t) = n
size_of (vlen n t) = n
size_of (reference n) = n

abbrev pub find : Str → Members → Option DataType
find name no_member = none
find name (member n t ms) = if n == name then some t else find name ms

abbrev is_among : Str → List Str → Bool
is_among name [] = false
is_among name (n ∷ names) = if n == name then true else is_among name names

abbrev typed : Option DataType → Option (Option DataType)
typed none = none
typed (some t) = some (some t)

-- `H5Tget_member_index`, which is negative where there is none, and then `H5Tget_member_type`. An
-- enumeration has members too, and the second call fails for it.
abbrev pub member_of : Str → DataType → Option (Option DataType)
member_of name (atomic n) = none
member_of name (compound n ms) = typed (find name ms)
member_of name (array n t) = none
member_of name (enumeration n names t) = if is_among name names then some none else none
member_of name (vlen n t) = none
member_of name (reference n) = none

-- `H5Tget_super`, which fails for a type that has no parent.
abbrev pub super : DataType → Option DataType
super (atomic n) = none
super (compound n ms) = none
super (array n t) = some t
super (enumeration n names t) = some t
super (vlen n t) = some t
super (reference n) = none

-- A run that may fail; `none` is `FAIL`.
infixl 5 ◌>>?◌
abbrev pub ◌>>?◌ : {A B : Type 0} → Exec (Option A) → (A → Exec (Option B)) → Exec (Option B)
fault e >>? f = fault e
ok none >>? f = ok none
ok (some a) >>? f = f a

-- What `need_bkg` leaves: the value that it returns, `*dst_type_size` and `*fill_bkg`.
pub record Bkg : Type 0 where
  pub need : Bool
  pub dst_size : ℕ
  pub fill : Bool

-- How the loop over the members ends: at a member for which the buffer must be filled, or after the last
-- one, with `size_used`.
pub data LoopEnd : Type 0 where
  stopped : LoopEnd
  through : ℕ → Bool → LoopEnd

-- A size of 0 is a failure.
abbrev pub sized : ℕ → Exec (Option Bkg) → Exec (Option Bkg)
sized n r = if n == 0 then ok none else r

-- The test for gaps.
abbrev pub compound_end : ℕ → LoopEnd → Exec (Option Bkg)
compound_end n stopped = ok (some (record { need = true; dst_size = n; fill = true }))
compound_end n (through used fill) =
    guard (leb used n) failed_assertion
    >> ok (some (record { need = true; dst_size = n; fill = if used == n then fill else true }))

abbrev pub array_end : ℕ → Bkg → Exec (Option Bkg)
array_end n r = ok (some (record r { dst_size = n }))

-- The types that need no background buffer set nothing.
abbrev pub as_it_was : Option Bool → ℕ → Bool → Option Bkg
as_it_was none n fill = none
as_it_was (some b) n fill = some (record { need = b; dst_size = n; fill = fill })

-- What `tconv_init` leaves.
pub record Conversion : Type 0 where
  pub src_type_size : ℕ
  pub dst_type_size : ℕ
  pub types_equal : Bool
  pub reuse : Reuse
  pub need_bkg : Bool
  pub fill_bkg : Bool

-- `need_bkg` declares no variable for its result; `unset` is the value that it would have, where `none`
-- stands for the negative ones, which every caller takes for a failure.
module _ (unset : Option Bool) where
  unfoldable mutual
    pub need_bkg : DataType → DataType → Bool → Exec (Option Bkg)
    need_bkg (atomic n) src fill = sized n (ok (as_it_was unset n fill))
    need_bkg (compound n ms) src fill = sized n (member_loop ms src 0 fill >>? compound_end n)
    need_bkg (array n t) src fill =
        sized n (elim (super src) [ none ↦ ok none | some s ↦ need_bkg t s fill >>? array_end n ])
    need_bkg (enumeration n names t) src fill = sized n (ok (as_it_was unset n fill))
    need_bkg (vlen n t) src fill = sized n (ok none)
    need_bkg (reference n) src fill = sized n (ok none)

    -- The members of the destination, with `size_used`.
    pub member_loop : Members → DataType → ℕ → Bool → Exec (Option LoopEnd)
    member_loop no_member src used fill = ok (some (through used fill))
    member_loop (member name t ms) src used fill = elim (member_of name src) [
      | none ↦ ok (some stopped)
      | some found ↦ elim found [
        | none ↦ ok none
        | some s ↦ need_bkg t s fill >>? λ r.
            if r.fill
            then ok (some stopped)
            else member_loop ms src ((used + r.dst_size) % 2 ^ 64) r.fill
      ]
    ]

  -- `dst_type_size >= src_type_size` compares the two pointers; `above` is the answer.
  abbrev pub reused : Bool → Bool → Reuse
  reused true need = reuse_tconv
  reused false true = reuse_bkg
  reused false false = reuse_none

  abbrev pub converted : Reuse → Bool → ℕ → Bkg → Exec (Option Conversion)
  converted reuse_none above n r = ok (
      some (record {
        src_type_size = n;
        dst_type_size = r.dst_size;
        types_equal = false;
        reuse = reused above r.need;
        need_bkg = r.need;
        fill_bkg = r.fill;
      }))
  converted reuse_tconv above n r = fault failed_assertion
  converted reuse_bkg above n r = fault failed_assertion

  abbrev pub by_equality :
      Reuse → Bool → DataType → DataType → Bool → Option Bool → Exec (Option Conversion)
  by_equality before above src dst fill none = ok none
  by_equality before above src dst fill (some true) = ok (
      some (record {
        src_type_size = size_of src;
        dst_type_size = size_of src;
        types_equal = true;
        reuse = before;
        need_bkg = false;
        fill_bkg = fill;
      }))
  by_equality before above src dst fill (some false) =
      need_bkg dst src fill >>? converted before above (size_of src)

  -- `before` is `*reuse` at the start, `fill` is `*fill_bkg`, and `same` is what `H5Tequal` answers.
  unfoldable pub tconv_init :
      Reuse → Bool → Option Bool → DataType → DataType → Bool → Exec (Option Conversion)
  tconv_init before above same src dst fill =
      guard (not fill) failed_assertion
      >> (if size_of src == 0 then ok none else by_equality before above src dst fill same)
