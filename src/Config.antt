-- ===== src/Config.antt =====
-- include/dtio/config_manager.h: the path entries, how they are loaded, and which paths are taken.
pub mod Sorting
pub mod Verdict
pub mod Paths
use dtio.Prelude.{
  ℕ, suc, Bool, true, false, Option, none, some, List, [], ◌∷◌, ◌++◌, map, Str, codes, length, ltb,
  if◌then◌else◌, ◌&&◌, nat_beq,
}
use mathlib.Core.Option

pub record PathEntry : Type 0 where
  pub path : Str
  pub do_include : Bool

abbrev pub path_entry : Str → Bool → PathEntry
path_entry p include = record { path = p; do_include = include }

unfoldable pub starts_with : Str → Str → Bool
starts_with s [] = true
starts_with [] (c ∷ needle) = false
starts_with (d ∷ s) (c ∷ needle) = nat_beq d c && starts_with s needle

-- `s.find(needle)`: the first position, `none` for `npos`.
unfoldable pub find : Str → Str → Option ℕ
unfolding starts_with
find [] needle = if starts_with [] needle then some 0 else none
find (c ∷ s) needle =
    let rest = find s needle in
    if starts_with (c ∷ s) needle then some 0 else Option.map (λ i. suc i) rest

abbrev pub is_zero : Option ℕ → Bool
is_zero none = false
is_zero (some i) = nat_beq i 0

-- `should_intercept` over `path_entries_`.
unfoldable pub should_intercept : List PathEntry → Str → Bool
unfolding find
should_intercept [] absolute_path = false
should_intercept (entry ∷ entries) absolute_path =
    if is_zero (find absolute_path entry.path)
    then entry.do_include
    else should_intercept entries absolute_path

unfoldable pub load_default : List PathEntry
load_default = path_entry (codes "/tmp") true ∷ path_entry (codes "/") false ∷ []

-- The comparison that `std::sort` is given.
abbrev pub longer : PathEntry → PathEntry → Bool
longer a b = ltb (length b.path) (length a.path)

insert_entry : PathEntry → List PathEntry → List PathEntry
insert_entry e [] = e ∷ []
insert_entry e (f ∷ es) = if longer f e then f ∷ insert_entry e es else e ∷ f ∷ es

-- `std::sort` by `longer`. It may leave entries of one length in any order; this is one such order.
unfoldable pub sort : List PathEntry → List PathEntry
unfolding insert_entry
sort [] = []
sort (e ∷ es) = insert_entry e (sort es)

-- `std::filesystem::absolute` at the current directory `cwd`, for a path that is not empty.
unfoldable pub absolute : Str → Str → Str
absolute cwd path = if starts_with path (codes "/") then path else cwd ++ (codes "/" ++ path)

abbrev or_nil : Option (List Str) → List Str
or_nil none = []
or_nil (some paths) = paths

module _ (expand_path : Str → Str) (cwd : Str) where
  abs_entry : Bool → Str → PathEntry
  unfolding absolute
  abs_entry include path = path_entry (absolute cwd (expand_path path)) include

  -- The entries before they are sorted.
  unfoldable pub combine : Option (List Str) → Option (List Str) → List PathEntry
  unfolding abs_entry
  combine include exclude =
      map (abs_entry true) (or_nil include) ++ map (abs_entry false) (or_nil exclude)

  -- The arguments are the `include` and `exclude` sequences of the file, if it has them.
  unfoldable pub parse_yaml : Option (List Str) → Option (List Str) → List PathEntry
  unfolding combine sort
  parse_yaml include exclude = sort (combine include exclude)
