-- ===== src/Vol/Files/Counted.antt =====
-- The index that a process counts in `file->max_oid` of adapter/vol/vol-old/H5VLDTIO.cc, and the
-- identifiers that it has given, after a file, a group or a dataset is created.
use dtio.Prelude.{
  ℕ, ◌+◌, ◌%◌, ◌^◌, ◌<◌, ◌≤◌, ◌≡◌, ◌≢◌, inl, refl, sym, ap, ◌∙◌, true, List, [], ◌∷◌, Option, none,
  some, Str, length, All, nat_eq, ◌==◌, arith,
}
use mathlib.Core.Path.{subst}
use dtio.Prelude.Dict.{Dict, lookup, insert}
use dtio.Exec.{Exec, ok, ok-injective, failed_assertion, ◌>>=◌, ◌>>◌, guard}
use dtio.Vol.Objects.{AccessFlags}
use dtio.Vol.Store.{StoreApi, LinkTypes}
use dtio.Vol.Oids.{oid_to_idx}
use dtio.Vol.Oids.Total.{oid_create_string_total}
use dtio.Vol.Groups.{Group, PlistApi, World, deref, allocate}
use dtio.Vol.Groups.Heap.{object_text, lookup_inserted}
use dtio.Vol.Files.{
  Process, writes, group_create_helper, oid_of, file_create, new_file, create_flags, with_root,
  check_root,
}
use dtio.Vol.Files.Created.{group_create_helper_alone, created, indexed, own_metadata, group_index}
use dtio.Vol.Datasets.Made.{dataset_oid}
use dtio.Vol.Datasets.Grown.{Grown}
use dtio.Vol.Files.Saved.{IsOpen}

-- The index in an identifier, which its lower 62 bits are.
abbrev pub IsAtMost : ℕ → ℕ → Type 0
IsAtMost m n = n % 2 ^ 62 ≤ m

abbrev pub AllDistinct : List ℕ → Type 0
AllDistinct [] = Unit
AllDistinct (n ∷ ns) = All (λ m. n ≢ m) ns × AllDistinct ns

new_distinct : (n m : ℕ) (ns : List ℕ) → m < n % 2 ^ 62 → All (IsAtMost m) ns → All (λ k. n ≢ k) ns
new_distinct n m [] new u = tt
new_distinct n m (k ∷ ns) new (h, u) = (λ e. absurd (omega arith), new_distinct n m ns new u)

one_more : (m : ℕ) (ns : List ℕ) → All (IsAtMost m) ns → All (IsAtMost (m + 1)) ns
one_more m [] u = tt
one_more m (n ∷ ns) (h, u) = (omega arith, one_more m ns u)

-- An identifier with the next index is another one.
with_next :
    (n m : ℕ) (ns : List ℕ)
    → n % 2 ^ 62 ≡ m + 1
    → All (IsAtMost m) ns
    → AllDistinct ns
    → All (IsAtMost (m + 1)) (n ∷ ns) × AllDistinct (n ∷ ns)
with_next n m ns e below distinct =
    ((omega arith, one_more m ns below), (new_distinct n m ns (omega arith) below, distinct))

module _ {S : Type 0} (api : StoreApi S) (T : LinkTypes) (plists : PlistApi) where
  -- What holds of a file with the identifiers that were given so far.
  abbrev pub Counts : World S → List ℕ → Type 0
  Counts w ids = IsOpen api w × All (IsAtMost w.max_oid) ids × AllDistinct ids

  pub grown-Counts :
      (w : World S) (ids : List ℕ) (gcpl_id : ℕ) (s : S) (g : Group) (r : ℕ × World S)
      → r
        ≡ allocate
            (created api T plists gcpl_id w)
            (record (indexed api T plists w) { store = s; max_oid_dirty = true })
      → w.max_oid + 1 < 2 ^ 62
      → lookup r.0 r.1.heap ≡ some g
      → Counts w ids
      → Counts r.1 (g.bin_oid ∷ ids)
  grown-Counts w ids gcpl_id s g r e small there (o, below, distinct) =
      subst (λ (x : ℕ × World S). Counts x.1 (g.bin_oid ∷ ids)) (sym e)
        (subst (λ (n : ℕ). Counts after (n ∷ ids)) (sym bin)
          (
            record {
              short = o.short;
              rdwr = o.rdwr;
              glob = o.glob;
              bound = small;
              saved = inl refl;
            },
            next.0,
            next.1,
          ))
    where
      next :
          All (IsAtMost (w.max_oid + 1)) ((w.max_oid + 1) ∷ ids)
          × AllDistinct ((w.max_oid + 1) ∷ ids)
      next = with_next (w.max_oid + 1) w.max_oid ids (omega arith) below distinct

      after : World S
      after =
          (allocate (created api T plists gcpl_id w)
            (record (indexed api T plists w) { store = s; max_oid_dirty = true })).1

      put : lookup w.fresh_ptr (insert w.fresh_ptr (created api T plists gcpl_id w) w.heap) ≡ some g
      put = rw e at there

      bin : g.bin_oid ≡ w.max_oid + 1
      bin = cc (put, lookup_inserted w.fresh_ptr (created api T plists gcpl_id w) w.heap)

  pub begun-Counts :
      (w : World S) (me : Process) (name : Str) (flags : AccessFlags) (fcpl_id : ℕ)
      (heap : Dict ℕ Group) (fresh_ptr : ℕ) (s : S)
      → length name + 18 < 2 ^ 31
      → writes me true ≡ true
      → file_create api T plists me name flags fcpl_id heap fresh_ptr s ≡ ok w
      → Counts w (1 ∷ [])
  unfolding file_create
  begun-Counts w me name flags fcpl_id heap fresh_ptr s short lead h =
      subst (λ (x : World S). Counts x (1 ∷ [])) (ok-injective root_file w (sym makes ∙ h))
        (
          record { short = short; rdwr = refl; glob = refl; bound = omega arith; saved = inl refl },
          (omega arith, tt),
          (tt, tt),
        )
    where
      text : Str
      text = object_text name 0

      empty : World S
      empty = new_file api T plists name (create_flags api T plists flags) text 0 heap fresh_ptr s

      made : ℕ × World S
      made = allocate (created api T plists fcpl_id empty) (record (indexed api T plists empty) {
        store = own_metadata api T plists fcpl_id empty;
        max_oid_dirty = true;
      })

      root_file : World S
      root_file = with_root api T plists made

      with_glob : Str → Exec (World S)
      with_glob glob =
          group_create_helper api T plists me fcpl_id none true
            (new_file api T plists name (create_flags api T plists flags) glob 0 heap fresh_ptr s)
          >>= λ r. check_root api T plists (with_root api T plists r)

      index_checked : ℕ → Exec (World S)
      index_checked n = guard (n == 1) failed_assertion >> ok root_file

      makes : file_create api T plists me name flags fcpl_id heap fresh_ptr s ≡ ok root_file
      makes =
          ap (λ (m : Exec (Option Str)). m >>= λ glob. oid_of glob >>= with_glob)
            (oid_create_string_total name 0 short)
          ∙ (ap
                (λ (m : Exec (ℕ × World S)).
                  m >>= λ r. check_root api T plists (with_root api T plists r))
                (group_create_helper_alone api T plists me fcpl_id true empty short (omega arith)
                  refl lead)
              ∙ (ap (λ (o : Option Group). deref o >>= λ g. index_checked (oid_to_idx g.bin_oid))
                    (lookup_inserted fresh_ptr (created api T plists fcpl_id empty) heap)
                  ∙ ap index_checked (group_index 1 (omega arith))))

  pub dataset-Counts :
      (w w' : World S) (ids : List ℕ) (bin_oid : ℕ)
      → w.max_oid + 1 < 2 ^ 62
      → bin_oid ≡ dataset_oid (w.max_oid + 1)
      → Grown w w'
      → Counts w ids
      → Counts w' (bin_oid ∷ ids)
  dataset-Counts w w' ids bin_oid small index (heap, p, s, e) (o, below, distinct) =
      let (below', distinct') = with_next bin_oid w.max_oid ids (omega arith) below distinct in
      subst (λ (x : World S). Counts x (bin_oid ∷ ids)) (sym e)
        (
          record { short = o.short; rdwr = o.rdwr; glob = o.glob; bound = small; saved = inl refl },
          below',
          distinct',
        )
