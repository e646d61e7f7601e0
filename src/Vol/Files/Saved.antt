-- ===== src/Vol/Files/Saved.antt =====
-- The index of the last object, across closing and opening a file of adapter/vol/vol-old/H5VLDTIO.cc.
use dtio.Prelude.{
  ℕ, ◌+◌, ◌^◌, ◌<◌, ◌≡◌, ◌⊎◌, inl, inr, refl, sym, ap, ◌∙◌, Bool, true, false, List, [], Option,
  some, Str, length, if◌then◌else◌, nat_eq, ◌==◌, Bool-cases, arith,
}
use dtio.Prelude.Dict.{Dict, lookup}
use mathlib.Core.Bool.{false≢true}
use mathlib.Core.List.{append-nil}
use dtio.Exec.{Exec, ok, ◌>>=◌}
use dtio.Vol.Objects.{AccessFlags}
use dtio.Vol.Store.{StoreApi, LinkTypes, DataLaws}
use dtio.Vol.Words.{uint64_encode, uint64_decode, length-uint64_encode, uint64_decode-uint64_encode}
use dtio.Vol.Oids.Total.{oid_create_string_total}
use dtio.Vol.Groups.{
  Group, PlistApi, World, group_close, released, deref, allocate, group_open_helper,
}
use dtio.Vol.Groups.Heap.{object_text, opened, group_open_helper_opens}
use dtio.Vol.Files.{
  file_flush, write_max_oid, file_close, file_open, new_file, with_root, oid_of, root_grp_oid,
}
use dtio.Vol.Files.Created.{group_binary}

module _ {S : Type 0} (api : StoreApi S) where
  -- A file that is open for writing. Its index is in the store unless it is marked as dirty.
  pub record IsOpen (w : World S) : Type 0 where
    pub short : length w.file_name + 18 < 2 ^ 31
    pub rdwr : w.flags.acc_rdwr ≡ true
    pub glob : w.glob_md_oid ≡ object_text w.file_name 0
    pub bound : w.max_oid < 2 ^ 62
    pub saved :
        (w.max_oid_dirty ≡ true)
        ⊎ (api.dtio_read w.glob_md_oid 8 0 w.store ≡ uint64_encode w.max_oid)

module _ {S : Type 0} (api : StoreApi S) (T : LinkTypes) (plists : PlistApi)
    (laws : DataLaws api) where
  read_index :
      (o : Str) (n : ℕ) (s : S)
      → api.dtio_read o 8 0 (api.dtio_write o (uint64_encode n) s) ≡ uint64_encode n
  read_index o n s =
      ap (λ (k : ℕ). api.dtio_read o k 0 (api.dtio_write o (uint64_encode n) s))
        (sym (length-uint64_encode n))
      ∙ laws.read-write o (uint64_encode n) s

  abbrev pub flushed : World S → Bool → World S
  flushed w b =
      if b
      then record w {
        store = api.dtio_write w.glob_md_oid (uint64_encode w.max_oid) w.store;
        max_oid_dirty = false;
      }
      else w

  pub file_flush_lem :
      (w : World S)
      → w.flags.acc_rdwr ≡ true
      → file_flush api T plists w ≡ flushed w w.max_oid_dirty
  unfolding file_flush write_max_oid
  file_flush_lem w rdwr = ap (λ (b : Bool). if b then flushed w w.max_oid_dirty else w) rdwr

  flushed-IsOpen :
      (w : World S) (b : Bool) → w.max_oid_dirty ≡ b → IsOpen api w → IsOpen api (flushed w b)
  flushed-IsOpen w true e o = record {
    short = o.short;
    rdwr = o.rdwr;
    glob = o.glob;
    bound = o.bound;
    saved = inr (read_index w.glob_md_oid w.max_oid w.store);
  }
  flushed-IsOpen w false e o = o

  flushed_saved :
      (w : World S) (b : Bool)
      → w.max_oid_dirty ≡ b
      → IsOpen api w
      → api.dtio_read w.glob_md_oid 8 0 (flushed w b).store ≡ uint64_encode w.max_oid
  flushed_saved w true e o = read_index w.glob_md_oid w.max_oid w.store
  flushed_saved w false e o = elim o.saved [
    | inl dirty ↦ absurd (false≢true (sym e ∙ dirty))
    | inr there ↦ there
  ]

  flushed_index : (w : World S) (b : Bool) → (flushed w b).max_oid ≡ w.max_oid
  flushed_index w true = refl
  flushed_index w false = refl

  pub file_flush-max_oid :
      (w : World S) → IsOpen api w → (file_flush api T plists w).max_oid ≡ w.max_oid
  file_flush-max_oid w o =
      ap (λ (x : World S). x.max_oid) (file_flush_lem w o.rdwr) ∙ flushed_index w w.max_oid_dirty

  pub file_flush-IsOpen : (w : World S) → IsOpen api w → IsOpen api (file_flush api T plists w)
  file_flush-IsOpen w o = rw (file_flush_lem w o.rdwr) (flushed-IsOpen w w.max_oid_dirty refl o)

  -- The file as it is opened again from a store where its index is kept.
  abbrev pub reopened : Str → AccessFlags → ℕ → Dict ℕ Group → ℕ → S → World S
  reopened name flags max_oid heap fresh_ptr s =
      let w = new_file api T plists name flags (object_text name 0) max_oid heap fresh_ptr s in
      with_root api T plists (allocate (opened api plists 1 w) w)

  pub file_open_reads :
      (name : Str) (flags : AccessFlags) (max_oid : ℕ) (heap : Dict ℕ Group) (fresh_ptr : ℕ) (s : S)
      → length name + 18 < 2 ^ 31
      → max_oid < 2 ^ 62
      → api.dtio_read (object_text name 0) 8 0 s ≡ uint64_encode max_oid
      → file_open api T plists name flags heap fresh_ptr s
        ≡ ok (reopened name flags max_oid heap fresh_ptr s)
  unfolding file_open
  file_open_reads name flags max_oid heap fresh_ptr s short bound there =
      ap (λ (m : Exec (Option Str)). m >>= λ glob. oid_of glob >>= with_glob)
        (oid_create_string_total name 0 short)
      ∙ (ap (λ (m : Exec (ℕ × List ℕ)). m >>= with_index) decodes
          ∙ (ap (λ (m : Exec ℕ). m >>= with_oid max_oid) (group_binary 1 (omega arith))
              ∙ ap (λ (m : Exec (ℕ × World S)). m >>= λ r. ok (with_root api T plists r))
                  (group_open_helper_opens api plists 1 (file_with max_oid) short)))
    where
      file_with : ℕ → World S
      file_with n = new_file api T plists name flags (object_text name 0) n heap fresh_ptr s

      with_oid : ℕ → ℕ → Exec (World S)
      with_oid n o =
          group_open_helper api plists o (file_with n) >>= λ r. ok (with_root api T plists r)

      with_index : ℕ × List ℕ → Exec (World S)
      with_index r = root_grp_oid api T plists >>= with_oid r.0

      with_glob : Str → Exec (World S)
      with_glob glob = uint64_decode (api.dtio_read glob 8 0 s) >>= λ r.
          root_grp_oid api T plists >>= λ o.
          group_open_helper api plists o
            (new_file api T plists name flags glob r.0 heap fresh_ptr s)
          >>= λ x. ok (with_root api T plists x)

      decodes : uint64_decode (api.dtio_read (object_text name 0) 8 0 s) ≡ ok (max_oid, [])
      decodes =
          ap uint64_decode (there ∙ sym (append-nil (uint64_encode max_oid)))
          ∙ uint64_decode-uint64_encode max_oid [] (omega arith)

  released_store : (p : ℕ) (w : World S) (g : Group) → (released p w g).store ≡ w.store
  released_store p w g = elim (Bool-cases (g.rc == 1)) [ inl e ↦ rw (e) refl | inr e ↦ rw (e) refl ]

  close_store :
      (p : ℕ) (w : World S) (g : Group)
      → lookup p w.heap ≡ some g
      → (closed : World S) × (group_close p w ≡ ok closed) × (closed.store ≡ w.store)
  unfolding group_close
  close_store p w g found = (
    released p w g,
    ap (λ (m : Option Group). deref m >>= λ x. ok (released p w x)) found,
    released_store p w g,
  )

  close_flushed :
      (w : World S) (b : Bool) (g : Group)
      → w.max_oid_dirty ≡ b
      → IsOpen api w
      → lookup w.root w.heap ≡ some g
      → (closed : World S) × (group_close (flushed w b).root (flushed w b) ≡ ok closed)
        × (api.dtio_read w.glob_md_oid 8 0 closed.store ≡ uint64_encode w.max_oid)
  close_flushed w true g e o found =
      let (closed, closes, same) = close_store w.root (flushed w true) g found in
      (closed, closes, ap (api.dtio_read w.glob_md_oid 8 0) same ∙ flushed_saved w true e o)
  close_flushed w false g e o found =
      let (closed, closes, same) = close_store w.root (flushed w false) g found in
      (closed, closes, ap (api.dtio_read w.glob_md_oid 8 0) same ∙ flushed_saved w false e o)

  -- Closing a file leaves the index in the store.
  pub file_close_saved :
      (w : World S) (g : Group)
      → IsOpen api w
      → lookup w.root w.heap ≡ some g
      → (closed : World S) × (file_close api T plists w ≡ ok closed)
        × (api.dtio_read w.glob_md_oid 8 0 closed.store ≡ uint64_encode w.max_oid)
  unfolding file_close
  file_close_saved w g o found =
      let (closed, closes, there) = close_flushed w w.max_oid_dirty g refl o found in
      (closed, ap (λ (x : World S). group_close x.root x) (file_flush_lem w o.rdwr) ∙ closes, there)

  -- A file that was open for writing and is closed keeps the index of its last object: it has that
  -- index when it is opened again, however it is opened then.
  pub file_open-file_close :
      (w : World S) (g : Group) (flags : AccessFlags) (heap : Dict ℕ Group) (fresh_ptr : ℕ)
      → IsOpen api w
      → lookup w.root w.heap ≡ some g
      → (closed : World S) × (file_close api T plists w ≡ ok closed)
        × (file_open api T plists w.file_name flags heap fresh_ptr closed.store
            ≡ ok (reopened w.file_name flags w.max_oid heap fresh_ptr closed.store))
  file_open-file_close w g flags heap fresh_ptr o found =
      let (closed, closes, there) = file_close_saved w g o found in
      (
        closed,
        closes,
        file_open_reads w.file_name flags w.max_oid heap fresh_ptr closed.store o.short o.bound
            (ap (λ (t : Str). api.dtio_read t 8 0 closed.store) (sym o.glob) ∙ there),
      )
