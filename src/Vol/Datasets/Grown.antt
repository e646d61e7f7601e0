-- ===== src/Vol/Datasets/Grown.antt =====
-- The file after `H5VL_dtio_dataset_create` of adapter/vol/vol-old/H5VLDTIO.cc, wherever the link to the
-- dataset is.
use dtio.Prelude.{
  ℕ, ◌+◌, ◌^◌, ◌<◌, ◌≡◌, refl, sym, ap, ◌∙◌, Bool, true, Option, none, some, Str, length, nat_eq,
}
use dtio.Prelude.Dict.{Dict, lookup}
use dtio.Exec.{Exec, ok, ok-injective, fault, ◌>>=◌}
use dtio.Vol.Objects.{hard, h5i_dataset}
use dtio.Vol.Store.{StoreApi, LinkTypes}
use dtio.Vol.Links.{link_write}
use dtio.Vol.Groups.{Group, PlistApi, World, Item, deref}
use dtio.Vol.Groups.Heap.{object_text}
use dtio.Vol.Groups.Kept.{IsSameFile, Keeps, Keeps-group_traverse, Keeps-link_follow}
use dtio.Vol.Groups.Paths.{group_traverse, link_follow}
use dtio.Vol.Files.{Process, writes, oid_of}
use dtio.Vol.Files.Created.{oid_create_made, next_index}
use dtio.Vol.Datasets.{Dataset, Codec, metadata, dataset_create, new_dataset, link_dataset}
use dtio.Vol.Datasets.Made.{dataset_oid, dataset_binary, dataset_index}

-- The file with one more index, and other groups in memory and another store.
abbrev pub Grown : {S : Type 0} → World S → World S → Type 0
Grown {S} w w' =
    (heap : Dict ℕ Group) × (fresh_ptr : ℕ) × (s : S) × (w' ≡ record w {
      heap = heap;
      fresh_ptr = fresh_ptr;
      store = s;
      max_oid = w.max_oid + 1;
      max_oid_dirty = true;
    })

abbrev Grows : {S : Type 0} → World S → Exec (World S) → Type 0
Grows w (fault e) = Unit
Grows w (ok w') = Grown w w'

module _ {S : Type 0} (api : StoreApi S) (T : LinkTypes) (plists : PlistApi) (codec : Codec) where
  abbrev counted : World S → World S
  counted w = record w { max_oid = w.max_oid + 1 }

  -- The file when the link is written.
  abbrev with_object : S → World S → World S
  with_object s x = record x { store = s; max_oid_dirty = true }

  Grows-link_dataset :
      (target : Option (ℕ × Str)) (bin_oid : ℕ) (w x : World S) (s : S)
      → IsSameFile (counted w) x
      → Grows w (link_dataset api T plists codec target bin_oid (with_object s x))
  Grows-link_dataset none bin_oid w x s h = tt
  Grows-link_dataset (some (grp, name)) bin_oid w x s h = by (lookup grp x.heap)
    where
      by_text :
          (text : Option Str)
          → Grows w (
              oid_of text >>= λ t. ok (record (with_object s x) {
                store = (link_write api T x.flags t name (hard bin_oid) s).1;
              }))
      by_text none = tt
      by_text (some t) =
          let s' = (link_write api T x.flags t name (hard bin_oid) s).1 in
          (x.heap, x.fresh_ptr, s', ap (with_object s') h.same)

      by :
          (o : Option Group)
          → Grows w (
              deref o >>= λ g. oid_of g.oid >>= λ t. ok (record (with_object s x) {
                store = (link_write api T x.flags t name (hard bin_oid) s).1;
              }))
      by none = tt
      by (some g) = by_text g.oid

  abbrev written : ℕ → Str → Str → Exec (Option (ℕ × Str) × World S) → Exec (World S)
  written bin_oid oid md m = m >>= λ target.
      link_dataset api T plists codec target.0 bin_oid
        (with_object (api.dtio_write oid md target.1.store) target.1)

  Grows-written :
      (bin_oid : ℕ) (oid md : Str) (w : World S) (m : Exec (Option (ℕ × Str) × World S))
      → Keeps (counted w) m
      → Grows w (written bin_oid oid md m)
  Grows-written bin_oid oid md w (fault e) h = tt
  Grows-written bin_oid oid md w (ok (target, x)) h =
      Grows-link_dataset target bin_oid w x (api.dtio_write oid md x.store) h

  Grown-ok :
      (w w' : World S) (d d' : Dataset) (m : Exec (World S))
      → Grows w m
      → ◌>>=◌ {A = World S} {B = Dataset × World S} m (λ x. ok (d', x)) ≡ ok (d, w')
      → (d ≡ d') × Grown w w'
  Grown-ok w w' d d' (fault e) g h = absurd cc
  Grown-ok w w' d d' (ok x) (heap, p, s, e) h =
      let same = ok-injective (d', x) (d, w') h in
      (
        sym (ap (λ (r : Dataset × World S). r.0) same),
        (heap, p, s, sym (ap (λ (r : Dataset × World S). r.1) same) ∙ e),
      )

  -- Where the writing process creates a dataset at any path and the function returns, the dataset has
  -- the next index and the file counts it.
  pub dataset_create-Grown :
      (depth : ℕ) (me : Process) (item : Item) (name : Str) (t s p dapl_id : ℕ) (collective : Bool)
      (w w' : World S) (d : Dataset)
      → length w.file_name + 18 < 2 ^ 31
      → w.max_oid + 1 < 2 ^ 62
      → writes me collective ≡ true
      → dataset_create api T plists codec depth me item name t s p dapl_id collective w ≡ ok (d, w')
      → (d.bin_oid ≡ dataset_oid (w.max_oid + 1)) × Grown w w'
  unfolding dataset_create
  dataset_create-Grown depth me item name t s p dapl_id collective w w' d short small lead h =
      let (same, grown) =
        Grown-ok w w' d (new_dataset api T plists codec (bin_oid, some oid) t s p dapl_id)
          (written bin_oid oid (metadata codec t s p) traversed)
          (Grows-written bin_oid oid (metadata codec t s p) w traversed (
            Keeps-group_traverse api T plists (link_follow api T plists depth) item name (counted w)
              (Keeps-link_follow api T plists depth)))
          (sym steps ∙ h) in
      (ap (λ (x : Dataset). x.bin_oid) same, grown)
    where
      bin_oid : ℕ
      bin_oid = dataset_oid (w.max_oid + 1)

      oid : Str
      oid = object_text w.file_name bin_oid

      traversed : Exec (Option (ℕ × Str) × World S)
      traversed = group_traverse api T plists (link_follow api T plists depth) item name (counted w)

      steps : dataset_create api T plists codec depth me item name t s p dapl_id collective w ≡ (
          written bin_oid oid (metadata codec t s p) traversed >>= λ x.
          ok (new_dataset api T plists codec (bin_oid, some oid) t s p dapl_id, x))
      steps =
          rw
            (
              next_index w.max_oid small,
              oid_create_made w.file_name (w.max_oid + 1) h5i_dataset bin_oid short
                  (dataset_binary (w.max_oid + 1) small),
              dataset_index (w.max_oid + 1) small,
              lead,
            )
            refl
