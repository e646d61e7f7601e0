-- ===== src/Vol/Datasets/Made.antt =====
-- What creating a dataset does in adapter/vol/vol-old/H5VLDTIO.cc.
use dtio.Prelude.{
  ℕ, ◌+◌, ◌*◌, ◌%◌, ◌^◌, ◌<◌, ◌≡◌, refl, ap, ◌∙◌, Bool, true, false, [], ◌∷◌, some, Str, length,
  nat_eq, str_eq, ◌==◌, arith,
}
use dtio.Prelude.Dict.{lookup}
use dtio.Exec.{ok}
use dtio.Vol.Objects.{hard, h5i_dataset}
use dtio.Vol.Store.{StoreApi, LinkTypes}
use dtio.Vol.Oids.{oid_create_binary, oid_to_idx}
use dtio.Vol.Oids.Words.{bits_above, mask}
use dtio.Vol.Links.{link_write}
use dtio.Vol.Groups.{Group, PlistApi, World, item_group, counted}
use dtio.Vol.Groups.Heap.{object_text, retained, group_retain-Holds, lookup_inserted}
use dtio.Vol.Groups.Paths.{Follow, group_traverse, traverse_loop, split_path, link_follow, slash}
use dtio.Vol.Files.{Process, writes}
use dtio.Vol.Files.Created.{oid_create_made, next_index}
use dtio.Vol.Datasets.{Dataset, Codec, metadata, dataset_create, new_dataset}

-- A name without a `/`.
abbrev pub IsComponent : Str → Type 0
IsComponent [] = ⊥
IsComponent (c ∷ cs) = (c == slash ≡ false) × (split_path (c ∷ cs) ≡ ([], c ∷ cs))

-- The identifier of a dataset with a small index.
abbrev pub dataset_oid : ℕ → ℕ
dataset_oid idx = 2 ^ 62 + idx

pub dataset_binary :
    (idx : ℕ) → idx < 2 ^ 62 → oid_create_binary idx h5i_dataset ≡ ok (dataset_oid idx)
unfolding oid_create_binary
dataset_binary idx h = ap (λ (n : ℕ). ok n) (bits_above 1 idx ∙ small)
  where
    small : 1 * 2 ^ 62 + idx % 2 ^ 62 ≡ dataset_oid idx
    small = omega arith

pub dataset_index : (idx : ℕ) → idx < 2 ^ 62 → oid_to_idx (dataset_oid idx) ≡ idx
unfolding oid_to_idx
dataset_index idx h = omega (arith, mask (dataset_oid idx))

module _ {S : Type 0} (api : StoreApi S) (T : LinkTypes) (plists : PlistApi) (codec : Codec) where
  pub traverse_component :
      (follow : Follow S) (pp : ℕ) (name : Str) (w : World S) (g : Group)
      → lookup pp w.heap ≡ some g
      → 0 < g.rc
      → IsComponent name
      → group_traverse api T plists follow (item_group pp) name w
        ≡ ok (some (pp, name), retained pp g w)
  unfolding group_traverse traverse_loop
  traverse_component follow pp [] w g e positive h = absurd h
  traverse_component follow pp (c ∷ cs) w g e positive (apart, whole) =
      rw (apart, whole, (group_retain-Holds pp w g e positive).0) refl

  -- The file after the dataset was made in an open group: its index is counted, the group of the link
  -- stays retained, and the store is that after the link was written.
  abbrev pub with_dataset : ℕ → Group → S → World S → World S
  with_dataset pp g s' w = record (retained pp g w) {
    max_oid = w.max_oid + 1;
    max_oid_dirty = true;
    store = s';
  }

  abbrev pub text_of : World S → Str
  text_of w = object_text w.file_name (dataset_oid (w.max_oid + 1))

  -- The store after the metadata was written.
  abbrev pub with_metadata : Str → World S → S
  with_metadata md w = api.dtio_write (text_of w) md w.store

  abbrev pub the_dataset : World S → ℕ → ℕ → ℕ → ℕ → Dataset
  the_dataset w t s p dapl_id =
      new_dataset api T plists codec (dataset_oid (w.max_oid + 1), some (text_of w)) t s p dapl_id

  pub dataset_create_lem :
      (depth : ℕ) (me : Process) (pp : ℕ) (name text : Str) (t s p dapl_id : ℕ) (collective : Bool)
      (w : World S) (g : Group) (s' : S)
      → length w.file_name + 18 < 2 ^ 31
      → w.max_oid + 1 < 2 ^ 62
      → writes me collective ≡ true
      → lookup pp w.heap ≡ some g
      → 0 < g.rc
      → g.oid ≡ some text
      → IsComponent name
      → link_write api T w.flags text name
          (hard (dataset_oid (w.max_oid + 1)))
          (with_metadata (metadata codec t s p) w)
        ≡ (true, s')
      → dataset_create api T plists codec depth me (item_group pp) name t s p dapl_id collective w
        ≡ ok (the_dataset w t s p dapl_id, with_dataset pp g s' w)
  unfolding dataset_create
  dataset_create_lem depth me pp name text t s p dapl_id collective w g s' short small lead found
        positive named part linked =
      rw
        (
          next_index w.max_oid small,
          oid_create_made w.file_name (w.max_oid + 1) h5i_dataset (dataset_oid (w.max_oid + 1))
              short (dataset_binary (w.max_oid + 1) small),
          dataset_index (w.max_oid + 1) small,
          lead,
          traverse_component (link_follow api T plists depth) pp name
              (record w { max_oid = w.max_oid + 1 }) g found positive part,
          lookup_inserted pp (counted (g.rc + 1) g) w.heap,
          named,
          linked,
        )
        refl
