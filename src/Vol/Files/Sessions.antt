-- ===== src/Vol/Files/Sessions.antt =====
-- What one process does to a file of adapter/vol/vol-old/H5VLDTIO.cc: it creates groups and datasets in
-- it, and it flushes it, closes it and opens it again for writing. The index of the last object is
-- `file->max_oid`, of which each process has its own, so the calls of another process are not here.
use dtio.Prelude.{
  ℕ, ◌+◌, ◌^◌, ◌<◌, ◌≡◌, inr, refl, sym, ap, ◌∙◌, Bool, true, List, [], ◌∷◌, Option, some, Str,
  length, All, nat_eq,
}
use mathlib.Core.Path.{subst}
use dtio.Prelude.Dict.{Dict, lookup}
use dtio.Exec.{ok, ok-injective}
use dtio.Vol.Objects.{AccessFlags}
use dtio.Vol.Store.{StoreApi, LinkTypes, DataLaws}
use dtio.Vol.Groups.{Group, PlistApi, World}
use dtio.Vol.Groups.Heap.{object_text}
use dtio.Vol.Files.{
  Process, writes, group_create_helper, file_create, file_flush, file_close, file_open,
}
use dtio.Vol.Files.Grown.{grown_file}
use dtio.Vol.Groups.{Item}
use dtio.Vol.Datasets.{Dataset, Codec, dataset_create}
use dtio.Vol.Datasets.Grown.{dataset_create-Grown}
use dtio.Vol.Files.Saved.{
  file_flush-IsOpen, file_flush-max_oid, file_close_saved, file_open_reads, reopened,
}
use dtio.Vol.Files.Counted.{
  IsAtMost, AllDistinct, Counts, begun-Counts, grown-Counts, dataset-Counts,
}

module _ {S : Type 0} (api : StoreApi S) (T : LinkTypes) (plists : PlistApi) (codec : Codec)
    (me : Process) where
  -- A file, and the identifiers that `me` has given to objects of it since it was created. The process
  -- writes, and the indices do not reach the bits of the type. What opening, traversing and closing do
  -- to the groups in memory is any change.
  pub data Session : World S → List ℕ → Type 0 where
    begun :
        {w : World S} {ids : List ℕ} (name : Str) (flags : AccessFlags) (fcpl_id : ℕ)
        (heap : Dict ℕ Group) (fresh_ptr : ℕ) (s : S)
        → length name + 18 < 2 ^ 31
        → writes me true ≡ true
        → file_create api T plists me name flags fcpl_id heap fresh_ptr s ≡ ok w
        → ids ≡ 1 ∷ []
        → Session w ids
    grown :
        {w w' : World S} {ids ids' : List ℕ} (gcpl_id : ℕ) (parent : Option (ℕ × Str))
        (collective : Bool) (p : ℕ) (g : Group)
        → Session w ids
        → w.max_oid + 1 < 2 ^ 62
        → writes me collective ≡ true
        → group_create_helper api T plists me gcpl_id parent collective w ≡ ok (p, w')
        → lookup p w'.heap ≡ some g
        → ids' ≡ g.bin_oid ∷ ids
        → Session w' ids'
    dataset_made :
        {w w' : World S} {ids ids' : List ℕ} (depth : ℕ) (item : Item) (name : Str)
        (t s p dapl_id : ℕ) (collective : Bool) (d : Dataset)
        → Session w ids
        → w.max_oid + 1 < 2 ^ 62
        → writes me collective ≡ true
        → dataset_create api T plists codec depth me item name t s p dapl_id collective w
          ≡ ok (d, w')
        → ids' ≡ d.bin_oid ∷ ids
        → Session w' ids'
    used :
        {w w' : World S} {ids : List ℕ} (heap : Dict ℕ Group) (fresh_ptr : ℕ)
        → Session w ids
        → w' ≡ record w { heap = heap; fresh_ptr = fresh_ptr }
        → Session w' ids
    flushed :
        {w w' : World S} {ids : List ℕ}
        → Session w ids
        → w' ≡ file_flush api T plists w
        → Session w' ids
    closed_and_opened :
        {w c w' : World S} {ids : List ℕ} (g : Group) (flags : AccessFlags) (heap : Dict ℕ Group)
        (fresh_ptr : ℕ)
        → Session w ids
        → lookup w.root w.heap ≡ some g
        → file_close api T plists w ≡ ok c
        → flags.acc_rdwr ≡ true
        → file_open api T plists w.file_name flags heap fresh_ptr c.store ≡ ok w'
        → Session w' ids

module _ {S : Type 0} (api : StoreApi S) (T : LinkTypes) (plists : PlistApi) where
  Session-Counts :
      (codec : Codec) (me : Process) (laws : DataLaws api) {w : World S} {ids : List ℕ}
      → Session api T plists codec me w ids
      → Counts api T plists w ids
  Session-Counts codec me laws
        (begun {w} {ids} name flags fcpl_id heap fresh_ptr s short lead h e) =
      rw (e) (begun-Counts api T plists w me name flags fcpl_id heap fresh_ptr s short lead h)
  Session-Counts codec me laws
        (grown {w} {w'} {ids} {ids'} gcpl_id parent collective p g session small lead h there e) =
      let c = Session-Counts codec me laws session in
      let (s, same) =
        grown_file api T plists me gcpl_id parent collective w (p, w') c.0 small lead h in
      rw (e) (grown-Counts api T plists w ids gcpl_id s g (p, w') same small there c)
  Session-Counts codec me laws
        (dataset_made {w} {w'} {ids} {ids'} depth item name t s p dapl_id collective d session small
          lead h e) =
      let c = Session-Counts codec me laws session in
      let (index, grows) =
        dataset_create-Grown api T plists codec depth me item name t s p dapl_id collective w w' d
          c.0.short small lead h in
      rw (e) (dataset-Counts api T plists w w' ids d.bin_oid small index grows c)
  Session-Counts codec me laws (used {w} {w'} {ids} heap fresh_ptr session e) =
      let (o, below, distinct) = Session-Counts codec me laws session in
      rw (e) (
        record { short = o.short; rdwr = o.rdwr; glob = o.glob; bound = o.bound; saved = o.saved },
        below,
        distinct,
      )
  Session-Counts codec me laws (flushed {w} {w'} {ids} session e) =
      let (o, below, distinct) = Session-Counts codec me laws session in
      subst (λ (x : World S). Counts api T plists x ids) (sym e)
        (
          file_flush-IsOpen api T plists laws w o,
          subst (λ (m : ℕ). All (IsAtMost m) ids) (sym (file_flush-max_oid api T plists laws w o))
              below,
          distinct,
        )
  Session-Counts codec me laws
        (closed_and_opened {w} {c} {w'} {ids} g flags heap fresh_ptr session found closes rdwr
          opens) =
      let (o, below, distinct) = Session-Counts codec me laws session in
      let (c', closes', there) = file_close_saved api T plists laws w g o found in
      let same = ok-injective c c' (sym closes ∙ closes') in
      let read =
        ap (λ (x : World S). api.dtio_read (object_text w.file_name 0) 8 0 x.store) same
        ∙ (ap (λ (t : Str). api.dtio_read t 8 0 c'.store) (sym o.glob) ∙ there) in
      let opened =
        file_open_reads api T plists laws w.file_name flags w.max_oid heap fresh_ptr c.store o.short
          o.bound read in
      subst (λ (x : World S). Counts api T plists x ids)
        (ok-injective
          (reopened api T plists laws w.file_name flags w.max_oid heap fresh_ptr c.store) w'
          (sym opened ∙ opens))
        (
          record { short = o.short; rdwr = rdwr; glob = refl; bound = o.bound; saved = inr read },
          below,
          distinct,
        )

  -- One process that writes creates a file; it creates groups and datasets in it, at indices below
  -- 2^62, and flushes it, closes it and opens it again for writing, in any order. Where the store gives
  -- back what was written to an object last, and no other process creates objects in the file, no two
  -- of the objects have one identifier, and the index in each is at most the one that is counted.
  pub Session-AllDistinct :
      (codec : Codec) (me : Process) (laws : DataLaws api) (w : World S) (ids : List ℕ)
      → Session api T plists codec me w ids
      → AllDistinct ids × All (IsAtMost w.max_oid) ids
  Session-AllDistinct codec me laws w ids session =
      let (o, below, distinct) = Session-Counts codec me laws session in (distinct, below)
