-- ===== src/Vol/Datasets/Kept.antt =====
-- A dataset that adapter/vol/vol-old/H5VLDTIO.cc has created is found again.
use dtio.Prelude.{
  ℕ, suc, ◌+◌, ◌^◌, ◌<◌, ◌≡◌, refl, sym, ap, ◌∙◌, Bool, true, ◌&&◌, [], ◌++◌, some, Str, length,
  drop, if◌then◌else◌, ltb, nat_eq, str_eq, ◌==◌, Bool-cases, inl, inr, arith,
}
use mathlib.Core.List.{append-nil}
use dtio.Prelude.Dict.{lookup, ==_refl}
use dtio.Exec.{ok}
use dtio.Vol.Objects.{AccessFlags, hard}
use dtio.Vol.Store.{StoreApi, LinkTypes, LinkTypesLaws, OmapLaws, DataLaws, StatReply}
use dtio.Vol.Oids.Total.{oid_create_string_total}
use dtio.Vol.Links.{link_read, link_write}
use dtio.Vol.Links.Laws.{link_read-link_write, write_cases}
use dtio.Vol.Groups.{Group, PlistApi, World, item_group, counted, stat_size}
use dtio.Vol.Groups.Heap.{object_text, retained, group_retain-Holds, lookup_inserted}
use dtio.Vol.Groups.Paths.{link_follow}
use dtio.Vol.Groups.Follow.{link_follow_lem}
use dtio.Vol.Files.{Process, writes}
use dtio.Vol.Datasets.Stored.{
  StatLaws, CodecLaws, IsShort, decode_lengths-metadata, decoded-lengths_of,
}
use dtio.Vol.Datasets.{
  Codec, metadata, dataset_create, dataset_open, in_buffer, new_dataset, stored_metadata,
  dinfo_buf_size,
}
use dtio.Vol.Datasets.Made.{
  IsComponent, dataset_oid, traverse_component, with_dataset, text_of, with_metadata, the_dataset,
  dataset_create_lem,
}

module _ {S : Type 0} (api : StoreApi S) (T : LinkTypes) (plists : PlistApi) (codec : Codec) where
  -- The buffer begins with what was read.
  in_buffer_front :
      (array md : Str) → (rest : Str) × (in_buffer api T plists codec array md ≡ md ++ rest)
  in_buffer_front array md = elim (Bool-cases (ltb dinfo_buf_size (length md + 8))) [
    | inl far ↦ (
      [],
      ap (λ (b : Bool). if b then md else md ++ drop (length md + 8) array) far
          ∙ sym (append-nil md),
    )
    | inr fits ↦ (
      drop (length md + 8) array,
      ap (λ (b : Bool). if b then md else md ++ drop (length md + 8) array) fits,
    )
  ]

  module _ (maps : OmapLaws api) (contents : DataLaws api) (stats : StatLaws api)
      (types : LinkTypesLaws T) (codes : CodecLaws codec) where
    stored :
        (flags : AccessFlags) (o text name md : Str) (bin_oid : ℕ) (s s' : S)
        → link_write api T flags text name (hard bin_oid) (api.dtio_write o md s) ≡ (true, s')
        → stored_metadata api T plists codec o s' ≡ md
    stored flags o text name md bin_oid s s' linked =
        let before = api.dtio_write o md s in
        let (bytes, _, _, _, after) =
          write_cases api T flags text name (hard bin_oid) before s' linked in
        ap (stored_metadata api T plists codec o) after
        ∙ (ap
              (λ (reply : StatReply).
                api.dtio_read o (stat_size reply) 0 (api.omap_set text name bytes before).1)
              (stats.stat-set text name bytes o before ∙ stats.stat-write o md s)
            ∙ (contents.read-set text name bytes o (length md) 0 before
                ∙ contents.read-write o md s))

    links :
        (flags : AccessFlags) (text name : Str) (bin_oid : ℕ) (s s' : S)
        → bin_oid < 2 ^ 64
        → link_write api T flags text name (hard bin_oid) s ≡ (true, s')
        → link_read api T text name s' ≡ ok (some (hard bin_oid))
    links flags text name bin_oid s s' small linked =
        link_read-link_write api T maps types flags text name text name (hard bin_oid) s s' small
          linked
        ∙ ap (λ (b : Bool). if b then ok (some (hard bin_oid)) else link_read api T text name s)
            same
      where
        same : (text == text) && (name == name) ≡ true
        same = (λ i. ==_refl text i && ==_refl name i)

    dataset_open_lem :
        (array : Str) (depth pp : ℕ) (name text : Str) (bin_oid t s p dapl_id : ℕ) (w : World S)
        (g : Group)
        → length w.file_name + 18 < 2 ^ 31
        → lookup pp w.heap ≡ some g
        → 0 < g.rc
        → g.oid ≡ some text
        → IsComponent name
        → IsShort codec t s p
        → link_read api T text name w.store ≡ ok (some (hard bin_oid))
        → stored_metadata api T plists codec (object_text w.file_name bin_oid) w.store
          ≡ metadata codec t s p
        → dataset_open api T plists codec array (suc depth) (item_group pp) name dapl_id w
          ≡ ok (
            new_dataset api T plists codec
                (bin_oid, some (object_text w.file_name bin_oid))
                t
                s
                p
                dapl_id,
            w,
          )
    unfolding dataset_open
    dataset_open_lem array depth pp name text bin_oid t s p dapl_id w g short found positive named
          part brief reads holds =
        let (rest, front) = in_buffer_front array (metadata codec t s p) in
        let (_, (there, closes)) = group_retain-Holds pp w g found positive in
        rw
          (
            traverse_component api T plists codec (link_follow api T plists (suc depth)) pp name w g
                found positive part,
            link_follow_lem api T plists depth pp name text (retained pp g w) (counted (g.rc + 1) g)
                there (omega arith) named,
            reads,
            oid_create_string_total w.file_name bin_oid short,
            holds,
            front,
            decode_lengths-metadata codec t s p rest brief,
            closes,
            decoded-lengths_of codec codes t s p bin_oid (some (object_text w.file_name bin_oid))
                dapl_id rest,
          )
          refl

    -- A dataset that is created under a name in an open group is what opening that name gives from then
    -- on: the same identifier, type, dataspace with everything selected, and creation property list.
    -- The file keeps the index of the new dataset, and opening leaves the file as it was. The link
    -- must have been stored; the group of the link is still retained by the creation.
    pub dataset_open-dataset_create :
        (array : Str) (depth : ℕ) (me : Process) (pp : ℕ) (name text : Str)
        (t s p dapl_id dapl_id' : ℕ) (collective : Bool) (w : World S) (g : Group) (s' : S)
        → length w.file_name + 18 < 2 ^ 31
        → w.max_oid + 1 < 2 ^ 62
        → writes me collective ≡ true
        → lookup pp w.heap ≡ some g
        → 0 < g.rc
        → g.oid ≡ some text
        → IsComponent name
        → IsShort codec t s p
        → link_write api T w.flags text name
            (hard (dataset_oid (w.max_oid + 1)))
            (with_metadata api T plists codec (metadata codec t s p) w)
          ≡ (true, s')
        → (dataset_create api T plists codec depth me
              (item_group pp)
              name
              t
              s
              p
              dapl_id
              collective
              w
            ≡ ok (
              the_dataset api T plists codec w t s p dapl_id,
              with_dataset api T plists codec pp g s' w,
            ))
          × (dataset_open api T plists codec array
                (suc depth)
                (item_group pp)
                name
                dapl_id'
                (with_dataset api T plists codec pp g s' w)
              ≡ ok (
                the_dataset api T plists codec w t s p dapl_id',
                with_dataset api T plists codec pp g s' w,
              ))
    dataset_open-dataset_create array depth me pp name text t s p dapl_id dapl_id' collective w g s'
          short small lead found positive named part brief linked =
        (
          dataset_create_lem api T plists codec depth me pp name text t s p dapl_id collective w g
              s' short small lead found positive named part linked,
          dataset_open_lem array depth pp name text (dataset_oid (w.max_oid + 1)) t s p dapl_id'
              (with_dataset api T plists codec pp g s' w) (counted (g.rc + 1) g) short
              (lookup_inserted pp (counted (g.rc + 1) g) w.heap) (omega arith) named part brief
              (links w.flags text name (dataset_oid (w.max_oid + 1))
                (with_metadata api T plists codec (metadata codec t s p) w) s' (omega arith) linked)
              (stored w.flags (text_of api T plists codec w) text name (metadata codec t s p)
                (dataset_oid (w.max_oid + 1)) w.store s' linked),
        )
