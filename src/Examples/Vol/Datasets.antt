-- ===== src/Examples/Vol/Datasets.antt =====
-- Datasets in the store in memory: one is created and opened, sent to another process, converted and
-- written.
use dtio.Prelude.{
  ℕ, ◌↔◌, ◌≡◌, refl, true, false, [], ◌∷◌, none, some, Str, codes, replicate, length-replicate,
  nat_eq, str_eq, arith,
}
use dtio.Prelude.Dict.{lookup, ==_refl}
use dtio.Exec.{ok}
use dtio.Vol.Objects.{hard}
use dtio.Vol.Links.{link_write}
use dtio.Vol.Groups.{Group, World, item_group}
use dtio.Vol.Groups.Paths.{split_path}
use dtio.Vol.Datasets.{Codec, metadata, dataset_create, dataset_open, receive_dataset, send_dataset}
use dtio.Vol.Datasets.Stored.{StatLaws, CodecLaws}
use dtio.Vol.Datasets.Kept.{dataset_open-dataset_create}
use dtio.Vol.Datasets.Made.{with_dataset, the_dataset, with_metadata, dataset_oid}
use dtio.Vol.Datasets.Sent.{receive_dataset-send_dataset}
use dtio.Vol.Conversion.{
  DataType, atomic, compound, member, no_member, Conversion, tconv_init, reuse_none,
}
use dtio.Vol.Conversion.Covers.{Covers}
use dtio.Vol.Conversion.Total.{Reaches, tconv_init-Covers}
use dtio.Examples.Vol.Memory.{
  Memory, blank, memory, memory-DataLaws, memory-OmapLaws, link_types, link_types-LinkTypesLaws,
  plists, me, writable,
}

memory-StatLaws : StatLaws memory
memory-StatLaws = record {
  stat-write = λ o bytes s. rw (==_refl o) refl;
  stat-set = λ o k v o' s. refl;
}

abbrev first : Str → ℕ
first [] = 0
first (b ∷ bytes) = b

-- Each type, dataspace and property list is the byte of its number.
abbrev pub bytes : Codec
bytes = record {
  encode_type = λ t. t ∷ [];
  encode_space = λ s. s ∷ [];
  encode_dcpl = λ p. p ∷ [];
  decode_type = first;
  decode_space = first;
  decode_dcpl = first;
  select_all = λ s. s;
}

bytes-CodecLaws : CodecLaws bytes
bytes-CodecLaws = record {
  type_lem = λ t rest. refl;
  space_lem = λ s rest. refl;
  dcpl_lem = λ p rest. refl;
}

abbrev root_group : Group
root_group = record { bin_oid = 1; oid = some (codes "obf0000000000000001"); rc = 1; gcpl_id = 7 }

abbrev file : World Memory
file = record {
  file_name = codes "f";
  flags = writable;
  glob_md_oid = [];
  max_oid = 1;
  max_oid_dirty = false;
  root = 1;
  heap = (1, root_group) ∷ [];
  fresh_ptr = 2;
  store = blank;
}

abbrev linked : Memory
linked =
    (link_write memory link_types writable (codes "obf0000000000000001") (codes "d")
      (hard (dataset_oid 2))
      (with_metadata memory link_types plists bytes (metadata bytes 3 4 5) file)).1

dataset_open-dataset_create_example :
    (dataset_create memory link_types plists bytes 1 me (item_group 1) (codes "d") 3 4 5 6 true file
      ≡ ok (
        the_dataset memory link_types plists bytes file 3 4 5 6,
        with_dataset memory link_types plists bytes 1 root_group linked file,
      ))
    × (dataset_open memory link_types plists bytes [] 2
          (item_group 1)
          (codes "d")
          9
          (with_dataset memory link_types plists bytes 1 root_group linked file)
        ≡ ok (
          the_dataset memory link_types plists bytes file 3 4 5 9,
          with_dataset memory link_types plists bytes 1 root_group linked file,
        ))
unfolding lookup link_write split_path
dataset_open-dataset_create_example =
    dataset_open-dataset_create memory link_types plists bytes memory-OmapLaws memory-DataLaws
      memory-StatLaws link_types-LinkTypesLaws bytes-CodecLaws [] 1 me 1 (codes "d")
      (codes "obf0000000000000001") 3 4 5 6 9 true file root_group linked (omega arith)
      (omega arith) refl refl (omega arith) refl (refl, refl)
      (omega arith, omega arith, omega arith) refl

receive_dataset-send_dataset_example :
    receive_dataset bytes 6 (send_dataset (replicate 1024 0) (dataset_oid 2) (metadata bytes 3 4 5))
    ≡ ok (record {
      bin_oid = dataset_oid 2;
      oid = none;
      rc = 1;
      type_id = 3;
      space_id = 4;
      dcpl_id = 5;
      dapl_id = 6;
    })
receive_dataset-send_dataset_example =
    receive_dataset-send_dataset bytes bytes-CodecLaws 3 4 5 (dataset_oid 2) 6 (replicate 1024 0)
      (length-replicate {A = ℕ} 1024 0) (omega arith) (omega arith, omega arith, omega arith)
      (omega arith)

-- A file type with one member of the two that the type in memory has.
abbrev file_type : DataType
file_type = compound 4 (member (codes "x") (atomic 4) no_member)

abbrev mem_type : DataType
mem_type = compound 8 (member (codes "x") (atomic 4) (member (codes "y") (atomic 4) no_member))

file_type-Reaches : Reaches mem_type file_type
unfolding Reaches
file_type-Reaches = (omega arith, omega arith, omega arith, (omega arith, (tt, tt)))

tconv_init-Covers_example :
    (c : Conversion) × (tconv_init
        (some false)
        reuse_none
        true
        (some false)
        file_type
        mem_type
        false
      ≡ ok (some c))
    × (c.src_type_size ≡ 4)
    × (c.dst_type_size ≡ 8)
    × (c.types_equal ≡ false)
    × ((c.fill_bkg ≡ false) ↔ Covers mem_type file_type)
    × (c.fill_bkg ≡ true → c.need_bkg ≡ true)
tconv_init-Covers_example =
    tconv_init-Covers false true file_type mem_type (omega arith) file_type-Reaches
