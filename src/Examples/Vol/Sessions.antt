-- ===== src/Examples/Vol/Sessions.antt =====
-- One process in the store in memory: it creates a file and a group, closes the file, opens it again
-- and creates a dataset.
use dtio.Prelude.{◌≡◌, refl, true, [], ◌∷◌, some, codes, All, none, arith, nat_eq, str_eq}
use dtio.Prelude.Dict.{lookup, insert, erase}
use dtio.Exec.{ok}
use dtio.Vol.Words.{uint64_encode, uint64_decode}
use dtio.Vol.Oids.{
  oid_create_string, oid_create_binary, oid_create, oid_to_idx, hex_word, all_printed,
}
use dtio.Vol.Links.{link_write}
use dtio.Vol.Groups.{World, group_close, group_open_helper, group_retain, item_file}
use dtio.Vol.Groups.Paths.{split_path, group_traverse, traverse_loop}
use dtio.Vol.Files.{
  file_create, file_close, file_flush, write_max_oid, file_open, group_create_helper,
}
use dtio.Vol.Files.Sessions.{
  Session, begun, grown, dataset_made, closed_and_opened, Session-AllDistinct,
}
use dtio.Vol.Files.Counted.{AllDistinct, IsAtMost}
use dtio.Vol.Datasets.{Dataset, dataset_create}
use dtio.Vol.Datasets.Made.{dataset_oid}
use dtio.Examples.Vol.Memory.{
  Memory, blank, memory, memory-DataLaws, link_types, plists, me, writable,
}
use dtio.Examples.Vol.Datasets.{bytes}
use dtio.Examples.Vol.Life.{
  or_else, no_file, begins, grows, there, root_there, closes, opens, opened_world, root_group,
  new_group,
}

abbrev no_dataset : Dataset
no_dataset = record {
  bin_oid = 0;
  oid = none;
  rc = 0;
  type_id = 0;
  space_id = 0;
  dcpl_id = 0;
  dapl_id = 0;
}

abbrev made : Dataset × World Memory
made =
    or_else (no_dataset, no_file)
      (dataset_create memory link_types plists bytes 1 me item_file (codes "d") 3 4 5 6 true
        opened_world)

makes :
    dataset_create memory link_types plists bytes 1 me item_file
      (codes "d")
      3
      4
      5
      6
      true
      opened_world
    ≡ ok (made.0, made.1)
unfolding file_create oid_create_string oid_create_binary oid_create oid_to_idx hex_word all_printed
    insert lookup erase group_create_helper link_write file_close file_flush write_max_oid
    group_close uint64_encode file_open uint64_decode group_open_helper dataset_create split_path
    group_traverse group_retain traverse_loop
makes = refl

session : Session memory link_types plists bytes me made.1 (dataset_oid 3 ∷ 2 ∷ 1 ∷ [])
unfolding file_create oid_create_string oid_create_binary oid_create oid_to_idx hex_word all_printed
    insert lookup erase group_create_helper link_write file_close file_flush write_max_oid
    group_close uint64_encode file_open uint64_decode group_open_helper dataset_create split_path
    group_traverse group_retain traverse_loop
session =
    dataset_made 1 item_file (codes "d") 3 4 5 6 true made.0
      (closed_and_opened root_group writable [] 1
        (grown 8 (some (1, codes "g")) true 2 new_group
          (begun (codes "f") writable 7 [] 1 blank (omega arith) refl begins refl) (omega arith)
          refl grows there refl)
        root_there closes refl opens)
      (omega arith) refl makes refl

Session-AllDistinct_example :
    AllDistinct (dataset_oid 3 ∷ 2 ∷ 1 ∷ [])
    × All (IsAtMost made.1.max_oid) (dataset_oid 3 ∷ 2 ∷ 1 ∷ [])
Session-AllDistinct_example =
    Session-AllDistinct memory link_types plists bytes me memory-DataLaws made.1
      (dataset_oid 3 ∷ 2 ∷ 1 ∷ []) session
