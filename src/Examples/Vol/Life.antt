-- ===== src/Examples/Vol/Life.antt =====
-- The life of a file in the store in memory: it is created, a group is made in it, it is closed and
-- opened again, and the path of the group is traversed.
use dtio.Prelude.{
  ℕ, ◌≡◌, refl, Bool, true, false, ◌&&◌, ◌||◌, if◌then◌else◌, ◌==◌, Str, [], Option, none, some,
  codes, inl, length, ◌+◌, ◌^◌, ◌<◌, ◌≤◌, nat_eq, str_eq, arith,
}
use dtio.Prelude.Dict.{lookup, insert, erase}
use dtio.Exec.{Exec, ok, fault, ◌>>=◌}
use dtio.Vol.Store.{size}
use dtio.Vol.Objects.{hard}
use dtio.Vol.Words.{uint64_encode, uint64_decode}
use dtio.Vol.Oids.{
  oid_create_string, oid_create_binary, oid_create, oid_to_idx, hex_word, all_printed,
}
use dtio.Vol.Links.{link_write, link_read, decode_link, decode_reply}
use dtio.Vol.Groups.{Group, World, group_close, group_open_helper, item_file}
use dtio.Vol.Groups.Heap.{object_text}
use dtio.Vol.Groups.Resolve.{group_traverse-resolve, resolve, Agrees}
use dtio.Vol.Groups.Paths.{group_traverse, link_follow, start_of, split_path, with_last}
use dtio.Vol.Files.{
  file_create, file_close, file_flush, write_max_oid, file_open, group_create_helper,
}
use dtio.Vol.Files.Created.{own_metadata, created, link_follow-group_create_helper}
use dtio.Vol.Specific.{flush_file, is_accessible, file_specific}
use dtio.Vol.Specific.Accessible.{SizeLaws, has_index, file_specific-flush_file}
use dtio.Vol.Files.Saved.{file_open-file_close, IsOpen, reopened}
use dtio.Examples.Vol.Memory.{
  Memory, blank, memory, memory-DataLaws, memory-OmapLaws, link_types, link_types-LinkTypesLaws,
  plists, me, writable,
}

abbrev pub or_else : {A : Type 0} → A → Exec A → A
or_else a (ok b) = b
or_else a (fault e) = a

abbrev pub no_file : World Memory
no_file = record {
  file_name = codes "f";
  flags = writable;
  glob_md_oid = [];
  max_oid = 0;
  max_oid_dirty = false;
  root = 0;
  heap = [];
  fresh_ptr = 0;
  store = blank;
}

abbrev pub new_world : World Memory
new_world =
    or_else no_file (file_create memory link_types plists me (codes "f") writable 7 [] 1 blank)

pub begins :
    file_create memory link_types plists me (codes "f") writable 7 [] 1 blank ≡ ok new_world
unfolding file_create oid_create_string oid_create_binary oid_create oid_to_idx hex_word all_printed
    insert lookup group_create_helper
begins = refl

abbrev pub grown_world : World Memory
grown_world =
    (or_else (0, no_file)
      (group_create_helper memory link_types plists me 8 (some (1, codes "g")) true new_world)).1

pub grows :
    group_create_helper memory link_types plists me 8 (some (1, codes "g")) true new_world
    ≡ ok (2, grown_world)
unfolding file_create oid_create_string oid_create_binary oid_create oid_to_idx hex_word all_printed
    insert lookup group_create_helper link_write
grows = refl

abbrev pub new_group : Group
new_group = record { bin_oid = 2; oid = some (codes "obf0000000000000002"); rc = 1; gcpl_id = 8 }

pub there : lookup 2 grown_world.heap ≡ some new_group
unfolding file_create oid_create_string oid_create_binary oid_create oid_to_idx hex_word all_printed
    insert lookup group_create_helper link_write
there = refl

abbrev pub closed_world : World Memory
closed_world = or_else no_file (file_close memory link_types plists grown_world)

abbrev pub root_group : Group
root_group = record { bin_oid = 1; oid = some (codes "obf0000000000000001"); rc = 1; gcpl_id = 7 }

pub root_there : lookup grown_world.root grown_world.heap ≡ some root_group
unfolding file_create oid_create_string oid_create_binary oid_create oid_to_idx hex_word all_printed
    insert lookup group_create_helper link_write
root_there = refl

pub closes : file_close memory link_types plists grown_world ≡ ok closed_world
unfolding file_create oid_create_string oid_create_binary oid_create oid_to_idx hex_word all_printed
    insert lookup erase group_create_helper link_write file_close file_flush write_max_oid
    group_close uint64_encode
closes = refl

abbrev pub opened_world : World Memory
opened_world =
    or_else no_file
      (file_open memory link_types plists grown_world.file_name writable [] 1 closed_world.store)

pub opens :
    file_open memory link_types plists grown_world.file_name writable [] 1 closed_world.store
    ≡ ok opened_world
unfolding file_create oid_create_string oid_create_binary oid_create oid_to_idx hex_word all_printed
    insert lookup erase group_create_helper link_write file_close file_flush write_max_oid
    group_close uint64_encode file_open uint64_decode group_open_helper
opens = refl

grown-IsOpen : IsOpen memory grown_world
unfolding file_create oid_create_string oid_create_binary oid_create oid_to_idx hex_word all_printed
    insert lookup erase group_create_helper link_write file_close file_flush write_max_oid
    group_close uint64_encode file_open uint64_decode group_open_helper
grown-IsOpen = record {
  short = omega arith;
  rdwr = refl;
  glob = refl;
  bound = omega arith;
  saved = inl refl;
}

file_open-file_close_example :
    (closed : World Memory) × (file_close memory link_types plists grown_world ≡ ok closed)
    × (file_open memory link_types plists grown_world.file_name writable [] 1 closed.store
        ≡ ok (
            reopened memory link_types plists memory-DataLaws grown_world.file_name writable
              grown_world.max_oid [] 1 closed.store))
file_open-file_close_example =
    file_open-file_close memory link_types plists memory-DataLaws grown_world root_group writable []
      1 grown-IsOpen root_there

memory-SizeLaws : SizeLaws memory
memory-SizeLaws = record { stat-write = λ o o' bytes s. size_if (o == o') bytes (s.contents o') }
  where
    size_if :
        (b : Bool) (x y : Str)
        → size (length (if b then x else y)) ≡ (if b then size (length x) else size (length y))
    size_if true x y = refl
    size_if false x y = refl

file_specific-flush_file_example :
    (file_specific memory link_types plists flush_file grown_world >>= λ r.
    file_specific memory link_types plists (is_accessible (codes "f")) r.1)
    ≡ ok (
      some (
          (grown_world.max_oid_dirty && (grown_world.file_name == codes "f"))
          || has_index memory (codes "f") grown_world.store),
      file_flush memory link_types plists grown_world,
    )
file_specific-flush_file_example =
    file_specific-flush_file memory link_types plists memory-DataLaws memory-SizeLaws grown_world
      (codes "f") grown-IsOpen (omega arith)

alone : (q : ℕ) → opened_world.fresh_ptr ≤ q → lookup q opened_world.heap ≡ none
unfolding file_create oid_create_string oid_create_binary oid_create oid_to_idx hex_word all_printed
    insert lookup erase group_create_helper link_write file_close file_flush write_max_oid
    group_close uint64_encode file_open uint64_decode group_open_helper
alone q h = ground arith

root_again : lookup 1 opened_world.heap ≡ some root_group
unfolding file_create oid_create_string oid_create_binary oid_create oid_to_idx hex_word all_printed
    insert lookup erase group_create_helper link_write file_close file_flush write_max_oid
    group_close uint64_encode file_open uint64_decode group_open_helper
root_again = refl

starts :
    start_of memory link_types plists item_file (codes "g/x") opened_world ≡ some (1, codes "g/x")
unfolding file_create oid_create_string oid_create_binary oid_create oid_to_idx hex_word all_printed
    insert lookup erase group_create_helper link_write file_close file_flush write_max_oid
    group_close uint64_encode file_open uint64_decode group_open_helper
starts = refl

short_name : length opened_world.file_name + 18 < 2 ^ 31
unfolding file_create oid_create_string oid_create_binary oid_create oid_to_idx hex_word all_printed
    insert lookup erase group_create_helper link_write file_close file_flush write_max_oid
    group_close uint64_encode file_open uint64_decode group_open_helper
short_name = omega arith

root_name : root_group.oid ≡ some (object_text opened_world.file_name root_group.bin_oid)
unfolding file_create oid_create_string oid_create_binary oid_create oid_to_idx hex_word all_printed
    insert lookup erase group_create_helper link_write file_close file_flush write_max_oid
    group_close uint64_encode file_open uint64_decode group_open_helper
root_name = refl

group_traverse-resolve_example :
    (run : Exec (Option ℕ × World Memory)) × (group_traverse memory link_types plists
        (link_follow memory link_types plists 1)
        item_file
        (codes "g/x")
        opened_world
      ≡ with_last (split_path (codes "g/x")).1 run)
    × Agrees opened_world.file_name opened_world.store opened_world.heap
        (resolve memory link_types opened_world.file_name opened_world.store root_group.bin_oid
          (split_path (codes "g/x")).0)
        run
group_traverse-resolve_example =
    group_traverse-resolve memory link_types plists 0 item_file (codes "g/x") (codes "g/x") 1
      opened_world root_group short_name alone starts root_again (omega arith) root_name

-- The path leads to the group that was created.
resolved :
    resolve memory link_types opened_world.file_name opened_world.store root_group.bin_oid
      (split_path (codes "g/x")).0
    ≡ ok (some 2)
unfolding file_create oid_create_string oid_create_binary oid_create oid_to_idx hex_word all_printed
    insert lookup erase group_create_helper link_write file_close file_flush write_max_oid
    group_close uint64_encode file_open uint64_decode group_open_helper resolve split_path link_read
    decode_link decode_reply
resolved = refl

abbrev linked_store : Memory
linked_store =
    (link_write memory link_types new_world.flags (codes "obf0000000000000001") (codes "g")
      (hard (new_world.max_oid + 1)) (own_metadata memory link_types plists 8 new_world)).1

links :
    link_write memory link_types new_world.flags
      (codes "obf0000000000000001")
      (codes "g")
      (hard (new_world.max_oid + 1))
      (own_metadata memory link_types plists 8 new_world)
    ≡ (true, linked_store)
unfolding file_create oid_create_string oid_create_binary oid_create oid_to_idx hex_word all_printed
    insert lookup group_create_helper link_write
links = refl

root_first : lookup 1 new_world.heap ≡ some root_group
unfolding file_create oid_create_string oid_create_binary oid_create oid_to_idx hex_word all_printed
    insert lookup group_create_helper link_write
root_first = refl

free : lookup new_world.fresh_ptr new_world.heap ≡ none
unfolding file_create oid_create_string oid_create_binary oid_create oid_to_idx hex_word all_printed
    insert lookup group_create_helper link_write
free = refl

may_write : new_world.flags.acc_rdwr ≡ true
unfolding file_create oid_create_string oid_create_binary oid_create oid_to_idx hex_word all_printed
    insert lookup group_create_helper link_write
may_write = refl

small_index : new_world.max_oid + 1 < 2 ^ 62
unfolding file_create oid_create_string oid_create_binary oid_create oid_to_idx hex_word all_printed
    insert lookup group_create_helper link_write
small_index = omega arith

first_name : length new_world.file_name + 18 < 2 ^ 31
unfolding file_create oid_create_string oid_create_binary oid_create oid_to_idx hex_word all_printed
    insert lookup group_create_helper link_write
first_name = omega arith

link_follow-group_create_helper_example :
    (w' : World Memory) × (group_create_helper memory link_types plists me 8
        (some (1, codes "g"))
        true
        new_world
      ≡ ok (new_world.fresh_ptr, w'))
    × (lookup new_world.fresh_ptr w'.heap ≡ some (created memory link_types plists 8 new_world))
    × (link_follow memory link_types plists 1 1 (codes "g") w'
        ≡ ok (some (new_world.max_oid + 1), w'))
link_follow-group_create_helper_example =
    link_follow-group_create_helper memory link_types plists memory-OmapLaws
      link_types-LinkTypesLaws 0 me 8 1 (codes "g") (codes "obf0000000000000001") true new_world
      root_group linked_store first_name small_index may_write refl root_first (omega arith) refl
      free links
