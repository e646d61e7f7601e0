-- ===== src/Examples/Calls.antt =====
-- Calls of an application on a small disk.
use dtio.Prelude.{
  ◌≡◌, ◌≢◌, refl, arith, true, inl, not, ◌&&◌, none, some, [], ◌∷◌, Str, codes, nat_eq, ◌==◌,
  if◌then◌else◌,
}
use dtio.Prelude.Int.{ℤ, pos, int_eq, is_negative}
use dtio.Prelude.Dict
use dtio.Exec.{ok}
use dtio.Metadata.{FileInfo, file_info, client_metadata_manager, get_posix_file_info}
use dtio.Config.{starts_with, load_default, should_intercept, absolute}
use dtio.Libc.{o_rdwr, seek_set}
use dtio.Tasks.{direct_hash}
use dtio.Chimaera.{World}
use dtio.Client.Tickets.{nth_schedule, nth_schedule_ne}
use dtio.Posix.{open_file, close, lseek}
use dtio.Posix.Entries.{opened, moved, open_file-entry, lseek-entry, close-entry}
use dtio.Posix.Tables.{IsManaged}
use dtio.Posix.Reach.{step_open, step_close, Reaches, here, after, Reaches-IsManaged}
use dtio.Posix.Sequences.{write_each, WrittenEach, write_each-WrittenEach}
use dtio.Examples.Disk.{Disk, disk, view}
use dtio.Examples.Disk.Laws.{disk-IsKernel}
use dtio.Examples.Runtime.{runtime, runtime-IsLawful, client, empty_world}

abbrev path : Str
path = codes "/tmp/a"

abbrev info : FileInfo
info = record { absolute_path = path; flags = 2; current_offset = pos 4 }

abbrev world : World Disk
world = record empty_world { meta = record { posix_files = (pos 7, info) ∷ []; stdio_files = [] } }

found_7 : get_posix_file_info (pos 7) world.meta ≡ some info
unfolding get_posix_file_info Dict.lookup
found_7 = refl

is_absolute : starts_with path (codes "/") ≡ true
unfolding starts_with
is_absolute = refl

home_IsAbsolute : starts_with (codes "/home") (codes "/") ≡ true
unfolding starts_with
home_IsAbsolute = refl

nothing-IsManaged : IsManaged load_default client_metadata_manager
unfolding get_posix_file_info Dict.lookup
nothing-IsManaged fd = inl refl

abbrev after_open : World Disk
after_open = (open_file disk load_default path o_rdwr 0 empty_world).1

abbrev after_close : World Disk
after_close = (close disk (pos 3) after_open).1

open_close : Reaches disk load_default runtime client empty_world after_close
open_close =
    after after_open after_close
      (after empty_world after_open here (step_open path o_rdwr 0 empty_world))
      (step_close (pos 3) after_open)

write_each-WrittenEach_example :
    (w' : World Disk) × (write_each disk runtime client
        (pos 7)
        (codes "ab" ∷ [] ∷ codes "c" ∷ [])
        world
      ≡ ok (pos 2 ∷ pos 0 ∷ pos 1 ∷ [], w'))
    × WrittenEach view disk disk-IsKernel disk runtime runtime-IsLawful client
        (pos 7)
        (codes "ab" ∷ [] ∷ codes "c" ∷ [])
        info
        4
        world
        w'
write_each-WrittenEach_example =
    write_each-WrittenEach view disk disk-IsKernel disk runtime runtime-IsLawful client (pos 7)
      (codes "ab" ∷ [] ∷ codes "c" ∷ []) info 4 world found_7 refl is_absolute (omega arith)

Reaches-IsManaged_example : IsManaged load_default after_close.meta
Reaches-IsManaged_example =
    Reaches-IsManaged disk load_default runtime client disk runtime-IsLawful (λ s. home_IsAbsolute)
      empty_world after_close nothing-IsManaged open_close

nth_schedule_ne_example :
    (a b : ℤ) × (nth_schedule disk runtime runtime-IsLawful client 0
        (direct_hash (pos 0))
        empty_world
      ≡ ok a)
    × (nth_schedule disk runtime runtime-IsLawful client 5 (direct_hash (pos 0)) empty_world ≡ ok b)
    × (a ≢ b)
nth_schedule_ne_example =
    nth_schedule_ne disk runtime runtime-IsLawful client 0 5 (direct_hash (pos 0)) empty_world tt
      (omega arith) (omega arith) (omega arith)

open_file-entry_example :
    let (fd, os) = opened disk load_default path o_rdwr 0 empty_world in
    let abs_path = absolute (codes "/home") path in
    ((open_file disk load_default path o_rdwr 0 empty_world).0 ≡ fd)
    × (get_posix_file_info (pos 3) (open_file disk load_default path o_rdwr 0 empty_world).1.meta
        ≡ (if not (is_negative fd) && (should_intercept load_default abs_path && (fd == pos 3))
            then some (file_info abs_path o_rdwr)
            else get_posix_file_info (pos 3) empty_world.meta))
open_file-entry_example = open_file-entry disk load_default path o_rdwr 0 empty_world (pos 3)

lseek-entry_example :
    let (real_offset, os) = disk.lseek (pos 7) (pos 9) seek_set world.env.os in
    ((lseek disk (pos 7) (pos 9) seek_set world).0 ≡ real_offset)
    × (get_posix_file_info (pos 7) (lseek disk (pos 7) (pos 9) seek_set world).1.meta ≡ (
        if not (is_negative real_offset) && (pos 7 == pos 7)
        then moved disk real_offset (get_posix_file_info (pos 7) world.meta)
        else get_posix_file_info (pos 7) world.meta))
lseek-entry_example = lseek-entry disk (pos 7) (pos 9) seek_set world (pos 7)

close-entry_example :
    ((close disk (pos 7) world).0 ≡ (disk.close (pos 7) world.env.os).0)
    × (get_posix_file_info (pos 7) (close disk (pos 7) world).1.meta
        ≡ (if pos 7 == pos 7 then none else get_posix_file_info (pos 7) world.meta))
close-entry_example = close-entry disk (pos 7) world (pos 7)
