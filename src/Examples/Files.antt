-- ===== src/Examples/Files.antt =====
-- `Write`, `Read`, `write` and `read` on a small disk.
use dtio.Prelude.{ℕ, ◌<◌, ◌≡◌, ◌⊎◌, refl, arith, true, some, List, [], ◌∷◌, Str, codes, nat_eq}
use dtio.Prelude.Int.{pos, int_eq}
use dtio.Prelude.Dict
use dtio.Exec.{ok, complaints}
use dtio.Metadata.{FileInfo, ClientMetadataManager, get_posix_file_info}
use dtio.Config.{starts_with}
use dtio.Server
use dtio.Server.{Env, load_bytes}
use dtio.Server.WriteTasks.{Writes, write-Writes}
use dtio.Server.ReadTasks.{Reads, read-Reads}
use dtio.Tasks.{k_posix, direct_hash, WriteTask, ReadTask, new_write_task, new_read_task}
use dtio.Chimaera.{World}
use dtio.Posix.{write, read}
use dtio.Posix.Writing.{Written, write-Written}
use dtio.Posix.Reading.{Got, read-Got}
use dtio.Posix.RoundTrip.{read-write}
use dtio.Examples.Disk.{Disk, empty_disk, disk, view}
use dtio.Examples.Disk.Laws.{disk-IsKernel}
use dtio.Examples.Runtime.{runtime, runtime-IsLawful, client, blank_header, empty_world}

abbrev path : Str
path = codes "/tmp/a"

abbrev info : FileInfo
info = record { absolute_path = path; flags = 2; current_offset = pos 4 }

abbrev later : FileInfo
later = record { absolute_path = path; flags = 2; current_offset = pos 5 }

-- Descriptors 7 and 8 are managed, at offsets 4 and 5 of one file.
abbrev tables : ClientMetadataManager
tables = record { posix_files = (pos 7, info) ∷ (pos 8, later) ∷ []; stdio_files = [] }

abbrev world : World Disk
world = record empty_world { meta = tables }

abbrev data_bytes : List ℕ
data_bytes = codes "hello"

found_7 : get_posix_file_info (pos 7) tables ≡ some info
unfolding get_posix_file_info Dict.lookup
found_7 = refl

found_8 : get_posix_file_info (pos 8) tables ≡ some later
unfolding get_posix_file_info Dict.lookup
found_8 = refl

is_absolute : starts_with path (codes "/") ≡ true
unfolding starts_with
is_absolute = refl

abbrev env : Env Disk
env = record { os = empty_disk; shm = (64, data_bytes) ∷ []; log = [] }

unfoldable write_task : WriteTask
unfolding new_write_task
write_task = new_write_task blank_header 0 5 (direct_hash (pos 0)) 64 5 4 path k_posix

unfoldable read_task : ReadTask
unfolding new_read_task
read_task = new_read_task blank_header 0 5 (direct_hash (pos 0)) 64 5 4 path k_posix

loaded : load_bytes env.shm 64 5 ≡ ok data_bytes
unfolding load_bytes Dict.lookup
loaded = refl

buffered : Dict.lookup 64 env.shm ≡ some data_bytes
unfolding Dict.lookup
buffered = refl

read-write_example :
    (w' : World Disk) × (bytes : List ℕ) × (w'' : World Disk) × (write disk runtime client
        (pos 7)
        data_bytes
        world
      ≡ ok (pos 5, w'))
    × (read disk runtime client (pos 8) 3 w' ≡ ok ((pos 3, bytes), w''))
    × ((complaints world.env.log < complaints w''.env.log) ⊎ (bytes ≡ codes "ell"))
read-write_example =
    read-write view disk disk-IsKernel disk runtime runtime-IsLawful client (pos 7) (pos 8)
      data_bytes 3 1 4 info later world (λ h. cc) found_7 found_8 refl is_absolute refl refl
      (omega arith) (omega arith)

write-Written_example :
    (w' : World Disk) × (write disk runtime client (pos 7) data_bytes world ≡ ok (pos 5, w'))
    × Written view disk disk-IsKernel disk runtime runtime-IsLawful client
        (pos 7)
        data_bytes
        info
        4
        world
        w'
write-Written_example =
    write-Written view disk disk-IsKernel disk runtime runtime-IsLawful client (pos 7) data_bytes
      info 4 world found_7 refl is_absolute (omega arith)

read-Got_example :
    (bytes : List ℕ) × (w' : World Disk) × (read disk runtime client (pos 8) 3 world
      ≡ ok ((pos 3, bytes), w'))
    × Got view disk disk-IsKernel disk runtime runtime-IsLawful client
        (pos 8)
        3
        later
        5
        world
        bytes
        w'
read-Got_example =
    read-Got view disk disk-IsKernel disk runtime runtime-IsLawful client (pos 8) 3 later 5 world
      found_8 refl is_absolute (omega arith)

write-Writes_example :
    (e' : Env Disk) × (Server.write disk write_task env ≡ ok e')
    × Writes view disk disk-IsKernel write_task data_bytes env e'
unfolding write_task new_write_task
write-Writes_example =
    write-Writes view disk disk-IsKernel write_task env data_bytes refl loaded (omega arith)
      (omega arith)

read-Reads_example :
    (e' : Env Disk) × (Server.read disk read_task env ≡ ok e')
    × Reads view disk disk-IsKernel read_task env e'
unfolding read_task new_read_task
read-Reads_example =
    read-Reads view disk disk-IsKernel read_task env data_bytes refl buffered (omega arith)
      (omega arith) (omega arith)
