-- ===== src/Examples/Streams.antt =====
-- `fopen` and `fclose` on the small disk.
use dtio.Prelude.{◌≡◌, not, ◌&&◌, some, [], ◌∷◌, Str, codes, nat_eq, ◌==◌, if◌then◌else◌}
use dtio.Prelude.Int.{pos}
use dtio.Metadata.{FileInfo, FilePtr, file_info, get_stdio_file_info}
use dtio.Config.{load_default, should_intercept, absolute}
use dtio.Stdio.{mode_flags, fopen}
use dtio.Stdio.Entries.{fopen-entry}
use dtio.Chimaera.{World}
use dtio.Examples.Disk.{Disk, disk}
use dtio.Examples.Runtime.{empty_world}

abbrev path : Str
path = codes "/tmp/a"

abbrev info : FileInfo
info = record { absolute_path = path; flags = 2; current_offset = pos 4 }

abbrev stream : FilePtr
stream = 64

abbrev world : World Disk
world = record empty_world { meta = record { posix_files = []; stdio_files = (stream, info) ∷ [] } }

fopen-entry_example :
    let (fp, os) = disk.fopen path (codes "w+") empty_world.env.os in
    let abs_path = absolute (codes "/home") path in
    ((fopen disk load_default path (codes "w+") empty_world).0 ≡ fp)
    × (get_stdio_file_info 3 (fopen disk load_default path (codes "w+") empty_world).1.meta ≡ (
        if not (fp == 0) && (should_intercept load_default abs_path && (fp == 3))
        then some (file_info abs_path (mode_flags (codes "w+")))
        else get_stdio_file_info 3 empty_world.meta))
    × ((fopen disk load_default path (codes "w+") empty_world).1.meta.posix_files
        ≡ empty_world.meta.posix_files)
fopen-entry_example = fopen-entry disk load_default path (codes "w+") empty_world 3
