-- ===== src/Examples/Runs.antt =====
-- Whole runs on the small disk, as tests: what comes out where no lemma is applied.
use dtio.Prelude.{◌≡◌, refl, List, ℕ, codes}
use dtio.Prelude.Int.{ℤ, pos, int_eq}
use dtio.Prelude.Dict
use dtio.Exec.{Exec, ok, ◌>>=◌}
use dtio.Metadata.{
  register_posix_fd, is_posix_fd_registered, get_posix_file_info, update_posix_offset,
}
use dtio.Config.{starts_with, find, should_intercept, load_default, absolute}
use dtio.Libc.{o_rdwr, seek_set, seek_cur}
use dtio.Libc.Kernel.{overwrite, splice}
use dtio.Server
use dtio.Server.{load_bytes, store_bytes, file_path}
use dtio.Tasks.{new_write_task, new_read_task, new_schedule_task}
use dtio.Dispatch
use dtio.Chimaera.{World, run_in, scheduled}
use dtio.Client
use dtio.Posix.{advance, take_over, open_file, read, write, lseek}
use dtio.Examples.Disk
use dtio.Examples.Disk.{Disk, disk}
use dtio.Examples.Runtime.{runtime, client, empty_world}

-- `open("/tmp/a", O_RDWR)`
unfoldable after_open : ℤ × World Disk
unfolding open_file take_over should_intercept find starts_with load_default absolute
    register_posix_fd Dict.insert Disk.open_path
after_open = open_file disk load_default (codes "/tmp/a") o_rdwr 0 empty_world

open_test : after_open.0 ≡ pos 3
unfolding after_open
open_test = refl

-- `write(fd, "hello", 5); lseek(fd, offset, whence); read(fd, buf, 3)`: the offset that `lseek`
-- returns, and the bytes.
unfoldable write_seek_read : ℤ → ℕ → Exec (ℤ × List ℕ)
unfolding after_open
write_seek_read offset whence = do
  (written, w₁) ← write disk runtime client (pos 3) (codes "hello") after_open.1
  let (at, w₂) = lseek disk (pos 3) offset whence w₁
  (r, w₃) ← read disk runtime client (pos 3) 3 w₂
  ok (at, r.1)

back_test : write_seek_read (pos 1) seek_set ≡ ok (pos 1, codes "ell")
unfolding write_seek_read after_open write read lseek advance Client.write Client.read
    Client.schedule new_write_task new_read_task new_schedule_task run_in scheduled Dispatch.run
    Dispatch.switch Dispatch.method_id Server.write Server.read Server.schedule load_bytes
    store_bytes file_path update_posix_offset is_posix_fd_registered get_posix_file_info Dict.lookup
    Dict.insert Dict.erase Dict.modify Disk.open_path Disk.seek Disk.write Disk.read splice
    overwrite
back_test = refl

-- The real descriptor has not moved: `lseek(fd, 0, SEEK_CUR)` after the write gives 0 and moves the
-- entry back.
stale_test : write_seek_read (pos 0) seek_cur ≡ ok (pos 0, codes "hel")
unfolding write_seek_read after_open write read lseek advance Client.write Client.read
    Client.schedule new_write_task new_read_task new_schedule_task run_in scheduled Dispatch.run
    Dispatch.switch Dispatch.method_id Server.write Server.read Server.schedule load_bytes
    store_bytes file_path update_posix_offset is_posix_fd_registered get_posix_file_info Dict.lookup
    Dict.insert Dict.erase Dict.modify Disk.open_path Disk.seek Disk.write Disk.read splice
    overwrite
stale_test = refl
