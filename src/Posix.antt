-- ===== src/Posix.antt =====
-- adapter/posix/posix_api.cc: the POSIX calls of the application that DTIO stands in for. `real` is
-- the C library of the application's process (HERMES_POSIX_API), `entries` the path entries of
-- DTIO_CONF, and a buffer of the caller is the list of its bytes. A build has either the calls with
-- `64` in their names or those without.
pub mod Writing
pub mod Reading
pub mod RoundTrip
pub mod Tables
pub mod Sequences
pub mod Entries
pub mod Reach
use Prim.Native.Nat.{bit_or}
use dtio.Prelude.{
  ℕ, suc, ◌+◌, ◌%◌, ◌/◌, Bool, true, false, not, Option, none, some, List, [], ◌∷◌, ◌++◌, Str,
  length, take, nat_beq, if◌then◌else◌, nat_eq,
}
use dtio.Prelude.Int.{ℤ, negsuc, is_negative, to_word, of_word, word_size}
use dtio.Exec.{Exec, ok, ◌>>=◌}
use dtio.Metadata.{
  FileInfo, ClientMetadataManager, register_posix_fd, is_posix_fd_registered, get_posix_file_info,
  unregister_posix_fd, update_posix_offset,
}
use dtio.Config.{PathEntry, should_intercept, absolute}
use dtio.Libc.{Libc, o_wronly, o_creat, o_trunc}
use dtio.Server.{load_bytes, store_bytes}
use dtio.Tasks.{k_posix}
use dtio.Chimaera.{World, Chimaera, with_os, with_shm}
use dtio.Client
use dtio.Client.{Client}

-- `flags & O_CREAT`
abbrev pub creates : ℕ → Bool
creates flags = nat_beq (flags / o_creat % 2) 1

-- `O_CREAT | O_WRONLY | O_TRUNC`
abbrev pub creat_flags : ℕ
creat_flags = bit_or (bit_or o_creat o_wronly) o_trunc

-- `file_info->current_offset + count`: an unsigned sum, stored as an `off_t`.
unfoldable pub advance : ℤ → ℕ → ℤ
advance offset count = of_word ((to_word offset + count) % word_size)

module _ {S : Type 0} where
  abbrev pub with_meta : World S → ClientMetadataManager → World S
  with_meta w m = record w { meta = m }

  -- The two halves of a call that goes through: its result, and the state after it.
  abbrev pub passed : World S → ℤ × S → Exec (ℤ × World S)
  passed w (r, os) = ok (r, with_os w os)

  abbrev pub passed_bytes : World S → ℤ × List ℕ × S → Exec ((ℤ × List ℕ) × World S)
  passed_bytes w (r, bytes, os) = ok ((r, bytes), with_os w os)

module _ {S : Type 0} (real : Libc S) (entries : List PathEntry) where
  -- From the real descriptor on: the four ways to open a file end alike.
  unfoldable pub take_over : Str → ℕ → ℤ × S → World S → ℤ × World S
  take_over path flags (real_fd, os) w =
      let w₁ = with_os w os in
      let abs_path = absolute (real.current_path os) path in
      if is_negative real_fd
      then (real_fd, w₁)
      else if not (should_intercept entries abs_path)
      then (real_fd, w₁)
      else (real_fd, with_meta w₁ (register_posix_fd real_fd abs_path flags w₁.meta))

  unfoldable pub open_file : Str → ℕ → ℕ → World S → ℤ × World S
  unfolding take_over
  open_file path flags mode w =
      take_over path flags
        (if creates flags
          then real.open_mode path flags mode w.env.os
          else real.open_file path flags w.env.os)
        w

  unfoldable pub open64 : Str → ℕ → ℕ → World S → ℤ × World S
  unfolding take_over
  open64 path flags mode w =
      take_over path flags
        (if creates flags
          then real.open64_mode path flags mode w.env.os
          else real.open64 path flags w.env.os)
        w

  unfoldable pub creat : Str → ℕ → World S → ℤ × World S
  unfolding take_over
  creat path mode w = take_over path creat_flags (real.creat path mode w.env.os) w

  unfoldable pub creat64 : Str → ℕ → World S → ℤ × World S
  unfolding take_over
  creat64 path mode w = take_over path creat_flags (real.creat64 path mode w.env.os) w

module _ {S : Type 0} (real : Libc S) (chi : Chimaera S) (client : Client) where
  -- The part of `read` for a descriptor with an entry.
  read_managed : ℤ → ℕ → FileInfo → World S → Exec ((ℤ × List ℕ) × World S)
  read_managed fd count info w = do
    let (shm_buf, w₁) = chi.allocate_buffer count w
    w₂ ←
        Client.read chi client shm_buf count (to_word info.current_offset) info.absolute_path
          k_posix w₁
    buf ← load_bytes w₂.env.shm shm_buf count
    let moved = update_posix_offset fd (advance info.current_offset count) w₂.meta
    ok ((of_word count, buf), chi.free_buffer shm_buf (with_meta w₂ moved))

  unfoldable pub read : ℤ → ℕ → World S → Exec ((ℤ × List ℕ) × World S)
  unfolding read_managed
  read fd count w =
      if not (is_posix_fd_registered fd w.meta)
      then passed_bytes w (real.read fd count w.env.os)
      else elim (get_posix_file_info fd w.meta) [
        | some info ↦ read_managed fd count info w
        | none ↦ passed_bytes w (real.read fd count w.env.os)
      ]

  -- `count` is the length of the data.
  write_managed : ℤ → List ℕ → FileInfo → World S → Exec (ℤ × World S)
  write_managed fd buf info w = do
    let count = length buf
    let (shm_buf, w₁) = chi.allocate_buffer count w
    shm ← store_bytes w₁.env.shm shm_buf buf
    w₂ ←
        Client.write chi client shm_buf count (to_word info.current_offset) info.absolute_path
          k_posix (with_shm w₁ shm)
    let moved = update_posix_offset fd (advance info.current_offset count) w₂.meta
    ok (of_word count, chi.free_buffer shm_buf (with_meta w₂ moved))

  unfoldable pub write : ℤ → List ℕ → World S → Exec (ℤ × World S)
  unfolding write_managed
  write fd buf w =
      if not (is_posix_fd_registered fd w.meta)
      then passed w (real.write fd buf w.env.os)
      else elim (get_posix_file_info fd w.meta) [
        | some info ↦ write_managed fd buf info w
        | none ↦ passed w (real.write fd buf w.env.os)
      ]

module _ {S : Type 0} (real : Libc S) where
  -- After the real `lseek`: the table follows if there is an entry.
  abbrev pub follow : ℤ → ℤ × S → World S → ℤ × World S
  follow fd (real_offset, os) w =
      let w₁ = with_os w os in
      if not (is_posix_fd_registered fd w.meta)
      then (real_offset, w₁)
      else if is_negative real_offset
      then (real_offset, w₁)
      else elim (get_posix_file_info fd w₁.meta) [
        | some info ↦ (real_offset, with_meta w₁ (update_posix_offset fd real_offset w₁.meta))
        | none ↦ (real_offset, w₁)
      ]

  unfoldable pub lseek : ℤ → ℤ → ℕ → World S → ℤ × World S
  lseek fd offset whence w = follow fd (real.lseek fd offset whence w.env.os) w

  unfoldable pub lseek64 : ℤ → ℤ → ℕ → World S → ℤ × World S
  lseek64 fd offset whence w = follow fd (real.lseek64 fd offset whence w.env.os) w

  unfoldable pub stat : Str → World S → Exec ((ℤ × List ℕ) × World S)
  stat pathname w = passed_bytes w (real.stat pathname w.env.os)

  unfoldable pub stat64 : Str → World S → Exec ((ℤ × List ℕ) × World S)
  stat64 pathname w = passed_bytes w (real.stat64 pathname w.env.os)

  -- Both branches of the code call the real `fsync`.
  unfoldable pub fsync : ℤ → World S → ℤ × World S
  fsync fd w =
      let (r, os) = real.fsync fd w.env.os in
      if not (is_posix_fd_registered fd w.meta) then (r, with_os w os) else (r, with_os w os)

  unfoldable pub close : ℤ → World S → ℤ × World S
  close fd w =
      let (r, os) = real.close fd w.env.os in
      let w₁ = with_os w os in
      if not (is_posix_fd_registered fd w.meta)
      then (r, w₁)
      else (r, with_meta w₁ (unregister_posix_fd fd w.meta))

  unfoldable pub unlink : Str → World S → ℤ × World S
  unlink pathname w = let (r, os) = real.unlink pathname w.env.os in (r, with_os w os)

-- The calls that are not implemented: their results at any arguments. None touches its buffer.
abbrev pub open_2 : Str → ℕ → ℤ
open_2 path oflag = negsuc 0

abbrev pub fxstat : ℤ → ℤ → ℤ
fxstat ver fd = negsuc 0

abbrev pub fxstatat : ℤ → ℤ → Str → ℤ → ℤ
fxstatat ver fildes filename flag = negsuc 0

abbrev pub xstat : ℤ → Str → ℤ
xstat ver filename = negsuc 0

abbrev pub lxstat : ℤ → Str → ℤ
lxstat ver filename = negsuc 0

abbrev pub fxstat64 : ℤ → ℤ → ℤ
fxstat64 ver fd = negsuc 0

abbrev pub fxstatat64 : ℤ → ℤ → Str → ℤ → ℤ
fxstatat64 ver fildes filename flag = negsuc 0

abbrev pub xstat64 : ℤ → Str → ℤ
xstat64 ver filename = negsuc 0

abbrev pub lxstat64 : ℤ → Str → ℤ
lxstat64 ver filename = negsuc 0
