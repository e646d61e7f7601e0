-- ===== src/Stdio.antt =====
-- adapter/stdio/stdio_api.cc: the calls on `FILE*` that DTIO stands in for. `real` is
-- HERMES_STDIO_API.
pub mod Modes
pub mod Entries
use Prim.Native.Nat.{bit_or}
use dtio.Prelude.{
  ℕ, suc, ◌+◌, ◌*◌, ◌%◌, Bool, true, false, not, ◌||◌, Option, none, some, List, [], ◌∷◌, ◌++◌, Str,
  length, take, nat_beq, if◌then◌else◌, ◌==◌, nat_eq,
}
use dtio.Prelude.Int.{ℤ, pos, negsuc, to_word, of_word, word_size}
use dtio.Exec.{Exec, ok, fault, bad_buffer, guard, ◌>>=◌, ◌>>◌}
use dtio.Metadata.{
  FileInfo, FilePtr, ClientMetadataManager, register_stdio_fp, is_stdio_fp_registered,
  get_stdio_file_info, unregister_stdio_fp, update_stdio_offset,
}
use dtio.Config.{PathEntry, should_intercept, absolute}
use dtio.Libc.{Libc, o_rdonly, o_wronly, o_rdwr, o_append}
use dtio.Posix.{advance}
use dtio.Server.{store_bytes}
use dtio.Tasks.{k_stdio}
use dtio.Chimaera.{World, Chimaera, with_os, with_shm}
use dtio.Client
use dtio.Client.{Client}

-- `strchr(mode, c) != nullptr`
unfoldable pub strchr : Str → ℕ → Bool
strchr [] c = false
strchr (x ∷ s) c = x == c || strchr s c

-- `if (strchr(mode, c)) flags |= bit`
abbrev pub or_if : Bool → ℕ → ℕ → ℕ
or_if on bit flags = if on then bit_or flags bit else flags

unfoldable pub mode_flags : Str → ℕ
mode_flags mode = or_if (strchr mode b'a') o_append (
    or_if (strchr mode b'+') o_rdwr
      (or_if (strchr mode b'r') o_rdonly (or_if (strchr mode b'w') o_wronly 0)))

module _ {S : Type 0} where
  abbrev with_meta : World S → ClientMetadataManager → World S
  with_meta w m = record w { meta = m }

module _ {S : Type 0} (real : Libc S) (entries : List PathEntry) where
  unfoldable pub fopen : Str → Str → World S → FilePtr × World S
  unfolding mode_flags
  fopen filename mode w =
      let (real_fp, os) = real.fopen filename mode w.env.os in
      let w₁ = with_os w os in
      let abs_path = absolute (real.current_path os) filename in
      if real_fp == 0
      then (0, w₁)
      else if not (should_intercept entries abs_path)
      then (real_fp, w₁)
      else (real_fp, with_meta w₁ (register_stdio_fp real_fp abs_path (mode_flags mode) w₁.meta))

module _ {S : Type 0} (real : Libc S) (chi : Chimaera S) (client : Client) where
  -- The first `size * count` bytes of the caller's buffer are written.
  fwrite_managed : List ℕ → ℕ → ℕ → FilePtr → FileInfo → World S → Exec (ℕ × World S)
  fwrite_managed ptr size count stream info w = do
    let total_size = size * count % word_size
    let (shm_buf, w₁) = chi.allocate_buffer total_size w
    guard (nat_beq (length (take total_size ptr)) total_size) bad_buffer
    shm ← store_bytes w₁.env.shm shm_buf (take total_size ptr)
    w₂ ←
        Client.write chi client shm_buf total_size (to_word info.current_offset) info.absolute_path
          k_stdio (with_shm w₁ shm)
    let moved = update_stdio_offset stream (advance info.current_offset total_size) w₂.meta
    ok (count, chi.free_buffer shm_buf (with_meta w₂ moved))

  unfoldable pub fwrite : List ℕ → ℕ → ℕ → FilePtr → World S → Exec (ℕ × World S)
  unfolding fwrite_managed
  fwrite ptr size count stream w =
      let (r, os) = real.fwrite ptr size count stream w.env.os in
      if not (is_stdio_fp_registered stream w.meta)
      then ok (r, with_os w os)
      else elim (get_stdio_file_info stream w.meta) [
        | some info ↦ fwrite_managed ptr size count stream info w
        | none ↦ ok (r, with_os w os)
      ]

module _ {S : Type 0} (real : Libc S) where
  unfoldable pub fclose : FilePtr → World S → ℤ × World S
  fclose stream w =
      let m =
        if is_stdio_fp_registered stream w.meta
        then unregister_stdio_fp stream w.meta
        else w.meta in
      let (r, os) = real.fclose stream w.env.os in (r, with_meta (with_os w os) m)

-- The calls that are not implemented: their results at any arguments.
abbrev pub fgets : ℕ → FilePtr → FilePtr
fgets count stream = 0

abbrev pub fread : ℕ → ℕ → FilePtr → ℕ
fread size count stream = 0

abbrev pub fseek : FilePtr → ℤ → ℕ → ℤ
fseek stream offset origin = negsuc 0
