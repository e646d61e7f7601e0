-- ===== src/Libc.antt =====
-- The C library and the kernel behind it, which the program calls and does not contain: an interface
-- over an unknown state `S`. The adapters call it in the process of the application, the runtime in
-- its own process, so a model has one value of `Libc S` for each.
pub mod Kernel
pub mod Splice
use dtio.Prelude.{ℕ, Str, List, ◌^◌}
use Prim.Native.Nat.{bit_or}
use dtio.Prelude.Int.{ℤ}
use dtio.Metadata.{FilePtr}

pub record Libc (S : Type 0) : Type 0 where
  -- path and flags; path, flags and mode
  pub open_file : Str → ℕ → S → ℤ × S
  pub open_mode : Str → ℕ → ℕ → S → ℤ × S
  pub open64 : Str → ℕ → S → ℤ × S
  pub open64_mode : Str → ℕ → ℕ → S → ℤ × S
  pub creat : Str → ℕ → S → ℤ × S
  pub creat64 : Str → ℕ → S → ℤ × S
  -- the bytes are those that arrive at the start of the buffer
  pub read : ℤ → ℕ → S → ℤ × List ℕ × S
  pub write : ℤ → List ℕ → S → ℤ × S
  pub lseek : ℤ → ℤ → ℕ → S → ℤ × S
  pub lseek64 : ℤ → ℤ → ℕ → S → ℤ × S
  -- the result, and the contents of the `struct stat`
  pub stat : Str → S → ℤ × List ℕ × S
  pub stat64 : Str → S → ℤ × List ℕ × S
  pub fsync : ℤ → S → ℤ × S
  pub close : ℤ → S → ℤ × S
  pub unlink : Str → S → ℤ × S
  pub fopen : Str → Str → S → FilePtr × S
  pub fseek : FilePtr → ℤ → ℕ → S → ℤ × S
  -- size, count and stream
  pub fread : ℕ → ℕ → FilePtr → S → ℕ × List ℕ × S
  pub fwrite : List ℕ → ℕ → ℕ → FilePtr → S → ℕ × S
  pub fclose : FilePtr → S → ℤ × S
  pub current_path : S → Str

-- The flags and origins of <fcntl.h> and <stdio.h> on Linux.
abbrev pub o_rdonly : ℕ
o_rdonly = 0

abbrev pub o_wronly : ℕ
o_wronly = 1

abbrev pub o_rdwr : ℕ
o_rdwr = 2

abbrev pub o_creat : ℕ
o_creat = 0o100

abbrev pub o_trunc : ℕ
o_trunc = 0o1000

abbrev pub o_append : ℕ
o_append = 0o2000

abbrev pub seek_set : ℕ
seek_set = 0

abbrev pub seek_cur : ℕ
seek_cur = 1

-- `O_RDWR | O_CREAT`
abbrev pub rdwr_creat : ℕ
rdwr_creat = bit_or o_rdwr o_creat
