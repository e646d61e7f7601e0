-- ===== src/Examples/Disk.antt =====
-- A small kernel in memory, with a limit on open descriptors: it stands for the C library in the
-- examples. It opens a path that does not exist as an empty file.
pub mod Laws
use mathlib.Core.Option
use dtio.Prelude.{
  ℕ, suc, ◌+◌, ◌-◌, ◌≤◌, ◌≡◌, refl, sym, ap, ◌∙◌, inl, inr, true, false, Option, none, some, List,
  [], ◌∷◌, Str, codes, length, take, drop, length-take, take_all, leb, nat_beq, if◌then◌else◌,
  Option-cases, Bool-cases, ◌≢◌, zero, ◌==◌, nat_eq, str_beq, str_eq, arith,
}
use dtio.Prelude.Int.{ℤ, pos, negsuc, int_eq, is_negative}
use dtio.Prelude.Dict
use dtio.Prelude.Dict.{Dict}
use dtio.Libc.{Libc, seek_set, seek_cur}
use dtio.Libc.Kernel.{View, IsKernel, Opened, Moved, Stored, Fetched, splice}

pub record OpenFile : Type 0 where
  pub path : Str
  pub position : ℕ

pub record Disk : Type 0 where
  pub files : Dict Str (List ℕ)
  pub opened : Dict ℤ OpenFile
  pub next : ℕ
  pub open_count : ℕ

-- Descriptors 0 to 2 are taken.
abbrev pub empty_disk : Disk
empty_disk = record { files = []; opened = []; next = 3; open_count = 3 }

abbrev limit : ℕ
limit = 6

abbrev stored : Option (List ℕ) → List ℕ
stored none = []
stored (some bytes) = bytes

abbrev content : Disk → Str → List ℕ
content d p = stored (Dict.lookup p d.files)

abbrev place : Option OpenFile → ℕ
place none = 0
place (some f) = f.position

abbrev pub view : View Disk
view = record {
  content = content;
  path_of = λ d fd. Option.map {A = OpenFile} (λ f. f.path) (Dict.lookup fd d.opened);
  position = λ d fd. place (Dict.lookup fd d.opened);
  open_count = λ d. d.open_count;
  limit = limit;
}

unfoldable pub open_path : Str → Disk → ℤ × Disk
open_path p d = if leb limit d.open_count then (negsuc 0, d) else (
  pos d.next,
  record d {
    opened = Dict.insert (pos d.next) (record { path = p; position = 0 }) d.opened;
    next = suc d.next;
    open_count = d.open_count + 1;
  },
)

abbrev sought : ℤ → ℕ → ℕ → Option ℕ
sought (negsuc n) whence position = none
sought (pos n) whence position =
    if nat_beq whence seek_set
    then some n
    else if nat_beq whence seek_cur
    then some (position + n)
    else none

abbrev move_to : ℤ → OpenFile → ℕ → Disk → Disk
move_to fd f n d = record d { opened = Dict.insert fd (record f { position = n }) d.opened }

abbrev seek_by : ℤ → Option OpenFile → ℤ → ℕ → Disk → ℤ × Disk
seek_by fd none offset whence d = (negsuc 0, d)
seek_by fd (some f) offset whence d = elim (sought offset whence f.position) [
  | none ↦ (negsuc 0, d)
  | some n ↦ (pos n, move_to fd f n d)
]

unfoldable pub seek : ℤ → ℤ → ℕ → Disk → ℤ × Disk
seek fd offset whence d = seek_by fd (Dict.lookup fd d.opened) offset whence d

abbrev write_by : ℤ → Option OpenFile → List ℕ → Disk → ℤ × Disk
write_by fd none bytes d = (negsuc 0, d)
write_by fd (some f) bytes d = (
  pos (length bytes),
  record (move_to fd f (f.position + length bytes) d) {
    files = Dict.insert f.path (splice f.position bytes (content d f.path)) d.files;
  },
)

unfoldable pub write : ℤ → List ℕ → Disk → ℤ × Disk
write fd bytes d = write_by fd (Dict.lookup fd d.opened) bytes d

abbrev fetched : OpenFile → ℕ → Disk → List ℕ
fetched f n d = take n (drop f.position (content d f.path))

abbrev read_by : ℤ → Option OpenFile → ℕ → Disk → ℤ × List ℕ × Disk
read_by fd none n d = (negsuc 0, [], d)
read_by fd (some f) n d = (
  pos (length (fetched f n d)),
  fetched f n d,
  move_to fd f (f.position + length (fetched f n d)) d,
)

unfoldable pub read : ℤ → ℕ → Disk → ℤ × List ℕ × Disk
read fd n d = read_by fd (Dict.lookup fd d.opened) n d

abbrev close : ℤ → Disk → ℤ × Disk
close fd d = elim (Dict.lookup fd d.opened) [
  | none ↦ (negsuc 0, d)
  | some f ↦ (pos 0, record d { opened = Dict.erase fd d.opened; open_count = d.open_count - 1 })
]

abbrev magnitude : ℤ → ℕ
magnitude (pos n) = n
magnitude (negsuc n) = 0

abbrev pub disk : Libc Disk
disk = record {
  open_file = λ p flags d. open_path p d;
  open_mode = λ p flags mode d. open_path p d;
  open64 = λ p flags d. open_path p d;
  open64_mode = λ p flags mode d. open_path p d;
  creat = λ p mode d. open_path p d;
  creat64 = λ p mode d. open_path p d;
  read = read;
  write = write;
  lseek = seek;
  lseek64 = seek;
  stat = λ p d. (pos 0, [], d);
  stat64 = λ p d. (pos 0, [], d);
  fsync = λ fd d. (pos 0, d);
  close = close;
  unlink = λ p d. (pos 0, record d { files = Dict.erase p d.files });
  fopen = λ p mode d. let (fd, e) = open_path p d in (magnitude fd, e);
  fseek = λ fp offset whence d. seek (pos fp) offset whence d;
  fread = λ size n fp d. let (r, bytes, e) = read (pos fp) n d in (magnitude r, bytes, e);
  fwrite = λ bytes size n fp d. let (r, e) = write (pos fp) bytes d in (magnitude r, e);
  fclose = λ fp d. close (pos fp) d;
  current_path = λ d. codes "/home";
}
