-- ===== src/Libc/Kernel.antt =====
-- What the runtime relies on of the calls that it makes on files: their documented behaviour on
-- regular files, failures included. A call that fails returns -1 and changes no file; a read or a
-- write may be short. Different paths name different files: there are no links.
use dtio.Prelude.{
  ℕ, ◌+◌, ◌-◌, ◌≤◌, ◌<◌, ◌≡◌, ◌≢◌, ◌⊎◌, false, Option, some, List, [], ◌∷◌, ◌++◌, Str, length, take,
  drop, replicate,
}
use dtio.Prelude.Int.{ℤ, pos, negsuc, is_negative}
use dtio.Libc.{Libc, rdwr_creat, seek_set}

-- A file after `bytes` overwrite it from `offset` on; a gap before them reads as zeros.
unfoldable pub overwrite : ℕ → List ℕ → List ℕ → List ℕ
overwrite offset bytes old =
    take offset (old ++ replicate (offset - length old) 0)
    ++ (bytes ++ drop (offset + length bytes) old)

-- A file after a `write` of `bytes` at `offset`: to write nothing changes nothing.
unfoldable pub splice : ℕ → List ℕ → List ℕ → List ℕ
splice offset [] old = old
splice offset (b ∷ bytes) old = overwrite offset (b ∷ bytes) old

-- What can be said of a state of the kernel: the files by path, and the descriptors of the process.
pub record View (S : Type 0) : Type 0 where
  pub content : S → Str → List ℕ
  pub path_of : S → ℤ → Option Str
  pub position : S → ℤ → ℕ
  pub open_count : S → ℕ
  pub limit : ℕ

module _ {S : Type 0} (v : View S) where
  pub record SameFiles (s t : S) : Type 0 where
    pub content : (p : Str) → v.content t p ≡ v.content s p

  pub record Opened (path : Str) (s : S) (fd : ℤ) (t : S) : Type 0 where
    pub below_limit : v.open_count s < v.limit
    pub counted : v.open_count t ≡ v.open_count s + 1
    pub path_of : v.path_of t fd ≡ some path

  pub record Moved (fd : ℤ) (path : Str) (offset : ℕ) (s t : S) : Type 0 where
    pub position : v.position t fd ≡ offset
    pub path_of : v.path_of t fd ≡ some path

  -- `n` of the bytes were written
  pub record Stored (fd : ℤ) (path : Str) (bytes : List ℕ) (n : ℕ) (s t : S) : Type 0 where
    pub bounded : n ≤ length bytes
    pub content : v.content t path ≡ splice (v.position s fd) (take n bytes) (v.content s path)
    pub others : (q : Str) → q ≢ path → v.content t q ≡ v.content s q

  -- at most `n` bytes were asked for
  pub record Fetched (fd : ℤ) (path : Str) (n : ℕ) (r : ℤ) (bytes : List ℕ) (s : S) : Type 0 where
    pub result : r ≡ pos (length bytes)
    pub bounded : length bytes ≤ n
    pub content : bytes ≡ take (length bytes) (drop (v.position s fd) (v.content s path))

  pub record IsKernel (libc : Libc S) : Type 0 where
    pub open-SameFiles :
        (path : Str) (mode : ℕ) (s : S) → SameFiles s (libc.open64_mode path rdwr_creat mode s).1
    pub open-Opened :
        (path : Str) (mode : ℕ) (s : S)
        → let r = libc.open64_mode path rdwr_creat mode s in
          is_negative r.0 ≡ false → Opened path s r.0 r.1
    pub lseek-SameFiles :
        (fd offset : ℤ) (s : S)
        → SameFiles s (libc.lseek64 fd offset seek_set s).1
          × (v.open_count (libc.lseek64 fd offset seek_set s).1 ≡ v.open_count s)
    pub lseek-Moved :
        (fd : ℤ) (path : Str) (offset : ℕ) (s : S)
        → v.path_of s fd ≡ some path
        → Moved fd path offset s (libc.lseek64 fd (pos offset) seek_set s).1
    pub write-open_count :
        (fd : ℤ) (bytes : List ℕ) (s : S) → v.open_count (libc.write fd bytes s).1 ≡ v.open_count s
    pub write-Stored :
        (fd : ℤ) (path : Str) (bytes : List ℕ) (s : S)
        → v.path_of s fd ≡ some path
        → let r = libc.write fd bytes s in
          ((r.0 ≡ negsuc 0) × SameFiles s r.1)
          ⊎ ((n : ℕ) × (r.0 ≡ pos n) × Stored fd path bytes n s r.1)
    pub read-SameFiles :
        (fd : ℤ) (n : ℕ) (s : S)
        → SameFiles s (libc.read fd n s).2 × (v.open_count (libc.read fd n s).2 ≡ v.open_count s)
    pub length-read : (fd : ℤ) (n : ℕ) (s : S) → length (libc.read fd n s).1 ≤ n
    pub read-Fetched :
        (fd : ℤ) (path : Str) (n : ℕ) (s : S)
        → v.path_of s fd ≡ some path
        → let r = libc.read fd n s in (r.0 ≡ negsuc 0) ⊎ Fetched fd path n r.0 r.1 s
