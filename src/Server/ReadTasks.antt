-- ===== src/Server/ReadTasks.antt =====
-- The `Read` handler of dtio_chimods/dtiomod/src/dtiomod_runtime.cc over a kernel that behaves as
-- documented: what a task leaves in its buffer when it prints no complaint.
use dtio.Prelude.{
  ℕ, ◌+◌, ◌^◌, ◌≤◌, ◌<◌, ◌≡◌, sym, ap, ◌∙◌, inl, inr, false, some, List, [], ◌∷◌, ◌++◌, Str, length,
  length-append, length-drop, take, take-append_left, drop, arith, if◌then◌else◌, ◌==◌, nat_eq, ◌⊎◌,
}
use dtio.Prelude.Int.{ℤ, is_negative, to_word, of_word, of_word_small}
use dtio.Prelude.Dict
use dtio.Exec.{ok, Message, didnt_open, read_less, complaints, complaints-append}
use dtio.Libc.{Libc, rdwr_creat, seek_set}
use dtio.Libc.Kernel.{View, IsKernel, SameFiles, Moved}
use dtio.Server.WriteTasks.{failed_size, done_size, TookDescriptor}
use dtio.Server.{Env, Shm, load_bytes, store_bytes, note, read_posix, read_by, read, file_path}
use dtio.Tasks.{k_posix, ReadTask}

-- A buffer after bytes are read into it.
abbrev pub filled : List ℕ → List ℕ → List ℕ
filled bytes buf = bytes ++ drop (length bytes) buf

pub store_bytes_lem :
    (shm : Shm) (p : ℕ) (bytes buf : List ℕ)
    → Dict.lookup p shm ≡ some buf
    → length bytes ≤ length buf
    → store_bytes shm p bytes ≡ ok (Dict.insert p (filled bytes buf) shm)
unfolding store_bytes
store_bytes_lem shm p bytes buf found fits = rw (found, store_bytes) (ground arith)

pub load_bytes_lem :
    (shm : Shm) (p n : ℕ) (buf : List ℕ)
    → Dict.lookup p shm ≡ some buf
    → n ≤ length buf
    → load_bytes shm p n ≡ ok (take n buf)
unfolding load_bytes
load_bytes_lem shm p n buf found fits = rw (found, load_bytes) (ground arith)

module _ {S : Type 0} (libc : Libc S) (task : ReadTask) (path : Str) (e : Env S)
    (buf : List ℕ) where
  opened : ℤ × S
  opened = libc.open64_mode path rdwr_creat 0o664 e.os

  sought : ℤ × S
  sought = libc.lseek64 opened.0 (of_word task.data_offset) seek_set opened.1

  fetched : ℤ × List ℕ × S
  fetched = libc.read opened.0 task.data_size sought.1

  read_log : List Message
  read_log =
      let log₁ = note (is_negative opened.0) (didnt_open path) e.log in
      if to_word fetched.0 == task.data_size then log₁ else log₁ ++ (read_less fetched.0 ∷ [])

  -- The shared memory with what was read at the start of the buffer.
  read_shm : Shm
  read_shm = Dict.insert task.data_ptr (filled fetched.1 buf) e.shm

  read_posix_lem :
      Dict.lookup task.data_ptr e.shm ≡ some buf
      → length fetched.1 ≤ length buf
      → read_posix libc task path e ≡ ok (record { os = fetched.2; shm = read_shm; log = read_log })
  unfolding read_posix opened sought fetched read_log read_shm
  read_posix_lem found fits = rw (store_bytes_lem e.shm task.data_ptr _ buf found fits)

  read_shm_others : (p : ℕ) → (p ≡ task.data_ptr) ⊎ (Dict.lookup p read_shm ≡ Dict.lookup p e.shm)
  unfolding read_shm
  read_shm_others p = rw Dict.lookup-insert (ground arith)

  read_log-cases :
      (complaints e.log < complaints read_log)
      ⊎ ((complaints read_log ≡ complaints e.log)
          × (is_negative opened.0 ≡ false)
          × (to_word fetched.0 ≡ task.data_size))
  unfolding read_log
  read_log-cases = ground (
    arith,
    complaints-append e.log (didnt_open path ∷ []),
    complaints-append e.log (read_less fetched.0 ∷ []),
    complaints-append (e.log ++ (didnt_open path ∷ [])) (read_less fetched.0 ∷ []),
  )

  module _ (v : View S) (kernel : IsKernel v libc) where
    fetched-SameFiles : SameFiles v e.os fetched.2
    unfolding fetched sought opened
    fetched-SameFiles = record {
      content = λ p.
          (kernel.read-SameFiles _ _ _).0.content p
          ∙ ((kernel.lseek-SameFiles _ _ _).0.content p
              ∙ (kernel.open-SameFiles path 0o664 e.os).content p);
    }

    sought-content : (p : Str) → v.content sought.1 p ≡ v.content e.os p
    unfolding sought opened
    sought-content p =
        (kernel.lseek-SameFiles _ _ _).0.content p
        ∙ (kernel.open-SameFiles path 0o664 e.os).content p

    sought-Moved :
        is_negative opened.0 ≡ false
        → task.data_offset < 2 ^ 63
        → Moved v opened.0 path task.data_offset opened.1 sought.1
    unfolding sought opened
    sought-Moved o small =
        rw (sought, of_word_small task.data_offset small)
          (kernel.lseek-Moved _ path task.data_offset _
            (kernel.open-Opened path 0o664 e.os o).path_of)

    length-fetched : length fetched.1 ≤ task.data_size
    unfolding fetched
    length-fetched = kernel.length-read _ _ _

    -- Without a complaint the whole range was there and has been read.
    fetched_quiet :
        is_negative opened.0 ≡ false
        → to_word fetched.0 ≡ task.data_size
        → task.data_offset < 2 ^ 63
        → task.data_size < 2 ^ 63
        → (fetched.1 ≡ take task.data_size (drop task.data_offset (v.content e.os path)))
          × (length fetched.1 ≡ task.data_size)
    unfolding fetched
    fetched_quiet o all small_offset small_size =
        let m = sought-Moved o small_offset in
        elim (kernel.read-Fetched opened.0 path task.data_size sought.1 m.path_of) [
          | inl failed ↦ absurd (failed_size _ _ failed all small_size)
          | inr f ↦
              let whole =
                done_size _ (length fetched.1) task.data_size f.result f.bounded all small_size in
              (
                f.content
                    ∙ (ap
                          (λ n.
                            take n (drop (v.position sought.1 opened.0) (v.content sought.1 path)))
                          whole
                        ∙ rw (m.position, sought-content path)),
                whole,
              )
        ]

    fetched-open_count :
        is_negative opened.0 ≡ false
        → (v.open_count e.os < v.limit) × (v.open_count fetched.2 ≡ v.open_count e.os + 1)
    unfolding fetched sought opened
    fetched-open_count opens =
        let o = kernel.open-Opened path 0o664 e.os opens in
        (
          o.below_limit,
          (kernel.read-SameFiles _ _ _).1 ∙ ((kernel.lseek-SameFiles _ _ _).1 ∙ o.counted),
        )

    load-read_shm :
        task.data_size ≤ length buf
        → load_bytes read_shm task.data_ptr task.data_size
          ≡ ok (take task.data_size (filled fetched.1 buf))
    unfolding read_shm
    load-read_shm room = load_bytes_lem _ _ _ _ (rw (Dict.lookup-insert, Dict.==_refl)) (
        omega (
          arith,
          length-append fetched.1 (drop (length fetched.1) buf),
          length-drop (length fetched.1) buf,
          length-fetched,
        ))

module _ {S : Type 0} (v : View S) (libc : Libc S) (kernel : IsKernel v libc) where
  -- The buffer holds the range of the file that the task names.
  pub record Loaded (task : ReadTask) (e e' : Env S) : Type 0 where
    pub quiet : complaints e'.log ≡ complaints e.log
    pub content :
        load_bytes e'.shm task.data_ptr task.data_size
        ≡ ok
            (take task.data_size (drop task.data_offset (v.content e.os (file_path task.filename))))
    pub descriptor : TookDescriptor v libc kernel e.os e'.os

  -- What a `Read` task on a POSIX file leaves in `e'`.
  pub record Reads (task : ReadTask) (e e' : Env S) : Type 0 where
    pub files : SameFiles v e.os e'.os
    pub loads : (bytes : List ℕ) × (load_bytes e'.shm task.data_ptr task.data_size ≡ ok bytes)
    pub buffers : (p : ℕ) → (p ≡ task.data_ptr) ⊎ (Dict.lookup p e'.shm ≡ Dict.lookup p e.shm)
    pub outcome : (complaints e.log < complaints e'.log) ⊎ Loaded task e e'

  -- A `Read` task on a POSIX file, with a buffer of at least its size and with an offset and a size
  -- below 2 ^ 63, completes. No file and no other buffer changes. Either it has printed a complaint,
  -- or its buffer holds the bytes of the file at its offset, as many as were asked for, and the
  -- process has one more open descriptor than before.
  pub read-Reads :
      (task : ReadTask) (e : Env S) (buf : List ℕ)
      → task.iface ≡ k_posix
      → Dict.lookup task.data_ptr e.shm ≡ some buf
      → task.data_size ≤ length buf
      → task.data_offset < 2 ^ 63
      → task.data_size < 2 ^ 63
      → (e' : Env S) × (read libc task e ≡ ok e') × Reads task e e'
  unfolding read
  read-Reads task e buf posix found room small_offset small_size =
      let path = file_path task.filename in
      let by_posix = ap (λ i. read_by libc i task path e) posix in
      let got = (fetched libc task path e buf).1 in
      let short = length-fetched libc task path e buf v kernel in
      let loaded = load-read_shm libc task path e buf v kernel room in
      (
        record {
          os = (fetched libc task path e buf).2;
          shm = read_shm libc task path e buf;
          log = read_log libc task path e buf;
        },
        by_posix ∙ (read_posix_lem libc task path e buf found (omega arith)),
        record {
          files = fetched-SameFiles libc task path e buf v kernel;
          loads = (_, loaded);
          buffers = read_shm_others libc task path e buf;
          outcome = elim (read_log-cases libc task path e buf) [
            | inl complained ↦ inl complained
            | inr (quiet, opens, all) ↦
                let (same, whole) =
                  fetched_quiet libc task path e buf v kernel opens all small_offset small_size in
                let (below, one_more) = fetched-open_count libc task path e buf v kernel opens in
                inr (record {
                  quiet = quiet;
                  content =
                      loaded
                      ∙ ap ok (
                          ap (λ n. take n (filled got buf)) (sym whole)
                          ∙ (take-append_left got (drop (length got) buf) ∙ same));
                  descriptor = record { below_limit = below; counted = one_more };
                })
          ];
        },
      )
