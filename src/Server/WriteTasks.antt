-- ===== src/Server/WriteTasks.antt =====
-- The `Write` handler of dtio_chimods/dtiomod/src/dtiomod_runtime.cc over a kernel that
-- behaves as documented: what a task leaves in the files when it prints no complaint.
use dtio.Prelude.{
  ℕ, ◌+◌, ◌^◌, ◌≤◌, ◌<◌, ◌≡◌, ◌≢◌, refl, sym, ap, ◌∙◌, inl, inr, false, List, [], ◌∷◌, ◌++◌, Str,
  length, take, take_all, length-take, leb, Option-cases, arith, Bool-cases, if◌then◌else◌, ◌==◌,
  nat_eq, str_eq, str_beq, str_beq_iff, ◌⊎◌,
}
use dtio.Prelude.Int.{ℤ, pos, negsuc, is_negative, to_word, of_word, of_word_small}
use dtio.Prelude.Dict
use dtio.Exec.{
  ok, fault, bad_buffer, Message, chimod_write, didnt_open, written_less, complaints,
  complaints-append,
}
use dtio.Libc.{Libc, rdwr_creat, seek_set}
use dtio.Libc.Kernel.{View, IsKernel, SameFiles, Moved, splice}
use dtio.Server.{Env, Shm, load_bytes, note, write_posix, write_by, write, file_path}
use dtio.Tasks.{k_posix, WriteTask}

pub failed_size : (r : ℤ) (size : ℕ) → r ≡ negsuc 0 → to_word r ≡ size → size < 2 ^ 63 → ⊥
failed_size r size h k small = ground arith

pub done_size :
    (r : ℤ) (n size : ℕ) → r ≡ pos n → n ≤ size → to_word r ≡ size → size < 2 ^ 63 → n ≡ size
done_size r n size h le k small = ground arith

-- The three calls of a `Write` task on a POSIX file.
module _ {S : Type 0} (libc : Libc S) (task : WriteTask) (path : Str) (e : Env S)
    (bytes : List ℕ) where
  opened : ℤ × S
  opened = libc.open64_mode path rdwr_creat 0o664 e.os

  sought : ℤ × S
  sought = libc.lseek64 opened.0 (of_word task.data_offset) seek_set opened.1

  written : ℤ × S
  written = libc.write opened.0 bytes sought.1

  write_log : List Message
  write_log =
      let log₁ = note (is_negative opened.0) (didnt_open path) e.log in
      if to_word written.0 == task.data_size then log₁ else log₁ ++ (written_less written.0 ∷ [])

  write_posix_lem :
      load_bytes e.shm task.data_ptr task.data_size ≡ ok bytes
      → write_posix libc task path e ≡ ok (record { os = written.1; shm = e.shm; log = write_log })
  unfolding write_posix opened sought written write_log
  write_posix_lem h = rw h

  -- Either something went wrong and was said, or the file was opened and all of it was written.
  write_log-cases :
      (complaints e.log < complaints write_log)
      ⊎ ((complaints write_log ≡ complaints e.log)
          × (is_negative opened.0 ≡ false)
          × (to_word written.0 ≡ task.data_size))
  unfolding write_log
  write_log-cases = ground (
    arith,
    complaints-append e.log (didnt_open path ∷ []),
    complaints-append e.log (written_less written.0 ∷ []),
    complaints-append (e.log ++ (didnt_open path ∷ [])) (written_less written.0 ∷ []),
  )

  module _ (v : View S) (kernel : IsKernel v libc) where
    sought-Moved :
        is_negative opened.0 ≡ false
        → task.data_offset < 2 ^ 63
        → Moved v opened.0 path task.data_offset opened.1 sought.1
    unfolding sought opened
    sought-Moved o small =
        rw (sought, of_word_small task.data_offset small)
          (kernel.lseek-Moved _ path task.data_offset _
            (kernel.open-Opened path 0o664 e.os o).path_of)

    sought-SameFiles : SameFiles v e.os sought.1
    unfolding sought opened
    sought-SameFiles = record {
      content = λ p.
          (kernel.lseek-SameFiles _ _ _).0.content p
          ∙ (kernel.open-SameFiles path 0o664 e.os).content p;
    }

    -- What the files hold, if the file was opened and all was written.
    written-content :
        is_negative opened.0 ≡ false
        → to_word written.0 ≡ task.data_size
        → task.data_offset < 2 ^ 63
        → task.data_size < 2 ^ 63
        → length bytes ≡ task.data_size
        → (q : Str)
        → v.content written.1 q ≡ (
            if path == q
            then splice task.data_offset bytes (v.content e.os q)
            else v.content e.os q)
    unfolding written
    written-content o all small_offset small_size full q =
        let m = sought-Moved o small_offset in
        elim (kernel.write-Stored opened.0 path bytes sought.1 m.path_of) [
          | inl (failed, _) ↦ absurd (failed_size _ _ failed all small_size)
          | inr (n, r, st) ↦
              let whole =
                done_size _ n (length bytes) r st.bounded (all ∙ sym full) (omega arith) in
              one_file path q written.1 e.os (splice task.data_offset bytes)
                (rw (
                  st.content,
                  m.position,
                  take_all n bytes (omega arith),
                  sought-SameFiles.content path,
                ))
                (λ differs. st.others q differs ∙ sought-SameFiles.content q)
        ]
      where
        differ : (p q : Str) → str_beq p q ≡ false → q ≡ p → ⊥
        differ p q differs eq = ground (arith, str_beq_iff p q)

        one_file :
            (p q : Str) (t s : S) (f : List ℕ → List ℕ)
            → v.content t p ≡ f (v.content s p)
            → (q ≢ p → v.content t q ≡ v.content s q)
            → v.content t q ≡ (if p == q then f (v.content s q) else v.content s q)
        one_file p q t s f here others = elim (Bool-cases (str_beq p q)) [
          | inl same ↦ let eq : p ≡ q = (str_beq_iff p q).0 same in rw same (rw eq at here)
          | inr differs ↦ rw differs (others (λ eq. differ p q differs eq))
        ]

    -- Such a run took a descriptor, and gave none back.
    written-open_count :
        is_negative opened.0 ≡ false
        → (v.open_count e.os < v.limit) × (v.open_count written.1 ≡ v.open_count e.os + 1)
    unfolding written sought opened
    written-open_count opens =
        let o = kernel.open-Opened path 0o664 e.os opens in
        (
          o.below_limit,
          kernel.write-open_count _ _ _ ∙ ((kernel.lseek-SameFiles _ _ _).1 ∙ o.counted),
        )

pub length-load_bytes :
    (shm : Shm) (p n : ℕ) (bytes : List ℕ) → load_bytes shm p n ≡ ok bytes → length bytes ≡ n
unfolding load_bytes
length-load_bytes shm p n bytes h = elim (Option-cases (Dict.lookup p shm)) [
  | inl e ↦ absurd (load_missing (rw (e, load_bytes) at h))
  | inr (buf, e) ↦ load_found buf (rw (e, load_bytes) at h)
]
  where
    load_missing : fault bad_buffer ≡ ok bytes → ⊥
    load_missing h = cc

    load_found :
        (buf : List ℕ)
        → (if leb n (length buf) then ok (take n buf) else fault bad_buffer) ≡ ok bytes
        → length bytes ≡ n
    load_found buf h = ground (arith, length-take n buf)

-- The message that every `Write` task prints first.
abbrev pub greeted : {S : Type 0} → Env S → Env S
greeted e = record e { log = e.log ++ (chimod_write ∷ []) }

module _ {S : Type 0} (v : View S) (libc : Libc S) (kernel : IsKernel v libc) where
  -- The process has taken one more descriptor, below its limit.
  pub record TookDescriptor (s t : S) : Type 0 where
    pub below_limit : v.open_count s < v.limit
    pub counted : v.open_count t ≡ v.open_count s + 1

  -- The data was put in the file at its place, and no other file changed.
  pub record Placed (path : Str) (offset : ℕ) (bytes : List ℕ) (e e' : Env S) : Type 0 where
    pub quiet : complaints e'.log ≡ complaints e.log
    pub content :
        (q : Str)
        → v.content e'.os q
          ≡ (if path == q then splice offset bytes (v.content e.os q) else v.content e.os q)
    pub descriptor : TookDescriptor e.os e'.os

  -- What a `Write` task on a POSIX file, run in `e` with `bytes` in its buffer, leaves in `e'`.
  pub record Writes (task : WriteTask) (bytes : List ℕ) (e e' : Env S) : Type 0 where
    pub shm : e'.shm ≡ e.shm
    pub outcome :
        (complaints e.log < complaints e'.log)
        ⊎ Placed (file_path task.filename) task.data_offset bytes e e'

  -- A `Write` task on a POSIX file, with an offset and a size below 2 ^ 63, completes and leaves the
  -- shared memory as it was. Either it has printed a complaint, or its data is in the file at its
  -- offset (a gap before it reads as zeros), no other file has changed, and the process has one more
  -- open descriptor than before.
  pub write-Writes :
      (task : WriteTask) (e : Env S) (bytes : List ℕ)
      → task.iface ≡ k_posix
      → load_bytes e.shm task.data_ptr task.data_size ≡ ok bytes
      → task.data_offset < 2 ^ 63
      → task.data_size < 2 ^ 63
      → (e' : Env S) × (write libc task e ≡ ok e') × Writes task bytes e e'
  unfolding write
  write-Writes task e bytes posix loaded small_offset small_size =
      let path = file_path task.filename in
      let e₁ = greeted e in
      let by_posix = ap (λ i. write_by libc i task path e₁) posix in
      let greeting = complaints-append e.log (chimod_write ∷ []) in
      (
        record {
          os = (written libc task path e₁ bytes).1;
          shm = e.shm;
          log = write_log libc task path e₁ bytes;
        },
        by_posix ∙ (write_posix_lem libc task path e₁ bytes loaded),
        record {
          shm = refl;
          outcome = elim (write_log-cases libc task path e₁ bytes) [
            | inl complained ↦ inl (omega (arith, greeting))
            | inr (quiet, opens, all) ↦
                let (below, one_more) = written-open_count libc task path e₁ bytes v kernel opens in
                inr (record {
                  quiet = omega (arith, greeting);
                  content =
                      written-content libc task path e₁ bytes v kernel opens all small_offset
                        small_size
                        (length-load_bytes e.shm task.data_ptr task.data_size bytes loaded);
                  descriptor = record { below_limit = below; counted = one_more };
                })
          ];
        },
      )
