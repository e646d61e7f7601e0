-- ===== src/Posix/Reach.antt =====
-- Any sequence of the calls of adapter/posix/posix_api.cc, as a step relation on both processes.
use dtio.Prelude.{ℕ, ◌≡◌, ap, ◌∙◌, inl, inr, List, Str, length, Bool-cases, Option-cases, nat_eq}
use dtio.Prelude.Int.{ℤ, int_eq, is_negative, to_word}
use dtio.Exec.{ok, Ends, Ends-any, Ends-intro, Ends-ok, Ends-bind}
use dtio.Metadata.{
  FileInfo, ClientMetadataManager, is_posix_fd_registered, get_posix_file_info, update_posix_offset,
}
use dtio.Config.{PathEntry, should_intercept, absolute}
use dtio.Config.Paths.{IsAbsolute, absolute-IsAbsolute}
use dtio.Libc.{Libc}
use dtio.Server.{load_bytes, store_bytes}
use dtio.Posix.{
  advance, take_over, open_file, open64, creat, creat64, read, read_managed, write, write_managed,
  follow, lseek, lseek64, close, unlink, with_meta,
}
use dtio.Posix.Tables.{IsManaged, register-IsManaged, unregister-IsManaged, update-IsManaged}
use dtio.Chimaera.{World, Chimaera, IsLawful, with_shm}
use dtio.Client.{Client}
use dtio.Client.Frames.{write-meta, read-meta}
use dtio.Tasks.{k_posix}

module _ {S : Type 0} (real : Libc S) (entries : List PathEntry) (chi : Chimaera S)
    (c : Client) where
  -- One call of the application that returns.
  pub data Step : World S → World S → Type 0 where
    step_open :
        (path : Str) (flags mode : ℕ) (w : World S)
        → Step w (open_file real entries path flags mode w).1
    step_open64 :
        (path : Str) (flags mode : ℕ) (w : World S)
        → Step w (open64 real entries path flags mode w).1
    step_creat : (path : Str) (mode : ℕ) (w : World S) → Step w (creat real entries path mode w).1
    step_creat64 :
        (path : Str) (mode : ℕ) (w : World S) → Step w (creat64 real entries path mode w).1
    step_read :
        (fd : ℤ) (count : ℕ) (r : ℤ × List ℕ) (w w' : World S)
        → read real chi c fd count w ≡ ok (r, w')
        → Step w w'
    step_write :
        (fd : ℤ) (buf : List ℕ) (r : ℤ) (w w' : World S)
        → write real chi c fd buf w ≡ ok (r, w')
        → Step w w'
    step_lseek :
        (fd offset : ℤ) (whence : ℕ) (w : World S) → Step w (lseek real fd offset whence w).1
    step_lseek64 :
        (fd offset : ℤ) (whence : ℕ) (w : World S) → Step w (lseek64 real fd offset whence w).1
    step_close : (fd : ℤ) (w : World S) → Step w (close real fd w).1
    step_unlink : (path : Str) (w : World S) → Step w (unlink real path w).1

  pub data Reaches (w : World S) : World S → Type 0 where
    here : Reaches w w
    after : (u v : World S) → Reaches w u → Step u v → Reaches w v

  module _ (lives : (s : S) → IsAbsolute (real.current_path s)) where
    take_over-IsManaged :
        (path : Str) (flags : ℕ) (r : ℤ × S) (w : World S)
        → IsManaged entries w.meta
        → IsManaged entries (take_over real entries path flags r w).1.meta
    unfolding take_over
    take_over-IsManaged path flags (fd, os) w h = elim (Bool-cases (is_negative fd)) [
      | inl failed ↦ rw failed h
      | inr opened ↦
          elim (Bool-cases (should_intercept entries (absolute (real.current_path os) path))) [
            | inl taken ↦
                rw (opened, taken)
                  (register-IsManaged entries fd (absolute (real.current_path os) path) flags w.meta
                    (absolute-IsAbsolute (real.current_path os) path (lives os)) taken h)
            | inr left ↦ rw (opened, left) h
          ]
    ]

  follow-IsManaged :
      (fd : ℤ) (r : ℤ × S) (w : World S)
      → IsManaged entries w.meta
      → IsManaged entries (follow real fd r w).1.meta
  follow-IsManaged fd (offset, os) w h = elim (Bool-cases (is_posix_fd_registered fd w.meta)) [
    | inr left ↦ rw left h
    | inl managed ↦ elim (Bool-cases (is_negative offset)) [
      | inl failed ↦ rw (managed, failed) h
      | inr moved ↦ elim (Option-cases (get_posix_file_info fd w.meta)) [
        | inl missing ↦ rw (managed, moved, missing) h
        | inr (info, found) ↦
            rw (managed, moved, found) (update-IsManaged entries fd offset w.meta h)
      ]
    ]
  ]

  close-IsManaged :
      (fd : ℤ) (w : World S) → IsManaged entries w.meta → IsManaged entries (close real fd w).1.meta
  unfolding close
  close-IsManaged fd w h = elim (Bool-cases (is_posix_fd_registered fd w.meta)) [
    | inr left ↦ rw left h
    | inl managed ↦ rw managed (unregister-IsManaged entries fd w.meta h)
  ]

  module _ (libc : Libc S) (lawful : IsLawful libc chi) where
    -- After a run, every managed file is as `IsManaged` says.
    abbrev Keeps {ℓ} : {A : Type ℓ} → A × World S → Type 0
    Keeps r = IsManaged entries r.1.meta

    same-IsManaged :
        (m n : ClientMetadataManager) → n ≡ m → IsManaged entries m → IsManaged entries n
    same-IsManaged m n same h = rw same h

    allocated : (n : ℕ) (w : World S) → (chi.allocate_buffer n w).1.meta ≡ w.meta
    allocated n w = ap (λ u. u.meta) (lawful.allocate_buffer-insert n w)

    freed : (p : ℕ) (w : World S) → (chi.free_buffer p w).meta ≡ w.meta
    freed p w = ap (λ u. u.meta) (lawful.free_buffer-erase p w)

    -- The end of a file task: the entry moves, and the buffer is freed.
    finished-IsManaged :
        (p : ℕ) (fd offset : ℤ) (w w₂ : World S)
        → w₂.meta ≡ w.meta
        → IsManaged entries w.meta
        → IsManaged entries
            (chi.free_buffer p (with_meta w₂ (update_posix_offset fd offset w₂.meta))).meta
    finished-IsManaged p fd offset w w₂ same h =
        same-IsManaged (update_posix_offset fd offset w₂.meta) _ (freed p _)
          (update-IsManaged entries fd offset w₂.meta (same-IsManaged w.meta w₂.meta same h))

    read_managed-IsManaged :
        (fd : ℤ) (count : ℕ) (info : FileInfo) (w : World S)
        → IsManaged entries w.meta
        → Ends Keeps (read_managed real chi c fd count info w)
    unfolding read_managed
    read_managed-IsManaged fd count info w h =
        let (p, w₁) = chi.allocate_buffer count w in
        Ends-bind (λ w₂. w₂.meta ≡ w.meta) Keeps _ _
          (Ends-intro _ _ (λ w₂ e.
            read-meta libc chi lawful c p count (to_word info.current_offset) info.absolute_path
              k_posix w₁ w₂ e
            ∙ allocated count w))
          (λ w₂ same.
            Ends-bind (λ _. Unit) Keeps (load_bytes w₂.env.shm p count) _
              (Ends-any (load_bytes w₂.env.shm p count))
              (λ buf _. finished-IsManaged p fd (advance info.current_offset count) w w₂ same h))

    write_managed-IsManaged :
        (fd : ℤ) (buf : List ℕ) (info : FileInfo) (w : World S)
        → IsManaged entries w.meta
        → Ends Keeps (write_managed real chi c fd buf info w)
    unfolding write_managed
    write_managed-IsManaged fd buf info w h =
        let (p, w₁) = chi.allocate_buffer (length buf) w in
        Ends-bind (λ _. Unit) Keeps (store_bytes w₁.env.shm p buf) _
          (Ends-any (store_bytes w₁.env.shm p buf))
          (λ shm _.
            Ends-bind (λ w₂. w₂.meta ≡ w.meta) Keeps _ _
              (Ends-intro _ _ (λ w₂ e.
                write-meta libc chi lawful c p (length buf) (to_word info.current_offset)
                  info.absolute_path k_posix (with_shm w₁ shm) w₂ e
                ∙ allocated (length buf) w))
              (λ w₂ same.
                finished-IsManaged p fd (advance info.current_offset (length buf)) w w₂ same h))

    read-IsManaged :
        (fd : ℤ) (count : ℕ) (w : World S)
        → IsManaged entries w.meta
        → Ends Keeps (read real chi c fd count w)
    unfolding read
    read-IsManaged fd count w h = elim (Bool-cases (is_posix_fd_registered fd w.meta)) [
      | inr left ↦ rw left h
      | inl managed ↦ elim (Option-cases (get_posix_file_info fd w.meta)) [
        | inl missing ↦ rw (managed, missing) h
        | inr (info, found) ↦ rw (managed, found) (read_managed-IsManaged fd count info w h)
      ]
    ]

    write-IsManaged :
        (fd : ℤ) (buf : List ℕ) (w : World S)
        → IsManaged entries w.meta
        → Ends Keeps (write real chi c fd buf w)
    unfolding write
    write-IsManaged fd buf w h = elim (Bool-cases (is_posix_fd_registered fd w.meta)) [
      | inr left ↦ rw left h
      | inl managed ↦ elim (Option-cases (get_posix_file_info fd w.meta)) [
        | inl missing ↦ rw (managed, missing) h
        | inr (info, found) ↦ rw (managed, found) (write_managed-IsManaged fd buf info w h)
      ]
    ]

    module _ (lives : (s : S) → IsAbsolute (real.current_path s)) where
      Step-IsManaged :
          (w v : World S) → Step w v → IsManaged entries w.meta → IsManaged entries v.meta
      unfolding open_file open64 creat creat64 lseek lseek64 unlink
      Step-IsManaged w v (step_open path flags mode _) h =
          take_over-IsManaged lives path flags _ w h
      Step-IsManaged w v (step_open64 path flags mode _) h =
          take_over-IsManaged lives path flags _ w h
      Step-IsManaged w v (step_creat path mode _) h = take_over-IsManaged lives path _ _ w h
      Step-IsManaged w v (step_creat64 path mode _) h = take_over-IsManaged lives path _ _ w h
      Step-IsManaged w v (step_read fd count r _ _ e) h =
          Ends-ok Keeps _ (r, v) e (read-IsManaged fd count w h)
      Step-IsManaged w v (step_write fd buf r _ _ e) h =
          Ends-ok Keeps _ (r, v) e (write-IsManaged fd buf w h)
      Step-IsManaged w v (step_lseek fd offset whence _) h = follow-IsManaged fd _ w h
      Step-IsManaged w v (step_lseek64 fd offset whence _) h = follow-IsManaged fd _ w h
      Step-IsManaged w v (step_close fd _) h = close-IsManaged fd w h
      Step-IsManaged w v (step_unlink path _) h = h

      -- Wherever a sequence of the application's calls leads from a table in which every managed file
      -- has an absolute path that the entries take, every managed file has such a path again, if the
      -- current directory is always absolute and the calls of Chimaera behave as expected.
      pub Reaches-IsManaged :
          (w v : World S) → IsManaged entries w.meta → Reaches w v → IsManaged entries v.meta
      Reaches-IsManaged w v h here = h
      Reaches-IsManaged w v h (after u _ before step) =
          Step-IsManaged u v step (Reaches-IsManaged w u h before)
