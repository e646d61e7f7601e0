-- ===== src/Posix/Entries.antt =====
-- What `open`, `lseek` and `close` of adapter/posix/posix_api.cc do to the entry of each descriptor.
use mathlib.Core.Option
use dtio.Prelude.{
  ℕ, ◌≡◌, refl, inl, inr, not, ◌&&◌, Option, none, some, List, Str, Option-cases, arith, nat_eq,
  ◌==◌, if◌then◌else◌,
}
use dtio.Prelude.Int.{ℤ, int_eq, is_negative}
use dtio.Prelude.Dict
use dtio.Metadata.{
  FileInfo, file_info, ClientMetadataManager, is_posix_fd_registered, get_posix_file_info,
  register_posix_fd, unregister_posix_fd, update_posix_offset,
}
use dtio.Config.{PathEntry, should_intercept, absolute}
use dtio.Libc.{Libc}
use dtio.Posix.{take_over, open_file, creates, follow, lseek, close}
use dtio.Chimaera.{World}

module _ {S : Type 0} (real : Libc S) (entries : List PathEntry) where
  -- The answer of the real `open`.
  abbrev pub opened : Str → ℕ → ℕ → World S → ℤ × S
  opened path flags mode w =
      if creates flags
      then real.open_mode path flags mode w.env.os
      else real.open_file path flags w.env.os

  take_over-entry :
      (path : Str) (flags : ℕ) (r : ℤ × S) (w : World S) (k : ℤ)
      → let abs_path = absolute (real.current_path r.1) path in
        ((take_over real entries path flags r w).0 ≡ r.0)
        × (get_posix_file_info k (take_over real entries path flags r w).1.meta ≡ (
            if not (is_negative r.0) && (should_intercept entries abs_path && (r.0 == k))
            then some (file_info abs_path flags)
            else get_posix_file_info k w.meta))
  unfolding take_over get_posix_file_info register_posix_fd
  take_over-entry path flags (fd, os) w k = ground (
    arith,
    Dict.lookup-insert k fd (file_info (absolute (real.current_path os) path) flags)
        w.meta.posix_files,
  )

  -- `open` returns what the real call returns. It makes a new entry, at offset 0, exactly for the
  -- descriptor of a real call that has succeeded on a path that the entries take; the entries of all
  -- other descriptors stay.
  pub open_file-entry :
      (path : Str) (flags mode : ℕ) (w : World S) (k : ℤ)
      → let (fd, os) = opened path flags mode w in
        let abs_path = absolute (real.current_path os) path in
        ((open_file real entries path flags mode w).0 ≡ fd)
        × (get_posix_file_info k (open_file real entries path flags mode w).1.meta ≡ (
            if not (is_negative fd) && (should_intercept entries abs_path && (fd == k))
            then some (file_info abs_path flags)
            else get_posix_file_info k w.meta))
  unfolding open_file
  open_file-entry path flags mode w k = take_over-entry path flags (opened path flags mode w) w k

module _ {S : Type 0} (real : Libc S) where
  abbrev pub moved : ℤ → Option FileInfo → Option FileInfo
  moved offset o = Option.map {A = FileInfo} (λ info. record info { current_offset = offset }) o

  follow-result : (fd : ℤ) (r : ℤ × S) (w : World S) → (follow real fd r w).0 ≡ r.0
  follow-result fd (offset, os) w = ground arith

  follow-entry :
      (fd : ℤ) (r : ℤ × S) (w : World S) (k : ℤ) (o : Option FileInfo)
      → get_posix_file_info fd w.meta ≡ o
      → get_posix_file_info k (follow real fd r w).1.meta ≡ (
          if not (is_negative r.0) && (fd == k)
          then moved r.0 (get_posix_file_info k w.meta)
          else get_posix_file_info k w.meta)
  unfolding get_posix_file_info is_posix_fd_registered update_posix_offset
  follow-entry fd (offset, os) w k none h = rw h (ground (arith, int_eq.equal_iff fd k))
  follow-entry fd (offset, os) w k (some info) h = rw h (
      ground (
        arith,
        Dict.lookup-modify k fd (λ i. record i { current_offset = offset }) w.meta.posix_files,
      ))

  -- `lseek` returns what the real call returns, on the position that the kernel keeps for the
  -- descriptor. If the real call succeeds, the entry of the descriptor, if it has one, gets that
  -- offset, whatever it was before; no other entry changes.
  pub lseek-entry :
      (fd offset : ℤ) (whence : ℕ) (w : World S) (k : ℤ)
      → let (real_offset, os) = real.lseek fd offset whence w.env.os in
        ((lseek real fd offset whence w).0 ≡ real_offset)
        × (get_posix_file_info k (lseek real fd offset whence w).1.meta ≡ (
            if not (is_negative real_offset) && (fd == k)
            then moved real_offset (get_posix_file_info k w.meta)
            else get_posix_file_info k w.meta))
  unfolding lseek
  lseek-entry fd offset whence w k = (
    follow-result fd (real.lseek fd offset whence w.env.os) w,
    follow-entry fd (real.lseek fd offset whence w.env.os) w k _ refl,
  )

  -- `close` returns what the real call returns, and removes the entry of its descriptor, also where
  -- the real call fails; no other entry changes.
  pub close-entry :
      (fd : ℤ) (w : World S) (k : ℤ)
      → ((close real fd w).0 ≡ (real.close fd w.env.os).0)
        × (get_posix_file_info k (close real fd w).1.meta
            ≡ (if fd == k then none else get_posix_file_info k w.meta))
  unfolding close get_posix_file_info is_posix_fd_registered unregister_posix_fd
  close-entry fd w k = elim (Option-cases (Dict.lookup fd w.meta.posix_files)) [
    | inl missing ↦ rw missing (refl, unregistered fd k w.meta missing)
    | inr (info, found) ↦ rw found (refl, Dict.lookup-erase k fd w.meta.posix_files)
  ]
    where
      unregistered :
          (fd k : ℤ) (m : ClientMetadataManager)
          → Dict.lookup fd m.posix_files ≡ none
          → Dict.lookup k m.posix_files ≡ (if fd == k then none else Dict.lookup k m.posix_files)
      unregistered fd k m missing = ground (arith, int_eq.equal_iff fd k)
