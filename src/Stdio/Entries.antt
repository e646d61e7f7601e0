-- ===== src/Stdio/Entries.antt =====
-- What `fopen` and `fclose` of adapter/stdio/stdio_api.cc do to the entry of each `FILE*`.
use dtio.Prelude.{
  ◌≡◌, refl, not, ◌&&◌, inl, inr, none, some, Str, Option-cases, arith, nat_eq, ◌==◌, if◌then◌else◌,
}
use dtio.Prelude.Dict
use dtio.Metadata.{
  FilePtr, ClientMetadataManager, file_info, get_stdio_file_info, is_stdio_fp_registered,
  register_stdio_fp, unregister_stdio_fp,
}
use dtio.Config.{PathEntry, should_intercept, absolute}
use dtio.Libc.{Libc}
use dtio.Stdio.{mode_flags, fopen, fclose}
use dtio.Chimaera.{World}
use dtio.Prelude.{List}

module _ {S : Type 0} (real : Libc S) (entries : List PathEntry) where
  -- `fopen` returns what the real call returns. It makes a new entry, at offset 0, exactly for the
  -- stream of a real call that has succeeded on a path that the entries take; the entries of all other
  -- streams and the table of descriptors stay.
  pub fopen-entry :
      (filename mode : Str) (w : World S) (k : FilePtr)
      → let (fp, os) = real.fopen filename mode w.env.os in
        let abs_path = absolute (real.current_path os) filename in
        ((fopen real entries filename mode w).0 ≡ fp)
        × (get_stdio_file_info k (fopen real entries filename mode w).1.meta ≡ (
            if not (fp == 0) && (should_intercept entries abs_path && (fp == k))
            then some (file_info abs_path (mode_flags mode))
            else get_stdio_file_info k w.meta))
        × ((fopen real entries filename mode w).1.meta.posix_files ≡ w.meta.posix_files)
  unfolding fopen get_stdio_file_info register_stdio_fp
  fopen-entry filename mode w k = ground (
    arith,
    Dict.lookup-insert k (real.fopen filename mode w.env.os).0
        (file_info (absolute (real.current_path (real.fopen filename mode w.env.os).1) filename)
          (mode_flags mode))
        w.meta.stdio_files,
  )

module _ {S : Type 0} (real : Libc S) where
  -- `fclose` returns what the real call returns, and removes the entry of its stream, also where the
  -- real call fails; no other entry of a stream changes, and the table of descriptors stays.
  fclose-entry :
      (fp : FilePtr) (w : World S) (k : FilePtr)
      → ((fclose real fp w).0 ≡ (real.fclose fp w.env.os).0)
        × (get_stdio_file_info k (fclose real fp w).1.meta
            ≡ (if fp == k then none else get_stdio_file_info k w.meta))
        × ((fclose real fp w).1.meta.posix_files ≡ w.meta.posix_files)
  unfolding fclose get_stdio_file_info is_stdio_fp_registered unregister_stdio_fp
  fclose-entry fp w k = elim (Option-cases (Dict.lookup fp w.meta.stdio_files)) [
    | inl missing ↦ rw missing (refl, unregistered fp k w.meta missing, refl)
    | inr (info, found) ↦ rw found (refl, Dict.lookup-erase k fp w.meta.stdio_files, refl)
  ]
    where
      unregistered :
          (fp k : FilePtr) (m : ClientMetadataManager)
          → Dict.lookup fp m.stdio_files ≡ none
          → Dict.lookup k m.stdio_files ≡ (if fp == k then none else Dict.lookup k m.stdio_files)
      unregistered fp k m missing = ground arith
