-- ===== src/Posix/Tables.antt =====
-- The table of managed descriptors through any sequence of the calls of adapter/posix/posix_api.cc.
use mathlib.Core.Option
use dtio.Prelude.{
  ℕ, ◌≡◌, refl, ◌⊎◌, inl, inr, Bool, true, false, Option, none, some, List, Str, nat_eq, ◌==◌,
  if◌then◌else◌,
}
use dtio.Prelude.Int.{ℤ, int_eq}
use dtio.Prelude.Dict
use dtio.Metadata.{
  FileInfo, file_info, ClientMetadataManager, get_posix_file_info, register_posix_fd,
  unregister_posix_fd, update_posix_offset,
}
use dtio.Config.{PathEntry, should_intercept}
use dtio.Config.Paths.{IsAbsolute}

module _ (entries : List PathEntry) where
  -- Every managed file has an absolute path that the entries take.
  abbrev pub IsManaged : ClientMetadataManager → Type 0
  IsManaged m =
      (fd : ℤ)
      → (get_posix_file_info fd m ≡ none)
        ⊎ ((info : FileInfo) × (get_posix_file_info fd m ≡ some info)
            × IsAbsolute info.absolute_path
            × (should_intercept entries info.absolute_path ≡ true))

  -- What one descriptor holds.
  abbrev pub IsTaken : Option FileInfo → Type 0
  IsTaken o =
      (o ≡ none)
      ⊎ ((info : FileInfo) × (o ≡ some info)
          × IsAbsolute info.absolute_path
          × (should_intercept entries info.absolute_path ≡ true))

  IsTaken-if :
      (b : Bool) (o p : Option FileInfo) → IsTaken o → IsTaken p → IsTaken (if b then o else p)
  IsTaken-if true o p h k = h
  IsTaken-if false o p h k = k

  IsTaken-moved :
      (offset : ℤ) (o : Option FileInfo)
      → IsTaken o
      → IsTaken (Option.map {A = FileInfo} (λ info. record info { current_offset = offset }) o)
  IsTaken-moved offset none h = inl refl
  IsTaken-moved offset (some i) (inl none_is) = absurd cc
  IsTaken-moved offset (some i) (inr (info, same, abs, taken)) =
      let eq : i ≡ info = some-injective i info same in
      inr (record i { current_offset = offset }, refl, rw eq abs, rw eq taken)
    where
      some-injective : (i j : FileInfo) → some i ≡ some j → i ≡ j
      some-injective i j h = cc

  pub register-IsManaged :
      (fd : ℤ) (path : Str) (flags : ℕ) (m : ClientMetadataManager)
      → IsAbsolute path
      → should_intercept entries path ≡ true
      → IsManaged m
      → IsManaged (register_posix_fd fd path flags m)
  unfolding get_posix_file_info register_posix_fd
  register-IsManaged fd path flags m abs taken h fd' =
      rw (Dict.lookup-insert fd' fd (file_info path flags) m.posix_files)
        (IsTaken-if (fd == fd') _ _ (inr (file_info path flags, refl, abs, taken)) (h fd'))

  pub unregister-IsManaged :
      (fd : ℤ) (m : ClientMetadataManager) → IsManaged m → IsManaged (unregister_posix_fd fd m)
  unfolding get_posix_file_info unregister_posix_fd
  unregister-IsManaged fd m h fd' =
      rw (Dict.lookup-erase fd' fd m.posix_files) (IsTaken-if (fd == fd') _ _ (inl refl) (h fd'))

  pub update-IsManaged :
      (fd offset : ℤ) (m : ClientMetadataManager)
      → IsManaged m
      → IsManaged (update_posix_offset fd offset m)
  unfolding get_posix_file_info update_posix_offset
  update-IsManaged fd offset m h fd' =
      rw (Dict.lookup-modify fd' fd (λ info. record info { current_offset = offset }) m.posix_files)
        (IsTaken-if (fd == fd') _ _ (IsTaken-moved offset _ (h fd')) (h fd'))
