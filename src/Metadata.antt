-- ===== src/Metadata.antt =====
-- include/dtio/client_metadata_manager.h: which open files DTIO has taken over, by descriptor and by
-- `FILE*`. Each member function holds its table's mutex from start to end, so it is one step.
pub mod History
use dtio.Prelude.{ℕ, Bool, true, false, Option, none, some, Str, [], List}
use dtio.Prelude.Int.{ℤ, pos, int_eq}
use dtio.Prelude.Dict
use dtio.Prelude.Dict.{Dict}
use dtio.Prelude.{nat_eq}

pub record FileInfo : Type 0 where
  pub absolute_path : Str
  pub flags : ℕ
  pub current_offset : ℤ

-- `FileInfo(path, f)`
abbrev pub file_info : Str → ℕ → FileInfo
file_info path f = record { absolute_path = path; flags = f; current_offset = pos 0 }

-- The address that a `FILE*` holds; 0 is the null pointer.
abbrev pub FilePtr : Type 0
FilePtr = ℕ

pub record ClientMetadataManager : Type 0 where
  pub posix_files : Dict ℤ FileInfo
  pub stdio_files : Dict FilePtr FileInfo

abbrev pub client_metadata_manager : ClientMetadataManager
client_metadata_manager = record { posix_files = []; stdio_files = [] }

abbrev pub is_some {ℓ} : {A : Type ℓ} → Option A → Bool
is_some none = false
is_some (some _) = true

unfoldable pub register_posix_fd : ℤ → Str → ℕ → ClientMetadataManager → ClientMetadataManager
register_posix_fd fd absolute_path flags m = record m {
  posix_files = Dict.insert fd (file_info absolute_path flags) m.posix_files;
}

unfoldable pub is_posix_fd_registered : ℤ → ClientMetadataManager → Bool
is_posix_fd_registered fd m = is_some (Dict.lookup fd m.posix_files)

-- What the returned pointer points to; `none` is the null pointer.
unfoldable pub get_posix_file_info : ℤ → ClientMetadataManager → Option FileInfo
get_posix_file_info fd m = Dict.lookup fd m.posix_files

unfoldable pub unregister_posix_fd : ℤ → ClientMetadataManager → ClientMetadataManager
unregister_posix_fd fd m = record m { posix_files = Dict.erase fd m.posix_files }

unfoldable pub update_posix_offset : ℤ → ℤ → ClientMetadataManager → ClientMetadataManager
update_posix_offset fd new_offset m = record m {
  posix_files = Dict.modify fd (λ info. record info { current_offset = new_offset }) m.posix_files;
}

unfoldable pub register_stdio_fp : FilePtr → Str → ℕ → ClientMetadataManager → ClientMetadataManager
register_stdio_fp fp absolute_path flags m = record m {
  stdio_files = Dict.insert fp (file_info absolute_path flags) m.stdio_files;
}

unfoldable pub is_stdio_fp_registered : FilePtr → ClientMetadataManager → Bool
is_stdio_fp_registered fp m = is_some (Dict.lookup fp m.stdio_files)

unfoldable pub get_stdio_file_info : FilePtr → ClientMetadataManager → Option FileInfo
get_stdio_file_info fp m = Dict.lookup fp m.stdio_files

unfoldable pub unregister_stdio_fp : FilePtr → ClientMetadataManager → ClientMetadataManager
unregister_stdio_fp fp m = record m { stdio_files = Dict.erase fp m.stdio_files }

unfoldable pub update_stdio_offset : FilePtr → ℤ → ClientMetadataManager → ClientMetadataManager
update_stdio_offset fp new_offset m = record m {
  stdio_files = Dict.modify fp (λ info. record info { current_offset = new_offset }) m.stdio_files;
}
