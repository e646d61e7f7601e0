-- ===== src/Config/Paths.antt =====
-- Absolute paths: what `std::filesystem::absolute` makes, and what the runtime does with them.
use dtio.Prelude.{◌≡◌, refl, true, [], ◌∷◌, Str, codes, arith}
use dtio.Config.{starts_with, absolute}
use dtio.Server.{file_path}

abbrev pub IsAbsolute : Str → Type 0
IsAbsolute p = starts_with p (codes "/") ≡ true

-- The runtime takes an absolute path as it stands: it has no `dtio://` in front.
pub file_path-IsAbsolute : (p : Str) → IsAbsolute p → file_path p ≡ p
unfolding file_path starts_with
file_path-IsAbsolute [] h = refl
file_path-IsAbsolute (c ∷ p) h = ground arith

-- In an absolute directory every path becomes absolute.
pub absolute-IsAbsolute : (cwd path : Str) → IsAbsolute cwd → IsAbsolute (absolute cwd path)
unfolding absolute starts_with
absolute-IsAbsolute [] path h = cc
absolute-IsAbsolute (c ∷ cwd) [] h = ground arith
absolute-IsAbsolute (c ∷ cwd) (d ∷ path) h = ground arith
