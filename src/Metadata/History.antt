-- ===== src/Metadata/History.antt =====
-- The tables of include/dtio/client_metadata_manager.h against a specification by history: what one
-- key holds depends on the calls for that key alone.
use mathlib.Core.Option
use dtio.Prelude.{ℕ, ◌≡◌, refl, ap, ◌∙◌, Option, none, some, Str, List, [], ◌∷◌}
use dtio.Prelude.{if◌then◌else◌, ◌==◌, nat_eq}
use dtio.Prelude.Int.{ℤ, int_eq}
use dtio.Prelude.Dict
use dtio.Metadata.{
  FileInfo, file_info, FilePtr, ClientMetadataManager, is_some, register_posix_fd,
  is_posix_fd_registered, get_posix_file_info, unregister_posix_fd, update_posix_offset,
  register_stdio_fp, is_stdio_fp_registered, get_stdio_file_info, unregister_stdio_fp,
  update_stdio_offset,
}

-- The calls that change a table.
pub data Call : Type 0 where
  register_fd : ℤ → Str → ℕ → Call
  unregister_fd : ℤ → Call
  update_fd : ℤ → ℤ → Call
  register_fp : FilePtr → Str → ℕ → Call
  unregister_fp : FilePtr → Call
  update_fp : FilePtr → ℤ → Call

abbrev pub perform : Call → ClientMetadataManager → ClientMetadataManager
perform (register_fd fd path flags) m = register_posix_fd fd path flags m
perform (unregister_fd fd) m = unregister_posix_fd fd m
perform (update_fd fd off) m = update_posix_offset fd off m
perform (register_fp fp path flags) m = register_stdio_fp fp path flags m
perform (unregister_fp fp) m = unregister_stdio_fp fp m
perform (update_fp fp off) m = update_stdio_offset fp off m

abbrev pub perform_all : List Call → ClientMetadataManager → ClientMetadataManager
perform_all [] m = m
perform_all (c ∷ cs) m = perform_all cs (perform c m)

abbrev moved : ℤ → Option FileInfo → Option FileInfo
moved off = Option.map {A = FileInfo} (λ info. record info { current_offset = off })

-- What one call does to the entry of one descriptor.
abbrev fd_effect : ℤ → Call → Option FileInfo → Option FileInfo
fd_effect fd (register_fd k path flags) old = if k == fd then some (file_info path flags) else old
fd_effect fd (unregister_fd k) old = if k == fd then none else old
fd_effect fd (update_fd k off) old = if k == fd then moved off old else old
fd_effect fd _ old = old

abbrev fp_effect : FilePtr → Call → Option FileInfo → Option FileInfo
fp_effect fp (register_fp k path flags) old = if k == fp then some (file_info path flags) else old
fp_effect fp (unregister_fp k) old = if k == fp then none else old
fp_effect fp (update_fp k off) old = if k == fp then moved off old else old
fp_effect fp _ old = old

-- What a history of calls leaves for one descriptor, and for one `FILE*`.
abbrev pub fd_history : ℤ → List Call → Option FileInfo → Option FileInfo
fd_history fd [] old = old
fd_history fd (c ∷ cs) old = fd_history fd cs (fd_effect fd c old)

abbrev pub fp_history : FilePtr → List Call → Option FileInfo → Option FileInfo
fp_history fp [] old = old
fp_history fp (c ∷ cs) old = fp_history fp cs (fp_effect fp c old)

registered-get :
    (fd : ℤ) (m : ClientMetadataManager)
    → is_posix_fd_registered fd m ≡ is_some (get_posix_file_info fd m)
unfolding is_posix_fd_registered get_posix_file_info
registered-get fd m = refl

fp_registered-get :
    (fp : FilePtr) (m : ClientMetadataManager)
    → is_stdio_fp_registered fp m ≡ is_some (get_stdio_file_info fp m)
unfolding is_stdio_fp_registered get_stdio_file_info
fp_registered-get fp m = refl

get_posix-perform :
    (fd : ℤ) (c : Call) (m : ClientMetadataManager)
    → get_posix_file_info fd (perform c m) ≡ fd_effect fd c (get_posix_file_info fd m)
unfolding get_posix_file_info register_posix_fd unregister_posix_fd update_posix_offset
    register_stdio_fp unregister_stdio_fp update_stdio_offset
get_posix-perform fd (register_fd k path flags) m = Dict.lookup-insert fd k _ m.posix_files
get_posix-perform fd (unregister_fd k) m = Dict.lookup-erase fd k m.posix_files
get_posix-perform fd (update_fd k off) m = Dict.lookup-modify fd k _ m.posix_files
get_posix-perform fd (register_fp k path flags) m = refl
get_posix-perform fd (unregister_fp k) m = refl
get_posix-perform fd (update_fp k off) m = refl

get_stdio-perform :
    (fp : FilePtr) (c : Call) (m : ClientMetadataManager)
    → get_stdio_file_info fp (perform c m) ≡ fp_effect fp c (get_stdio_file_info fp m)
unfolding get_stdio_file_info register_posix_fd unregister_posix_fd update_posix_offset
    register_stdio_fp unregister_stdio_fp update_stdio_offset
get_stdio-perform fp (register_fp k path flags) m = Dict.lookup-insert fp k _ m.stdio_files
get_stdio-perform fp (unregister_fp k) m = Dict.lookup-erase fp k m.stdio_files
get_stdio-perform fp (update_fp k off) m = Dict.lookup-modify fp k _ m.stdio_files
get_stdio-perform fp (register_fd k path flags) m = refl
get_stdio-perform fp (unregister_fd k) m = refl
get_stdio-perform fp (update_fd k off) m = refl

get_posix-perform_all :
    (fd : ℤ) (cs : List Call) (m : ClientMetadataManager)
    → get_posix_file_info fd (perform_all cs m) ≡ fd_history fd cs (get_posix_file_info fd m)
get_posix-perform_all fd [] m = refl
get_posix-perform_all fd (c ∷ cs) m =
    get_posix-perform_all fd cs (perform c m) ∙ ap (fd_history fd cs) (get_posix-perform fd c m)

get_stdio-perform_all :
    (fp : FilePtr) (cs : List Call) (m : ClientMetadataManager)
    → get_stdio_file_info fp (perform_all cs m) ≡ fp_history fp cs (get_stdio_file_info fp m)
get_stdio-perform_all fp [] m = refl
get_stdio-perform_all fp (c ∷ cs) m =
    get_stdio-perform_all fp cs (perform c m) ∙ ap (fp_history fp cs) (get_stdio-perform fp c m)

-- After any sequence of table calls, the entry of every descriptor and of every `FILE*` is what the
-- calls for that key alone leave of its old entry (a registration starts at offset 0, an update moves
-- a registered entry and no other, the calls of the other table change nothing), and a key is
-- reported as registered exactly when it has an entry.
pub perform_all-history :
    (cs : List Call) (m : ClientMetadataManager) (fd : ℤ) (fp : FilePtr)
    → (get_posix_file_info fd (perform_all cs m) ≡ fd_history fd cs (get_posix_file_info fd m))
      × (is_posix_fd_registered fd (perform_all cs m)
          ≡ is_some (fd_history fd cs (get_posix_file_info fd m)))
      × (get_stdio_file_info fp (perform_all cs m) ≡ fp_history fp cs (get_stdio_file_info fp m))
      × (is_stdio_fp_registered fp (perform_all cs m)
          ≡ is_some (fp_history fp cs (get_stdio_file_info fp m)))
perform_all-history cs m fd fp = (
  get_posix-perform_all fd cs m,
  registered-get fd (perform_all cs m) ∙ ap is_some (get_posix-perform_all fd cs m),
  get_stdio-perform_all fp cs m,
  fp_registered-get fp (perform_all cs m) ∙ ap is_some (get_stdio-perform_all fp cs m),
)
