-- ===== src/Posix/RoundTrip.antt =====
-- `write` and then `read` of adapter/posix/posix_api.cc, through two descriptors of one file.
use mathlib.Core.Option
use dtio.Prelude.{
  ℕ, ◌+◌, ◌^◌, ◌≤◌, ◌<◌, ◌≡◌, ◌≢◌, sym, ap, ◌∙◌, ◌⊎◌, inl, inr, str_eq, Option, some, List, length,
  take, drop, arith, nat_eq, ◌==◌, if◌then◌else◌,
}
use dtio.Prelude.Int.{ℤ, pos, int_eq}
use dtio.Prelude.Dict
use dtio.Exec.{ok, complaints}
use dtio.Metadata.{FileInfo, ClientMetadataManager, get_posix_file_info, update_posix_offset}
use dtio.Config.Paths.{IsAbsolute}
use dtio.Libc.{Libc}
use dtio.Libc.Kernel.{View, IsKernel}
use dtio.Libc.Splice.{take-drop-splice}
use dtio.Chimaera.{World, Chimaera, IsLawful}
use dtio.Client.{Client}
use dtio.Posix.{read, write}
use dtio.Posix.Writing.{write-Written}
use dtio.Posix.Reading.{read-Got}

unmoved :
    (fd fd' : ℤ) (f : FileInfo → FileInfo) (o : Option FileInfo) (info : FileInfo)
    → fd ≢ fd'
    → o ≡ some info
    → (if fd == fd' then Option.map f o else o) ≡ some info
unmoved fd fd' f o info differs h = ground (arith, int_eq.equal_iff fd fd')

other_entry :
    (fd fd' : ℤ) (new_offset : ℤ) (m : ClientMetadataManager) (info : FileInfo)
    → fd ≢ fd'
    → get_posix_file_info fd' m ≡ some info
    → get_posix_file_info fd' (update_posix_offset fd new_offset m) ≡ some info
unfolding get_posix_file_info update_posix_offset
other_entry fd fd' new_offset m info differs h =
    Dict.lookup-modify fd' fd (λ i. record i { current_offset = new_offset }) m.posix_files
    ∙ unmoved fd fd' (λ i. record i { current_offset = new_offset }) (Dict.lookup fd' m.posix_files)
        info differs h

module _ {S : Type 0} (v : View S) (libc : Libc S) (kernel : IsKernel v libc) (real : Libc S)
    (chi : Chimaera S) (lawful : IsLawful libc chi) (c : Client) where
  -- An application writes `buf` at offset `o` of a managed file, and reads `n` bytes through another
  -- managed descriptor of the same absolute path that stands at `o + k`, inside what was written, with
  -- an end below 2 ^ 63. Both calls complete; and either the runtime has printed a complaint, or the
  -- bytes read are those that were written there.
  pub read-write :
      (fd fd' : ℤ) (buf : List ℕ) (n k o : ℕ) (info info' : FileInfo) (w : World S)
      → fd ≢ fd'
      → get_posix_file_info fd w.meta ≡ some info
      → get_posix_file_info fd' w.meta ≡ some info'
      → info.absolute_path ≡ info'.absolute_path
      → IsAbsolute info'.absolute_path
      → info.current_offset ≡ pos o
      → info'.current_offset ≡ pos (o + k)
      → k + n ≤ length buf
      → o + length buf < 2 ^ 63
      → (w' : World S) × (bytes : List ℕ) × (w'' : World S) × (write real chi c fd buf w
          ≡ ok (pos (length buf), w'))
        × (read real chi c fd' n w' ≡ ok ((pos n, bytes), w''))
        × ((complaints w.env.log < complaints w''.env.log) ⊎ (bytes ≡ take n (drop k buf)))
  read-write fd fd' buf n k o info info' w differs h h' same abs at at' inside small =
      let (w', wrote, effect) =
        write-Written v libc kernel real chi lawful c fd buf info o w h at (rw same abs) small in
      let (bytes, w'', got, effect') =
        read-Got v libc kernel real chi lawful c fd' n info' (o + k) w'
          (ap (get_posix_file_info fd') effect.meta
            ∙ other_entry fd fd' (pos (o + length buf)) w.meta info' differs h')
          at' abs (omega arith) in
      (
        w',
        bytes,
        w'',
        wrote,
        got,
        elim effect.outcome [
          | inl complained ↦
              inl
                (elim effect'.outcome [ inl again ↦ omega arith | inr (quiet, _, _) ↦ omega arith ])
          | inr placed ↦ elim effect'.outcome [
            | inl complained ↦ inl (omega (arith, placed.quiet))
            | inr (quiet, whole, _) ↦ inr (
                whole
                ∙ (ap (λ p. take n (drop (o + k) (v.content w'.env.os p))) (sym same)
                    ∙ (ap (λ file. take n (drop (o + k) file))
                          (placed.content info.absolute_path ∙ rw (Dict.==_refl info.absolute_path))
                        ∙ take-drop-splice n k o buf (v.content w.env.os info.absolute_path)
                            inside)))
          ]
        ],
      )
