-- ===== src/Posix/Sequences.antt =====
-- Several calls of `write` of adapter/posix/posix_api.cc on one descriptor, one after the other.
use dtio.Prelude.{
  ℕ, ◌+◌, ◌^◌, ◌<◌, ◌≡◌, refl, ap, ◌∙◌, ◌⊎◌, inl, inr, some, List, [], ◌∷◌, ◌++◌, map, Str, length,
  length-append, arith, nat_eq, str_eq, ◌==◌, if◌then◌else◌, Bool-cases,
}
use dtio.Prelude.Int.{ℤ, pos, int_eq}
use dtio.Prelude.Dict
use dtio.Exec.{Exec, ok, complaints, ◌>>=◌}
use dtio.Metadata.{FileInfo, ClientMetadataManager, get_posix_file_info, update_posix_offset}
use dtio.Config.Paths.{IsAbsolute}
use dtio.Libc.{Libc}
use dtio.Libc.Kernel.{View, IsKernel, splice}
use dtio.Libc.Splice.{splice-splice}
use dtio.Chimaera.{World, Chimaera, IsLawful}
use dtio.Client.{Client}
use dtio.Posix.{write}
use dtio.Posix.Writing.{write-Written}

abbrev pub concat : List (List ℕ) → List ℕ
concat [] = []
concat (b ∷ bs) = b ++ concat bs

-- The results of the calls, in their order.
abbrev pub write_each :
    {S : Type 0}
    → Libc S
    → Chimaera S
    → Client
    → ℤ
    → List (List ℕ)
    → World S
    → Exec (List ℤ × World S)
write_each real chi c fd [] w = ok ([], w)
write_each real chi c fd (b ∷ bs) w = do
  (r, w₁) ← write real chi c fd b w
  (rs, w₂) ← write_each real chi c fd bs w₁
  ok (r ∷ rs, w₂)

-- An entry that stands at another offset.
abbrev pub at_offset : ℕ → FileInfo → FileInfo
at_offset o info = record info { current_offset = pos o }

own_entry :
    (fd : ℤ) (o : ℕ) (m : ClientMetadataManager) (info : FileInfo)
    → get_posix_file_info fd m ≡ some info
    → get_posix_file_info fd (update_posix_offset fd (pos o) m) ≡ some (at_offset o info)
unfolding get_posix_file_info update_posix_offset
own_entry fd o m info h =
    Dict.lookup-modify fd fd (λ i. record i { current_offset = pos o }) m.posix_files
    ∙ rw (Dict.==_refl fd, h) refl

-- Two writes of one file, seen from every file.
both_writes :
    (path q : Str) (o : ℕ) (a b x y z : List ℕ)
    → y ≡ (if path == q then splice o a x else x)
    → z ≡ (if path == q then splice (o + length a) b y else y)
    → z ≡ (if path == q then splice o (a ++ b) x else x)
both_writes path q o a b x y z h k = elim (Bool-cases (str_eq.equal path q)) [
  | inl same ↦
      rw same
        ((rw same at k) ∙ (ap (splice (o + length a) b) (rw same at h) ∙ splice-splice o a b x))
  | inr other ↦ rw other ((rw other at k) ∙ (rw other at h))
]

no_write : (path q : Str) (o : ℕ) (x : List ℕ) → x ≡ (if path == q then splice o [] x else x)
unfolding splice
no_write path q o x = ground arith

module _ {S : Type 0} (v : View S) (libc : Libc S) (kernel : IsKernel v libc) (real : Libc S)
    (chi : Chimaera S) (lawful : IsLawful libc chi) (c : Client) where
  -- What the calls leave: the data in a row from `o` on, and the entry at its end.
  pub record WrittenEach (fd : ℤ) (bufs : List (List ℕ)) (info : FileInfo) (o : ℕ) (w w' : World S)
      : Type 0 where
    pub entry : get_posix_file_info fd w'.meta ≡ some (at_offset (o + length (concat bufs)) info)
    pub outcome :
        (complaints w.env.log < complaints w'.env.log)
        ⊎ ((complaints w'.env.log ≡ complaints w.env.log)
            × ((q : Str)
                → v.content w'.env.os q ≡ (
                    if info.absolute_path == q
                    then splice o (concat bufs) (v.content w.env.os q)
                    else v.content w.env.os q)))

  -- Any number of `write` calls in a row on a descriptor that DTIO has taken over, at offset `o` of an
  -- absolute path, with an end below 2 ^ 63, complete, and each returns the length of its data. The
  -- entry ends where all the data ends. Either the runtime has printed a complaint, or the file holds
  -- what one write of all the data at `o` would have left, and no other file has changed.
  pub write_each-WrittenEach :
      (fd : ℤ) (bufs : List (List ℕ)) (info : FileInfo) (o : ℕ) (w : World S)
      → get_posix_file_info fd w.meta ≡ some info
      → info.current_offset ≡ pos o
      → IsAbsolute info.absolute_path
      → o + length (concat bufs) < 2 ^ 63
      → (w' : World S) × (write_each real chi c fd bufs w ≡ ok (map (λ b. pos (length b)) bufs, w'))
        × WrittenEach fd bufs info o w w'
  write_each-WrittenEach fd [] info o w h at abs small = (
    w,
    refl,
    record {
      entry =
          h
          ∙ ap (λ x. some (record info { current_offset = x }))
              (at ∙ ap pos {x = o} {y = o + length (concat [])} (omega arith));
      outcome = inr (refl, λ q. no_write info.absolute_path q o (v.content w.env.os q));
    },
  )
  write_each-WrittenEach fd (b ∷ bs) info o w h at abs small =
      let total = length-append b (concat bs) in
      let (w₁, wrote, first) =
        write-Written v libc kernel real chi lawful c fd b info o w h at abs (omega arith) in
      let (w₂, rest, others) =
        write_each-WrittenEach fd bs (at_offset (o + length b) info) (o + length b) w₁
          (ap (get_posix_file_info fd) first.meta ∙ own_entry fd (o + length b) w.meta info h) refl
          abs (omega arith) in
      (
        w₂,
        rw (wrote, rest),
        record {
          entry = others.entry ∙ ap (λ n. some (at_offset n info)) (omega (arith, total));
          outcome = elim first.outcome [
            | inl complained ↦
                inl (elim others.outcome [ inl again ↦ omega arith | inr (quiet, _) ↦ omega arith ])
            | inr placed ↦ elim others.outcome [
              | inl complained ↦ inl (omega (arith, placed.quiet))
              | inr (quiet, content) ↦ inr (
                quiet ∙ placed.quiet,
                λ q.
                    both_writes info.absolute_path q o b (concat bs) _ _ _ (placed.content q)
                      (content q),
              )
            ]
          ];
        },
      )
