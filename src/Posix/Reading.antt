-- ===== src/Posix/Reading.antt =====
-- `read` of adapter/posix/posix_api.cc on a descriptor that DTIO has taken over, down to the file.
use dtio.Prelude.{
  ℕ, ◌+◌, ◌^◌, ◌<◌, ◌≡◌, refl, sym, ap, ◌∙◌, some, List, length, take, drop, arith, nat_eq, ◌⊎◌,
  inl, inr,
}
use dtio.Prelude.Int.{ℤ, pos, int_eq, to_word, of_word, of_word_small}
use dtio.Prelude.Dict
use dtio.Exec.{ok, complaints, ok-injective}
use dtio.Metadata.{FileInfo, is_posix_fd_registered, get_posix_file_info, update_posix_offset}
use dtio.Config.Paths.{IsAbsolute, file_path-IsAbsolute}
use dtio.Libc.{Libc}
use dtio.Libc.Kernel.{View, IsKernel, SameFiles}
use dtio.Server.{Env, load_bytes}
use dtio.Server.WriteTasks.{TookDescriptor, length-load_bytes}
use dtio.Server.ReadTasks.{Reads, read-Reads}
use dtio.Chimaera.{World, Chimaera, IsLawful, with_shm}
use dtio.Client
use dtio.Client.{Client}
use dtio.Client.Runs.{sent_read, read_runs}
use dtio.Posix.{advance, read_managed, read}
use dtio.Posix.Writing.{advance_lem, to_word_lem}
use dtio.Tasks.{k_posix, ReadTask, new_read_task}

module _ {S : Type 0} (real : Libc S) (chi : Chimaera S) (c : Client) where
  read_case :
      (fd : ℤ) (count : ℕ) (info : FileInfo) (w : World S)
      → get_posix_file_info fd w.meta ≡ some info
      → read real chi c fd count w ≡ read_managed real chi c fd count info w
  unfolding read get_posix_file_info is_posix_fd_registered
  read_case fd count info w h = rw (h, read)

module _ {S : Type 0} (v : View S) (libc : Libc S) (kernel : IsKernel v libc) (real : Libc S)
    (chi : Chimaera S) (lawful : IsLawful libc chi) (c : Client) where
  -- What an application's `read` of `count` bytes at offset `o` of a managed file gives it, and what
  -- it leaves in `w'`.
  pub record Got (fd : ℤ) (count : ℕ) (info : FileInfo) (o : ℕ) (w : World S) (bytes : List ℕ)
      (w' : World S) : Type 0 where
    pub size : length bytes ≡ count
    pub meta : w'.meta ≡ update_posix_offset fd (pos (o + count)) w.meta
    pub files : SameFiles v w.env.os w'.env.os
    pub outcome :
        (complaints w.env.log < complaints w'.env.log)
        ⊎ ((complaints w'.env.log ≡ complaints w.env.log)
            × (bytes ≡ take count (drop o (v.content w.env.os info.absolute_path)))
            × TookDescriptor v libc kernel w.env.os w'.env.os)

  module _ (fd : ℤ) (count : ℕ) (info : FileInfo) (o : ℕ) (w : World S) where
    abbrev buffer : ℕ
    buffer = (chi.allocate_buffer count w).0

    abbrev given : List ℕ
    given = lawful.initial count w

    -- The world with the new buffer, in which the task is submitted.
    abbrev submitted : World S
    submitted = with_shm w (Dict.insert buffer given w.env.shm)

    abbrev task : ReadTask
    task =
        sent_read libc chi lawful c buffer count (to_word info.current_offset) info.absolute_path
          k_posix submitted

    read_managed_lem :
        (w₂ : World S) (bytes : List ℕ)
        → Client.read chi c buffer count
            (to_word info.current_offset)
            info.absolute_path
            k_posix
            submitted
          ≡ ok w₂
        → load_bytes w₂.env.shm buffer count ≡ ok bytes
        → read_managed real chi c fd count info w
          ≡ ok (
            (of_word count, bytes),
            chi.free_buffer buffer (record w₂ {
              meta = update_posix_offset fd (advance info.current_offset count) w₂.meta;
            }),
          )
    unfolding read_managed
    read_managed_lem w₂ bytes h loaded = rw (lawful.allocate_buffer-insert, h, loaded)

    -- From the handler's effect in `e'` and the world `w₂` that the client call leaves.
    finish :
        get_posix_file_info fd w.meta ≡ some info
        → info.current_offset ≡ pos o
        → IsAbsolute info.absolute_path
        → o + count < 2 ^ 63
        → (e' : Env S) (w₂ : World S) → Reads v libc kernel task submitted.env e'
        → Client.read chi c buffer count
            (to_word info.current_offset)
            info.absolute_path
            k_posix
            submitted
          ≡ ok w₂
        → w₂.env ≡ e'
        → w₂.meta ≡ w.meta
        → (bytes : List ℕ) × (w' : World S) × (read real chi c fd count w
            ≡ ok ((pos count, bytes), w'))
          × Got fd count info o w bytes w'
    unfolding new_read_task
    finish h at_o abs small e' w₂ effect sent env_is meta_is =
        let at = to_word_lem info.current_offset o at_o (omega arith) in
        let name = file_path-IsAbsolute info.absolute_path abs in
        let next = advance_lem info.current_offset o count at_o small in
        let moved = update_posix_offset fd (advance info.current_offset count) w₂.meta in
        let bytes = effect.loads.0 in
        (
          bytes,
          with_shm (record w₂ { meta = moved }) (Dict.erase buffer w₂.env.shm),
          read_case real chi c fd count info w h
              ∙ (read_managed_lem w₂ bytes sent
                    (ap (λ e. load_bytes e.shm buffer count) env_is ∙ effect.loads.1)
                  ∙ rw (lawful.free_buffer-erase, of_word_small count (omega arith))),
          record {
            size = length-load_bytes e'.shm buffer count bytes effect.loads.1;
            meta = rw (meta_is, next);
            files = rw env_is effect.files;
            outcome = elim effect.outcome [
              | inl complained ↦ inl (rw env_is complained)
              | inr whole ↦ inr (
                rw env_is whole.quiet,
                rw (name, at) at (ok-injective bytes _ (sym effect.loads.1 ∙ whole.content)),
                record {
                  below_limit = whole.descriptor.below_limit;
                  counted = rw env_is whole.descriptor.counted;
                },
              )
            ];
          },
        )

    -- An application's `read` of `count` bytes on a descriptor that DTIO has taken over, at offset `o`
    -- of an absolute path, with an end below 2 ^ 63, completes, returns `count` and fills that much of
    -- the buffer, also past the end of the file. The entry of the descriptor moves by `count`, and no
    -- file changes. Either the runtime has printed a complaint, or the bytes are those of the file at
    -- `o`, and the runtime has one more open descriptor than before.
    pub read-Got :
        get_posix_file_info fd w.meta ≡ some info
        → info.current_offset ≡ pos o
        → IsAbsolute info.absolute_path
        → o + count < 2 ^ 63
        → (bytes : List ℕ) × (w' : World S) × (read real chi c fd count w
            ≡ ok ((pos count, bytes), w'))
          × Got fd count info o w bytes w'
    unfolding new_read_task
    read-Got h at_o abs small =
        let at = to_word_lem info.current_offset o at_o (omega arith) in
        let (e', run, effect) =
          read-Reads v libc kernel task submitted.env given refl
            (rw (Dict.lookup-insert, Dict.==_refl)) (omega (arith, lawful.length-initial count w))
            (rw at (omega arith)) (omega arith) in
        let (w₂, sent, env_is, meta_is) =
          read_runs libc chi lawful c buffer count (to_word info.current_offset) info.absolute_path
            k_posix submitted e' run in
        finish h at_o abs small e' w₂ effect sent env_is meta_is
