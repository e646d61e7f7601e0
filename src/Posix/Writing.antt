-- ===== src/Posix/Writing.antt =====
-- `write` of adapter/posix/posix_api.cc on a descriptor that DTIO has taken over, down to the file.
use dtio.Prelude.{
  ℕ, ◌+◌, ◌^◌, ◌<◌, ◌≡◌, refl, ap, ◌∙◌, some, List, length, length-append, drop, take-append_left,
  arith, nat_eq, ◌⊎◌, inl, inr,
}
use dtio.Prelude.Int.{ℤ, pos, int_eq, to_word, of_word, of_word_small}
use dtio.Prelude.Dict
use dtio.Exec.{ok, complaints}
use dtio.Metadata.{FileInfo, is_posix_fd_registered, get_posix_file_info, update_posix_offset}
use dtio.Config.Paths.{IsAbsolute, file_path-IsAbsolute}
use dtio.Libc.{Libc}
use dtio.Libc.Kernel.{View, IsKernel}
use dtio.Server
use dtio.Server.{Env, file_path, load_bytes, store_bytes}
use dtio.Server.WriteTasks.{Placed, Writes, write-Writes}
use dtio.Server.ReadTasks.{filled, store_bytes_lem, load_bytes_lem}
use dtio.Chimaera.{World, Chimaera, IsLawful, with_shm}
use dtio.Client
use dtio.Client.{Client}
use dtio.Client.Runs.{sent_write, write_runs}
use dtio.Posix.{advance, write_managed, write}
use dtio.Tasks.{k_posix, WriteTask, new_write_task}

-- The sum of an offset and a count that stays below 2 ^ 63 is the new offset.
pub advance_lem :
    (offset : ℤ) (o count : ℕ)
    → offset ≡ pos o
    → o + count < 2 ^ 63
    → advance offset count ≡ pos (o + count)
unfolding advance
advance_lem offset o count h small = rw h (ground arith)

pub to_word_lem : (offset : ℤ) (o : ℕ) → offset ≡ pos o → o < 2 ^ 63 → to_word offset ≡ o
to_word_lem offset o h small = rw h (omega arith)

module _ {S : Type 0} (real : Libc S) (chi : Chimaera S) (c : Client) where
  write_case :
      (fd : ℤ) (buf : List ℕ) (info : FileInfo) (w : World S)
      → get_posix_file_info fd w.meta ≡ some info
      → write real chi c fd buf w ≡ write_managed real chi c fd buf info w
  unfolding write get_posix_file_info is_posix_fd_registered
  write_case fd buf info w h = rw (h, write)

-- The buffer that a write hands over holds the bytes of the caller.
handed :
    (shm : Server.Shm) (p : ℕ) (buf initial : List ℕ)
    → length initial ≡ length buf
    → (store_bytes (Dict.insert p initial shm) p buf
        ≡ ok (Dict.insert p (filled buf initial) (Dict.insert p initial shm)))
      × (load_bytes (Dict.insert p (filled buf initial) (Dict.insert p initial shm)) p (length buf)
          ≡ ok buf)
handed shm p buf initial fits = (
  store_bytes_lem _ p buf initial (rw (Dict.lookup-insert, Dict.==_refl)) (omega arith),
  load_bytes_lem _ p (length buf) (filled buf initial) (rw (Dict.lookup-insert, Dict.==_refl))
        (omega (arith, length-append buf (drop (length buf) initial)))
      ∙ ap ok (take-append_left buf (drop (length buf) initial)),
)

module _ {S : Type 0} (v : View S) (libc : Libc S) (kernel : IsKernel v libc) (real : Libc S)
    (chi : Chimaera S) (lawful : IsLawful libc chi) (c : Client) where
  -- What an application's `write` of `buf` at offset `o` of a managed file leaves in `w'`.
  pub record Written (fd : ℤ) (buf : List ℕ) (info : FileInfo) (o : ℕ) (w w' : World S)
      : Type 0 where
    pub meta : w'.meta ≡ update_posix_offset fd (pos (o + length buf)) w.meta
    pub outcome :
        (complaints w.env.log < complaints w'.env.log)
        ⊎ Placed v libc kernel info.absolute_path o buf w.env w'.env

  module _ (fd : ℤ) (buf : List ℕ) (info : FileInfo) (o : ℕ) (w : World S) where
    -- The world with the shared buffer filled, in which the task is submitted.
    abbrev buffer : ℕ
    buffer = (chi.allocate_buffer (length buf) w).0

    abbrev given : List ℕ
    given = lawful.initial (length buf) w

    abbrev full_shm : Server.Shm
    full_shm = Dict.insert buffer (filled buf given) (Dict.insert buffer given w.env.shm)

    abbrev submitted : World S
    submitted = with_shm w full_shm

    abbrev task : WriteTask
    task =
        sent_write libc chi lawful c buffer (length buf) (to_word info.current_offset)
          info.absolute_path k_posix submitted

    write_managed_lem :
        (w₂ : World S)
        → Client.write chi c buffer
            (length buf)
            (to_word info.current_offset)
            info.absolute_path
            k_posix
            submitted
          ≡ ok w₂
        → write_managed real chi c fd buf info w
          ≡ ok (
            of_word (length buf),
            chi.free_buffer buffer (record w₂ {
              meta = update_posix_offset fd (advance info.current_offset (length buf)) w₂.meta;
            }),
          )
    unfolding write_managed
    write_managed_lem w₂ h = rw (
      lawful.allocate_buffer-insert,
      (handed w.env.shm buffer buf given (lawful.length-initial (length buf) w)).0,
      h,
    )

    task_name : file_path task.filename ≡ file_path info.absolute_path
    unfolding new_write_task
    task_name = refl

    -- From the handler's effect in `e'` and the world `w₂` that the client call leaves.
    finish :
        get_posix_file_info fd w.meta ≡ some info
        → info.current_offset ≡ pos o
        → IsAbsolute info.absolute_path
        → o + length buf < 2 ^ 63
        → (e' : Env S) (w₂ : World S) → Writes v libc kernel task buf submitted.env e'
        → Client.write chi c buffer
            (length buf)
            (to_word info.current_offset)
            info.absolute_path
            k_posix
            submitted
          ≡ ok w₂
        → w₂.env ≡ e'
        → w₂.meta ≡ w.meta
        → (w' : World S) × (write real chi c fd buf w ≡ ok (pos (length buf), w'))
          × Written fd buf info o w w'
    unfolding new_write_task
    finish h at_o abs small e' w₂ effect sent env_is meta_is =
        let at = to_word_lem info.current_offset o at_o (omega arith) in
        let name = file_path-IsAbsolute info.absolute_path abs in
        let next = advance_lem info.current_offset o (length buf) at_o small in
        let moved = update_posix_offset fd (advance info.current_offset (length buf)) w₂.meta in
        (
          with_shm (record w₂ { meta = moved }) (Dict.erase buffer w₂.env.shm),
          write_case real chi c fd buf info w h
              ∙ (write_managed_lem w₂ sent
                  ∙ rw (lawful.free_buffer-erase, of_word_small (length buf) (omega arith))),
          record {
            meta = rw (meta_is, next);
            outcome = elim (effect.outcome) [
              | inl complained ↦ inl (rw env_is complained)
              | inr placed ↦ inr (record {
                quiet = rw env_is placed.quiet;
                content = λ q. rw env_is (rw (name, at) at placed.content q);
                descriptor = record {
                  below_limit = placed.descriptor.below_limit;
                  counted = rw env_is placed.descriptor.counted;
                };
              })
            ];
          },
        )

    -- An application's `write` on a descriptor that DTIO has taken over, at offset `o` of an absolute
    -- path, with an end below 2 ^ 63, completes and returns the number of bytes given, also when the
    -- runtime fails. The entry of the descriptor moves past the data. Either the runtime has printed a
    -- complaint, or the data is in the file at `o` (a gap before it reads as zeros), no other file has
    -- changed, and the runtime has one more open descriptor than before.
    pub write-Written :
        get_posix_file_info fd w.meta ≡ some info
        → info.current_offset ≡ pos o
        → IsAbsolute info.absolute_path
        → o + length buf < 2 ^ 63
        → (w' : World S) × (write real chi c fd buf w ≡ ok (pos (length buf), w'))
          × Written fd buf info o w w'
    unfolding new_write_task
    write-Written h at_o abs small =
        let at = to_word_lem info.current_offset o at_o (omega arith) in
        let loaded = (handed w.env.shm buffer buf given (lawful.length-initial (length buf) w)).1 in
        let (e', run, effect) =
          write-Writes v libc kernel task submitted.env buf refl loaded (rw at (omega arith))
            (omega arith) in
        let (w₂, sent, env_is, meta_is) =
          write_runs libc chi lawful c buffer (length buf) (to_word info.current_offset)
            info.absolute_path k_posix submitted e' run in
        finish h at_o abs small e' w₂ effect sent env_is meta_is
