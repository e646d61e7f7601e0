-- ===== src/Client/Frames.antt =====
-- The calls of dtio_chimods/dtiomod/include/dtiomod/dtiomod_client.h leave the tables of the
-- application alone, whatever the runtime answers.
use dtio.Prelude.{ℕ, ◌≡◌, refl, sym, ap, ◌∙◌, Str}
use dtio.Exec.{Exec, ok, fault, ◌>>=◌, ok-injective}
use dtio.Libc.{Libc}
use dtio.Server.{Server, Env}
use dtio.Prelude.Int.{pos}
use dtio.Dispatch.{run, write, read, method_id}
use dtio.Chimaera.{World, Chimaera, IsLawful, run_in, with_server, scheduled, NamesOne}
use dtio.Client
use dtio.Client.{Client}
use dtio.Client.Runs.{schedule_lem, ticketed, scheduled_same, sent_write, sent_read}
use dtio.Tasks.{
  direct_hash, write_task, read_task, IoClientType, Task, header_of, new_write_task, new_read_task,
}

module _ {S : Type 0} (libc : Libc S) (chi : Chimaera S) (lawful : IsLawful libc chi)
    (c : Client) where
  abbrev place : Task → ℕ
  place task = chi.container_of (header_of task).dom_query

  abbrev stored : Task → World S → Exec (Task × Server × Env S) → Exec (Task × World S)
  stored task w x = do
    (task', s', e') ← x
    ok (task', record (with_server w (place task) s') { env = e' })

  submit-meta :
      (task t : Task) (w w' : World S)
      → scheduled chi task ≡ ok task
      → NamesOne (header_of task).dom_query
      → chi.submit task w ≡ ok (t, w')
      → w'.meta ≡ w.meta
  unfolding run_in
  submit-meta task t w w' same one h =
      by (run libc chi.admin (header_of task).method task (w.servers (place task)) w.env)
        (ran same ∙ (sym (lawful.submit-run_in task task w same one) ∙ h))
    where
      ran :
          scheduled chi task ≡ ok task
          → stored task w
              (run libc chi.admin (header_of task).method task (w.servers (place task)) w.env)
            ≡ run_in libc chi task w
      ran e = rw e refl

      by : (x : Exec (Task × Server × Env S)) → stored task w x ≡ ok (t, w') → w'.meta ≡ w.meta
      by (ok (task', s', e')) h = ap (λ r. r.1.meta) (sym (ok-injective _ _ h))
      by (fault f) h = absurd cc

  -- After the ticket, a file task.
  task-meta :
      (task : Task) (w₁ w w' : World S)
      → w₁.meta ≡ w.meta
      → scheduled chi task ≡ ok task
      → NamesOne (header_of task).dom_query
      → (do (t, w₂) ← chi.submit task w₁; ok w₂) ≡ ok w'
      → w'.meta ≡ w.meta
  task-meta task w₁ w w' same placed one h = by (chi.submit task w₁) refl h
    where
      by :
          (x : Exec (Task × World S))
          → chi.submit task w₁ ≡ x
          → (do (t, w₂) ← x; ok w₂) ≡ ok w'
          → w'.meta ≡ w.meta
      by (ok (t, w₂)) e h =
          ap (λ u. u.meta) (sym (ok-injective _ _ h))
          ∙ (submit-meta task t w₁ w₂ placed one e ∙ same)
      by (fault f) e h = absurd cc

  module _ (data_ptr size offset : ℕ) (name : Str) (iface : IoClientType) (w w' : World S) where
    pub write-meta : Client.write chi c data_ptr size offset name iface w ≡ ok w' → w'.meta ≡ w.meta
    unfolding Client.write new_write_task method_id
    write-meta h =
        task-meta (write_task (sent_write libc chi lawful c data_ptr size offset name iface w))
          (ticketed libc chi lawful c (direct_hash (pos 0)) w) w w' refl
          (scheduled_same libc chi lawful c write
            (write_task (sent_write libc chi lawful c data_ptr size offset name iface w)) refl refl)
          tt (rw (schedule_lem libc chi lawful c (direct_hash (pos 0)) w tt) at h)

    pub read-meta : Client.read chi c data_ptr size offset name iface w ≡ ok w' → w'.meta ≡ w.meta
    unfolding Client.read new_read_task method_id
    read-meta h =
        task-meta (read_task (sent_read libc chi lawful c data_ptr size offset name iface w))
          (ticketed libc chi lawful c (direct_hash (pos 0)) w) w w' refl
          (scheduled_same libc chi lawful c read
            (read_task (sent_read libc chi lawful c data_ptr size offset name iface w)) refl refl)
          tt (rw (schedule_lem libc chi lawful c (direct_hash (pos 0)) w tt) at h)
