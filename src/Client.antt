-- ===== src/Client.antt =====
-- dtio_chimods/dtiomod/include/dtiomod/dtiomod_client.h: what an application calls of the module.
pub mod Runs
pub mod Frames
pub mod Tickets
use dtio.Prelude.{ℕ, Bool, Str}
use dtio.Prelude.Int.{ℤ, pos, to_int32}
use dtio.Exec.{Exec, ok, fault, wrong_task, ◌>>=◌}
use dtio.Chimaera.{World, Chimaera}
use dtio.Tasks.{
  IoClientType, DomainQuery, direct_hash, WriteTask, ReadTask, MetaGetTask, ScheduleTask, Task,
  write_task, read_task, prefetch_task, meta_put_task, meta_get_task, schedule_task, new_write_task,
  new_read_task, new_prefetch_task, new_meta_put_task, new_meta_get_task, new_schedule_task,
}

-- `id` is the pool that `Create` has made.
pub record Client : Type 0 where
  pub id : ℕ

as_schedule : Task → Exec ScheduleTask
as_schedule (schedule_task t) = ok t
as_schedule _ = fault wrong_task

as_meta_get : Task → Exec MetaGetTask
as_meta_get (meta_get_task t) = ok t
as_meta_get _ = fault wrong_task

module _ {S : Type 0} (chi : Chimaera S) (c : Client) where
  -- The `size_t` of the task becomes an `int`.
  unfoldable pub schedule : DomainQuery → World S → Exec (ℤ × World S)
  unfolding as_schedule new_schedule_task
  schedule dom_query w = do
    let task =
        new_schedule_task chi.base_header (chi.task_node w) c.id dom_query chi.admin.unset_number
    (t, w₁) ← chi.submit (schedule_task task) w
    done ← as_schedule t
    ok (to_int32 done.schedule_num, w₁)

  unfoldable pub write : ℕ → ℕ → ℕ → Str → IoClientType → World S → Exec (World S)
  unfolding schedule new_write_task
  write data_ptr data_size data_offset filename iface w = do
    (snum, w₁) ← schedule (direct_hash (pos 0)) w
    let task =
        new_write_task chi.base_header (chi.task_node w₁) c.id (direct_hash snum) data_ptr data_size
          data_offset filename iface
    (t, w₂) ← chi.submit (write_task task) w₁
    ok w₂

  unfoldable pub read : ℕ → ℕ → ℕ → Str → IoClientType → World S → Exec (World S)
  unfolding schedule new_read_task
  read data_ptr data_size data_offset filename iface w = do
    (snum, w₁) ← schedule (direct_hash (pos 0)) w
    let task =
        new_read_task chi.base_header (chi.task_node w₁) c.id (direct_hash snum) data_ptr data_size
          data_offset filename iface
    (t, w₂) ← chi.submit (read_task task) w₁
    ok w₂

  unfoldable pub prefetch : DomainQuery → World S → Exec (World S)
  unfolding new_prefetch_task
  prefetch dom_query w = do
    let task = new_prefetch_task chi.base_header (chi.task_node w) c.id dom_query
    (t, w₁) ← chi.submit (prefetch_task task) w
    ok w₁

  unfoldable pub meta_put : DomainQuery → Str → Str → World S → Exec (World S)
  unfolding new_meta_put_task
  meta_put dom_query key val w = do
    let task = new_meta_put_task chi.base_header (chi.task_node w) c.id dom_query key val
    (t, w₁) ← chi.submit (meta_put_task task) w
    ok w₁

  unfoldable pub meta_get : DomainQuery → Str → World S → Exec ((Bool × Str) × World S)
  unfolding as_meta_get new_meta_get_task
  meta_get dom_query key w = do
    let task = new_meta_get_task chi.base_header (chi.task_node w) c.id dom_query key
    (t, w₁) ← chi.submit (meta_get_task task) w
    done ← as_meta_get t
    ok ((done.presence, done.val), w₁)
