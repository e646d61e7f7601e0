-- ===== src/Dispatch/Copies.antt =====
-- `NewCopyStart` of dtio_chimods/dtiomod/include/dtiomod/dtiomod_lib_exec.h: what a copy of a task of
-- the module holds.
use dtio.Prelude.{◌≡◌, Bool, false, some, if◌then◌else◌}
use dtio.Exec.{ok}
use dtio.Dispatch.{Admin, write, read, prefetch, meta_put, meta_get, schedule, method_id}
use dtio.Dispatch.Methods.{IsNumbered, switch-method_id}
use dtio.Dispatch.Messages.{
  method_of, IsOwn, own_write, own_read, own_prefetch, own_meta_put, own_meta_get, own_schedule,
}
use dtio.Dispatch.Transport.{new_copy_start}
use dtio.Tasks.{
  TaskHeader, Task, write_task, read_task, prefetch_task, meta_put_task, meta_get_task,
  schedule_task, write_copy_start, read_copy_start, prefetch_copy_start, meta_put_copy_start,
  meta_get_copy_start, schedule_copy_start,
}

module _ (admin : Admin) where
  -- The header of a copy; a shallow copy of a task with data does not own the data.
  abbrev kept_header : TaskHeader → TaskHeader
  kept_header h = admin.copy_header admin.empty_header h

  abbrev shared_header : Bool → TaskHeader → TaskHeader
  shared_header deep h =
      if deep then kept_header h else record (kept_header h) { data_owner = false }

  -- A task with another header. The data of a shallow copy is not its own, except in a `PrefetchTask`,
  -- which has none, and in a `ScheduleTask`.
  abbrev pub duplicate : Bool → Task → Task
  duplicate deep (write_task t) = write_task (record t { header = shared_header deep t.header })
  duplicate deep (read_task t) = read_task (record t { header = shared_header deep t.header })
  duplicate deep (prefetch_task t) = prefetch_task (record t { header = kept_header t.header })
  duplicate deep (meta_put_task t) =
      meta_put_task (record t { header = shared_header deep t.header })
  duplicate deep (meta_get_task t) =
      meta_get_task (record t { header = shared_header deep t.header })
  duplicate deep (schedule_task t) = schedule_task (record t { header = kept_header t.header })
  duplicate deep t = t

module _ (admin : Admin) (numbered : IsNumbered admin) where
  -- `NewCopyStart` by the number of a task's method makes a task of the same class with every field of
  -- the original, `IN` and `OUT`, and the header that Chimaera copies. In a shallow copy of a write,
  -- read, put or get task the header does not own the data.
  pub new_copy_start-duplicate :
      (t : Task) (deep : Bool)
      → IsOwn t
      → new_copy_start admin (method_id admin (method_of admin t)) t deep
        ≡ ok (some (duplicate admin deep t))
  unfolding new_copy_start write_copy_start read_copy_start prefetch_copy_start meta_put_copy_start
      meta_get_copy_start schedule_copy_start
  new_copy_start-duplicate t deep (own_write w) =
      rw (switch-method_id admin numbered write, new_copy_start)
  new_copy_start-duplicate t deep (own_read r) =
      rw (switch-method_id admin numbered read, new_copy_start)
  new_copy_start-duplicate t deep (own_prefetch p) =
      rw (switch-method_id admin numbered prefetch, new_copy_start)
  new_copy_start-duplicate t deep (own_meta_put p) =
      rw (switch-method_id admin numbered meta_put, new_copy_start)
  new_copy_start-duplicate t deep (own_meta_get g) =
      rw (switch-method_id admin numbered meta_get, new_copy_start)
  new_copy_start-duplicate t deep (own_schedule s) =
      rw (switch-method_id admin numbered schedule, new_copy_start)
