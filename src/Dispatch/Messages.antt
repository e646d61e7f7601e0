-- ===== src/Dispatch/Messages.antt =====
-- What the transport of dtio_chimods/dtiomod/include/dtiomod/dtiomod_lib_exec.h keeps of a task: it is
-- saved and loaded in the process that runs it, and its results are saved and loaded back.
use dtio.Prelude.{◌≡◌, some, [], ◌++◌, str_eq}
use dtio.Exec.{ok, ◌>>=◌}
use dtio.Dispatch.{
  Admin, Method, create, destroy, write, read, prefetch, meta_put, meta_get, schedule, method_id,
}
use dtio.Dispatch.Methods.{
  IsNumbered, save_start_case, load_start_case, save_end_case, load_end_case,
}
use dtio.Dispatch.Transport.{
  empty_prefetch, empty_meta_get, empty_schedule, save_start, load_start, save_end, load_end,
}
use dtio.Tasks.{
  WriteTask, ReadTask, PrefetchTask, MetaPutTask, MetaGetTask, ScheduleTask, Task, create_task,
  destroy_task, write_task, read_task, prefetch_task, meta_put_task, meta_get_task, schedule_task,
}
use dtio.Tasks.Wire.{
  Archive, save_write_start, load_write_start, save_read_start, load_read_start,
  save_meta_put_start, load_meta_put_start, save_meta_get_start, load_meta_get_start,
  save_meta_get_end, load_meta_get_end, save_schedule_end, load_schedule_end,
}

module _ (admin : Admin) where
  abbrev pub arrived_write : WriteTask → WriteTask
  arrived_write t = record t {
    header = admin.empty_header;
    data_ptr = admin.receive t.data_ptr t.data_size;
  }

  abbrev pub arrived_read : ReadTask → ReadTask
  arrived_read t = record t {
    header = admin.empty_header;
    data_ptr = admin.receive t.data_ptr t.data_size;
  }

  -- What arrives of a task of the module: its `IN` fields, in a task that is otherwise empty; the data
  -- pointer is where the bulk transfer was received.
  abbrev pub received : Task → Task
  received (write_task t) = write_task (arrived_write t)
  received (read_task t) = read_task (arrived_read t)
  received (prefetch_task t) = prefetch_task (empty_prefetch admin)
  received (meta_put_task t) = meta_put_task (record t { header = admin.empty_header })
  received (meta_get_task t) = meta_get_task (record (empty_meta_get admin) { key = t.key })
  received (schedule_task t) = schedule_task (empty_schedule admin)
  received t = t

  -- The method of a task of the module.
  abbrev pub method_of : Task → Method
  method_of (create_task t) = create
  method_of (destroy_task t) = destroy
  method_of (write_task t) = write
  method_of (read_task t) = read
  method_of (prefetch_task t) = prefetch
  method_of (meta_put_task t) = meta_put
  method_of (meta_get_task t) = meta_get
  method_of (schedule_task t) = schedule

-- The classes that the module itself defines.
pub data IsOwn : Task → Type 0 where
  own_write : (t : WriteTask) → IsOwn (write_task t)
  own_read : (t : ReadTask) → IsOwn (read_task t)
  own_prefetch : (t : PrefetchTask) → IsOwn (prefetch_task t)
  own_meta_put : (t : MetaPutTask) → IsOwn (meta_put_task t)
  own_meta_get : (t : MetaGetTask) → IsOwn (meta_get_task t)
  own_schedule : (t : ScheduleTask) → IsOwn (schedule_task t)

-- What comes back into a waiting task: the `OUT` fields of the task that was run.
abbrev pub returned : Task → Task → Task
returned (meta_get_task done) (meta_get_task t) =
    meta_get_task (record t { val = done.val; presence = done.presence })
returned (schedule_task done) (schedule_task t) =
    schedule_task (record t { schedule_num = done.schedule_num })
returned done t = t

-- A task that was run and the task that waits for it are of one class.
pub data SameClass : Task → Task → Type 0 where
  both_write : (u t : WriteTask) → SameClass (write_task u) (write_task t)
  both_read : (u t : ReadTask) → SameClass (read_task u) (read_task t)
  both_prefetch : (u t : PrefetchTask) → SameClass (prefetch_task u) (prefetch_task t)
  both_meta_put : (u t : MetaPutTask) → SameClass (meta_put_task u) (meta_put_task t)
  both_meta_get : (u t : MetaGetTask) → SameClass (meta_get_task u) (meta_get_task t)
  both_schedule : (u t : ScheduleTask) → SameClass (schedule_task u) (schedule_task t)

module _ (admin : Admin) (numbered : IsNumbered admin) where
  -- `SaveStart` and then `LoadStart` by the same method number give, of each task of the module, its
  -- `IN` fields, in a task whose other fields are those of an empty task, and leave what follows in
  -- the archive.
  pub load_start-save_start :
      (t : Task) (rest : Archive)
      → IsOwn t
      → let m = method_id admin (method_of admin t) in
        (do ar ← save_start admin m t []; load_start admin m (ar ++ rest))
        ≡ ok (some (received admin t), rest)
  unfolding save_write_start load_write_start save_read_start load_read_start save_meta_put_start
      load_meta_put_start save_meta_get_start load_meta_get_start
  load_start-save_start t rest (own_write w) =
      rw (save_start_case admin numbered write, load_start_case admin numbered write)
  load_start-save_start t rest (own_read r) =
      rw (save_start_case admin numbered read, load_start_case admin numbered read)
  load_start-save_start t rest (own_prefetch p) =
      rw (save_start_case admin numbered prefetch, load_start_case admin numbered prefetch)
  load_start-save_start t rest (own_meta_put p) =
      rw (save_start_case admin numbered meta_put, load_start_case admin numbered meta_put)
  load_start-save_start t rest (own_meta_get g) =
      rw (save_start_case admin numbered meta_get, load_start_case admin numbered meta_get)
  load_start-save_start t rest (own_schedule s) =
      rw (save_start_case admin numbered schedule, load_start_case admin numbered schedule)

  -- `SaveEnd` of a task that was run and then `LoadEnd` into the task that waits, of the same class,
  -- give the waiting task the `OUT` fields of the other and change nothing else in it.
  pub load_end-save_end :
      (done t : Task) (rest : Archive)
      → SameClass done t
      → let m = method_id admin (method_of admin t) in
        (do ar ← save_end admin m done []; load_end admin m (ar ++ rest) t)
        ≡ ok (returned done t, rest)
  unfolding save_meta_get_end load_meta_get_end save_schedule_end load_schedule_end
  load_end-save_end done t rest (both_write u w) =
      rw (save_end_case admin numbered write, load_end_case admin numbered write)
  load_end-save_end done t rest (both_read u r) =
      rw (save_end_case admin numbered read, load_end_case admin numbered read)
  load_end-save_end done t rest (both_prefetch u p) =
      rw (save_end_case admin numbered prefetch, load_end_case admin numbered prefetch)
  load_end-save_end done t rest (both_meta_put u p) =
      rw (save_end_case admin numbered meta_put, load_end_case admin numbered meta_put)
  load_end-save_end done t rest (both_meta_get u g) =
      rw (save_end_case admin numbered meta_get, load_end_case admin numbered meta_get)
  load_end-save_end done t rest (both_schedule u s) =
      rw (save_end_case admin numbered schedule, load_end_case admin numbered schedule)
