-- ===== src/Dispatch/Transport.antt =====
-- `NewCopyStart`, `SaveStart`, `LoadStart`, `SaveEnd` and `LoadEnd` of
-- dtio_chimods/dtiomod/include/dtiomod/dtiomod_lib_exec.h.
use dtio.Prelude.{ℕ, Bool, Option, none, some, []}
use dtio.Exec.{Exec, ok, fault, wrong_task, ◌>>=◌}
use dtio.Dispatch.{
  Admin, Method, create, destroy, write, read, prefetch, meta_put, meta_get, schedule, switch,
  copy_as,
}
use dtio.Tasks.{
  WriteTask, ReadTask, PrefetchTask, MetaPutTask, MetaGetTask, ScheduleTask, Task, create_task,
  destroy_task, write_task, read_task, prefetch_task, meta_put_task, meta_get_task, schedule_task,
}
use dtio.Tasks.Wire.{
  Archive, save_write_start, load_write_start, save_read_start, load_read_start,
  save_meta_put_start, load_meta_put_start, save_meta_get_start, load_meta_get_start,
  save_meta_get_end, load_meta_get_end, save_schedule_end, load_schedule_end,
}

module _ (admin : Admin) where
  -- The tasks that `NewEmptyTask` makes.
  abbrev pub empty_write : WriteTask
  empty_write = record {
    header = admin.empty_header;
    data_ptr = admin.unset_number;
    data_offset = admin.unset_number;
    data_size = admin.unset_number;
    filename = [];
    iface = admin.unset_interface;
  }

  abbrev pub empty_read : ReadTask
  empty_read = record {
    header = admin.empty_header;
    data_ptr = admin.unset_number;
    data_offset = admin.unset_number;
    data_size = admin.unset_number;
    filename = [];
    iface = admin.unset_interface;
  }

  abbrev pub empty_prefetch : PrefetchTask
  empty_prefetch = record { header = admin.empty_header }

  abbrev pub empty_meta_put : MetaPutTask
  empty_meta_put = record { header = admin.empty_header; key = []; val = [] }

  abbrev pub empty_meta_get : MetaGetTask
  empty_meta_get = record {
    header = admin.empty_header;
    key = [];
    val = [];
    presence = admin.unset_flag;
  }

  abbrev pub empty_schedule : ScheduleTask
  empty_schedule = record { header = admin.empty_header; schedule_num = admin.unset_number }

  abbrev pub empty_of : Method → Task → Task
  empty_of write t = write_task empty_write
  empty_of read t = read_task empty_read
  empty_of prefetch t = prefetch_task empty_prefetch
  empty_of meta_put t = meta_put_task empty_meta_put
  empty_of meta_get t = meta_get_task empty_meta_get
  empty_of schedule t = schedule_task empty_schedule
  empty_of _ t = t

  -- `CALL_NEW_COPY_START`: a copy into a new task. With no case the pointer is left null (`none`).
  unfoldable pub new_copy_start : ℕ → Task → Bool → Exec (Option Task)
  unfolding switch
  new_copy_start method orig deep = elim (switch admin method) [
    | none ↦ ok none
    | some m ↦ do d ← copy_as admin m orig (empty_of m orig) deep; ok (some d)
  ]

  abbrev pub save_start_as : Method → Task → Archive → Exec Archive
  save_start_as create (create_task t) ar = ok (admin.save_create_start t ar)
  save_start_as destroy (destroy_task t) ar = ok (admin.save_destroy_start t ar)
  save_start_as write (write_task t) ar = ok (save_write_start t ar)
  save_start_as read (read_task t) ar = ok (save_read_start t ar)
  save_start_as prefetch (prefetch_task t) ar = ok ar
  save_start_as meta_put (meta_put_task t) ar = ok (save_meta_put_start t ar)
  save_start_as meta_get (meta_get_task t) ar = ok (save_meta_get_start t ar)
  save_start_as schedule (schedule_task t) ar = ok ar
  save_start_as _ _ ar = fault wrong_task

  unfoldable pub save_start : ℕ → Task → Archive → Exec Archive
  unfolding switch
  save_start method task ar = elim (switch admin method) [
    | none ↦ ok ar
    | some m ↦ save_start_as m task ar
  ]

  abbrev pub load_start_as : Method → Archive → Exec (Task × Archive)
  load_start_as create ar = do (t, rest) ← admin.load_create_start ar; ok (create_task t, rest)
  load_start_as destroy ar = do (t, rest) ← admin.load_destroy_start ar; ok (destroy_task t, rest)
  load_start_as write ar = do
    (t, rest) ← load_write_start admin.receive empty_write ar
    ok (write_task t, rest)
  load_start_as read ar = do
    (t, rest) ← load_read_start admin.receive empty_read ar
    ok (read_task t, rest)
  load_start_as prefetch ar = ok (prefetch_task empty_prefetch, ar)
  load_start_as meta_put ar = do
    (t, rest) ← load_meta_put_start empty_meta_put ar
    ok (meta_put_task t, rest)
  load_start_as meta_get ar = do
    (t, rest) ← load_meta_get_start empty_meta_get ar
    ok (meta_get_task t, rest)
  load_start_as schedule ar = ok (schedule_task empty_schedule, ar)

  -- With no case the pointer that is returned is not set (`none`).
  unfoldable pub load_start : ℕ → Archive → Exec (Option Task × Archive)
  unfolding switch
  load_start method ar = elim (switch admin method) [
    | none ↦ ok (none, ar)
    | some m ↦ do (t, rest) ← load_start_as m ar; ok (some t, rest)
  ]

  abbrev pub save_end_as : Method → Task → Archive → Exec Archive
  save_end_as create (create_task t) ar = ok (admin.save_create_end t ar)
  save_end_as destroy (destroy_task t) ar = ok (admin.save_destroy_end t ar)
  save_end_as write (write_task t) ar = ok ar
  save_end_as read (read_task t) ar = ok ar
  save_end_as prefetch (prefetch_task t) ar = ok ar
  save_end_as meta_put (meta_put_task t) ar = ok ar
  save_end_as meta_get (meta_get_task t) ar = ok (save_meta_get_end t ar)
  save_end_as schedule (schedule_task t) ar = ok (save_schedule_end t ar)
  save_end_as _ _ ar = fault wrong_task

  unfoldable pub save_end : ℕ → Task → Archive → Exec Archive
  unfolding switch
  save_end method task ar = elim (switch admin method) [
    | none ↦ ok ar
    | some m ↦ save_end_as m task ar
  ]

  abbrev pub load_end_as : Method → Archive → Task → Exec (Task × Archive)
  load_end_as create ar (create_task t) = do
    (u, rest) ← admin.load_create_end t ar
    ok (create_task u, rest)
  load_end_as destroy ar (destroy_task t) = do
    (u, rest) ← admin.load_destroy_end t ar
    ok (destroy_task u, rest)
  load_end_as write ar (write_task t) = ok (write_task t, ar)
  load_end_as read ar (read_task t) = ok (read_task t, ar)
  load_end_as prefetch ar (prefetch_task t) = ok (prefetch_task t, ar)
  load_end_as meta_put ar (meta_put_task t) = ok (meta_put_task t, ar)
  load_end_as meta_get ar (meta_get_task t) = do
    (u, rest) ← load_meta_get_end t ar
    ok (meta_get_task u, rest)
  load_end_as schedule ar (schedule_task t) = do
    (u, rest) ← load_schedule_end t ar
    ok (schedule_task u, rest)
  load_end_as _ ar _ = fault wrong_task

  unfoldable pub load_end : ℕ → Archive → Task → Exec (Task × Archive)
  unfolding switch
  load_end method ar task = elim (switch admin method) [
    | none ↦ ok (task, ar)
    | some m ↦ load_end_as m ar task
  ]
