-- ===== src/Dispatch.antt =====
-- dtio_chimods/dtiomod/include/dtiomod/dtiomod_lib_exec.h: the virtual functions by which Chimaera
-- reaches a task of the module from its method number. A `Task*` is a value with its class; a cast to
-- another class is undefined behaviour. A method number with no case does nothing.
pub mod Transport
pub mod Methods
pub mod Messages
pub mod Remote
pub mod Copies
use dtio.Prelude.{ℕ, Bool, true, false, Option, none, some, [], ◌==◌, nat_eq, if◌then◌else◌}
use dtio.Prelude.Dict
use dtio.Prelude.Dict.{Dict}
use dtio.Exec.{Exec, ok, fault, wrong_task, guard, ◌>>=◌, ◌>>◌}
use dtio.Libc.{Libc}
use dtio.Server
use dtio.Server.{Server, Env, MonitorMode}
use dtio.Tasks.{
  IoClientType, TaskHeader, CreateTask, DestroyTask, WriteTask, ReadTask, PrefetchTask, MetaPutTask,
  MetaGetTask, ScheduleTask, Task, create_task, destroy_task, write_task, read_task, prefetch_task,
  meta_put_task, meta_get_task, schedule_task, k_write, k_read, k_prefetch, k_meta_put, k_meta_get,
  k_schedule, write_copy_start, read_copy_start, prefetch_copy_start, meta_put_copy_start,
  meta_get_copy_start, schedule_copy_start,
}
use dtio.Tasks.Wire.{
  Archive, save_write_start, load_write_start, save_read_start, load_read_start,
  save_meta_put_start, load_meta_put_start, save_meta_get_start, load_meta_get_start,
  save_meta_get_end, load_meta_get_end, save_schedule_end, load_schedule_end,
}

-- What Chimaera contributes to these functions: the numbers of the methods that every module has,
-- its own two tasks, the header that `CALL_COPY_START` leaves in the copy, the fields of a task that
-- nothing has set yet, and where received bulk data is put.
pub record Admin : Type 0 where
  pub k_create : ℕ
  pub k_destroy : ℕ
  pub copy_create : CreateTask → CreateTask → Bool → CreateTask
  pub copy_destroy : DestroyTask → DestroyTask → Bool → DestroyTask
  pub save_create_start : CreateTask → Archive → Archive
  pub load_create_start : Archive → Exec (CreateTask × Archive)
  pub save_create_end : CreateTask → Archive → Archive
  pub load_create_end : CreateTask → Archive → Exec (CreateTask × Archive)
  pub save_destroy_start : DestroyTask → Archive → Archive
  pub load_destroy_start : Archive → Exec (DestroyTask × Archive)
  pub save_destroy_end : DestroyTask → Archive → Archive
  pub load_destroy_end : DestroyTask → Archive → Exec (DestroyTask × Archive)
  pub copy_header : TaskHeader → TaskHeader → TaskHeader
  pub empty_header : TaskHeader
  pub unset_number : ℕ
  pub unset_interface : IoClientType
  pub unset_flag : Bool
  pub receive : ℕ → ℕ → ℕ

pub data Method : Type 0 where
  create destroy write read prefetch meta_put meta_get schedule : Method

module _ (admin : Admin) where
  -- The number of a method.
  unfoldable pub method_id : Method → ℕ
  method_id create = admin.k_create
  method_id destroy = admin.k_destroy
  method_id write = k_write
  method_id read = k_read
  method_id prefetch = k_prefetch
  method_id meta_put = k_meta_put
  method_id meta_get = k_meta_get
  method_id schedule = k_schedule

  -- The case of a `switch (method)`.
  unfoldable pub switch : ℕ → Option Method
  switch m =
      if m == admin.k_create
      then some create
      else if m == admin.k_destroy
      then some destroy
      else if m == k_write
      then some write
      else if m == k_read
      then some read
      else if m == k_prefetch
      then some prefetch
      else if m == k_meta_put
      then some meta_put
      else if m == k_meta_get
      then some meta_get
      else if m == k_schedule
      then some schedule
      else none

-- Whether the class of a task is that of a method.
abbrev pub is_class : Method → Task → Bool
is_class create (create_task t) = true
is_class destroy (destroy_task t) = true
is_class write (write_task t) = true
is_class read (read_task t) = true
is_class prefetch (prefetch_task t) = true
is_class meta_put (meta_put_task t) = true
is_class meta_get (meta_get_task t) = true
is_class schedule (schedule_task t) = true
is_class _ _ = false

module _ {S : Type 0} (libc : Libc S) where
  abbrev pub run_as : Method → Task → Server → Env S → Exec (Task × Server × Env S)
  run_as create (create_task t) s e = ok (create_task t, Server.create t s, e)
  run_as destroy (destroy_task t) s e = ok (destroy_task t, Server.destroy t s, e)
  run_as write (write_task t) s e = do e' ← Server.write libc t e; ok (write_task t, s, e')
  run_as read (read_task t) s e = do e' ← Server.read libc t e; ok (read_task t, s, e')
  run_as prefetch (prefetch_task t) s e = ok (prefetch_task t, Server.prefetch t s, e)
  run_as meta_put (meta_put_task t) s e =
      let (s', e') = Server.meta_put t s e in ok (meta_put_task t, s', e')
  run_as meta_get (meta_get_task t) s e =
      let (t', e') = Server.meta_get t s e in ok (meta_get_task t', s, e')
  run_as schedule (schedule_task t) s e =
      let (t', s') = Server.schedule t s in ok (schedule_task t', s', e)
  run_as _ _ s e = fault wrong_task

  unfoldable pub run : Admin → ℕ → Task → Server → Env S → Exec (Task × Server × Env S)
  unfolding switch
  run admin method task s e = elim (switch admin method) [
    | none ↦ ok (task, s, e)
    | some m ↦ run_as m task s e
  ]

abbrev pub monitor_as : MonitorMode → Method → Task → Exec Task
monitor_as mode meta_put (meta_put_task t) = ok (meta_put_task (Server.monitor_meta_put mode t))
monitor_as mode meta_get (meta_get_task t) = ok (meta_get_task (Server.monitor_meta_get mode t))
monitor_as mode m t = if is_class m t then ok t else fault wrong_task

module _ (admin : Admin) where
  -- The monitors of the other methods are empty, or only take a reference.
  unfoldable pub monitor : MonitorMode → ℕ → Task → Exec Task
  unfolding switch
  monitor mode method task = elim (switch admin method) [
    | none ↦ ok task
    | some m ↦ monitor_as mode m task
  ]

  -- `Del`: the tasks that exist, by address, without the one that is deleted.
  unfoldable pub del : ℕ → ℕ → Dict ℕ Task → Exec (Dict ℕ Task)
  unfolding switch
  del method p tasks = elim (switch admin method) [
    | none ↦ ok tasks
    | some m ↦ elim (Dict.lookup p tasks) [
      | none ↦ fault wrong_task
      | some t ↦ if is_class m t then ok (Dict.erase p tasks) else fault wrong_task
    ]
  ]

  -- The header that a copy starts from.
  abbrev pub copied : TaskHeader → TaskHeader → TaskHeader
  copied self other = admin.copy_header self other

  abbrev pub copy_as : Method → Task → Task → Bool → Exec Task
  copy_as create (create_task o) (create_task d) deep =
      ok (create_task (admin.copy_create d o deep))
  copy_as destroy (destroy_task o) (destroy_task d) deep =
      ok (destroy_task (admin.copy_destroy d o deep))
  copy_as write (write_task o) (write_task d) deep =
      let d' = record d { header = copied d.header o.header } in
      ok (write_task (write_copy_start d' o deep))
  copy_as read (read_task o) (read_task d) deep =
      let d' = record d { header = copied d.header o.header } in
      ok (read_task (read_copy_start d' o deep))
  copy_as prefetch (prefetch_task o) (prefetch_task d) deep =
      let d' = record d { header = copied d.header o.header } in
      ok (prefetch_task (prefetch_copy_start d' o deep))
  copy_as meta_put (meta_put_task o) (meta_put_task d) deep =
      let d' = record d { header = copied d.header o.header } in
      ok (meta_put_task (meta_put_copy_start d' o deep))
  copy_as meta_get (meta_get_task o) (meta_get_task d) deep =
      let d' = record d { header = copied d.header o.header } in
      ok (meta_get_task (meta_get_copy_start d' o deep))
  copy_as schedule (schedule_task o) (schedule_task d) deep =
      let d' = record d { header = copied d.header o.header } in
      ok (schedule_task (schedule_copy_start d' o deep))
  copy_as _ _ _ deep = fault wrong_task

  -- `CopyStart(method, orig_task, dup_task, deep)`: the duplicate afterwards.
  unfoldable pub copy_start : ℕ → Task → Task → Bool → Exec Task
  unfolding switch
  copy_start method orig dup deep = elim (switch admin method) [
    | none ↦ ok dup
    | some m ↦ copy_as m orig dup deep
  ]
