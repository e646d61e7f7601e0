-- ===== src/Server.antt =====
-- dtio_chimods/dtiomod/src/dtiomod_runtime.cc: one container of the dtiomod pool. A handler reads its
-- task and works on the server and on what its process sees: the kernel, the shared memory and the
-- output. `libc` is the C library of the runtime's process.
pub mod Metamap
pub mod WriteTasks
pub mod ReadTasks
use dtio.Prelude.{
  ℕ, suc, ◌+◌, ◌%◌, Bool, true, false, not, Option, none, some, List, [], ◌∷◌, ◌++◌, Str, codes,
  take, drop, length, leb, nat_beq, if◌then◌else◌, ◌==◌, str_eq, nat_eq,
}
use dtio.Prelude.Int.{ℤ, pos, is_negative, to_word, of_word, word_size}
use dtio.Prelude.Dict
use dtio.Prelude.Dict.{Dict}
use dtio.Exec.{
  Exec, ok, fault, null_stream, bad_buffer, guard, ◌>>=◌, ◌>>◌, Message, chimod_write, didnt_open,
  written_less, read_less, put_done, key_not_found, key_found, strlen_val,
}
use dtio.Metadata.{is_some}
use dtio.Libc.{Libc, rdwr_creat, seek_set}
use dtio.Tasks.{
  IoClientType, k_stdio, k_posix, TaskPrio, DomainQuery, direct_hash, TaskHeader, CreateTask,
  DestroyTask, WriteTask, ReadTask, PrefetchTask, MetaPutTask, MetaGetTask, ScheduleTask,
}

pub record Server : Type 0 where
  pub metamap : Dict Str Str
  pub schedule_num : ℕ

-- Shared-memory buffers by address.
abbrev pub Shm : Type 0
Shm = Dict ℕ (List ℕ)

pub record Env (S : Type 0) : Type 0 where
  pub os : S
  pub shm : Shm
  pub log : List Message

-- The `n` bytes at an address.
unfoldable pub load_bytes : Shm → ℕ → ℕ → Exec (List ℕ)
load_bytes shm p n = elim (Dict.lookup p shm) [
  | none ↦ fault bad_buffer
  | some buf ↦ if leb n (length buf) then ok (take n buf) else fault bad_buffer
]

-- Bytes written to the start of the buffer at an address.
unfoldable pub store_bytes : Shm → ℕ → List ℕ → Exec Shm
store_bytes shm p bytes = elim (Dict.lookup p shm) [
  | none ↦ fault bad_buffer
  | some buf ↦
      if leb (length bytes) (length buf)
      then ok (Dict.insert p (bytes ++ drop (length bytes) buf) shm)
      else fault bad_buffer
]

abbrev note : Bool → Message → List Message → List Message
note on m log = if on then log ++ (m ∷ []) else log

-- `filepath`: the name without a leading `dtio://`.
unfoldable pub file_path : Str → Str
file_path name = if take 7 name == codes "dtio://" then drop 7 name else name

-- `MonitorModeId`: the two modes that the program names, and any other.
pub data MonitorMode : Type 0 where
  k_replica_agg k_schedule_mode other_mode : MonitorMode

unfoldable pub create : CreateTask → Server → Server
create task s = record s { schedule_num = 0 }

unfoldable pub destroy : DestroyTask → Server → Server
destroy task s = s

-- The lane that Chimaera's `GetLaneByHash` chooses from the group, the priority and the hash.
unfoldable pub map_task_to_lane {ℓ} :
    {Lane : Type ℓ} → (ℕ → TaskPrio → ℕ → Lane) → TaskHeader → Lane
map_task_to_lane get_lane_by_hash h = get_lane_by_hash 0 h.prio 0

module _ {S : Type 0} (libc : Libc S) where
  write_posix : WriteTask → Str → Env S → Exec (Env S)
  write_posix task path e = do
    let (fd, os₁) = libc.open64_mode path rdwr_creat 0o664 e.os
    let log₁ = note (is_negative fd) (didnt_open path) e.log
    let (at, os₂) = libc.lseek64 fd (of_word task.data_offset) seek_set os₁
    bytes ← load_bytes e.shm task.data_ptr task.data_size
    let (count, os₃) = libc.write fd bytes os₂
    let log₂ = if to_word count == task.data_size then log₁ else log₁ ++ (written_less count ∷ [])
    ok (record e { os = os₃; log = log₂ })

  write_stdio : WriteTask → Str → Env S → Exec (Env S)
  write_stdio task path e = do
    let (fp, os₁) = libc.fopen path (codes "rw+") e.os
    guard (not (fp == 0)) null_stream
    let (at, os₂) = libc.fseek fp (of_word task.data_offset) seek_set os₁
    bytes ← load_bytes e.shm task.data_ptr task.data_size
    let (count, os₃) = libc.fwrite bytes 1 task.data_size fp os₂
    let log₂ = if count == task.data_size then e.log else e.log ++ (written_less (pos count) ∷ [])
    ok (record e { os = os₃; log = log₂ })

  -- `switch (task->iface_)`
  write_by : IoClientType → WriteTask → Str → Env S → Exec (Env S)
  unfolding write_posix write_stdio
  write_by k_posix task path e = write_posix task path e
  write_by k_stdio task path e = write_stdio task path e
  write_by _ task path e = ok e

  unfoldable pub write : WriteTask → Env S → Exec (Env S)
  unfolding write_by file_path
  write task e =
      let e₁ = record e { log = e.log ++ (chimod_write ∷ []) } in
      write_by task.iface task (file_path task.filename) e₁

  read_posix : ReadTask → Str → Env S → Exec (Env S)
  read_posix task path e = do
    let (fd, os₁) = libc.open64_mode path rdwr_creat 0o664 e.os
    let log₁ = note (is_negative fd) (didnt_open path) e.log
    let (at, os₂) = libc.lseek64 fd (of_word task.data_offset) seek_set os₁
    let (count, bytes, os₃) = libc.read fd task.data_size os₂
    shm ← store_bytes e.shm task.data_ptr bytes
    let log₂ = if to_word count == task.data_size then log₁ else log₁ ++ (read_less count ∷ [])
    ok (record { os = os₃; shm = shm; log = log₂ })

  read_stdio : ReadTask → Str → Env S → Exec (Env S)
  read_stdio task path e = do
    let (fp, os₁) = libc.fopen path (codes "rw+") e.os
    guard (not (fp == 0)) null_stream
    let (at, os₂) = libc.fseek fp (of_word task.data_offset) seek_set os₁
    let (count, bytes, os₃) = libc.fread 1 task.data_size fp os₂
    shm ← store_bytes e.shm task.data_ptr bytes
    let log₂ = if count == task.data_size then e.log else e.log ++ (read_less (pos count) ∷ [])
    ok (record { os = os₃; shm = shm; log = log₂ })

  -- `switch (task->iface_)`
  read_by : IoClientType → ReadTask → Str → Env S → Exec (Env S)
  unfolding read_posix read_stdio
  read_by k_posix task path e = read_posix task path e
  read_by k_stdio task path e = read_stdio task path e
  read_by _ task path e = ok e

  unfoldable pub read : ReadTask → Env S → Exec (Env S)
  unfolding read_by file_path
  read task e = read_by task.iface task (file_path task.filename) e

unfoldable pub prefetch : PrefetchTask → Server → Server
prefetch task s = s

-- `GetDirectHash(kGlobalContainers, 0)`, `SetDirect` and `UnsetRouted`.
unfoldable pub io_route : TaskHeader → TaskHeader
io_route h = record h { dom_query = direct_hash (pos 0); direct = true; routed = false }

module _ {S : Type 0} where
  unfoldable pub meta_put : MetaPutTask → Server → Env S → Server × Env S
  meta_put task s e = (
    record s { metamap = Dict.insert task.key task.val s.metamap },
    record e { log = e.log ++ (put_done ∷ []) },
  )

  unfoldable pub meta_get : MetaGetTask → Server → Env S → MetaGetTask × Env S
  meta_get task s e = elim (Dict.lookup task.key s.metamap) [
    | none ↦ (record task { presence = false }, record e { log = e.log ++ (key_not_found ∷ []) })
    | some val ↦ (
      record task { presence = true; val = val },
      record e { log = e.log ++ (key_found ∷ strlen_val (length val) ∷ []) },
    )
  ]

-- A `case` without a `break` runs into the next.
unfoldable pub monitor_meta_put : MonitorMode → MetaPutTask → MetaPutTask
unfolding io_route
monitor_meta_put k_replica_agg task = record task { header = io_route task.header }
monitor_meta_put k_schedule_mode task = record task { header = io_route task.header }
monitor_meta_put other_mode task = task

unfoldable pub monitor_meta_get : MonitorMode → MetaGetTask → MetaGetTask
unfolding io_route
monitor_meta_get k_replica_agg task = record task { header = io_route task.header }
monitor_meta_get k_schedule_mode task = record task { header = io_route task.header }
monitor_meta_get other_mode task = task

-- `schedule_num++` on a `size_t`.
unfoldable pub schedule : ScheduleTask → Server → ScheduleTask × Server
schedule task s = (
  record task { schedule_num = s.schedule_num },
  record s { schedule_num = (s.schedule_num + 1) % word_size },
)
