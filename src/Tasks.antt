-- ===== src/Tasks.antt =====
-- dtio_chimods/dtiomod/include/dtiomod/dtiomod_tasks.h: the tasks, their constructors and `CopyStart`.
pub mod Wire
use dtio.Prelude.{ℕ, Bool, false, Str, [], if◌then◌else◌}
use dtio.Prelude.Int.{ℤ}

-- include/dtio/dtio_enumerations.h
pub data IoClientType : Type 0 where
  k_stdio k_posix k_hdf5 k_uring k_multi : IoClientType

pub data TaskPrio : Type 0 where
  low_latency high_latency : TaskPrio

-- The domain queries that the program builds; Chimaera resolves them.
pub data DomainQuery : Type 0 where
  direct_hash : ℤ → DomainQuery
  global_bcast : DomainQuery

-- The fields of Chimaera's `Task` that the program sets. `data_owner`, `direct` and `routed` stand for
-- the flags behind `UnsetDataOwner`, `SetDirect` and `UnsetRouted`.
pub record TaskHeader : Type 0 where
  pub task_node : ℕ
  pub prio : TaskPrio
  pub pool : ℕ
  pub method : ℕ
  pub dom_query : DomainQuery
  pub data_owner : Bool
  pub direct : Bool
  pub routed : Bool

-- struct Method of dtiomod_methods.h
abbrev pub k_write : ℕ
k_write = 10

abbrev pub k_read : ℕ
k_read = 11

abbrev pub k_prefetch : ℕ
k_prefetch = 12

abbrev pub k_meta_put : ℕ
k_meta_put = 13

abbrev pub k_meta_get : ℕ
k_meta_get = 14

abbrev pub k_schedule : ℕ
k_schedule = 15

pub record CreateTaskParams : Type 0 where
  pub dtiomod_id : ℕ

-- Chimaera's `CreatePoolBaseTask<CreateTaskParams>` and `DestroyContainerTask`.
pub record CreateTask : Type 0 where
  pub header : TaskHeader
  pub params : CreateTaskParams

pub record DestroyTask : Type 0 where
  pub header : TaskHeader

pub record WriteTask : Type 0 where
  pub header : TaskHeader
  pub data_ptr : ℕ
  pub data_offset : ℕ
  pub data_size : ℕ
  pub filename : Str
  pub iface : IoClientType

pub record ReadTask : Type 0 where
  pub header : TaskHeader
  pub data_ptr : ℕ
  pub data_offset : ℕ
  pub data_size : ℕ
  pub filename : Str
  pub iface : IoClientType

pub record PrefetchTask : Type 0 where
  pub header : TaskHeader

pub record MetaPutTask : Type 0 where
  pub header : TaskHeader
  pub key : Str
  pub val : Str

pub record MetaGetTask : Type 0 where
  pub header : TaskHeader
  pub key : Str
  pub val : Str
  pub presence : Bool

pub record ScheduleTask : Type 0 where
  pub header : TaskHeader
  pub schedule_num : ℕ

-- A `Task*` and the class of what it points to.
pub data Task : Type 0 where
  create_task : CreateTask → Task
  destroy_task : DestroyTask → Task
  write_task : WriteTask → Task
  read_task : ReadTask → Task
  prefetch_task : PrefetchTask → Task
  meta_put_task : MetaPutTask → Task
  meta_get_task : MetaGetTask → Task
  schedule_task : ScheduleTask → Task

abbrev pub header_of : Task → TaskHeader
header_of (create_task t) = t.header
header_of (destroy_task t) = t.header
header_of (write_task t) = t.header
header_of (read_task t) = t.header
header_of (prefetch_task t) = t.header
header_of (meta_put_task t) = t.header
header_of (meta_get_task t) = t.header
header_of (schedule_task t) = t.header

-- The emplace constructors. `base` is what Chimaera's `Task(alloc)` leaves; setting no bits of
-- `task_flags_` changes nothing.
module _ (base : TaskHeader) (task_node pool_id : ℕ) (dom_query : DomainQuery) where
  abbrev new_header : TaskPrio → ℕ → TaskHeader
  new_header prio method = record base {
    task_node = task_node;
    prio = prio;
    pool = pool_id;
    method = method;
    dom_query = dom_query;
  }

  unfoldable pub new_write_task : ℕ → ℕ → ℕ → Str → IoClientType → WriteTask
  new_write_task data_ptr data_size data_offset filename iface = record {
    header = new_header high_latency k_write;
    data_ptr = data_ptr;
    data_offset = data_offset;
    data_size = data_size;
    filename = filename;
    iface = iface;
  }

  unfoldable pub new_read_task : ℕ → ℕ → ℕ → Str → IoClientType → ReadTask
  new_read_task data_ptr data_size data_offset filename iface = record {
    header = new_header low_latency k_read;
    data_ptr = data_ptr;
    data_offset = data_offset;
    data_size = data_size;
    filename = filename;
    iface = iface;
  }

  unfoldable pub new_prefetch_task : PrefetchTask
  new_prefetch_task = record { header = new_header low_latency k_prefetch }

  unfoldable pub new_meta_put_task : Str → Str → MetaPutTask
  new_meta_put_task key val = record {
    header = new_header low_latency k_meta_put;
    key = key;
    val = val;
  }

  unfoldable pub new_meta_get_task : Str → MetaGetTask
  new_meta_get_task key = record {
    header = new_header low_latency k_meta_get;
    key = key;
    val = [];
    presence = false;
  }

  -- `schedule_num_` is not initialised: its value is an argument.
  unfoldable pub new_schedule_task : ℕ → ScheduleTask
  new_schedule_task uninitialised = record {
    header = new_header low_latency k_schedule;
    schedule_num = uninitialised;
  }

abbrev unset_data_owner : TaskHeader → TaskHeader
unset_data_owner h = record h { data_owner = false }

abbrev disowned : Bool → TaskHeader → TaskHeader
disowned deep h = if deep then h else unset_data_owner h

-- `self.CopyStart(other, deep)`
unfoldable pub write_copy_start : WriteTask → WriteTask → Bool → WriteTask
write_copy_start self other deep = record {
  header = disowned deep self.header;
  data_ptr = other.data_ptr;
  data_offset = other.data_offset;
  data_size = other.data_size;
  filename = other.filename;
  iface = other.iface;
}

unfoldable pub read_copy_start : ReadTask → ReadTask → Bool → ReadTask
read_copy_start self other deep = record {
  header = disowned deep self.header;
  data_ptr = other.data_ptr;
  data_offset = other.data_offset;
  data_size = other.data_size;
  filename = other.filename;
  iface = other.iface;
}

unfoldable pub prefetch_copy_start : PrefetchTask → PrefetchTask → Bool → PrefetchTask
prefetch_copy_start self other deep = self

unfoldable pub meta_put_copy_start : MetaPutTask → MetaPutTask → Bool → MetaPutTask
meta_put_copy_start self other deep = record {
  header = disowned deep self.header;
  key = other.key;
  val = other.val;
}

unfoldable pub meta_get_copy_start : MetaGetTask → MetaGetTask → Bool → MetaGetTask
meta_get_copy_start self other deep = record {
  header = disowned deep self.header;
  key = other.key;
  val = other.val;
  presence = other.presence;
}

unfoldable pub schedule_copy_start : ScheduleTask → ScheduleTask → Bool → ScheduleTask
schedule_copy_start self other deep = record self { schedule_num = other.schedule_num }
