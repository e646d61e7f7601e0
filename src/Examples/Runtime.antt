-- ===== src/Examples/Runtime.antt =====
-- A small runtime over the kernel in memory: it runs a task where it is submitted, and gives out
-- buffers at increasing addresses. It stands for Chimaera in the examples.
use dtio.Prelude.{
  ℕ, ◌+◌, ◌%◌, refl, arith, Bool, true, false, [], length, replicate, length-replicate, nat_eq,
}
use dtio.Prelude.Int.{to_word}
use dtio.Prelude.Dict
use dtio.Exec.{ok}
use dtio.Metadata.{client_metadata_manager}
use dtio.Tasks.{
  k_posix, low_latency, DomainQuery, direct_hash, global_bcast, TaskHeader, CreateTask, DestroyTask,
}
use dtio.Dispatch.{Admin}
use dtio.Dispatch.Methods.{IsNumbered}
use dtio.Chimaera.{World, Chimaera, IsLawful, run_in, with_shm}
use dtio.Client.{Client}
use dtio.Examples.Disk.{Disk, empty_disk, disk}

abbrev pub blank_header : TaskHeader
blank_header = record {
  task_node = 0;
  prio = low_latency;
  pool = 0;
  method = 0;
  dom_query = global_bcast;
  data_owner = true;
  direct = false;
  routed = true;
}

abbrev blank_create : CreateTask
blank_create = record { header = blank_header; params = record { dtiomod_id = 0 } }

abbrev blank_destroy : DestroyTask
blank_destroy = record { header = blank_header }

-- Bulk data is received at the address it had.
abbrev pub admin : Admin
admin = record {
  k_create = 0;
  k_destroy = 1;
  copy_create = λ self other deep. other;
  copy_destroy = λ self other deep. other;
  save_create_start = λ t ar. ar;
  load_create_start = λ ar. ok (blank_create, ar);
  save_create_end = λ t ar. ar;
  load_create_end = λ t ar. ok (t, ar);
  save_destroy_start = λ t ar. ar;
  load_destroy_start = λ ar. ok (blank_destroy, ar);
  save_destroy_end = λ t ar. ar;
  load_destroy_end = λ t ar. ok (t, ar);
  copy_header = λ self other. other;
  empty_header = blank_header;
  unset_number = 77;
  unset_interface = k_posix;
  unset_flag = true;
  receive = λ p n. p;
}

pub admin-IsNumbered : IsNumbered admin
admin-IsNumbered = record {
  k_create-lt = omega arith;
  k_destroy-lt = omega arith;
  k_create-ne = λ h. omega arith;
}

-- Four containers.
abbrev container_of : DomainQuery → ℕ
container_of (direct_hash h) = to_word h % 4
container_of global_bcast = 0

-- Tasks for all containers are placed by their monitors.
abbrev is_bcast : DomainQuery → Bool
is_bcast (direct_hash h) = false
is_bcast global_bcast = true

abbrev next_address : World Disk → ℕ
next_address w = 1000 + length w.env.shm

abbrev routes : Chimaera Disk
routes = record {
  admin = admin;
  container_of = container_of;
  schedules = λ q. is_bcast q;
  task_node = λ w. 0;
  base_header = blank_header;
  submit = λ task w. ok (task, w);
  allocate_buffer =
      λ n w. let p = next_address w in (p, with_shm w (Dict.insert p (replicate n 0) w.env.shm));
  free_buffer = λ p w. with_shm w (Dict.erase p w.env.shm);
}

abbrev pub runtime : Chimaera Disk
runtime = record routes { submit = run_in disk routes }

pub runtime-IsLawful : IsLawful disk runtime
unfolding run_in
runtime-IsLawful = record {
  submit-run_in = λ task placed w e one. refl;
  numbered = admin-IsNumbered;
  initial = λ n w. replicate n 0;
  length-initial = λ n w. length-replicate n 0;
  allocate_buffer-insert = λ n w. refl;
  free_buffer-erase = λ p w. refl;
}

abbrev pub client : Client
client = record { id = 5 }

abbrev pub empty_world : World Disk
empty_world = record {
  servers = λ i. record { metamap = []; schedule_num = 0 };
  env = record { os = empty_disk; shm = []; log = [] };
  meta = client_metadata_manager;
}
