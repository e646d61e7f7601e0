-- ===== src/Chimaera.antt =====
-- The program's view of Chimaera, which runs the tasks: the state of both processes, and what the
-- code relies on when it submits a task or allocates a shared buffer.
use dtio.Prelude.{ℕ, ◌≡◌, Bool, List, length, nat_beq, nat_eq, if◌then◌else◌}
use dtio.Prelude.Dict
use dtio.Exec.{Exec, ok, ◌>>=◌}
use dtio.Metadata.{ClientMetadataManager}
use dtio.Libc.{Libc}
use dtio.Server.{Server, Env, Shm, k_schedule_mode}
use dtio.Tasks.{DomainQuery, direct_hash, global_bcast, TaskHeader, Task, header_of}
use dtio.Dispatch.{Admin, run, monitor}
use dtio.Dispatch.Methods.{IsNumbered}

-- The containers of the dtiomod pool, what their process sees, and the tables of the application.
pub record World (S : Type 0) : Type 0 where
  pub servers : ℕ → Server
  pub env : Env S
  pub meta : ClientMetadataManager

-- What the code calls, and how Chimaera places a task: whether it has a task with a query placed by the
-- monitor of its method, and which container a query names. `submit` makes a task known to the runtime
-- and waits until it is complete; the task comes back with its `OUT` fields. Tasks are values here, so `DelTask` has nothing to remove.
pub record Chimaera (S : Type 0) : Type 0 where
  pub admin : Admin
  pub container_of : DomainQuery → ℕ
  pub schedules : DomainQuery → Bool
  pub task_node : World S → ℕ
  pub base_header : TaskHeader
  pub submit : Task → World S → Exec (Task × World S)
  pub allocate_buffer : ℕ → World S → ℕ × World S
  pub free_buffer : ℕ → World S → World S

-- A query that names one container.
abbrev pub NamesOne : DomainQuery → Type 0
NamesOne (direct_hash h) = Unit
NamesOne global_bcast = ⊥

module _ {S : Type 0} where
  abbrev pub with_server : World S → ℕ → Server → World S
  with_server w i s = record w { servers = λ j. if nat_beq i j then s else w.servers j }

  abbrev pub with_os : World S → S → World S
  with_os w os = record w { env = record w.env { os = os } }

  abbrev pub with_shm : World S → Shm → World S
  with_shm w shm = record w { env = record w.env { shm = shm } }

  -- The task as it is placed: the monitor of its method may give it another query.
  unfoldable pub scheduled : Chimaera S → Task → Exec Task
  scheduled chi task =
      let h = header_of task in
      if chi.schedules h.dom_query then monitor chi.admin k_schedule_mode h.method task else ok task

  -- `Run` in the container that the domain query of the placed task names.
  unfoldable pub run_in : Libc S → Chimaera S → Task → World S → Exec (Task × World S)
  unfolding scheduled
  run_in libc chi task w = do
    placed ← scheduled chi task
    let h = header_of placed
    let i = chi.container_of h.dom_query
    (task', s', e') ← run libc chi.admin h.method placed (w.servers i) w.env
    ok (task', record (with_server w i s') { env = e' })

  -- A submitted task that is placed in one container is run once, there, before `Wait` returns; of
  -- broadcasts nothing is said. A buffer is a block of the requested size with unknown contents, and is
  -- gone once it is freed. The methods that every module has are numbered apart, below those of dtiomod.
  pub record IsLawful (libc : Libc S) (chi : Chimaera S) : Type 0 where
    pub submit-run_in :
        (task placed : Task) (w : World S)
        → scheduled chi task ≡ ok placed
        → NamesOne (header_of placed).dom_query
        → chi.submit task w ≡ run_in libc chi task w
    pub numbered : IsNumbered chi.admin
    pub initial : ℕ → World S → List ℕ
    pub length-initial : (n : ℕ) (w : World S) → length (initial n w) ≡ n
    pub allocate_buffer-insert :
        (n : ℕ) (w : World S)
        → (chi.allocate_buffer n w).1
          ≡ with_shm w (Dict.insert (chi.allocate_buffer n w).0 (initial n w) w.env.shm)
    pub free_buffer-erase :
        (p : ℕ) (w : World S) → chi.free_buffer p w ≡ with_shm w (Dict.erase p w.env.shm)
