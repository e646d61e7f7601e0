-- ===== src/Client/Runs.antt =====
-- The calls of dtio_chimods/dtiomod/include/dtiomod/dtiomod_client.h over a runtime that behaves as
-- the code expects: each is a run of the handler in the container that its query names.
use dtio.Prelude.{
  ℕ, ◌+◌, ◌%◌, ◌≡◌, refl, ap, sym, ◌∙◌, ◌&&◌, ◌∷◌, ◌++◌, Bool, true, false, Option, none, some, [],
  Str, nat_beq, nat_eq, str_eq, if◌then◌else◌, ◌==◌, arith,
}
use dtio.Prelude.Int.{pos, to_int32, word_size}
use dtio.Prelude.Dict
use dtio.Exec.{Exec, ok, put_done, ◌>>=◌}
use dtio.Libc.{Libc}
use dtio.Server
use dtio.Server.{Server, Env, k_schedule_mode, io_route}
use dtio.Server.Metamap.{meta_get_lem}
use dtio.Dispatch.{
  Method, write, read, meta_put, meta_get, schedule, method_id, run_as, monitor, monitor_as,
}
use dtio.Dispatch.Methods.{run_case, monitor_case}
use dtio.Chimaera.{World, Chimaera, IsLawful, run_in, with_server, scheduled, NamesOne}
use dtio.Client
use dtio.Client.{Client}
use dtio.Tasks.{
  IoClientType, DomainQuery, direct_hash, WriteTask, ReadTask, MetaPutTask, MetaGetTask,
  meta_put_task, meta_get_task, Task, write_task, read_task, new_write_task, new_read_task,
  new_meta_put_task, new_meta_get_task, header_of,
}

module _ {S : Type 0} (libc : Libc S) (chi : Chimaera S) (lawful : IsLawful libc chi)
    (c : Client) where
  -- The next number of the container that answers a query.
  abbrev pub ticket : DomainQuery → World S → ℕ
  ticket dom_query w = (w.servers (chi.container_of dom_query)).schedule_num

  -- The world after a number was taken.
  abbrev pub ticketed : DomainQuery → World S → World S
  ticketed dom_query w =
      let i = chi.container_of dom_query in
      let s = w.servers i in
      with_server w i (record s { schedule_num = (s.schedule_num + 1) % word_size })

  -- A task whose monitor leaves it alone is placed as it is.
  pub scheduled_same :
      (m : Method) (task : Task)
      → (header_of task).method ≡ method_id chi.admin m
      → monitor_as k_schedule_mode m task ≡ ok task
      → scheduled chi task ≡ ok task
  unfolding scheduled
  scheduled_same m task h e = by (chi.schedules (header_of task).dom_query)
    where
      by :
          (b : Bool)
          → (if b then monitor chi.admin k_schedule_mode (header_of task).method task else ok task)
            ≡ ok task
      by true = rw h (monitor_case chi.admin lawful.numbered m k_schedule_mode task ∙ e)
      by false = refl

  -- A task that is placed in one container is run there.
  submit_placed :
      (m : Method) (task placed : Task) (w : World S)
      → scheduled chi task ≡ ok placed
      → NamesOne (header_of placed).dom_query
      → (header_of placed).method ≡ method_id chi.admin m
      → chi.submit task w ≡ (
          let i = chi.container_of (header_of placed).dom_query in
          do
            (task', s', e') ← run_as libc m placed (w.servers i) w.env
            ok (task', record (with_server w i s') { env = e' }))
  unfolding run_in
  submit_placed m task placed w e one h =
      lawful.submit-run_in task placed w e one
      ∙ rw e (rw h (rw (run_case chi.admin lawful.numbered m libc)))

  submit_case :
      (m : Method) (task : Task) (w : World S)
      → (header_of task).method ≡ method_id chi.admin m
      → monitor_as k_schedule_mode m task ≡ ok task
      → NamesOne (header_of task).dom_query
      → chi.submit task w ≡ (
          let i = chi.container_of (header_of task).dom_query in
          do
            (task', s', e') ← run_as libc m task (w.servers i) w.env
            ok (task', record (with_server w i s') { env = e' }))
  submit_case m task w h e one = submit_placed m task task w (scheduled_same m task h e) one h

  pub schedule_lem :
      (dom_query : DomainQuery) (w : World S)
      → NamesOne dom_query
      → Client.schedule chi c dom_query w ≡ ok (to_int32 (ticket dom_query w), ticketed dom_query w)
  unfolding Client.schedule Server.schedule method_id
  schedule_lem dom_query w one = rw (submit_case schedule _ w refl refl one)

  -- Where file tasks ask for their number.
  abbrev first : DomainQuery
  first = direct_hash (pos 0)

  -- The tasks that `Write` and `Read` submit.
  module _ (data_ptr size offset : ℕ) (name : Str) (iface : IoClientType) (w : World S) where
    abbrev pub sent_write : WriteTask
    sent_write =
        new_write_task chi.base_header (chi.task_node (ticketed first w)) c.id
          (direct_hash (to_int32 (ticket first w))) data_ptr size offset name iface

    abbrev pub sent_read : ReadTask
    sent_read =
        new_read_task chi.base_header (chi.task_node (ticketed first w)) c.id
          (direct_hash (to_int32 (ticket first w))) data_ptr size offset name iface

    -- The world after both tasks, if the second left `e'`.
    abbrev after_file_task : Env S → World S
    after_file_task e' =
        let w₁ = ticketed first w in
        let i = chi.container_of (direct_hash (to_int32 (ticket first w))) in
        record (with_server w₁ i (w₁.servers i)) { env = e' }

    -- `Write` and `Read` complete when the handler does, in its environment; the tables of the
    -- application stay as they were.
    pub write_runs :
        (e' : Env S)
        → Server.write libc sent_write w.env ≡ ok e'
        → (w' : World S) × (Client.write chi c data_ptr size offset name iface w ≡ ok w')
          × (w'.env ≡ e')
          × (w'.meta ≡ w.meta)
    unfolding Client.write method_id new_write_task
    write_runs e' h = (
      after_file_task e',
      rw (schedule_lem first w tt)
          (rw (submit_case write (write_task sent_write) (ticketed first w) refl refl tt, h)),
      refl,
      refl,
    )

    pub read_runs :
        (e' : Env S)
        → Server.read libc sent_read w.env ≡ ok e'
        → (w' : World S) × (Client.read chi c data_ptr size offset name iface w ≡ ok w')
          × (w'.env ≡ e')
          × (w'.meta ≡ w.meta)
    unfolding Client.read method_id new_read_task
    read_runs e' h = (
      after_file_task e',
      rw (schedule_lem first w tt)
          (rw (submit_case read (read_task sent_read) (ticketed first w) refl refl tt, h)),
      refl,
      refl,
    )

  -- What `MetaGet` answers, without the world after it.
  abbrev pub answer_of : Exec ((Bool × Str) × World S) → Exec (Bool × Str)
  answer_of r = do (answer, w') ← r; ok answer

  abbrev found : Option Str → Bool × Str
  found none = (false, [])
  found (some v) = (true, v)

  abbrev entry : DomainQuery → Str → World S → Option Str
  entry dom_query key w = Dict.lookup key (w.servers (chi.container_of dom_query)).metamap

  -- The query by which a metadata task is placed: its own, or that of the monitor, which sends it to the
  -- container with hash 0.
  abbrev query_by : Bool → DomainQuery → DomainQuery
  query_by true q = direct_hash (pos 0)
  query_by false q = q

  abbrev pub placed_query : DomainQuery → DomainQuery
  placed_query q = query_by (chi.schedules q) q

  scheduled_put :
      (t : MetaPutTask) (b : Bool)
      → t.header.method ≡ method_id chi.admin meta_put
      → chi.schedules t.header.dom_query ≡ b
      → scheduled chi (meta_put_task t)
        ≡ ok (meta_put_task (if b then record t { header = io_route t.header } else t))
  unfolding scheduled Server.monitor_meta_put
  scheduled_put t true h e = rw e (
      ap (λ n. monitor chi.admin k_schedule_mode n (meta_put_task t)) h
      ∙ monitor_case chi.admin lawful.numbered meta_put k_schedule_mode (meta_put_task t))
  scheduled_put t false h e = rw e refl

  scheduled_get :
      (t : MetaGetTask) (b : Bool)
      → t.header.method ≡ method_id chi.admin meta_get
      → chi.schedules t.header.dom_query ≡ b
      → scheduled chi (meta_get_task t)
        ≡ ok (meta_get_task (if b then record t { header = io_route t.header } else t))
  unfolding scheduled Server.monitor_meta_get
  scheduled_get t true h e = rw e (
      ap (λ n. monitor chi.admin k_schedule_mode n (meta_get_task t)) h
      ∙ monitor_case chi.admin lawful.numbered meta_get k_schedule_mode (meta_get_task t))
  scheduled_get t false h e = rw e refl

  -- The tasks that `MetaPut` and `MetaGet` submit.
  abbrev sent_put : DomainQuery → Str → Str → World S → MetaPutTask
  sent_put q key val w = new_meta_put_task chi.base_header (chi.task_node w) c.id q key val

  abbrev sent_get : DomainQuery → Str → World S → MetaGetTask
  sent_get q key w = new_meta_get_task chi.base_header (chi.task_node w) c.id q key

  meta_get_by :
      (q : DomainQuery) (key : Str) (w : World S) (b : Bool) (o : Option Str)
      → chi.schedules q ≡ b
      → NamesOne (query_by b q)
      → entry (query_by b q) key w ≡ o
      → answer_of (Client.meta_get chi c q key w) ≡ ok (found o)
  unfolding Client.meta_get method_id new_meta_get_task io_route
  meta_get_by q key w true none e one h =
      rw (submit_placed meta_get _ _ w (scheduled_get (sent_get q key w) true refl e) one refl)
        (ap {A = MetaGetTask × Env S} (λ r. ok (r.0.presence, r.0.val)) (meta_get_lem _ _ _ none h))
  meta_get_by q key w true (some v) e one h =
      rw (submit_placed meta_get _ _ w (scheduled_get (sent_get q key w) true refl e) one refl) (
        ap {A = MetaGetTask × Env S} (λ r. ok (r.0.presence, r.0.val))
          (meta_get_lem _ _ _ (some v) h))
  meta_get_by q key w false none e one h =
      rw (submit_placed meta_get _ _ w (scheduled_get (sent_get q key w) false refl e) one refl)
        (ap {A = MetaGetTask × Env S} (λ r. ok (r.0.presence, r.0.val)) (meta_get_lem _ _ _ none h))
  meta_get_by q key w false (some v) e one h =
      rw (submit_placed meta_get _ _ w (scheduled_get (sent_get q key w) false refl e) one refl) (
        ap {A = MetaGetTask × Env S} (λ r. ok (r.0.presence, r.0.val))
          (meta_get_lem _ _ _ (some v) h))

  meta_get_entry :
      (q : DomainQuery) (key : Str) (w : World S)
      → NamesOne (placed_query q)
      → answer_of (Client.meta_get chi c q key w) ≡ ok (found (entry (placed_query q) key w))
  meta_get_entry q key w one =
      meta_get_by q key w (chi.schedules q) (entry (placed_query q) key w) refl one refl

  -- The world after `MetaPut` in the container that a query names.
  abbrev put_world : DomainQuery → Str → Str → World S → World S
  put_world q key val w =
      let i = chi.container_of q in
      let s = w.servers i in
      record (with_server w i (record s { metamap = Dict.insert key val s.metamap })) {
        env = record w.env { log = w.env.log ++ (put_done ∷ []) };
      }

  meta_put_by :
      (q : DomainQuery) (key val : Str) (w : World S) (b : Bool)
      → chi.schedules q ≡ b
      → NamesOne (query_by b q)
      → Client.meta_put chi c q key val w ≡ ok (put_world (query_by b q) key val w)
  unfolding Client.meta_put method_id new_meta_put_task Server.meta_put io_route
  meta_put_by q key val w true e one =
      rw (submit_placed meta_put _ _ w (scheduled_put (sent_put q key val w) true refl e) one refl)
        refl
  meta_put_by q key val w false e one =
      rw (submit_placed meta_put _ _ w (scheduled_put (sent_put q key val w) false refl e) one refl)
        refl

  entry-put_world :
      (put_query get_query : DomainQuery) (key k val : Str) (w : World S)
      → entry get_query k (put_world put_query key val w) ≡ (
          if nat_beq (chi.container_of put_query) (chi.container_of get_query) && key == k
          then some val
          else entry get_query k w)
  entry-put_world put_query get_query key k val w =
      ground (arith, Dict.lookup-insert k key val (w.servers (chi.container_of put_query)).metamap)

  -- `MetaPut` completes where its task is placed in one container. A later `MetaGet` that is placed in
  -- the same container and has the same key answers that the key is present, with the value that was
  -- put; any other that is placed in one container answers as it would have answered before. A task
  -- that the runtime has placed by its monitor goes to the container with hash 0, and any other to the
  -- one that its query names.
  pub meta_get-meta_put :
      (put_query get_query : DomainQuery) (key k val : Str) (w : World S)
      → NamesOne (placed_query put_query)
      → NamesOne (placed_query get_query)
      → (w' : World S) × (Client.meta_put chi c put_query key val w ≡ ok w')
        × (answer_of (Client.meta_get chi c get_query k w') ≡ (
            if nat_beq
                (chi.container_of (placed_query put_query))
                (chi.container_of (placed_query get_query))
              && key == k
            then ok (true, val)
            else answer_of (Client.meta_get chi c get_query k w)))
  meta_get-meta_put put_query get_query key k val w put_one get_one = (
    put_world (placed_query put_query) key val w,
    meta_put_by put_query key val w (chi.schedules put_query) refl put_one,
    meta_get_entry get_query k (put_world (placed_query put_query) key val w) get_one
        ∙ (ap (λ o. ok (found o))
              (entry-put_world (placed_query put_query) (placed_query get_query) key k val w)
            ∙ if_found (
                nat_beq (chi.container_of (placed_query put_query))
                  (chi.container_of (placed_query get_query))
                && key == k)),
  )
    where
      if_found :
          (b : Bool)
          → ok (found (if b then some val else entry (placed_query get_query) k w))
            ≡ (if b then ok (true, val) else answer_of (Client.meta_get chi c get_query k w))
      if_found true = refl
      if_found false = sym (meta_get_entry get_query k w get_one)
