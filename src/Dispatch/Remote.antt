-- ===== src/Dispatch/Remote.antt =====
-- A task that is run in another process: it is saved and loaded
-- (dtio_chimods/dtiomod/include/dtiomod/dtiomod_lib_exec.h), run there, and its results are saved and
-- loaded back into the task that waits.
use dtio.Prelude.{◌≡◌, refl, ap, ◌∙◌, false, Option, none, some, [], ◌++◌, Str, str_eq, sym}
use dtio.Prelude.Dict
use dtio.Exec.{Exec, ok, fault, wrong_task, ◌>>=◌}
use dtio.Dispatch.{
  Admin, Method, write, read, prefetch, meta_put, meta_get, schedule, method_id, run, run_as,
}
use dtio.Dispatch.Methods.{
  IsNumbered, save_start_case, load_start_case, save_end_case, load_end_case, run_case,
}
use dtio.Dispatch.Transport.{empty_meta_get, save_start, load_start, save_end, load_end}
use dtio.Libc.{Libc}
use dtio.Server
use dtio.Server.Metamap.{answered, answer_log, meta_get_lem}
use dtio.Server.{Server, Env}
use dtio.Tasks.{WriteTask, ReadTask, MetaGetTask, Task, write_task, read_task, meta_get_task}
use dtio.Tasks.Wire.{
  Archive, save_write_start, load_write_start, save_read_start, load_read_start,
  save_meta_put_start, load_meta_put_start, save_meta_get_start, load_meta_get_start,
  save_meta_get_end, load_meta_get_end, save_schedule_end, load_schedule_end,
}
use dtio.Dispatch.Messages.{
  arrived_write, arrived_read, method_of, IsOwn, own_write, own_read, own_prefetch, own_meta_put,
  own_meta_get, own_schedule, returned,
}

abbrev loaded : Option Task × Archive → Exec Task
loaded (none, ar) = fault wrong_task
loaded (some t, ar) = ok t

module _ {S : Type 0} (libc : Libc S) (admin : Admin) where
  -- The whole way of a task that another process runs, on that process's server and environment.
  unfoldable pub remote : Task → Server → Env S → Exec (Task × Server × Env S)
  remote t s e = do
    let m = method_id admin (method_of admin t)
    ar ← save_start admin m t []
    arrived ← load_start admin m ar
    sent ← loaded arrived
    (done, s', e') ← run libc admin m sent s e
    back ← save_end admin m done []
    (u, rest) ← load_end admin m back t
    ok (u, s', e')

  -- What it comes to: the handlers of the file tasks work on the buffer that was received, and
  -- nothing of them comes back; for the other tasks it is the same as a run in this process.
  abbrev pub remote_effect : Task → Server → Env S → Exec (Task × Server × Env S)
  remote_effect (write_task t) s e = do
    e' ← Server.write libc (arrived_write admin t) e
    ok (write_task t, s, e')
  remote_effect (read_task t) s e = do
    e' ← Server.read libc (arrived_read admin t) e
    ok (read_task t, s, e')
  remote_effect t s e = run_as libc (method_of admin t) t s e

  -- A `MetaGet` task as its constructor leaves it has no value yet.
  abbrev pub IsFresh : Task → Type 0
  IsFresh (meta_get_task t) = t.val ≡ []
  IsFresh t = Unit

  module _ (numbered : IsNumbered admin) where
    -- The way back: from the handler's environment to the waiting task.
    abbrev come_back : Method → Task → Exec (Task × Server × Env S) → Exec (Task × Server × Env S)
    come_back m t x = do
      (done, s', e') ← x
      back ← save_end admin (method_id admin m) done []
      (u, rest) ← load_end admin (method_id admin m) back t
      ok (u, s', e')

    come_back-write :
        (u t : WriteTask) (s : Server) (x : Exec (Env S))
        → come_back write (write_task t) (do e' ← x; ok (write_task u, s, e'))
          ≡ (do e' ← x; ok (write_task t, s, e'))
    come_back-write u t s (ok e') =
        rw (save_end_case admin numbered write, load_end_case admin numbered write)
    come_back-write u t s (fault f) = refl

    come_back-read :
        (u t : ReadTask) (s : Server) (x : Exec (Env S))
        → come_back read (read_task t) (do e' ← x; ok (read_task u, s, e'))
          ≡ (do e' ← x; ok (read_task t, s, e'))
    come_back-read u t s (ok e') =
        rw (save_end_case admin numbered read, load_end_case admin numbered read)
    come_back-read u t s (fault f) = refl

    come_back-meta_get :
        (u t : MetaGetTask) (s : Server) (e : Env S)
        → come_back meta_get (meta_get_task t) (ok (meta_get_task u, s, e))
          ≡ ok (returned (meta_get_task u) (meta_get_task t), s, e)
    unfolding save_meta_get_end load_meta_get_end
    come_back-meta_get u t s e =
        rw (save_end_case admin numbered meta_get, load_end_case admin numbered meta_get)

    meta_get_remote_of :
        (o : Option Str) (t : MetaGetTask) (s : Server) (e : Env S)
        → Dict.lookup t.key s.metamap ≡ o
        → t.val ≡ []
        → (let (u, e') = Server.meta_get (record (empty_meta_get admin) { key = t.key }) s e in
            come_back meta_get (meta_get_task t) (ok (meta_get_task u, s, e')))
          ≡ run_as libc meta_get (meta_get_task t) s e
    meta_get_remote_of none t s e h fresh =
        let asked = record (empty_meta_get admin) { key = t.key } in
        let e' : Env S = record e { log = e.log ++ answer_log none } in
        rw (meta_get_lem asked s e none h, meta_get_lem t s e none h)
          (come_back-meta_get (answered none asked) t s _
            ∙ ap (λ v. ok (meta_get_task (record t { val = v; presence = false }), s, e'))
                (sym fresh))
    meta_get_remote_of (some v) t s e h fresh =
        let asked = record (empty_meta_get admin) { key = t.key } in
        rw (meta_get_lem asked s e (some v) h, meta_get_lem t s e (some v) h)
          (come_back-meta_get (answered (some v) asked) t s _)

    -- Running a task of the module in another process has the effect that `remote_effect` says; in
    -- particular metadata and schedule tasks give the same results and leave the same server as a run
    -- without the transport, and a read task comes back as it was sent, whatever was read.
    pub remote-remote_effect :
        (t : Task) (s : Server) (e : Env S)
        → IsOwn t
        → IsFresh t
        → remote t s e ≡ remote_effect t s e
    unfolding remote save_write_start load_write_start save_read_start load_read_start
        save_meta_put_start load_meta_put_start save_meta_get_start load_meta_get_start
        save_schedule_end load_schedule_end Server.prefetch Server.meta_put Server.schedule
    remote-remote_effect t s e (own_write w) fresh =
        rw
          (
            save_start_case admin numbered write,
            load_start_case admin numbered write,
            run_case admin numbered write,
          )
          (come_back-write _ w s _)
    remote-remote_effect t s e (own_read r) fresh =
        rw
          (
            save_start_case admin numbered read,
            load_start_case admin numbered read,
            run_case admin numbered read,
          )
          (come_back-read _ r s _)
    remote-remote_effect t s e (own_prefetch p) fresh = rw (
      save_start_case admin numbered prefetch,
      load_start_case admin numbered prefetch,
      run_case admin numbered prefetch,
      save_end_case admin numbered prefetch,
      load_end_case admin numbered prefetch,
    )
    remote-remote_effect t s e (own_meta_put p) fresh = rw (
      save_start_case admin numbered meta_put,
      load_start_case admin numbered meta_put,
      run_case admin numbered meta_put,
      save_end_case admin numbered meta_put,
      load_end_case admin numbered meta_put,
    )
    remote-remote_effect t s e (own_meta_get g) fresh =
        rw
          (
            save_start_case admin numbered meta_get,
            load_start_case admin numbered meta_get,
            run_case admin numbered meta_get,
          )
          (meta_get_remote_of _ g s e refl fresh)
    remote-remote_effect t s e (own_schedule c) fresh = rw (
      save_start_case admin numbered schedule,
      load_start_case admin numbered schedule,
      run_case admin numbered schedule,
      save_end_case admin numbered schedule,
      load_end_case admin numbered schedule,
    )
