-- ===== src/Dispatch/Methods.antt =====
-- The method numbers of dtio_chimods/dtiomod/include/dtiomod/dtiomod_methods.h and the cases of
-- dtiomod_lib_exec.h.
use dtio.Prelude.{◌<◌, ◌≡◌, ◌≢◌, some, arith}
use dtio.Dispatch.{
  Admin, Method, create, destroy, write, read, prefetch, meta_put, meta_get, schedule, method_id,
  switch, run, run_as, monitor, monitor_as,
}
use dtio.Dispatch.Transport.{
  save_start, save_start_as, load_start, load_start_as, save_end, save_end_as, load_end,
  load_end_as,
}
use dtio.Exec.{ok, ◌>>=◌}
use dtio.Libc.{Libc}
use dtio.Server.{Server, Env, MonitorMode}
use dtio.Tasks.{Task}
use dtio.Tasks.Wire.{Archive}

-- Chimaera numbers the methods that every module has below 10.
pub record IsNumbered (admin : Admin) : Type 0 where
  pub k_create-lt : admin.k_create < 10
  pub k_destroy-lt : admin.k_destroy < 10
  pub k_create-ne : admin.k_create ≢ admin.k_destroy

module _ (admin : Admin) (numbered : IsNumbered admin) where
  -- Each method number selects the case of its own method.
  pub switch-method_id : (m : Method) → switch admin (method_id admin m) ≡ some m
  unfolding switch method_id
  switch-method_id create = ground arith
  switch-method_id destroy = ground arith
  switch-method_id write = ground arith
  switch-method_id read = ground arith
  switch-method_id prefetch = ground arith
  switch-method_id meta_put = ground arith
  switch-method_id meta_get = ground arith
  switch-method_id schedule = ground arith

  -- So each function of the dispatch table acts on a method number as on its method.
  module _ (m : Method) where
    pub save_start_case :
        (t : Task) (ar : Archive)
        → save_start admin (method_id admin m) t ar ≡ save_start_as admin m t ar
    unfolding save_start
    save_start_case t ar = rw (switch-method_id m, save_start)

    pub load_start_case :
        (ar : Archive)
        → load_start admin (method_id admin m) ar
          ≡ (do (t, rest) ← load_start_as admin m ar; ok (some t, rest))
    unfolding load_start
    load_start_case ar = rw (switch-method_id m, load_start)

    pub save_end_case :
        (t : Task) (ar : Archive)
        → save_end admin (method_id admin m) t ar ≡ save_end_as admin m t ar
    unfolding save_end
    save_end_case t ar = rw (switch-method_id m, save_end)

    pub load_end_case :
        (ar : Archive) (t : Task)
        → load_end admin (method_id admin m) ar t ≡ load_end_as admin m ar t
    unfolding load_end
    load_end_case ar t = rw (switch-method_id m, load_end)

    pub monitor_case :
        (mode : MonitorMode) (t : Task)
        → monitor admin mode (method_id admin m) t ≡ monitor_as mode m t
    unfolding monitor
    monitor_case mode t = rw (switch-method_id m, monitor)

    pub run_case :
        {S : Type 0} (libc : Libc S) (t : Task) (s : Server) (e : Env S)
        → run libc admin (method_id admin m) t s e ≡ run_as libc m t s e
    unfolding run
    run_case libc t s e = rw (switch-method_id m, run)
