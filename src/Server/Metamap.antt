-- ===== src/Server/Metamap.antt =====
-- The metadata map of dtio_chimods/dtiomod/src/dtiomod_runtime.cc: what `MetaGet` answers.
use dtio.Prelude.{
  ◌≡◌, refl, ap, ◌∙◌, true, false, Option, none, some, List, [], ◌∷◌, ◌++◌, Str, str_eq, ◌==◌,
  if◌then◌else◌, length,
}
use dtio.Prelude.Dict
use dtio.Exec.{Message, key_not_found, key_found, strlen_val}
use dtio.Server.{Server, Env, meta_put, meta_get}
use dtio.Tasks.{MetaPutTask, MetaGetTask}

-- The answer for a key: whether it is present, and its value. A value that is not found is not
-- written.
abbrev pub answered : Option Str → MetaGetTask → MetaGetTask
answered none task = record task { presence = false }
answered (some val) task = record task { presence = true; val = val }

abbrev pub answer_log : Option Str → List Message
answer_log none = key_not_found ∷ []
answer_log (some val) = key_found ∷ strlen_val (length val) ∷ []

module _ {S : Type 0} where
  pub meta_get_lem :
      (task : MetaGetTask) (s : Server) (e : Env S) (o : Option Str)
      → Dict.lookup task.key s.metamap ≡ o
      → meta_get task s e ≡ (answered o task, record e { log = e.log ++ answer_log o })
  unfolding meta_get
  meta_get_lem task s e none h = rw (h, meta_get)
  meta_get_lem task s e (some v) h = rw (h, meta_get)

  -- The entries after a list of `MetaPut` tasks.
  abbrev pub put_all : List MetaPutTask → Server → Env S → Server × Env S
  put_all [] s e = (s, e)
  put_all (t ∷ ts) s e = let (s', e') = meta_put t s e in put_all ts s' e'

-- The value of the last task of the list that puts the key, and the old one if there is none.
abbrev pub last_put : Str → List MetaPutTask → Option Str → Option Str
last_put key [] old = old
last_put key (t ∷ ts) old = last_put key ts (if t.key == key then some t.val else old)

lookup-put_all :
    {S : Type 0} (key : Str) (ts : List MetaPutTask) (s : Server) (e : Env S)
    → Dict.lookup key (put_all ts s e).0.metamap ≡ last_put key ts (Dict.lookup key s.metamap)
unfolding meta_put
lookup-put_all key [] s e = refl
lookup-put_all key (t ∷ ts) s e =
    lookup-put_all key ts _ _ ∙ ap (last_put key ts) (Dict.lookup-insert key t.key t.val s.metamap)

-- After any list of `MetaPut` tasks, `MetaGet` answers with the value of the last task of the list
-- that put its key; with the entry from before the list if there is none; and with absence, its value
-- untouched, if there was no such entry.
pub meta_get-put_all :
    {S : Type 0} (task : MetaGetTask) (ts : List MetaPutTask) (s : Server) (e : Env S)
    → (let (s', e') = put_all ts s e in (meta_get task s' e').0)
      ≡ answered (last_put task.key ts (Dict.lookup task.key s.metamap)) task
meta_get-put_all task ts s e =
    ap (λ r. r.0) (meta_get_lem task _ _ _ (lookup-put_all task.key ts s e))
