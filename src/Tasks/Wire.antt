-- ===== src/Tasks/Wire.antt =====
-- `serialize`, `SerializeStart` and `SerializeEnd` of
-- dtio_chimods/dtiomod/include/dtiomod/dtiomod_tasks.h. An archive is the sequence of the fields that
-- are given to it; what Chimaera writes around them (the header of the task) is not part of it.
use dtio.Prelude.{ℕ, Bool, Str, List, [], ◌∷◌, ◌++◌}
use dtio.Exec.{Exec, ok, fault, bad_archive, ◌>>=◌}
use dtio.Tasks.{
  IoClientType, CreateTaskParams, WriteTask, ReadTask, MetaPutTask, MetaGetTask, ScheduleTask,
}

pub data Item : Type 0 where
  text : Str → Item
  size : ℕ → Item
  number : ℕ → Item
  interface : IoClientType → Item
  flag : Bool → Item
  -- `ar.bulk(DT_WRITE, data, size)`: the pointer and the size at the sender
  bulk : ℕ → ℕ → Item

abbrev pub Archive : Type 0
Archive = List Item

get_text : Archive → Exec (Str × Archive)
get_text (text s ∷ ar) = ok (s, ar)
get_text _ = fault bad_archive

get_size : Archive → Exec (ℕ × Archive)
get_size (size n ∷ ar) = ok (n, ar)
get_size _ = fault bad_archive

get_number : Archive → Exec (ℕ × Archive)
get_number (number n ∷ ar) = ok (n, ar)
get_number _ = fault bad_archive

get_interface : Archive → Exec (IoClientType × Archive)
get_interface (interface i ∷ ar) = ok (i, ar)
get_interface _ = fault bad_archive

get_flag : Archive → Exec (Bool × Archive)
get_flag (flag b ∷ ar) = ok (b, ar)
get_flag _ = fault bad_archive

-- `receive` is where Chimaera puts bulk data that it receives.
get_bulk : (ℕ → ℕ → ℕ) → Archive → Exec (ℕ × Archive)
get_bulk receive (bulk p n ∷ ar) = ok (receive p n, ar)
get_bulk receive _ = fault bad_archive

unfoldable pub save_params : CreateTaskParams → Archive → Archive
save_params t ar = ar ++ (number t.dtiomod_id ∷ [])

unfoldable pub load_params : CreateTaskParams → Archive → Exec (CreateTaskParams × Archive)
unfolding get_number
load_params t ar = do (n, ar₁) ← get_number ar; ok (record t { dtiomod_id = n }, ar₁)

unfoldable pub save_write_start : WriteTask → Archive → Archive
save_write_start t ar =
    ar
    ++ (bulk t.data_ptr t.data_size
        ∷ text t.filename
        ∷ size t.data_size
        ∷ size t.data_offset
        ∷ interface t.iface
        ∷ [])

unfoldable pub load_write_start : (ℕ → ℕ → ℕ) → WriteTask → Archive → Exec (WriteTask × Archive)
unfolding get_bulk get_text get_size get_interface
load_write_start receive t ar = do
  (p, ar₁) ← get_bulk receive ar
  (f, ar₂) ← get_text ar₁
  (n, ar₃) ← get_size ar₂
  (o, ar₄) ← get_size ar₃
  (i, ar₅) ← get_interface ar₄
  ok (record t { data_ptr = p; filename = f; data_size = n; data_offset = o; iface = i }, ar₅)

unfoldable pub save_read_start : ReadTask → Archive → Archive
save_read_start t ar =
    ar
    ++ (bulk t.data_ptr t.data_size
        ∷ text t.filename
        ∷ size t.data_size
        ∷ size t.data_offset
        ∷ interface t.iface
        ∷ [])

unfoldable pub load_read_start : (ℕ → ℕ → ℕ) → ReadTask → Archive → Exec (ReadTask × Archive)
unfolding get_bulk get_text get_size get_interface
load_read_start receive t ar = do
  (p, ar₁) ← get_bulk receive ar
  (f, ar₂) ← get_text ar₁
  (n, ar₃) ← get_size ar₂
  (o, ar₄) ← get_size ar₃
  (i, ar₅) ← get_interface ar₄
  ok (record t { data_ptr = p; filename = f; data_size = n; data_offset = o; iface = i }, ar₅)

unfoldable pub save_meta_put_start : MetaPutTask → Archive → Archive
save_meta_put_start t ar = ar ++ (text t.key ∷ text t.val ∷ [])

unfoldable pub load_meta_put_start : MetaPutTask → Archive → Exec (MetaPutTask × Archive)
unfolding get_text
load_meta_put_start t ar = do
  (k, ar₁) ← get_text ar
  (v, ar₂) ← get_text ar₁
  ok (record t { key = k; val = v }, ar₂)

unfoldable pub save_meta_get_start : MetaGetTask → Archive → Archive
save_meta_get_start t ar = ar ++ (text t.key ∷ [])

unfoldable pub load_meta_get_start : MetaGetTask → Archive → Exec (MetaGetTask × Archive)
unfolding get_text
load_meta_get_start t ar = do (k, ar₁) ← get_text ar; ok (record t { key = k }, ar₁)

unfoldable pub save_meta_get_end : MetaGetTask → Archive → Archive
save_meta_get_end t ar = ar ++ (text t.val ∷ flag t.presence ∷ [])

unfoldable pub load_meta_get_end : MetaGetTask → Archive → Exec (MetaGetTask × Archive)
unfolding get_text get_flag
load_meta_get_end t ar = do
  (v, ar₁) ← get_text ar
  (b, ar₂) ← get_flag ar₁
  ok (record t { val = v; presence = b }, ar₂)

unfoldable pub save_schedule_end : ScheduleTask → Archive → Archive
save_schedule_end t ar = ar ++ (size t.schedule_num ∷ [])

unfoldable pub load_schedule_end : ScheduleTask → Archive → Exec (ScheduleTask × Archive)
unfolding get_size
load_schedule_end t ar = do (n, ar₁) ← get_size ar; ok (record t { schedule_num = n }, ar₁)
