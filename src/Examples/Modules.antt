-- ===== src/Examples/Modules.antt =====
-- Tasks of the module, as they are numbered, sent to another process and run.
use dtio.Prelude.{◌≡◌, refl, true, false, some, List, [], ◌∷◌, ◌++◌, Str, codes, nat_eq, str_eq}
use dtio.Prelude.Int.{pos}
use dtio.Prelude.Dict
use dtio.Exec.{ok, ◌>>=◌}
use dtio.Server
use dtio.Server.{Server, Env}
use dtio.Server.Metamap.{answered, last_put, put_all, meta_get-put_all}
use dtio.Tasks.{
  MetaPutTask, MetaGetTask, WriteTask, k_posix, direct_hash, global_bcast, write_task,
  meta_get_task,
}
use dtio.Dispatch.{meta_get, write, method_id}
use dtio.Dispatch.Transport.{save_start, load_start, save_end, load_end}
use dtio.Dispatch.Messages.{
  own_write, own_meta_get, both_meta_get, received, returned, load_start-save_start,
  load_end-save_end,
}
use dtio.Dispatch.Transport.{new_copy_start}
use dtio.Dispatch.Copies.{duplicate, new_copy_start-duplicate}
use dtio.Dispatch.Remote.{remote, remote_effect, remote-remote_effect}
use dtio.Tasks.Wire.{flag}
use dtio.Chimaera.{World}
use dtio.Client
use dtio.Client.Runs.{answer_of, meta_get-meta_put}
use dtio.Examples.Disk.{Disk, empty_disk, disk}
use dtio.Examples.Runtime.{
  admin, admin-IsNumbered, runtime, runtime-IsLawful, client, blank_header, empty_world,
}

abbrev put : Str → Str → MetaPutTask
put key val = record { header = blank_header; key = key; val = val }

abbrev get : MetaGetTask
get = record { header = blank_header; key = codes "k"; val = []; presence = false }

abbrev got : MetaGetTask
got = record { header = blank_header; key = codes "k"; val = codes "v"; presence = true }

abbrev out : WriteTask
out = record {
  header = blank_header;
  data_ptr = 64;
  data_offset = 8;
  data_size = 5;
  filename = codes "/tmp/a";
  iface = k_posix;
}

abbrev server : Server
server = record { metamap = (codes "k", codes "v") ∷ []; schedule_num = 3 }

abbrev env : Env Disk
env = record { os = empty_disk; shm = []; log = [] }

abbrev puts : List MetaPutTask
puts = put (codes "k") (codes "1") ∷ put (codes "j") (codes "2") ∷ []

meta_get-put_all_example :
    (Server.meta_get get (put_all puts server env).0 (put_all puts server env).1).0
    ≡ answered (last_put (codes "k") puts (Dict.lookup (codes "k") server.metamap)) get
meta_get-put_all_example = meta_get-put_all get puts server env

load_start-save_start_example :
    (do
      ar ← save_start admin (method_id admin write) (write_task out) []
      load_start admin (method_id admin write) (ar ++ (flag true ∷ [])))
    ≡ ok (some (received admin (write_task out)), flag true ∷ [])
load_start-save_start_example =
    load_start-save_start admin admin-IsNumbered (write_task out) (flag true ∷ []) (own_write out)

load_end-save_end_example :
    (do
      ar ← save_end admin (method_id admin meta_get) (meta_get_task got) []
      load_end admin (method_id admin meta_get) (ar ++ (flag true ∷ [])) (meta_get_task get))
    ≡ ok (returned (meta_get_task got) (meta_get_task get), flag true ∷ [])
load_end-save_end_example =
    load_end-save_end admin admin-IsNumbered (meta_get_task got) (meta_get_task get)
      (flag true ∷ []) (both_meta_get got get)

remote-remote_effect_example :
    remote disk admin (meta_get_task get) server env
    ≡ remote_effect disk admin (meta_get_task get) server env
remote-remote_effect_example =
    remote-remote_effect disk admin admin-IsNumbered (meta_get_task get) server env
      (own_meta_get get) refl

meta_get-meta_put_example :
    (w' : World Disk) × (Client.meta_put runtime client global_bcast
        (codes "k")
        (codes "v")
        empty_world
      ≡ ok w')
    × (answer_of disk runtime runtime-IsLawful client
          (Client.meta_get runtime client (direct_hash (pos 4)) (codes "k") w')
        ≡ ok (true, codes "v"))
meta_get-meta_put_example =
    meta_get-meta_put disk runtime runtime-IsLawful client global_bcast (direct_hash (pos 4))
      (codes "k") (codes "k") (codes "v") empty_world tt tt

new_copy_start-duplicate_example :
    new_copy_start admin (method_id admin write) (write_task out) false
    ≡ ok (some (duplicate admin false (write_task out)))
new_copy_start-duplicate_example =
    new_copy_start-duplicate admin admin-IsNumbered (write_task out) false (own_write out)
