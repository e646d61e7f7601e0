-- ===== src/Vol/Files.antt =====
-- Files and the creation of groups in adapter/vol/vol-old/H5VLDTIO.cc: `H5VL_dtio_file_create`,
-- `_file_open`, `_file_flush`, `_file_close`, `H5VL_dtio_group_create`, `_group_open` and
-- `H5VL_dtio_group_create_helper`. The conventions are those of Vol/Groups; the communicators and what
-- HDF5 keeps for a property list are not modelled. A text that could not be made is a null pointer; it
-- is a fault where it is stored as the file's `glob_md_oid` or used.
pub mod Saved
pub mod Grown
pub mod Counted
pub mod Sessions
pub mod Created
use dtio.Prelude.{
  ℕ, zero, suc, ◌+◌, ◌-◌, ◌%◌, ◌^◌, Bool, true, false, not, ◌||◌, List, [], ◌∷◌, ◌++◌, Option, none,
  some, Str, codes, if◌then◌else◌, nat_eq, str_eq, ◌==◌,
}
use dtio.Prelude.Dict.{Dict, lookup, insert, erase}
use dtio.Exec.{Exec, ok, fault, bad_pointer, uninitialised, failed_assertion, ◌>>=◌, ◌>>◌, guard}
use dtio.Vol.Objects.{AccessFlags, LinkVal, hard, h5i_group}
use dtio.Vol.Store.{StoreApi, LinkTypes}
use dtio.Vol.Words.{uint64_encode, uint64_decode}
use dtio.Vol.Oids.{oid_create, oid_create_string, oid_create_binary, oid_to_idx}
use dtio.Vol.Links.{link_write}
use dtio.Vol.Broadcast.{receive_file, send_file}
use dtio.Vol.Groups.{
  Group, PlistApi, World, Item, allocate, deref, group_close, group_open_helper, group_reconstitute,
  stat_size,
}
use dtio.Vol.Groups.Paths.{link_follow, group_traverse, names_itself}

-- The rank of the process, their number, and whether operations on objects are collective.
pub record Process : Type 0 where
  pub my_rank : ℕ
  pub num_procs : ℕ

-- Whether this process writes: `!collective || (file->my_rank == 0)`.
abbrev pub writes : Process → Bool → Bool
writes me collective = not collective || me.my_rank == 0

-- What `H5VL_dtio_oid_create` leaves in the struct of a new group.
abbrev pub group_ids : Option (ℕ × Str) → ℕ × Option Str
group_ids none = (0, none)
group_ids (some (bin_oid, oid)) = (bin_oid, some oid)

abbrev pub oid_of : Option Str → Exec Str
oid_of none = fault bad_pointer
oid_of (some oid) = ok oid

module _ {S : Type 0} (api : StoreApi S) (T : LinkTypes) (plists : PlistApi) where
  -- `H5VL_dtio_write_full` reports success whatever `DTIO_write` did.
  unfoldable pub write_max_oid : World S → World S
  write_max_oid w =
      if w.max_oid_dirty
      then record w {
        store = api.dtio_write w.glob_md_oid (uint64_encode w.max_oid) w.store;
        max_oid_dirty = false;
      }
      else w

  unfoldable pub file_flush : World S → World S
  file_flush w = if w.flags.acc_rdwr then write_max_oid w else w

  unfoldable pub file_close : World S → Exec (World S)
  file_close w = let flushed = file_flush w in group_close flushed.root flushed

  -- The link to a new group, in the group at an address. A failure is only reported.
  abbrev pub link_to_new : Option (ℕ × Str) → ℕ → World S → Exec (World S)
  link_to_new none bin_oid w = ok w
  link_to_new (some (parent_grp, name)) bin_oid w = deref (lookup parent_grp w.heap) >>= λ parent.
      oid_of parent.oid >>= λ parent_oid.
      ok (record w { store = (link_write api T w.flags parent_oid name (hard bin_oid) w.store).1 })

  -- The group's own metadata, and the link to it.
  abbrev pub write_group : Option (ℕ × Str) → ℕ → ℕ × Option Str → World S → Exec (World S)
  write_group parent gcpl_id ids w = oid_of ids.1 >>= λ oid. link_to_new parent ids.0 (record w {
    store = api.dtio_write oid (plists.encode gcpl_id) w.store;
    max_oid_dirty = true;
  })

  abbrev pub new_group : ℕ → ℕ × Option Str → Group
  new_group gcpl_id ids = record { bin_oid = ids.0; oid = ids.1; rc = 1; gcpl_id = gcpl_id }

  -- The rest of the helper, for the index that is counted from now on.
  abbrev pub add_group :
      Process → ℕ → Option (ℕ × Str) → Bool → World S → ℕ × Option Str → ℕ → Exec (ℕ × World S)
  add_group me gcpl_id parent collective w ids idx =
      let counted = record w { max_oid = idx } in
      (if writes me collective then write_group parent gcpl_id ids counted else ok counted)
      >>= λ w'. ok (allocate (new_group gcpl_id ids) w')

  -- The address of the group. `max_oid + 1` is a sum of 64-bit words.
  unfoldable pub group_create_helper :
      Process → ℕ → Option (ℕ × Str) → Bool → World S → Exec (ℕ × World S)
  group_create_helper me gcpl_id parent collective w =
      guard w.flags.acc_rdwr failed_assertion
      >> (oid_create w.file_name ((w.max_oid + 1) % 2 ^ 64) h5i_group >>= λ made.
          add_group me gcpl_id parent collective w (group_ids made) (oid_to_idx (group_ids made).0))

  -- A file with no root group yet.
  abbrev pub new_file : Str → AccessFlags → Str → ℕ → Dict ℕ Group → ℕ → S → World S
  new_file name flags glob_md_oid max_oid heap fresh_ptr s = record {
    file_name = name;
    flags = flags;
    glob_md_oid = glob_md_oid;
    max_oid = max_oid;
    max_oid_dirty = false;
    root = 0;
    heap = heap;
    fresh_ptr = fresh_ptr;
    store = s;
  }

  -- The flags of a created file: the exclusive bit if neither it nor the truncating one is set, and
  -- always reading, writing and creation.
  abbrev pub create_flags : AccessFlags → AccessFlags
  create_flags f = record {
    acc_rdwr = true;
    acc_trunc = f.acc_trunc;
    acc_excl = f.acc_excl || not f.acc_trunc;
    acc_creat = true;
  }

  abbrev pub with_root : ℕ × World S → World S
  with_root r = record r.1 { root = r.0 }

  -- The root group's index is 1.
  abbrev pub check_root : World S → Exec (World S)
  check_root w = deref (lookup w.root w.heap) >>= λ g.
      guard (oid_to_idx g.bin_oid == 1) failed_assertion >> ok w

  unfoldable pub file_create :
      Process → Str → AccessFlags → ℕ → Dict ℕ Group → ℕ → S → Exec (World S)
  file_create me name flags fcpl_id heap fresh_ptr s = oid_create_string name 0 >>= λ glob.
      oid_of glob >>= λ glob_md_oid.
      group_create_helper me fcpl_id none true
        (new_file name (create_flags flags) glob_md_oid 0 heap fresh_ptr s)
      >>= λ r. check_root (with_root r)

  -- The root group's identifier, with the index 1.
  abbrev pub root_grp_oid : Exec ℕ
  root_grp_oid = oid_create_binary 1 h5i_group

  -- The file of the lead process, or of the only one. What it reads for `max_oid` is decoded from a
  -- buffer of 8 bytes.
  unfoldable pub file_open : Str → AccessFlags → Dict ℕ Group → ℕ → S → Exec (World S)
  file_open name flags heap fresh_ptr s = oid_create_string name 0 >>= λ glob.
      oid_of glob >>= λ glob_md_oid. uint64_decode (api.dtio_read glob_md_oid 8 0 s) >>= λ max_oid.
      root_grp_oid >>= λ root_oid.
      group_open_helper api plists root_oid
        (new_file name flags glob_md_oid max_oid.0 heap fresh_ptr s)
      >>= λ r. ok (with_root r)

  -- What the lead process sends to the others, from an array `foi_buf_static`: the bytes of `max_oid` and
  -- of the root group's property list as they are in the store.
  unfoldable pub file_open_send : Str → Str → S → Exec (List Str)
  file_open_send array name s = oid_create_string name 0 >>= λ glob. oid_of glob >>= λ glob_md_oid.
      root_grp_oid >>= λ root_oid. oid_create_string name root_oid >>= λ text.
      oid_of text >>= λ root_text.
      send_file array (api.dtio_read glob_md_oid 8 0 s)
        (api.dtio_read root_text (stat_size (api.dtio_stat root_text s)) 0 s)

  -- The file of another process.
  unfoldable pub file_open_receive :
      List Str → Str → AccessFlags → Dict ℕ Group → ℕ → S → Exec (World S)
  file_open_receive messages name flags heap fresh_ptr s = oid_create_string name 0 >>= λ glob.
      oid_of glob >>= λ glob_md_oid. receive_file messages >>= λ info. root_grp_oid >>= λ root_oid.
      group_reconstitute plists root_oid info.1
        (new_file name flags glob_md_oid info.0 heap fresh_ptr s)
      >>= λ r. ok (with_root r)

  abbrev pub close_target : Option (ℕ × Str) → World S → Exec (World S)
  close_target none w = ok w
  close_target (some (target_grp, name)) w = group_close target_grp w

  -- `depth` is that of `link_follow`. A path that cannot be traversed, or a file without write intent,
  -- is reported, and the function goes on.
  unfoldable pub group_create : ℕ → Process → Item → Str → ℕ → Bool → World S → Exec (ℕ × World S)
  group_create depth me item name gcpl_id collective w =
      (if writes me collective
        then group_traverse api T plists (link_follow api T plists depth) item name w
        else ok (none, w))
      >>= λ target. group_create_helper me gcpl_id target.0 collective target.1 >>= λ made.
          close_target target.0 made.1 >>= λ w'. ok (made.0, w')

  -- The object behind the last component of a path. Where its link cannot be followed, the function
  -- goes on with an identifier that has no value.
  abbrev pub open_last : Option ℕ → World S → Exec (ℕ × World S)
  open_last none w = fault uninitialised
  open_last (some oid) w = group_open_helper api plists oid w

  abbrev pub open_target : ℕ → Option (ℕ × Str) → World S → Exec (ℕ × World S)
  open_target depth none w = fault bad_pointer
  open_target depth (some (target_grp, target_name)) w =
      if names_itself target_name
      then ok (target_grp, w)
      else (link_follow api T plists depth target_grp target_name w >>= λ r.
          open_last r.0 r.1 >>= λ opened.
          group_close target_grp opened.1 >>= λ w'. ok (opened.0, w'))

  -- `H5VL_dtio_group_open` by name, on a process that opens the group itself.
  unfoldable pub group_open : ℕ → Item → Str → World S → Exec (ℕ × World S)
  group_open depth item name w =
      group_traverse api T plists (link_follow api T plists depth) item name w >>= λ r.
      open_target depth r.0 r.1
