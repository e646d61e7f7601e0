-- ===== src/Vol/Groups.antt =====
-- The groups of adapter/vol/vol-old/H5VLDTIO.cc: the structs with their reference counts, the links
-- between them and the traversal of paths. Functions that end without a `return` statement are taken
-- to return SUCCEED; `malloc` is always given, and the calls for property lists succeed.
pub mod Paths
pub mod Heap
pub mod Kept
pub mod Follow
pub mod Resolve
use dtio.Prelude.{
  ℕ, zero, suc, ◌+◌, ◌-◌, Bool, true, false, ◌||◌, List, [], ◌∷◌, ◌++◌, Option, none, some, Str,
  if◌then◌else◌, nat_eq, str_eq, ◌==◌,
}
use dtio.Prelude.Dict.{Dict, lookup, insert, erase}
use dtio.Exec.{Exec, ok, fault, bad_pointer, stack_overflow, failed_assertion, ◌>>=◌, ◌>>◌, guard}
use dtio.Vol.Objects.{LinkVal, hard, soft, unsupported, AccessFlags}
use dtio.Vol.Store.{StoreApi, LinkTypes, StatReply, no_stat_op, stat_failed, not_found, size}
use dtio.Vol.Oids.{oid_create_string}
use dtio.Vol.Links.{link_read}

-- `H5VL_dtio_group_t`: `oid` is null where the text could not be made, `gcpl_id` is the property list.
pub record Group : Type 0 where
  pub bin_oid : ℕ
  pub oid : Option Str
  pub rc : ℕ
  pub gcpl_id : ℕ

-- `H5Pencode2` and `H5Pdecode`.
pub record PlistApi : Type 0 where
  pub encode : ℕ → Str
  pub decode : Str → ℕ

-- A file that is open, the groups that are allocated, by their addresses, and the object store. `root`
-- is `root_grp`; `fresh_ptr` is the next address that `malloc` gives.
pub record World (S : Type 0) : Type 0 where
  pub file_name : Str
  pub flags : AccessFlags
  pub glob_md_oid : Str
  pub max_oid : ℕ
  pub max_oid_dirty : Bool
  pub root : ℕ
  pub heap : Dict ℕ Group
  pub fresh_ptr : ℕ
  pub store : S

-- The base of a path.
pub data Item : Type 0 where
  item_file : Item
  item_group : ℕ → Item
  item_other : Item

abbrev pub deref : Option Group → Exec Group
deref none = fault bad_pointer
deref (some g) = ok g

abbrev pub counted : ℕ → Group → Group
counted n g = record g { rc = n }

-- `gcpl_len` after `H5VL_dtio_stat`.
abbrev pub stat_size : StatReply → ℕ
stat_size no_stat_op = 0
stat_size stat_failed = 0
stat_size not_found = 0
stat_size (size n) = n

module _ {S : Type 0} where
  abbrev pub with_heap : Dict ℕ Group → World S → World S
  with_heap h w = record w { heap = h }

  -- `--rc == 0` frees the group.
  abbrev pub released : ℕ → World S → Group → World S
  released p w g =
      if g.rc == 1
      then with_heap (erase p w.heap) w
      else with_heap (insert p (counted (g.rc - 1) g) w.heap) w

  unfoldable pub group_close : ℕ → World S → Exec (World S)
  group_close p w = deref (lookup p w.heap) >>= λ g. ok (released p w g)

  -- `grp->obj.item.rc++`
  unfoldable pub group_retain : ℕ → World S → Exec (World S)
  group_retain p w =
      deref (lookup p w.heap) >>= λ g. ok (with_heap (insert p (counted (g.rc + 1) g) w.heap) w)

  abbrev pub allocate : Group → World S → ℕ × World S
  allocate g w =
      (w.fresh_ptr, record w { heap = insert w.fresh_ptr g w.heap; fresh_ptr = w.fresh_ptr + 1 })

  -- The property list that is stored for a group; what cannot be read is only reported.
  abbrev pub stored_gcpl : StoreApi S → PlistApi → Option Str → S → Exec ℕ
  stored_gcpl api plists none s = fault bad_pointer
  stored_gcpl api plists (some oid) s =
      ok (plists.decode (api.dtio_read oid (stat_size (api.dtio_stat oid s)) 0 s))

  -- `H5VL_dtio_group_open_helper`, and the address of the group. It never fails: an object that is not
  -- there, or is no group, is only reported.
  unfoldable pub group_open_helper : StoreApi S → PlistApi → ℕ → World S → Exec (ℕ × World S)
  group_open_helper api plists bin_oid w = oid_create_string w.file_name bin_oid >>= λ text.
      stored_gcpl api plists text w.store >>= λ gcpl.
      ok (allocate (record { bin_oid = bin_oid; oid = text; rc = 1; gcpl_id = gcpl }) w)

  -- `H5VL_dtio_group_reconstitute`.
  unfoldable pub group_reconstitute : PlistApi → ℕ → Str → World S → Exec (ℕ × World S)
  group_reconstitute plists bin_oid gcpl_buf w = oid_create_string w.file_name bin_oid >>= λ text.
      ok (
        allocate
          (record { bin_oid = bin_oid; oid = text; rc = 1; gcpl_id = plists.decode gcpl_buf }) w)
