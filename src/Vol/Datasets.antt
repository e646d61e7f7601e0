-- ===== src/Vol/Datasets.antt =====
-- Datasets in adapter/vol/vol-old/H5VLDTIO.cc: `H5VL_dtio_dataset_create`, `_open`, `_get` and
-- `_close`. The conventions are those of Vol/Groups and Vol/Broadcast. Types, dataspaces and property
-- lists are HDF5's and are numbers; its calls on them succeed, and a failure of the connector's own
-- functions is printed and the function goes on. In `H5VL_dtio_dataset_create` the `return` stands,
-- without its semicolon, before the call that closes the group of the new link, which is therefore not
-- made.
pub mod Stored
pub mod Made
pub mod Grown
pub mod Kept
pub mod Messages
pub mod Sent
use dtio.Prelude.{
  ℕ, zero, suc, ◌+◌, ◌-◌, ◌%◌, ◌^◌, Bool, true, false, List, [], ◌∷◌, ◌++◌, Option, none, some, Str,
  length, take, drop, if◌then◌else◌, ltb, nat_eq, ◌==◌,
}
use dtio.Prelude.Dict.{lookup}
use dtio.Exec.{Exec, ok, fault, bad_pointer, ◌>>=◌}
use dtio.Vol.Objects.{hard, h5i_dataset}
use dtio.Vol.Store.{StoreApi, LinkTypes}
use dtio.Vol.Words.{uint64_encode, uint64_decode}
use dtio.Vol.Oids.{oid_create, oid_create_string, oid_to_idx}
use dtio.Vol.Links.{link_write}
use dtio.Vol.Broadcast.{receive, overwrite}
use dtio.Vol.Groups.{PlistApi, World, Item, deref, stat_size}
use dtio.Vol.Groups.Paths.{link_follow, group_traverse}
use dtio.Vol.Files.{Process, writes, group_ids, oid_of, close_target}

-- `H5VL_dtio_dset_t`
pub record Dataset : Type 0 where
  pub bin_oid : ℕ
  pub oid : Option Str
  pub rc : ℕ
  pub type_id : ℕ
  pub space_id : ℕ
  pub dcpl_id : ℕ
  pub dapl_id : ℕ

-- `H5Tencode`, `H5Sencode2`, `H5Pencode2`, their inverses, which are given what stands at a pointer, and
-- `H5Sselect_all`.
pub record Codec : Type 0 where
  pub encode_type : ℕ → Str
  pub encode_space : ℕ → Str
  pub encode_dcpl : ℕ → Str
  pub decode_type : Str → ℕ
  pub decode_space : Str → ℕ
  pub decode_dcpl : Str → ℕ
  pub select_all : ℕ → ℕ

abbrev pub dinfo_buf_size : ℕ
dinfo_buf_size = 1024

-- `md_buf`
unfoldable pub metadata : Codec → ℕ → ℕ → ℕ → Str
metadata codec type_id space_id dcpl_id =
    let type_buf = codec.encode_type type_id in
    let space_buf = codec.encode_space space_id in
    let dcpl_buf = codec.encode_dcpl dcpl_id in
    uint64_encode (length type_buf)
    ++ (uint64_encode (length space_buf)
        ++ (uint64_encode (length dcpl_buf) ++ (type_buf ++ (space_buf ++ dcpl_buf))))

-- The three lengths, and what stands behind them.
pub record Lengths : Type 0 where
  pub type_len : ℕ
  pub space_len : ℕ
  pub dcpl_len : ℕ
  pub behind : Str

unfoldable pub decode_lengths : Str → Exec Lengths
decode_lengths p = uint64_decode p >>= λ t. uint64_decode t.1 >>= λ s. uint64_decode s.1 >>= λ d.
    ok (record { type_len = t.0; space_len = s.0; dcpl_len = d.0; behind = d.1 })

-- The dataset whose type, space and property list stand one after the other.
abbrev pub decoded : Codec → ℕ → Option Str → ℕ → Lengths → Dataset
decoded codec bin_oid oid dapl_id l = record {
  bin_oid = bin_oid;
  oid = oid;
  rc = 1;
  type_id = codec.decode_type l.behind;
  space_id = codec.select_all (codec.decode_space (drop l.type_len l.behind));
  dcpl_id = codec.decode_dcpl (drop l.space_len (drop l.type_len l.behind));
  dapl_id = dapl_id;
}

-- The broadcasts of the lead process, which has read `md` from the store. `array` is
-- `dinfo_buf_static`, and `dinfo_buf_dyn` is used where the identifier and `md` do not fit into it.
unfoldable pub send_dataset : Str → ℕ → Str → List Str
send_dataset array oid md =
    if ltb dinfo_buf_size (length md + 8)
    then take dinfo_buf_size (uint64_encode oid ++ md) ∷ drop 24 md ∷ []
    else overwrite (uint64_encode oid ++ md) array ∷ []

-- Where a second broadcast is expected, what is decoded is what it brings.
abbrev pub second_part : Lengths → List Str → Exec Lengths
second_part l later =
    let tot_len = (l.type_len + l.space_len + l.dcpl_len) % 2 ^ 64 in
    if ltb dinfo_buf_size ((tot_len + 32) % 2 ^ 64)
    then (receive tot_len later >>= λ r. ok (record l { behind = r.0 }))
    else ok l

-- The dataset of another process; its `oid` stays null.
unfoldable pub receive_dataset : Codec → ℕ → List Str → Exec Dataset
receive_dataset codec dapl_id messages = receive dinfo_buf_size messages >>= λ r.
    uint64_decode r.0 >>= λ id.
    decode_lengths id.1 >>= λ l. second_part l r.1 >>= λ l. ok (decoded codec id.0 none dapl_id l)

-- `H5VL_dtio_dataset_close`: `--rc == 0` frees the dataset.
unfoldable pub dataset_close : Dataset → Option Dataset
dataset_close d = if d.rc == 1 then none else some (record d { rc = d.rc - 1 })

-- What `H5VL_dtio_dataset_get` returns by the kind of the question; other kinds are refused. The
-- parameters `dset` and `args` are taken for the names `_dset`, `get_type` and `arguments` of its body.
pub data DatasetGet : Type 0 where
  get_dcpl : DatasetGet
  get_dapl : DatasetGet
  get_space : DatasetGet
  get_space_status : DatasetGet
  get_type : DatasetGet
  get_other : DatasetGet

pub data DatasetAnswer : Type 0 where
  id : ℕ → DatasetAnswer
  not_allocated : DatasetAnswer

unfoldable pub dataset_get : Dataset → DatasetGet → Option DatasetAnswer
dataset_get d get_dcpl = some (id d.dcpl_id)
dataset_get d get_dapl = some (id d.dapl_id)
dataset_get d get_space = some (id d.space_id)
dataset_get d get_space_status = some not_allocated
dataset_get d get_type = some (id d.type_id)
dataset_get d get_other = none

module _ {S : Type 0} (api : StoreApi S) (T : LinkTypes) (plists : PlistApi) (codec : Codec) where
  -- The link to the new dataset; a null group is used like any other.
  abbrev pub link_dataset : Option (ℕ × Str) → ℕ → World S → Exec (World S)
  link_dataset none bin_oid w = fault bad_pointer
  link_dataset (some (target_grp, name)) bin_oid w = deref (lookup target_grp w.heap) >>= λ g.
      oid_of g.oid >>= λ grp_oid.
      ok (record w { store = (link_write api T w.flags grp_oid name (hard bin_oid) w.store).1 })

  abbrev pub write_dataset : ℕ → Item → Str → Str → ℕ × Option Str → World S → Exec (World S)
  write_dataset depth item name md ids w =
      group_traverse api T plists (link_follow api T plists depth) item name w >>= λ target.
      oid_of ids.1 >>= λ oid.
      link_dataset target.0 ids.0
        (record target.1 { store = api.dtio_write oid md target.1.store; max_oid_dirty = true })

  abbrev pub new_dataset : ℕ × Option Str → ℕ → ℕ → ℕ → ℕ → Dataset
  new_dataset ids type_id space_id dcpl_id dapl_id = record {
    bin_oid = ids.0;
    oid = ids.1;
    rc = 1;
    type_id = type_id;
    space_id = codec.select_all space_id;
    dcpl_id = dcpl_id;
    dapl_id = dapl_id;
  }

  -- `depth` is that of `link_follow`. A file without write intent is only reported.
  unfoldable pub dataset_create :
      ℕ → Process → Item → Str → ℕ → ℕ → ℕ → ℕ → Bool → World S → Exec (Dataset × World S)
  dataset_create depth me item name type_id space_id dcpl_id dapl_id collective w =
      oid_create w.file_name ((w.max_oid + 1) % 2 ^ 64) h5i_dataset >>= λ made.
      let ids = group_ids made in
      let counted = record w { max_oid = oid_to_idx ids.0 } in
      (if writes me collective
        then write_dataset depth item name (metadata codec type_id space_id dcpl_id) ids counted
        else ok counted)
      >>= λ w'. ok (new_dataset ids type_id space_id dcpl_id dapl_id, w')

  -- The identifier is 0 where the link cannot be followed; a null group is used like any other.
  abbrev pub found_or_zero : Option ℕ → ℕ
  found_or_zero none = 0
  found_or_zero (some oid) = oid

  abbrev pub linked_oid : ℕ → Option (ℕ × Str) → World S → Exec (ℕ × World S)
  linked_oid depth none w = fault bad_pointer
  linked_oid depth (some (target_grp, name)) w =
      link_follow api T plists depth target_grp name w >>= λ r. ok (found_or_zero r.0, r.1)

  -- The metadata that is stored for an object.
  abbrev pub stored_metadata : Str → S → Str
  stored_metadata oid s = api.dtio_read oid (stat_size (api.dtio_stat oid s)) 0 s

  -- What stands from the lengths on in the buffer in which the metadata is read.
  abbrev pub in_buffer : Str → Str → Str
  in_buffer array md =
      if ltb dinfo_buf_size (length md + 8) then md else md ++ drop (length md + 8) array

  -- The leader's or the only process's `H5VL_dtio_dataset_open` by name: the dataset, what is in the
  -- store for it, and the file after the group of the link was closed.
  unfoldable pub dataset_open : Str → ℕ → Item → Str → ℕ → World S → Exec (Dataset × World S)
  dataset_open array depth item name dapl_id w =
      group_traverse api T plists (link_follow api T plists depth) item name w >>= λ target.
      linked_oid depth target.0 target.1 >>= λ found.
      oid_create_string w.file_name found.0 >>= λ text. oid_of text >>= λ oid.
      decode_lengths (in_buffer array (stored_metadata oid found.1.store)) >>= λ l.
      close_target api T plists target.0 found.1 >>= λ w'.
      ok (decoded codec found.0 text dapl_id l, w')
