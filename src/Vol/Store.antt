-- ===== src/Vol/Store.antt =====
-- The object store under adapter/vol/vol-old/H5VLDTIO.cc. Its calls (`dtio_create_read_op`,
-- `dtio_read_op_operate`, `dtio::hdf5::DTIO_write`, ...) are not in this repository, so they are the
-- fields of a record; what the connector relies on is a record of laws.
use dtio.Prelude.{ℕ, ◌<◌, ◌≡◌, ◌≢◌, ◌==◌, str_eq, ◌&&◌, Str, length, if◌then◌else◌}

-- How a read operation for one key of an object's map ends: the operation cannot be created, it
-- fails as a whole, for the key or at the iterator, or it has a value, which is empty for a key that
-- is not there.
pub data OmapReply : Type 0 where
  no_read_op : OmapReply
  read_failed : OmapReply
  key_failed : OmapReply
  next_failed : OmapReply
  value : Str → OmapReply

pub data WriteReply : Type 0 where
  no_write_op : WriteReply
  write_failed : WriteReply
  written : WriteReply

-- `not_found` is a positive code of the operation, with a size of 0 as it was set before.
pub data StatReply : Type 0 where
  no_stat_op : StatReply
  stat_failed : StatReply
  not_found : StatReply
  size : ℕ → StatReply

pub record StoreApi (S : Type 0) : Type 0 where
  -- the value of a key in the map of an object
  pub omap_get : Str → Str → S → OmapReply
  -- the new value of a key in the map of an object
  pub omap_set : Str → Str → Str → S → WriteReply × S
  -- the bytes that `DTIO_read` puts into a buffer of the length, from an offset
  pub dtio_read : Str → ℕ → ℕ → S → Str
  -- the whole content of an object
  pub dtio_write : Str → Str → S → S
  pub dtio_stat : Str → S → StatReply

-- `(uint8_t)H5L_TYPE_HARD` and `(uint8_t)H5L_TYPE_SOFT`.
pub record LinkTypes : Type 0 where
  pub type_hard : ℕ
  pub type_soft : ℕ

-- The two types have two codes, each in a byte.
pub record LinkTypesLaws (T : LinkTypes) : Type 0 where
  pub hard_byte : T.type_hard < 256
  pub soft_byte : T.type_soft < 256
  pub types_apart : T.type_hard ≢ T.type_soft

-- A key's value is that of the last write that succeeded, and no other key has changed.
pub record OmapLaws {S : Type 0} (api : StoreApi S) : Type 0 where
  pub get-set :
      (o n o' n' bytes : Str) (s : S)
      → (api.omap_set o n bytes s).0 ≡ written
      → api.omap_get o' n' (api.omap_set o n bytes s).1
        ≡ (if (o == o') && (n == n') then value bytes else api.omap_get o' n' s)

-- What is written as an object's content is read back, and changes no other object's content; the maps
-- and the contents are apart.
pub record DataLaws {S : Type 0} (api : StoreApi S) : Type 0 where
  pub read-write :
      (o bytes : Str) (s : S) → api.dtio_read o (length bytes) 0 (api.dtio_write o bytes s) ≡ bytes
  pub read-write_other :
      (o o' bytes : Str) (n off : ℕ) (s : S)
      → o ≢ o'
      → api.dtio_read o' n off (api.dtio_write o bytes s) ≡ api.dtio_read o' n off s
  pub read-set :
      (o k v o' : Str) (n off : ℕ) (s : S)
      → api.dtio_read o' n off (api.omap_set o k v s).1 ≡ api.dtio_read o' n off s
