-- ===== src/Vol/Objects.antt =====
-- The enumerations of HDF5 that adapter/vol/vol-old/H5VLDTIO.cc uses, and its struct for links.
use dtio.Prelude.{ℕ, Bool, Str}

-- `H5I_type_t`; every identifier type that the connector does not name is `h5i_other`.
pub data ItemType : Type 0 where
  h5i_file : ItemType
  h5i_group : ItemType
  h5i_datatype : ItemType
  h5i_dataset : ItemType
  h5i_other : ItemType

-- `H5VL_dtio_link_val_t`; the targets of the other types of links are not used.
pub data LinkVal : Type 0 where
  hard : ℕ → LinkVal
  soft : Str → LinkVal
  unsupported : LinkVal

-- The bits of the flags of an open file that the connector tests or sets.
pub record AccessFlags : Type 0 where
  pub acc_rdwr : Bool
  pub acc_trunc : Bool
  pub acc_excl : Bool
  pub acc_creat : Bool
