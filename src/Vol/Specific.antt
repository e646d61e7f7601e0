-- ===== src/Vol/Specific.antt =====
-- `H5VL_dtio_file_specific` of adapter/vol/vol-old/H5VLDTIO.cc. Its parameter `file` and the names
-- `specific_type`, `item` and `arguments` of its body, which it does not declare, are taken for the file
-- and for the kind of the question.
pub mod Accessible
use dtio.Prelude.{ℕ, Bool, not, Option, none, some, Str, nat_eq, ◌==◌}
use dtio.Exec.{Exec, ok, ◌>>=◌}
use dtio.Vol.Store.{StoreApi, LinkTypes}
use dtio.Vol.Oids.{oid_create_string}
use dtio.Vol.Groups.{PlistApi, World, stat_size}
use dtio.Vol.Files.{file_flush, oid_of}

pub data FileSpecific : Type 0 where
  flush_file : FileSpecific
  is_accessible : Str → FileSpecific
  other_specific : FileSpecific

module _ {S : Type 0} (api : StoreApi S) (T : LinkTypes) (plists : PlistApi) where
  -- Whether there is an object for the index of a file. A size that cannot be found is 0.
  unfoldable pub accessible : Str → S → Exec Bool
  accessible name s = oid_create_string name 0 >>= λ text.
      oid_of text >>= λ glob_md_oid. ok (not (stat_size (api.dtio_stat glob_md_oid s) == 0))

  -- The answer, if there is one to the question, and the file. Other questions are only reported.
  unfoldable pub file_specific : FileSpecific → World S → Exec (Option Bool × World S)
  unfolding accessible
  file_specific flush_file w = ok (none, file_flush api T plists w)
  file_specific (is_accessible name) w = accessible name w.store >>= λ b. ok (some b, w)
  file_specific other_specific w = ok (none, w)
