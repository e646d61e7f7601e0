-- ===== src/Vol/Links.antt =====
-- `H5VL_dtio_link_read` and `H5VL_dtio_link_write` of adapter/vol/vol-old/H5VLDTIO.cc: a link is a
-- value in the map of its group's object, a byte for its type and then its target. The buffers that
-- the functions allocate are always given.
pub mod Laws
use dtio.Prelude.{
  ℕ, List, [], ◌∷◌, ◌++◌, Option, none, some, Bool, true, false, Str, if◌then◌else◌, ◌==◌, nat_eq,
}
use dtio.Exec.{Exec, ok, fault, wild_copy, ◌>>=◌}
use dtio.Vol.Objects.{LinkVal, hard, soft, unsupported, AccessFlags}
use dtio.Vol.Store.{
  StoreApi, LinkTypes, OmapReply, no_read_op, read_failed, key_failed, next_failed, value,
  WriteReply, no_write_op, write_failed, written,
}
use dtio.Vol.Words.{uint64_encode, uint64_decode}

-- `memcpy(val->target.soft, val + 1, val_len - 1)`: the source is not the value but what stands
-- behind the struct `*val`, of which nothing may be read.
abbrev pub copy_target : Str → Exec (Option LinkVal)
copy_target [] = ok (some (soft []))
copy_target (b ∷ p) = fault wild_copy

unfoldable pub decode_link : LinkTypes → Str → Exec (Option LinkVal)
unfolding uint64_decode
decode_link T [] = ok none
decode_link T (t ∷ p) =
    if t == T.type_hard
    then (uint64_decode p >>= λ (oid, rest). ok (some (hard oid)))
    else if t == T.type_soft
    then copy_target p
    else ok none

unfoldable pub decode_reply : LinkTypes → OmapReply → Exec (Option LinkVal)
unfolding decode_link
decode_reply T no_read_op = ok none
decode_reply T read_failed = ok none
decode_reply T key_failed = ok none
decode_reply T next_failed = ok none
decode_reply T (value v) = decode_link T v

-- `none` is `FAIL`.
unfoldable pub link_read :
    {S : Type 0} → StoreApi S → LinkTypes → Str → Str → S → Exec (Option LinkVal)
unfolding decode_reply
link_read api T grp_oid name s = decode_reply T (api.omap_get grp_oid name s)

-- The value that is written, with no terminator behind a soft link's target.
unfoldable pub encode_link : LinkTypes → LinkVal → Option Str
unfolding uint64_encode
encode_link T (hard oid) = some (T.type_hard ∷ uint64_encode oid)
encode_link T (soft target) = some (T.type_soft ∷ target)
encode_link T unsupported = none

-- Whether `SUCCEED` is returned, and the store: before the operation, and after it.
abbrev pub after_reply : {S : Type 0} → WriteReply → S → S → Bool × S
after_reply no_write_op s s' = (false, s)
after_reply write_failed s s' = (false, s')
after_reply written s s' = (true, s')

abbrev pub write_value : {S : Type 0} → StoreApi S → Str → Str → Option Str → S → Bool × S
write_value api grp_oid name none s = (false, s)
write_value api grp_oid name (some bytes) s =
    let result = api.omap_set grp_oid name bytes s in after_reply result.0 s result.1

unfoldable pub link_write :
    {S : Type 0} → StoreApi S → LinkTypes → AccessFlags → Str → Str → LinkVal → S → Bool × S
unfolding encode_link
link_write api T flags grp_oid name val s =
    if flags.acc_rdwr then write_value api grp_oid name (encode_link T val) s else (false, s)
