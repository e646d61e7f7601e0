-- ===== src/Vol/Links/Laws.antt =====
-- What a link written by adapter/vol/vol-old/H5VLDTIO.cc is read as.
use dtio.Prelude.{
  ℕ, ◌^◌, ◌<◌, ◌≡◌, inl, inr, refl, sym, ap, ◌∙◌, [], ◌∷◌, Option, none, some, Bool, true, Str,
  if◌then◌else◌, ◌==◌, nat_eq, str_eq, ◌&&◌, Bool-cases, nat_beq_iff, arith,
}
use dtio.Exec.{Exec, ok, fault, wild_copy}
use dtio.Vol.Objects.{LinkVal, hard, soft, unsupported, AccessFlags}
use dtio.Vol.Store.{
  StoreApi, LinkTypes, LinkTypesLaws, OmapLaws, value, WriteReply, written, no_write_op,
  write_failed,
}
use dtio.Vol.Words.{uint64_encode, uint64_decode, uint64_decode-uint64_encode}
use dtio.Vol.Links.{
  link_read, link_write, write_value, after_reply, decode_reply, decode_link, encode_link,
}
use mathlib.Core.Bool.{false≢true}
use mathlib.Core.List.{append-nil}

-- What the value of a link is decoded to: a hard link comes back, a soft link only if its target is
-- empty.
abbrev pub decoded : LinkVal → Exec (Option LinkVal)
decoded (hard oid) = ok (some (hard oid))
decoded (soft []) = ok (some (soft []))
decoded (soft (c ∷ target)) = fault wild_copy
decoded unsupported = ok none

abbrev pub IsOid : LinkVal → Type 0
IsOid (hard oid) = oid < 2 ^ 64
IsOid _ = Unit

hard_back :
    (T : LinkTypes) (oid : ℕ)
    → oid < 2 ^ 64
    → decode_link T (T.type_hard ∷ uint64_encode oid) ≡ ok (some (hard oid))
unfolding decode_link
hard_back T oid small = rw ((nat_beq_iff T.type_hard T.type_hard).1 refl, whole) refl
  where
    whole : uint64_decode (uint64_encode oid) ≡ ok (oid, [])
    whole = rw (append-nil (uint64_encode oid)) at (uint64_decode-uint64_encode oid [] small)

soft_back :
    (T : LinkTypes)
    → LinkTypesLaws T
    → (target : Str) → decode_link T (T.type_soft ∷ target) ≡ decoded (soft target)
unfolding decode_link
soft_back T laws [] = ground (arith, laws.types_apart)
soft_back T laws (c ∷ target) = ground (arith, laws.types_apart)

decode-encode :
    (T : LinkTypes)
    → LinkTypesLaws T
    → (val : LinkVal) (bytes : Str) → IsOid val
    → encode_link T val ≡ some bytes
    → decode_link T bytes ≡ decoded val
unfolding encode_link
decode-encode T laws (hard oid) bytes small e = cc (hard_back T oid small)
decode-encode T laws (soft target) bytes small e = cc (soft_back T laws target)
decode-encode T laws unsupported bytes small e = absurd (cc)

module _ {S : Type 0} (api : StoreApi S) (T : LinkTypes) where
  reply_cases :
      (reply : WriteReply) (before after s' : S)
      → after_reply reply before after ≡ (true, s')
      → (reply ≡ written) × (s' ≡ after)
  reply_cases no_write_op before after s' h = absurd (false≢true (ap (λ (r : Bool × S). r.0) h))
  reply_cases write_failed before after s' h = absurd (false≢true (ap (λ (r : Bool × S). r.0) h))
  reply_cases written before after s' h = (refl, sym (ap (λ (r : Bool × S). r.1) h))

  value_cases :
      (o n : Str) (encoded : Option Str) (s s' : S)
      → write_value api o n encoded s ≡ (true, s')
      → (bytes : Str) × (encoded ≡ some bytes)
        × ((api.omap_set o n bytes s).0 ≡ written)
        × (s' ≡ (api.omap_set o n bytes s).1)
  value_cases o n none s s' h = absurd (false≢true (ap (λ (r : Bool × S). r.0) h))
  value_cases o n (some bytes) s s' h =
      let (done, after) =
        reply_cases (api.omap_set o n bytes s).0 s (api.omap_set o n bytes s).1 s' h in
      (bytes, refl, done, after)

  -- `link_write` succeeds only on a file that was opened for writing and for a type of link that it
  -- can encode.
  pub write_cases :
      (flags : AccessFlags) (o n : Str) (val : LinkVal) (s s' : S)
      → link_write api T flags o n val s ≡ (true, s')
      → (bytes : Str) × (flags.acc_rdwr ≡ true)
        × (encode_link T val ≡ some bytes)
        × ((api.omap_set o n bytes s).0 ≡ written)
        × (s' ≡ (api.omap_set o n bytes s).1)
  unfolding link_write
  write_cases flags o n val s s' h = elim (Bool-cases flags.acc_rdwr) [
    | inl e ↦
        let (bytes, encoded, done, after) =
          value_cases o n (encode_link T val) s s' (rw (e, link_write) at h) in
        (bytes, e, encoded, done, after)
    | inr e ↦ absurd (false≢true (ap (λ (r : Bool × S). r.0) (rw (e, link_write) at h)))
  ]

  module _ (laws : OmapLaws api) (types : LinkTypesLaws T) where
    read_decodes :
        (o n : Str) (bytes : Str) (s : S)
        → api.omap_get o n s ≡ value bytes
        → link_read api T o n s ≡ decode_link T bytes
    unfolding link_read
    read_decodes o n bytes s e = ap (decode_reply T) e

    read_same :
        (o n : Str) (s s' : S)
        → api.omap_get o n s' ≡ api.omap_get o n s
        → link_read api T o n s' ≡ link_read api T o n s
    unfolding link_read
    read_same o n s s' e = ap (decode_reply T) e

    -- After a link was written, its name reads as that link, save that reading a soft link with a
    -- target copies from behind an object; every other name of every group reads as before.
    pub link_read-link_write :
        (flags : AccessFlags) (o n o' n' : Str) (val : LinkVal) (s s' : S)
        → IsOid val
        → link_write api T flags o n val s ≡ (true, s')
        → link_read api T o' n' s'
          ≡ (if (o == o') && (n == n') then decoded val else link_read api T o' n' s)
    link_read-link_write flags o n o' n' val s s' small h =
        let (bytes, _, encoded, done, after) = write_cases flags o n val s s' h in
        let got = laws.get-set o n o' n' bytes s done in
        elim (Bool-cases ((o == o') && (n == n'))) [
          | inl e ↦
              rw (e, after)
                (read_decodes o' n' bytes (api.omap_set o n bytes s).1 (rw e at got)
                  ∙ decode-encode T types val bytes small encoded)
          | inr e ↦ rw (e, after) (read_same o' n' s (api.omap_set o n bytes s).1 (rw e at got))
        ]
