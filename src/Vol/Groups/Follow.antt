-- ===== src/Vol/Groups/Follow.antt =====
-- `H5VL_dtio_link_follow` of adapter/vol/vol-old/H5VLDTIO.cc reads one link: a soft link that can be
-- read has an empty target, which is the path of the group itself.
use dtio.Prelude.{
  ℕ, suc, ◌<◌, ◌≡◌, refl, ap, ◌∙◌, Bool, true, false, List, [], ◌∷◌, Option, none, some, Str,
  if◌then◌else◌, ◌==◌, nat_eq,
}
use dtio.Prelude.Dict.{lookup}
use dtio.Exec.{Exec, ok, fault, ◌>>=◌}
use dtio.Vol.Objects.{LinkVal, hard, soft, unsupported}
use dtio.Vol.Store.{
  StoreApi, LinkTypes, OmapReply, value, no_read_op, read_failed, key_failed, next_failed,
}
use dtio.Vol.Words.{uint64_decode}
use dtio.Vol.Links.{link_read, decode_reply, decode_link, copy_target}
use dtio.Vol.Groups.{Group, PlistApi, World, group_close, deref, item_group}
use dtio.Vol.Groups.Heap.{retained, group_retain-Holds}
use dtio.Vol.Groups.Paths.{
  Follow, link_follow, follow_link, read_from, end_of_soft, group_traverse, traverse_loop,
  split_path,
}

-- Not a soft link with a target.
abbrev NoTarget : Exec (Option LinkVal) → Type 0
NoTarget (ok (some (soft (c ∷ target)))) = ⊥
NoTarget (ok (some (soft []))) = Unit
NoTarget (ok (some (hard oid))) = Unit
NoTarget (ok (some unsupported)) = Unit
NoTarget (ok none) = Unit
NoTarget (fault e) = Unit

hard_NoTarget : (r : Exec (ℕ × List ℕ)) → NoTarget (r >>= λ (oid, rest). ok (some (hard oid)))
hard_NoTarget (ok (oid, rest)) = tt
hard_NoTarget (fault e) = tt

either_NoTarget :
    (b : Bool) (x y : Exec (Option LinkVal))
    → NoTarget x
    → NoTarget y
    → NoTarget (if b then x else y)
either_NoTarget true x y h k = h
either_NoTarget false x y h k = k

copied_NoTarget : (p : Str) → NoTarget (copy_target p)
copied_NoTarget [] = tt
copied_NoTarget (b ∷ p) = tt

decode_link-NoTarget : (T : LinkTypes) (v : Str) → NoTarget (decode_link T v)
unfolding decode_link
decode_link-NoTarget T [] = tt
decode_link-NoTarget T (t ∷ p) =
    either_NoTarget (t == T.type_hard) (uint64_decode p >>= λ (oid, rest). ok (some (hard oid)))
      (if t == T.type_soft then copy_target p else ok none) (hard_NoTarget (uint64_decode p))
      (either_NoTarget (t == T.type_soft) (copy_target p) (ok none) (copied_NoTarget p) tt)

decode_reply-NoTarget : (T : LinkTypes) (reply : OmapReply) → NoTarget (decode_reply T reply)
unfolding decode_reply
decode_reply-NoTarget T no_read_op = tt
decode_reply-NoTarget T read_failed = tt
decode_reply-NoTarget T key_failed = tt
decode_reply-NoTarget T next_failed = tt
decode_reply-NoTarget T (value v) = decode_link-NoTarget T v

-- The identifier that a link leads to from a group.
abbrev pub link_target : ℕ → Option LinkVal → Option ℕ
link_target own none = none
link_target own (some (hard oid)) = some oid
link_target own (some (soft target)) = some own
link_target own (some unsupported) = none

module _ {S : Type 0} (api : StoreApi S) (T : LinkTypes) (plists : PlistApi) where
  soft_itself :
      (follow : Follow S) (grp : ℕ) (w : World S) (g : Group)
      → lookup grp w.heap ≡ some g
      → 0 < g.rc
      → (group_traverse api T plists follow (item_group grp) [] w
          >>= end_of_soft api T plists follow)
        ≡ ok (some g.bin_oid, w)
  unfolding group_traverse traverse_loop split_path
  soft_itself follow grp w g e positive =
      let (retains, (found, closes)) = group_retain-Holds grp w g e positive in
      ap (λ (m : Exec (World S)). (m >>= itself grp) >>= end_of_soft api T plists follow) retains
      ∙ (ap (λ (m : Option Group). (deref m >>= own_oid (retained grp g w)) >>= closed grp) found
          ∙ ap (λ (m : Exec (World S)). m >>= with_oid g.bin_oid) closes)
    where
      itself : ℕ → World S → Exec (Option (ℕ × Str) × World S)
      itself p w1 = ok (some (p, []), w1)

      own_oid : World S → Group → Exec (Option ℕ × World S)
      own_oid w1 x = ok (some x.bin_oid, w1)

      closed : ℕ → Option ℕ × World S → Exec (Option ℕ × World S)
      closed p r = group_close p r.1 >>= λ w'. ok (r.0, w')

      with_oid : ℕ → World S → Exec (Option ℕ × World S)
      with_oid o w' = ok (some o, w')

  follow_value :
      (follow : Follow S) (grp : ℕ) (w : World S) (g : Group) (v : Exec (Option LinkVal))
      → lookup grp w.heap ≡ some g
      → 0 < g.rc
      → NoTarget v
      → (v >>= follow_link api T plists follow grp w)
        ≡ (v >>= λ val. ok (link_target g.bin_oid val, w))
  follow_value follow grp w g (ok none) e p h = refl
  follow_value follow grp w g (ok (some (hard oid))) e p h = refl
  follow_value follow grp w g (ok (some (soft []))) e p h = soft_itself follow grp w g e p
  follow_value follow grp w g (ok (some (soft (c ∷ target)))) e p h = absurd h
  follow_value follow grp w g (ok (some unsupported)) e p h = refl
  follow_value follow grp w g (fault f) e p h = refl

  -- Following a link reads it once and leaves the groups and the store as they are, with a stack of
  -- any depth.
  pub link_follow_lem :
      (depth grp : ℕ) (name text : Str) (w : World S) (g : Group)
      → lookup grp w.heap ≡ some g
      → 0 < g.rc
      → g.oid ≡ some text
      → link_follow api T plists (suc depth) grp name w
        ≡ (link_read api T text name w.store >>= λ val. ok (link_target g.bin_oid val, w))
  unfolding link_follow link_read
  link_follow_lem depth grp name text w g e p t =
      ap
        (λ (m : Option Group). deref m >>= λ x.
          (read_from api T plists x.oid name w
            >>= follow_link api T plists (link_follow api T plists depth) grp w))
        e
      ∙ (ap
            (λ (m : Option Str).
              read_from api T plists m name w
              >>= follow_link api T plists (link_follow api T plists depth) grp w)
            t
          ∙ follow_value (link_follow api T plists depth) grp w g
              (decode_reply T (api.omap_get text name w.store)) e p
              (decode_reply-NoTarget T (api.omap_get text name w.store)))
