-- ===== src/Vol/Groups/Paths.antt =====
-- `H5VL_dtio_link_follow`, `H5VL_dtio_link_follow_comp` and `H5VL_dtio_group_traverse` of
-- adapter/vol/vol-old/H5VLDTIO.cc. The terminators that they write into a path and take back are not
-- seen by anyone else, so a component is a text of its own.
use dtio.Prelude.{
  ℕ, zero, suc, Bool, ◌||◌, not, List, [], ◌∷◌, Option, none, some, Str, codes, if◌then◌else◌,
  nat_eq, str_eq, ◌==◌,
}
use dtio.Prelude.Dict.{lookup}
use dtio.Exec.{Exec, ok, fault, bad_pointer, stack_overflow, failed_assertion, ◌>>=◌, ◌>>◌, guard}
use dtio.Vol.Objects.{LinkVal, hard, soft, unsupported}
use dtio.Vol.Store.{StoreApi, LinkTypes}
use dtio.Vol.Links.{link_read}
use dtio.Vol.Groups.{
  PlistApi, World, Item, item_file, item_group, item_other, deref, group_close, group_retain,
  group_open_helper,
}

abbrev pub slash : ℕ
slash = 47

-- The components that end at a `/`, and what stands behind the last one, as the calls of `strchr` find
-- them.
abbrev add_byte : ℕ → List Str × Str → List Str × Str
add_byte c ([], last) = ([], c ∷ last)
add_byte c (comp ∷ comps, last) = ((c ∷ comp) ∷ comps, last)

unfoldable pub split_path : Str → List Str × Str
split_path [] = ([], [])
split_path (c ∷ path) =
    let rest = split_path path in if c == slash then ([] ∷ rest.0, rest.1) else add_byte c rest

-- The name is `""` or `"."`.
abbrev pub names_itself : Str → Bool
names_itself name = name == [] || name == codes "."

-- The group that was found, with the last component of the path.
abbrev pub named : Str → Option ℕ → Option (ℕ × Str)
named last none = none
named last (some grp) = some (grp, last)

abbrev pub with_last :
    {S : Type 0} → Str → Exec (Option ℕ × World S) → Exec (Option (ℕ × Str) × World S)
with_last last run = run >>= λ r. ok (named last r.0, r.1)

-- Following the link of a name from the group at an address: the identifier, or `FAIL`.
abbrev pub Follow : Type 0 → Type 0
Follow S = ℕ → Str → World S → Exec (Option ℕ × World S)

module _ {S : Type 0} (api : StoreApi S) (T : LinkTypes) (plists : PlistApi) where
  -- The end of a round of the loop, by what `H5VL_dtio_link_follow_comp` returned; `next` are the
  -- rounds that follow.
  abbrev pub next_group :
      (ℕ → World S → Exec (Option ℕ × World S)) → ℕ → Option ℕ × World S → Exec (Option ℕ × World S)
  next_group next grp (none, w) = group_close grp w >>= λ w'. ok (none, w')
  next_group next grp (some oid, w) = group_close grp w >>= λ w'.
      group_open_helper api plists oid w' >>= λ opened. next opened.0 opened.1

  unfoldable pub traverse_loop : Follow S → List Str → ℕ → World S → Exec (Option ℕ × World S)
  traverse_loop follow [] grp w = ok (some grp, w)
  traverse_loop follow (comp ∷ comps) grp w =
      guard (not (comp == [])) failed_assertion
      >> (follow grp comp w >>= next_group (traverse_loop follow comps) grp)

  -- The starting group and the path from there.
  abbrev pub start_of : Item → Str → World S → Option (ℕ × Str)
  start_of item [] w = elim item [
    | item_file ↦ some (w.root, [])
    | item_group p ↦ some (p, [])
    | item_other ↦ none
  ]
  start_of item (c ∷ path) w = if c == slash then some (w.root, path) else elim item [
    | item_file ↦ some (w.root, c ∷ path)
    | item_group p ↦ some (p, c ∷ path)
    | item_other ↦ none
  ]

  abbrev pub traverse_from :
      Follow S → Option (ℕ × Str) → World S → Exec (Option (ℕ × Str) × World S)
  traverse_from follow none w = ok (none, w)
  traverse_from follow (some (grp, path)) w =
      let parts = split_path path in
      group_retain grp w >>= λ w1. with_last parts.1 (traverse_loop follow parts.0 grp w1)

  -- The group and the last component of the path, which is no group yet, or `NULL`.
  unfoldable pub group_traverse :
      Follow S → Item → Str → World S → Exec (Option (ℕ × Str) × World S)
  group_traverse follow item path w = traverse_from follow (start_of item path w) w

  -- The end of a soft link, by what the traversal returned.
  abbrev pub end_of_soft : Follow S → Option (ℕ × Str) × World S → Exec (Option ℕ × World S)
  end_of_soft follow (none, w) = ok (none, w)
  end_of_soft follow (some (target_grp, target_name), w) =
      let found =
        if names_itself target_name
        then (deref (lookup target_grp w.heap) >>= λ g. ok (some g.bin_oid, w))
        else follow target_grp target_name w in
      found >>= λ r. group_close target_grp r.1 >>= λ w'. ok (r.0, w')

  abbrev pub follow_link : Follow S → ℕ → World S → Option LinkVal → Exec (Option ℕ × World S)
  follow_link follow grp w none = ok (none, w)
  follow_link follow grp w (some (hard oid)) = ok (some oid, w)
  follow_link follow grp w (some (soft target)) =
      group_traverse follow (item_group grp) target w >>= end_of_soft follow
  follow_link follow grp w (some unsupported) = ok (none, w)

  abbrev pub read_from : Option Str → Str → World S → Exec (Option LinkVal)
  read_from none name w = fault bad_pointer
  read_from (some oid) name w = link_read api T oid name w.store

  -- `depth` is the number of nested calls that the stack holds.
  unfoldable pub link_follow : ℕ → Follow S
  link_follow zero grp name w = fault stack_overflow
  link_follow (suc depth) grp name w = deref (lookup grp w.heap) >>= λ g.
      read_from g.oid name w >>= follow_link (link_follow depth) grp w
