-- ===== src/Vol/Groups/Resolve.antt =====
-- `H5VL_dtio_group_traverse` of adapter/vol/vol-old/H5VLDTIO.cc against the resolution of a path in
-- the store alone.
use dtio.Prelude.{
  ℕ, suc, ◌+◌, ◌^◌, ◌<◌, ◌≤◌, ◌≡◌, refl, ap, ◌∙◌, not, List, [], ◌∷◌, Option, none, some, Str,
  length, ◌==◌, nat_eq, str_eq, arith,
}
use dtio.Prelude.Dict.{Dict, lookup}
use dtio.Exec.{Exec, ok, fault, failed_assertion, ◌>>=◌, ◌>>◌, guard}
use dtio.Vol.Objects.{LinkVal}
use dtio.Vol.Store.{StoreApi, LinkTypes}
use dtio.Vol.Links.{link_read}
use dtio.Vol.Groups.{Group, PlistApi, World, Item, group_open_helper, counted, with_heap, allocate}
use dtio.Vol.Groups.Heap.{
  Holds, retained, group_retain-Holds, object_text, opened, group_open_helper-Holds,
}
use dtio.Vol.Groups.Paths.{
  link_follow, group_traverse, traverse_from, traverse_loop, start_of, split_path, next_group,
  with_last,
}
use dtio.Vol.Groups.Follow.{link_target, link_follow_lem}

module _ {S : Type 0} (api : StoreApi S) (T : LinkTypes) (file_name : Str) (s : S) where
  -- The object that a list of components leads to from an object: each is read as a link of the object
  -- before it. An empty component fails the assertion, and a link that cannot be read ends with `FAIL`.
  unfoldable pub resolve : ℕ → List Str → Exec (Option ℕ)
  resolve oid [] = ok (some oid)
  resolve oid (comp ∷ comps) =
      guard (not (comp == [])) failed_assertion
      >> (link_read api T (object_text file_name oid) comp s >>= λ val. elim (link_target oid val) [
        | none ↦ ok none
        | some next ↦ resolve next comps
      ])

-- A traversal that ends as the resolution does. Where it returns a group, that is the object found,
-- its name for the store is right, and closing it leaves the groups as in `base`; where it fails, the
-- groups are those of `base`. Nothing else of the file or the store has changed.
module _ {S : Type 0} (file_name : Str) (s : S) (base : Dict ℕ Group) where
  abbrev IsKept : World S → Type 0
  IsKept w = (w.file_name ≡ file_name) × (w.store ≡ s)

  abbrev pub Agrees : Exec (Option ℕ) → Exec (Option ℕ × World S) → Type 0
  Agrees (fault e) run = run ≡ fault e
  Agrees (ok none) run = (w : World S) × (run ≡ ok (none, w)) × (w.heap ≡ base) × IsKept w
  Agrees (ok (some oid)) run =
      (p : ℕ) × (w : World S) × (g : Group) × (run ≡ ok (some p, w))
      × Holds p w base g
      × (g.bin_oid ≡ oid)
      × (g.oid ≡ some (object_text file_name oid))
      × IsKept w

  -- No group stands at an address that `malloc` is still to give.
  abbrev pub AllBelow : ℕ → Type 0
  AllBelow n = (q : ℕ) → n ≤ q → lookup q base ≡ none

  Agrees-run :
      (r : Exec (Option ℕ)) (run run' : Exec (Option ℕ × World S))
      → run ≡ run'
      → Agrees r run'
      → Agrees r run
  Agrees-run r run run' e h = rw (e) h

module _ {S : Type 0} (api : StoreApi S) (T : LinkTypes) (plists : PlistApi) (depth : ℕ) where
  module _ (file_name : Str) (s : S) (base : Dict ℕ Group)
      (short : length file_name + 18 < 2 ^ 31) where
    abbrev loop : List Str → ℕ → World S → Exec (Option ℕ × World S)
    loop comps p w = traverse_loop api T plists (link_follow api T plists (suc depth)) comps p w

    -- What the loop does for some components, from any group that it holds.
    abbrev LoopAgrees : List Str → Type 0
    LoopAgrees comps =
        (p : ℕ) (w : World S) (g : Group)
        → AllBelow file_name s base w.fresh_ptr
        → IsKept file_name s base w
        → Holds p w base g
        → 0 < g.rc
        → g.oid ≡ some (object_text file_name g.bin_oid)
        → Agrees file_name s base (resolve api T file_name s g.bin_oid comps) (loop comps p w)

    abbrev next_resolved : List Str → Option ℕ → Exec (Option ℕ)
    next_resolved comps t = elim t [
      | none ↦ ok none
      | some next ↦ resolve api T file_name s next comps
    ]

    after_target :
        (comps : List Str) (p : ℕ) (w : World S) (g : Group) (t : Option ℕ)
        → LoopAgrees comps
        → AllBelow file_name s base w.fresh_ptr
        → IsKept file_name s base w
        → Holds p w base g
        → Agrees file_name s base
            (next_resolved comps t)
            (next_group api T plists (loop comps) p (t, w))
    after_target comps p w g none ih below kept (found, closes) = (
      with_heap base w,
      ap (λ (m : Exec (World S)). m >>= λ w'. ok (none, w')) closes,
      refl,
      kept,
    )
    after_target comps p w g (some oid) ih below kept (found, closes) =
        let w1 : World S = with_heap base w in
        let (opens, held) =
          group_open_helper-Holds api plists oid w1 (omega (arith, ap length kept.0))
            (below w.fresh_ptr (omega arith)) in
        Agrees-run file_name s base (resolve api T file_name s oid comps)
          (next_group api T plists (loop comps) p (some oid, w))
          (loop comps w.fresh_ptr (allocate (opened api plists oid w1) w1).1)
          (ap
              (λ (m : Exec (World S)).
                m >>= λ w'. group_open_helper api plists oid w' >>= λ o. loop comps o.0 o.1)
              closes
            ∙ ap (λ (m : Exec (ℕ × World S)). m >>= λ o. loop comps o.0 o.1) opens)
          (ih w.fresh_ptr (allocate (opened api plists oid w1) w1).1 (opened api plists oid w1)
            (λ q h. below q (omega arith)) kept held (omega arith)
            (ap (λ (n : Str). some (object_text n oid)) kept.0))

    after_read :
        (comp : Str) (comps : List Str) (p : ℕ) (w : World S) (g : Group)
        (v : Exec (Option LinkVal))
        → LoopAgrees comps
        → AllBelow file_name s base w.fresh_ptr
        → IsKept file_name s base w
        → Holds p w base g
        → Agrees file_name s base (v >>= λ val. next_resolved comps (link_target g.bin_oid val)) (
            (v >>= λ val. ok (link_target g.bin_oid val, w))
            >>= next_group api T plists (loop comps) p)
    after_read comp comps p w g (fault e) ih below kept held = refl
    after_read comp comps p w g (ok val) ih below kept held =
        after_target comps p w g (link_target g.bin_oid val) ih below kept held

    traverse-LoopAgrees : (comps : List Str) → LoopAgrees comps
    unfolding traverse_loop resolve
    traverse-LoopAgrees [] p w g below kept (found, closes) positive text =
        (p, w, g, refl, (found, closes), refl, text, kept)
    traverse-LoopAgrees ([] ∷ comps) p w g below kept held positive text = refl
    traverse-LoopAgrees ((c ∷ cs) ∷ comps) p w g below kept (found, closes) positive text =
        let reads =
          link_follow_lem api T plists depth p (c ∷ cs) (object_text file_name g.bin_oid) w g found
            positive text in
        Agrees-run file_name s base (resolve api T file_name s g.bin_oid ((c ∷ cs) ∷ comps))
          (traverse_loop api T plists (link_follow api T plists (suc depth)) ((c ∷ cs) ∷ comps) p w)
          ((link_read api T (object_text file_name g.bin_oid) (c ∷ cs) s >>= λ val.
              ok (link_target g.bin_oid val, w))
            >>= next_group api T plists (loop comps) p)
          (ap (λ (m : Exec (Option ℕ × World S)). m >>= next_group api T plists (loop comps) p)
            (reads
              ∙ ap
                  (λ (t : S).
                    link_read api T (object_text file_name g.bin_oid) (c ∷ cs) t >>= λ val.
                    ok (link_target g.bin_oid val, w))
                  kept.1))
          (after_read (c ∷ cs) comps p w g
            (link_read api T (object_text file_name g.bin_oid) (c ∷ cs) s)
            (traverse-LoopAgrees comps) below kept (found, closes))

  -- A path is traversed, with a stack of any depth, as it is resolved in the store from the group
  -- where it starts: the group returned is that which holds the last component, one more reference
  -- to a group is held than before, and none if the traversal fails. The groups at the start must be
  -- known: the starting group is there and has the name of its object, and no group stands at an
  -- address still to be given.
  pub group_traverse-resolve :
      (item : Item) (path rest : Str) (p : ℕ) (w : World S) (g : Group)
      → length w.file_name + 18 < 2 ^ 31
      → AllBelow w.file_name w.store w.heap w.fresh_ptr
      → start_of api T plists item path w ≡ some (p, rest)
      → lookup p w.heap ≡ some g
      → 0 < g.rc
      → g.oid ≡ some (object_text w.file_name g.bin_oid)
      → (run : Exec (Option ℕ × World S)) × (group_traverse api T plists
            (link_follow api T plists (suc depth))
            item
            path
            w
          ≡ with_last (split_path rest).1 run)
        × Agrees w.file_name w.store w.heap
            (resolve api T w.file_name w.store g.bin_oid (split_path rest).0)
            run
  unfolding group_traverse
  group_traverse-resolve item path rest p w g short below start found positive text =
      let (retains, held) = group_retain-Holds p w g found positive in
      (
        loop w.file_name w.store w.heap short (split_path rest).0 p (retained p g w),
        ap
              (λ (m : Option (ℕ × Str)).
                traverse_from api T plists (link_follow api T plists (suc depth)) m w)
              start
            ∙ ap
                (λ (m : Exec (World S)). m >>= λ w1. with_last (split_path rest).1 (
                  traverse_loop api T plists (link_follow api T plists (suc depth))
                    (split_path rest).0 p w1))
                retains,
        traverse-LoopAgrees w.file_name w.store w.heap short (split_path rest).0 p (retained p g w)
            (counted (g.rc + 1) g) below (refl, refl) held (omega arith) text,
      )
