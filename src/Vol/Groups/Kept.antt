-- ===== src/Vol/Groups/Kept.antt =====
-- What traversing a path and following a link in adapter/vol/vol-old/H5VLDTIO.cc leave as it is: of the
-- file, only the groups in memory change.
use dtio.Prelude.{
  ℕ, zero, suc, ◌+◌, if◌then◌else◌, ◌≡◌, refl, ap, ◌∙◌, Bool, true, false, not, List, [], ◌∷◌,
  Option, none, some, Str, nat_eq, str_eq, ◌==◌,
}
use dtio.Prelude.Dict.{Dict, lookup, insert}
use dtio.Exec.{Exec, ok, fault, failed_assertion, guard, ◌>>=◌, ◌>>◌}
use dtio.Vol.Objects.{LinkVal, hard, soft, unsupported}
use dtio.Vol.Store.{StoreApi, LinkTypes}
use dtio.Vol.Oids.{oid_create_string}
use dtio.Vol.Groups.{
  Group, PlistApi, World, Item, deref, released, group_close, group_retain, group_open_helper,
  stored_gcpl, allocate, with_heap, counted, item_group,
}
use dtio.Vol.Groups.Paths.{
  Follow, traverse_loop, next_group, group_traverse, traverse_from, start_of, split_path, named,
  with_last, end_of_soft, follow_link, link_follow, names_itself, read_from,
}

module _ {S : Type 0} where
  -- Two states of a file that differ in the groups in memory at most.
  pub record IsSameFile (w w' : World S) : Type 0 where
    pub same : w' ≡ record w { heap = w'.heap; fresh_ptr = w'.fresh_ptr }

  abbrev pub is_same :
      (w : World S) (heap : Dict ℕ Group) (p : ℕ)
      → IsSameFile w (record w { heap = heap; fresh_ptr = p })
  is_same w heap p = record { same = refl }

  pub then_same : (w w' w'' : World S) → IsSameFile w w' → IsSameFile w' w'' → IsSameFile w w''
  then_same w w' w'' h k = record {
    same =
        k.same
        ∙ ap (λ (x : World S). record x { heap = w''.heap; fresh_ptr = w''.fresh_ptr }) h.same;
  }

  -- Where a run returns, it leaves the rest of the file.
  abbrev pub Keeps {ℓ} : {A : Type ℓ} → World S → Exec (A × World S) → Type 0
  Keeps w (fault e) = Unit
  Keeps w (ok (a, w')) = IsSameFile w w'

  abbrev pub KeepsFile : World S → Exec (World S) → Type 0
  KeepsFile w (fault e) = Unit
  KeepsFile w (ok w') = IsSameFile w w'

  pub Keeps-bind :
      {A B : Type 0} (w : World S) (m : Exec (A × World S)) (f : A × World S → Exec (B × World S))
      → Keeps w m
      → ((a : A) (w' : World S) → Keeps w' (f (a, w')))
      → Keeps w (m >>= f)
  Keeps-bind w (fault e) f h k = tt
  Keeps-bind {B = B} w (ok (a, w')) f h k = after (f (a, w')) (k a w')
    where
      after : (r : Exec (B × World S)) → Keeps w' r → Keeps w r
      after (fault e) h' = tt
      after (ok (b, w'')) h' = then_same w w' w'' h h'

  pub KeepsFile-bind :
      {B : Type 0} (w : World S) (m : Exec (World S)) (f : World S → Exec (B × World S))
      → KeepsFile w m
      → ((w' : World S) → Keeps w' (f w'))
      → Keeps w (m >>= f)
  KeepsFile-bind w (fault e) f h k = tt
  KeepsFile-bind {B = B} w (ok w') f h k = after (f w') (k w')
    where
      after : (r : Exec (B × World S)) → Keeps w' r → Keeps w r
      after (fault e) h' = tt
      after (ok (b, w'')) h' = then_same w w' w'' h h'

  pub Keeps-value :
      {A : Type 0} (w : World S) (m : Exec A) (f : A → Exec (Option ℕ × World S))
      → ((a : A) → Keeps w (f a))
      → Keeps w (m >>= f)
  Keeps-value w (fault e) f k = tt
  Keeps-value w (ok a) f k = k a

  pub KeepsFile-group_close : (p : ℕ) (w : World S) → KeepsFile w (group_close p w)
  unfolding group_close
  KeepsFile-group_close p w = by (lookup p w.heap)
    where
      cases : (g : Group) (b : Bool) → g.rc == 1 ≡ b → IsSameFile w (released p w g)
      cases g true e = rw e (record { same = refl })
      cases g false e = rw e (record { same = refl })

      by : (o : Option Group) → KeepsFile w (deref o >>= λ g. ok (released p w g))
      by none = tt
      by (some g) = cases g (g.rc == 1) refl

  pub KeepsFile-group_retain : (p : ℕ) (w : World S) → KeepsFile w (group_retain p w)
  unfolding group_retain
  KeepsFile-group_retain p w = by (lookup p w.heap)
    where
      by :
          (o : Option Group)
          → KeepsFile w (deref o >>= λ g. ok (with_heap (insert p (counted (g.rc + 1) g) w.heap) w))
      by none = tt
      by (some g) = record { same = refl }

  pub Keeps-group_open_helper :
      (api : StoreApi S) (plists : PlistApi) (o : ℕ) (w : World S)
      → Keeps w (group_open_helper api plists o w)
  unfolding group_open_helper
  Keeps-group_open_helper api plists o w = by (oid_create_string w.file_name o)
    where
      by_text :
          (text : Option Str)
          → Keeps w (
              stored_gcpl api plists text w.store >>= λ gcpl.
              ok (allocate (record { bin_oid = o; oid = text; rc = 1; gcpl_id = gcpl }) w))
      by_text none = tt
      by_text (some t) = record { same = refl }

      by :
          (r : Exec (Option Str))
          → Keeps w (
              r >>= λ text. stored_gcpl api plists text w.store >>= λ gcpl.
              ok (allocate (record { bin_oid = o; oid = text; rc = 1; gcpl_id = gcpl }) w))
      by (fault e) = tt
      by (ok text) = by_text text

module _ {S : Type 0} (api : StoreApi S) (T : LinkTypes) (plists : PlistApi) where
  abbrev AllKeep : Follow S → Type 0
  AllKeep follow = (p : ℕ) (name : Str) (w : World S) → Keeps w (follow p name w)

  Keeps-next_group :
      (next : ℕ → World S → Exec (Option ℕ × World S)) (grp : ℕ) (found : Option ℕ) (w : World S)
      → ((p : ℕ) (w' : World S) → Keeps w' (next p w'))
      → Keeps w (next_group api T plists next grp (found, w))
  Keeps-next_group next grp none w k =
      KeepsFile-bind w (group_close grp w) (λ w'. ok (none, w')) (KeepsFile-group_close grp w)
        (λ w'. record { same = refl })
  Keeps-next_group next grp (some oid) w k =
      KeepsFile-bind w (group_close grp w)
        (λ w'. group_open_helper api plists oid w' >>= λ opened. next opened.0 opened.1)
        (KeepsFile-group_close grp w)
        (λ w'.
          Keeps-bind w' (group_open_helper api plists oid w') (λ opened. next opened.0 opened.1)
            (Keeps-group_open_helper api plists oid w') k)

  Keeps-traverse_loop :
      (follow : Follow S) (comps : List Str) (grp : ℕ) (w : World S)
      → AllKeep follow
      → Keeps w (traverse_loop api T plists follow comps grp w)
  unfolding traverse_loop
  Keeps-traverse_loop follow [] grp w h = record { same = refl }
  Keeps-traverse_loop follow (comp ∷ comps) grp w h =
      guarded (not (comp == [])) (λ p w'. Keeps-traverse_loop follow comps p w' h)
    where
      rest : Exec (Option ℕ × World S)
      rest =
          follow grp comp w
          >>= next_group api T plists (traverse_loop api T plists follow comps) grp

      guarded :
          (b : Bool)
          → ((p : ℕ) (w' : World S) → Keeps w' (traverse_loop api T plists follow comps p w'))
          → Keeps w (guard b failed_assertion >> rest)
      guarded false k = tt
      guarded true k =
          Keeps-bind w (follow grp comp w)
            (next_group api T plists (traverse_loop api T plists follow comps) grp) (h grp comp w)
            (λ found w'. Keeps-next_group (traverse_loop api T plists follow comps) grp found w' k)

  pub Keeps-group_traverse :
      (follow : Follow S) (item : Item) (path : Str) (w : World S)
      → AllKeep follow
      → Keeps w (group_traverse api T plists follow item path w)
  unfolding group_traverse
  Keeps-group_traverse follow item path w h = from (start_of api T plists item path w)
    where
      from : (o : Option (ℕ × Str)) → Keeps w (traverse_from api T plists follow o w)
      from none = record { same = refl }
      from (some (grp, rest)) =
          KeepsFile-bind w (group_retain grp w)
            (λ w1.
              with_last (split_path rest).1
                (traverse_loop api T plists follow (split_path rest).0 grp w1))
            (KeepsFile-group_retain grp w)
            (λ w1.
              Keeps-bind w1 (traverse_loop api T plists follow (split_path rest).0 grp w1)
                (λ r. ok (named (split_path rest).1 r.0, r.1))
                (Keeps-traverse_loop follow (split_path rest).0 grp w1 h)
                (λ r w2. record { same = refl }))

  Keeps-end_of_soft :
      (follow : Follow S) (o : Option (ℕ × Str)) (w : World S)
      → AllKeep follow
      → Keeps w (end_of_soft api T plists follow (o, w))
  Keeps-end_of_soft follow none w h = record { same = refl }
  Keeps-end_of_soft follow (some (target_grp, target_name)) w h =
      Keeps-bind w found (λ r. group_close target_grp r.1 >>= λ w'. ok (r.0, w'))
        (by (names_itself target_name))
        (λ r w1.
          KeepsFile-bind w1 (group_close target_grp w1) (λ w'. ok (r, w'))
            (KeepsFile-group_close target_grp w1) (λ w2. record { same = refl }))
    where
      itself : Exec (Option ℕ × World S)
      itself = deref (lookup target_grp w.heap) >>= λ g. ok (some g.bin_oid, w)

      found : Exec (Option ℕ × World S)
      found = if names_itself target_name then itself else follow target_grp target_name w

      by : (b : Bool) → Keeps w (if b then itself else follow target_grp target_name w)
      by true =
          Keeps-value w (deref (lookup target_grp w.heap)) (λ g. ok (some g.bin_oid, w))
            (λ g. record { same = refl })
      by false = h target_grp target_name w

  Keeps-follow_link :
      (follow : Follow S) (grp : ℕ) (w : World S) (v : Option LinkVal)
      → AllKeep follow
      → Keeps w (follow_link api T plists follow grp w v)
  Keeps-follow_link follow grp w none h = record { same = refl }
  Keeps-follow_link follow grp w (some (hard oid)) h = record { same = refl }
  Keeps-follow_link follow grp w (some (soft target)) h =
      Keeps-bind w (group_traverse api T plists follow (item_group grp) target w)
        (end_of_soft api T plists follow) (Keeps-group_traverse follow (item_group grp) target w h)
        (λ o w'. Keeps-end_of_soft follow o w' h)
  Keeps-follow_link follow grp w (some unsupported) h = record { same = refl }

  -- Following a link changes the groups in memory at most, whatever it finds.
  pub Keeps-link_follow : (depth : ℕ) → AllKeep (link_follow api T plists depth)
  unfolding link_follow
  Keeps-link_follow zero grp name w = tt
  Keeps-link_follow (suc depth) grp name w =
      Keeps-value w (deref (lookup grp w.heap))
        (λ g.
          read_from api T plists g.oid name w
          >>= follow_link api T plists (link_follow api T plists depth) grp w)
        (λ g.
          Keeps-value w (read_from api T plists g.oid name w)
            (follow_link api T plists (link_follow api T plists depth) grp w)
            (λ v.
              Keeps-follow_link (link_follow api T plists depth) grp w v (Keeps-link_follow depth)))
