-- ===== src/Vol/Groups/Heap.antt =====
-- Reference counts in adapter/vol/vol-old/H5VLDTIO.cc: a group that is retained or opened and then
-- closed leaves the groups as they were.
use dtio.Prelude.{
  ℕ, ◌+◌, ◌-◌, ◌^◌, ◌<◌, ◌≡◌, ◌≢◌, refl, ap, ◌∙◌, Bool, false, [], ◌∷◌, ◌++◌, Option, none, some,
  Str, codes, length, if◌then◌else◌, nat_eq, ◌==◌, nat_beq_iff, Bool-cases, inl, inr, arith,
}
use dtio.Prelude.Dict.{Dict, lookup, insert, erase, lookup-insert, ==_refl}
use dtio.Exec.{ok, ◌>>=◌}
use dtio.Vol.Store.{StoreApi}
use dtio.Vol.Oids.{hex_word}
use dtio.Vol.Oids.Total.{oid_create_string_total}
use dtio.Vol.Groups.{
  Group, PlistApi, World, group_close, group_retain, group_open_helper, counted, with_heap,
  released, deref, allocate, stat_size,
}

insert-insert : (k : ℕ) (u v : Group) (d : Dict ℕ Group) → insert k v (insert k u d) ≡ insert k v d
unfolding insert
insert-insert k u v [] = rw (==_refl k) refl
insert-insert k u v ((j, w) ∷ d) = ground (arith, insert-insert k u v d)

insert_same : (k : ℕ) (v : Group) (d : Dict ℕ Group) → lookup k d ≡ some v → insert k v d ≡ d
unfolding insert lookup
insert_same k v [] h = absurd (cc)
insert_same k v ((j, w) ∷ d) h = ground (arith, nat_beq_iff j k, insert_same k v d)

erase_absent : (k : ℕ) (d : Dict ℕ Group) → lookup k d ≡ none → erase k d ≡ d
unfolding erase lookup
erase_absent k [] h = refl
erase_absent k ((j, w) ∷ d) h = ground (arith, erase_absent k d)

erase-insert :
    (k : ℕ) (v : Group) (d : Dict ℕ Group) → lookup k d ≡ none → erase k (insert k v d) ≡ d
unfolding erase insert lookup
erase-insert k v [] h = rw (==_refl k) refl
erase-insert k v ((j, w) ∷ d) h = ground (arith, erase-insert k v d)

-- The text of an object of a file.
abbrev pub object_text : Str → ℕ → Str
object_text file_name bin_oid = codes "ob" ++ (file_name ++ hex_word bin_oid)

pub lookup_inserted : (p : ℕ) (g : Group) (d : Dict ℕ Group) → lookup p (insert p g d) ≡ some g
lookup_inserted p g d =
    lookup-insert p p g d ∙ ap (λ (b : Bool). if b then some g else lookup p d) (==_refl p)

module _ {S : Type 0} where
  -- The group is there, and closing it leaves the groups of `base`.
  abbrev pub Holds : ℕ → World S → Dict ℕ Group → Group → Type 0
  Holds p w base g = (lookup p w.heap ≡ some g) × (group_close p w ≡ ok (with_heap base w))

  close_shared :
      (p : ℕ) (w : World S) (g : Group)
      → lookup p w.heap ≡ some g
      → g.rc ≢ 1
      → group_close p w ≡ ok (with_heap (insert p (counted (g.rc - 1) g) w.heap) w)
  unfolding group_close
  close_shared p w g e more =
      ap (λ (m : Option Group). deref m >>= λ x. ok (released p w x)) e
      ∙ ap
          (λ (b : Bool). ok (
            if b
            then with_heap (erase p w.heap) w
            else with_heap (insert p (counted (g.rc - 1) g) w.heap) w))
          (not_one more)
    where
      not_one : g.rc ≢ 1 → g.rc == 1 ≡ false
      not_one h = ground arith

  close_last :
      (p : ℕ) (w : World S) (g : Group)
      → lookup p w.heap ≡ some g
      → g.rc ≡ 1
      → group_close p w ≡ ok (with_heap (erase p w.heap) w)
  unfolding group_close
  close_last p w g e one =
      ap (λ (m : Option Group). deref m >>= λ x. ok (released p w x)) e ∙ rw (one) refl

  abbrev pub retained : ℕ → Group → World S → World S
  retained p g w = with_heap (insert p (counted (g.rc + 1) g) w.heap) w

  pub group_retain-Holds :
      (p : ℕ) (w : World S) (g : Group)
      → lookup p w.heap ≡ some g
      → 0 < g.rc
      → (group_retain p w ≡ ok (retained p g w))
        × Holds p (retained p g w) w.heap (counted (g.rc + 1) g)
  unfolding group_retain group_close
  group_retain-Holds p w g e positive = (
    rw (e) refl,
    (
      lookup_inserted p (counted (g.rc + 1) g) w.heap,
      close_shared p (retained p g w) (counted (g.rc + 1) g)
            (lookup_inserted p (counted (g.rc + 1) g) w.heap) (omega arith)
          ∙ ap (λ (h : Dict ℕ Group). ok (with_heap h w)) restored,
    ),
  )
    where
      back : counted (g.rc + 1 - 1) g ≡ g
      back = ap (λ (n : ℕ). counted n g) same
        where
          same : g.rc + 1 - 1 ≡ g.rc
          same = omega arith

      restored :
          insert p (counted (g.rc + 1 - 1) g) (insert p (counted (g.rc + 1) g) w.heap) ≡ w.heap
      restored =
          insert-insert p (counted (g.rc + 1) g) (counted (g.rc + 1 - 1) g) w.heap
          ∙ (ap (λ (x : Group). insert p x w.heap) back ∙ insert_same p g w.heap e)

  abbrev pub opened : StoreApi S → PlistApi → ℕ → World S → Group
  opened api plists o w = record {
    bin_oid = o;
    oid = some (object_text w.file_name o);
    rc = 1;
    gcpl_id = plists.decode (
        api.dtio_read (object_text w.file_name o)
          (stat_size (api.dtio_stat (object_text w.file_name o) w.store)) 0 w.store);
  }

  pub group_open_helper_opens :
      (api : StoreApi S) (plists : PlistApi) (o : ℕ) (w : World S)
      → length w.file_name + 18 < 2 ^ 31
      → group_open_helper api plists o w ≡ ok (allocate (opened api plists o w) w)
  unfolding group_open_helper
  group_open_helper_opens api plists o w short =
      rw (oid_create_string_total w.file_name o short) refl

  pub group_open_helper-Holds :
      (api : StoreApi S) (plists : PlistApi) (o : ℕ) (w : World S)
      → length w.file_name + 18 < 2 ^ 31
      → lookup w.fresh_ptr w.heap ≡ none
      → (group_open_helper api plists o w ≡ ok (allocate (opened api plists o w) w))
        × Holds w.fresh_ptr (allocate (opened api plists o w) w).1 w.heap (opened api plists o w)
  unfolding group_close
  group_open_helper-Holds api plists o w short absent = (
    group_open_helper_opens api plists o w short,
    (
      lookup_inserted w.fresh_ptr (opened api plists o w) w.heap,
      close_last w.fresh_ptr (allocate (opened api plists o w) w).1 (opened api plists o w)
            (lookup_inserted w.fresh_ptr (opened api plists o w) w.heap) refl
          ∙ ap (λ (h : Dict ℕ Group). ok (with_heap h (allocate (opened api plists o w) w).1))
              (erase-insert w.fresh_ptr (opened api plists o w) w.heap absent),
    ),
  )

-- A group stays where it is when another is put at a free address.
pub lookup_elsewhere :
    (p q : ℕ) (g x : Group) (d : Dict ℕ Group)
    → lookup p d ≡ some g
    → lookup q d ≡ none
    → lookup p (insert q x d) ≡ some g
lookup_elsewhere p q g x d e absent = elim (Bool-cases (q == p)) [
  | inl same ↦ absurd (cc (ap (λ (k : ℕ). lookup k d) ((nat_beq_iff q p).0 same)))
  | inr other ↦
      lookup-insert p q x d ∙ (ap (λ (b : Bool). if b then some x else lookup p d) other ∙ e)
]
