-- ===== src/Vol/Conversion/Covers.antt =====
-- When `H5VL_dtio_need_bkg` of adapter/vol/vol-old/H5VLDTIO.cc has the background buffer filled.
use dtio.Prelude.{
  ℕ, ◌↔◌, ◌+◌, ◌%◌, ◌^◌, ◌<◌, ◌≡◌, refl, sym, ◌∙◌, inl, inr, Bool, true, false, Option, none, some,
  Str, if◌then◌else◌, leb, nat_eq, ◌==◌, nat_beq_iff, Bool-cases, arith,
}
use mathlib.Core.Bool.{false≢true}
use dtio.Exec.{Exec, ok}
use dtio.Vol.Conversion.{
  DataType, atomic, compound, array, enumeration, vlen, reference, Members, no_member, member,
  size_of, member_of, super, Bkg, LoopEnd, stopped, through, sized, as_it_was, compound_end,
  array_end, need_bkg, member_loop, ◌>>?◌, Conversion, Reuse, reuse_none, reuse_tconv, reuse_bkg,
  tconv_init, converted,
}
use dtio.Vol.Conversion.Yields.{Yields, Yields-bind, Yields-map, Yields-sized, Yields-as_it_was}

abbrev pub total : Members → ℕ
total no_member = 0
total (member name t ms) = size_of t + total ms

-- There is one, and it has the property.
abbrev pub Found : {A : Type 0} → (A → Type 0) → Option A → Type 0
Found P none = ⊥
Found P (some s) = P s

-- Every byte of a type is given a value by a conversion from another: in an array, each element's
-- are; in a compound, each member is found under its name and is covered, and the members leave no gap.
-- The sizes of the members are added on 64 bits.
mutual
  pub Covers : DataType → DataType → Type 0
  Covers (atomic n) src = Unit
  Covers (compound n ms) src = CoversMembers ms src × (total ms % 2 ^ 64 ≡ n)
  Covers (array n t) src = Found (Covers t) (super src)
  Covers (enumeration n names t) src = Unit
  Covers (vlen n t) src = ⊥
  Covers (reference n) src = ⊥

  pub CoversMembers : Members → DataType → Type 0
  CoversMembers no_member src = Unit
  CoversMembers (member name t ms) src =
      Found (Found (Covers t)) (member_of name src) × CoversMembers ms src

-- The buffer is to be filled exactly where the source does not cover the destination, and it is then
-- needed.
abbrev pub IsRight : DataType → DataType → Bkg → Type 0
IsRight dst src r =
    (r.dst_size ≡ size_of dst)
    × ((r.fill ≡ false) ↔ Covers dst src)
    × (r.fill ≡ true → r.need ≡ true)

abbrev pub EndsRight : Members → DataType → ℕ → LoopEnd → Type 0
EndsRight ms src used stopped = ¬ (CoversMembers ms src)
EndsRight ms src used (through after fill) =
    (fill ≡ false) × CoversMembers ms src × (after ≡ (used + total ms) % 2 ^ 64)

compound-IsRight :
    (n : ℕ) (ms : Members) (src : DataType) (e : LoopEnd)
    → EndsRight ms src 0 e
    → Yields (IsRight (compound n ms) src) (compound_end n e)
unfolding Covers
compound-IsRight n ms src stopped h =
    (refl, (λ e. absurd (false≢true (sym e)), λ c. absurd (h c.0)), λ e. refl)
compound-IsRight n ms src (through used fill) (f, c, e) = elim (Bool-cases (leb used n)) [
  | inl fits ↦ elim (Bool-cases (used == n)) [
    | inl whole ↦
        rw (fits, whole)
          (refl, (λ _. (c, omega (arith, (nat_beq_iff used n).0 whole)), λ _. f), λ _. refl)
    | inr gap ↦
        rw (fits, gap)
          (
            refl,
            (
              λ t. absurd (false≢true (sym t)),
              λ covers. absurd (differ gap (omega (arith, covers.1))),
            ),
            λ _. refl,
          )
  ]
  | inr far ↦ rw far tt
]
  where
    differ : used == n ≡ false → used ≡ n → ⊥
    differ g same = ground arith

module _ (unset : Option Bool) where
  array-IsRight :
      (n : ℕ) (t : DataType) (parent : Option DataType)
      → ((s : DataType) → Yields (IsRight t s) (need_bkg unset t s false))
      → Yields
          (λ (r : Bkg).
            (r.dst_size ≡ n)
            × ((r.fill ≡ false) ↔ Found (Covers t) parent)
            × (r.fill ≡ true → r.need ≡ true))
          (sized n
            (elim parent [ none ↦ ok none | some s ↦ need_bkg unset t s false >>? array_end n ]))
  array-IsRight n t none h =
      Yields-sized
        (λ (r : Bkg). (r.dst_size ≡ n) × ((r.fill ≡ false) ↔ ⊥) × (r.fill ≡ true → r.need ≡ true)) n
        (ok none) tt
  array-IsRight n t (some s) h =
      Yields-sized
        (λ (r : Bkg).
          (r.dst_size ≡ n) × ((r.fill ≡ false) ↔ Covers t s) × (r.fill ≡ true → r.need ≡ true))
        n (need_bkg unset t s false >>? array_end n)
        (Yields-bind (IsRight t s)
          (λ (r : Bkg).
            (r.dst_size ≡ n) × ((r.fill ≡ false) ↔ Covers t s) × (r.fill ≡ true → r.need ≡ true))
          (need_bkg unset t s false) (array_end n) (h s) (λ r (_, c, g). (refl, c, g)))

  abbrev EndsFound : DataType → Members → DataType → ℕ → Option (Option DataType) → LoopEnd → Type 0
  EndsFound t ms src used found stopped = ¬ (Found (Found (Covers t)) found × CoversMembers ms src)
  EndsFound t ms src used found (through after fill) =
      (fill ≡ false)
      × (Found (Found (Covers t)) found × CoversMembers ms src)
      × (after ≡ (used + (size_of t + total ms)) % 2 ^ 64)

  next_member :
      (t : DataType) (ms : Members) (src : DataType) (used : ℕ) (s : DataType)
      → ((after : ℕ)
          → after < 2 ^ 64
          → Yields (EndsRight ms src after) (member_loop unset ms src after false))
      → (r : Bkg) → IsRight t s r
      → Yields (EndsFound t ms src used (some (some s))) (
          if r.fill
          then ok (some stopped)
          else member_loop unset ms src ((used + r.dst_size) % 2 ^ 64) r.fill)
  next_member t ms src used s l r (sz, c, g) = elim (Bool-cases r.fill) [
    | inl filled ↦ rw filled (λ covers. absurd (false≢true (sym (c.1 covers.0) ∙ filled)))
    | inr clear ↦
        rw (clear, sz)
          (Yields-map (EndsRight ms src after) (EndsFound t ms src used (some (some s)))
            (member_loop unset ms src after false) (l after (omega arith)) (widen (c.0 clear)))
  ]
    where
      after : ℕ
      after = (used + size_of t) % 2 ^ 64

      widen :
          Covers t s
          → (e : LoopEnd) → EndsRight ms src after e
          → EndsFound t ms src used (some (some s)) e
      widen yes_it stopped h = λ covers. h covers.1
      widen yes_it (through used' fill) (f, cs, e) = (f, (yes_it, cs), omega arith)

  member-EndsFound :
      (name : Str) (t : DataType) (ms : Members) (src : DataType) (used : ℕ)
      (found : Option (Option DataType))
      → used < 2 ^ 64
      → ((s : DataType) → Yields (IsRight t s) (need_bkg unset t s false))
      → ((after : ℕ)
          → after < 2 ^ 64
          → Yields (EndsRight ms src after) (member_loop unset ms src after false))
      → Yields (EndsFound t ms src used found) (elim found [
        | none ↦ ok (some stopped)
        | some kind ↦ elim kind [
          | none ↦ ok none
          | some s ↦ need_bkg unset t s false >>? λ r.
              if r.fill
              then ok (some stopped)
              else member_loop unset ms src ((used + r.dst_size) % 2 ^ 64) r.fill
        ]
      ])
  member-EndsFound name t ms src used none h k l = λ c. c.0
  member-EndsFound name t ms src used (some none) h k l = tt
  member-EndsFound name t ms src used (some (some s)) h k l =
      Yields-bind (IsRight t s) (EndsFound t ms src used (some (some s))) (need_bkg unset t s false)
        (λ r.
          if r.fill
          then ok (some stopped)
          else member_loop unset ms src ((used + r.dst_size) % 2 ^ 64) r.fill)
        (k s) (next_member t ms src used s l)

  mutual
    unfolding need_bkg Covers

    pub need_bkg-IsRight :
        (dst src : DataType) → Yields (IsRight dst src) (need_bkg unset dst src false)
    need_bkg-IsRight (atomic n) src =
        Yields-sized (IsRight (atomic n) src) n (ok (as_it_was unset n false)) (
          Yields-as_it_was (IsRight (atomic n) src) unset n
            (λ b. (refl, (λ _. tt, λ _. refl), λ e. absurd (false≢true e))))
    need_bkg-IsRight (enumeration n names t) src =
        Yields-sized (IsRight (enumeration n names t) src) n (ok (as_it_was unset n false)) (
          Yields-as_it_was (IsRight (enumeration n names t) src) unset n
            (λ b. (refl, (λ _. tt, λ _. refl), λ e. absurd (false≢true e))))
    need_bkg-IsRight (compound n ms) src =
        Yields-sized (IsRight (compound n ms) src) n
          (member_loop unset ms src 0 false >>? compound_end n)
          (Yields-bind (EndsRight ms src 0) (IsRight (compound n ms) src)
            (member_loop unset ms src 0 false) (compound_end n)
            (member_loop-EndsRight ms src 0 (omega arith)) (compound-IsRight n ms src))
    need_bkg-IsRight (array n t) src = array-IsRight n t (super src) (need_bkg-IsRight t)
    need_bkg-IsRight (vlen n t) src = Yields-sized (IsRight (vlen n t) src) n (ok none) tt
    need_bkg-IsRight (reference n) src = Yields-sized (IsRight (reference n) src) n (ok none) tt

    pub member_loop-EndsRight :
        (ms : Members) (src : DataType) (used : ℕ)
        → used < 2 ^ 64
        → Yields (EndsRight ms src used) (member_loop unset ms src used false)
    member_loop-EndsRight no_member src used h = (refl, tt, omega arith)
    member_loop-EndsRight (member name t ms) src used h =
        member-EndsFound name t ms src used (member_of name src) h (need_bkg-IsRight t)
          (member_loop-EndsRight ms src)

  abbrev pub TconvRight : DataType → DataType → Conversion → Type 0
  TconvRight src dst c =
      (c.src_type_size ≡ size_of src)
      × (c.dst_type_size ≡ size_of dst)
      × (c.types_equal ≡ false)
      × ((c.fill_bkg ≡ false) ↔ Covers dst src)
      × (c.fill_bkg ≡ true → c.need_bkg ≡ true)

  converted-TconvRight :
      (before : Reuse) (above : Bool) (src dst : DataType) (r : Bkg)
      → IsRight dst src r
      → Yields (TconvRight src dst) (converted unset before above (size_of src) r)
  converted-TconvRight reuse_none above src dst r (n, c, g) = (refl, n, refl, c, g)
  converted-TconvRight reuse_tconv above src dst r h = tt
  converted-TconvRight reuse_bkg above src dst r h = tt

  pub tconv-TconvRight :
      (before : Reuse) (above : Bool) (src dst : DataType)
      → Yields (TconvRight src dst) (tconv_init unset before above (some false) src dst false)
  unfolding tconv_init
  tconv-TconvRight before above src dst = either (size_of src == 0)
    where
      rest : Exec (Option (Conversion))
      rest = need_bkg unset dst src false >>? converted unset before above (size_of src)

      either : (b : Bool) → Yields (TconvRight src dst) (if b then ok none else rest)
      either true = tt
      either false =
          Yields-bind (IsRight dst src) (TconvRight src dst) (need_bkg unset dst src false)
            (converted unset before above (size_of src)) (need_bkg-IsRight dst src)
            (converted-TconvRight before above src dst)
