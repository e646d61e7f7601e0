-- ===== src/Vol/Conversion/Total.antt =====
-- That `H5VL_dtio_tconv_init` of adapter/vol/vol-old/H5VLDTIO.cc succeeds on well-formed types.
use dtio.Prelude.{
  ℕ, ◌↔◌, ◌+◌, ◌%◌, ◌^◌, ◌<◌, ◌≤◌, ◌≡◌, refl, inl, inr, Bool, true, false, Option, none, some,
  if◌then◌else◌, leb, nat_eq, ◌==◌, Bool-cases, arith,
}
use dtio.Exec.{Exec, ok, fault}
use dtio.Vol.Conversion.{
  DataType, atomic, compound, array, enumeration, vlen, reference, Members, no_member, member,
  size_of, member_of, super, Bkg, LoopEnd, stopped, through, sized, as_it_was, compound_end,
  array_end, need_bkg, member_loop, ◌>>?◌, Conversion, reuse_none, tconv_init, converted,
}
use dtio.Vol.Conversion.Covers.{
  total, Found, Covers, IsRight, EndsRight, TconvRight, need_bkg-IsRight, member_loop-EndsRight,
  tconv-TconvRight,
}
use dtio.Vol.Conversion.Yields.{Yields, Yields-value}

-- If there is one, it has the property.
abbrev pub IfFound : {A : Type 0} → (A → Type 0) → Option A → Type 0
IfFound P none = Unit
IfFound P (some s) = P s

-- The types that a conversion from `src` reaches are supported and have a size, the members of a
-- compound have room in it, an array is converted from a type that has a base type, and no member of
-- a compound has the name of one of an enumeration of `src`.
unfoldable mutual
  pub Reaches : DataType → DataType → Type 0
  Reaches (atomic n) src = 0 < n
  Reaches (compound n ms) src = (0 < n) × (n < 2 ^ 64) × (total ms ≤ n) × ReachesMembers ms src
  Reaches (array n t) src = (0 < n) × Found (Reaches t) (super src)
  Reaches (enumeration n names t) src = 0 < n
  Reaches (vlen n t) src = ⊥
  Reaches (reference n) src = ⊥

  pub ReachesMembers : Members → DataType → Type 0
  ReachesMembers no_member src = Unit
  ReachesMembers (member name t ms) src =
      IfFound (Found (Reaches t)) (member_of name src) × ReachesMembers ms src

abbrev Succeeds : {A : Type 0} → Exec (Option A) → Type 0
Succeeds (fault e) = ⊥
Succeeds (ok none) = ⊥
Succeeds (ok (some a)) = Unit

Succeeds-bind :
    {A B : Type 0} (Q : A → Type 0) (m : Exec (Option A)) (f : A → Exec (Option B))
    → Succeeds m
    → Yields Q m
    → ((a : A) → Q a → Succeeds (f a))
    → Succeeds (m >>? f)
Succeeds-bind Q (fault e) f s h k = absurd s
Succeeds-bind Q (ok none) f s h k = absurd s
Succeeds-bind Q (ok (some a)) f s h k = k a h

value : {A : Type 0} (m : Exec (Option A)) → Succeeds m → (a : A) × (m ≡ ok (some a))
value (fault e) s = absurd s
value (ok none) s = absurd s
value (ok (some a)) s = (a, refl)

Succeeds-sized : (n : ℕ) (m : Exec (Option Bkg)) → 0 < n → Succeeds m → Succeeds (sized n m)
Succeeds-sized n m p s = rw (positive p) s
  where
    positive : 0 < n → n == 0 ≡ false
    positive q = ground arith

Succeeds-compound_end :
    (n : ℕ) (ms : Members) (src : DataType) (e : LoopEnd)
    → n < 2 ^ 64
    → total ms ≤ n
    → EndsRight ms src 0 e
    → Succeeds (compound_end n e)
Succeeds-compound_end n ms src stopped p q h = tt
Succeeds-compound_end n ms src (through used fill) p q (_, _, e) = rw (fits p q e) tt
  where
    fits : n < 2 ^ 64 → total ms ≤ n → used ≡ (0 + total ms) % 2 ^ 64 → leb used n ≡ true
    fits p q e = ground arith

module _ (undeclared : Bool) where
  Succeeds-array :
      (n : ℕ) (t : DataType) (parent : Option DataType)
      → 0 < n
      → Found (Reaches t) parent
      → ((s : DataType) → Reaches t s → Succeeds (need_bkg (some undeclared) t s false))
      → Succeeds (
          sized n (elim parent [
            | none ↦ ok none
            | some s ↦ need_bkg (some undeclared) t s false >>? array_end n
          ]))
  Succeeds-array n t none p h k = absurd h
  Succeeds-array n t (some s) p h k =
      Succeeds-sized n (need_bkg (some undeclared) t s false >>? array_end n) p (
        Succeeds-bind (IsRight t s) (need_bkg (some undeclared) t s false) (array_end n) (k s h)
          (need_bkg-IsRight (some undeclared) t s) (λ r _. tt))

  Succeeds-next :
      (ms : Members) (src : DataType) (used : ℕ) (r : Bkg)
      → ((after : ℕ) → Succeeds (member_loop (some undeclared) ms src after false))
      → Succeeds (
          if r.fill
          then ok (some stopped)
          else member_loop (some undeclared) ms src ((used + r.dst_size) % 2 ^ 64) r.fill)
  Succeeds-next ms src used r l = elim (Bool-cases r.fill) [
    | inl filled ↦ rw filled tt
    | inr clear ↦ rw clear (l ((used + r.dst_size) % 2 ^ 64))
  ]

  Succeeds-member :
      (t : DataType) (ms : Members) (src : DataType) (used : ℕ) (found : Option (Option DataType))
      → IfFound (Found (Reaches t)) found
      → ((s : DataType) → Reaches t s → Succeeds (need_bkg (some undeclared) t s false))
      → ((after : ℕ) → Succeeds (member_loop (some undeclared) ms src after false))
      → Succeeds (elim found [
        | none ↦ ok (some stopped)
        | some kind ↦ elim kind [
          | none ↦ ok none
          | some s ↦ need_bkg (some undeclared) t s false >>? λ r.
              if r.fill
              then ok (some stopped)
              else member_loop (some undeclared) ms src ((used + r.dst_size) % 2 ^ 64) r.fill
        ]
      ])
  Succeeds-member t ms src used none h k l = tt
  Succeeds-member t ms src used (some none) h k l = absurd h
  Succeeds-member t ms src used (some (some s)) h k l =
      Succeeds-bind (IsRight t s) (need_bkg (some undeclared) t s false)
        (λ r.
          if r.fill
          then ok (some stopped)
          else member_loop (some undeclared) ms src ((used + r.dst_size) % 2 ^ 64) r.fill)
        (k s h) (need_bkg-IsRight (some undeclared) t s) (λ r _. Succeeds-next ms src used r l)

  mutual
    unfolding need_bkg Reaches

    Succeeds-need_bkg :
        (dst src : DataType) → Reaches dst src → Succeeds (need_bkg (some undeclared) dst src false)
    Succeeds-need_bkg (atomic n) src h =
        Succeeds-sized n (ok (as_it_was (some undeclared) n false)) h tt
    Succeeds-need_bkg (compound n ms) src (p, q, room, h) =
        Succeeds-sized n (member_loop (some undeclared) ms src 0 false >>? compound_end n) p (
          Succeeds-bind (EndsRight ms src 0) (member_loop (some undeclared) ms src 0 false)
            (compound_end n) (Succeeds-member_loop ms src 0 h)
            (member_loop-EndsRight (some undeclared) ms src 0 (omega arith))
            (λ e. Succeeds-compound_end n ms src e q room))
    Succeeds-need_bkg (array n t) src (p, h) =
        Succeeds-array n t (super src) p h (Succeeds-need_bkg t)
    Succeeds-need_bkg (enumeration n names t) src h =
        Succeeds-sized n (ok (as_it_was (some undeclared) n false)) h tt
    Succeeds-need_bkg (vlen n t) src h = absurd h
    Succeeds-need_bkg (reference n) src h = absurd h

    Succeeds-member_loop :
        (ms : Members) (src : DataType) (used : ℕ)
        → ReachesMembers ms src
        → Succeeds (member_loop (some undeclared) ms src used false)
    Succeeds-member_loop no_member src used h = tt
    Succeeds-member_loop (member name t ms) src used (h, hs) =
        Succeeds-member t ms src used (member_of name src) h (Succeeds-need_bkg t)
          (λ after. Succeeds-member_loop ms src after hs)

  Succeeds-tconv_init :
      (above : Bool) (src dst : DataType)
      → 0 < size_of src
      → Reaches dst src
      → Succeeds (tconv_init (some undeclared) reuse_none above (some false) src dst false)
  unfolding tconv_init
  Succeeds-tconv_init above src dst p h = rw (positive p) (
      Succeeds-bind (IsRight dst src) (need_bkg (some undeclared) dst src false)
        (converted (some undeclared) reuse_none above (size_of src)) (Succeeds-need_bkg dst src h)
        (need_bkg-IsRight (some undeclared) dst src) (λ r _. tt))
    where
      positive : 0 < size_of src → size_of src == 0 ≡ false
      positive q = ground arith

  -- Where the types differ, the buffer has not been put to use before and the undeclared variable of
  -- `need_bkg` has no negative value, the function succeeds if the types that the conversion reaches are
  -- supported and have a size, no compound is smaller than its members or has 2 ^ 64 bytes, each array
  -- meets a type with a base type, and no member is looked for among those of an enumeration and found.
  -- It gives the sizes of both types, has the background buffer filled exactly if the source does not
  -- cover every byte of the destination, and asks for a buffer whenever it is to be filled.
  pub tconv_init-Covers :
      (above : Bool) (src dst : DataType)
      → 0 < size_of src
      → Reaches dst src
      → (c : Conversion) × (tconv_init (some undeclared) reuse_none above (some false) src dst false
          ≡ ok (some c))
        × (c.src_type_size ≡ size_of src)
        × (c.dst_type_size ≡ size_of dst)
        × (c.types_equal ≡ false)
        × ((c.fill_bkg ≡ false) ↔ Covers dst src)
        × (c.fill_bkg ≡ true → c.need_bkg ≡ true)
  tconv_init-Covers above src dst p h =
      let run = tconv_init (some undeclared) reuse_none above (some false) src dst false in
      let (c, e) = value run (Succeeds-tconv_init above src dst p h) in
      let (from, to, differ, filled, needed) =
        Yields-value (TconvRight (some undeclared) src dst) run c
          (tconv-TconvRight (some undeclared) reuse_none above src dst) e in
      (c, e, from, to, differ, filled, needed)
