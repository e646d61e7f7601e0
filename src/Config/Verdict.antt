-- ===== src/Config/Verdict.antt =====
-- `ShouldIntercept` of include/dtio/config_manager.h: the longest entry that is a prefix decides, and
-- the order that `std::sort` gives to entries of one length does not matter.
use dtio.Prelude.{
  ℕ, suc, ◌≡◌, refl, sym, ◌∙◌, ◌↔◌, ◌⊎◌, inl, inr, ◌≤◌, Bool, true, false, Option, none, some, List,
  [], ◌∷◌, All, length, Str, codes, arith, Bool-cases, if◌then◌else◌,
}
use mathlib.Core.Option
use dtio.Config.{
  PathEntry, starts_with, find, is_zero, should_intercept, load_default, sort, combine, parse_yaml,
}
use dtio.Config.Sorting.{IsIn, IsSorted, SortsTo, sort-SortsTo}

-- The entry is a prefix of the path.
abbrev pub Matches : PathEntry → Str → Type 0
Matches e p = starts_with p e.path ≡ true

find-starts_with : (s needle : Str) → is_zero (find s needle) ≡ starts_with s needle
unfolding find
find-starts_with [] needle = ground arith
find-starts_with (c ∷ s) needle = elim (Bool-cases (starts_with (c ∷ s) needle)) [
  | inl e ↦ rw (e, find)
  | inr e ↦ rw (e, find) (is_zero-map (find s needle))
]
  where
    is_zero-map : (o : Option ℕ) → is_zero (Option.map (λ i. suc i) o) ≡ false
    is_zero-map none = refl
    is_zero-map (some i) = ground arith

should_intercept-cons :
    (e : PathEntry) (es : List PathEntry) (p : Str)
    → should_intercept (e ∷ es) p
      ≡ (if starts_with p e.path then e.do_include else should_intercept es p)
unfolding should_intercept
should_intercept-cons e es p = rw (find-starts_with p e.path)

-- What the entries say of a path: if none is a prefix of it, it is not taken; otherwise a prefix that
-- no other prefix exceeds in length decides.
abbrev pub Verdict : List PathEntry → Str → Bool → Type 0
Verdict es p b =
    (((e : PathEntry) → IsIn e es → starts_with p e.path ≡ false) × (b ≡ false))
    ⊎ ((e : PathEntry) × IsIn e es
        × Matches e p
        × ((f : PathEntry) → IsIn f es → Matches f p → length f.path ≤ length e.path)
        × (e.do_include ≡ b))

All-IsIn :
    (n : ℕ) (es : List PathEntry) (f : PathEntry)
    → All (λ g. length g.path ≤ n) es
    → IsIn f es
    → length f.path ≤ n
All-IsIn n [] f h i = absurd i
All-IsIn n (e ∷ es) f h (inl same) = rw same h.0
All-IsIn n (e ∷ es) f h (inr i) = All-IsIn n es f h.1 i

Matches-ne : (e f : PathEntry) (p : Str) → starts_with p e.path ≡ false → f ≡ e → Matches f p → ⊥
Matches-ne e f p miss same m = ground arith

should_intercept-Verdict :
    (es : List PathEntry) (p : Str) → IsSorted es → Verdict es p (should_intercept es p)
should_intercept-Verdict [] p s = inl (λ e i. absurd i, unfold should_intercept in refl)
should_intercept-Verdict (e ∷ es) p (longest, s) = elim (Bool-cases (starts_with p e.path)) [
  | inl hit ↦
      rw (should_intercept-cons e es p, hit)
        (inr (
          e,
          inl refl,
          hit,
          λ f i m. elim i [
            | inl same ↦ rw same (omega arith)
            | inr later ↦ All-IsIn (length e.path) es f longest later
          ],
          refl,
        ))
  | inr miss ↦
      rw (should_intercept-cons e es p, miss)
        (elim (should_intercept-Verdict es p s) [
          | inl (all, no_entry) ↦
              inl (λ f i. elim i [ inl same ↦ rw same miss | inr later ↦ all f later ], no_entry)
          | inr (g, i, m, most, b) ↦ inr (
            g,
            inr i,
            m,
            λ f j n. elim j [
              | inl same ↦ absurd (Matches-ne e f p miss same n)
              | inr later ↦ most f later n
            ],
            b,
          )
        ])
]

-- Two prefixes of one path with one length are one path.
starts_with-inj :
    (p a b : Str) → starts_with p a ≡ true → starts_with p b ≡ true → length a ≡ length b → a ≡ b
unfolding starts_with
starts_with-inj p [] [] ha hb l = refl
starts_with-inj p [] (y ∷ b) ha hb l = absurd (omega arith)
starts_with-inj p (x ∷ a) [] ha hb l = absurd (omega arith)
starts_with-inj [] (x ∷ a) (y ∷ b) ha hb l = cc
starts_with-inj (c ∷ p) (x ∷ a) (y ∷ b) ha hb l = ground (arith, starts_with-inj p a b)

-- No path is both included and excluded.
abbrev pub IsConsistent : List PathEntry → Type 0
IsConsistent es =
    (e f : PathEntry) → IsIn e es → IsIn f es → e.path ≡ f.path → e.do_include ≡ f.do_include

Verdict-SortsTo :
    (es out : List PathEntry) (p : Str) (b : Bool)
    → ((e : PathEntry) → IsIn e out ↔ IsIn e es)
    → Verdict out p b
    → Verdict es p b
Verdict-SortsTo es out p b same (inl (all, no_entry)) = inl (λ e i. all e ((same e).1 i), no_entry)
Verdict-SortsTo es out p b same (inr (e, i, m, most, same_flag)) =
    inr (e, (same e).0 i, m, λ f j n. most f ((same f).1 j) n, same_flag)

Verdict-unique :
    (es : List PathEntry) (p : Str) (a b : Bool)
    → IsConsistent es
    → Verdict es p a
    → Verdict es p b
    → a ≡ b
Verdict-unique es p a b c (inl (all, na)) (inl (all', nb)) = na ∙ sym nb
Verdict-unique es p a b c (inl (all, na)) (inr (e, i, m, most, eb)) =
    absurd (Matches-ne e e p (all e i) refl m)
Verdict-unique es p a b c (inr (e, i, m, most, ea)) (inl (all, nb)) =
    absurd (Matches-ne e e p (all e i) refl m)
Verdict-unique es p a b c (inr (e, i, m, most, ea)) (inr (f, j, n, most', fb)) =
    let l : length e.path ≡ length f.path = omega (arith, most f j n, most' e i m) in
    sym ea ∙ c e f i j (starts_with-inj p e.path f.path m n l) ∙ fb

-- With the entries of a configuration file, a path is taken exactly as the longest entry that is a
-- prefix of it says, and is not taken if no entry is; the entries are all those of the two lists.
pub parse_yaml-Verdict :
    (expand_path : Str → Str) (cwd : Str) (include exclude : Option (List Str)) (p : Str)
    → Verdict
        (combine expand_path cwd include exclude)
        p
        (should_intercept (parse_yaml expand_path cwd include exclude) p)
unfolding parse_yaml
parse_yaml-Verdict expand_path cwd include exclude p =
    let es = combine expand_path cwd include exclude in
    let sorted = sort-SortsTo es in
    Verdict-SortsTo es (sort es) p _ sorted.same
      (should_intercept-Verdict (sort es) p sorted.sorted)

-- If no path is both included and excluded, whatever order `std::sort` gives to the entries (any
-- list that is sorted by length and has the entries of the file), each path is taken or left alike.
pub should_intercept-SortsTo :
    (expand_path : Str → Str) (cwd : Str) (include exclude : Option (List Str))
    (out : List PathEntry) (p : Str)
    → IsConsistent (combine expand_path cwd include exclude)
    → SortsTo (combine expand_path cwd include exclude) out
    → should_intercept out p ≡ should_intercept (parse_yaml expand_path cwd include exclude) p
should_intercept-SortsTo expand_path cwd include exclude out p c s =
    Verdict-unique (combine expand_path cwd include exclude) p _ _ c
      (Verdict-SortsTo _ out p _ s.same (should_intercept-Verdict out p s.sorted))
      (parse_yaml-Verdict expand_path cwd include exclude p)

-- Without a configuration file the paths taken are those that begin with the four bytes of `/tmp`,
-- also where they lie outside that directory, as `/tmpfile` does.
pub should_intercept-load_default :
    (p : Str) → should_intercept load_default p ≡ starts_with p (codes "/tmp")
unfolding load_default
should_intercept-load_default p =
    rw (should_intercept-cons, should_intercept-cons) (ground (arith, no_entries p))
  where
    no_entries : (p : Str) → should_intercept [] p ≡ false
    no_entries p = unfold should_intercept in refl
