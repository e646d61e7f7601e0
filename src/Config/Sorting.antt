-- ===== src/Config/Sorting.antt =====
-- `std::sort` in `ParseYAML` of include/dtio/config_manager.h: what it leaves sorted, and which
-- entries it keeps.
use dtio.Prelude.{ℕ, Bool-cases, ◌≡◌, ◌↔◌, ◌⊎◌, inl, inr, ◌≤◌, List, [], ◌∷◌, All, length, arith}
use dtio.Config.{PathEntry, longer, insert_entry, sort}

abbrev pub IsIn : PathEntry → List PathEntry → Type 0
IsIn e [] = ⊥
IsIn e (f ∷ es) = (e ≡ f) ⊎ IsIn e es

-- No entry comes before a longer one.
abbrev pub IsSorted : List PathEntry → Type 0
IsSorted [] = Unit
IsSorted (e ∷ es) = All (λ f. length f.path ≤ length e.path) es × IsSorted es

-- A result that `std::sort` may have: sorted, with the same entries.
pub record SortsTo (es out : List PathEntry) : Type 0 where
  pub sorted : IsSorted out
  pub same : (e : PathEntry) → IsIn e out ↔ IsIn e es

insert_entry-All :
    (P : PathEntry → Type 0) (e : PathEntry) (es : List PathEntry)
    → P e
    → All P es
    → All P (insert_entry e es)
unfolding insert_entry
insert_entry-All P e [] h hs = (h, tt)
insert_entry-All P e (f ∷ es) h hs = ground (arith, insert_entry-All P e es h hs.1)

All-le_trans :
    (m n : ℕ) (es : List PathEntry)
    → m ≤ n
    → All (λ f. length f.path ≤ m) es
    → All (λ f. length f.path ≤ n) es
All-le_trans m n [] h hs = tt
All-le_trans m n (e ∷ es) h hs = (omega arith, All-le_trans m n es h hs.1)

insert_entry-IsSorted :
    (e : PathEntry) (es : List PathEntry) → IsSorted es → IsSorted (insert_entry e es)
unfolding insert_entry
insert_entry-IsSorted e [] s = (tt, tt)
insert_entry-IsSorted e (f ∷ es) (longest, s) = elim (Bool-cases (longer f e)) [
  | inl after ↦ rw after (
    insert_entry-All (λ g. length g.path ≤ length f.path) e es (ground arith) longest,
    insert_entry-IsSorted e es s,
  )
  | inr before ↦
      let le : length f.path ≤ length e.path = ground arith in
      rw before ((le, All-le_trans (length f.path) (length e.path) es le longest), (longest, s))
]

insert_entry-IsIn :
    (x e : PathEntry) (es : List PathEntry) → IsIn x (insert_entry e es) ↔ ((x ≡ e) ⊎ IsIn x es)
unfolding insert_entry
insert_entry-IsIn x e [] = (λ h. h, λ h. h)
insert_entry-IsIn x e (f ∷ es) = ground (arith, insert_entry-IsIn x e es)

sort-IsSorted : (es : List PathEntry) → IsSorted (sort es)
unfolding sort
sort-IsSorted [] = tt
sort-IsSorted (e ∷ es) = insert_entry-IsSorted e (sort es) (sort-IsSorted es)

sort-IsIn : (x : PathEntry) (es : List PathEntry) → IsIn x (sort es) ↔ IsIn x es
unfolding sort
sort-IsIn x [] = (λ h. h, λ h. h)
sort-IsIn x (e ∷ es) = ground (arith, insert_entry-IsIn x e (sort es), sort-IsIn x es)

pub sort-SortsTo : (es : List PathEntry) → SortsTo es (sort es)
sort-SortsTo es = record { sorted = sort-IsSorted es; same = λ e. sort-IsIn e es }
