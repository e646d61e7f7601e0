-- ===== src/Vol/Chunks/Grid.antt =====
-- The chunks of the bounding box of a selection, by their numbers in each dimension, in the order in
-- which adapter/vol/vol-old/H5VLDTIO.cc steps through them.
use dtio.Prelude.{ℕ, zero, suc, ◌*◌, ◌≡◌, refl, sym, ap, ◌∙◌, List, [], ◌∷◌, ◌++◌}

-- A dimension of the grid, with where a walk over it is: chunks of a length, the number of the first
-- one and how many follow it, the number of the present one and how many follow that.
pub record Place : Type 0 where
  pub chunk : ℕ
  pub first : ℕ
  pub more : ℕ
  pub at : ℕ
  pub left : ℕ

-- The starts of so many chunks.
abbrev pub chunk_starts : ℕ → ℕ → ℕ → List ℕ
chunk_starts d k zero = []
chunk_starts d k (suc n) = k * d ∷ chunk_starts d (suc k) n

-- Each of the coordinates in front of each of the others, the first ones slowest.
abbrev pub prefixed : ℕ → List (List ℕ) → List (List ℕ)
prefixed x [] = []
prefixed x (c ∷ cs) = (x ∷ c) ∷ prefixed x cs

abbrev pub crossed : List ℕ → List (List ℕ) → List (List ℕ)
crossed [] cs = []
crossed (x ∷ xs) cs = prefixed x cs ++ crossed xs cs

-- All the chunks of the grid, in row-major order.
unfoldable pub grid : List Place → List (List ℕ)
grid [] = [] ∷ []
grid (p ∷ ps) = crossed (chunk_starts p.chunk p.first (suc p.more)) (grid ps)

-- The present chunk and those after it.
unfoldable pub ahead : List Place → List (List ℕ)
unfolding grid
ahead [] = [] ∷ []
ahead (p ∷ ps) =
    prefixed (p.at * p.chunk) (ahead ps)
    ++ crossed (chunk_starts p.chunk (suc p.at) p.left) (grid ps)

abbrev pub here : List Place → List ℕ
here [] = []
here (p ∷ ps) = p.at * p.chunk ∷ here ps

abbrev pub back : Place → Place
back p = record p { at = p.first; left = p.more }

abbrev pub onward : Place → ℕ → Place
onward p n = record p { at = suc p.at; left = n }

-- Every dimension at its first chunk.
abbrev pub restart : List Place → List Place
restart [] = []
restart (p ∷ ps) = back p ∷ restart ps

pub grid-restart : (ps : List Place) → grid (restart ps) ≡ grid ps
unfolding grid
grid-restart [] = refl
grid-restart (p ∷ ps) = ap (crossed (chunk_starts p.chunk p.first (suc p.more))) (grid-restart ps)

pub ahead-restart : (ps : List Place) → ahead (restart ps) ≡ grid ps
unfolding ahead grid
ahead-restart [] = refl
ahead-restart (p ∷ ps) = λ i.
    prefixed (p.first * p.chunk) (ahead-restart ps i)
    ++ crossed (chunk_starts p.chunk (suc p.first) p.more) (grid-restart ps i)

-- A walk's list: the present chunk stands at the head.
pub ahead_last :
    (p : Place) (ps : List Place)
    → ahead ps ≡ here ps ∷ []
    → p.left ≡ 0
    → ahead (p ∷ ps) ≡ here (p ∷ ps) ∷ []
unfolding ahead
ahead_last p ps e z = λ i.
    prefixed (p.at * p.chunk) (e i) ++ crossed (chunk_starts p.chunk (suc p.at) (z i)) (grid ps)

pub ahead-onward :
    (p : Place) (ps : List Place) (n : ℕ)
    → ahead ps ≡ here ps ∷ []
    → p.left ≡ suc n
    → ahead (p ∷ ps) ≡ here (p ∷ ps) ∷ ahead (onward p n ∷ restart ps)
unfolding ahead grid
ahead-onward p ps n e z =
    (λ i.
      prefixed (p.at * p.chunk) (e i) ++ crossed (chunk_starts p.chunk (suc p.at) (z i)) (grid ps))
    ∙ ap (λ (cs : List (List ℕ)). here (p ∷ ps) ∷ cs) after
  where
    after :
        crossed (chunk_starts p.chunk (suc p.at) (suc n)) (grid ps)
        ≡ ahead (onward p n ∷ restart ps)
    after = λ i.
        prefixed (suc p.at * p.chunk) (sym (ahead-restart ps) i)
        ++ crossed (chunk_starts p.chunk (suc (suc p.at)) n) (sym (grid-restart ps) i)

pub ahead_inner :
    (p : Place) (ps qs : List Place)
    → ahead ps ≡ here ps ∷ ahead qs
    → grid qs ≡ grid ps
    → ahead (p ∷ ps) ≡ here (p ∷ ps) ∷ ahead (p ∷ qs)
unfolding ahead
ahead_inner p ps qs e g = λ i.
    prefixed (p.at * p.chunk) (e i) ++ crossed (chunk_starts p.chunk (suc p.at) p.left) (sym g i)
