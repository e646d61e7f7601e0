-- ===== src/Vol/Conversion/Yields.antt =====
-- What holds of the values of runs in adapter/vol/vol-old/H5VLDTIO.cc that may fail.
use dtio.Prelude.{ℕ, ◌≡◌, Bool, true, false, Option, none, some, if◌then◌else◌, nat_eq, ◌==◌}
use dtio.Exec.{Exec, ok, fault}
use dtio.Vol.Conversion.{Bkg, sized, as_it_was, ◌>>?◌}

-- What holds of the value of a run that succeeds.
abbrev pub Yields : {A : Type 0} → (A → Type 0) → Exec (Option A) → Type 0
Yields P (fault e) = Unit
Yields P (ok none) = Unit
Yields P (ok (some a)) = P a

pub Yields-bind :
    {A B : Type 0} (Q : A → Type 0) (P : B → Type 0) (m : Exec (Option A)) (f : A → Exec (Option B))
    → Yields Q m
    → ((a : A) → Q a → Yields P (f a))
    → Yields P (m >>? f)
Yields-bind Q P (fault e) f h k = tt
Yields-bind Q P (ok none) f h k = tt
Yields-bind Q P (ok (some a)) f h k = k a h

pub Yields-map :
    {A : Type 0} (Q P : A → Type 0) (m : Exec (Option A))
    → Yields Q m
    → ((a : A) → Q a → P a)
    → Yields P m
Yields-map Q P (fault e) h k = tt
Yields-map Q P (ok none) h k = tt
Yields-map Q P (ok (some a)) h k = k a h

pub Yields-value :
    {A : Type 0} (P : A → Type 0) (m : Exec (Option A)) (a : A) → Yields P m → m ≡ ok (some a) → P a
Yields-value P m a h e = rw e at h

pub Yields-sized :
    (P : Bkg → Type 0) (n : ℕ) (m : Exec (Option Bkg)) → Yields P m → Yields P (sized n m)
Yields-sized P n m h = either (n == 0)
  where
    either : (b : Bool) → Yields P (if b then ok none else m)
    either true = tt
    either false = h

pub Yields-as_it_was :
    (P : Bkg → Type 0) (unset : Option Bool) (n : ℕ)
    → ((b : Bool) → P (record { need = b; dst_size = n; fill = false }))
    → Yields P (ok (as_it_was unset n false))
Yields-as_it_was P none n h = tt
Yields-as_it_was P (some b) n h = h b
