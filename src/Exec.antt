-- ===== src/Exec.antt =====
-- Runs that may have undefined behaviour, and the messages that the program prints.
use dtio.Prelude.{
  ℕ, ◌+◌, ◌≡◌, refl, sym, ap, Bool, true, false, List, [], ◌∷◌, ◌++◌, Str, if◌then◌else◌, arith,
}
use dtio.Prelude.Int.{ℤ}

pub data Fault : Type 0 where
  -- a null `FILE*` is used
  null_stream : Fault
  -- an access outside a shared-memory buffer
  bad_buffer : Fault
  -- `reinterpret_cast` of a task to a class that is not its own
  wrong_task : Fault
  -- an archive that does not hold what is read from it
  bad_archive : Fault
  -- an `assert` that does not hold
  failed_assertion : Fault
  -- `memcpy` from beyond the end of an object
  wild_copy : Fault
  -- a sum of two `int` values that is not an `int`
  int_overflow : Fault
  -- a null pointer, or one to an object that is not there, is followed
  bad_pointer : Fault
  -- a variable that was given no value is used
  uninitialised : Fault
  -- more nested calls than the stack holds
  stack_overflow : Fault
  -- a division by zero
  division_by_zero : Fault
  -- an element outside an array
  bad_index : Fault
  -- a buffer is freed that was freed before
  double_free : Fault

pub data Exec {ℓ} (A : Type ℓ) : Type ℓ where
  ok : A → Exec A
  fault : Fault → Exec A

infixl 5 ◌>>=◌ ◌>>◌
abbrev pub ◌>>=◌ {ℓ κ} : {A : Type ℓ} {B : Type κ} → Exec A → (A → Exec B) → Exec B
ok a >>= f = f a
fault e >>= f = fault e

abbrev pub ◌>>◌ {ℓ} : {B : Type ℓ} → Exec (Unit {0}) → Exec B → Exec B
m >> k = m >>= λ _. k

abbrev value_or {ℓ} : {A : Type ℓ} → A → Exec A → A
value_or d (ok a) = a
value_or d (fault e) = d

pub ok-injective {ℓ} : {A : Type ℓ} (a b : A) → ok a ≡ ok b → a ≡ b
ok-injective a b h = ap (value_or a) h

-- Undefined behaviour unless the test holds.
abbrev pub guard : Bool → Fault → Exec (Unit {0})
guard true e = ok tt
guard false e = fault e

-- What is written to `stdout` and `stderr`.
pub data Message : Type 0 where
  chimod_write : Message
  didnt_open : Str → Message
  written_less : ℤ → Message
  read_less : ℤ → Message
  put_done : Message
  key_not_found : Message
  key_found : Message
  strlen_val : ℕ → Message

-- The messages that say that a file could not be opened, or that not all was written or read.
abbrev is_complaint : Message → Bool
is_complaint (didnt_open path) = true
is_complaint (written_less n) = true
is_complaint (read_less n) = true
is_complaint _ = false

abbrev pub complaints : List Message → ℕ
complaints [] = 0
complaints (m ∷ log) = if is_complaint m then 1 + complaints log else complaints log

pub complaints-append :
    (xs ys : List Message) → complaints (xs ++ ys) ≡ complaints xs + complaints ys
complaints-append [] ys = omega arith
complaints-append (m ∷ xs) ys = ground (arith, complaints-append xs ys)

module _ {ℓ} {A : Type ℓ} where
  -- A run that does not fault ends in a value with the property.
  abbrev pub Ends : (A → Type 0) → Exec A → Type 0
  Ends P (ok a) = P a
  Ends P (fault f) = Unit

  pub Ends-any : (x : Exec A) → Ends (λ _. Unit) x
  Ends-any (ok a) = tt
  Ends-any (fault f) = tt

  pub Ends-intro : (P : A → Type 0) (x : Exec A) → ((a : A) → x ≡ ok a → P a) → Ends P x
  Ends-intro P (ok a) h = h a refl
  Ends-intro P (fault f) h = tt

  Ends-value : (P : A → Type 0) (x y : Exec A) → x ≡ y → Ends P x → Ends P y
  Ends-value P x y e h = rw (sym e) h

  pub Ends-ok : (P : A → Type 0) (x : Exec A) (a : A) → x ≡ ok a → Ends P x → P a
  Ends-ok P x a e h = Ends-value P x (ok a) e h

pub Ends-bind {ℓ κ} :
    {A : Type ℓ} {B : Type κ} (Q : A → Type 0) (P : B → Type 0) (x : Exec A) (f : A → Exec B)
    → Ends Q x
    → ((a : A) → Q a → Ends P (f a))
    → Ends P (x >>= f)
Ends-bind Q P (ok a) f h k = k a h
Ends-bind Q P (fault e) f h k = tt
