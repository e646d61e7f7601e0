-- ===== src/Prelude/Int.antt =====
-- Signed integers, and the C conversions between 64-bit and 32-bit words and the numbers that they
-- stand for. `off_t`, `ssize_t` and `int` values are ℤ, `size_t` values are ℕ below 2 ^ 64.
use Prim.Native.Nat.{ℕ, ◌-◌, ◌%◌, ◌^◌, ◌<◌}
use mathlib.Core.Path.{◌≡◌}
use mathlib.Core.Logic.{◌↔◌}
use mathlib.Core.Bool.{Bool, true, false}
use native.Mathlib.Omega.{arith}
use dtio.Prelude.Tests.{ltb, nat_beq, if◌then◌else◌, EqualTo}

-- `negsuc n` is -(n + 1).
pub data ℤ : Type 0 where
  pos : ℕ → ℤ
  negsuc : ℕ → ℤ

abbrev pub int_beq : ℤ → ℤ → Bool
int_beq (pos a) (pos b) = nat_beq a b
int_beq (pos a) (negsuc b) = false
int_beq (negsuc a) (pos b) = false
int_beq (negsuc a) (negsuc b) = nat_beq a b

pub int_beq_iff : (a b : ℤ) → (int_beq a b ≡ true) ↔ (a ≡ b)
int_beq_iff (pos a) (pos b) = ground arith
int_beq_iff (pos a) (negsuc b) = ground arith
int_beq_iff (negsuc a) (pos b) = ground arith
int_beq_iff (negsuc a) (negsuc b) = ground arith

instance abbrev pub int_eq : EqualTo ℤ
int_eq = record { equal = int_beq; equal_iff = int_beq_iff }

-- `x < 0`
abbrev pub is_negative : ℤ → Bool
is_negative (pos n) = false
is_negative (negsuc n) = true

abbrev pub word_size : ℕ
word_size = 2 ^ 64

-- The conversion of a signed value to `size_t`.
abbrev pub to_word : ℤ → ℕ
to_word (pos n) = n % word_size
to_word (negsuc n) = word_size - 1 - n % word_size

-- The conversion of a `size_t` to `off_t`.
abbrev pub of_word : ℕ → ℤ
of_word w = if ltb w (2 ^ 63) then pos w else negsuc (word_size - w - 1)

-- The conversion of a `size_t` to `int`.
abbrev pub to_int32 : ℕ → ℤ
to_int32 n = let w = n % 2 ^ 32 in if ltb w (2 ^ 31) then pos w else negsuc (2 ^ 32 - w - 1)

-- A value below 2 ^ 63 keeps its number in both conversions.
pub of_word_small : (n : ℕ) → n < 2 ^ 63 → of_word n ≡ pos n
of_word_small n h = ground arith

pub to_word_small : (n : ℕ) → n < word_size → to_word (pos n) ≡ n
to_word_small n h = omega arith

pub to_word-of_word : (n : ℕ) → n < word_size → to_word (of_word n) ≡ n
to_word-of_word n h = ground arith
