-- ===== src/Vol/Bits.antt =====
-- Arithmetic of the masks that adapter/vol/vol-old/H5VLDTIO.cc puts on 64-bit words.
use dtio.Prelude.{ℕ, zero, suc, ◌+◌, ◌*◌, ◌/◌, ◌%◌, ◌≤◌, ◌<◌, ◌≡◌, refl, ap, sym, ◌∙◌, arith}
use Prim.Native.Nat.{min, max, bit_and, bit_or, digits, bitwise, bit_and-bitwise, bit_or-bitwise}
use native.Mathlib.Nat.{mul-one, div-add-mod', mul-add-mod_self_right, mod-eq_of_lt, mod-lt}

-- The fuel changes nothing once it is the first number, whatever the operation on two digits is.
digits-zero : (z : ℕ → ℕ) (f : ℕ → ℕ → ℕ) (n b : ℕ) → digits z f n zero b ≡ z b
digits-zero z f zero b = refl
digits-zero z f (suc n) b = refl

enough_fuel :
    (z : ℕ → ℕ) (f : ℕ → ℕ → ℕ) (more less a b : ℕ)
    → a ≤ less
    → less ≤ more
    → digits z f more a b ≡ digits z f less a b
enough_fuel z f more less zero b _ _ = digits-zero z f more b ∙ sym (digits-zero z f less b)
enough_fuel z f more zero (suc a) b h _ = absurd (omega arith)
enough_fuel z f zero (suc less) (suc a) b _ h = absurd (omega arith)
enough_fuel z f (suc more) (suc less) (suc a) b h k =
    ap (λ (t : ℕ). t * 2 + f (suc a % 2) (b % 2))
      (enough_fuel z f more less (suc a / 2) (b / 2) (omega arith) (omega arith))

-- The law for the lowest digit.
bitwise_step :
    (z : ℕ → ℕ) (f : ℕ → ℕ → ℕ) (a b : ℕ)
    → bitwise z f (suc a) b ≡ bitwise z f (suc a / 2) (b / 2) * 2 + f (suc a % 2) (b % 2)
bitwise_step z f a b =
    ap (λ (t : ℕ). t * 2 + f (suc a % 2) (b % 2))
      (enough_fuel z f a (suc a / 2) (suc a / 2) (b / 2) (omega arith) (omega arith))

and_none : (mask : ℕ) → bit_and 0 mask ≡ 0
and_none mask = bit_and-bitwise zero mask

low_and : (x mask : ℕ) → bit_and x mask ≡ min (x % 2) (mask % 2) + bit_and (x / 2) (mask / 2) * 2
low_and zero mask = omega (arith, and_none (mask / 2), and_none mask)
low_and (suc x) mask = omega (
  arith,
  bit_and-bitwise (suc x / 2) (mask / 2),
  bitwise_step (λ _. zero) min x mask,
  bit_and-bitwise (suc x) mask,
)

or_none : (mask : ℕ) → bit_or 0 mask ≡ mask
or_none mask = bit_or-bitwise zero mask

low_or : (x mask : ℕ) → bit_or x mask ≡ max (x % 2) (mask % 2) + bit_or (x / 2) (mask / 2) * 2
low_or zero mask = omega (arith, or_none (mask / 2), or_none mask)
low_or (suc x) mask = omega (
  arith,
  bit_or-bitwise (suc x / 2) (mask / 2),
  bitwise_step (λ c. c) max x mask,
  bit_or-bitwise (suc x) mask,
)

-- What a mask of no ones leaves, for words of at most `w`.
and_no_ones : (w a : ℕ) → a ≤ w → bit_and a 0 ≡ 0
and_no_ones w zero small = and_none 0
and_no_ones zero (suc a) small = absurd (omega arith)
and_no_ones (suc w) (suc a) small =
    omega (arith, and_no_ones w (suc a / 2) (omega arith), low_and (suc a) 0)

-- `2 ^ k`, and `k` ones, by recursion.
abbrev pub power : ℕ → ℕ
power zero = 1
power (suc k) = power k * 2

abbrev pub ones : ℕ → ℕ
ones zero = 0
ones (suc k) = ones k * 2 + 1

or_no_ones : (w a : ℕ) → a ≤ w → bit_or a 0 ≡ a
or_no_ones w zero small = or_none 0
or_no_ones zero (suc a) small = absurd (omega arith)
or_no_ones (suc w) (suc a) small =
    omega (arith, or_no_ones w (suc a / 2) (omega arith), low_or (suc a) 0)

bit_or_zero_left : (a b : ℕ) → b < 1 → bit_or b (a * 1) ≡ a
bit_or_zero_left a zero h = omega (arith, or_none (a * 1))
bit_or_zero_left a (suc b) h = absurd (omega arith)

bit_or-zero : (a b : ℕ) → b < 1 → bit_or (a * 1) b ≡ a
bit_or-zero a zero h = omega (arith, ap (λ (t : ℕ). bit_or t 0) (mul-one a), or_no_ones a a)
bit_or-zero a (suc b) h = absurd (omega arith)

half_ones : (k : ℕ) → (ones k * 2 + 1) / 2 ≡ ones k
half_ones k = omega arith

half_power : (k a : ℕ) → a * (power k * 2) / 2 ≡ a * power k
half_power k a = omega arith

power_pos : (k : ℕ) → 0 < power k
power_pos zero = omega arith
power_pos (suc k) = omega (arith, power_pos k)

half_mod_digits : (n m : ℕ) → n ≡ n / 2 / m * (m * 2) + (n / 2 % m * 2 + n % 2)
half_mod_digits n m = omega (arith, ap (λ (t : ℕ). t * 2) (div-add-mod' (n / 2) m))

half_mod : (n m : ℕ) → 0 < m → n / 2 % m * 2 + n % 2 ≡ n % (m * 2)
half_mod n m h = omega (
  arith,
  ap (λ (t : ℕ). t % (m * 2)) (half_mod_digits n m),
  mul-add-mod_self_right (n / 2 / m) (m * 2) (n / 2 % m * 2 + n % 2),
  mod-eq_of_lt {n = n / 2 % m * 2 + n % 2} {m = m * 2} (omega (arith, mod-lt (n / 2) h)),
)

-- A mask of ones keeps the remainder.
pub bit_and-ones : (k a : ℕ) → bit_and a (ones k) ≡ a % power k
bit_and-ones zero a = omega (arith, and_no_ones a a)
bit_and-ones (suc k) a = omega (
  arith,
  low_and a (ones (suc k)),
  ap (bit_and (a / 2)) (half_ones k),
  bit_and-ones k (a / 2),
  half_mod a (power k) (power_pos k),
)

-- A word with `k` zero digits at its end, and one of `k` digits, have no digit in common.
pub bit_or-disjoint : (k a b : ℕ) → b < power k → bit_or (a * power k) b ≡ a * power k + b
bit_or-disjoint zero a b h = omega (arith, bit_or-zero a b)
bit_or-disjoint (suc k) a b h = omega (
  arith,
  low_or (a * power (suc k)) b,
  ap (λ (t : ℕ). bit_or t (b / 2)) (half_power k a),
  bit_or-disjoint k a (b / 2) (omega arith),
)

pub bit_or-disjoint_left : (k a b : ℕ) → b < power k → bit_or b (a * power k) ≡ a * power k + b
bit_or-disjoint_left zero a b h = omega (arith, bit_or_zero_left a b)
bit_or-disjoint_left (suc k) a b h = omega (
  arith,
  low_or b (a * power (suc k)),
  ap (bit_or (b / 2)) (half_power k a),
  bit_or-disjoint_left k a (b / 2) (omega arith),
)
