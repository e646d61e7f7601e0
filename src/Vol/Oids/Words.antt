-- ===== src/Vol/Oids/Words.antt =====
-- What the binary identifiers of adapter/vol/vol-old/H5VLDTIO.cc hold.
use dtio.Prelude.{ℕ, zero, suc, ◌↔◌, ◌+◌, ◌*◌, ◌%◌, ◌^◌, ◌<◌, ◌≡◌, refl, sym, ap, ◌∙◌, arith}
use dtio.Exec.{ok}
use dtio.Vol.Bits.{bit_and-ones, bit_or-disjoint_left}
use dtio.Vol.Objects.{ItemType, h5i_group, h5i_dataset, h5i_datatype, h5i_file, h5i_other}
use dtio.Vol.Oids.{oid_create_binary, oid_to_idx, idx_mask}
use Prim.Native.Nat.{bit_and, bit_or}

pub mask : (n : ℕ) → bit_and n idx_mask ≡ n % 2 ^ 62
mask n = bit_and-ones 62 n

-- The two bits of the type.
abbrev type_code : ItemType → ℕ
type_code ItemType.h5i_group = 0
type_code ItemType.h5i_dataset = 1
type_code ItemType.h5i_datatype = 2
type_code ItemType.h5i_file = 3
type_code ItemType.h5i_other = 4

pub bits_above : (c n : ℕ) → bit_or (bit_and n idx_mask) (c * 2 ^ 62) ≡ c * 2 ^ 62 + n % 2 ^ 62
bits_above c n = rw (mask n) (bit_or-disjoint_left 62 c (n % 2 ^ 62) (omega arith))

oid_bits :
    (idx : ℕ) (t : ItemType) (b : ℕ)
    → oid_create_binary idx t ≡ ok b
    → (b ≡ type_code t * 2 ^ 62 + idx % 2 ^ 62) × (type_code t < 3)
unfolding oid_create_binary
oid_bits idx ItemType.h5i_group b h = ground (arith, bits_above 0 idx)
oid_bits idx ItemType.h5i_dataset b h = ground (arith, bits_above 1 idx)
oid_bits idx ItemType.h5i_datatype b h = ground (arith, bits_above 2 idx)
oid_bits idx ItemType.h5i_file b h = absurd (cc)
oid_bits idx ItemType.h5i_other b h = absurd (cc)

-- The index of an identifier is that from which it was made, without its top two bits, and the
-- identifier is a 64-bit word.
pub oid_to_idx-oid_create_binary :
    (idx : ℕ) (t : ItemType) (b : ℕ)
    → oid_create_binary idx t ≡ ok b
    → (oid_to_idx b ≡ idx % 2 ^ 62) × (b < 2 ^ 64)
unfolding oid_to_idx
oid_to_idx-oid_create_binary idx t b h = omega (arith, oid_bits idx t b h, mask b)

of_code : ℕ → ItemType
of_code zero = h5i_group
of_code (suc zero) = h5i_dataset
of_code (suc (suc zero)) = h5i_datatype
of_code (suc (suc (suc zero))) = h5i_file
of_code (suc (suc (suc (suc n)))) = h5i_other

of_code-type_code : (t : ItemType) → of_code (type_code t) ≡ t
unfolding of_code
of_code-type_code ItemType.h5i_group = refl
of_code-type_code ItemType.h5i_dataset = refl
of_code-type_code ItemType.h5i_datatype = refl
of_code-type_code ItemType.h5i_file = refl
of_code-type_code ItemType.h5i_other = refl

type_code-injective : (s t : ItemType) → type_code s ≡ type_code t → s ≡ t
type_code-injective s t e = sym (of_code-type_code s) ∙ (ap of_code e ∙ of_code-type_code t)

-- Two identifiers are the same exactly when they stand for objects of one type whose indices
-- agree in their lower 62 bits.
pub oid_create_binary-injective :
    (i j : ℕ) (s t : ItemType) (a b : ℕ)
    → oid_create_binary i s ≡ ok a
    → oid_create_binary j t ≡ ok b
    → (a ≡ b) ↔ ((s ≡ t) × (i % 2 ^ 62 ≡ j % 2 ^ 62))
oid_create_binary-injective i j s t a b h k =
    let (ea, ca) = oid_bits i s a h in
    let (eb, cb) = oid_bits j t b k in
    (
      λ e. (type_code-injective s t (omega arith), omega arith),
      λ (es, ei). omega (arith, ap type_code es),
    )
