-- ===== src/Vol/Oids.antt =====
-- The object identifiers of adapter/vol/vol-old/H5VLDTIO.cc: 64-bit words that hold an index and a
-- type, and the texts that name the stored objects and chunks.
pub mod Words
pub mod Texts
pub mod Total
use dtio.Prelude.{
  ℕ, zero, suc, ◌+◌, ◌-◌, ◌*◌, ◌/◌, ◌%◌, ◌^◌, ◌<◌, ◌≤◌, ◌≡◌, refl, Bool, true, false, List, [], ◌∷◌,
  ◌++◌, Option, none, some, Str, codes, length, if◌then◌else◌, ltb, leb, ◌==◌, arith,
}
use dtio.Prelude.Int.{ℤ, pos, negsuc, to_int32, int_eq}
use dtio.Exec.{Exec, ok, fault, failed_assertion, int_overflow, ◌>>=◌, ◌>>◌, guard}
use dtio.Vol.Objects.{ItemType, h5i_group, h5i_dataset, h5i_datatype, h5i_file, h5i_other}
use Prim.Native.Nat.{bit_and, bit_or}

abbrev idx_mask : ℕ
idx_mask = 0x3fffffffffffffff

abbrev type_grp : ℕ
type_grp = 0x0000000000000000

abbrev type_dset : ℕ
type_dset = 0x4000000000000000

abbrev type_dtype : ℕ
type_dtype = 0x8000000000000000

unfoldable pub oid_create_binary : ℕ → ItemType → Exec ℕ
oid_create_binary idx ItemType.h5i_group = ok (bit_or (bit_and idx idx_mask) type_grp)
oid_create_binary idx ItemType.h5i_dataset = ok (bit_or (bit_and idx idx_mask) type_dset)
oid_create_binary idx ItemType.h5i_datatype = ok (bit_or (bit_and idx idx_mask) type_dtype)
oid_create_binary idx ItemType.h5i_file = fault failed_assertion
oid_create_binary idx ItemType.h5i_other = fault failed_assertion

unfoldable pub oid_to_idx : ℕ → ℕ
oid_to_idx bin_oid = bit_and bin_oid idx_mask

-- `printf` of one hexadecimal digit with `X`.
abbrev pub hex_digit : ℕ → ℕ
hex_digit d = if ltb d 10 then 48 + d else 55 + d

-- The last `k` hexadecimal digits.
abbrev pub hex_digits : ℕ → ℕ → Str
hex_digits zero n = []
hex_digits (suc k) n = hex_digits k (n / 16) ++ (hex_digit (n % 16) ∷ [])

-- `%016llX` of a 64-bit word.
unfoldable pub hex_word : ℕ → Str
hex_word n = hex_digits 16 n

-- `%02d` of a rank up to 99.
abbrev pub two_digits : ℕ → Str
two_digits n = (48 + n / 10) ∷ (48 + n % 10) ∷ []

-- The `int` that `snprintf` returns for a text: its length, or a negative value where that is no
-- `int`.
abbrev pub printed : Str → ℤ
printed text = if ltb (length text) (2 ^ 31) then pos (length text) else negsuc 0

-- `x + n` on `int`.
abbrev pub int_add : ℤ → ℕ → Exec ℤ
int_add (pos a) n = if ltb (a + n) (2 ^ 31) then ok (pos (a + n)) else fault int_overflow
int_add (negsuc a) n = ok (if ltb a n then pos (n - a - 1) else negsuc (a - n))

-- Whether `snprintf` returned `2 + (int)file_name_len + 16`.
unfoldable pub all_printed : Str → ℕ → Exec Bool
all_printed text name_len =
    int_add (to_int32 name_len) 18 >>= λ expected. ok (printed text == expected)

-- The text, or `FAIL` where less of it was printed than expected. `none` is `FAIL`.
abbrev pub kept : Exec Bool → Str → Exec (Option Str)
kept printed_all text = printed_all >>= λ whole. ok (if whole then some text else none)

-- The length is that of the name, as its callers pass it.
unfoldable pub oid_create_string : Str → ℕ → Exec (Option Str)
oid_create_string file_name bin_oid =
    let oid = codes "ob" ++ (file_name ++ hex_word bin_oid) in
    kept (all_printed oid (length file_name)) oid

unfoldable pub hex_words : List ℕ → Str
hex_words [] = []
hex_words (w ∷ ws) = hex_word w ++ hex_words ws

-- The rank is the number of the coordinates.
unfoldable pub oid_create_chunk : Str → ℕ → List ℕ → Exec (Option Str)
oid_create_chunk file_name bin_oid chunk_loc =
    let rank = length chunk_loc in
    let head = two_digits rank ++ (file_name ++ hex_word bin_oid) in
    guard (leb rank 99) failed_assertion
    >> kept (all_printed head (length file_name)) (head ++ hex_words chunk_loc)

-- The binary identifier and the text, or `FAIL`.
unfoldable pub oid_create : Str → ℕ → ItemType → Exec (Option (ℕ × Str))
unfolding oid_create_binary oid_create_string
oid_create file_name idx obj_type = oid_create_binary idx obj_type >>= λ bin_oid.
    oid_create_string file_name bin_oid >>= λ oid.
    ok (elim oid [ none ↦ none | some text ↦ some (bin_oid, text) ])
