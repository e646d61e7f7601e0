-- ===== src/Vol/IoOps/Ranges.antt =====
-- The bytes that sequences and operations of adapter/vol/vol-old/H5VLDTIO.cc stand for.
use dtio.Prelude.{
  ℕ, zero, suc, ◌+◌, ◌≡◌, refl, sym, ap, ◌∙◌, Bool, true, false, List, [], ◌∷◌, ◌++◌, length, arith,
}
use mathlib.Core.List.{append_assoc}
use dtio.Vol.IoOps.{IoOp, op_read, op_write, SeqReply, seq_failed, seqs}

-- The addresses of `len` bytes from `off` on.
abbrev pub range : ℕ → ℕ → List ℕ
range off zero = []
range off (suc len) = off ∷ range (suc off) len

abbrev pub addresses : List (ℕ × ℕ) → List ℕ
addresses [] = []
addresses ((off, len) ∷ ss) = range off len ++ addresses ss

-- The bytes in the stored object, and those in the buffer, one for one.
abbrev pub file_side : IoOp → ℕ × ℕ
file_side (op_read file_off len mem_off) = (file_off, len)
file_side (op_write file_off len mem_off) = (file_off, len)

abbrev pub mem_side : IoOp → ℕ × ℕ
mem_side (op_read file_off len mem_off) = (mem_off, len)
mem_side (op_write file_off len mem_off) = (mem_off, len)

abbrev pub is_read : IoOp → Bool
is_read (op_read file_off len mem_off) = true
is_read (op_write file_off len mem_off) = false

abbrev pub file_bytes : List IoOp → List ℕ
file_bytes [] = []
file_bytes (op ∷ ops) = range (file_side op).0 (file_side op).1 ++ file_bytes ops

abbrev pub mem_bytes : List IoOp → List ℕ
mem_bytes [] = []
mem_bytes (op ∷ ops) = range (mem_side op).0 (mem_side op).1 ++ mem_bytes ops

-- Every operation goes the one way.
abbrev pub AllToward : Bool → List IoOp → Type 0
AllToward rbuf [] = Unit
AllToward rbuf (op ∷ ops) = (is_read op ≡ rbuf) × AllToward rbuf ops

-- The sequences of replies that succeed.
abbrev pub selected : List SeqReply → List (ℕ × ℕ)
selected [] = []
selected (seq_failed ∷ rs) = selected rs
selected (seqs nelem ss ∷ rs) = ss ++ selected rs

pub range-append : (off m n : ℕ) → range off (m + n) ≡ range off m ++ range (off + m) n
range-append off zero n = λ i. range (from i) (many i)
  where
    from : off ≡ off + 0
    from = omega arith

    many : 0 + n ≡ n
    many = omega arith
range-append off (suc m) n =
    ap (range off) many
    ∙ ap (◌∷◌ off)
        (range-append (suc off) m n ∙ ap (λ (t : ℕ). range (suc off) m ++ range t n) from)
  where
    many : suc m + n ≡ suc (m + n)
    many = omega arith

    from : suc off + m ≡ off + suc m
    from = omega arith

pub addresses-append : (xs ys : List (ℕ × ℕ)) → addresses (xs ++ ys) ≡ addresses xs ++ addresses ys
addresses-append [] ys = refl
addresses-append ((o, l) ∷ xs) ys =
    ap (◌++◌ (range o l)) (addresses-append xs ys)
    ∙ sym (append_assoc (range o l) (addresses xs) (addresses ys))

pub length-range : (off len : ℕ) → length (range off len) ≡ len
length-range off zero = refl
length-range off (suc len) = ap suc (length-range (suc off) len)
