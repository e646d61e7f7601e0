-- ===== src/Vol/IoOps/Sides.antt =====
-- What is left of one side of the merge in adapter/vol/vol-old/H5VLDTIO.cc, and how a round uses it.
use dtio.Prelude.{
  ℕ, ◌+◌, ◌-◌, ◌<◌, ◌≤◌, ◌≡◌, refl, sym, ap, ◌∙◌, List, [], ◌∷◌, ◌++◌, some, length, length-append,
  All, ◌==◌, nat_eq, Bool-cases, inl, inr, nat_beq_iff, arith,
}
use mathlib.Core.List.{append_assoc}
use dtio.Vol.IoOps.{SeqReply, seq_failed, seqs, Side, advance, refill, refill_from}
use dtio.Vol.IoOps.Ranges.{range, addresses, selected, range-append}

abbrev pub IsPositive : ℕ × ℕ → Type 0
IsPositive (off, len) = 0 < len

-- Every reply succeeds and has a sequence, and no sequence is empty.
abbrev pub AllFull : List SeqReply → Type 0
AllFull [] = Unit
AllFull (seq_failed ∷ rs) = ⊥
AllFull (seqs nelem [] ∷ rs) = ⊥
AllFull (seqs nelem (s ∷ ss) ∷ rs) = All IsPositive (s ∷ ss) × AllFull rs

abbrev AtStart : List (ℕ × ℕ) → ℕ → Type 0
AtStart [] w = w ≡ 0
AtStart (s ∷ ss) w = Unit

abbrev pub IsReady : Side → Type 0
IsReady side = All IsPositive side.pending × AllFull side.replies × AtStart side.pending side.within

abbrev shifted : ℕ → List (ℕ × ℕ) → List (ℕ × ℕ)
shifted w [] = []
shifted w ((off, len) ∷ ss) = (off + w, len) ∷ ss

abbrev pub left_of : Side → List (ℕ × ℕ)
left_of side = shifted side.within side.pending ++ selected side.replies

abbrev pub pieces : Side → ℕ
pieces side = length side.pending + length (selected side.replies)

shifted-zero : (ss : List (ℕ × ℕ)) → shifted 0 ss ≡ ss
shifted-zero [] = refl
shifted-zero ((off, len) ∷ ss) = λ i. (same i, len) ∷ ss
  where
    same : off + 0 ≡ off
    same = omega arith

abbrev pub at_head : ℕ → ℕ → List (ℕ × ℕ) → ℕ → List SeqReply → Side
at_head off len ss w rs = record { pending = (off, len) ∷ ss; within = w; replies = rs }

at_zero : (xs : List (ℕ × ℕ)) → AtStart xs 0
at_zero [] = refl
at_zero (x ∷ xs) = tt

at_start : (off w : ℕ) → w ≡ 0 → off + w ≡ off
at_start off w e = omega arith

filled :
    (ss : List (ℕ × ℕ)) (w : ℕ) (rs : List SeqReply)
    → All IsPositive ss × AllFull rs × AtStart ss w
    → 0 < length (addresses (shifted w ss ++ selected rs))
    → (off : ℕ) × (len : ℕ) × (ss' : List (ℕ × ℕ)) × (w' : ℕ) × (rs' : List SeqReply) × (refill_from
          ss w rs
        ≡ some (at_head off len ss' w' rs'))
      × IsReady (at_head off len ss' w' rs')
      × (left_of (at_head off len ss' w' rs') ≡ shifted w ss ++ selected rs)
      × (pieces (at_head off len ss' w' rs') ≡ length ss + length (selected rs))
filled [] w [] r p = absurd (omega arith)
filled [] w (seq_failed ∷ rs) (_, full, _) p = absurd full
filled [] w (seqs nelem [] ∷ rs) (_, full, _) p = absurd full
filled [] w (seqs nelem ((off, len) ∷ ss) ∷ rs) (_, (positive, full), start) p = (
  off,
  len,
  ss,
  w,
  rs,
  refl,
  (positive, full, tt),
  λ i. (at_start off w start i, len) ∷ (ss ++ selected rs),
  omega (arith, length-append ss (selected rs)),
)
filled ((off, len) ∷ ss) w rs r p = (off, len, ss, w, rs, refl, r, refl, refl)

-- A side with bytes left has a first sequence after a refill, and the same bytes.
pub refill-IsReady :
    (side : Side)
    → IsReady side
    → 0 < length (addresses (left_of side))
    → (off : ℕ) × (len : ℕ) × (ss : List (ℕ × ℕ)) × (w : ℕ) × (rs : List SeqReply) × (refill side
        ≡ some (at_head off len ss w rs))
      × IsReady (at_head off len ss w rs)
      × (left_of (at_head off len ss w rs) ≡ left_of side)
      × (pieces (at_head off len ss w rs) ≡ pieces side)
unfolding refill
refill-IsReady side = filled side.pending side.within side.replies

module _ (io_len off len : ℕ) (ss : List (ℕ × ℕ)) (w : ℕ) (rs : List SeqReply) where
  split_range :
      io_len ≤ len
      → range (off + w) io_len ++ range (off + (w + io_len)) (len - io_len) ≡ range (off + w) len
  split_range h =
      ap (λ (o : ℕ). range (off + w) io_len ++ range o (len - io_len)) from
      ∙ (sym (range-append (off + w) io_len (len - io_len)) ∙ ap (range (off + w)) many)
    where
      from : off + (w + io_len) ≡ off + w + io_len
      from = omega arith

      many : io_len + (len - io_len) ≡ len
      many = omega arith

  -- A round takes the bytes at the front of the side and leaves the others.
  pub advance_bytes :
      io_len ≤ len
      → range (off + w) io_len ++ addresses (left_of (advance io_len off len ss w rs))
        ≡ addresses (left_of (at_head off len ss w rs))
  advance_bytes h = elim (Bool-cases (io_len == len)) [
    | inl e ↦ rw (e) (λ i.
        range (off + w) ((nat_beq_iff io_len len).0 e i)
        ++ addresses (shifted-zero ss i ++ selected rs))
    | inr e ↦ rw (e) (
        sym (
          append_assoc (range (off + w) io_len) (range (off + (w + io_len)) (len - io_len))
            (addresses (ss ++ selected rs)))
        ∙ ap (λ (bytes : List ℕ). bytes ++ addresses (ss ++ selected rs)) (split_range h))
  ]

  pub advance-IsReady :
      0 < io_len
      → io_len ≤ len
      → IsReady (at_head off len ss w rs)
      → IsReady (advance io_len off len ss w rs)
  advance-IsReady p h ((pl, ps), full, start) = elim (Bool-cases (io_len == len)) [
    | inl e ↦ rw (e) (ps, full, at_zero ss)
    | inr e ↦ rw (e) ((ground (arith, nat_beq_iff io_len len), ps), full, tt)
  ]

  pub pieces-advance :
      io_len ≤ len
      → (pieces (advance io_len off len ss w rs) ≤ pieces (at_head off len ss w rs))
        × ((io_len ≡ len)
            → pieces (advance io_len off len ss w rs) < pieces (at_head off len ss w rs))
  pieces-advance h = elim (Bool-cases (io_len == len)) [
    | inl e ↦ rw (e) (omega arith, λ d. omega arith)
    | inr e ↦ rw (e) (omega arith, λ d. absurd (ground (arith, nat_beq_iff io_len len)))
  ]
