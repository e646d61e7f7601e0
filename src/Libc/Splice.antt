-- ===== src/Libc/Splice.antt =====
-- What a file holds after one `write`, and after two in a row.
use mathlib.Core.List.{append-nil, append_assoc}
use dtio.Prelude.{
  ℕ, zero, suc, ◌+◌, ◌-◌, ◌≤◌, ◌≡◌, refl, sym, ap, ◌∙◌, List, [], ◌∷◌, ◌++◌, length, length-append,
  length-take, length-replicate, take, take-append_left, drop, replicate, arith,
}
use dtio.Libc.Kernel.{overwrite, splice}

drop-append_past : (k : ℕ) (xs ys : List ℕ) → drop (length xs + k) (xs ++ ys) ≡ drop k ys
drop-append_past k [] ys = ap (λ n. drop n ys) (omega arith)
drop-append_past k (x ∷ xs) ys =
    ap (λ n. drop n (x ∷ (xs ++ ys))) {x = suc (length xs) + k} {y = suc (length xs + k)}
      (omega arith)
    ∙ drop-append_past k xs ys

take-append_past : (k : ℕ) (xs ys : List ℕ) → take (length xs + k) (xs ++ ys) ≡ xs ++ take k ys
take-append_past k [] ys = ap (λ n. take n ys) (omega arith)
take-append_past k (x ∷ xs) ys =
    ap (λ n. take n (x ∷ (xs ++ ys))) {x = suc (length xs) + k} {y = suc (length xs + k)}
      (omega arith)
    ∙ ap (◌∷◌ x) (take-append_past k xs ys)

take-drop-append :
    (n k : ℕ) (xs ys : List ℕ) → k + n ≤ length xs → take n (drop k (xs ++ ys)) ≡ take n (drop k xs)
take-drop-append zero k xs ys h = refl
take-drop-append (suc n) zero [] ys h = absurd (omega arith)
take-drop-append (suc n) zero (x ∷ xs) ys h =
    ap (◌∷◌ x) (take-drop-append n zero xs ys (omega arith))
take-drop-append (suc n) (suc k) [] ys h = absurd (omega arith)
take-drop-append (suc n) (suc k) (x ∷ xs) ys h = take-drop-append (suc n) k xs ys (omega arith)

drop-nil : (n : ℕ) → drop {A = ℕ} n [] ≡ []
drop-nil zero = refl
drop-nil (suc n) = refl

drop-drop : (m n : ℕ) (xs : List ℕ) → drop n (drop m xs) ≡ drop (m + n) xs
drop-drop zero n xs = ap (λ k. drop k xs) (omega arith)
drop-drop (suc m) n [] = drop-nil n ∙ sym (drop-nil (suc m + n))
drop-drop (suc m) n (x ∷ xs) =
    drop-drop m n xs ∙ ap (λ k. drop k (x ∷ xs)) {x = suc (m + n)} {y = suc m + n} (omega arith)

-- What stands before the data in the file.
abbrev before : ℕ → List ℕ → List ℕ
before o old = take o (old ++ replicate (o - length old) 0)

length-before : (o : ℕ) (old : List ℕ) → length (before o old) ≡ o
length-before o old = omega (
  arith,
  length-take o (old ++ replicate (o - length old) 0),
  length-append old (replicate (o - length old) 0),
  length-replicate {A = ℕ} (o - length old) 0,
)

take-drop-overwrite :
    (n k o : ℕ) (buf old : List ℕ)
    → k + n ≤ length buf
    → take n (drop (o + k) (overwrite o buf old)) ≡ take n (drop k buf)
unfolding overwrite
take-drop-overwrite n k o buf old h =
    let after = drop (o + length buf) old in
    ap (λ m. take n (drop (m + k) (before o old ++ (buf ++ after)))) (sym (length-before o old))
    ∙ (ap (take n) (drop-append_past k (before o old) (buf ++ after))
        ∙ take-drop-append n k buf after h)

-- A part of what was written at `o` is read back from `o + k`.
pub take-drop-splice :
    (n k o : ℕ) (buf old : List ℕ)
    → k + n ≤ length buf
    → take n (drop (o + k) (splice o buf old)) ≡ take n (drop k buf)
unfolding splice
take-drop-splice zero k o buf old h = refl
take-drop-splice (suc n) k o [] old h = absurd (omega arith)
take-drop-splice (suc n) k o (b ∷ buf) old h = take-drop-overwrite (suc n) k o (b ∷ buf) old h

-- What `overwrite` leaves, cut where its data ends.
take-overwrite :
    (o : ℕ) (a old : List ℕ) (zeros : List ℕ)
    → take (o + length a) (overwrite o a old ++ zeros) ≡ before o old ++ a
unfolding overwrite
take-overwrite o a old zeros =
    let rest = drop (o + length a) old in
    ap (take (o + length a)) (
      append_assoc (before o old) (a ++ rest) zeros
      ∙ ap (λ l. before o old ++ l) (append_assoc a rest zeros))
    ∙ (ap (λ m. take (m + length a) (before o old ++ (a ++ (rest ++ zeros))))
          (sym (length-before o old))
        ∙ (take-append_past (length a) (before o old) (a ++ (rest ++ zeros))
            ∙ ap (λ l. before o old ++ l) (take-append_left a (rest ++ zeros))))

drop-overwrite :
    (o k : ℕ) (a old : List ℕ)
    → drop (o + length a + k) (overwrite o a old) ≡ drop (o + length a + k) old
unfolding overwrite
drop-overwrite o k a old =
    let rest = drop (o + length a) old in
    ap (λ m. drop m (before o old ++ (a ++ rest))) {x = o + length a + k}
      {y = length (before o old) + (length a + k)} (omega (arith, length-before o old))
    ∙ (drop-append_past (length a + k) (before o old) (a ++ rest)
        ∙ (drop-append_past k a rest ∙ drop-drop (o + length a) k old))

overwrite-overwrite :
    (o : ℕ) (a b old : List ℕ)
    → overwrite (o + length a) b (overwrite o a old) ≡ overwrite o (a ++ b) old
unfolding overwrite
overwrite-overwrite o a b old =
    let first = overwrite o a old in
    let zeros : List ℕ = replicate (o + length a - length first) 0 in
    let tail = drop (o + length a + length b) old in
    ap (λ l. l ++ (b ++ drop (o + length a + length b) first)) (take-overwrite o a old zeros)
    ∙ (ap (λ l. (before o old ++ a) ++ (b ++ l)) (drop-overwrite o (length b) a old)
        ∙ (append_assoc (before o old) a (b ++ tail)
            ∙ (ap (λ l. before o old ++ l) (sym (append_assoc a b tail))
                ∙ ap (λ m. before o old ++ ((a ++ b) ++ drop m old)) {x = o + length a + length b}
                    {y = o + length (a ++ b)} (omega (arith, length-append a b)))))

-- A write where another has ended is one write of both.
pub splice-splice :
    (o : ℕ) (a b old : List ℕ) → splice (o + length a) b (splice o a old) ≡ splice o (a ++ b) old
unfolding splice
splice-splice o [] b old = ap (λ n. splice n b old) (omega arith)
splice-splice o (x ∷ a) [] old = ap (λ l. overwrite o (x ∷ l) old) (sym (append-nil a))
splice-splice o (x ∷ a) (y ∷ b) old = overwrite-overwrite o (x ∷ a) (y ∷ b) old
