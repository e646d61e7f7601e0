-- ===== src/Vol/IoOps/Single.antt =====
-- `H5VL_dtio_build_io_op_match` of adapter/vol/vol-old/H5VLDTIO.cc: one selection, and a buffer that
-- is laid out like the file.
use dtio.Prelude.{
  ℕ, ◌+◌, ◌^◌, ◌<◌, ◌≡◌, refl, sym, ap, ◌∙◌, Bool, true, false, List, [], ◌∷◌, ◌++◌, if◌then◌else◌,
  ltb, arith, nat_eq, ◌==◌,
}
use dtio.Exec.{ok}
use dtio.Vol.IoOps.{
  IoOp, io_op, SeqReply, seq_failed, seqs, minus_word, match_loop, match_ops, build_io_op_match,
  add_op, add_ops, one_given,
}
use dtio.Vol.IoOps.Ranges.{range, addresses, selected, file_bytes, mem_bytes, AllToward}

-- Every reply succeeds and has an element.
abbrev pub AllCounted : List SeqReply → Type 0
AllCounted [] = Unit
AllCounted (seq_failed ∷ rs) = ⊥
AllCounted (seqs nelem ss ∷ rs) = (0 < nelem) × AllCounted rs

abbrev pub elements : List SeqReply → ℕ
elements [] = 0
elements (seq_failed ∷ rs) = elements rs
elements (seqs nelem ss ∷ rs) = nelem + elements rs

-- The operations of all replies.
abbrev all_match_ops : Bool → List SeqReply → List IoOp
all_match_ops rbuf replies = match_ops rbuf (selected replies)

module _ {A : Type 0} where
  pub whichever :
      (b : Bool) (x y z : A) → (b ≡ true → x ≡ z) → (b ≡ false → y ≡ z) → (if b then x else y) ≡ z
  whichever true x y z h k = h refl
  whichever false x y z h k = k refl

pub add_ops-ok : (ops rest : List IoOp) → add_ops ops (ok (true, rest)) ≡ ok (true, ops ++ rest)
add_ops-ok [] rest = refl
add_ops-ok (op ∷ ops) rest = ap (add_op op) (add_ops-ok ops rest)

-- What is left of the count after a reply, and that nothing follows once it is used up.
pub no_more : (rs : List SeqReply) → AllCounted rs → elements rs ≡ 0 → rs ≡ []
no_more [] h e = refl
no_more (seq_failed ∷ rs) h e = absurd h
no_more (seqs nelem ss ∷ rs) (p, h) e = absurd (omega arith)

pub minus_elements : (n m tot : ℕ) → n + m ≡ tot → tot < 2 ^ 64 → minus_word tot n ≡ m
minus_elements n m tot e bound = omega arith

match_ops-append :
    (rbuf : Bool) (xs ys : List (ℕ × ℕ))
    → match_ops rbuf (xs ++ ys) ≡ match_ops rbuf xs ++ match_ops rbuf ys
unfolding match_ops
match_ops-append rbuf [] ys = refl
match_ops-append rbuf ((o, l) ∷ xs) ys = ap (◌∷◌ (io_op rbuf o l o)) (match_ops-append rbuf xs ys)

match_loop_lem :
    (rbuf : Bool) (replies : List SeqReply) (tot : ℕ)
    → AllCounted replies
    → elements replies ≡ tot
    → 0 < tot
    → tot < 2 ^ 64
    → match_loop rbuf replies tot ≡ ok (true, match_ops rbuf (selected replies))
unfolding match_loop
match_loop_lem rbuf [] tot h e p bound = absurd (omega arith)
match_loop_lem rbuf (seq_failed ∷ rs) tot h e p bound = absurd h
match_loop_lem rbuf (seqs nelem ss ∷ rs) tot (some_elements, h) e p bound =
    ap (add_ops (match_ops rbuf ss)) (
      whichever (ltb 0 (minus_word tot nelem)) (match_loop rbuf rs (minus_word tot nelem))
        (ok (true, [])) (ok (true, match_ops rbuf (selected rs)))
        (λ more.
          match_loop_lem rbuf rs (minus_word tot nelem) h (sym left) (ground (arith, more))
            (omega (arith, left)))
        (λ done.
          ap (λ (l : List SeqReply). ok (true, match_ops rbuf (selected l)))
            (sym (no_more rs h (ground (arith, done, left))))))
    ∙ (add_ops-ok (match_ops rbuf ss) (match_ops rbuf (selected rs))
        ∙ ap (λ (l : List IoOp). ok (true, l)) (sym (match_ops-append rbuf ss (selected rs))))
  where
    left : minus_word tot nelem ≡ elements rs
    left = minus_elements nelem (elements rs) tot e bound

match_ops_sides :
    (rbuf : Bool) (ss : List (ℕ × ℕ))
    → (file_bytes (match_ops rbuf ss) ≡ addresses ss)
      × (mem_bytes (match_ops rbuf ss) ≡ addresses ss)
      × AllToward rbuf (match_ops rbuf ss)
unfolding match_ops
match_ops_sides rbuf [] = (refl, refl, tt)
match_ops_sides true ((o, l) ∷ ss) =
    let (f, m, t) = match_ops_sides true ss in
    (ap (◌++◌ (range o l)) f, ap (◌++◌ (range o l)) m, (refl, t))
match_ops_sides false ((o, l) ∷ ss) =
    let (f, m, t) = match_ops_sides false ss in
    (ap (◌++◌ (range o l)) f, ap (◌++◌ (range o l)) m, (refl, t))

-- With one buffer, every selected byte of the file is moved to or from the same place in the buffer,
-- in the order of the selection: where every call of the iterator succeeds with an element, and the
-- elements are `tot_nelem`.
pub build_io_op_match_lem :
    (replies : List SeqReply) (tot_nelem : ℕ) (rbuf wbuf : Bool)
    → one_given rbuf wbuf ≡ true
    → AllCounted replies
    → elements replies ≡ tot_nelem
    → 0 < tot_nelem
    → tot_nelem < 2 ^ 64
    → (ops : List IoOp) × (build_io_op_match replies tot_nelem rbuf wbuf ≡ ok (true, ops))
      × (file_bytes ops ≡ addresses (selected replies))
      × (mem_bytes ops ≡ addresses (selected replies))
      × AllToward rbuf ops
unfolding build_io_op_match
build_io_op_match_lem replies tot rbuf wbuf one h e p bound =
    let (f, m, t) = match_ops_sides rbuf (selected replies) in
    (
      match_ops rbuf (selected replies),
      rw (one, counted) (match_loop_lem rbuf replies tot h e p bound),
      f,
      m,
      t,
    )
  where
    counted : tot == 0 ≡ false
    counted = ground arith
