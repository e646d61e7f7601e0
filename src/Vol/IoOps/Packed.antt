-- ===== src/Vol/IoOps/Packed.antt =====
-- `H5VL_dtio_build_io_op_contig` of adapter/vol/vol-old/H5VLDTIO.cc: one selection, and a buffer that
-- holds its bytes without gaps.
use dtio.Prelude.{
  ℕ, ◌+◌, ◌^◌, ◌<◌, ◌≡◌, refl, sym, ap, ◌∙◌, Bool, true, false, List, [], ◌∷◌, ◌++◌, if◌then◌else◌,
  ltb, arith, nat_eq,
}
use mathlib.Core.List.{append_assoc}
use dtio.Exec.{ok}
use dtio.Vol.IoOps.{
  IoOp, op_read, op_write, SeqReply, seq_failed, seqs, minus_word, contig_loop, contig_ops,
  build_io_op_contig, add_ops, one_given, bytes_of,
}
use dtio.Vol.IoOps.Ranges.{
  range, addresses, selected, file_bytes, mem_bytes, AllToward, range-append,
}
use dtio.Vol.IoOps.Single.{AllCounted, elements, whichever, no_more, minus_elements, add_ops-ok}

contig_ops-append :
    (rbuf wbuf : Bool) (xs ys : List (ℕ × ℕ)) (m : ℕ)
    → contig_ops rbuf wbuf (xs ++ ys) m
      ≡ contig_ops rbuf wbuf xs m ++ contig_ops rbuf wbuf ys (m + bytes_of xs)
unfolding contig_ops
contig_ops-append rbuf wbuf [] ys m = ap (contig_ops rbuf wbuf ys) same
  where
    same : m ≡ m + 0
    same = omega arith
contig_ops-append rbuf wbuf ((o, l) ∷ xs) ys m =
    ap (λ (rest : List IoOp). reads ++ (writes ++ rest))
      (contig_ops-append rbuf wbuf xs ys (m + l)
        ∙ ap (λ (k : ℕ). contig_ops rbuf wbuf xs (m + l) ++ contig_ops rbuf wbuf ys k) sums)
    ∙ (ap (◌++◌ reads) (sym (append_assoc writes (contig_ops rbuf wbuf xs (m + l)) tail))
        ∙ sym (append_assoc reads (writes ++ contig_ops rbuf wbuf xs (m + l)) tail))
  where
    reads : List IoOp
    reads = if rbuf then op_read o l m ∷ [] else []

    writes : List IoOp
    writes = if wbuf then op_write o l m ∷ [] else []

    tail : List IoOp
    tail = contig_ops rbuf wbuf ys (m + (l + bytes_of xs))

    sums : m + l + bytes_of xs ≡ m + (l + bytes_of xs)
    sums = omega arith

contig_loop_lem :
    (rbuf wbuf : Bool) (replies : List SeqReply) (tot m : ℕ)
    → AllCounted replies
    → elements replies ≡ tot
    → 0 < tot
    → tot < 2 ^ 64
    → contig_loop rbuf wbuf replies tot m ≡ ok (true, contig_ops rbuf wbuf (selected replies) m)
unfolding contig_loop
contig_loop_lem rbuf wbuf [] tot m h e p bound = absurd (omega arith)
contig_loop_lem rbuf wbuf (seq_failed ∷ rs) tot m h e p bound = absurd h
contig_loop_lem rbuf wbuf (seqs nelem ss ∷ rs) tot m (some_elements, h) e p bound =
    ap (add_ops (contig_ops rbuf wbuf ss m)) (
      whichever (ltb 0 (minus_word tot nelem))
        (contig_loop rbuf wbuf rs (minus_word tot nelem) (m + bytes_of ss)) (ok (true, []))
        (ok (true, contig_ops rbuf wbuf (selected rs) (m + bytes_of ss)))
        (λ more.
          contig_loop_lem rbuf wbuf rs (minus_word tot nelem) (m + bytes_of ss) h (sym left)
            (ground (arith, more)) (omega (arith, left)))
        (λ done.
          ap (λ (l : List SeqReply). ok (true, contig_ops rbuf wbuf (selected l) (m + bytes_of ss)))
            (sym (no_more rs h (ground (arith, done, left))))))
    ∙ (add_ops-ok (contig_ops rbuf wbuf ss m) (contig_ops rbuf wbuf (selected rs) (m + bytes_of ss))
        ∙ ap (λ (l : List IoOp). ok (true, l))
            (sym (contig_ops-append rbuf wbuf ss (selected rs) m)))
  where
    left : minus_word tot nelem ≡ elements rs
    left = minus_elements nelem (elements rs) tot e bound

contig_ops_sides :
    (rbuf wbuf : Bool) (ss : List (ℕ × ℕ)) (m : ℕ)
    → one_given rbuf wbuf ≡ true
    → (file_bytes (contig_ops rbuf wbuf ss m) ≡ addresses ss)
      × (mem_bytes (contig_ops rbuf wbuf ss m) ≡ range m (bytes_of ss))
      × AllToward rbuf (contig_ops rbuf wbuf ss m)
unfolding contig_ops
contig_ops_sides true true ss m one = absurd (cc)
contig_ops_sides false false ss m one = absurd (cc)
contig_ops_sides true false [] m one = (refl, refl, tt)
contig_ops_sides false true [] m one = (refl, refl, tt)
contig_ops_sides true false ((o, l) ∷ ss) m one =
    let (f, b, t) = contig_ops_sides true false ss (m + l) one in
    (
      ap (◌++◌ (range o l)) f,
      ap (◌++◌ (range m l)) b ∙ sym (range-append m l (bytes_of ss)),
      (refl, t),
    )
contig_ops_sides false true ((o, l) ∷ ss) m one =
    let (f, b, t) = contig_ops_sides false true ss (m + l) one in
    (
      ap (◌++◌ (range o l)) f,
      ap (◌++◌ (range m l)) b ∙ sym (range-append m l (bytes_of ss)),
      (refl, t),
    )

checked :
    (rbuf wbuf : Bool) (replies : List SeqReply) (tot : ℕ)
    → one_given rbuf wbuf ≡ true
    → 0 < tot
    → build_io_op_contig replies tot rbuf wbuf ≡ contig_loop rbuf wbuf replies tot 0
unfolding build_io_op_contig
checked true wbuf replies tot one p = ground arith
checked false true replies tot one p = ground arith
checked false false replies tot one p = absurd (cc)

-- With one buffer, the selected bytes of the file are moved to or from the buffer from its start on,
-- without gaps and in the order of the selection: where every call of the iterator succeeds with an
-- element, and the elements are `tot_nelem`.
pub build_io_op_contig_lem :
    (replies : List SeqReply) (tot_nelem : ℕ) (rbuf wbuf : Bool)
    → one_given rbuf wbuf ≡ true
    → AllCounted replies
    → elements replies ≡ tot_nelem
    → 0 < tot_nelem
    → tot_nelem < 2 ^ 64
    → (ops : List IoOp) × (build_io_op_contig replies tot_nelem rbuf wbuf ≡ ok (true, ops))
      × (file_bytes ops ≡ addresses (selected replies))
      × (mem_bytes ops ≡ range 0 (bytes_of (selected replies)))
      × AllToward rbuf ops
build_io_op_contig_lem replies tot rbuf wbuf one h e p bound =
    let (f, m, t) = contig_ops_sides rbuf wbuf (selected replies) 0 one in
    (
      contig_ops rbuf wbuf (selected replies) 0,
      checked rbuf wbuf replies tot one p ∙ contig_loop_lem rbuf wbuf replies tot 0 h e p bound,
      f,
      m,
      t,
    )
