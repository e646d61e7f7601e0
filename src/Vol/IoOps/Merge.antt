-- ===== src/Vol/IoOps/Merge.antt =====
-- `H5VL_dtio_build_io_op_merge` of adapter/vol/vol-old/H5VLDTIO.cc pairs the selected bytes of the
-- file with those of the memory in their order.
use dtio.Prelude.{
  ℕ, zero, suc, ◌+◌, ◌*◌, ◌^◌, ◌<◌, ◌≤◌, ◌≡◌, refl, ap, ◌∙◌, Bool, true, List, Option, some, length,
  ltb, arith,
}
use native.Mathlib.Nat.{mod-eq_of_lt, zero-mul}
use dtio.Exec.{ok}
use dtio.Vol.IoOps.{
  IoOp, SeqReply, Side, Built, refilled, merge_loop, merge_round, fresh, build_io_op_merge,
  one_given,
}
use dtio.Vol.IoOps.Ranges.{addresses, selected, file_bytes, mem_bytes, AllToward}
use dtio.Vol.IoOps.Rounds.{NextMoves, round-Moves}
use dtio.Vol.IoOps.Sides.{AllFull, refill-IsReady}

abbrev round_of : ℕ → Bool → ℕ → Side → Side → Option Built
round_of fuel rbuf tot m f =
    merge_round (merge_loop fuel rbuf) rbuf m.pending m.within m.replies f.pending f.within
      f.replies tot

merge_loop_moves : (fuel : ℕ) (rbuf : Bool) → NextMoves rbuf (merge_loop fuel rbuf) fuel
unfolding merge_loop
merge_loop_moves zero rbuf mem file tot rm rf p bound nm nf enough =
    let (mo, ml, ms, mw, mrs, em, rm', lm, pm) = refill-IsReady mem rm (omega arith) in
    absurd (omega arith)
merge_loop_moves (suc fuel) rbuf mem file tot rm rf p bound nm nf enough =
    let (mo, ml, ms, mw, mrs, em, rm', lm, pm) = refill-IsReady mem rm (omega arith) in
    let (fo, fl, fs, fw, frs, ef, rf', lf, pf) = refill-IsReady file rf (omega arith) in
    let (ops, er, bm, bf, toward) =
      round-Moves rbuf (merge_loop fuel rbuf) fuel mo ml ms mw mrs fo fl fs fw frs tot
        (merge_loop_moves fuel rbuf) rm' rf' bound
        (ap (λ (l : List (ℕ × ℕ)). length (addresses l)) lm ∙ nm)
        (ap (λ (l : List (ℕ × ℕ)). length (addresses l)) lf ∙ nf) (omega arith) in
    (
      ops,
      (λ i. refilled (em i) (ef i) (round_of fuel rbuf tot)) ∙ er,
      bm ∙ ap addresses lm,
      bf ∙ ap addresses lf,
      toward,
    )

positive_left : (m n : ℕ) → 0 < m * n → 0 < m
positive_left zero n h = absurd (omega (arith, zero-mul n))
positive_left (suc m) n h = omega arith

checked :
    (fuel : ℕ) (mem_replies file_replies : List SeqReply) (type_size tot_nelem : ℕ)
    (rbuf wbuf : Bool)
    → one_given rbuf wbuf ≡ true
    → 0 < tot_nelem
    → tot_nelem * type_size < 2 ^ 64
    → build_io_op_merge fuel mem_replies file_replies type_size tot_nelem rbuf wbuf
      ≡ merge_loop fuel rbuf (fresh mem_replies) (fresh file_replies) (tot_nelem * type_size)
unfolding build_io_op_merge
checked fuel mrs frs type_size tot_nelem rbuf wbuf one p bound =
    rw (one, some_elements) (ap (merge_loop fuel rbuf (fresh mrs) (fresh frs)) (mod-eq_of_lt bound))
  where
    some_elements : ltb 0 tot_nelem ≡ true
    some_elements = ground arith

-- With at least as much fuel as there are sequences, the function succeeds. Its operations all read
-- or all write, and move each selected byte of the file to or from the selected byte of the memory
-- that has the same position, in the order of the selections: where every call of the iterators
-- succeeds with at least one sequence, no sequence is empty, and both selections have
-- `tot_nelem * type_size` bytes.
pub build_io_op_merge_lem :
    (fuel : ℕ) (mem_replies file_replies : List SeqReply) (type_size tot_nelem : ℕ)
    (rbuf wbuf : Bool)
    → one_given rbuf wbuf ≡ true
    → 0 < tot_nelem * type_size
    → tot_nelem * type_size < 2 ^ 64
    → AllFull mem_replies
    → AllFull file_replies
    → length (addresses (selected mem_replies)) ≡ tot_nelem * type_size
    → length (addresses (selected file_replies)) ≡ tot_nelem * type_size
    → length (selected mem_replies) + length (selected file_replies) ≤ fuel
    → (ops : List IoOp) × (build_io_op_merge fuel mem_replies file_replies type_size tot_nelem rbuf
          wbuf
        ≡ some (ok (true, ops)))
      × (mem_bytes ops ≡ addresses (selected mem_replies))
      × (file_bytes ops ≡ addresses (selected file_replies))
      × AllToward rbuf ops
build_io_op_merge_lem fuel mrs frs type_size tot_nelem rbuf wbuf one p bound fm ff nm nf enough =
    let (ops, er, bm, bf, toward) =
      merge_loop_moves fuel rbuf (fresh mrs) (fresh frs) (tot_nelem * type_size) (tt, fm, refl)
        (tt, ff, refl) p bound nm nf (omega arith) in
    (
      ops,
      checked fuel mrs frs type_size tot_nelem rbuf wbuf one (positive_left tot_nelem type_size p)
            bound
          ∙ er,
      bm,
      bf,
      toward,
    )
