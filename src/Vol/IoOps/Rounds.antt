-- ===== src/Vol/IoOps/Rounds.antt =====
-- One round of the loop of `H5VL_dtio_build_io_op_merge`, adapter/vol/vol-old/H5VLDTIO.cc, once both
-- sides have a sequence.
use dtio.Prelude.{
  ℕ, suc, ◌+◌, ◌-◌, ◌^◌, ◌<◌, ◌≤◌, ◌≡◌, ◌⊎◌, refl, sym, ap, ◌∙◌, Bool, true, false, List, [], ◌∷◌,
  ◌++◌, Option, some, length, length-append, if◌then◌else◌, leb, ltb, Bool-cases, inl, inr, arith,
}
use dtio.Exec.{ok}
use dtio.Vol.IoOps.{IoOp, io_op, SeqReply, Side, Built, round_end, advance, minus_word, merge_round}
use dtio.Vol.IoOps.Ranges.{
  range, addresses, file_bytes, mem_bytes, AllToward, file_side, mem_side, is_read, length-range,
}
use dtio.Vol.IoOps.Sides.{
  IsReady, left_of, pieces, at_head, advance_bytes, advance-IsReady, pieces-advance,
}

-- The operations move the bytes left on the one side to those left on the other.
abbrev pub Moves : Bool → Side → Side → Option Built → Type 0
Moves rbuf mem file result =
    (ops : List IoOp) × (result ≡ some (ok (true, ops)))
    × (mem_bytes ops ≡ addresses (left_of mem))
    × (file_bytes ops ≡ addresses (left_of file))
    × AllToward rbuf ops

io_op_sides :
    (rbuf : Bool) (file_off len mem_off : ℕ)
    → (file_side (io_op rbuf file_off len mem_off) ≡ (file_off, len))
      × (mem_side (io_op rbuf file_off len mem_off) ≡ (mem_off, len))
      × (is_read (io_op rbuf file_off len mem_off) ≡ rbuf)
io_op_sides true file_off len mem_off = (refl, refl, refl)
io_op_sides false file_off len mem_off = (refl, refl, refl)

none_left : (xs : List ℕ) → length xs ≡ 0 → xs ≡ []
none_left [] h = refl
none_left (x ∷ xs) h = absurd (omega arith)

nothing : {n m : ℕ} → ltb 0 n ≡ false → m ≡ n → m ≡ 0
nothing h e = ground arith

-- What the rounds after this one promise.
abbrev pub NextMoves : Bool → (Side → Side → ℕ → Option Built) → ℕ → Type 0
NextMoves rbuf next fuel =
    (mem file : Side) (tot : ℕ)
    → IsReady mem
    → IsReady file
    → 0 < tot
    → tot < 2 ^ 64
    → length (addresses (left_of mem)) ≡ tot
    → length (addresses (left_of file)) ≡ tot
    → pieces mem + pieces file ≤ fuel
    → Moves rbuf mem file (next mem file tot)

module _ (rbuf : Bool) (next : Side → Side → ℕ → Option Built) (fuel : ℕ) (mem_off mem_len : ℕ)
    (ms : List (ℕ × ℕ)) (mem_ei : ℕ) (mrs : List SeqReply) (file_off file_len : ℕ)
    (fs : List (ℕ × ℕ)) (file_ei : ℕ) (frs : List SeqReply) (tot : ℕ) where
  abbrev io_len : ℕ
  io_len = if leb mem_len file_len then mem_len else file_len

  abbrev op : IoOp
  op = io_op rbuf (file_off + file_ei) io_len (mem_off + mem_ei)

  abbrev mem_next : Side
  mem_next = advance io_len mem_off mem_len ms mem_ei mrs

  abbrev file_next : Side
  file_next = advance io_len file_off file_len fs file_ei frs

  abbrev mem_now : Side
  mem_now = at_head mem_off mem_len ms mem_ei mrs

  abbrev file_now : Side
  file_now = at_head file_off file_len fs file_ei frs

  io_len_bounds :
      (io_len ≤ mem_len) × (io_len ≤ file_len) × ((io_len ≡ mem_len) ⊎ (io_len ≡ file_len))
  io_len_bounds = ground arith

  io_len_positive : 0 < mem_len → 0 < file_len → 0 < io_len
  io_len_positive p q = ground arith

  -- An operation in front of those that move the bytes left after it.
  op_moves :
      (ops : List IoOp)
      → mem_bytes ops ≡ addresses (left_of mem_next)
      → file_bytes ops ≡ addresses (left_of file_next)
      → AllToward rbuf ops
      → (mem_bytes (op ∷ ops) ≡ addresses (left_of mem_now))
        × (file_bytes (op ∷ ops) ≡ addresses (left_of file_now))
        × AllToward rbuf (op ∷ ops)
  op_moves ops em ef et =
      let (fside, mside, toward) =
        io_op_sides rbuf (file_off + file_ei) io_len (mem_off + mem_ei) in
      (
        (λ i. range (mside i).0 (mside i).1 ++ em i)
            ∙ advance_bytes io_len mem_off mem_len ms mem_ei mrs io_len_bounds.0,
        (λ i. range (fside i).0 (fside i).1 ++ ef i)
            ∙ advance_bytes io_len file_off file_len fs file_ei frs io_len_bounds.1,
        (toward, et),
      )

  -- The bytes left on a side after the round.
  bytes_after :
      (side' : Side) (off : ℕ) (front : List ℕ)
      → range off io_len ++ addresses (left_of side') ≡ front
      → length front ≡ tot
      → (io_len ≤ tot) × (length (addresses (left_of side')) ≡ tot - io_len)
  bytes_after side' off front e n = omega (
    arith,
    ap length e,
    length-append (range off io_len) (addresses (left_of side')),
    length-range off io_len,
  )

  fuel_after :
      pieces mem_now + pieces file_now ≤ suc fuel → pieces mem_next + pieces file_next ≤ fuel
  fuel_after h =
      let (bm, bf, used) = io_len_bounds in
      let (lem, ltm) = pieces-advance io_len mem_off mem_len ms mem_ei mrs bm in
      let (lef, ltf) = pieces-advance io_len file_off file_len fs file_ei frs bf in
      elim used [ inl e ↦ omega (arith, ltm e) | inr e ↦ omega (arith, ltf e) ]

  abbrev left : ℕ
  left = minus_word tot io_len

  left_lem : io_len ≤ tot → tot < 2 ^ 64 → left ≡ tot - io_len
  left_lem h k = omega arith

  go_on :
      ltb 0 left ≡ true
      → Moves rbuf mem_next file_next (next mem_next file_next left)
      → Moves rbuf mem_now file_now
          (merge_round next rbuf mem_now.pending mem_ei mrs file_now.pending file_ei frs tot)
  unfolding merge_round
  go_on e (ops, er, em, ef, et) =
      let (m, f, t) = op_moves ops em ef et in (op ∷ ops, (λ i. round_end (e i) op (er i)), m, f, t)

  stop :
      ltb 0 left ≡ false
      → addresses (left_of mem_next) ≡ []
      → addresses (left_of file_next) ≡ []
      → Moves rbuf mem_now file_now
          (merge_round next rbuf mem_now.pending mem_ei mrs file_now.pending file_ei frs tot)
  unfolding merge_round
  stop e em ef =
      let (m, f, t) = op_moves [] (sym em) (sym ef) tt in
      (op ∷ [], (λ i. round_end (e i) op (next mem_next file_next left)), m, f, t)

  pub round-Moves :
      NextMoves rbuf next fuel
      → IsReady mem_now
      → IsReady file_now
      → tot < 2 ^ 64
      → length (addresses (left_of mem_now)) ≡ tot
      → length (addresses (left_of file_now)) ≡ tot
      → pieces mem_now + pieces file_now ≤ suc fuel
      → Moves rbuf mem_now file_now
          (merge_round next rbuf mem_now.pending mem_ei mrs file_now.pending file_ei frs tot)
  round-Moves ih rm rf bound nm nf enough =
      let (bm, bf, used) = io_len_bounds in
      let some_bytes = io_len_positive rm.0.0 rf.0.0 in
      let (le, after_mem) =
        bytes_after mem_next (mem_off + mem_ei) (addresses (left_of mem_now))
          (advance_bytes io_len mem_off mem_len ms mem_ei mrs bm) nm in
      let (_, after_file) =
        bytes_after file_next (file_off + file_ei) (addresses (left_of file_now))
          (advance_bytes io_len file_off file_len fs file_ei frs bf) nf in
      let e = left_lem le bound in
      elim (Bool-cases (ltb 0 left)) [
        | inl more ↦ go_on more (
            ih mem_next file_next left
              (advance-IsReady io_len mem_off mem_len ms mem_ei mrs some_bytes bm rm)
              (advance-IsReady io_len file_off file_len fs file_ei frs some_bytes bf rf)
              (ground (arith, more)) (omega arith) (omega arith) (omega arith) (fuel_after enough))
        | inr done ↦
            stop done (none_left (addresses (left_of mem_next)) (nothing done (after_mem ∙ sym e)))
              (none_left (addresses (left_of file_next)) (nothing done (after_file ∙ sym e)))
      ]
