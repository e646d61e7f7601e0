-- ===== src/Vol/IoOps.antt =====
-- The three functions of adapter/vol/vol-old/H5VLDTIO.cc that turn a selection into reads or writes
-- of the store, `H5VL_dtio_build_io_op_merge`, `_match` and `_contig`. What the calls of
-- `H5Ssel_iter_get_seq_list` answer, which is HDF5's, is the list of their replies; an iterator that
-- cannot be created is a first reply that fails.
pub mod Ranges
pub mod Sides
pub mod Rounds
pub mod Merge
pub mod Single
pub mod Packed
use dtio.Prelude.{
  ℕ, zero, suc, ◌+◌, ◌-◌, ◌%◌, ◌^◌, Bool, true, false, ◌&&◌, ◌||◌, ◌*◌, not, List, [], ◌∷◌, ◌++◌,
  Option, none, some, if◌then◌else◌, leb, ltb, nat_eq, ◌==◌,
}
use dtio.Exec.{Exec, ok, fault, bad_buffer, failed_assertion}

-- `dtio_read_op_read` and `dtio_write_op_write`: where in the stored object, how many bytes, and
-- where in the buffer.
pub data IoOp : Type 0 where
  op_read : ℕ → ℕ → ℕ → IoOp
  op_write : ℕ → ℕ → ℕ → IoOp

-- A reply: failure, or the number of elements and the offset and length of each sequence.
pub data SeqReply : Type 0 where
  seq_failed : SeqReply
  seqs : ℕ → List (ℕ × ℕ) → SeqReply

-- Whether `SUCCEED` is returned, and the operations that were added.
abbrev pub Built : Type 0
Built = Exec (Bool × List IoOp)

abbrev pub add_op : IoOp → Built → Built
add_op op (ok (success, ops)) = ok (success, op ∷ ops)
add_op op (fault e) = fault e

abbrev pub add_ops : List IoOp → Built → Built
add_ops [] r = r
add_ops (op ∷ ops) r = add_op op (add_ops ops r)

-- `x -= y` on 64 bits.
abbrev pub minus_word : ℕ → ℕ → ℕ
minus_word x y = (x + 2 ^ 64 - y) % 2 ^ 64

-- One side of the merge: the sequences of the last reply that are not used up, `mem_ei` or `file_ei`,
-- and the replies to come. The length of the first sequence is what is left of it.
pub record Side : Type 0 where
  pub pending : List (ℕ × ℕ)
  pub within : ℕ
  pub replies : List SeqReply

-- `none` is a call that fails.
abbrev pub refill_from : List (ℕ × ℕ) → ℕ → List SeqReply → Option Side
refill_from [] w [] = none
refill_from [] w (seq_failed ∷ rs) = none
refill_from [] w (seqs nelem ss ∷ rs) = some (record { pending = ss; within = w; replies = rs })
refill_from (s ∷ ss) w rs = some (record { pending = s ∷ ss; within = w; replies = rs })

unfoldable pub refill : Side → Option Side
refill side = refill_from side.pending side.within side.replies

-- The update of the indices of one side after `io_len` bytes of its first sequence.
abbrev pub advance : ℕ → ℕ → ℕ → List (ℕ × ℕ) → ℕ → List SeqReply → Side
advance io_len off len ss w rs =
    if io_len == len
    then record { pending = ss; within = 0; replies = rs }
    else record { pending = (off, len - io_len) ∷ ss; within = w + io_len; replies = rs }

abbrev pub io_op : Bool → ℕ → ℕ → ℕ → IoOp
io_op rbuf file_off len mem_off =
    if rbuf then op_read file_off len mem_off else op_write file_off len mem_off

-- The operation, and the rounds that follow if bytes are left.
abbrev pub round_end : Bool → IoOp → Option Built → Option Built
round_end true op none = none
round_end true op (some built) = some (add_op op built)
round_end false op rest = some (ok (true, op ∷ []))

-- A round of the loop, given the rounds that follow. A reply with no sequence leaves the arrays
-- without a value.
unfoldable pub merge_round :
    (Side → Side → ℕ → Option Built)
    → Bool
    → List (ℕ × ℕ)
    → ℕ
    → List SeqReply
    → List (ℕ × ℕ)
    → ℕ
    → List SeqReply
    → ℕ
    → Option Built
merge_round next rbuf ((mem_off, mem_len) ∷ ms) mem_ei mrs ((file_off, file_len) ∷ fs) file_ei frs
      tot_len =
    let io_len = if leb mem_len file_len then mem_len else file_len in
    let op = io_op rbuf (file_off + file_ei) io_len (mem_off + mem_ei) in
    let left = minus_word tot_len io_len in
    let rest =
      next (advance io_len mem_off mem_len ms mem_ei mrs)
        (advance io_len file_off file_len fs file_ei frs) left in
    round_end (ltb 0 left) op rest
merge_round next rbuf [] mem_ei mrs fs file_ei frs tot_len = some (fault bad_buffer)
merge_round next rbuf (m ∷ ms) mem_ei mrs [] file_ei frs tot_len = some (fault bad_buffer)

-- A refill that fails ends the function with `FAIL`.
abbrev pub refilled : Option Side → Option Side → (Side → Side → Option Built) → Option Built
refilled none file k = some (ok (false, []))
refilled (some m) none k = some (ok (false, []))
refilled (some m) (some f) k = k m f

-- `none`: the fuel is used up.
unfoldable pub merge_loop : ℕ → Bool → Side → Side → ℕ → Option Built
unfolding merge_round refill
merge_loop zero rbuf mem file tot_len = none
merge_loop (suc fuel) rbuf mem file tot_len = refilled (refill mem) (refill file) λ m f.
    merge_round (merge_loop fuel rbuf) rbuf m.pending m.within m.replies f.pending f.within
      f.replies tot_len

abbrev pub fresh : List SeqReply → Side
fresh replies = record { pending = []; within = 0; replies = replies }

-- `!rbuf != !wbuf`
abbrev pub one_given : Bool → Bool → Bool
one_given rbuf wbuf = if rbuf then not wbuf else wbuf

-- `rbuf` and `wbuf` tell which of the two buffers is given.
unfoldable pub build_io_op_merge :
    ℕ → List SeqReply → List SeqReply → ℕ → ℕ → Bool → Bool → Option Built
unfolding merge_loop
build_io_op_merge fuel mem_replies file_replies type_size tot_nelem rbuf wbuf =
    if one_given rbuf wbuf && ltb 0 tot_nelem
    then merge_loop fuel rbuf (fresh mem_replies) (fresh file_replies)
        (tot_nelem * type_size % 2 ^ 64)
    else some (fault failed_assertion)

-- The operations of one reply in `_match`, whose buffer has the layout of the file.
unfoldable pub match_ops : Bool → List (ℕ × ℕ) → List IoOp
match_ops rbuf [] = []
match_ops rbuf ((off, len) ∷ ss) = io_op rbuf off len off ∷ match_ops rbuf ss

match_loop : Bool → List SeqReply → ℕ → Built
unfolding match_ops
match_loop rbuf [] tot_nelem = ok (false, [])
match_loop rbuf (seq_failed ∷ rs) tot_nelem = ok (false, [])
match_loop rbuf (seqs nelem ss ∷ rs) tot_nelem =
    let left = minus_word tot_nelem nelem in
    let rest = match_loop rbuf rs left in
    add_ops (match_ops rbuf ss) (if ltb 0 left then rest else ok (true, []))

unfoldable pub build_io_op_match : List SeqReply → ℕ → Bool → Bool → Built
unfolding match_loop
build_io_op_match replies tot_nelem rbuf wbuf =
    if not (one_given rbuf wbuf)
    then ok (false, [])
    else if tot_nelem == 0
    then fault failed_assertion
    else match_loop rbuf replies tot_nelem

-- The operations of one reply in `_contig`, from `mem_off` on, and the offset behind them. Both
-- buffers may be given.
unfoldable pub contig_ops : Bool → Bool → List (ℕ × ℕ) → ℕ → List IoOp
contig_ops rbuf wbuf [] mem_off = []
contig_ops rbuf wbuf ((off, len) ∷ ss) mem_off =
    (if rbuf then op_read off len mem_off ∷ [] else [])
    ++ ((if wbuf then op_write off len mem_off ∷ [] else [])
        ++ contig_ops rbuf wbuf ss (mem_off + len))

abbrev pub bytes_of : List (ℕ × ℕ) → ℕ
bytes_of [] = 0
bytes_of ((off, len) ∷ ss) = len + bytes_of ss

contig_loop : Bool → Bool → List SeqReply → ℕ → ℕ → Built
unfolding contig_ops
contig_loop rbuf wbuf [] tot_nelem mem_off = ok (false, [])
contig_loop rbuf wbuf (seq_failed ∷ rs) tot_nelem mem_off = ok (false, [])
contig_loop rbuf wbuf (seqs nelem ss ∷ rs) tot_nelem mem_off =
    let left = minus_word tot_nelem nelem in
    let rest = contig_loop rbuf wbuf rs left (mem_off + bytes_of ss) in
    add_ops (contig_ops rbuf wbuf ss mem_off) (if ltb 0 left then rest else ok (true, []))

unfoldable pub build_io_op_contig : List SeqReply → ℕ → Bool → Bool → Built
unfolding contig_loop
build_io_op_contig replies tot_nelem rbuf wbuf =
    if (rbuf || wbuf) && ltb 0 tot_nelem
    then contig_loop rbuf wbuf replies tot_nelem 0
    else fault failed_assertion
