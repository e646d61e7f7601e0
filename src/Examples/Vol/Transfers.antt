-- ===== src/Examples/Vol/Transfers.antt =====
-- Selections turned into operations at concrete inputs.
use dtio.Prelude.{◌≡◌, refl, true, false, List, [], ◌∷◌, some, arith}
use dtio.Exec.{ok}
use dtio.Vol.IoOps.{IoOp, SeqReply, seqs, build_io_op_merge, build_io_op_contig, bytes_of}
use dtio.Vol.IoOps.Ranges.{addresses, selected, range, file_bytes, mem_bytes, AllToward}
use dtio.Vol.IoOps.Merge.{build_io_op_merge_lem}
use dtio.Vol.IoOps.Packed.{build_io_op_contig_lem}

-- Three elements of two bytes: in memory two pieces of one reply, in the file three of two replies.
abbrev mem_replies : List SeqReply
mem_replies = seqs 3 ((0, 4) ∷ (10, 2) ∷ []) ∷ []

abbrev file_replies : List SeqReply
file_replies = seqs 2 ((100, 2) ∷ (200, 2) ∷ []) ∷ seqs 1 ((300, 2) ∷ []) ∷ []

build_io_op_merge_lem_example :
    (ops : List IoOp) × (build_io_op_merge 5 mem_replies file_replies 2 3 true false
      ≡ some (ok (true, ops)))
    × (mem_bytes ops ≡ addresses (selected mem_replies))
    × (file_bytes ops ≡ addresses (selected file_replies))
    × AllToward true ops
build_io_op_merge_lem_example =
    build_io_op_merge_lem 5 mem_replies file_replies 2 3 true false refl (omega arith) (omega arith)
      ((omega arith, (omega arith, tt)), tt)
      ((omega arith, (omega arith, tt)), ((omega arith, tt), tt)) refl refl (omega arith)

build_io_op_contig_lem_example :
    (ops : List IoOp) × (build_io_op_contig file_replies 3 false true ≡ ok (true, ops))
    × (file_bytes ops ≡ addresses (selected file_replies))
    × (mem_bytes ops ≡ range 0 (bytes_of (selected file_replies)))
    × AllToward false ops
build_io_op_contig_lem_example =
    build_io_op_contig_lem file_replies 3 false true refl (omega arith, (omega arith, tt)) refl
      (omega arith) (omega arith)
