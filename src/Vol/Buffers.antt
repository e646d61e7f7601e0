-- ===== src/Vol/Buffers.antt =====
-- What the operations of adapter/vol/vol-old/H5VLDTIO.cc take from a buffer, and leave in one, when they
-- run.
pub mod Pieces
use dtio.Prelude.{ℕ, ◌+◌, List, [], ◌∷◌, ◌++◌, Str, length, take, drop, if◌then◌else◌, ltb}
use dtio.Exec.{Exec, ok, fault, bad_buffer, ◌>>=◌}
use dtio.Vol.IoOps.{IoOp, op_read, op_write}

-- What an operation finds in a buffer when it runs.
abbrev pub slice : Str → ℕ → ℕ → Exec Str
slice buf off len =
    let bytes = take len (drop off buf) in
    if ltb (length bytes) len then fault bad_buffer else ok bytes

-- The offsets and bytes of a write operation.
unfoldable pub pieces : List IoOp → Str → Exec (List (ℕ × Str))
pieces [] buf = ok []
pieces (op_read off len mem_off ∷ ops) buf = pieces ops buf
pieces (op_write off len mem_off ∷ ops) buf =
    slice buf mem_off len >>= λ bytes. pieces ops buf >>= λ rest. ok ((off, bytes) ∷ rest)

-- What a read operation asks for, and its buffer afterwards.
abbrev pub asked : List IoOp → List (ℕ × ℕ)
asked [] = []
asked (op_read off len mem_off ∷ ops) = (off, len) ∷ asked ops
asked (op_write off len mem_off ∷ ops) = asked ops

abbrev pub placed : List IoOp → List Str → Str → Str
placed [] got buf = buf
placed (op_read off len mem_off ∷ ops) [] buf = buf
placed (op_read off len mem_off ∷ ops) (bytes ∷ got) buf =
    placed ops got (take mem_off buf ++ (bytes ++ drop (mem_off + length bytes) buf))
placed (op_write off len mem_off ∷ ops) got buf = placed ops got buf
