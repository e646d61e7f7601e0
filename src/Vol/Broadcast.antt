-- ===== src/Vol/Broadcast.antt =====
-- What the processes of a collective open exchange in adapter/vol/vol-old/H5VLDTIO.cc: the lead
-- process of `H5VL_dtio_group_open` and of `H5VL_dtio_file_open` broadcasts what it has read from the
-- store, and the others decode it. A broadcast is a message that arrives as it was sent; the bytes of
-- an array that nothing was written to are those that stood there.
pub mod Exchange
use dtio.Prelude.{
  ℕ, zero, suc, ◌+◌, ◌*◌, ◌^◌, ◌<◌, ◌≡◌, Bool, true, false, List, [], ◌∷◌, ◌++◌, Option, none, some,
  Str, length, take, drop, if◌then◌else◌, ltb, leb, nat_eq, ◌==◌,
}
use dtio.Exec.{Exec, ok, fault, bad_buffer, failed_assertion, ◌>>=◌, ◌>>◌, guard}
use dtio.Vol.Words.{uint64_encode, uint64_decode}

abbrev pub ginfo_buf_size : ℕ
ginfo_buf_size = 256

abbrev pub foi_buf_size : ℕ
foi_buf_size = 1024

-- The array after bytes were written to its front.
abbrev pub overwrite : Str → Str → Str
overwrite bytes array = bytes ++ drop (length bytes) array

-- `MPI_Bcast` on a receiver, for a number of bytes: the first message, and those that follow it. A
-- message of another length is an error of the exchange.
abbrev pub receive : ℕ → List Str → Exec (Str × List Str)
receive count [] = fault bad_buffer
receive count (m ∷ ms) = if length m == count then ok (m, ms) else fault bad_buffer

abbrev pub sent : Str → ℕ → Str → Bool → Bool → List Str
sent array oid gcpl fits again =
    overwrite (uint64_encode oid ++ (uint64_encode (length gcpl) ++ (if fits then gcpl else [])))
      array
    ∷ (if again then gcpl ∷ [] else [])

-- The broadcasts of the lead process in `group_open`, for the identifier of the group and its encoded
-- property list; `array` is `ginfo_buf_static`.
unfoldable pub send_group : Str → ℕ → Str → List Str
send_group array oid gcpl =
    sent array oid gcpl (leb (length gcpl + 16) ginfo_buf_size)
      (ltb ginfo_buf_size (length gcpl + 16))

-- The two words at the start of the first broadcast, what stands at `p` behind them, and the
-- broadcasts to come.
unfoldable pub receive_info :
    ℕ → (ℕ → ℕ → Str → List Str → Exec (ℕ × Str)) → List Str → Exec (ℕ × Str)
receive_info size rest messages = receive size messages >>= λ r. uint64_decode r.0 >>= λ first.
    uint64_decode first.1 >>= λ second. rest first.0 second.0 second.1 r.1

abbrev pub get_group : ℕ → ℕ → Str → List Str → Exec (ℕ × Str)
get_group oid gcpl_len p later =
    if ltb ginfo_buf_size (gcpl_len + 16)
    then (receive gcpl_len later >>= λ r. ok (oid, r.0))
    else ok (oid, take gcpl_len p)

-- The identifier and the bytes at `p`, which `H5VL_dtio_group_reconstitute` decodes. A length of 0 is
-- reported, and the function goes on.
unfoldable pub receive_group : List Str → Exec (ℕ × Str)
receive_group messages = receive_info ginfo_buf_size get_group messages

-- The broadcasts of the lead process in `file_open`: `max_oid` are the 8 bytes that it has read from
-- the store to the front of `array`, which is `foi_buf_static`. Where the property list does not fit,
-- the function changes to another buffer and then asserts that `p`, which still points into the
-- array, points into that buffer.
unfoldable pub send_file : Str → Str → Str → Exec (List Str)
send_file array max_oid gcpl =
    guard (leb (length gcpl + 16) foi_buf_size) failed_assertion
    >> ok (overwrite (max_oid ++ (uint64_encode (length gcpl) ++ gcpl)) array ∷ [])

-- A second broadcast goes to `foi_buf_dyn`, which is null unless the property list alone is longer
-- than the array.
abbrev pub get_file : ℕ → ℕ → Str → List Str → Exec (ℕ × Str)
get_file max_oid gcpl_len p later =
    if ltb foi_buf_size (gcpl_len + 16)
    then (guard (ltb foi_buf_size gcpl_len) bad_buffer
        >> (receive gcpl_len later >>= λ r. ok (max_oid, r.0)))
    else ok (max_oid, take gcpl_len p)

-- The index and the bytes at `p`.
unfoldable pub receive_file : List Str → Exec (ℕ × Str)
receive_file messages = receive_info foi_buf_size get_file messages
