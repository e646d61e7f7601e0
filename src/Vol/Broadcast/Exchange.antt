-- ===== src/Vol/Broadcast/Exchange.antt =====
-- What the other processes of a collective open get in adapter/vol/vol-old/H5VLDTIO.cc.
use dtio.Prelude.{
  ℕ, ◌+◌, ◌^◌, ◌<◌, ◌≤◌, ◌≡◌, refl, sym, ap, ◌∙◌, Bool, true, false, List, [], ◌∷◌, ◌++◌, Str,
  length, drop, length-append, length-drop, take-append_left, if◌then◌else◌, ltb, leb, nat_eq,
  nat_beq_iff, arith,
}
use mathlib.Core.List.{append_assoc}
use native.Mathlib.Decide.{dec_le}
use dtio.Exec.{Exec, ok, fault, failed_assertion, ◌>>=◌, ◌>>◌, guard}
use dtio.Vol.Words.{uint64_encode, uint64_decode, length-uint64_encode, uint64_decode-uint64_encode}
use dtio.Vol.Broadcast.{
  overwrite, receive, sent, receive_info, get_group, get_file, send_group, receive_group, send_file,
  receive_file, ginfo_buf_size,
}

pub receive_whole :
    (count : ℕ) (m : Str) (ms : List Str) → length m ≡ count → receive count (m ∷ ms) ≡ ok (m, ms)
receive_whole count m ms e = rw ((nat_beq_iff (length m) count).1 e) refl

pub length-overwrite :
    (bytes array : Str)
    → length bytes ≤ length array
    → length (overwrite bytes array) ≡ length array
length-overwrite bytes array h =
    omega (arith, length-append bytes (drop (length bytes) array), length-drop (length bytes) array)

step {ℓ κ} :
    {A : Type ℓ} {B : Type κ} {m : Exec A} {a : A} (f : A → Exec B) → m ≡ ok a → (m >>= f) ≡ f a
step f e = ap (λ m. m >>= f) e

abbrev Info : Type 0
Info = ℕ → ℕ → Str → List Str → Exec (ℕ × Str)

received :
    (size : ℕ) (rest : Info) (word len : ℕ) (p : Str) (later : List Str)
    → word < 2 ^ 64
    → len < 2 ^ 64
    → length (uint64_encode word ++ (uint64_encode len ++ p)) ≡ size
    → receive_info size rest ((uint64_encode word ++ (uint64_encode len ++ p)) ∷ later)
      ≡ rest word len p later
unfolding receive_info
received size rest word len p later pw pl e =
    step after_message (receive_whole size (uint64_encode word ++ (uint64_encode len ++ p)) later e)
    ∙ (step (after_word later) (uint64_decode-uint64_encode word (uint64_encode len ++ p) pw)
        ∙ step (λ (second : ℕ × Str). rest word second.0 second.1 later)
            (uint64_decode-uint64_encode len p pl))
  where
    after_word : List Str → ℕ × Str → Exec (ℕ × Str)
    after_word ms first = uint64_decode first.1 >>= λ second. rest first.0 second.0 second.1 ms

    after_message : Str × List Str → Exec (ℕ × Str)
    after_message r = uint64_decode r.0 >>= after_word r.1

-- A whole array of which the front is given by two words and some bytes.
framed :
    (size word len : ℕ) (bytes array : Str)
    → length array ≡ size
    → 16 + length bytes ≤ size
    → (junk : Str) × (overwrite (uint64_encode word ++ (uint64_encode len ++ bytes)) array
        ≡ uint64_encode word ++ (uint64_encode len ++ (bytes ++ junk)))
      × (length (uint64_encode word ++ (uint64_encode len ++ (bytes ++ junk))) ≡ size)
framed size word len bytes array e fits =
    (rest, shape, ap length (sym shape) ∙ (length-overwrite front array enough ∙ e))
  where
    front : Str
    front = uint64_encode word ++ (uint64_encode len ++ bytes)

    rest : Str
    rest = drop (length front) array

    enough : length front ≤ length array
    enough = omega (
      arith,
      length-append (uint64_encode word) (uint64_encode len ++ bytes),
      length-append (uint64_encode len) bytes,
      length-uint64_encode word,
      length-uint64_encode len,
    )

    shape :
        overwrite (uint64_encode word ++ (uint64_encode len ++ bytes)) array
        ≡ uint64_encode word ++ (uint64_encode len ++ (bytes ++ rest))
    shape =
        append_assoc (uint64_encode word) (uint64_encode len ++ bytes) rest
        ∙ ap (◌++◌ (uint64_encode word)) (append_assoc (uint64_encode len) bytes rest)

small : (size n : ℕ) → n + 16 ≤ size → ltb size (n + 16) ≡ false
small size n h = ground arith

large : (size n : ℕ) → size < n + 16 → ltb size (n + 16) ≡ true
large size n h = ground arith

group_fits :
    (oid : ℕ) (gcpl junk : Str) (later : List Str)
    → length gcpl + 16 ≤ ginfo_buf_size
    → get_group oid (length gcpl) (gcpl ++ junk) later ≡ ok (oid, gcpl)
group_fits oid gcpl junk later h =
    rw (small ginfo_buf_size (length gcpl) h) (λ i. ok (oid, take-append_left gcpl junk i))

group_apart :
    (oid : ℕ) (gcpl p : Str)
    → ginfo_buf_size < length gcpl + 16
    → get_group oid (length gcpl) p (gcpl ∷ []) ≡ ok (oid, gcpl)
group_apart oid gcpl p h =
    rw (large ginfo_buf_size (length gcpl) h)
      (step (λ (r : Str × List Str). ok (oid, r.0)) (receive_whole (length gcpl) gcpl [] refl))

below : (n size : ℕ) → ¬ (n + 16 ≤ size) → size < n + 16
below n size h = omega arith

leb-false : (n m : ℕ) → m < n → leb n m ≡ false
leb-false n m h = ground arith

leb-true : (n m : ℕ) → n ≤ m → leb n m ≡ true
leb-true n m h = ground arith

-- In a collective open of a group the other processes get the identifier and the property list that
-- the lead process has read, whether the property list fits into the first broadcast or not.
pub receive_group-send_group :
    (array : Str) (oid : ℕ) (gcpl : Str)
    → length array ≡ 256
    → oid < 2 ^ 64
    → length gcpl < 2 ^ 31
    → receive_group (send_group array oid gcpl) ≡ ok (oid, gcpl)
unfolding receive_group send_group
receive_group-send_group array oid gcpl e po pg = elim (dec_le (length gcpl + 16) 256) [
  | yes fits ↦
      let (junk, shape, size) = framed 256 oid (length gcpl) gcpl array e (omega arith) in
      (λ i. receive_info 256 get_group (
        sent array oid gcpl (leb-true (length gcpl + 16) 256 fits i)
          (small 256 (length gcpl) fits i)))
      ∙ (ap (λ (m : Str). receive_info 256 get_group (m ∷ [])) shape
          ∙ (received 256 get_group oid (length gcpl) (gcpl ++ junk) [] po (omega arith) size
              ∙ group_fits oid gcpl junk [] fits))
  | no far ↦
      let far = below (length gcpl) 256 far in
      let (junk, shape, size) = framed 256 oid (length gcpl) [] array e (omega arith) in
      (λ i. receive_info 256 get_group (
        sent array oid gcpl (leb-false (length gcpl + 16) 256 far i)
          (large 256 (length gcpl) far i)))
      ∙ (ap (λ (m : Str). receive_info 256 get_group (m ∷ gcpl ∷ [])) shape
          ∙ (received 256 get_group oid (length gcpl) junk (gcpl ∷ []) po (omega arith) size
              ∙ group_apart oid gcpl junk far))
]

abbrev outcome : ℕ → Str → Bool → Exec (ℕ × Str)
outcome max_oid gcpl fits = if fits then ok (max_oid, gcpl) else fault failed_assertion

abbrev guarded : Bool → Str → Exec (ℕ × Str)
guarded fits message =
    (guard fits failed_assertion >> ok (message ∷ [])) >>= receive_info 1024 get_file

-- In a collective open of a file the other processes get the index and the property list that the
-- lead process has read if the property list has at most 1008 bytes; with a longer one the lead
-- process ends at an assertion that does not hold.
pub receive_file-send_file :
    (array : Str) (max_oid : ℕ) (gcpl : Str)
    → length array ≡ 1024
    → max_oid < 2 ^ 64
    → (send_file array (uint64_encode max_oid) gcpl >>= receive_file)
      ≡ (if leb (length gcpl + 16) 1024 then ok (max_oid, gcpl) else fault failed_assertion)
unfolding receive_file send_file
receive_file-send_file array max_oid gcpl e pm = elim (dec_le (length gcpl + 16) 1024) [
  | yes fits ↦
      let (junk, shape, size) = framed 1024 max_oid (length gcpl) gcpl array e (omega arith) in
      let whole = leb-true (length gcpl + 16) 1024 fits in
      (λ i. guarded (whole i) (shape i))
      ∙ (received 1024 get_file max_oid (length gcpl) (gcpl ++ junk) [] pm (omega arith) size
          ∙ (rw (small 1024 (length gcpl) fits) (λ i. ok (max_oid, take-append_left gcpl junk i))
              ∙ ap (outcome max_oid gcpl) (sym whole)))
  | no far ↦
      let long = leb-false (length gcpl + 16) 1024 (below (length gcpl) 1024 far) in
      ap
        (λ b.
          guarded b
            (overwrite (uint64_encode max_oid ++ (uint64_encode (length gcpl) ++ gcpl)) array))
        long
      ∙ ap (outcome max_oid gcpl) (sym long)
]
