-- ===== src/Vol/Words.antt =====
-- The macros `UINT64ENCODE` and `UINT64DECODE` of adapter/vol/vol-old/H5VLDTIO.cc: a 64-bit word as
-- eight bytes, the lowest first.
use dtio.Prelude.{
  ℕ, zero, suc, ◌+◌, ◌*◌, ◌/◌, ◌%◌, ◌^◌, ◌<◌, ◌≤◌, ◌≡◌, refl, ap, sym, ◌∙◌, List, [], ◌∷◌, ◌++◌,
  length, take, drop, if◌then◌else◌, ltb, length-append, take-append_left, drop-append_left, All,
  arith,
}
use dtio.Exec.{Exec, ok, fault, bad_buffer}
use dtio.Vol.Bits.{bit_and-ones, bit_or-disjoint}
use Prim.Native.Nat.{bit_and, bit_or}

-- `n << 8` on 64 bits.
abbrev shift_left : ℕ → ℕ
shift_left n = n * 256 % 2 ^ 64

encode_loop : ℕ → ℕ → List ℕ
encode_loop zero n = []
encode_loop (suc i) n = bit_and n 0xff ∷ encode_loop i (n / 256)

-- The bytes that are written at `p`, which moves behind them.
unfoldable pub uint64_encode : ℕ → List ℕ
unfolding encode_loop
uint64_encode n = encode_loop 8 n

-- The last byte is taken first.
decode_loop : List ℕ → ℕ
decode_loop [] = 0
decode_loop (b ∷ bytes) = bit_or (shift_left (decode_loop bytes)) b

-- The word at `p`, and what follows it. Reading behind the end of the buffer is undefined.
unfoldable pub uint64_decode : List ℕ → Exec (ℕ × List ℕ)
unfolding decode_loop
uint64_decode p =
    if ltb (length p) 8 then fault bad_buffer else ok (decode_loop (take 8 p), drop 8 p)

length-encode_loop : (i n : ℕ) → length (encode_loop i n) ≡ i
unfolding encode_loop
length-encode_loop zero n = refl
length-encode_loop (suc i) n = ap suc (length-encode_loop i (n / 256))

pub length-uint64_encode : (n : ℕ) → length (uint64_encode n) ≡ 8
unfolding uint64_encode
length-uint64_encode n = length-encode_loop 8 n

low_byte : (n : ℕ) → bit_and n 0xff ≡ n % 256
low_byte n = bit_and-ones 8 n

put_byte : (n b : ℕ) → n * 256 < 2 ^ 64 → b < 256 → bit_or (shift_left n) b ≡ n * 256 + b
put_byte n b fits small =
    omega (arith, ap (λ (t : ℕ). bit_or t b) whole, bit_or-disjoint 8 n b small)
  where
    whole : shift_left n ≡ n * 256
    whole = omega arith

-- `256 ^ i`
abbrev span : ℕ → ℕ
span zero = 1
span (suc i) = span i * 256

decode_loop-encode_loop :
    (i n : ℕ) → span i ≤ 2 ^ 64 → n < span i → decode_loop (encode_loop i n) ≡ n
unfolding encode_loop decode_loop
decode_loop-encode_loop zero n fits h = omega arith
decode_loop-encode_loop (suc i) n fits h =
    rw (decode_loop-encode_loop i (n / 256) (omega arith) (omega arith), low_byte n)
      (omega (arith, put_byte (n / 256) (n % 256) (omega arith) (omega arith)))

abbrev word_read : ℕ → List ℕ → Exec (ℕ × List ℕ)
word_read n rest = ok (n, rest)

long_enough :
    (p : List ℕ) → 8 ≤ length p → uint64_decode p ≡ word_read (decode_loop (take 8 p)) (drop 8 p)
unfolding uint64_decode
long_enough p h = ground arith

uint64_decode_prefix :
    (bytes rest : List ℕ)
    → length bytes ≡ 8
    → uint64_decode (bytes ++ rest) ≡ word_read (decode_loop bytes) rest
uint64_decode_prefix bytes rest e =
    long_enough (bytes ++ rest) (omega (arith, length-append bytes rest))
    ∙ (λ i. word_read (decode_loop (front i)) (back i))
  where
    front : take 8 (bytes ++ rest) ≡ bytes
    front = ap (λ (k : ℕ). take k (bytes ++ rest)) (sym e) ∙ take-append_left bytes rest

    back : drop 8 (bytes ++ rest) ≡ rest
    back = ap (λ (k : ℕ). drop k (bytes ++ rest)) (sym e) ∙ drop-append_left bytes rest

-- What is written for a word is read back as that word, and what stands behind it is left.
pub uint64_decode-uint64_encode :
    (n : ℕ) (rest : List ℕ) → n < 2 ^ 64 → uint64_decode (uint64_encode n ++ rest) ≡ ok (n, rest)
unfolding uint64_encode
uint64_decode-uint64_encode n rest h =
    uint64_decode_prefix (encode_loop 8 n) rest (length-encode_loop 8 n)
    ∙ ap (λ (w : ℕ). word_read w rest) (decode_loop-encode_loop 8 n (omega arith) h)

abbrev pub IsByte : ℕ → Type 0
IsByte b = b < 256

decode_loop_bound :
    (bytes : List ℕ)
    → span (length bytes) ≤ 2 ^ 64
    → All IsByte bytes
    → decode_loop bytes < span (length bytes)
unfolding decode_loop
decode_loop_bound [] fits u = omega arith
decode_loop_bound (b ∷ bytes) fits (small, u) =
    let below = decode_loop_bound bytes (omega arith) u in
    omega (arith, put_byte (decode_loop bytes) b (omega arith) small)

low : (t b : ℕ) → b < 256 → (t * 256 + b) % 256 ≡ b
low t b h = omega arith

high : (t b : ℕ) → b < 256 → (t * 256 + b) / 256 ≡ t
high t b h = omega arith

encode_loop-decode_loop :
    (bytes : List ℕ)
    → span (length bytes) ≤ 2 ^ 64
    → All IsByte bytes
    → encode_loop (length bytes) (decode_loop bytes) ≡ bytes
unfolding decode_loop encode_loop
encode_loop-decode_loop [] fits u = refl
encode_loop-decode_loop (b ∷ bytes) fits (small, u) =
    let below = decode_loop_bound bytes (omega arith) u in
    let whole = put_byte (decode_loop bytes) b (omega arith) small in
    rw
      (
        whole,
        low_byte (decode_loop bytes * 256 + b),
        low (decode_loop bytes) b small,
        high (decode_loop bytes) b small,
      )
      (ap (◌∷◌ b) (encode_loop-decode_loop bytes (omega arith) u))

-- Eight bytes are what is written for the word that they are read as.
pub uint64_encode-uint64_decode :
    (bytes rest : List ℕ)
    → length bytes ≡ 8
    → All IsByte bytes
    → (n : ℕ) × (n < 2 ^ 64)
      × (uint64_decode (bytes ++ rest) ≡ ok (n, rest))
      × (uint64_encode n ≡ bytes)
unfolding uint64_encode
uint64_encode-uint64_decode bytes rest e u = (
  decode_loop bytes,
  rw (ap span e) at (decode_loop_bound bytes fits u),
  uint64_decode_prefix bytes rest e,
  rw e at (encode_loop-decode_loop bytes fits u),
)
  where
    fits : span (length bytes) ≤ 2 ^ 64
    fits = rw e (omega arith)
