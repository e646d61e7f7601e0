-- ===== src/Vol/Oids/Texts.antt =====
-- The texts that adapter/vol/vol-old/H5VLDTIO.cc makes of identifiers name one object or chunk each.
use dtio.Prelude.{
  ℕ, zero, suc, ◌+◌, ◌*◌, ◌/◌, ◌%◌, ◌^◌, ◌<◌, ◌≤◌, ◌≡◌, ◌≢◌, refl, sym, ap, ◌∙◌, Bool, true, false,
  List, [], ◌∷◌, ◌++◌, Option, some, Str, codes, length, take, drop, length-append,
  take-append_left, drop-append_left, All, leb, arith,
}
use dtio.Exec.{Exec, ok, fault, failed_assertion, guard, ◌>>◌}
use dtio.Vol.Oids.{
  oid_create_string, oid_create_chunk, hex_digit, hex_digits, hex_word, hex_words, kept,
  all_printed, two_digits,
}

append-split {ℓ} :
    {A : Type ℓ} (xs ys us vs : List A)
    → length xs ≡ length us
    → xs ++ ys ≡ us ++ vs
    → (xs ≡ us) × (ys ≡ vs)
append-split xs ys us vs e h = (
  sym (take-append_left xs ys) ∙ ((λ i. take (e i) (h i)) ∙ take-append_left us vs),
  sym (drop-append_left xs ys) ∙ ((λ i. drop (e i) (h i)) ∙ drop-append_left us vs),
)

length-hex_digits : (k n : ℕ) → length (hex_digits k n) ≡ k
length-hex_digits zero n = refl
length-hex_digits (suc k) n = omega (
  arith,
  length-append (hex_digits k (n / 16)) (hex_digit (n % 16) ∷ []),
  length-hex_digits k (n / 16),
)

span : ℕ → ℕ
span zero = 1
span (suc k) = span k * 16

hex_digit-injective : (d e : ℕ) → d < 16 → e < 16 → hex_digit d ≡ hex_digit e → d ≡ e
hex_digit-injective d e p q h = ground arith

single-injective : (x y : ℕ) → ◌≡◌ {A = Str} (x ∷ []) (y ∷ []) → x ≡ y
single-injective x y h = cc

hex_digits-injective :
    (k m n : ℕ) → m < span k → n < span k → hex_digits k m ≡ hex_digits k n → m ≡ n
unfolding span
hex_digits-injective zero m n p q h = omega arith
hex_digits-injective (suc k) m n p q h =
    let (front, back) =
      append-split (hex_digits k (m / 16)) (hex_digit (m % 16) ∷ []) (hex_digits k (n / 16))
        (hex_digit (n % 16) ∷ [])
        (length-hex_digits k (m / 16) ∙ sym (length-hex_digits k (n / 16))) h in
    let high = hex_digits-injective k (m / 16) (n / 16) (omega arith) (omega arith) front in
    let low =
      hex_digit-injective (m % 16) (n % 16) (omega arith) (omega arith)
        (single-injective (hex_digit (m % 16)) (hex_digit (n % 16)) back) in
    omega arith

hex_word-injective : (m n : ℕ) → m < 2 ^ 64 → n < 2 ^ 64 → hex_word m ≡ hex_word n → m ≡ n
unfolding span hex_word
hex_word-injective m n p q h = hex_digits-injective 16 m n (omega arith) (omega arith) h

pub length-hex_word : (n : ℕ) → length (hex_word n) ≡ 16
unfolding hex_word
length-hex_word n = length-hex_digits 16 n

pub name_then_word :
    (f g : Str) (a b : ℕ)
    → a < 2 ^ 64
    → b < 2 ^ 64
    → f ++ hex_word a ≡ g ++ hex_word b
    → (f ≡ g) × (a ≡ b)
name_then_word f g a b p q h =
    let (names, words) =
      append-split f (hex_word a) g (hex_word b)
        (omega (
          arith,
          ap length h,
          length-append f (hex_word a),
          length-append g (hex_word b),
          length-hex_word a,
          length-hex_word b,
        ))
        h in
    (names, hex_word-injective a b p q words)

kept_text : (e : Exec Bool) (text oid : Str) → kept e text ≡ ok (some oid) → oid ≡ text
kept_text (ok true) text oid h = cc
kept_text (ok false) text oid h = absurd (cc)
kept_text (fault e) text oid h = absurd (cc)

object_text :
    (f : Str) (a : ℕ) (oid : Str)
    → oid_create_string f a ≡ ok (some oid)
    → oid ≡ codes "ob" ++ (f ++ hex_word a)
unfolding oid_create_string
object_text f a oid h =
    kept_text (all_printed (codes "ob" ++ (f ++ hex_word a)) (length f))
      (codes "ob" ++ (f ++ hex_word a)) oid h

-- Two objects that have one text are the same object of the same file.
oid_create_string-injective :
    (f g : Str) (a b : ℕ) (oid : Str)
    → a < 2 ^ 64
    → b < 2 ^ 64
    → oid_create_string f a ≡ ok (some oid)
    → oid_create_string g b ≡ ok (some oid)
    → (f ≡ g) × (a ≡ b)
oid_create_string-injective f g a b oid p q h k =
    name_then_word f g a b p q (cc (object_text f a oid h, object_text g b oid k))

after_guard :
    (b : Bool) (m : Exec (Option Str)) (oid : Str)
    → guard b failed_assertion >> m ≡ ok (some oid)
    → (b ≡ true) × (m ≡ ok (some oid))
after_guard true m oid h = (refl, h)
after_guard false m oid h = absurd (cc)

chunk_text :
    (f : Str) (a : ℕ) (loc : List ℕ) (oid : Str)
    → oid_create_chunk f a loc ≡ ok (some oid)
    → (oid ≡ (two_digits (length loc) ++ (f ++ hex_word a)) ++ hex_words loc) × (length loc ≤ 99)
unfolding oid_create_chunk
chunk_text f a loc oid h =
    let head = two_digits (length loc) ++ (f ++ hex_word a) in
    let (short, rest) =
      after_guard (leb (length loc) 99) (kept (all_printed head (length f)) (head ++ hex_words loc))
        oid h in
    (
      kept_text (all_printed head (length f)) (head ++ hex_words loc) oid rest,
      ground (arith, short),
    )

abbrev pub IsWord : ℕ → Type 0
IsWord n = n < 2 ^ 64

length-hex_words : (ws : List ℕ) → length (hex_words ws) ≡ length ws * 16
unfolding hex_words
length-hex_words [] = refl
length-hex_words (w ∷ ws) =
    omega (arith, length-append (hex_word w) (hex_words ws), length-hex_word w, length-hex_words ws)

hex_words-injective :
    (us vs : List ℕ)
    → length us ≡ length vs
    → All IsWord us
    → All IsWord vs
    → hex_words us ≡ hex_words vs
    → us ≡ vs
unfolding hex_words
hex_words-injective [] [] e p q h = refl
hex_words-injective [] (v ∷ vs) e p q h = absurd (omega arith)
hex_words-injective (u ∷ us) [] e p q h = absurd (omega arith)
hex_words-injective (u ∷ us) (v ∷ vs) e (pu, p) (qv, q) h =
    let (first, rest) =
      append-split (hex_word u) (hex_words us) (hex_word v) (hex_words vs)
        (length-hex_word u ∙ sym (length-hex_word v)) h in
    λ i. hex_word-injective u v pu qv first i ∷ hex_words-injective us vs (omega arith) p q rest i

-- The two digits of the rank are the first bytes of a chunk's text.
first_digits :
    (r q : ℕ) (xs ys : Str) → two_digits r ++ xs ≡ two_digits q ++ ys → (r ≡ q) × (xs ≡ ys)
first_digits r q xs ys h = (digits_agree (cc h) (cc h), cc h)
  where
    digits_agree : 48 + r / 10 ≡ 48 + q / 10 → 48 + r % 10 ≡ 48 + q % 10 → r ≡ q
    digits_agree d e = omega arith

-- Two chunks that have one text are the same chunk of the same dataset of the same file.
pub oid_create_chunk-injective :
    (f g : Str) (a b : ℕ) (us vs : List ℕ) (oid : Str)
    → a < 2 ^ 64
    → b < 2 ^ 64
    → All IsWord us
    → All IsWord vs
    → oid_create_chunk f a us ≡ ok (some oid)
    → oid_create_chunk g b vs ≡ ok (some oid)
    → (f ≡ g) × (a ≡ b) × (us ≡ vs)
oid_create_chunk-injective f g a b us vs oid p q pu qv h k =
    let (tf, _) = chunk_text f a us oid h in
    let (tg, _) = chunk_text g b vs oid k in
    let (ranks, tails) =
      first_digits (length us) (length vs) ((f ++ hex_word a) ++ hex_words us)
        ((g ++ hex_word b) ++ hex_words vs) (sym tf ∙ tg) in
    let (heads, locs) =
      append-split (f ++ hex_word a) (hex_words us) (g ++ hex_word b) (hex_words vs)
        (omega (
          arith,
          ranks,
          ap length tails,
          length-append (f ++ hex_word a) (hex_words us),
          length-append (g ++ hex_word b) (hex_words vs),
          length-hex_words us,
          length-hex_words vs,
        ))
        tails in
    let (names, oids) = name_then_word f g a b p q heads in
    (names, oids, hex_words-injective us vs ranks pu qv locs)

-- No chunk has the text of an object.
pub oid_create_chunk_apart :
    (f g : Str) (a b : ℕ) (us : List ℕ) (oid : Str)
    → oid_create_chunk f a us ≡ ok (some oid)
    → oid_create_string g b ≢ ok (some oid)
oid_create_chunk_apart f g a b us oid h k =
    let (tf, short) = chunk_text f a us oid h in
    let first = first_byte (sym tf ∙ object_text g b oid k) in omega arith
  where
    first_byte :
        two_digits (length us) ++ ((f ++ hex_word a) ++ hex_words us)
          ≡ codes "ob" ++ (g ++ hex_word b)
        → 48 + length us / 10 ≡ 111
    first_byte e = cc
