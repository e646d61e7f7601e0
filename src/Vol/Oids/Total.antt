-- ===== src/Vol/Oids/Total.antt =====
-- Identifiers are made for every file name of ordinary length.
use dtio.Prelude.{
  ℕ, ◌+◌, ◌^◌, ◌<◌, ◌≡◌, refl, Bool, true, false, List, ◌++◌, some, Str, codes, length,
  length-append, leb, if◌then◌else◌, arith,
}
use dtio.Exec.{Exec, ok, fault, failed_assertion, guard, ◌>>◌}
use dtio.Vol.Oids.{
  oid_create_string, oid_create_chunk, hex_word, hex_words, kept, all_printed, two_digits,
}
use dtio.Vol.Oids.Texts.{length-hex_word}

printed_whole :
    (text : Str) (len : ℕ)
    → length text ≡ len + 18
    → len + 18 < 2 ^ 31
    → all_printed text len ≡ ok true
unfolding all_printed
printed_whole text len e h = ground arith

kept_whole : (e : Exec Bool) (text : Str) → e ≡ ok true → kept e text ≡ ok (some text)
kept_whole e text h = rw h refl

-- A name of fewer than 2 ^ 31 - 18 bytes gives the text of each object.
pub oid_create_string_total :
    (f : Str) (a : ℕ)
    → length f + 18 < 2 ^ 31
    → oid_create_string f a ≡ ok (some (codes "ob" ++ (f ++ hex_word a)))
unfolding oid_create_string
oid_create_string_total f a h =
    kept_whole (all_printed (codes "ob" ++ (f ++ hex_word a)) (length f))
      (codes "ob" ++ (f ++ hex_word a))
      (printed_whole (codes "ob" ++ (f ++ hex_word a)) (length f)
        (omega (arith, length-append f (hex_word a), length-hex_word a)) h)

-- A chunk's text is made exactly up to rank 99; beyond, the assertion fails.
pub oid_create_chunk_total :
    (f : Str) (a : ℕ) (loc : List ℕ)
    → length f + 18 < 2 ^ 31
    → oid_create_chunk f a loc ≡ (
        if leb (length loc) 99
        then ok (some ((two_digits (length loc) ++ (f ++ hex_word a)) ++ hex_words loc))
        else fault failed_assertion)
unfolding oid_create_chunk
oid_create_chunk_total f a loc h =
    rw
      (kept_whole (all_printed head (length f)) (head ++ hex_words loc) (
        printed_whole head (length f)
          (omega (arith, length-append f (hex_word a), length-hex_word a)) h))
      (either (leb (length loc) 99))
  where
    head : Str
    head = two_digits (length loc) ++ (f ++ hex_word a)

    either :
        (b : Bool)
        → guard b failed_assertion >> ok (some (head ++ hex_words loc))
          ≡ (if b then ok (some (head ++ hex_words loc)) else fault failed_assertion)
    either true = refl
    either false = refl
