-- ===== src/Vol/Datasets/Messages.antt =====
-- How a process of a collective open of a dataset reads what it receives, in
-- adapter/vol/vol-old/H5VLDTIO.cc.
use dtio.Prelude.{
  ℕ, zero, suc, ◌+◌, ◌-◌, ◌%◌, ◌^◌, ◌<◌, ◌≤◌, ◌≡◌, refl, sym, ap, ◌∙◌, Bool, true, false, List, [],
  ◌∷◌, ◌++◌, none, Str, length, length-append, take, if◌then◌else◌, ltb, arith,
}
use mathlib.Core.List.{append-nil}
use dtio.Exec.{Exec, ok, ◌>>=◌}
use dtio.Vol.Words.{uint64_encode, uint64_decode-uint64_encode}
use dtio.Vol.Broadcast.{receive}
use dtio.Vol.Broadcast.Exchange.{receive_whole}
use dtio.Vol.Datasets.{
  Dataset, Codec, Lengths, metadata, decode_lengths, decoded, receive_dataset, second_part,
}
use dtio.Vol.Datasets.Stored.{
  CodecLaws, header, parts, lengths_before, lengths_of, metadata_lem, length-header, length-parts,
  decoded-lengths_of,
}

pub take-append_right :
    (n : ℕ) (xs ys : Str) → length xs ≤ n → take n (xs ++ ys) ≡ xs ++ take (n - length xs) ys
take-append_right n [] ys h = ap (λ (k : ℕ). take k ys) whole
  where
    whole : n ≡ n - 0
    whole = omega arith
take-append_right zero (x ∷ xs) ys h = absurd (omega arith)
take-append_right (suc n) (x ∷ xs) ys h =
    ap (◌∷◌ x) (take-append_right n xs ys (omega arith) ∙ ap (λ (k : ℕ). xs ++ take k ys) less)
  where
    less : n - length xs ≡ suc n - suc (length xs)
    less = omega arith

-- The bytes of the three parts.
abbrev pub sum : Codec → ℕ → ℕ → ℕ → ℕ
sum codec t s p =
    length (codec.encode_type t) + length (codec.encode_space s) + length (codec.encode_dcpl p)

-- What the other processes should get.
abbrev pub the_same : Codec → ℕ → ℕ → ℕ → ℕ → ℕ → Dataset
the_same codec t s p oid dapl_id = record {
  bin_oid = oid;
  oid = none;
  rc = 1;
  type_id = t;
  space_id = codec.select_all s;
  dcpl_id = p;
  dapl_id = dapl_id;
}

abbrev pub finish : Codec → ℕ → ℕ → List Str → Lengths → Exec Dataset
finish codec oid dapl_id later l =
    second_part l later >>= λ l'. ok (decoded codec oid none dapl_id l')

module _ (codec : Codec) (laws : CodecLaws codec) (t s p oid dapl_id : ℕ) where
  -- A first message of the right size that starts with the identifier and the three lengths.
  pub first_message :
      (later : List Str) (l : Lengths) (m : Str)
      → oid < 2 ^ 64
      → length (uint64_encode oid ++ m) ≡ 1024
      → decode_lengths m ≡ ok l
      → receive_dataset codec dapl_id ((uint64_encode oid ++ m) ∷ later)
        ≡ finish codec oid dapl_id later l
  unfolding receive_dataset
  first_message later l m small e lengths =
      rw
        (
          receive_whole 1024 (uint64_encode oid ++ m) later e,
          uint64_decode-uint64_encode oid m small,
          lengths,
        )
        refl

  pub fits_second :
      (rest : Str)
      → sum codec t s p + 32 ≤ 1024
      → finish codec oid dapl_id [] (lengths_of codec t s p rest)
        ≡ ok (the_same codec t s p oid dapl_id)
  fits_second rest h =
      ap
        (λ (b : Bool).
          (if b
            then (receive (sum codec t s p % 2 ^ 64) [] >>= λ r.
                ok (record (lengths_of codec t s p rest) { behind = r.0 }))
            else ok (lengths_of codec t s p rest))
          >>= λ l. ok (decoded codec oid none dapl_id l))
        small
      ∙ ap (λ (d : Dataset). ok d) (decoded-lengths_of codec laws t s p oid none dapl_id rest)
    where
      small : ltb 1024 ((sum codec t s p % 2 ^ 64 + 32) % 2 ^ 64) ≡ false
      small = ground arith

  pub far_second :
      (front : Str)
      → 1024 < sum codec t s p + 32
      → sum codec t s p < 2 ^ 31
      → finish codec oid dapl_id (parts codec t s p ∷ []) (lengths_before codec t s p front)
        ≡ ok (the_same codec t s p oid dapl_id)
  far_second front h bound =
      ap
        (λ (b : Bool).
          (if b
            then (receive (sum codec t s p % 2 ^ 64) (parts codec t s p ∷ []) >>= λ r.
                ok (lengths_before codec t s p r.0))
            else ok (lengths_before codec t s p front))
          >>= λ l. ok (decoded codec oid none dapl_id l))
        large
      ∙ (ap
            (λ (m : Exec (Str × List Str)).
              (m >>= λ r. ok (lengths_before codec t s p r.0)) >>= λ l.
              ok (decoded codec oid none dapl_id l))
            (receive_whole (sum codec t s p % 2 ^ 64) (parts codec t s p) [] size)
          ∙ (ap
                (λ (dcpl_buf : Str). ok (
                  decoded codec oid none dapl_id (
                    lengths_before codec t s p
                      (codec.encode_type t ++ (codec.encode_space s ++ dcpl_buf)))))
                (sym (append-nil (codec.encode_dcpl p)))
              ∙ ap (λ (d : Dataset). ok d)
                  (decoded-lengths_of codec laws t s p oid none dapl_id [])))
    where
      large : ltb 1024 ((sum codec t s p % 2 ^ 64 + 32) % 2 ^ 64) ≡ true
      large = ground arith

      size : length (parts codec t s p) ≡ sum codec t s p % 2 ^ 64
      size = omega (arith, length-parts codec t s p)

  pub length-md : length (metadata codec t s p) ≡ 24 + sum codec t s p
  length-md = omega (
    arith,
    ap length (metadata_lem codec t s p),
    length-append (header codec t s p) (parts codec t s p),
    length-header codec t s p,
    length-parts codec t s p,
  )
