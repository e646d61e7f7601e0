-- ===== src/Vol/Datasets/Sent.antt =====
-- What the other processes of a collective open of a dataset get in adapter/vol/vol-old/H5VLDTIO.cc.
use dtio.Prelude.{
  ℕ, ◌+◌, ◌-◌, ◌^◌, ◌<◌, ◌≤◌, ◌≡◌, sym, ap, ◌∙◌, Bool, true, false, [], ◌∷◌, ◌++◌, Str, length,
  length-append, length-take, take, drop, drop-append_left, if◌then◌else◌, ltb, arith,
}
use mathlib.Core.List.{append_assoc}
use native.Mathlib.Decide.{dec_le}
use dtio.Exec.{Exec, ok}
use dtio.Vol.Words.{uint64_encode, length-uint64_encode}
use dtio.Vol.Broadcast.{overwrite}
use dtio.Vol.Broadcast.Exchange.{length-overwrite}
use dtio.Vol.Datasets.{Dataset, Codec, metadata, send_dataset, receive_dataset}
use dtio.Vol.Datasets.Stored.{
  CodecLaws, IsShort, header, parts, lengths_before, lengths_of, metadata_lem, length-header,
  length-parts, decode_lengths-header, decode_lengths-metadata,
}
use dtio.Vol.Datasets.Messages.{
  take-append_right, sum, the_same, first_message, fits_second, far_second, length-md,
}

module _ (codec : Codec) (laws : CodecLaws codec) (t s p oid dapl_id : ℕ) where
  in_one :
      (array : Str)
      → length array ≡ 1024
      → oid < 2 ^ 64
      → IsShort codec t s p
      → sum codec t s p + 32 ≤ 1024
      → receive_dataset codec dapl_id
          (overwrite (uint64_encode oid ++ metadata codec t s p) array ∷ [])
        ≡ ok (the_same codec t s p oid dapl_id)
  in_one array e small brief h =
      ap (λ (m : Str). receive_dataset codec dapl_id (m ∷ [])) shape
      ∙ (first_message codec laws t s p oid dapl_id [] (lengths_of codec t s p junk)
            (metadata codec t s p ++ junk) small
            (ap length (sym shape) ∙ (length-overwrite front array (omega (arith, size)) ∙ e))
            (decode_lengths-metadata codec t s p junk brief)
          ∙ fits_second codec laws t s p oid dapl_id junk h)
    where
      front : Str
      front = uint64_encode oid ++ metadata codec t s p

      size : length front ≡ 32 + sum codec t s p
      size = omega (
        arith,
        length-append (uint64_encode oid) (metadata codec t s p),
        length-uint64_encode oid,
        (length-md codec laws t s p oid dapl_id),
      )

      junk : Str
      junk = drop (length front) array

      shape : overwrite front array ≡ uint64_encode oid ++ (metadata codec t s p ++ junk)
      shape = append_assoc (uint64_encode oid) (metadata codec t s p) junk

  in_two :
      oid < 2 ^ 64
      → IsShort codec t s p
      → 1024 < sum codec t s p + 32
      → sum codec t s p < 2 ^ 31
      → receive_dataset codec dapl_id (
          take 1024 (uint64_encode oid ++ metadata codec t s p)
          ∷ drop 24 (metadata codec t s p)
          ∷ [])
        ≡ ok (the_same codec t s p oid dapl_id)
  in_two small brief h bound =
      (λ i. receive_dataset codec dapl_id (front i ∷ later i ∷ []))
      ∙ (first_message codec laws t s p oid dapl_id (parts codec t s p ∷ [])
            (lengths_before codec t s p rest) (header codec t s p ++ rest) small size
            (decode_lengths-header codec t s p rest brief)
          ∙ far_second codec laws t s p oid dapl_id rest h bound)
    where
      rest : Str
      rest = take 992 (parts codec t s p)

      head : Str
      head = uint64_encode oid ++ header codec t s p

      length_head : length head ≡ 32
      length_head = omega (
        arith,
        length-append (uint64_encode oid) (header codec t s p),
        length-uint64_encode oid,
        length-header codec t s p,
      )

      left : 1024 - length head ≡ 992
      left = omega (arith, length_head)

      front :
          take 1024 (uint64_encode oid ++ metadata codec t s p)
          ≡ uint64_encode oid ++ (header codec t s p ++ rest)
      front =
          ap (λ (md : Str). take 1024 (uint64_encode oid ++ md)) (metadata_lem codec t s p)
          ∙ (ap (take 1024)
                (sym (append_assoc (uint64_encode oid) (header codec t s p) (parts codec t s p)))
              ∙ (take-append_right 1024 head (parts codec t s p) (omega (arith, length_head))
                  ∙ (ap (λ (k : ℕ). head ++ take k (parts codec t s p)) left
                      ∙ append_assoc (uint64_encode oid) (header codec t s p) rest)))

      later : drop 24 (metadata codec t s p) ≡ parts codec t s p
      later =
          ap (drop 24) (metadata_lem codec t s p)
          ∙ (ap (λ (k : ℕ). drop k (header codec t s p ++ parts codec t s p))
                (sym (length-header codec t s p))
              ∙ drop-append_left (header codec t s p) (parts codec t s p))

      size : length (uint64_encode oid ++ (header codec t s p ++ rest)) ≡ 1024
      size = omega (
        arith,
        length-append (uint64_encode oid) (header codec t s p ++ rest),
        length-append (header codec t s p) rest,
        length-uint64_encode oid,
        length-header codec t s p,
        length-take 992 (parts codec t s p),
        length-parts codec t s p,
      )

  -- In a collective open of a dataset the other processes get the identifier, the type, the dataspace
  -- and the property list that the lead process has read, whether or not these fit into the first
  -- broadcast; only the text of the identifier stays null.
  pub receive_dataset-send_dataset :
      (array : Str)
      → length array ≡ 1024
      → oid < 2 ^ 64
      → IsShort codec t s p
      → sum codec t s p < 2 ^ 31
      → receive_dataset codec dapl_id (send_dataset array oid (metadata codec t s p))
        ≡ ok (the_same codec t s p oid dapl_id)
  unfolding send_dataset
  receive_dataset-send_dataset array e small brief bound =
      elim (dec_le (sum codec t s p + 32) 1024) [
        | yes fits ↦
            ap (sent array) (
              ap (λ (n : ℕ). ltb 1024 (n + 8)) (length-md codec laws t s p oid dapl_id)
              ∙ at_most fits)
            ∙ in_one array e small brief fits
        | no far ↦
            ap (sent array) (
              ap (λ (n : ℕ). ltb 1024 (n + 8)) (length-md codec laws t s p oid dapl_id)
              ∙ beyond far)
            ∙ in_two small brief (omega arith) bound
      ]
    where
      sent : Str → Bool → Exec Dataset
      sent a b = receive_dataset codec dapl_id (
          if b
          then take 1024 (uint64_encode oid ++ metadata codec t s p)
            ∷ drop 24 (metadata codec t s p)
            ∷ []
          else overwrite (uint64_encode oid ++ metadata codec t s p) a ∷ [])

      at_most : sum codec t s p + 32 ≤ 1024 → ltb 1024 (24 + sum codec t s p + 8) ≡ false
      at_most h = ground arith

      beyond : ¬ (sum codec t s p + 32 ≤ 1024) → ltb 1024 (24 + sum codec t s p + 8) ≡ true
      beyond h = ground arith
