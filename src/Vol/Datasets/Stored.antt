-- ===== src/Vol/Datasets/Stored.antt =====
-- The metadata of a dataset in adapter/vol/vol-old/H5VLDTIO.cc, as it is stored and decoded.
use dtio.Prelude.{
  ℕ, ◌+◌, ◌^◌, ◌<◌, ◌≡◌, refl, ap, ◌∙◌, ◌++◌, Option, Str, length, length-append, drop-append_left,
  arith,
}
use mathlib.Core.List.{append_assoc}
use dtio.Exec.{ok}
use dtio.Vol.Store.{StoreApi, size}
use dtio.Vol.Words.{uint64_encode, uint64_decode-uint64_encode, length-uint64_encode}
use dtio.Vol.Datasets.{Codec, Lengths, metadata, decode_lengths, decoded}

-- What is read of an object after it was written is as long as what was written, and setting a key
-- of its map does not change that.
pub record StatLaws {S : Type 0} (api : StoreApi S) : Type 0 where
  pub stat-write :
      (o bytes : Str) (s : S) → api.dtio_stat o (api.dtio_write o bytes s) ≡ size (length bytes)
  pub stat-set :
      (o k v o' : Str) (s : S) → api.dtio_stat o' (api.omap_set o k v s).1 ≡ api.dtio_stat o' s

-- An encoded object is decoded whatever stands behind it.
pub record CodecLaws (codec : Codec) : Type 0 where
  pub type_lem : (t : ℕ) (rest : Str) → codec.decode_type (codec.encode_type t ++ rest) ≡ t
  pub space_lem : (s : ℕ) (rest : Str) → codec.decode_space (codec.encode_space s ++ rest) ≡ s
  pub dcpl_lem : (p : ℕ) (rest : Str) → codec.decode_dcpl (codec.encode_dcpl p ++ rest) ≡ p

-- The three parts are no longer than HDF5's buffers can be.
abbrev pub IsShort : Codec → ℕ → ℕ → ℕ → Type 0
IsShort codec t s p =
    (length (codec.encode_type t) < 2 ^ 62)
    × (length (codec.encode_space s) < 2 ^ 62)
    × (length (codec.encode_dcpl p) < 2 ^ 62)

abbrev pub lengths_of : Codec → ℕ → ℕ → ℕ → Str → Lengths
lengths_of codec t s p rest = record {
  type_len = length (codec.encode_type t);
  space_len = length (codec.encode_space s);
  dcpl_len = length (codec.encode_dcpl p);
  behind = codec.encode_type t ++ (codec.encode_space s ++ (codec.encode_dcpl p ++ rest));
}

abbrev pub header : Codec → ℕ → ℕ → ℕ → Str
header codec t s p =
    uint64_encode (length (codec.encode_type t))
    ++ (uint64_encode (length (codec.encode_space s))
        ++ uint64_encode (length (codec.encode_dcpl p)))

abbrev pub parts : Codec → ℕ → ℕ → ℕ → Str
parts codec t s p = codec.encode_type t ++ (codec.encode_space s ++ codec.encode_dcpl p)

pub metadata_lem :
    (codec : Codec) (t s p : ℕ) → metadata codec t s p ≡ header codec t s p ++ parts codec t s p
unfolding metadata
metadata_lem codec t s p =
    let dcpl_len = uint64_encode (length (codec.encode_dcpl p)) in
    let space_len = uint64_encode (length (codec.encode_space s)) in
    rw
      (
        append_assoc (uint64_encode (length (codec.encode_type t))) (space_len ++ dcpl_len)
            (parts codec t s p),
        append_assoc space_len dcpl_len (parts codec t s p),
      )
      refl

pub length-header : (codec : Codec) (t s p : ℕ) → length (header codec t s p) ≡ 24
length-header codec t s p =
    let dcpl_len = uint64_encode (length (codec.encode_dcpl p)) in
    let space_len = uint64_encode (length (codec.encode_space s)) in
    omega (
      arith,
      length-append (uint64_encode (length (codec.encode_type t))) (space_len ++ dcpl_len),
      length-append space_len dcpl_len,
      length-uint64_encode (length (codec.encode_type t)),
      length-uint64_encode (length (codec.encode_space s)),
      length-uint64_encode (length (codec.encode_dcpl p)),
    )

-- The lengths, and whatever stands behind them.
abbrev pub lengths_before : Codec → ℕ → ℕ → ℕ → Str → Lengths
lengths_before codec t s p behind = record {
  type_len = length (codec.encode_type t);
  space_len = length (codec.encode_space s);
  dcpl_len = length (codec.encode_dcpl p);
  behind = behind;
}

pub decode_lengths-header :
    (codec : Codec) (t s p : ℕ) (behind : Str)
    → IsShort codec t s p
    → decode_lengths (header codec t s p ++ behind) ≡ ok (lengths_before codec t s p behind)
unfolding decode_lengths
decode_lengths-header codec t s p behind (ts, ss, ps) =
    let type_len = length (codec.encode_type t) in
    let space_len = length (codec.encode_space s) in
    let dcpl_len = length (codec.encode_dcpl p) in
    rw
      (
        append_assoc (uint64_encode type_len) (uint64_encode space_len ++ uint64_encode dcpl_len)
            behind,
        append_assoc (uint64_encode space_len) (uint64_encode dcpl_len) behind,
        uint64_decode-uint64_encode type_len
            (uint64_encode space_len ++ (uint64_encode dcpl_len ++ behind)) (omega arith),
        uint64_decode-uint64_encode space_len (uint64_encode dcpl_len ++ behind) (omega arith),
        uint64_decode-uint64_encode dcpl_len behind (omega arith),
      )
      refl

parts_append :
    (codec : Codec) (t s p : ℕ) (rest : Str)
    → parts codec t s p ++ rest
      ≡ codec.encode_type t ++ (codec.encode_space s ++ (codec.encode_dcpl p ++ rest))
parts_append codec t s p rest =
    append_assoc (codec.encode_type t) (codec.encode_space s ++ codec.encode_dcpl p) rest
    ∙ ap (◌++◌ (codec.encode_type t))
        (append_assoc (codec.encode_space s) (codec.encode_dcpl p) rest)

pub decode_lengths-metadata :
    (codec : Codec) (t s p : ℕ) (rest : Str)
    → IsShort codec t s p
    → decode_lengths (metadata codec t s p ++ rest) ≡ ok (lengths_of codec t s p rest)
decode_lengths-metadata codec t s p rest brief =
    ap (λ (md : Str). decode_lengths (md ++ rest)) (metadata_lem codec t s p)
    ∙ (ap decode_lengths (append_assoc (header codec t s p) (parts codec t s p) rest)
        ∙ (decode_lengths-header codec t s p (parts codec t s p ++ rest) brief
            ∙ ap (λ (behind : Str). ok (lengths_before codec t s p behind))
                (parts_append codec t s p rest)))

pub decoded-lengths_of :
    (codec : Codec)
    → CodecLaws codec
    → (t s p bin_oid : ℕ) (oid : Option Str) (dapl_id : ℕ) (rest : Str)
    → decoded codec bin_oid oid dapl_id (lengths_of codec t s p rest) ≡ record {
      bin_oid = bin_oid;
      oid = oid;
      rc = 1;
      type_id = t;
      space_id = codec.select_all s;
      dcpl_id = p;
      dapl_id = dapl_id;
    }
decoded-lengths_of codec laws t s p bin_oid oid dapl_id rest =
    let space_on = codec.encode_space s ++ (codec.encode_dcpl p ++ rest) in
    rw
      (
        drop-append_left (codec.encode_type t) space_on,
        drop-append_left (codec.encode_space s) (codec.encode_dcpl p ++ rest),
        laws.type_lem t space_on,
        laws.space_lem s (codec.encode_dcpl p ++ rest),
        laws.dcpl_lem p rest,
      )
      refl

pub length-parts :
    (codec : Codec) (t s p : ℕ)
    → length (parts codec t s p)
      ≡ length (codec.encode_type t) + length (codec.encode_space s) + length (codec.encode_dcpl p)
length-parts codec t s p = omega (
  arith,
  length-append (codec.encode_type t) (codec.encode_space s ++ codec.encode_dcpl p),
  length-append (codec.encode_space s) (codec.encode_dcpl p),
)
