-- ===== src/Examples/Vol/Memory.antt =====
-- An object store in memory, which satisfies the laws.
use dtio.Prelude.{
  ℕ, ◌≡◌, ◌≢◌, refl, ap, Bool, true, false, ◌&&◌, [], ◌∷◌, Str, length, take, drop, take_all,
  if◌then◌else◌, ◌==◌, str_eq, str_beq_iff, Bool-cases, inl, inr, arith,
}
use dtio.Prelude.Dict.{==_refl}
use dtio.Vol.Objects.{AccessFlags}
use dtio.Vol.Store.{StoreApi, value, written, size, LinkTypes, LinkTypesLaws, OmapLaws, DataLaws}
use dtio.Vol.Groups.{PlistApi}
use dtio.Vol.Files.{Process}

-- The content of each object, and the value of each key in its map; both are empty at first.
pub record Memory : Type 0 where
  pub contents : Str → Str
  pub maps : Str → Str → Str

abbrev pub blank : Memory
blank = record { contents = λ o. []; maps = λ o k. [] }

abbrev pub memory : StoreApi Memory
memory = record {
  omap_get = λ o k s. value (s.maps o k);
  omap_set = λ o k bytes s. (
    written,
    record {
      contents = s.contents;
      maps = λ o' k'. if (o == o') && (k == k') then bytes else s.maps o' k';
    },
  );
  dtio_read = λ o len off s. take len (drop off (s.contents o));
  dtio_write = λ o bytes s. record {
    contents = λ o'. if o == o' then bytes else s.contents o';
    maps = s.maps;
  };
  dtio_stat = λ o s. size (length (s.contents o));
}

if_value : (b : Bool) (x y : Str) → value (if b then x else y) ≡ (if b then value x else value y)
if_value true x y = refl
if_value false x y = refl

pub memory-OmapLaws : OmapLaws memory
memory-OmapLaws = record {
  get-set = λ o n o' n' bytes s e. if_value ((o == o') && (n == n')) bytes (s.maps o' n');
}

other_object :
    (o o' bytes : Str) (f : Str → Str) → o ≢ o' → (if o == o' then bytes else f o') ≡ f o'
other_object o o' bytes f apart = elim (Bool-cases (o == o')) [
  | inl e ↦ absurd (apart ((str_beq_iff o o').0 e))
  | inr e ↦ ap (λ (b : Bool). if b then bytes else f o') e
]

same_object : (o bytes : Str) (f : Str → Str) → (if o == o then bytes else f o) ≡ bytes
same_object o bytes f = ap (λ (b : Bool). if b then bytes else f o) (==_refl o)

pub memory-DataLaws : DataLaws memory
memory-DataLaws = record {
  read-write = λ o bytes s.
      rw (same_object o bytes s.contents) (take_all (length bytes) bytes (omega arith));
  read-write_other = λ o o' bytes n off s apart.
      ap (λ (b : Str). take n (drop off b)) (other_object o o' bytes s.contents apart);
  read-set = λ o k v o' n off s. refl;
}

abbrev pub link_types : LinkTypes
link_types = record { type_hard = 0; type_soft = 1 }

pub link_types-LinkTypesLaws : LinkTypesLaws link_types
link_types-LinkTypesLaws = record {
  hard_byte = omega arith;
  soft_byte = omega arith;
  types_apart = λ e. absurd (omega arith);
}

-- A property list is stored as the one byte of its number.
abbrev first_byte : Str → ℕ
first_byte [] = 0
first_byte (b ∷ bytes) = b

abbrev pub plists : PlistApi
plists = record { encode = λ id. id ∷ []; decode = first_byte }

abbrev pub me : Process
me = record { my_rank = 0; num_procs = 1 }

abbrev pub writable : AccessFlags
writable = record { acc_rdwr = true; acc_trunc = false; acc_excl = false; acc_creat = false }
