-- ===== src/Vol/Specific/Accessible.antt =====
-- Which files of adapter/vol/vol-old/H5VLDTIO.cc are accessible after a flush.
use dtio.Prelude.{
  ℕ, ◌+◌, ◌^◌, ◌<◌, ◌≡◌, refl, sym, ap, ◌∙◌, Bool, true, false, not, ◌&&◌, ◌||◌, Option, some, Str,
  length, drop, inl, inr, if◌then◌else◌, nat_eq, str_eq, str_beq_iff, ◌==◌, Bool-cases, arith,
}
use mathlib.Core.Bool.{false≢true}
use dtio.Prelude.Dict.{==_refl}
use dtio.Exec.{Exec, ok, ◌>>=◌}
use dtio.Vol.Store.{StoreApi, LinkTypes, DataLaws, StatReply, size}
use dtio.Vol.Words.{uint64_encode, length-uint64_encode}
use dtio.Vol.Oids.Total.{oid_create_string_total}
use dtio.Vol.Oids.Texts.{name_then_word}
use dtio.Vol.Groups.{PlistApi, World, stat_size}
use dtio.Vol.Groups.Heap.{object_text}
use dtio.Vol.Files.{file_flush, oid_of}
use dtio.Vol.Files.Saved.{IsOpen, flushed, file_flush_lem}
use dtio.Vol.Specific.{flush_file, is_accessible, file_specific, accessible}

-- An object that is written has the size of what is written, and no other object's size changes.
pub record SizeLaws {S : Type 0} (api : StoreApi S) : Type 0 where
  pub stat-write :
      (o o' bytes : Str) (s : S)
      → api.dtio_stat o' (api.dtio_write o bytes s)
        ≡ (if o == o' then size (length bytes) else api.dtio_stat o' s)

-- Two files have one object for their index exactly if they have one name.
same_index : (f g : Str) → (object_text f 0 == object_text g 0) ≡ (f == g)
same_index f g = elim (Bool-cases (f == g)) [
  | inl e ↦
      ap (λ (h : Str). object_text f 0 == object_text h 0) (sym ((str_beq_iff f g).0 e))
      ∙ (==_refl (object_text f 0) ∙ sym e)
  | inr e ↦ elim (Bool-cases (object_text f 0 == object_text g 0)) [
    | inl same ↦ absurd (false≢true (sym e ∙ (str_beq_iff f g).1 (one_name same)))
    | inr apart ↦ apart ∙ sym e
  ]
]
  where
    one_name : object_text f 0 == object_text g 0 ≡ true → f ≡ g
    one_name same =
        (name_then_word f g 0 0 (omega arith) (omega arith)
          (ap (drop 2) ((str_beq_iff (object_text f 0) (object_text g 0)).0 same))).0

module _ {S : Type 0} (api : StoreApi S) where
  -- There is a content for the index of a file.
  abbrev pub has_index : Str → S → Bool
  has_index name s = not (stat_size (api.dtio_stat (object_text name 0) s) == 0)

  written_index :
      (b : Bool) (n : ℕ) (reply : StatReply)
      → 0 < n
      → not (stat_size (if b then size n else reply) == 0) ≡ (b || not (stat_size reply == 0))
  written_index true n reply h = ground arith
  written_index false n reply h = refl

  module _ (T : LinkTypes) (plists : PlistApi) (laws : DataLaws api) (sizes : SizeLaws api) where
    accessible_lem :
        (name : Str) (s : S)
        → length name + 18 < 2 ^ 31
        → accessible api T plists name s ≡ ok (has_index name s)
    unfolding accessible
    accessible_lem name s short =
        ap
          (λ (m : Exec (Option Str)). m >>= λ text.
            oid_of text >>= λ glob_md_oid. ok (not (stat_size (api.dtio_stat glob_md_oid s) == 0)))
          (oid_create_string_total name 0 short)

    has_index-flushed :
        (w : World S) (b : Bool) (other : Str)
        → IsOpen api w
        → has_index other (flushed api T plists laws w b).store
          ≡ ((b && (w.file_name == other)) || has_index other w.store)
    has_index-flushed w false other o = refl
    has_index-flushed w true other o =
        ap (λ (reply : StatReply). not (stat_size reply == 0))
          (sizes.stat-write w.glob_md_oid (object_text other 0) (uint64_encode w.max_oid) w.store)
        ∙ (written_index (w.glob_md_oid == object_text other 0) (length (uint64_encode w.max_oid))
              (api.dtio_stat (object_text other 0) w.store)
              (omega (arith, length-uint64_encode w.max_oid))
            ∙ ap (λ (b : Bool). b || has_index other w.store)
                (ap (λ (t : Str). t == object_text other 0) o.glob ∙ same_index w.file_name other))

    -- After a flush of a file that is open for writing, that file is accessible if a new index had to be
    -- saved; otherwise, and for every other file, the answer is the one from before.
    pub file_specific-flush_file :
        (w : World S) (other : Str)
        → IsOpen api w
        → length other + 18 < 2 ^ 31
        → (file_specific api T plists flush_file w >>= λ r.
            file_specific api T plists (is_accessible other) r.1)
          ≡ ok (
            some ((w.max_oid_dirty && (w.file_name == other)) || has_index other w.store),
            file_flush api T plists w,
          )
    unfolding file_specific
    file_specific-flush_file w other o short =
        ap (λ (m : Exec Bool). m >>= λ b. ok (some b, file_flush api T plists w))
          (accessible_lem other (file_flush api T plists w).store short)
        ∙ ap (λ (b : Bool). ok (some b, file_flush api T plists w))
            (ap (λ (x : World S). has_index other x.store)
                (file_flush_lem api T plists laws w o.rdwr)
              ∙ has_index-flushed w w.max_oid_dirty other o)
