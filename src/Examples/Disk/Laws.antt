-- ===== src/Examples/Disk/Laws.antt =====
-- The kernel in memory behaves as documented.
use mathlib.Core.Option
use dtio.Prelude.{
  ℕ, suc, ◌≤◌, ◌≡◌, refl, sym, ap, ◌∙◌, inl, inr, true, false, Option, none, some, List, [], ◌∷◌,
  Str, length, take, drop, length-take, take_all, leb, if◌then◌else◌, Option-cases, Bool-cases, ◌≢◌,
  zero, ◌==◌, nat_eq, str_beq, str_eq, arith,
}
use dtio.Prelude.Int.{ℤ, pos, negsuc, int_eq, is_negative}
use dtio.Prelude.Dict
use dtio.Prelude.Dict.{Dict}
use dtio.Libc.{seek_set}
use dtio.Libc.Kernel.{IsKernel, Opened, Moved, Stored, Fetched, splice}
use dtio.Examples.Disk.{
  OpenFile, Disk, view, limit, stored, content, place, open_path, move_to, seek_by, seek, write_by,
  write, read_by, read, disk,
}

same_path :
    (f : OpenFile) (o : Option OpenFile) (p : Str)
    → o ≡ some f
    → Option.map {A = OpenFile} (λ g. g.path) o ≡ some p
    → f.path ≡ p
same_path f none p h m = cc
same_path f (some g) p h m = cc

missing_path :
    (o : Option OpenFile) (p : Str)
    → o ≡ none
    → Option.map {A = OpenFile} (λ g. g.path) o ≡ some p
    → ⊥
missing_path none p h m = cc
missing_path (some g) p h m = cc

found_self :
    (fd : ℤ) (f : OpenFile) (m : Dict ℤ OpenFile) → Dict.lookup fd (Dict.insert fd f m) ≡ some f
found_self fd f m = Dict.lookup-insert fd fd f m ∙ rw (Dict.==_refl fd)

moved_path :
    (fd : ℤ) (f : OpenFile) (n : ℕ) (d : Disk)
    → Dict.lookup fd (move_to fd f n d).opened ≡ some (record f { position = n })
moved_path fd f n d = found_self fd (record f { position = n }) d.opened

open-kept : (p : Str) (d : Disk) → (open_path p d).1.files ≡ d.files
unfolding open_path
open-kept p d = ground arith

seek-kept :
    (fd offset : ℤ) (d : Disk)
    → ((seek fd offset seek_set d).1.files ≡ d.files)
      × ((seek fd offset seek_set d).1.open_count ≡ d.open_count)
unfolding seek
seek-kept fd offset d = by (Dict.lookup fd d.opened) offset
  where
    by :
        (o : Option OpenFile) (offset : ℤ)
        → ((seek_by fd o offset seek_set d).1.files ≡ d.files)
          × ((seek_by fd o offset seek_set d).1.open_count ≡ d.open_count)
    by none offset = (refl, refl)
    by (some f) (pos n) = (refl, refl)
    by (some f) (negsuc n) = (refl, refl)

read-kept :
    (fd : ℤ) (n : ℕ) (d : Disk)
    → ((read fd n d).2.files ≡ d.files) × ((read fd n d).2.open_count ≡ d.open_count)
unfolding read
read-kept fd n d = by (Dict.lookup fd d.opened)
  where
    by :
        (o : Option OpenFile)
        → ((read_by fd o n d).2.files ≡ d.files) × ((read_by fd o n d).2.open_count ≡ d.open_count)
    by none = (refl, refl)
    by (some f) = (refl, refl)

write-kept : (fd : ℤ) (bytes : List ℕ) (d : Disk) → (write fd bytes d).1.open_count ≡ d.open_count
unfolding write
write-kept fd bytes d = by (Dict.lookup fd d.opened)
  where
    by : (o : Option OpenFile) → (write_by fd o bytes d).1.open_count ≡ d.open_count
    by none = refl
    by (some f) = refl

length-fetched : (fd : ℤ) (n : ℕ) (d : Disk) → length (read fd n d).1 ≤ n
unfolding read
length-fetched fd n d = by (Dict.lookup fd d.opened)
  where
    by : (o : Option OpenFile) → length (read_by fd o n d).1 ≤ n
    by none = omega arith
    by (some f) = omega (arith, length-take n (drop f.position (content d f.path)))

content-kept : (d e : Disk) (p : Str) → e.files ≡ d.files → content e p ≡ content d p
content-kept d e p h = ap (λ files. stored (Dict.lookup p files)) h

content-write :
    (f : OpenFile) (fd : ℤ) (bytes : List ℕ) (d : Disk) (p : Str)
    → content (write_by fd (some f) bytes d).1 p
      ≡ stored (
          if f.path == p
          then some (splice f.position bytes (content d f.path))
          else Dict.lookup p d.files)
content-write f fd bytes d p = ap stored (Dict.lookup-insert p f.path _ d.files)

take-length : (n : ℕ) (xs : List ℕ) → take n xs ≡ take (length (take n xs)) xs
take-length zero xs = refl
take-length (suc n) [] = refl
take-length (suc n) (x ∷ xs) = ap (◌∷◌ x) (take-length n xs)

take_all_self : (xs : List ℕ) → xs ≡ take (length xs) xs
take_all_self xs = sym (take_all (length xs) xs (omega arith))

open-Opened_lem :
    (p : Str) (d : Disk)
    → is_negative (open_path p d).0 ≡ false
    → Opened view p d (open_path p d).0 (open_path p d).1
unfolding open_path
open-Opened_lem p d h = elim (Bool-cases (leb limit d.open_count)) [
  | inl full ↦ absurd (refused d full (rw full at h))
  | inr free ↦ rw free (record {
    below_limit = ground arith;
    counted = refl;
    path_of =
        ap (Option.map {A = OpenFile} (λ f. f.path))
          (found_self (pos d.next) (record { path = p; position = 0 }) d.opened);
  })
]
  where
    refused : (d : Disk) → leb limit d.open_count ≡ true → true ≡ false → ⊥
    refused d full h = cc

seek-Moved_lem :
    (fd : ℤ) (p : Str) (n : ℕ) (d : Disk)
    → view.path_of d fd ≡ some p
    → Moved view fd p n d (seek fd (pos n) seek_set d).1
unfolding seek
seek-Moved_lem fd p n d h = elim (Option-cases (Dict.lookup fd d.opened)) [
  | inl e ↦ absurd (missing_path _ p e h)
  | inr (f, e) ↦ rw e (record {
    position = ap place (moved_path fd f n d);
    path_of =
        ap (Option.map {A = OpenFile} (λ g. g.path)) (moved_path fd f n d)
        ∙ ap some (same_path f _ p e h);
  })
]

write-Stored_lem :
    (fd : ℤ) (p : Str) (bytes : List ℕ) (d : Disk)
    → view.path_of d fd ≡ some p
    → ((write fd bytes d).0 ≡ pos (length bytes))
      × Stored view fd p bytes (length bytes) d (write fd bytes d).1
unfolding write
write-Stored_lem fd p bytes d h = elim (Option-cases (Dict.lookup fd d.opened)) [
  | inl e ↦ absurd (missing_path _ p e h)
  | inr (f, e) ↦
      let here = same_path f _ p e h in
      let same : str_beq f.path f.path ≡ true = Dict.==_refl f.path in
      rw e (
        refl,
        record {
          bounded = omega arith;
          content =
              content-write f fd bytes d p ∙ rw (sym here, same, e, sym (take_all_self bytes));
          others = λ q differs.
              content-write f fd bytes d q ∙ other f q (λ same. differs (sym same ∙ here));
        },
      )
]
  where
    other :
        (f : OpenFile) (q : Str)
        → f.path ≢ q
        → stored (
            if f.path == q
            then some (splice f.position bytes (content d f.path))
            else Dict.lookup q d.files)
          ≡ content d q
    other f q differs = ground (arith, str_eq.equal_iff f.path q)

read-Fetched_lem :
    (fd : ℤ) (p : Str) (n : ℕ) (d : Disk)
    → view.path_of d fd ≡ some p
    → Fetched view fd p n (read fd n d).0 (read fd n d).1 d
unfolding read
read-Fetched_lem fd p n d h = elim (Option-cases (Dict.lookup fd d.opened)) [
  | inl e ↦ absurd (missing_path _ p e h)
  | inr (f, e) ↦ rw e (record {
    result = refl;
    bounded = omega (arith, length-take n (drop f.position (content d f.path)));
    content =
        take-length n (drop f.position (content d f.path)) ∙ rw (e, sym (same_path f _ p e h));
  })
]

pub disk-IsKernel : IsKernel view disk
disk-IsKernel = record {
  open-SameFiles =
      λ p mode d. record { content = λ q. content-kept d (open_path p d).1 q (open-kept p d) };
  open-Opened = λ p mode d h. open-Opened_lem p d h;
  lseek-SameFiles = λ fd offset d. (
    record {
      content = λ q. content-kept d (seek fd offset seek_set d).1 q (seek-kept fd offset d).0;
    },
    (seek-kept fd offset d).1,
  );
  lseek-Moved = seek-Moved_lem;
  write-open_count = write-kept;
  write-Stored = λ fd p bytes d h.
      let (r, stored_bytes) = write-Stored_lem fd p bytes d h in
      inr (length bytes, r, stored_bytes);
  read-SameFiles = λ fd n d. (
    record { content = λ q. content-kept d (read fd n d).2 q (read-kept fd n d).0 },
    (read-kept fd n d).1,
  );
  length-read = length-fetched;
  read-Fetched = λ fd p n d h. inr (read-Fetched_lem fd p n d h);
}
