-- ===== src/Vol/Buffers/Pieces.antt =====
-- The bytes that the write operations of adapter/vol/vol-old/H5VLDTIO.cc carry.
use dtio.Prelude.{
  ℕ, zero, suc, ◌<◌, ◌≡◌, refl, sym, ap, ◌∙◌, false, List, [], ◌∷◌, ◌++◌, Str, length, take, drop,
  ltb, All, arith,
}
use mathlib.Core.Bool.{false≢true}
use mathlib.Core.List.{map, map-append}
use dtio.Exec.{ok}
use dtio.Vol.IoOps.{IoOp, op_read, op_write}
use dtio.Vol.IoOps.Ranges.{range, length-range, file_bytes, mem_bytes, AllToward}
use dtio.Vol.Buffers.{slice, pieces}

abbrev pub byte_at : Str → ℕ → ℕ
byte_at [] a = 0
byte_at (b ∷ buf) zero = b
byte_at (b ∷ buf) (suc a) = byte_at buf a

abbrev pub pairs : List ℕ → List ℕ → List (ℕ × ℕ)
pairs [] ys = []
pairs (x ∷ xs) [] = []
pairs (x ∷ xs) (y ∷ ys) = (x, y) ∷ pairs xs ys

-- The bytes of some pieces, each with its place.
abbrev pub spread : List (ℕ × Str) → List (ℕ × ℕ)
spread [] = []
spread ((off, bytes) ∷ ps) = pairs (range off (length bytes)) bytes ++ spread ps

abbrev pub InBuffer : Str → List ℕ → Type 0
InBuffer buf places = All (λ a. a < length buf) places

pairs-append :
    (xs xs' ys ys' : List ℕ)
    → length xs ≡ length ys
    → pairs (xs ++ xs') (ys ++ ys') ≡ pairs xs ys ++ pairs xs' ys'
pairs-append [] xs' [] ys' e = refl
pairs-append [] xs' (y ∷ ys) ys' e = absurd (omega arith)
pairs-append (x ∷ xs) xs' [] ys' e = absurd (omega arith)
pairs-append (x ∷ xs) xs' (y ∷ ys) ys' e =
    ap (◌∷◌ (x, y)) (pairs-append xs xs' ys ys' (omega arith))

front : (buf : Str) (xs ys : List ℕ) → InBuffer buf (xs ++ ys) → InBuffer buf xs × InBuffer buf ys
front buf [] ys h = (tt, h)
front buf (x ∷ xs) ys (p, h) = let (q, r) = front buf xs ys h in ((p, q), r)

drop_at : (buf : Str) (a : ℕ) → a < length buf → drop a buf ≡ byte_at buf a ∷ drop (suc a) buf
drop_at [] a h = absurd (omega arith)
drop_at (b ∷ buf) zero h = refl
drop_at (b ∷ buf) (suc a) h = drop_at buf a (omega arith)

window :
    (buf : Str) (len off : ℕ)
    → InBuffer buf (range off len)
    → take len (drop off buf) ≡ map (byte_at buf) (range off len)
window buf zero off h = refl
window buf (suc len) off (p, h) =
    ap (take (suc len)) (drop_at buf off p)
    ∙ ap (◌∷◌ (byte_at buf off)) (window buf len (suc off) h)

length-bytes : (buf : Str) (places : List ℕ) → length (map (byte_at buf) places) ≡ length places
length-bytes buf [] = refl
length-bytes buf (a ∷ places) = ap suc (length-bytes buf places)

slice_window :
    (buf : Str) (off len : ℕ)
    → InBuffer buf (range off len)
    → slice buf off len ≡ ok (map (byte_at buf) (range off len))
slice_window buf off len h = rw (window buf len off h, whole) refl
  where
    whole : ltb (length (map (byte_at buf) (range off len))) len ≡ false
    whole = ground (arith, length-bytes buf (range off len), length-range off len)

-- Each byte goes from its place in the buffer to the place that has the same position.
pub pieces-spread :
    (ops : List IoOp) (buf : Str)
    → AllToward false ops
    → InBuffer buf (mem_bytes ops)
    → (ps : List (ℕ × Str)) × (pieces ops buf ≡ ok ps)
      × (spread ps ≡ pairs (file_bytes ops) (map (byte_at buf) (mem_bytes ops)))
unfolding pieces
pieces-spread [] buf t h = ([], refl, refl)
pieces-spread (op_read off len mem_off ∷ ops) buf (t, ts) h = absurd (false≢true (sym t))
pieces-spread (op_write off len mem_off ∷ ops) buf (t, ts) h =
    let (here, later) = front buf (range mem_off len) (mem_bytes ops) h in
    let (ps, e, sp) = pieces-spread ops buf ts later in
    let bytes = map (byte_at buf) (range mem_off len) in
    let many = length-bytes buf (range mem_off len) ∙ length-range mem_off len in
    (
      (off, bytes) ∷ ps,
      rw (slice_window buf mem_off len here, e) refl,
      (λ i. pairs (range off (many i)) bytes ++ sp i)
          ∙ (sym (
                pairs-append (range off len) (file_bytes ops) bytes
                  (map (byte_at buf) (mem_bytes ops)) (length-range off len ∙ sym many))
              ∙ ap (pairs (range off len ++ file_bytes ops))
                  (sym (map-append (byte_at buf) (range mem_off len) (mem_bytes ops)))),
    )
