-- ===== src/Stdio/Modes.antt =====
-- How `fopen` of adapter/stdio/stdio_api.cc reads its mode.
use dtio.Prelude.{◌+◌, ◌≡◌, refl, Bool, true, false, Str, if◌then◌else◌}
use dtio.Stdio.{strchr, or_if, mode_flags}
use dtio.Libc.{o_rdonly, o_wronly, o_rdwr, o_append}

by_letters :
    (a plus r w : Bool)
    → or_if a o_append (or_if plus o_rdwr (or_if r o_rdonly (or_if w o_wronly 0)))
      ≡ (if a then o_append else 0) + ((if plus then o_rdwr else 0) + (if w then o_wronly else 0))
by_letters true true true true = refl
by_letters true true true false = refl
by_letters true true false true = refl
by_letters true true false false = refl
by_letters true false true true = refl
by_letters true false true false = refl
by_letters true false false true = refl
by_letters true false false false = refl
by_letters false true true true = refl
by_letters false true true false = refl
by_letters false true false true = refl
by_letters false true false false = refl
by_letters false false true true = refl
by_letters false false true false = refl
by_letters false false false true = refl
by_letters false false false false = refl

-- The flags that `fopen` records are the sum of one bit for each of the letters `a`, `+` and `w` that
-- the mode holds anywhere; `r` and the place of a letter do not matter.
mode_flags-sum :
    (mode : Str)
    → mode_flags mode
      ≡ (if strchr mode b'a' then o_append else 0)
        + ((if strchr mode b'+' then o_rdwr else 0) + (if strchr mode b'w' then o_wronly else 0))
unfolding mode_flags
mode_flags-sum mode =
    by_letters (strchr mode b'a') (strchr mode b'+') (strchr mode b'r') (strchr mode b'w')
