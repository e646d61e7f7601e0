-- ===== src/Client/Tickets.antt =====
-- The numbers that successive calls of `Schedule` in
-- dtio_chimods/dtiomod/include/dtiomod/dtiomod_client.h give out.
use dtio.Prelude.{ℕ, zero, suc, ◌+◌, ◌%◌, ◌^◌, ◌<◌, ◌≡◌, ◌≢◌, ap, ◌∙◌, arith, nat_eq}
use dtio.Prelude.Int.{ℤ, to_int32, word_size}
use dtio.Exec.{Exec, ok, ◌>>=◌}
use dtio.Libc.{Libc}
use dtio.Chimaera.{World, Chimaera, IsLawful, NamesOne}
use dtio.Client
use dtio.Client.{Client}
use dtio.Client.Runs.{schedule_lem, ticket, ticketed}
use dtio.Tasks.{DomainQuery}

to_int32-mod : (m n : ℕ) → to_int32 m ≡ to_int32 n → m % 2 ^ 32 ≡ n % 2 ^ 32
to_int32-mod m n h = ground arith

module _ {S : Type 0} (libc : Libc S) (chi : Chimaera S) (lawful : IsLawful libc chi)
    (c : Client) where
  -- The answer of the call after `n` others.
  abbrev pub nth_schedule : ℕ → DomainQuery → World S → Exec ℤ
  nth_schedule zero q w = do (a, w₁) ← Client.schedule chi c q w; ok a
  nth_schedule (suc n) q w = do (a, w₁) ← Client.schedule chi c q w; nth_schedule n q w₁

  ticket-ticketed :
      (q : DomainQuery) (w : World S)
      → ticket libc chi lawful c q (ticketed libc chi lawful c q w)
        ≡ (ticket libc chi lawful c q w + 1) % word_size
  ticket-ticketed q w = ground arith

  nth_schedule_lem :
      (n : ℕ) (q : DomainQuery) (w : World S)
      → NamesOne q
      → ticket libc chi lawful c q w < word_size
      → nth_schedule n q w ≡ ok (to_int32 ((ticket libc chi lawful c q w + n) % word_size))
  nth_schedule_lem zero q w one small =
      rw (schedule_lem libc chi lawful c q w one) (ap (λ t. ok (to_int32 t)) (omega arith))
  nth_schedule_lem (suc n) q w one small = rw (schedule_lem libc chi lawful c q w one) (
      nth_schedule_lem n q (ticketed libc chi lawful c q w) one (rw ticket-ticketed (omega arith))
      ∙ rw ticket-ticketed (ap (λ t. ok (to_int32 t)) (omega arith)))

  -- Calls of `Schedule` in a row with one query, which names one container, return, and two of them
  -- fewer than 2 ^ 32 calls apart get different numbers, also where the counter of 64 bits or the answer
  -- of 32 bits wraps around.
  pub nth_schedule_ne :
      (i j : ℕ) (q : DomainQuery) (w : World S)
      → NamesOne q
      → ticket libc chi lawful c q w < word_size
      → i < j
      → j < i + 2 ^ 32
      → (a b : ℤ) × (nth_schedule i q w ≡ ok a) × (nth_schedule j q w ≡ ok b) × (a ≢ b)
  nth_schedule_ne i j q w one small before near =
      let t = ticket libc chi lawful c q w in
      (
        to_int32 ((t + i) % word_size),
        to_int32 ((t + j) % word_size),
        nth_schedule_lem i q w one small,
        nth_schedule_lem j q w one small,
        λ same.
            let eq = to_int32-mod ((t + i) % word_size) ((t + j) % word_size) same in omega arith,
      )
