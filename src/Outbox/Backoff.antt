-- ===== src/Outbox/Backoff.antt =====
-- The delays between the attempts of an event.
use skrynia.Prelude.{ℕ, zero, suc, ◌+◌, ◌*◌, ◌^◌, ◌≤◌, ◌≡◌, arith}
use skrynia.Outbox.{backoff_ms, max_backoff_ms, min}

double : (b n : ℕ) → b * 2 ^ suc n ≡ b * 2 ^ n + b * 2 ^ n
double b n = grind arith

backoff_ms-grows : (base attempts : ℕ) → backoff_ms attempts base ≤ backoff_ms (suc attempts) base
unfolding backoff_ms
backoff_ms-grows base zero = ground arith
backoff_ms-grows base (suc n) = let x = double base n in ground arith

-- The delay of a first attempt is the base delay, and each further one is twice as long, but no delay
-- is longer than a day.
backoff_ms-doubles :
    (base attempts : ℕ)
    → (backoff_ms 1 base ≡ min base max_backoff_ms)
      × (backoff_ms (suc (suc attempts)) base
          ≡ min (backoff_ms (suc attempts) base + backoff_ms (suc attempts) base) max_backoff_ms)
      × (backoff_ms attempts base ≤ max_backoff_ms)
      × (backoff_ms attempts base ≤ backoff_ms (suc attempts) base)
unfolding backoff_ms
backoff_ms-doubles base attempts =
    let x = double base attempts in
    (ground arith, ground arith, ground arith, backoff_ms-grows base attempts)
