-- ===== src/Bucket.antt =====
-- TokenBucket of src/scanner/adapters/rate_limiter.py: the limit on the calls to a venue. Times are ticks, and
-- tokens are counted so that a natural number of them comes in each tick.
use atlasarb.Prelude.{
  ℕ, zero, suc, ◌+◌, ◌-◌, ◌*◌, min, Bool, true, false, Option, none, some, if◌then◌else◌, leb,
}
pub mod Waits
pub mod Grants
pub mod Examples

pub record TokenBucket : Type 0 where
  pub rate : ℕ
  pub capacity : ℕ
  pub tokens : ℕ
  pub updated : ℕ

unfoldable pub new_bucket : ℕ → ℕ → ℕ → TokenBucket
new_bucket rate capacity now = record {
  rate = rate;
  capacity = capacity;
  tokens = capacity;
  updated = now;
}

-- the tokens that came in since the last update, up to the capacity
unfoldable pub refill : ℕ → TokenBucket → TokenBucket
refill now b = record b {
  tokens = min b.capacity (b.tokens + (now - b.updated) * b.rate);
  updated = now;
}

unfoldable pub spend : ℕ → TokenBucket → TokenBucket
spend cost b = record b { tokens = b.tokens - cost }

unfoldable pub try_acquire : ℕ → ℕ → TokenBucket → Bool × TokenBucket
unfolding refill spend
try_acquire now cost b =
    let filled = refill now b in
    if leb cost filled.tokens then (true, spend cost filled) else (false, filled)

-- The loop of `acquire`, on fuel: `clock i` is what the clock shows in round `i`, after the sleep of the round
-- before. `none` stands for a loop that still runs.
unfoldable pub acquire : ℕ → (ℕ → ℕ) → ℕ → TokenBucket → Option TokenBucket
unfolding refill spend
acquire zero clock cost b = none
acquire (suc rounds) clock cost b =
    let filled = refill (clock 0) b in
    let rest = acquire rounds (λ i. clock (suc i)) cost filled in
    if leb cost filled.tokens then some (spend cost filled) else rest
