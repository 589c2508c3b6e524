-- ===== src/Bucket/Examples.antt =====
-- Tests and concrete instances of the theorems about the token bucket.
use atlasarb.Prelude.{ℕ, ◌*◌, ◌≤◌, none, some, [], ◌∷◌, ◌≡◌, refl, arith}
use atlasarb.Bucket.{TokenBucket, new_bucket, refill, spend, acquire}
use atlasarb.Bucket.Waits.{Slept, acquire_returns, acquire_never}
use atlasarb.Bucket.Grants.{Calls, Ordered, granted}

-- ten tokens per tick, twenty at most
abbrev drained : TokenBucket
drained = record (new_bucket 10 20 0) { tokens = 3 }

-- the clock of a caller that sleeps two ticks between rounds
abbrev clock : ℕ → ℕ
clock i = i * 2

drained-Slept : Slept clock 15 drained
unfolding refill new_bucket
drained-Slept = omega arith

drained_fits : 15 ≤ drained.capacity
unfolding new_bucket
drained_fits = omega arith

acquire_returns_example :
    (filled : TokenBucket) × (15 ≤ filled.tokens)
    × (acquire 2 clock 15 drained ≡ some (spend 15 filled))
acquire_returns_example = acquire_returns 0 clock 15 drained drained_fits drained-Slept

too_dear : acquire 5 clock 21 (new_bucket 10 20 0) ≡ none
unfolding new_bucket
too_dear = acquire_never 5 clock 21 (new_bucket 10 20 0) (omega arith)

abbrev calls : Calls
calls = (0, 15) ∷ (1, 10) ∷ (1, 10) ∷ (3, 20) ∷ []

grant_total : granted calls (new_bucket 10 20 0) ≡ 45
unfolding granted new_bucket
grant_total = refl

calls-Ordered : Ordered (new_bucket 10 20 0).updated calls
unfolding new_bucket
calls-Ordered = ground arith
