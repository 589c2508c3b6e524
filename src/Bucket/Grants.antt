-- ===== src/Bucket/Grants.antt =====
-- The rate that try_acquire of src/scanner/adapters/rate_limiter.py keeps to: what it grants in a stretch of time.
use atlasarb.Prelude.{ℕ, ◌+◌, ◌-◌, ◌*◌, ◌≤◌, List, [], ◌∷◌, ◌≡◌, ap, ◌∙◌, arith, if◌then◌else◌}
use atlasarb.Bucket.{TokenBucket, refill, spend, try_acquire}

-- calls of `try_acquire`, each with the clock and the cost
abbrev pub Calls : Type 0
Calls = List (ℕ × ℕ)

-- the clock does not go back
abbrev pub Ordered : ℕ → Calls → Type 0
Ordered t [] = Unit
Ordered t ((now, cost) ∷ calls) = (t ≤ now) × Ordered now calls

abbrev pub last_time : ℕ → Calls → ℕ
last_time t [] = t
last_time t ((now, cost) ∷ calls) = last_time now calls

-- the tokens that the calls are granted
unfoldable pub granted : Calls → TokenBucket → ℕ
unfolding try_acquire
granted [] b = 0
granted ((now, cost) ∷ calls) b =
    (if (try_acquire now cost b).0 then cost else 0) + granted calls (try_acquire now cost b).1

try_acquire_lem :
    (now cost : ℕ) (b : TokenBucket)
    → b.updated ≤ now
    → ((if (try_acquire now cost b).0 then cost else 0) + (try_acquire now cost b).1.tokens
        ≤ b.tokens + (now - b.updated) * b.rate)
      × ((try_acquire now cost b).1.updated ≡ now)
      × ((try_acquire now cost b).1.rate ≡ b.rate)
unfolding try_acquire refill spend
try_acquire_lem now cost b later = ground arith

last_later : (t : ℕ) (calls : Calls) → Ordered t calls → t ≤ last_time t calls
last_later t [] o = omega arith
last_later t ((now, cost) ∷ calls) o = omega (arith, o.0, last_later now calls o.1)

-- the tokens of two stretches of time
stretches : (x y r : ℕ) → x * r + y * r ≡ (x + y) * r
stretches x y r = grind arith

between : (a b c r : ℕ) → a ≤ b → b ≤ c → (b - a) * r + (c - b) * r ≡ (c - a) * r
between a b c r h k = stretches (b - a) (c - b) r ∙ ap (λ x. x * r) (omega (arith, h, k))

-- Under a clock that does not go back, the calls together are granted no more than the tokens at the start and
-- those that come in until the last call, at the rate of the bucket.
pub granted_bound :
    (calls : Calls) (b : TokenBucket)
    → Ordered b.updated calls
    → granted calls b ≤ b.tokens + (last_time b.updated calls - b.updated) * b.rate
unfolding granted
granted_bound [] b o = omega arith
granted_bound ((now, cost) ∷ calls) b o =
    let (grant, moved, rate) = try_acquire_lem now cost b o.0 in
    let more = granted_bound calls (try_acquire now cost b).1 (rw moved o.1) in
    let joined =
      between b.updated now (last_time now calls) b.rate o.0 (last_later now calls o.1) in
    omega (arith, grant, rw (moved, rate) at more, joined)
