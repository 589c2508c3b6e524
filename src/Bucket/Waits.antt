-- ===== src/Bucket/Waits.antt =====
-- How long `acquire` of src/scanner/adapters/rate_limiter.py loops: two rounds at most, or for ever when the cost
-- exceeds the capacity.
use atlasarb.Prelude.{
  ℕ, zero, suc, ◌-◌, ◌*◌, ◌≤◌, ◌<◌, true, false, none, some, ◌≡◌, inl, inr, refl, arith, leb,
  le→leb, Bool-cases,
}
use atlasarb.Bucket.{TokenBucket, refill, spend, acquire}

-- A sleep of the deficit over the rate is at least as long as that.
abbrev pub Slept : (ℕ → ℕ) → ℕ → TokenBucket → Type 0
Slept clock cost b = cost - (refill (clock 0) b).tokens ≤ (clock 1 - clock 0) * b.rate

acquire-first :
    (rounds : ℕ) (clock : ℕ → ℕ) (cost : ℕ) (b : TokenBucket)
    → leb cost (refill (clock 0) b).tokens ≡ true
    → acquire (suc rounds) clock cost b ≡ some (spend cost (refill (clock 0) b))
unfolding acquire
acquire-first rounds clock cost b enough = rw (acquire, enough) refl

acquire-next :
    (rounds : ℕ) (clock : ℕ → ℕ) (cost : ℕ) (b : TokenBucket)
    → leb cost (refill (clock 0) b).tokens ≡ false
    → acquire (suc rounds) clock cost b
      ≡ acquire rounds (λ i. clock (suc i)) cost (refill (clock 0) b)
unfolding acquire
acquire-next rounds clock cost b short = rw (acquire, short) refl

refilled :
    (clock : ℕ → ℕ) (cost : ℕ) (b : TokenBucket)
    → cost ≤ b.capacity
    → Slept clock cost b
    → cost ≤ (refill (clock 1) (refill (clock 0) b)).tokens
unfolding refill
refilled clock cost b fits slept = omega arith

-- When each sleep lasts as long as it is asked to, `acquire` of no more than the capacity returns in the first or
-- the second round, and takes its cost: two rounds of fuel are enough.
pub acquire_returns :
    (rounds : ℕ) (clock : ℕ → ℕ) (cost : ℕ) (b : TokenBucket)
    → cost ≤ b.capacity
    → Slept clock cost b
    → (filled : TokenBucket) × (cost ≤ filled.tokens)
      × (acquire (suc (suc rounds)) clock cost b ≡ some (spend cost filled))
acquire_returns rounds clock cost b fits slept =
    elim (Bool-cases (leb cost (refill (clock 0) b).tokens)) [
      | inl enough ↦
          (refill (clock 0) b, ground arith, acquire-first (suc rounds) clock cost b enough)
      | inr short ↦
          let late = refilled clock cost b fits slept in
          (
            refill (clock 1) (refill (clock 0) b),
            late,
            rw (acquire-next (suc rounds) clock cost b short) (
                acquire-first rounds (λ i. clock (suc i)) cost (refill (clock 0) b)
                  (le→leb _ _ late)),
          )
    ]

-- A cost above the capacity is never granted, in any number of rounds, whatever the sleeps.
pub acquire_never :
    (rounds : ℕ) (clock : ℕ → ℕ) (cost : ℕ) (b : TokenBucket)
    → b.capacity < cost
    → acquire rounds clock cost b ≡ none
unfolding acquire refill
acquire_never zero clock cost b over = refl
acquire_never (suc rounds) clock cost b over =
    ground (arith, acquire_never rounds (λ i. clock (suc i)) cost (refill (clock 0) b) over)
