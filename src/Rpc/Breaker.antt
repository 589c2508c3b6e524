-- ===== src/Rpc/Breaker.antt =====
-- When the breaker of an endpoint in src/scanner/adapters/rpc_pool.py trips: not before the streak of
-- failures reaches the threshold, which a streak of timeouts alone does twice as late.
use atlasarb.Prelude.{
  ℕ, ◌+◌, ◌*◌, ◌≤◌, ◌<◌, min, true, false, List, [], ◌∷◌, ◌≡◌, ◌≢◌, ◌⊎◌, arith, if◌then◌else◌, ◌==◌,
  ==_iff, nat_eq, ltb, length, All,
}
use atlasarb.Rpc.{
  RpcErrorKind, unauthorized, timeout, kind_eq, is_hard, closed, opened, half_open, Floats,
  Provider, PoolConfig, state,
}
use atlasarb.Rpc.Outcomes.{noted, judged, retired, trip_threshold, next_cooldown, tripped}

module _ {F : Type 0} (n : Floats F) (c : PoolConfig F) where
  -- a failure of an endpoint at a time
  unfoldable pub fail : Provider F → ℕ × RpcErrorKind → Provider F
  unfolding noted judged
  fail p (now, kind) = judged c now kind (noted n now kind p)

  -- failures one after the other
  unfoldable pub fail_all : Provider F → List (ℕ × RpcErrorKind) → Provider F
  unfolding fail
  fail_all p [] = p
  fail_all p (f ∷ fs) = fail_all (fail p f) fs

  -- The breaker has not tripped.
  abbrev pub IsUntripped : Provider F → Type 0
  IsUntripped p = (p.permanent ≡ false) × (p.disabled_until ≡ 0) × (p.cooldown ≡ 0)

  -- So long a streak is too short to trip the breaker, and too short to retire the endpoint. After
  -- timeouts alone the threshold is twice as high.
  abbrev pub IsShort : Provider F → List (ℕ × RpcErrorKind) → Type 0
  IsShort p fs =
      ((p.fail_streak + length fs < c.fail_threshold)
        ⊎ (p.streak_has_nontimeout ≡ false)
          × All (λ f. f.1 ≡ timeout) fs
          × (p.fail_streak + length fs < c.fail_threshold * 2))
      × ((c.permanent_fail_threshold ≡ 0)
          ⊎ (p.fail_streak + length fs < c.permanent_fail_threshold))

  fail_counts :
      (p : Provider F) (f : ℕ × RpcErrorKind)
      → ((fail p f).fail_streak ≡ p.fail_streak + 1)
        × ((fail p f).streak_has_nontimeout
            ≡ (if f.1 == timeout then p.streak_has_nontimeout else true))
  unfolding fail noted judged retired tripped
  fail_counts p (now, kind) = ground arith

  fail-IsUntripped :
      (p : Provider F) (f : ℕ × RpcErrorKind) (fs : List (ℕ × RpcErrorKind))
      → IsUntripped p
      → f.1 ≢ unauthorized
      → IsShort p (f ∷ fs)
      → IsUntripped (fail p f)
  unfolding fail noted judged retired tripped trip_threshold
  fail-IsUntripped p (now, kind) fs u allowed short =
      ground (arith, ==_iff kind unauthorized, ==_iff kind timeout, allowed)

  fail-IsShort :
      (p : Provider F) (f : ℕ × RpcErrorKind) (fs : List (ℕ × RpcErrorKind))
      → IsShort p (f ∷ fs)
      → IsShort (fail p f) fs
  fail-IsShort p f fs short =
      let (streak, mixed) = fail_counts p f in ground (arith, streak, mixed, ==_iff f.1 timeout)

  -- The breaker stays closed through a streak of failures that is shorter than the threshold, or than
  -- twice the threshold if all of it are timeouts, so long as no failure is an authorization error and
  -- the streak does not reach the length that retires an endpoint.
  pub no_early_trip :
      (p : Provider F) (fs : List (ℕ × RpcErrorKind)) (now : ℕ)
      → IsUntripped p
      → All (λ f. f.1 ≢ unauthorized) fs
      → IsShort p fs
      → state now (fail_all p fs) ≡ closed
  unfolding fail_all state
  no_early_trip p [] now u allowed short = ground arith
  no_early_trip p (f ∷ fs) now u allowed short =
      no_early_trip (fail p f) fs now (fail-IsUntripped p f fs u allowed.0 short) allowed.1
        (fail-IsShort p f fs short)

  fail_all-IsUntripped :
      (p : Provider F) (fs : List (ℕ × RpcErrorKind))
      → IsUntripped p
      → All (λ f. f.1 ≢ unauthorized) fs
      → IsShort p fs
      → IsUntripped (fail_all p fs) × ((fail_all p fs).fail_streak ≡ p.fail_streak + length fs)
  unfolding fail_all
  fail_all-IsUntripped p [] u allowed short = (u, omega arith)
  fail_all-IsUntripped p (f ∷ fs) u allowed short =
      let (u', counted) =
        fail_all-IsUntripped (fail p f) fs (fail-IsUntripped p f fs u allowed.0 short) allowed.1
          (fail-IsShort p f fs short) in
      (u', omega (arith, counted, (fail_counts p f).0))

  -- how long the first trip lasts
  abbrev pub first_cooldown : RpcErrorKind → ℕ
  first_cooldown kind = min c.cooldown_max (if is_hard kind then c.half_base * 2 else c.half_base)

  fail_trips :
      (p : Provider F) (now later : ℕ) (kind : RpcErrorKind)
      → IsUntripped p
      → kind ≢ unauthorized
      → kind ≢ timeout
      → c.fail_threshold ≤ p.fail_streak + 1
      → (c.permanent_fail_threshold ≡ 0) ⊎ (p.fail_streak + 1 < c.permanent_fail_threshold)
      → 0 < now + first_cooldown kind
      → state later (fail p (now, kind))
        ≡ (if ltb later (now + first_cooldown kind) then opened else half_open)
  unfolding fail noted judged retired tripped trip_threshold next_cooldown state
  fail_trips p now later kind u allowed other reached spared lasting =
      ground (arith, ==_iff kind unauthorized, ==_iff kind timeout, allowed, other)

  -- Take an endpoint whose breaker has not tripped (it is not retired, has no cooldown and is not disabled), and
  -- failures none of which is an authorization error and which are too few to trip the breaker. If the next
  -- failure, neither a timeout nor an authorization error, brings the streak to the threshold and not to the
  -- length that retires an endpoint, and its cooldown ends after time 0, then the breaker is open for that
  -- first cooldown, of at most the maximum and twice the base for a hard error, and half open from its end on.
  pub trips_at_threshold :
      (p : Provider F) (fs : List (ℕ × RpcErrorKind)) (now later : ℕ) (kind : RpcErrorKind)
      → IsUntripped p
      → All (λ f. f.1 ≢ unauthorized) fs
      → IsShort p fs
      → kind ≢ unauthorized
      → kind ≢ timeout
      → c.fail_threshold ≤ p.fail_streak + length fs + 1
      → (c.permanent_fail_threshold ≡ 0)
        ⊎ (p.fail_streak + length fs + 1 < c.permanent_fail_threshold)
      → 0 < now + first_cooldown kind
      → state later (fail (fail_all p fs) (now, kind))
        ≡ (if ltb later (now + first_cooldown kind) then opened else half_open)
  trips_at_threshold p fs now later kind u allowed short known other reached spared lasting =
      let (u', counted) = fail_all-IsUntripped p fs u allowed short in
      fail_trips (fail_all p fs) now later kind u' known other (omega (arith, counted))
        (rw counted spared) lasting
