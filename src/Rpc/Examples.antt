-- ===== src/Rpc/Examples.antt =====
-- Tests and concrete instances of the theorems about the pool of endpoints.
use atlasarb.Prelude.{
  ℕ, ◌+◌, ◌-◌, ◌*◌, ◌/◌, List, [], ◌∷◌, ◌≡◌, inl, inr, refl, arith, ltb, if◌then◌else◌,
}
use atlasarb.Rpc.{
  RpcErrorKind, unauthorized, http, rate_limit, timeout, rpc_error, closed, opened, half_open,
  Floats, Provider, PoolConfig, RpcPool, state,
}
use atlasarb.Rpc.Rotation.{offered}
use atlasarb.Rpc.Outcomes.{new_pool, new_provider}
use atlasarb.Rpc.Choice.{Offers, offered-Offers}
use atlasarb.Rpc.Breaker.{
  fail, fail_all, IsUntripped, IsShort, no_early_trip, first_cooldown, trips_at_threshold,
}
use atlasarb.Rpc.Runs.{
  PoolEvent, failure, ordering, InOrder, last_time, run, IsServing, run-IsServing,
  new_pool-IsServing,
}

-- thousandths in place of floats
abbrev thousandths : Floats ℕ
thousandths = record {
  lit = λ digits places. digits * 1000;
  add = λ a b. a + b;
  sub = λ a b. a - b;
  mul = λ a b. a * b / 1000;
  div = λ a b. a * 1000 / b;
  lt = ltb;
  elapsed = λ a b. (a - b) * 1000;
  round1 = λ a. a;
}

abbrev settings : PoolConfig ℕ
settings = record {
  fail_threshold = 3;
  half_base = 10;
  cooldown_max = 300;
  slow_latency_ms = 0;
  permanent_fail_threshold = 0;
  forever = 1000000;
}

abbrev pool : RpcPool ℕ
pool = new_pool thousandths settings ("public" ∷ "paid" ∷ []) ("paid" ∷ [])

-- The primary comes first.
primary_first : offered thousandths 5 pool ≡ "paid" ∷ "public" ∷ []
unfolding offered new_pool
primary_first = refl

offered-Offers_example : Offers 5 pool.providers (offered thousandths 5 pool)
offered-Offers_example = offered-Offers thousandths 5 pool

abbrev endpoint : Provider ℕ
endpoint = new_provider thousandths [] "public"

endpoint-IsUntripped : IsUntripped thousandths settings endpoint
unfolding new_provider
endpoint-IsUntripped = (refl, refl, refl)

-- Three failures trip the breaker, five timeouts do not.
abbrev timeouts : List (ℕ × RpcErrorKind)
timeouts = (1, timeout) ∷ (2, timeout) ∷ (3, timeout) ∷ (4, timeout) ∷ (5, timeout) ∷ []

timeouts-IsShort : IsShort thousandths settings endpoint timeouts
unfolding new_provider
timeouts-IsShort = (inr (refl, (refl, (refl, (refl, (refl, (refl, tt))))), omega arith), inl refl)

no_early_trip_example : state 6 (fail_all thousandths settings endpoint timeouts) ≡ closed
no_early_trip_example =
    no_early_trip thousandths settings endpoint timeouts 6 endpoint-IsUntripped
      ((λ e. cc), ((λ e. cc), ((λ e. cc), ((λ e. cc), ((λ e. cc), tt))))) timeouts-IsShort

abbrev two_failures : List (ℕ × RpcErrorKind)
two_failures = (1, http) ∷ (2, timeout) ∷ []

two_failures-IsShort : IsShort thousandths settings endpoint two_failures
unfolding new_provider
two_failures-IsShort = (inl (omega arith), inl refl)

trips_at_threshold_example :
    state 8 (
      fail thousandths settings
        (fail_all thousandths settings endpoint two_failures)
        (3, rpc_error))
    ≡ (if ltb 8 (3 + first_cooldown thousandths settings rpc_error) then opened else half_open)
unfolding new_provider
trips_at_threshold_example =
    trips_at_threshold thousandths settings endpoint two_failures 3 8 rpc_error endpoint-IsUntripped
      ((λ e. cc), ((λ e. cc), tt)) two_failures-IsShort (λ e. cc) (λ e. cc) (omega arith) (inl refl)
      (omega arith)

abbrev story : List (PoolEvent ℕ)
story =
    failure 1 "paid" http
    ∷ ordering 2
    ∷ failure 2 "paid" rate_limit
    ∷ failure 3 "paid" timeout
    ∷ failure 4 "public" unauthorized
    ∷ ordering 5
    ∷ []

story-InOrder : InOrder 0 story
story-InOrder =
    (omega arith, (omega arith, (omega arith, (omega arith, (omega arith, (omega arith, tt))))))

run-IsServing_example :
    IsServing thousandths settings
      ("public" ∷ "paid" ∷ [])
      (last_time 0 story)
      (run thousandths story pool)
run-IsServing_example =
    run-IsServing thousandths settings ("public" ∷ "paid" ∷ []) 0 story pool story-InOrder
      (new_pool-IsServing thousandths settings ("paid" ∷ []) ("public" ∷ "paid" ∷ []))

-- With one endpoint retired and the other cooling down, the latter is the probe.
single_probe : offered thousandths 6 (run thousandths story pool) ≡ "paid" ∷ []
unfolding run offered new_pool
single_probe = refl
