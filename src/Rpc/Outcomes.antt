-- ===== src/Rpc/Outcomes.antt =====
-- The outcome of a call in src/scanner/adapters/rpc_pool.py: what a success and a failure make of the
-- breaker of the endpoint, the settings, and a new pool.
use atlasarb.Prelude.{
  ℕ, ◌+◌, ◌*◌, min, String, true, false, not, ◌&&◌, ◌||◌, Option, none, some, List, [], ◌∷◌, map,
  if◌then◌else◌, ◌==◌, nat_eq, string_eq, leb, ltb, any,
}
use atlasarb.Rpc.{
  RpcErrorKind, unauthorized, timeout, kind_eq, is_hard, Floats, Provider, PoolConfig, RpcPool,
  zero_float, at_most_one,
}

module _ {F : Type 0} where
  -- `_by_url`, and the change of the provider that it finds
  unfoldable pub at_url : String → (Provider F → Provider F) → List (Provider F) → List (Provider F)
  at_url url f [] = []
  at_url url f (p ∷ ps) = if p.url == url then f p ∷ ps else p ∷ at_url url f ps

  unfoldable pub retired : PoolConfig F → ℕ → Provider F → Provider F
  retired c now p = record p {
    permanent = true;
    cooldown = c.forever;
    disabled_until = now + c.forever;
  }

  -- the streak at which the breaker trips; one of timeouts alone may be twice as long
  unfoldable pub trip_threshold : PoolConfig F → Provider F → ℕ
  trip_threshold c p = if p.streak_has_nontimeout then c.fail_threshold else c.fail_threshold * 2

  unfoldable pub next_cooldown : PoolConfig F → RpcErrorKind → Provider F → ℕ
  unfolding is_hard
  next_cooldown c kind p = min c.cooldown_max (
      if p.cooldown == 0
      then (if is_hard kind then c.half_base * 2 else c.half_base)
      else p.cooldown * 2)

  unfoldable pub tripped : PoolConfig F → ℕ → RpcErrorKind → Provider F → Provider F
  unfolding next_cooldown
  tripped c now kind p =
      let cooldown = next_cooldown c kind p in
      record p { cooldown = cooldown; disabled_until = now + cooldown }

  -- a failure, after its counts are noted
  unfoldable pub judged : PoolConfig F → ℕ → RpcErrorKind → Provider F → Provider F
  unfolding retired tripped trip_threshold is_hard
  judged c now kind p =
      if kind == unauthorized
      then (if p.permanent then p else retired c now p)
      else if ltb 0 c.permanent_fail_threshold
          && is_hard kind
          && leb c.permanent_fail_threshold p.fail_streak
          && not p.permanent
      then retired c now p
      else if leb (trip_threshold c p) p.fail_streak && leb p.disabled_until now
      then tripped c now kind p
      else p

  -- a setting that is not given stays
  unfoldable pub update_config : ℕ → ℕ → ℕ → Option F → Option ℕ → RpcPool F → RpcPool F
  update_config threshold half_base cooldown_max slow retire_after pool = record pool {
    settings = record {
      fail_threshold = threshold;
      half_base = half_base;
      cooldown_max = cooldown_max;
      slow_latency_ms = elim slow [ none ↦ pool.settings.slow_latency_ms | some x ↦ x ];
      permanent_fail_threshold = elim retire_after [
        | none ↦ pool.settings.permanent_fail_threshold
        | some k ↦ k
      ];
      forever = pool.settings.forever;
    };
  }

module _ {F : Type 0} (n : Floats F) where
  unfoldable pub succeeded : ℕ → F → Provider F → Provider F
  unfolding at_most_one zero_float
  succeeded now latency p = record p {
    score = at_most_one n (n.add (n.mul p.score (n.lit 8 1)) (n.lit 2 1));
    latency_ms =
        if not (n.lt (zero_float n) latency)
        then p.latency_ms
        else if not (n.lt (zero_float n) p.latency_ms || n.lt p.latency_ms (zero_float n))
        then latency
        else n.add (n.mul p.latency_ms (n.lit 8 1)) (n.mul latency (n.lit 2 1));
    timeout_rate = n.mul p.timeout_rate (n.lit 8 1);
    fail_streak = 0;
    streak_has_nontimeout = false;
    cooldown = 0;
    disabled_until = 0;
    permanent = false;
    last_kind = none;
    last_success_at = now;
  }

  unfoldable pub record_success : ℕ → String → F → RpcPool F → RpcPool F
  unfolding at_url succeeded
  record_success now url latency pool = record pool {
    providers = at_url url (succeeded now latency) pool.providers;
  }

  -- the counts that each failure changes
  unfoldable pub noted : ℕ → RpcErrorKind → Provider F → Provider F
  unfolding zero_float
  noted now kind p =
      let score = n.mul p.score (n.lit 8 1) in
      record p {
        score = if n.lt (zero_float n) score then score else (zero_float n);
        timeout_rate =
            n.add (n.mul p.timeout_rate (n.lit 8 1))
              (if kind == timeout then n.lit 2 1 else (zero_float n));
        fail_streak = p.fail_streak + 1;
        streak_has_nontimeout = if kind == timeout then p.streak_has_nontimeout else true;
        last_kind = some kind;
        last_failure_at = now;
      }

  unfoldable pub record_failure : ℕ → String → RpcErrorKind → RpcPool F → RpcPool F
  unfolding at_url judged noted
  record_failure now url kind pool = record pool {
    providers = at_url url (λ p. judged pool.settings now kind (noted now kind p)) pool.providers;
  }

  unfoldable pub new_provider : List String → String → Provider F
  unfolding zero_float any
  new_provider primary url = record {
    url = url;
    tier = if any (λ u. u == url) primary then 0 else 1;
    score = n.lit 1 0;
    latency_ms = (zero_float n);
    timeout_rate = (zero_float n);
    fail_streak = 0;
    streak_has_nontimeout = false;
    disabled_until = 0;
    cooldown = 0;
    permanent = false;
    last_kind = none;
    last_success_at = 0;
    last_failure_at = 0;
  }

  unfoldable pub new_pool : PoolConfig F → List String → List String → RpcPool F
  unfolding new_provider
  new_pool c urls primary = record {
    settings = c;
    providers = map (new_provider primary) urls;
    cursor = 0;
  }
