-- ===== src/Rpc/Runs.antt =====
-- Runs of the pool of src/scanner/adapters/rpc_pool.py: the outcomes of calls and the choices of endpoints in
-- any order, with a clock that does not go back.
use atlasarb.Prelude.{
  ℕ, ◌+◌, ◌≤◌, ◌<◌, String, Bool, true, false, List, [], ◌∷◌, map, ◌≡◌, ◌⊎◌, inl, inr, refl, ◌∙◌,
  arith, if◌then◌else◌, ◌==◌, nat_eq, string_eq, length, All, Bool-cases, ap,
}
use atlasarb.Rpc.{RpcErrorKind, kind_eq, Floats, Provider, PoolConfig, RpcPool, healthy}
use atlasarb.Rpc.Rotation.{order, offered, next_cursor}
use atlasarb.Rpc.Outcomes.{
  at_url, succeeded, record_success, noted, judged, retired, trip_threshold, next_cooldown, tripped,
  record_failure, new_pool, new_provider,
}

-- An event of the pool, with what the clock shows.
pub data PoolEvent (F : Type 0) : Type 0 where
  success : ℕ → String → F → PoolEvent F
  failure : ℕ → String → RpcErrorKind → PoolEvent F
  ordering : ℕ → PoolEvent F

module _ {F : Type 0} where
  abbrev pub when : PoolEvent F → ℕ
  when (success now url latency) = now
  when (failure now url kind) = now
  when (ordering now) = now

  -- The clock of the events does not go back, from `t` on.
  abbrev pub InOrder : ℕ → List (PoolEvent F) → Type 0
  InOrder t [] = Unit
  InOrder t (e ∷ es) = (t ≤ when e) × InOrder (when e) es

  abbrev pub last_time : ℕ → List (PoolEvent F) → ℕ
  last_time t [] = t
  last_time t (e ∷ es) = last_time (when e) es

  -- An endpoint that is not retired is in rotation again once the longest cooldown has passed since its
  -- last failure; and it is slowed down only by a streak of failures.
  abbrev pub Rejoins : PoolConfig F → ℕ → Provider F → Type 0
  Rejoins c t p =
      ((p.permanent ≡ true) ⊎ (healthy (p.last_failure_at + c.cooldown_max) p ≡ true))
      × (p.last_failure_at ≤ t)
      × ((0 < p.fail_streak) ⊎ (p.permanent ≡ false) × (p.disabled_until ≡ 0) × (p.cooldown ≡ 0))

  Rejoins-later :
      (c : PoolConfig F) (t u : ℕ) (p : Provider F) → t ≤ u → Rejoins c t p → Rejoins c u p
  Rejoins-later c t u p le r = (r.0, omega (arith, r.1), r.2)

  All-later :
      (c : PoolConfig F) (t u : ℕ) (ps : List (Provider F))
      → t ≤ u
      → All (Rejoins c t) ps
      → All (Rejoins c u) ps
  All-later c t u [] le rs = tt
  All-later c t u (p ∷ ps) le rs = (Rejoins-later c t u p le rs.0, All-later c t u ps le rs.1)

  All-at_url :
      (P : Provider F → Type 0) (url : String) (f : Provider F → Provider F)
      (ps : List (Provider F))
      → ((p : Provider F) → P p → P (f p))
      → All P ps
      → All P (at_url url f ps)
  unfolding at_url
  All-at_url P url f [] keeps rs = tt
  All-at_url P url f (p ∷ ps) keeps rs = elim (Bool-cases (p.url == url)) [
    | inl e ↦ rw e (keeps p rs.0, rs.1)
    | inr e ↦ rw e (rs.0, All-at_url P url f ps keeps rs.1)
  ]

  urls-at_url :
      (url : String) (f : Provider F → Provider F) (ps : List (Provider F))
      → ((p : Provider F) → (f p).url ≡ p.url)
      → map (λ p. p.url) (at_url url f ps) ≡ map (λ p. p.url) ps
  unfolding at_url
  urls-at_url url f [] keeps = refl
  urls-at_url url f (p ∷ ps) keeps = ground (arith, keeps p, urls-at_url url f ps keeps)

module _ {F : Type 0} (n : Floats F) where
  succeeded-Rejoins :
      (c : PoolConfig F) (now : ℕ) (latency : F) (p : Provider F)
      → Rejoins c now p
      → Rejoins c now (succeeded n now latency p)
  unfolding succeeded healthy
  succeeded-Rejoins c now latency p r = (inr (ground arith), r.1, inr (refl, refl, refl))

  judged-Rejoins :
      (c : PoolConfig F) (now : ℕ) (kind : RpcErrorKind) (p : Provider F)
      → Rejoins c now p
      → Rejoins c now (judged c now kind (noted n now kind p))
  unfolding judged noted retired tripped next_cooldown healthy trip_threshold
  judged-Rejoins c now kind p r = ground arith

  succeeded-url : (now : ℕ) (latency : F) (p : Provider F) → (succeeded n now latency p).url ≡ p.url
  unfolding succeeded
  succeeded-url now latency p = refl

  judged-url :
      (c : PoolConfig F) (now : ℕ) (kind : RpcErrorKind) (p : Provider F)
      → (judged c now kind (noted n now kind p)).url ≡ p.url
  unfolding judged noted retired tripped
  judged-url c now kind p = ground arith

  unfoldable pub step : PoolEvent F → RpcPool F → RpcPool F
  unfolding record_success record_failure order
  step (success now url latency) pool = record_success n now url latency pool
  step (failure now url kind) pool = record_failure n now url kind pool
  step (ordering now) pool = (order n now pool).1

  unfoldable pub run : List (PoolEvent F) → RpcPool F → RpcPool F
  unfolding step
  run [] pool = pool
  run (e ∷ es) pool = run es (step e pool)

  -- The endpoints of a pool: their URLs, and what holds of each.
  pub record IsServing (c : PoolConfig F) (urls : List String) (t : ℕ) (pool : RpcPool F)
      : Type 0 where
    pub settled : pool.settings ≡ c
    pub listed : map (λ p. p.url) pool.providers ≡ urls
    pub rejoining : All (Rejoins c t) pool.providers

  cond-IsServing :
      (c : PoolConfig F) (urls : List String) (t : ℕ) (b : Bool) (x y : List String × RpcPool F)
      → IsServing c urls t x.1
      → IsServing c urls t y.1
      → IsServing c urls t (if b then x else y).1
  cond-IsServing c urls t true x y hx hy = hx
  cond-IsServing c urls t false x y hx hy = hy

  step-IsServing :
      (c : PoolConfig F) (urls : List String) (t : ℕ) (e : PoolEvent F) (pool : RpcPool F)
      → t ≤ when e
      → IsServing c urls t pool
      → IsServing c urls (when e) (step e pool)
  unfolding step record_success record_failure order
  step-IsServing c urls t (success now url latency) pool le s = record {
    settled = s.settled;
    listed =
        urls-at_url url (succeeded n now latency) pool.providers (λ p. succeeded-url now latency p)
        ∙ s.listed;
    rejoining =
        All-at_url (Rejoins c now) url (succeeded n now latency) pool.providers
          (λ p r. succeeded-Rejoins c now latency p r)
          (All-later c t now pool.providers le s.rejoining);
  }
  step-IsServing c urls t (failure now url kind) pool le s = record {
    settled = s.settled;
    listed =
        urls-at_url url (λ p. judged pool.settings now kind (noted n now kind p)) pool.providers
          (λ p. judged-url pool.settings now kind p)
        ∙ s.listed;
    rejoining =
        All-at_url (Rejoins c now) url (λ p. judged pool.settings now kind (noted n now kind p))
          pool.providers (λ p r. rw s.settled (judged-Rejoins c now kind p r))
          (All-later c t now pool.providers le s.rejoining);
  }
  step-IsServing c urls t (ordering now) pool le s =
      let held = All-later c t now pool.providers le s.rejoining in
      cond-IsServing c urls now (length pool.providers == 0) ([], pool)
        (
          offered n now pool,
          record pool { cursor = next_cursor (length pool.providers) pool.cursor },
        )
        (record { settled = s.settled; listed = s.listed; rejoining = held })
        (record { settled = s.settled; listed = s.listed; rejoining = held })

  -- Through any calls and choices under a clock that does not go back, an endpoint that is not retired is in
  -- rotation again at the latest one longest cooldown after its last failure, one without a streak of
  -- failures is not slowed down, and the pool keeps its URLs in their order.
  pub run-IsServing :
      (c : PoolConfig F) (urls : List String) (t : ℕ) (es : List (PoolEvent F)) (pool : RpcPool F)
      → InOrder t es
      → IsServing c urls t pool
      → IsServing c urls (last_time t es) (run es pool)
  unfolding run
  run-IsServing c urls t [] pool ordered s = s
  run-IsServing c urls t (e ∷ es) pool ordered s =
      run-IsServing c urls (when e) es (step e pool) ordered.1
        (step-IsServing c urls t e pool ordered.0 s)

  new-Rejoins :
      (c : PoolConfig F) (primary urls : List String)
      → All (Rejoins c 0) (map (new_provider n primary) urls)
  unfolding new_provider healthy
  new-Rejoins c primary [] = tt
  new-Rejoins c primary (u ∷ urls) =
      ((inr (ground arith), omega arith, inr (refl, refl, refl)), new-Rejoins c primary urls)

  new-urls :
      (primary urls : List String) → map (λ p. p.url) (map (new_provider n primary) urls) ≡ urls
  unfolding new_provider
  new-urls primary [] = refl
  new-urls primary (u ∷ urls) = ap (λ us. u ∷ us) (new-urls primary urls)

  pub new_pool-IsServing :
      (c : PoolConfig F) (primary urls : List String)
      → IsServing c urls 0 (new_pool n c urls primary)
  unfolding new_pool
  new_pool-IsServing c primary urls = record {
    settled = refl;
    listed = new-urls primary urls;
    rejoining = new-Rejoins c primary urls;
  }
