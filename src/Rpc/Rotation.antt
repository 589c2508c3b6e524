-- ===== src/Rpc/Rotation.antt =====
-- The choice of endpoints in src/scanner/adapters/rpc_pool.py: the ranking of the healthy ones, and the
-- single probe where none is.
use atlasarb.Prelude.{
  ℕ, zero, suc, ◌+◌, String, Bool, not, ◌&&◌, ◌||◌, List, [], ◌∷◌, ◌++◌, map, if◌then◌else◌, ◌==◌,
  nat_eq, string_eq, leb, ltb, length, filter, count,
}
use atlasarb.Rpc.{kind_eq, Floats, Provider, PoolConfig, RpcPool, healthy, zero_float, at_most_one}

-- the cursor moves on by one, modulo the number of providers
unfoldable pub next_cursor : ℕ → ℕ → ℕ
next_cursor size cursor = if leb size (cursor + 1) then 0 else cursor + 1

module _ {F : Type 0} where
  -- `self._providers[(self._cursor + i) % n]` for each i
  unfoldable pub rotated : ℕ → List (Provider F) → List (Provider F)
  rotated zero ps = ps
  rotated (suc k) [] = []
  rotated (suc k) (p ∷ ps) = rotated k (ps ++ p ∷ [])

  -- the key of `min`: the end of the cooldown, then the tier
  unfoldable pub sooner : Provider F → Provider F → Bool
  sooner p q =
      ltb p.disabled_until q.disabled_until
      || ((p.disabled_until == q.disabled_until) && ltb p.tier q.tier)

  -- `min` of a list that is not empty: the first of equal ones
  unfoldable pub soonest : Provider F → List (Provider F) → Provider F
  unfolding sooner
  soonest p [] = p
  soonest p (q ∷ ps) = soonest (if sooner q p then q else p) ps

  unfoldable pub usable : List (Provider F) → List (Provider F)
  unfolding filter
  usable ps = filter (λ p. not p.permanent) ps

  -- the single probe when none is in rotation
  unfoldable pub probe : List (Provider F) → List String
  unfolding soonest
  probe [] = []
  probe (p ∷ ps) = (soonest p ps).url ∷ []

  unfoldable pub healthy_count : ℕ → RpcPool F → ℕ × ℕ
  unfolding usable healthy count
  healthy_count now pool =
      (count (healthy now) (usable pool.providers), length (usable pool.providers))

module _ {F : Type 0} (n : Floats F) where
  -- the smallest latency above 0, or 0
  unfoldable pub best_latency : List (Provider F) → F
  unfolding zero_float
  best_latency [] = (zero_float n)
  best_latency (p ∷ ps) =
      let rest = best_latency ps in
      if not (n.lt (zero_float n) p.latency_ms)
      then rest
      else if n.lt (zero_float n) rest && n.lt rest p.latency_ms
      then rest
      else p.latency_ms

  -- the penalty for a latency relative to the best one
  unfoldable pub latency_penalty : F → F → F
  unfolding zero_float at_most_one
  latency_penalty latency best =
      let ratio = n.div latency best in
      if n.lt (zero_float n) latency && n.lt (zero_float n) best && n.lt (n.lit 1 0) ratio
      then n.mul (at_most_one n (n.div (n.sub ratio (n.lit 1 0)) (n.lit 2 0))) (n.lit 35 2)
      else (zero_float n)

  unfoldable pub stability_bonus : ℕ → Provider F → F
  unfolding at_most_one
  stability_bonus now p =
      if p.last_failure_at == 0
      then n.lit 15 2
      else n.mul (at_most_one n (n.div (n.elapsed now p.last_failure_at) (n.lit 600 0)))
          (n.lit 15 2)

  unfoldable pub rank : ℕ → F → F → Provider F → F
  unfolding latency_penalty stability_bonus zero_float
  rank now best slow p =
      let r = n.sub p.score (latency_penalty p.latency_ms best) in
      let r =
        if n.lt (zero_float n) slow && n.lt slow p.latency_ms then n.sub r (n.lit 5 1) else r in
      let r = n.sub r (n.mul p.timeout_rate (n.lit 20 2)) in
      let r =
        if not (p.last_success_at == 0) && not (n.lt (n.lit 60 0) (n.elapsed now p.last_success_at))
        then n.add r (n.lit 15 2)
        else r in
      n.add r (stability_bonus now p)

  -- the key of the sort: the tier, then the rounded rank, the higher first
  unfoldable pub before : ℕ → F → F → Provider F → Provider F → Bool
  unfolding rank
  before now best slow p q =
      ltb p.tier q.tier
      || ((p.tier == q.tier)
          && n.lt (n.round1 (rank now best slow q)) (n.round1 (rank now best slow p)))

  -- Python's stable sort by a key
  unfoldable pub insert :
      (Provider F → Provider F → Bool) → Provider F → List (Provider F) → List (Provider F)
  insert earlier p [] = p ∷ []
  insert earlier p (q ∷ qs) = if earlier q p then q ∷ insert earlier p qs else p ∷ q ∷ qs

  unfoldable pub sort : (Provider F → Provider F → Bool) → List (Provider F) → List (Provider F)
  unfolding insert
  sort earlier [] = []
  sort earlier (p ∷ ps) = insert earlier p (sort earlier ps)

  unfoldable pub ranked : ℕ → PoolConfig F → List (Provider F) → List (Provider F)
  unfolding sort before best_latency
  ranked now c ps = sort (before now (best_latency ps) c.slow_latency_ms) ps

  -- the URLs of the healthy providers, best first; without them, one probe
  unfoldable pub chosen : ℕ → RpcPool F → List (Provider F) → List String
  unfolding ranked probe usable
  chosen now pool [] = probe (usable pool.providers)
  chosen now pool (p ∷ ps) = map (λ q. q.url) (ranked now pool.settings (p ∷ ps))

  unfoldable pub offered : ℕ → RpcPool F → List String
  unfolding rotated filter healthy chosen
  offered now pool = chosen now pool (filter (healthy now) (rotated pool.cursor pool.providers))

  unfoldable pub order : ℕ → RpcPool F → List String × RpcPool F
  unfolding offered next_cursor
  order now pool = if length pool.providers == 0 then ([], pool) else (
    offered now pool,
    record pool { cursor = next_cursor (length pool.providers) pool.cursor },
  )
