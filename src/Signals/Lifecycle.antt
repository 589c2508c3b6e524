-- ===== src/Signals/Lifecycle.antt =====
-- LifecycleManager of src/scanner/lifecycle/manager.py, with the cooldowns and the bridge that it
-- writes to. `now` is time.time(), `mono` time.monotonic(), `fails` whether the database raises.
use atlasarb.Prelude.{
  ℕ, ◌+◌, String, Bool, true, false, not, ◌||◌, Option, none, some, [], ◌∷◌, if◌then◌else◌, ◌==◌,
  nat_eq, string_eq, pair_eq, option_eq, leb, now_or,
}
use atlasarb.Prelude.Dict
use atlasarb.Prelude.Dict.{Dict}
use atlasarb.Signals.{
  funding, arb_eq, Settings, Key, Signal, dedup_key, time_between, active, expired, level_eq,
  ExpiryReason, ttl_exceeded, venue_offline, market_delisted, spread_closed,
}
use atlasarb.Signals.Cooldown.{Cooldowns, ttl_for, on_expired, in_cooldown, significant_change}
use atlasarb.Signals.Bridge.{Bridge, Event, new_signal, update, suppressed, publish, archive}

pub record World (D E : Type 0) : Type 0 where
  pub signals : Dict Key (Signal D E)
  pub cooldowns : Cooldowns
  pub bridge : Bridge D E

-- `signal.funding_next_time` is falsy when it is missing or 0
unfoldable pub funding_end : {D E : Type 0} → Signal D E → Option ℕ
funding_end s = if s.arb_type == funding then s.funding_next_time else none

unfoldable pub expiry : ℕ → Option ℕ → ℕ
expiry plain none = plain
expiry plain (some n) = if n == 0 then plain else n

module _ {D E : Type 0} (c : Settings D) where
  unfoldable pub set_ttl : Signal D E → Signal D E
  unfolding ttl_for funding_end expiry
  set_ttl s = record s { expires_at = expiry (s.timestamp + ttl_for c s.arb_type) (funding_end s) }

  unfoldable pub store : Key → Signal D E → World D E → World D E
  unfolding Dict.put
  store key s w = record w { signals = Dict.put key s w.signals }

  unfoldable pub send : ℕ → Signal D E → Event → World D E → World D E
  unfolding publish
  send mono s event w = record w { bridge = publish mono s event w.bridge }

  -- the signal that replaces an active one
  unfoldable pub continued : ℕ → Signal D E → Signal D E → Signal D E
  unfolding set_ttl
  continued now old s = set_ttl (record s { timestamp = old.timestamp; last_updated = now })

  unfoldable pub is_significant : Signal D E → Signal D E → Bool
  unfolding significant_change
  is_significant old s =
      significant_change c old.net_profit_usd s.net_profit_usd || not (s.ranking == old.ranking)

  unfoldable pub admit_known :
      ℕ → ℕ → Signal D E → Signal D E → World D E → (Bool × Event) × World D E
  unfolding continued is_significant store send dedup_key
  admit_known now mono s old w =
      let s' = continued now old s in
      let w' = store (dedup_key c s) s' w in
      if is_significant old s
      then ((true, update), send mono s' update w')
      else ((false, suppressed), w')

  unfoldable pub admit_fresh :
      ℕ → Signal D E → Bool × Cooldowns → World D E → (Bool × Event) × World D E
  unfolding set_ttl store send dedup_key
  admit_fresh mono s (cooling, cooldowns) w =
      let w' = record w { cooldowns = cooldowns } in
      let s' = record (set_ttl s) { status = active } in
      if cooling
      then ((false, suppressed), store (dedup_key c s) (set_ttl s) w')
      else ((true, new_signal), send mono s' new_signal (store (dedup_key c s) s' w'))

  unfoldable pub admit : ℕ → ℕ → Signal D E → World D E → (Bool × Event) × World D E
  unfolding admit_known admit_fresh in_cooldown Dict.get dedup_key
  admit now mono s w = elim (Dict.get (dedup_key c s) w.signals) [
    | some old ↦ admit_known now mono s old w
    | none ↦ admit_fresh mono s (in_cooldown now (dedup_key c s) w.cooldowns) w
  ]

  unfoldable pub ended : ℕ → ExpiryReason → Signal D E → Signal D E
  ended now reason s = record s {
    status = expired;
    expired_at = some now;
    expiry_reason = some reason;
    signal_lifetime = time_between now s.timestamp;
  }

  unfoldable pub expire_found :
      Bool → ℕ → Key → ExpiryReason → Option (Signal D E) → World D E → World D E
  unfolding ended on_expired archive Dict.pop
  expire_found fails now key reason none w = w
  expire_found fails now key reason (some s) w = record {
    signals = Dict.pop key w.signals;
    cooldowns = on_expired c now key s.arb_type w.cooldowns;
    bridge = archive fails (ended now reason s) w.bridge;
  }

  -- `expire`, where `now` is the time it uses
  unfoldable pub expire : Bool → ℕ → Key → ExpiryReason → World D E → World D E
  unfolding expire_found Dict.get
  expire fails now key reason w = expire_found fails now key reason (Dict.get key w.signals) w

  -- the loops over a copy of the active signals, with the count so far
  unfoldable pub expire_where :
      (Signal D E → Bool)
      → (Key → Bool)
      → ℕ
      → ExpiryReason
      → Dict Key (Signal D E)
      → ℕ
      → World D E
      → ℕ × World D E
  unfolding expire
  expire_where test fails now reason [] n w = (n, w)
  expire_where test fails now reason ((key, s) ∷ rest) n w =
      if test s
      then expire_where test fails now reason rest (n + 1) (expire (fails key) now key reason w)
      else expire_where test fails now reason rest n w

  unfoldable pub sweep_expired : (Key → Bool) → ℕ → Option ℕ → World D E → ℕ × World D E
  unfolding expire_where
  sweep_expired fails clock now w =
      expire_where (λ s. leb s.expires_at (now_or clock now)) fails (now_or clock now) ttl_exceeded
        w.signals 0 w

  unfoldable pub force_expire_venue : (Key → Bool) → ℕ → String → World D E → ℕ × World D E
  unfolding expire_where
  force_expire_venue fails now venue w =
      expire_where (λ s. (venue == s.buy_exchange) || venue == s.sell_exchange) fails now
        venue_offline w.signals 0 w

  unfoldable pub force_expire_delisted : (Key → Bool) → ℕ → String → World D E → ℕ × World D E
  unfolding expire_where
  force_expire_delisted fails now pair w =
      expire_where (λ s. s.trading_pair == pair) fails now market_delisted w.signals 0 w

  unfoldable pub close_if_spread_gone : Bool → ℕ → Key → World D E → Bool × World D E
  unfolding expire Dict.has
  close_if_spread_gone fails now key w =
      if Dict.has key w.signals then (true, expire fails now key spread_closed w) else (false, w)
