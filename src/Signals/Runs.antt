-- ===== src/Signals/Runs.antt =====
-- Runs of the lifecycle of src/scanner/lifecycle/manager.py: admissions and expiries in any order.
use atlasarb.Prelude.{ℕ, String, Bool, Option, List, [], ◌∷◌, now_or}
use atlasarb.Signals.{Settings, Key, Signal, ttl_exceeded, venue_offline, market_delisted}
use atlasarb.Signals.Lifecycle.{
  World, admit, sweep_expired, force_expire_venue, force_expire_delisted, close_if_spread_gone,
}
use atlasarb.Signals.Tracking.{
  IsRouted, IsTracked, admit-IsTracked, expire_where-IsTracked, close-IsTracked,
}

-- What the engine asks of the lifecycle.
pub data Step (D E : Type 0) : Type 0 where
  admitted : ℕ → ℕ → Signal D E → Step D E
  swept : (Key → Bool) → ℕ → Option ℕ → Step D E
  venue_down : (Key → Bool) → ℕ → String → Step D E
  delisted : (Key → Bool) → ℕ → String → Step D E
  closed : Bool → ℕ → Key → Step D E

module _ {D E : Type 0} (c : Settings D) where
  unfoldable pub world_step : Step D E → World D E → World D E
  unfolding admit sweep_expired force_expire_venue force_expire_delisted close_if_spread_gone
  world_step (admitted now mono s) w = (admit c now mono s w).1
  world_step (swept fails clock now) w = (sweep_expired c fails clock now w).1
  world_step (venue_down fails now venue) w = (force_expire_venue c fails now venue w).1
  world_step (delisted fails now pair) w = (force_expire_delisted c fails now pair w).1
  world_step (closed fails now key) w = (close_if_spread_gone c fails now key w).1

  unfoldable pub world_run : List (Step D E) → World D E → World D E
  unfolding world_step
  world_run [] w = w
  world_run (o ∷ os) w = world_run os (world_step o w)

module _ {D E : Type 0} (c : Settings D) (route_id : Key → String) where
  -- The signals that the run admits carry their routes' identities.
  abbrev pub AllRouted : List (Step D E) → Type 0
  AllRouted [] = Unit {0}
  AllRouted (admitted now mono s ∷ os) = IsRouted c route_id s × AllRouted os
  AllRouted (_ ∷ os) = AllRouted os

  -- Take any run of admissions, sweeps, forced expiries and closings, in which each admitted
  -- signal's id is the one derived from its route (two routes may share one). If at the start the
  -- scanner files each active signal once and under its own route, and the bot's active list shows
  -- only signals whose route is active in the scanner, each under its own id, then so it is at the
  -- end: nothing that has expired is still offered, whether or not archiving fails.
  pub world_run-IsTracked :
      (os : List (Step D E)) (w : World D E)
      → AllRouted os
      → IsTracked c route_id w
      → IsTracked c route_id (world_run c os w)
  unfolding world_run world_step sweep_expired force_expire_venue force_expire_delisted
  world_run-IsTracked [] w all t = t
  world_run-IsTracked (admitted now mono s ∷ os) w all t =
      world_run-IsTracked os _ all.1 (admit-IsTracked c route_id now mono s w all.0 t)
  world_run-IsTracked (swept fails clock now ∷ os) w all t =
      world_run-IsTracked os _ all
        (expire_where-IsTracked c route_id _ fails (now_or clock now) ttl_exceeded w.signals 0 w t)
  world_run-IsTracked (venue_down fails now venue ∷ os) w all t =
      world_run-IsTracked os _ all
        (expire_where-IsTracked c route_id _ fails now venue_offline w.signals 0 w t)
  world_run-IsTracked (delisted fails now pair ∷ os) w all t =
      world_run-IsTracked os _ all
        (expire_where-IsTracked c route_id _ fails now market_delisted w.signals 0 w t)
  world_run-IsTracked (closed fails now key ∷ os) w all t =
      world_run-IsTracked os _ all (close-IsTracked c route_id fails now key w t)
