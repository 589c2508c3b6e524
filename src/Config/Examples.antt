-- ===== src/Config/Examples.antt =====
-- Tests and concrete instances of the theorems about the layers of settings.
use Prim.Native.Nat.{◌^◌}
use atlasarb.Prelude.{
  ℕ, ◌+◌, ◌-◌, ◌*◌, true, some, List, [], ◌∷◌, ◌≡◌, refl, string_eq, leb, ltb, nat_beq,
}
use atlasarb.Prelude.Dict
use atlasarb.Config.{Floats, number, table, ScannerConfig, validate_config}
use atlasarb.Config.Manager.{
  Manager, runtime, new_manager, IsValid, Change, sets_environment, sets_runtime, changes,
  new-IsValid, changes-IsValid, introspect,
}

-- millionths in place of floats
abbrev millionths : Floats ℕ
millionths = record {
  lit = λ digits places. digits * 10 ^ (6 - places);
  le = leb;
  lt = ltb;
  add = λ a b. a + b;
  sub = λ a b. a - b;
  abs = λ a. a;
  is_zero = λ a. nat_beq a 0;
}

abbrev base : ScannerConfig ℕ
base =
    ("min_net_profit_usd", number 5000000)
    ∷ ("min_roi_pct", number 1000000)
    ∷ ("max_gas_pct_of_gross", number 1000000)
    ∷ ("max_slippage_cex_pct", number 1000000)
    ∷ ("max_slippage_dex_pct", number 2000000)
    ∷ ("min_liquidity_cex_usd", number 1000000)
    ∷ ("min_liquidity_dex_usd", number 1000000)
    ∷ ("liquidity_ref_p1_usd", number 1000000)
    ∷ ("liquidity_ref_p2_usd", number 1000000)
    ∷ ("liquidity_ref_p3_usd", number 1000000)
    ∷ ("cex_taker_fee_default", number 50000)
    ∷ ("liquidity_score_floor", number 1000000)
    ∷ ("confidence_threshold", number 1000000)
    ∷ ("rank_top_min", number 80000000)
    ∷ ("rank_high_min", number 60000000)
    ∷ ("rank_medium_min", number 40000000)
    ∷ ("significant_profit_change_pct", number 1000000)
    ∷ ("warmup_samples", number 1000000)
    ∷ ("reconciliation_interval_sec", number 1000000)
    ∷ ("max_bridge_time_sec", number 1000000)
    ∷ ("fast_bridge_threshold_sec", number 1000000)
    ∷ ("detector_cost_amortization_usd", number 1000000)
    ∷ ("detector_gas_estimate_usd", number 1000000)
    ∷ ("reconciliation_cadence_funding_sec", number 1000000)
    ∷ ("reconciliation_cadence_cex_cex_sec", number 1000000)
    ∷ ("reconciliation_cadence_cex_dex_sec", number 1000000)
    ∷ ("reconciliation_cadence_dex_dex_sec", number 1000000)
    ∷ ("reconciliation_cadence_cross_chain_sec", number 1000000)
    ∷ ("reconciliation_idle_after_sec", number 1000000)
    ∷ ("reconciliation_idle_backoff", number 1000000)
    ∷ ("stale_dex_offline_sec", number 60000000)
    ∷ ("stale_dex_rpc_sec", number 30000000)
    ∷ ("w_profit", number 400000)
    ∷ ("w_liquidity", number 200000)
    ∷ ("w_confidence", number 200000)
    ∷ ("w_risk", number 200000)
    ∷ ("f_price_freshness", number 250000)
    ∷ ("f_liquidity", number 250000)
    ∷ ("f_spread_stability", number 200000)
    ∷ ("f_exchange_health", number 100000)
    ∷ ("f_historical_reliability", number 100000)
    ∷ ("f_data_completeness", number 100000)
    ∷ ("lw_depth", number 500000)
    ∷ ("lw_balance", number 300000)
    ∷ ("lw_stability", number 200000)
    ∷ ("cex_taker_fee_by_venue", table (("okx", 1000) ∷ []))
    ∷ ("cooldown_by_type", table (("CEX_CEX", 60000000) ∷ []))
    ∷ ("ttl_by_type", table (("CEX_CEX", 300000000) ∷ []))
    ∷ []

abbrev manager : Manager ℕ
manager = record { base = base; env_layer = []; runtime_layer = []; effective = base; told = [] }

base_valid : validate_config millionths base ≡ true
unfolding validate_config Dict.get
base_valid = refl

manager_made : new_manager millionths base ≡ some manager
unfolding new_manager Dict.get
manager_made = refl

-- The second change puts the first rank below the second one and is refused.
abbrev story : List (Change millionths)
story =
    sets_environment (("min_roi_pct", number 2000000) ∷ [])
    ∷ sets_runtime (("rank_top_min", number 50000000) ∷ [])
    ∷ sets_runtime (("min_roi_pct", number 3000000) ∷ ("no_such_setting", number 1) ∷ [])
    ∷ []

changes-IsValid_example : IsValid millionths base (changes millionths story manager)
changes-IsValid_example =
    changes-IsValid millionths base story manager (new-IsValid millionths base manager manager_made)

roi_known : Dict.has "min_roi_pct" (changes millionths story manager).base ≡ true
unfolding changes Dict.has Dict.get Dict.put
roi_known = refl

roi_is_runtime :
    introspect "min_roi_pct" (changes millionths story manager) ≡ (some (number 3000000), runtime)
unfolding introspect changes Dict.has Dict.get Dict.put
roi_is_runtime = refl
