-- ===== src/Config.antt =====
-- ConfigManager and validate_config of src/config/scanner_config.py: the settings of the scanner in three
-- layers, and the checks that every effective configuration passes.
use atlasarb.Prelude.{
  ℕ, String, Bool, true, false, not, ◌&&◌, ◌||◌, Option, none, some, List, [], ◌∷◌, ◌++◌,
  if◌then◌else◌, string_eq, is_some,
}
use atlasarb.Prelude.Dict
use atlasarb.Prelude.Dict.{Dict}
pub mod Layers
pub mod Manager
pub mod Examples

-- What the code takes from Python's floats: `lit 35 2` is the literal 0.35.
pub record Floats (F : Type 0) : Type 0 where
  pub lit : ℕ → ℕ → F
  pub le : F → F → Bool
  pub lt : F → F → Bool
  pub add : F → F → F
  pub sub : F → F → F
  pub abs : F → F
  pub is_zero : F → Bool

-- The value of an attribute: a number, a dictionary of numbers, or anything else.
pub data Value (F : Type 0) : Type 0 where
  number : F → Value F
  table : Dict String F → Value F
  other : String → Value F

-- The attributes of a ScannerConfig by name, and a layer of overrides.
abbrev pub ScannerConfig : Type 0 → Type 0
ScannerConfig F = Dict String (Value F)

module _ {F : Type 0} where
  unfoldable pub number_of : Option (Value F) → Option F
  number_of none = none
  number_of (some (number x)) = some x
  number_of (some (table m)) = none
  number_of (some (other s)) = none

  unfoldable pub table_of : Option (Value F) → Option (Dict String F)
  table_of none = none
  table_of (some (number x)) = none
  table_of (some (table m)) = some m
  table_of (some (other s)) = none

  -- `getattr(cfg, name)` where the code computes with it; another type makes it raise
  unfoldable pub getattr : String → ScannerConfig F → Option F
  unfolding number_of Dict.get
  getattr name cfg = number_of (Dict.get name cfg)

module _ {F : Type 0} (n : Floats F) where
  unfoldable pub ranges : List (String × (F × F))
  ranges =
      ("min_net_profit_usd", (n.lit 0 0, n.lit 1000000 0))
      ∷ ("min_roi_pct", (n.lit 0 0, n.lit 100 0))
      ∷ ("max_gas_pct_of_gross", (n.lit 0 0, n.lit 100 0))
      ∷ ("max_slippage_cex_pct", (n.lit 0 0, n.lit 100 0))
      ∷ ("max_slippage_dex_pct", (n.lit 0 0, n.lit 100 0))
      ∷ ("min_liquidity_cex_usd", (n.lit 0 0, n.lit 1000000000 0))
      ∷ ("min_liquidity_dex_usd", (n.lit 0 0, n.lit 1000000000 0))
      ∷ ("liquidity_ref_p1_usd", (n.lit 1 0, n.lit 1000000000000 0))
      ∷ ("liquidity_ref_p2_usd", (n.lit 1 0, n.lit 1000000000000 0))
      ∷ ("liquidity_ref_p3_usd", (n.lit 1 0, n.lit 1000000000000 0))
      ∷ ("cex_taker_fee_default", (n.lit 0 0, n.lit 5 2))
      ∷ ("liquidity_score_floor", (n.lit 0 0, n.lit 100 0))
      ∷ ("confidence_threshold", (n.lit 0 0, n.lit 100 0))
      ∷ ("rank_top_min", (n.lit 0 0, n.lit 100 0))
      ∷ ("rank_high_min", (n.lit 0 0, n.lit 100 0))
      ∷ ("rank_medium_min", (n.lit 0 0, n.lit 100 0))
      ∷ ("significant_profit_change_pct", (n.lit 0 0, n.lit 1000 0))
      ∷ ("warmup_samples", (n.lit 1 0, n.lit 100 0))
      ∷ ("reconciliation_interval_sec", (n.lit 1 1, n.lit 60 0))
      ∷ ("max_bridge_time_sec", (n.lit 1 0, n.lit 86400 0))
      ∷ ("fast_bridge_threshold_sec", (n.lit 1 0, n.lit 86400 0))
      ∷ ("detector_cost_amortization_usd", (n.lit 1 0, n.lit 1000000000000 0))
      ∷ ("detector_gas_estimate_usd", (n.lit 0 0, n.lit 1000000 0))
      ∷ ("reconciliation_cadence_funding_sec", (n.lit 0 0, n.lit 60 0))
      ∷ ("reconciliation_cadence_cex_cex_sec", (n.lit 0 0, n.lit 60 0))
      ∷ ("reconciliation_cadence_cex_dex_sec", (n.lit 0 0, n.lit 60 0))
      ∷ ("reconciliation_cadence_dex_dex_sec", (n.lit 0 0, n.lit 120 0))
      ∷ ("reconciliation_cadence_cross_chain_sec", (n.lit 0 0, n.lit 300 0))
      ∷ ("reconciliation_idle_after_sec", (n.lit 0 0, n.lit 86400 0))
      ∷ ("reconciliation_idle_backoff", (n.lit 1 0, n.lit 100 0))
      ∷ []

  -- `lo <= val <= hi`
  unfoldable pub is_within : F → F → Option F → Bool
  is_within lo hi none = false
  is_within lo hi (some x) = n.le lo x && n.le x hi

  unfoldable pub in_ranges : List (String × (F × F)) → ScannerConfig F → Bool
  unfolding is_within getattr
  in_ranges [] cfg = true
  in_ranges ((name, (lo, hi)) ∷ rs) cfg = is_within lo hi (getattr name cfg) && in_ranges rs cfg

  -- a test of two attributes
  unfoldable pub both : (F → F → Bool) → Option F → Option F → Bool
  both p (some x) (some y) = p x y
  both p none y = false
  both p (some x) none = false

  unfoldable pub rates_sane : Dict String F → Bool
  unfolding is_within
  rates_sane [] = true
  rates_sane ((venue, rate) ∷ m) = is_within (n.lit 0 0) (n.lit 5 2) (some rate) && rates_sane m

  -- a cooldown and a lifetime that are both set: the former is not longer
  unfoldable pub not_longer : F → Option F → Bool
  not_longer cooldown none = true
  not_longer cooldown (some ttl) = n.is_zero cooldown || n.is_zero ttl || not (n.lt ttl cooldown)

  unfoldable pub cooldowns_sane : Dict String F → Dict String F → Bool
  unfolding not_longer Dict.get
  cooldowns_sane [] ttls = true
  cooldowns_sane ((arb_type, cooldown) ∷ m) ttls =
      not_longer cooldown (Dict.get arb_type ttls) && cooldowns_sane m ttls

  unfoldable pub tables_sane : ScannerConfig F → Bool
  unfolding table_of rates_sane cooldowns_sane Dict.get
  tables_sane cfg = elim (table_of (Dict.get "cex_taker_fee_by_venue" cfg)) [
    | none ↦ false
    | some rates ↦ elim (table_of (Dict.get "cooldown_by_type" cfg)) [
      | none ↦ false
      | some cooldowns ↦ elim (table_of (Dict.get "ttl_by_type" cfg)) [
        | none ↦ false
        | some ttls ↦ rates_sane rates && cooldowns_sane cooldowns ttls
      ]
    ]
  ]

  -- `sum(weights)` from a start
  unfoldable pub sum_from : F → List String → ScannerConfig F → Option F
  unfolding getattr
  sum_from total [] cfg = some total
  sum_from total (name ∷ names) cfg = elim (getattr name cfg) [
    | none ↦ none
    | some x ↦ sum_from (n.add total x) names cfg
  ]

  unfoldable pub not_negative : Option F → Bool
  not_negative none = false
  not_negative (some x) = not (n.lt x (n.lit 0 0))

  -- `abs(total - 1.0) <= 1e-6`
  unfoldable pub is_one : Option F → Bool
  is_one none = false
  is_one (some total) = not (n.lt (n.lit 1 6) (n.abs (n.sub total (n.lit 1 0))))

  unfoldable pub validate_config : ScannerConfig F → Bool
  unfolding ranges in_ranges tables_sane both getattr not_negative sum_from is_one
  validate_config cfg =
      in_ranges ranges cfg
      && not_negative (getattr "min_net_profit_usd" cfg)
      && tables_sane cfg
      && both (λ dex cex. not (n.lt dex cex)) (getattr "max_slippage_dex_pct" cfg)
          (getattr "max_slippage_cex_pct" cfg)
      && both (λ low high. n.le low high) (getattr "rank_high_min" cfg) (getattr "rank_top_min" cfg)
      && both (λ low high. n.le low high) (getattr "rank_medium_min" cfg)
          (getattr "rank_high_min" cfg)
      && both (λ off stale. not (n.lt off stale)) (getattr "stale_dex_offline_sec" cfg)
          (getattr "stale_dex_rpc_sec" cfg)
      && is_one
          (sum_from (n.lit 0 0) ("w_profit" ∷ "w_liquidity" ∷ "w_confidence" ∷ "w_risk" ∷ []) cfg)
      && is_one (
          sum_from (n.lit 0 0)
            ("f_price_freshness" ∷ "f_liquidity" ∷ "f_spread_stability" ∷ "f_exchange_health"
              ∷ "f_historical_reliability" ∷ "f_data_completeness" ∷ [])
            cfg)
      && is_one (sum_from (n.lit 0 0) ("lw_depth" ∷ "lw_balance" ∷ "lw_stability" ∷ []) cfg)
