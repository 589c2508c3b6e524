-- ===== src/Scanner/Ranking.antt =====
-- Confidence, risk and rank of a candidate: src/scanner/ranking/confidence.py and
-- src/scanner/ranking/ranker.py.
use atlasarb.Prelude.{
  ℕ, ◌+◌, Bool, true, false, not, ◌&&◌, ◌||◌, Option, none, some, List, [], ◌∷◌, map, if◌then◌else◌,
  ◌==◌, ltb, length,
}
use atlasarb.Scanner.Numbers.{Numbers, min_dec, max_dec, clamped}
use atlasarb.Scanner.Statistics.{robust_median, mad, normalize_scale}
use atlasarb.Signals.{
  ArbitrageType, cex_dex, dex_dex, funding, cross_chain, arb_eq, RiskScore, low_risk, medium_risk,
  high_risk, RankingLevel, top, high, medium, low, level_eq,
}
pub mod Bounds
pub mod Tiers
pub mod Examples

-- the weights and thresholds of ScannerConfig that are read here
pub record Weights (F : Type 0) : Type 0 where
  pub f_price_freshness : F
  pub f_liquidity : F
  pub f_spread_stability : F
  pub f_exchange_health : F
  pub f_historical_reliability : F
  pub f_data_completeness : F
  pub w_profit : F
  pub w_liquidity : F
  pub w_confidence : F
  pub w_risk : F
  pub rank_top_min : F
  pub rank_high_min : F
  pub rank_medium_min : F
  pub fast_bridge_threshold_sec : ℕ

pub record ConfidenceInputs (D : Type 0) : Type 0 where
  pub price_freshness : D
  pub liquidity_score : D
  pub spread_stability : D
  pub exchange_health : D
  pub historical_reliability : D
  pub data_completeness : D

pub record FundingLegQuality (D F : Type 0) : Type 0 where
  pub age_sec : F
  pub max_age_sec : F
  pub exchange_health : D
  pub history : List D
  pub has_predicted : Bool
  pub has_next_time : Bool

pub record RiskInputs (D : Type 0) : Type 0 where
  pub arb_type : ArbitrageType
  pub liquidity_usd : D
  pub liquidity_floor : D
  pub cross_network_transfer : Bool
  pub bridge_time_sec : Option ℕ
  pub atomic_execution : Bool
  pub venue_risk_penalty : D
  pub price_source_count : ℕ

pub record RankInputs (D : Type 0) : Type 0 where
  pub net_profit_usd : D
  pub profit_reference_usd : D
  pub liquidity_score : D
  pub confidence_score : D
  pub risk : RiskScore
  pub arb_type : ArbitrageType
  pub bridge_time_sec : Option ℕ
  pub warmed_up : Bool
  pub funding_projected_profit : Option D

module _ {D F : Type 0} (n : Numbers D F) where
  -- `Decimal(str(w)) * d`
  unfoldable pub weighted : F → D → D
  weighted w d = n.mul (n.of_float w) d

  -- ConfidenceScorer.score
  unfoldable pub confidence : Weights F → ConfidenceInputs D → ℕ
  unfolding weighted clamped
  confidence c i = n.truncated (
      clamped n (
        n.add
          (n.add
            (n.add
              (n.add
                (n.add (weighted c.f_price_freshness i.price_freshness)
                  (weighted c.f_liquidity i.liquidity_score))
                (weighted c.f_spread_stability i.spread_stability))
              (weighted c.f_exchange_health i.exchange_health))
            (weighted c.f_historical_reliability i.historical_reliability))
          (weighted c.f_data_completeness i.data_completeness)))

  -- `1 - d` of a share, in percent
  unfoldable pub rest_of_share : D → D
  rest_of_share d = n.mul (n.sub (n.dec 1) d) (n.dec 100)

  -- `min(max(age, 0.0), max_age)` of floats
  unfoldable pub clamped_age : F → F → F
  clamped_age age max_age =
      let aged = if n.float_lt age (n.float 0) then n.float 0 else age in
      if n.float_lt max_age aged then max_age else aged

  unfoldable pub freshness_score : F → F → D
  unfolding clamped_age rest_of_share
  freshness_score age max_age =
      if n.float_le max_age (n.float 0)
      then n.dec 100
      else rest_of_share (n.div (n.of_float (clamped_age age max_age)) (n.of_float max_age))

  -- `max((abs(v) for v in history), default=Decimal(0))`, the first of equal ones
  unfoldable pub largest : D → List D → D
  unfolding max_dec
  largest m [] = m
  largest m (v ∷ history) = largest (max_dec n m (n.abs v)) history

  unfoldable pub largest_abs : List D → D
  unfolding largest
  largest_abs [] = n.dec 0
  largest_abs (v ∷ history) = largest (n.abs v) history

  -- the volatility scale of the funding rates: the median, or the largest rate
  unfoldable pub rate_scale : List D → D → D
  unfolding largest_abs
  rate_scale history med = if n.same med (n.dec 0) then largest_abs history else n.abs med

  unfoldable pub stability_score : List D → D
  unfolding robust_median mad rate_scale max_dec min_dec
  stability_score history =
      if ltb (length history) 3
      then n.dec 50
      else (let med = robust_median n history in
          let scale = rate_scale history med in
          if n.same scale (n.dec 0)
          then n.dec 100
          else n.mul
              (max_dec n (n.dec 0)
                (n.sub (n.dec 1) (min_dec n (n.div (mad n history med) scale) (n.dec 1))))
              (n.dec 100))

  -- how many of the four inputs of a leg are there
  unfoldable pub inputs_present : FundingLegQuality D F → ℕ
  inputs_present q = 2 + (if q.has_predicted then 1 else 0) + (if q.has_next_time then 1 else 0)

  unfoldable pub completeness : FundingLegQuality D F → D
  unfolding inputs_present
  completeness q = n.mul (n.div (n.dec (inputs_present q)) (n.dec 4)) (n.dec 100)

  -- the constants _FW_FRESHNESS, _FW_STABILITY, _FW_RELIABILITY and _FW_COMPLETENESS
  unfoldable pub percent : ℕ → D
  percent p = n.div (n.dec p) (n.dec 100)

  -- the score of `funding_confidence`; the breakdown that it returns too is for the log
  unfoldable pub funding_confidence : FundingLegQuality D F → FundingLegQuality D F → ℕ
  unfolding min_dec freshness_score stability_score completeness percent clamped
  funding_confidence a b =
      let freshness =
        min_dec n (freshness_score a.age_sec a.max_age_sec)
          (freshness_score b.age_sec b.max_age_sec) in
      let stability = min_dec n (stability_score a.history) (stability_score b.history) in
      let reliability = min_dec n a.exchange_health b.exchange_health in
      let complete = min_dec n (completeness a) (completeness b) in
      n.truncated (
        clamped n (
          n.add
            (n.add (n.add (n.mul (percent 30) freshness) (n.mul (percent 25) stability))
              (n.mul (percent 25) reliability))
            (n.mul (percent 20) complete)))

  -- the penalties of whole points; a bridge time of 0 counts as none
  unfoldable pub type_points : ArbitrageType → Bool → ℕ
  type_points t atomic =
      if t == cross_chain
      then 45
      else if t == cex_dex
      then 20
      else if (t == dex_dex) && not atomic
      then 25
      else 0

  unfoldable pub bridge_points : Option ℕ → ℕ
  bridge_points none = 0
  bridge_points (some t) = if ltb 300 t then 15 else 0

  unfoldable pub is_thin : RiskInputs D → Bool
  is_thin i =
      n.lt (n.dec 0) i.liquidity_floor && n.lt i.liquidity_usd (n.mul i.liquidity_floor (n.dec 2))

  unfoldable pub risk_points : RiskInputs D → ℕ
  unfolding type_points bridge_points is_thin
  risk_points i =
      type_points i.arb_type i.atomic_execution
      + (if i.cross_network_transfer then 15 else 0)
      + bridge_points i.bridge_time_sec
      + (if is_thin i then 20 else 0)
      + (if ltb i.price_source_count 2 then 10 else 0)

  unfoldable pub classify_risk : RiskInputs D → RiskScore
  unfolding risk_points
  classify_risk i =
      let penalty = n.add (n.dec (risk_points i)) i.venue_risk_penalty in
      if not (n.lt penalty (n.dec 45))
      then high_risk
      else if not (n.lt penalty (n.dec 20))
      then medium_risk
      else low_risk

  unfoldable pub risk_penalty_value : RiskScore → D
  risk_penalty_value low_risk = n.dec 10
  risk_penalty_value medium_risk = n.dec 40
  risk_penalty_value high_risk = n.dec 80

  unfoldable pub profit_basis : RankInputs D → D
  profit_basis i =
      if i.arb_type == funding
      then elim i.funding_projected_profit [ none ↦ i.net_profit_usd | some p ↦ p ]
      else i.net_profit_usd

  -- the sum before it is clamped
  unfoldable pub raw_score : Weights F → RankInputs D → D
  unfolding profit_basis normalize_scale risk_penalty_value weighted
  raw_score c i =
      n.add
        (n.add
          (n.add (weighted c.w_profit (normalize_scale n (profit_basis i) i.profit_reference_usd))
            (weighted c.w_liquidity i.liquidity_score))
          (weighted c.w_confidence i.confidence_score))
        (weighted c.w_risk (n.sub (n.dec 100) (risk_penalty_value i.risk)))

  unfoldable pub composite_score : Weights F → RankInputs D → F
  unfolding raw_score clamped
  composite_score c i = n.to_float (clamped n (raw_score c i))

  -- the tier by the thresholds alone
  unfoldable pub tier_of : Weights F → F → RankingLevel
  tier_of c score =
      if n.float_le c.rank_top_min score
      then top
      else if n.float_le c.rank_high_min score
      then high
      else if n.float_le c.rank_medium_min score
      then medium
      else low

-- `t is not None and t < limit`
unfoldable pub is_fast : ℕ → Option ℕ → Bool
is_fast limit none = false
is_fast limit (some t) = ltb t limit

module _ {D F : Type 0} (n : Numbers D F) where
  unfoldable pub assign_tier : Weights F → F → RankInputs D → RankingLevel
  unfolding tier_of is_fast
  assign_tier c score i =
      let tier = tier_of n c score in
      let tier =
        if (i.arb_type == cross_chain)
          && (tier == top)
          && not (is_fast c.fast_bridge_threshold_sec i.bridge_time_sec)
        then high
        else tier in
      if not i.warmed_up && ((tier == top) || (tier == high)) then medium else tier
