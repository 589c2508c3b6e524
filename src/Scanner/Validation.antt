-- ===== src/Scanner/Validation.antt =====
-- SignalValidator of src/scanner/validation/validator.py: the gates that a candidate has to pass before
-- it becomes a signal. The record of limits holds the settings of ScannerConfig that it reads.
use atlasarb.Prelude.{
  ℕ, String, Bool, true, false, not, ◌&&◌, ◌||◌, Option, none, some, List, [], ◌∷◌, if◌then◌else◌,
  ◌==◌, string_eq, ltb, any,
}
use atlasarb.Scanner.Numbers.{Numbers}
use atlasarb.Scanner.Health.{ExchangeStatus, online, degraded, venue_status_eq}
pub mod Gates
pub mod Monotone
pub mod Examples

pub data RejectReason : Type 0 where
  below_min_profit insufficient_liquidity unprofitable_after_fees risk_too_high stale_data :
      RejectReason
  exchange_not_online low_confidence implausible_spread unverified_token no_bridge_route :
      RejectReason
  bridge_time_exceeded gas_exceeds_limit not_warmed_up missing_fee_data no_viable_size :
      RejectReason

-- `signal_allowed`
unfoldable pub signal_allowed : ExchangeStatus → Bool
signal_allowed s = (s == online) || (s == degraded)

pub record Limits (F : Type 0) : Type 0 where
  pub implausible_spread_pct : F
  pub max_bridge_time_sec : ℕ
  pub min_net_profit_usd : F
  pub min_roi_pct : F
  pub min_liquidity_cex_usd : F
  pub min_liquidity_dex_usd : F
  pub liquidity_score_floor : F
  pub min_tradeable_size_usd : F
  pub max_gas_pct_of_gross : F
  pub confidence_threshold : ℕ

unfoldable pub min_liquidity_usd : {F : Type 0} → Limits F → String → F
min_liquidity_usd c venue_type =
    if venue_type == "DEX" then c.min_liquidity_dex_usd else c.min_liquidity_cex_usd

pub record ProfitBreakdown (D : Type 0) : Type 0 where
  pub size_usd : D
  pub gross_profit_usd : D
  pub trading_fees_usd : D
  pub withdrawal_fees_usd : D
  pub gas_fees_usd : D
  pub bridge_fees_usd : D
  pub slippage_cost_usd : D
  pub conversion_cost_usd : D
  pub net_profit_usd : D
  pub roi_pct : D
  pub gross_spread_pct : D
  pub net_profit_pct : D
  pub resolved_categories : List String

pub record SizingProfile (D : Type 0) : Type 0 where
  pub recommended_size_usd : D
  pub max_capital_utilization_usd : D
  pub max_recommended_position_usd : D
  pub liquidity_saturation_usd : D
  pub profit_decay : List (D × D)

pub record ValidationContext (D F : Type 0) : Type 0 where
  pub breakdown : ProfitBreakdown D
  pub sizing : SizingProfile D
  pub liquidity_usd : D
  pub liquidity_score : D
  pub confidence_score : ℕ
  pub buy_status : ExchangeStatus
  pub sell_status : ExchangeStatus
  pub max_data_staleness_sec : F
  pub max_allowed_staleness_sec : F
  pub venue_type_for_floor : String
  pub token_verified : Bool
  pub warmed_up : Bool
  pub gas_fee_usd : D
  pub gross_profit_usd : D
  pub bridge_time_sec : Option ℕ
  pub is_cross_chain : Bool
  pub has_bridge_route : Bool

pub data ValidationResult : Type 0 where
  passed : ValidationResult
  rejected : RejectReason → ValidationResult

-- the set `required` of gate 3
abbrev pub required_fees : List String
required_fees = "trading" ∷ "withdrawal" ∷ "gas" ∷ "bridge" ∷ "slippage" ∷ []

-- `xs.issubset(ys)`
unfoldable pub is_subset : List String → List String → Bool
unfolding any
is_subset [] ys = true
is_subset (x ∷ xs) ys = any (λ y. y == x) ys && is_subset xs ys

-- `t is not None and t > limit`
unfoldable pub exceeds : ℕ → Option ℕ → Bool
exceeds limit none = false
exceeds limit (some t) = ltb limit t

module _ {D F : Type 0} (n : Numbers D F) (c : Limits F) where
  -- `a < Decimal(str(limit))`
  unfoldable pub is_under : D → F → Bool
  is_under a limit = n.lt a (n.of_float limit)

  -- the ceiling on the share of gas in the gross profit
  unfoldable pub gas_exceeds : ValidationContext D F → Bool
  gas_exceeds x =
      n.lt (n.dec 0) x.gross_profit_usd
      && n.lt (n.of_float c.max_gas_pct_of_gross)
          (n.mul (n.div x.gas_fee_usd x.gross_profit_usd) (n.dec 100))

  unfoldable pub validate : ValidationContext D F → ValidationResult
  unfolding is_under gas_exceeds is_subset exceeds min_liquidity_usd signal_allowed
  validate x =
      if n.lt (n.of_float c.implausible_spread_pct) x.breakdown.gross_spread_pct
      then rejected implausible_spread
      else if not x.token_verified
      then rejected unverified_token
      else if x.is_cross_chain && not x.has_bridge_route
      then rejected no_bridge_route
      else if x.is_cross_chain && exceeds c.max_bridge_time_sec x.bridge_time_sec
      then rejected bridge_time_exceeded
      else if is_under x.breakdown.net_profit_usd c.min_net_profit_usd
          || is_under x.breakdown.roi_pct c.min_roi_pct
      then rejected below_min_profit
      else if is_under x.liquidity_usd (min_liquidity_usd c x.venue_type_for_floor)
      then rejected insufficient_liquidity
      else if is_under x.liquidity_score c.liquidity_score_floor
      then rejected insufficient_liquidity
      else if is_under x.sizing.recommended_size_usd c.min_tradeable_size_usd
      then rejected insufficient_liquidity
      else if is_under x.sizing.max_recommended_position_usd c.min_tradeable_size_usd
      then rejected no_viable_size
      else if not (is_subset required_fees x.breakdown.resolved_categories)
      then rejected missing_fee_data
      else if not (n.lt (n.dec 0) x.breakdown.net_profit_usd)
      then rejected unprofitable_after_fees
      else if gas_exceeds x
      then rejected gas_exceeds_limit
      else if not x.warmed_up
      then rejected not_warmed_up
      else if n.float_lt x.max_allowed_staleness_sec x.max_data_staleness_sec
      then rejected stale_data
      else if not (signal_allowed x.buy_status && signal_allowed x.sell_status)
      then rejected exchange_not_online
      else if ltb x.confidence_score c.confidence_threshold
      then rejected low_confidence
      else passed
