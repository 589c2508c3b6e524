-- ===== src/Scanner/Validation/Monotone.antt =====
-- The gates of src/scanner/validation/validator.py against better candidates and looser settings.
use atlasarb.Prelude.{ℕ, ◌≤◌, String, true, false, Option, none, some, ◌≡◌, string_eq}
use atlasarb.Scanner.Numbers.{Numbers}
use atlasarb.Scanner.Validation.{Limits, ValidationContext}
use atlasarb.Scanner.Validation.Gates.{Listed, IsOpen}

-- What the validator takes from the orders of decimals and floats: `lt b a ≡ false` says that `a` is at most
-- `b`, and this is transitive, also with what lies below.
pub record IsOrdered {D F : Type 0} (n : Numbers D F) : Type 0 where
  pub le_trans : (a b c : D) → n.lt b a ≡ false → n.lt c b ≡ false → n.lt c a ≡ false
  pub lt_le : (a b c : D) → n.lt a b ≡ true → n.lt c b ≡ false → n.lt a c ≡ true
  pub float_le_trans :
      (a b c : F) → n.float_lt b a ≡ false → n.float_lt c b ≡ false → n.float_lt c a ≡ false

-- The second bridge takes no longer, where its time is known.
abbrev pub NoSlower : Option ℕ → Option ℕ → Type 0
NoSlower s none = Unit {0}
NoSlower none (some t) = ⊥
NoSlower (some s) (some t) = t ≤ s

module _ {D F : Type 0} (n : Numbers D F) where
  -- `a` is at most `b`
  abbrev pub AtMost : D → D → Type 0
  AtMost a b = n.lt b a ≡ false

  -- No limit of `d` is stricter than that of `c`.
  pub record IsLooser (c d : Limits F) : Type 0 where
    pub implausible :
        AtMost (n.of_float c.implausible_spread_pct) (n.of_float d.implausible_spread_pct)
    pub bridge_time : c.max_bridge_time_sec ≤ d.max_bridge_time_sec
    pub net : AtMost (n.of_float d.min_net_profit_usd) (n.of_float c.min_net_profit_usd)
    pub roi : AtMost (n.of_float d.min_roi_pct) (n.of_float c.min_roi_pct)
    pub cex : AtMost (n.of_float d.min_liquidity_cex_usd) (n.of_float c.min_liquidity_cex_usd)
    pub dex : AtMost (n.of_float d.min_liquidity_dex_usd) (n.of_float c.min_liquidity_dex_usd)
    pub score : AtMost (n.of_float d.liquidity_score_floor) (n.of_float c.liquidity_score_floor)
    pub tradeable :
        AtMost (n.of_float d.min_tradeable_size_usd) (n.of_float c.min_tradeable_size_usd)
    pub gas : AtMost (n.of_float c.max_gas_pct_of_gross) (n.of_float d.max_gas_pct_of_gross)
    pub confidence : d.confidence_threshold ≤ c.confidence_threshold

  -- the share of gas in the gross profit, in percent
  abbrev pub gas_share : ValidationContext D F → D
  gas_share x = n.mul (n.div x.gas_fee_usd x.gross_profit_usd) (n.dec 100)

  -- `y` is at least as good a candidate as `x` in each respect: more profit, liquidity, size and confidence,
  -- less of a spread, fresher data, a lower share of gas, no bridge that `x` does not need or a slower one, more
  -- fees resolved, and verified, warm and on open venues if `x` is.
  pub record IsAsGood (x y : ValidationContext D F) : Type 0 where
    pub spread : AtMost y.breakdown.gross_spread_pct x.breakdown.gross_spread_pct
    pub verified : x.token_verified ≡ true → y.token_verified ≡ true
    pub crosses : y.is_cross_chain ≡ true → x.is_cross_chain ≡ true
    pub routed : x.has_bridge_route ≡ true → y.has_bridge_route ≡ true
    pub bridge : NoSlower x.bridge_time_sec y.bridge_time_sec
    pub net : AtMost x.breakdown.net_profit_usd y.breakdown.net_profit_usd
    pub roi : AtMost x.breakdown.roi_pct y.breakdown.roi_pct
    pub same_floor : y.venue_type_for_floor ≡ x.venue_type_for_floor
    pub liquidity : AtMost x.liquidity_usd y.liquidity_usd
    pub score : AtMost x.liquidity_score y.liquidity_score
    pub recommended : AtMost x.sizing.recommended_size_usd y.sizing.recommended_size_usd
    pub position :
        AtMost x.sizing.max_recommended_position_usd y.sizing.max_recommended_position_usd
    pub resolved :
        (f : String)
        → Listed f x.breakdown.resolved_categories
        → Listed f y.breakdown.resolved_categories
    pub gross : n.lt (n.dec 0) y.gross_profit_usd ≡ true → n.lt (n.dec 0) x.gross_profit_usd ≡ true
    pub gas : AtMost (gas_share y) (gas_share x)
    pub warm : x.warmed_up ≡ true → y.warmed_up ≡ true
    pub fresher : n.float_lt x.max_data_staleness_sec y.max_data_staleness_sec ≡ false
    pub allowed : n.float_lt y.max_allowed_staleness_sec x.max_allowed_staleness_sec ≡ false
    pub buy_open : IsOpen x.buy_status → IsOpen y.buy_status
    pub sell_open : IsOpen x.sell_status → IsOpen y.sell_status
    pub confidence : x.confidence_score ≤ y.confidence_score
