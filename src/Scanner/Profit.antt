-- ===== src/Scanner/Profit.antt =====
-- ProfitEngine of src/scanner/profit/engine.py with src/scanner/profit/models.py: the profit of a trade at a size
-- after every fee, and the choice of the size.
use atlasarb.Prelude.{
  String, Bool, true, false, not, ◌&&◌, ◌||◌, Option, none, some, List, [], ◌∷◌, ◌++◌, filter,
  is_some, if◌then◌else◌, ◌==◌, string_eq,
}
use atlasarb.Scanner.Numbers.{Numbers, min_dec, max_dec}
use atlasarb.Scanner.Validation.{ProfitBreakdown, SizingProfile}
use atlasarb.Scanner.Fills.{is_above_zero, is_truthy}
use atlasarb.Scanner.Legs.{LiquidityLeg, truthy, or_default}
pub mod Resolved
pub mod Largest
pub mod Sizing
pub mod Examples

pub record FeeInputs (D : Type 0) : Type 0 where
  pub buy_fee_rate : Option D
  pub sell_fee_rate : Option D
  pub withdrawal_fee_usd : Option D
  pub gas_fee_usd : Option D
  pub bridge_fee_usd : Option D
  pub conversion_cost_bps : D
  pub requires_withdrawal : Bool
  pub requires_gas : Bool
  pub requires_bridge : Bool

-- the settings that the engine reads
pub record SizingConfig (F : Type 0) : Type 0 where
  pub max_slippage_cex_pct : F
  pub max_slippage_dex_pct : F
  pub min_roi_pct : F
  pub min_net_profit_usd : F

unfoldable pub max_slippage_pct : {F : Type 0} → SizingConfig F → String → F
max_slippage_pct c venue_type =
    if venue_type == "DEX" then c.max_slippage_dex_pct else c.max_slippage_cex_pct

-- the category if the fee is resolved
unfoldable pub category : Bool → String → List String
category b name = if b then name ∷ [] else []

unfoldable pub resolved_categories : {D : Type 0} → FeeInputs D → List String
unfolding category
resolved_categories f =
    category (is_some f.buy_fee_rate && is_some f.sell_fee_rate) "trading"
    ++ category (not f.requires_withdrawal || is_some f.withdrawal_fee_usd) "withdrawal"
    ++ category (not f.requires_gas || is_some f.gas_fee_usd) "gas"
    ++ category (not f.requires_bridge || is_some f.bridge_fee_usd) "bridge"
    ++ "slippage" ∷ []

module _ {D F : Type 0} (n : Numbers D F) where
  -- the breakdown once both fills are known
  unfoldable pub breakdown_of : D → D → D → D → D → D → D → FeeInputs D → ProfitBreakdown D
  unfolding max_dec min_dec or_default is_truthy resolved_categories
  breakdown_of size_usd buy_best sell_best buy_fill sell_fill buy_pool_fee sell_pool_fee fees =
      let base_size = n.div size_usd buy_fill in
      let gross = n.mul base_size (n.sub sell_best buy_best) in
      let buy_slip = max_dec n (n.dec 0) (n.mul (n.sub buy_fill buy_best) base_size) in
      let sell_slip = max_dec n (n.dec 0) (n.mul (n.sub sell_best sell_fill) base_size) in
      let execution_cost = n.add buy_slip sell_slip in
      let rate_fees =
        n.add (n.mul size_usd (or_default n (n.dec 0) fees.buy_fee_rate))
          (n.mul (n.mul base_size sell_fill) (or_default n (n.dec 0) fees.sell_fee_rate)) in
      let withdrawal = or_default n (n.dec 0) fees.withdrawal_fee_usd in
      let gas = or_default n (n.dec 0) fees.gas_fee_usd in
      let bridge = or_default n (n.dec 0) fees.bridge_fee_usd in
      let conversion = n.div (n.mul size_usd fees.conversion_cost_bps) (n.dec 10000) in
      let net =
        n.sub
          (n.sub (n.sub (n.sub (n.sub (n.sub gross rate_fees) withdrawal) gas) bridge)
            execution_cost)
          conversion in
      let pool_fees = n.add (min_dec n buy_pool_fee buy_slip) (min_dec n sell_pool_fee sell_slip) in
      let share =
        if is_truthy n size_usd then n.mul (n.div net size_usd) (n.dec 100) else n.dec 0 in
      record {
        size_usd = size_usd;
        gross_profit_usd = gross;
        trading_fees_usd = n.add rate_fees pool_fees;
        withdrawal_fees_usd = withdrawal;
        gas_fees_usd = gas;
        bridge_fees_usd = bridge;
        slippage_cost_usd = n.sub execution_cost pool_fees;
        conversion_cost_usd = conversion;
        net_profit_usd = net;
        roi_pct = share;
        gross_spread_pct =
            if is_truthy n buy_best
            then n.mul (n.div (n.sub sell_best buy_best) buy_best) (n.dec 100)
            else n.dec 0;
        net_profit_pct = share;
        resolved_categories = resolved_categories fees;
      }

  -- both fills of a size, the sell leg sized to the coins that were bought
  unfoldable pub filled_at :
      D → D → D → LiquidityLeg D → LiquidityLeg D → FeeInputs D → Option (ProfitBreakdown D)
  unfolding is_above_zero breakdown_of
  filled_at size_usd buy_best sell_best buy_leg sell_leg fees = elim (buy_leg.fill_price size_usd) [
    | none ↦ none
    | some buy_fill ↦
        let sell_notional = n.mul (n.div size_usd buy_fill) sell_best in
        if not (is_above_zero n buy_fill) then none else elim (sell_leg.fill_price sell_notional) [
          | none ↦ none
          | some sell_fill ↦ some (
              breakdown_of size_usd buy_best sell_best buy_fill sell_fill
                (buy_leg.pool_fee_cost_usd size_usd) (sell_leg.pool_fee_cost_usd sell_notional)
                fees)
        ]
  ]

  unfoldable pub compute_at_size :
      D → LiquidityLeg D → LiquidityLeg D → FeeInputs D → Option (ProfitBreakdown D)
  unfolding truthy is_above_zero filled_at
  compute_at_size size_usd buy_leg sell_leg fees = elim (truthy n buy_leg.best_price) [
    | none ↦ none
    | some buy_best ↦ elim (truthy n sell_leg.best_price) [
      | none ↦ none
      | some sell_best ↦
          if not (is_above_zero n buy_best) || not (is_above_zero n size_usd)
          then none
          else filled_at size_usd buy_best sell_best buy_leg sell_leg fees
    ]
  ]

  -- a fraction of the saturation, in percent, and the size
  unfoldable pub portion : D → D → D × D
  portion saturation p = (n.div p (n.dec 100), n.mul saturation (n.div p (n.dec 100)))

  -- the sizes of the sweep: 25, 50, 75 and 100 percent of the saturation
  unfoldable pub sweep : D → List (D × D)
  unfolding portion
  sweep saturation =
      portion saturation (n.dec 25)
      ∷ portion saturation (n.dec 50)
      ∷ portion saturation (n.dec 75)
      ∷ portion saturation (n.dec 100)
      ∷ []

  unfoldable pub swept :
      List (D × D)
      → LiquidityLeg D
      → LiquidityLeg D
      → FeeInputs D
      → List (ProfitBreakdown D) × List (D × D)
  unfolding compute_at_size
  swept [] buy_leg sell_leg fees = ([], [])
  swept ((frac, size) ∷ ss) buy_leg sell_leg fees =
      let rest = swept ss buy_leg sell_leg fees in
      elim (compute_at_size size buy_leg sell_leg fees) [
        | none ↦ (rest.0, (n.mul frac (n.dec 100), n.dec 0) ∷ rest.1)
        | some bd ↦ (bd ∷ rest.0, (n.mul frac (n.dec 100), bd.roi_pct) ∷ rest.1)
      ]

  -- `max` by a key, the first of equal ones
  unfoldable pub largest_by :
      (ProfitBreakdown D → D) → ProfitBreakdown D → List (ProfitBreakdown D) → ProfitBreakdown D
  largest_by key b [] = b
  largest_by key b (x ∷ xs) = largest_by key (if n.lt (key b) (key x) then x else b) xs

  -- the most profitable of the eligible ones, or else of all
  unfoldable pub preferred :
      List (ProfitBreakdown D) → ProfitBreakdown D → List (ProfitBreakdown D) → ProfitBreakdown D
  unfolding largest_by
  preferred [] b bs = largest_by (λ x. x.net_profit_usd) b bs
  preferred (x ∷ xs) b bs = largest_by (λ x. x.net_profit_usd) x xs

  unfoldable pub recommended_of :
      D → ProfitBreakdown D → List (ProfitBreakdown D) → ProfitBreakdown D
  unfolding filter preferred
  recommended_of min_roi b bs = preferred (filter (λ x. not (n.lt x.roi_pct min_roi)) (b ∷ bs)) b bs

  unfoldable pub max_position : D → ProfitBreakdown D → List (ProfitBreakdown D) → D
  unfolding filter largest_by
  max_position min_profit recommended bs =
      elim (filter (λ x. not (n.lt x.net_profit_usd min_profit)) bs) [
        | [] ↦ recommended.size_usd
        | x ∷ xs ↦ (largest_by (λ x. x.size_usd) x xs).size_usd
      ]

  unfoldable pub chosen_size :
      SizingConfig F
      → D
      → List (ProfitBreakdown D)
      → List (D × D)
      → Option (ProfitBreakdown D × SizingProfile D)
  unfolding recommended_of max_position
  chosen_size c saturation [] decay = none
  chosen_size c saturation (b ∷ bs) decay =
      let recommended = recommended_of (n.of_float c.min_roi_pct) b bs in
      some (
        recommended,
        record {
          recommended_size_usd = recommended.size_usd;
          max_capital_utilization_usd = saturation;
          max_recommended_position_usd =
              max_position (n.of_float c.min_net_profit_usd) recommended (b ∷ bs);
          liquidity_saturation_usd = saturation;
          profit_decay = decay;
        },
      )

  unfoldable pub saturation_of :
      SizingConfig F → LiquidityLeg D → LiquidityLeg D → String → String → D
  unfolding min_dec max_slippage_pct
  saturation_of c buy_leg sell_leg buy_type sell_type =
      min_dec n (buy_leg.max_size_usd (n.of_float (max_slippage_pct c buy_type)))
        (sell_leg.max_size_usd (n.of_float (max_slippage_pct c sell_type)))

  unfoldable pub optimize :
      SizingConfig F
      → LiquidityLeg D
      → LiquidityLeg D
      → FeeInputs D
      → String
      → String
      → Option (ProfitBreakdown D × SizingProfile D)
  unfolding saturation_of is_above_zero swept sweep chosen_size
  optimize c buy_leg sell_leg fees buy_type sell_type =
      let saturation = saturation_of c buy_leg sell_leg buy_type sell_type in
      let found = swept (sweep saturation) buy_leg sell_leg fees in
      if not (is_above_zero n saturation) then none else chosen_size c saturation found.0 found.1
