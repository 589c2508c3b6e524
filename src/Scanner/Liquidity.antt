-- ===== src/Scanner/Liquidity.antt =====
-- LiquidityAnalyzer of src/scanner/liquidity/analyzer.py: the depth that both legs of a trade have within their
-- tolerances, and its score.
use atlasarb.Prelude.{String, Option, none, some, if◌then◌else◌}
use atlasarb.Scanner.Numbers.{Numbers, min_dec, max_dec}
use atlasarb.Scanner.Statistics.{normalize_scale}
use atlasarb.Scanner.Fills.{is_above_zero}
use atlasarb.Scanner.Legs.{LiquidityLeg}
use atlasarb.Scanner.Profit.{SizingConfig, max_slippage_pct}

-- the weights of the score
pub record LiquidityWeights (F : Type 0) : Type 0 where
  pub lw_depth : F
  pub lw_balance : F
  pub lw_stability : F

module _ {D F : Type 0} (n : Numbers D F) (c : SizingConfig F) where
  unfoldable pub leg_liquidity : LiquidityLeg D → String → D
  unfolding max_slippage_pct
  leg_liquidity leg venue_type = leg.liquidity_usd (n.of_float (max_slippage_pct c venue_type))

  unfoldable pub executable_liquidity : LiquidityLeg D → LiquidityLeg D → String → String → D
  unfolding leg_liquidity min_dec
  executable_liquidity buy_leg sell_leg buy_type sell_type =
      min_dec n (leg_liquidity buy_leg buy_type) (leg_liquidity sell_leg sell_type)

  -- 100 for legs of one depth, less for unequal ones
  unfoldable pub balance_score : D → D → D
  unfolding is_above_zero
  balance_score buy_liq sell_liq =
      let total = n.add buy_liq sell_liq in
      if is_above_zero n total
      then n.mul (n.sub (n.dec 1) (n.div (n.abs (n.sub buy_liq sell_liq)) total)) (n.dec 100)
      else n.dec 0

  -- the score of a depth and a balance, without and with a measure of the stability
  unfoldable pub weighted_score : LiquidityWeights F → D → D → Option D → D
  unfolding is_above_zero max_dec
  weighted_score w depth balance none =
      let known = n.add (n.of_float w.lw_depth) (n.of_float w.lw_balance) in
      if is_above_zero n known
      then n.div
          (n.add (n.mul (n.of_float w.lw_depth) depth) (n.mul (n.of_float w.lw_balance) balance))
          known
      else n.dec 0
  weighted_score w depth balance (some dispersion) =
      n.add (n.add (n.mul (n.of_float w.lw_depth) depth) (n.mul (n.of_float w.lw_balance) balance))
        (n.mul (n.of_float w.lw_stability)
          (max_dec n (n.dec 0) (n.sub (n.dec 100) (n.mul dispersion (n.dec 2)))))

  unfoldable pub liquidity_score :
      LiquidityWeights F → LiquidityLeg D → LiquidityLeg D → String → String → D → Option D → D
  unfolding leg_liquidity executable_liquidity normalize_scale balance_score weighted_score
  liquidity_score w buy_leg sell_leg buy_type sell_type reference dispersion =
      weighted_score w
        (normalize_scale n (executable_liquidity buy_leg sell_leg buy_type sell_type) reference)
        (balance_score (leg_liquidity buy_leg buy_type) (leg_liquidity sell_leg sell_type))
        dispersion
