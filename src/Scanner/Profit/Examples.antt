-- ===== src/Scanner/Profit/Examples.antt =====
-- Tests and concrete instances of the theorems about the profit engine.
use atlasarb.Prelude.{ℕ, true, false, some, none, [], ◌∷◌, ◌≡◌, refl, arith}
use atlasarb.Scanner.Validation.{
  Limits, ProfitBreakdown, SizingProfile, ValidationContext, passed, validate,
}
use atlasarb.Scanner.Validation.Examples.{whole_numbers, limits, candidate}
use atlasarb.Scanner.Legs.{LiquidityLeg}
use atlasarb.Scanner.Profit.{FeeInputs, SizingConfig, compute_at_size, saturation_of, optimize}
use atlasarb.Scanner.Profit.Resolved.{IsResolved, passed-IsResolved}
use atlasarb.Scanner.Profit.Largest.{IsOrder}
use atlasarb.Scanner.Profit.Sizing.{Recommended, optimize-Recommended}

-- a leg that fills every size at one price
abbrev flat_leg : ℕ → LiquidityLeg ℕ
flat_leg price = record {
  best_price = some price;
  fill_price = λ size. some price;
  max_size_usd = λ tolerance. 1000;
  liquidity_usd = λ tolerance. 1000;
  pool_fee_cost_usd = λ size. 0;
}

abbrev fees : FeeInputs ℕ
fees = record {
  buy_fee_rate = some 0;
  sell_fee_rate = some 0;
  withdrawal_fee_usd = some 5;
  gas_fee_usd = none;
  bridge_fee_usd = none;
  conversion_cost_bps = 0;
  requires_withdrawal = true;
  requires_gas = false;
  requires_bridge = false;
}

-- Ten coins bought at 100 and sold at 300.
abbrev profit : ProfitBreakdown ℕ
profit = record {
  size_usd = 1000;
  gross_profit_usd = 2000;
  trading_fees_usd = 0;
  withdrawal_fees_usd = 5;
  gas_fees_usd = 0;
  bridge_fees_usd = 0;
  slippage_cost_usd = 0;
  conversion_cost_usd = 0;
  net_profit_usd = 1995;
  roi_pct = 100;
  gross_spread_pct = 200;
  net_profit_pct = 100;
  resolved_categories = "trading" ∷ "withdrawal" ∷ "gas" ∷ "bridge" ∷ "slippage" ∷ [];
}

profit_computed :
    compute_at_size whole_numbers 1000 (flat_leg 100) (flat_leg 300) fees ≡ some profit
unfolding compute_at_size
profit_computed = refl

abbrev loose_limits : Limits ℕ
loose_limits = record limits { implausible_spread_pct = 500 }

abbrev trade : ValidationContext ℕ ℕ
trade = record candidate { breakdown = profit }

trade_passes : validate whole_numbers loose_limits trade ≡ passed
unfolding validate
trade_passes = refl

passed-IsResolved_example : IsResolved fees
passed-IsResolved_example =
    passed-IsResolved whole_numbers loose_limits trade 1000 (flat_leg 100) (flat_leg 300) fees
      profit_computed trade_passes

abbrev sizing_config : SizingConfig ℕ
sizing_config = record {
  max_slippage_cex_pct = 1;
  max_slippage_dex_pct = 2;
  min_roi_pct = 1;
  min_net_profit_usd = 5;
}

abbrev profile : SizingProfile ℕ
profile = record {
  recommended_size_usd = 1000;
  max_capital_utilization_usd = 1000;
  max_recommended_position_usd = 1000;
  liquidity_saturation_usd = 1000;
  profit_decay = (0, 0) ∷ (0, 0) ∷ (0, 0) ∷ (100, 100) ∷ [];
}

profile_optimal :
    optimize whole_numbers sizing_config (flat_leg 100) (flat_leg 300) fees "CEX" "CEX"
    ≡ some (profit, profile)
unfolding optimize
profile_optimal = refl

whole_numbers-IsOrder : IsOrder whole_numbers
whole_numbers-IsOrder = record {
  irrefl = λ a. ground arith;
  above = λ a b c below not_above. ground arith;
}

optimize-Recommended_example :
    Recommended whole_numbers whole_numbers-IsOrder
      (flat_leg 100)
      (flat_leg 300)
      fees
      (saturation_of whole_numbers sizing_config (flat_leg 100) (flat_leg 300) "CEX" "CEX")
      1
      (profit, profile)
optimize-Recommended_example =
    optimize-Recommended whole_numbers whole_numbers-IsOrder (flat_leg 100) (flat_leg 300) fees
      sizing_config "CEX" "CEX" (profit, profile) profile_optimal
