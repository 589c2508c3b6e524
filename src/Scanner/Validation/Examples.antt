-- ===== src/Scanner/Validation/Examples.antt =====
-- Tests and concrete instances of the theorems about the gates of the validator.
use atlasarb.Prelude.{
  ℕ, ◌+◌, ◌-◌, ◌*◌, ◌/◌, true, false, none, some, List, [], ◌∷◌, ◌≡◌, refl, ltb, leb, nat_beq,
}
use atlasarb.Scanner.Numbers.{Numbers}
use atlasarb.Scanner.Health.{online, degraded, maintenance}
use atlasarb.Scanner.Validation.{
  exchange_not_online, Limits, ProfitBreakdown, SizingProfile, ValidationContext, rejected,
  validate,
}

abbrev pub first_or_zero : List ℕ → ℕ
first_or_zero [] = 0
first_or_zero (d ∷ ds) = d

-- whole numbers in place of decimals and floats
abbrev pub whole_numbers : Numbers ℕ ℕ
whole_numbers = record {
  dec = λ k. k;
  of_float = λ k. k;
  to_float = λ k. k;
  truncated = λ k. k;
  add = λ a b. a + b;
  sub = λ a b. a - b;
  mul = λ a b. a * b;
  div = λ a b. a / b;
  abs = λ a. a;
  same = nat_beq;
  lt = ltb;
  float_lt = ltb;
  float_le = leb;
  float = λ k. k;
  median = first_or_zero;
}

abbrev pub limits : Limits ℕ
limits = record {
  implausible_spread_pct = 50;
  max_bridge_time_sec = 1800;
  min_net_profit_usd = 5;
  min_roi_pct = 1;
  min_liquidity_cex_usd = 1000;
  min_liquidity_dex_usd = 5000;
  liquidity_score_floor = 30;
  min_tradeable_size_usd = 100;
  max_gas_pct_of_gross = 40;
  confidence_threshold = 60;
}

abbrev pub sample_breakdown : ProfitBreakdown ℕ
sample_breakdown = record {
  size_usd = 1000;
  gross_profit_usd = 20;
  trading_fees_usd = 2;
  withdrawal_fees_usd = 1;
  gas_fees_usd = 3;
  bridge_fees_usd = 1;
  slippage_cost_usd = 1;
  conversion_cost_usd = 0;
  net_profit_usd = 12;
  roi_pct = 2;
  gross_spread_pct = 2;
  net_profit_pct = 1;
  resolved_categories = "slippage" ∷ "trading" ∷ "gas" ∷ "bridge" ∷ "withdrawal" ∷ [];
}

abbrev sample_sizing : SizingProfile ℕ
sample_sizing = record {
  recommended_size_usd = 1000;
  max_capital_utilization_usd = 2000;
  max_recommended_position_usd = 2000;
  liquidity_saturation_usd = 4000;
  profit_decay = [];
}

abbrev pub candidate : ValidationContext ℕ ℕ
candidate = record {
  breakdown = sample_breakdown;
  sizing = sample_sizing;
  liquidity_usd = 6000;
  liquidity_score = 40;
  confidence_score = 70;
  buy_status = online;
  sell_status = degraded;
  max_data_staleness_sec = 3;
  max_allowed_staleness_sec = 10;
  venue_type_for_floor = "DEX";
  token_verified = true;
  warmed_up = true;
  gas_fee_usd = 3;
  gross_profit_usd = 20;
  bridge_time_sec = some 600;
  is_cross_chain = true;
  has_bridge_route = true;
}

abbrev loose : Limits ℕ
loose = record limits { min_net_profit_usd = 4; confidence_threshold = 50 }

-- more confidence, and no bridge to cross
abbrev better : ValidationContext ℕ ℕ
better = record candidate { confidence_score = 80; is_cross_chain = false; bridge_time_sec = none }

abbrev down : ValidationContext ℕ ℕ
down = record candidate { sell_status = maintenance; confidence_score = 10 }

-- The venue is looked at before the confidence.
down_rejected : validate whole_numbers limits down ≡ rejected exchange_not_online
unfolding validate
down_rejected = refl
