-- ===== src/Scanner/Ranking/Examples.antt =====
-- Tests and concrete instances of the theorems about confidence, risk and tiers.
use atlasarb.Prelude.{ℕ, ◌≤◌, true, false, none, some, [], ◌∷◌, ◌≡◌, refl, arith}
use atlasarb.Signals.{cross_chain, cex_dex, high_risk, medium_risk, high, medium, top}
use atlasarb.Scanner.Validation.Examples.{whole_numbers}
use atlasarb.Scanner.Ranking.{
  Weights, ConfidenceInputs, FundingLegQuality, RiskInputs, RankInputs, confidence,
  funding_confidence, classify_risk, assign_tier,
}
use atlasarb.Scanner.Ranking.Bounds.{
  IsOrdered, confidence_bounds, classify_risk_high, cross_chain_points,
}

abbrev weights : Weights ℕ
weights = record {
  f_price_freshness = 1;
  f_liquidity = 1;
  f_spread_stability = 0;
  f_exchange_health = 0;
  f_historical_reliability = 0;
  f_data_completeness = 0;
  w_profit = 1;
  w_liquidity = 0;
  w_confidence = 0;
  w_risk = 0;
  rank_top_min = 80;
  rank_high_min = 60;
  rank_medium_min = 40;
  fast_bridge_threshold_sec = 120;
}

whole_numbers-IsOrdered : IsOrdered whole_numbers
whole_numbers-IsOrdered = record {
  irreflexive = λ a. ground arith;
  asymmetric = λ a b h. ground arith;
  literals = λ j k h. ground arith;
  whole = λ k d h. ground arith;
  raised = λ j k d h p. ground arith;
}

abbrev inputs : ConfidenceInputs ℕ
inputs = record {
  price_freshness = 90;
  liquidity_score = 40;
  spread_stability = 50;
  exchange_health = 100;
  historical_reliability = 60;
  data_completeness = 100;
}

abbrev leg : FundingLegQuality ℕ ℕ
leg = record {
  age_sec = 3;
  max_age_sec = 60;
  exchange_health = 90;
  history = 2 ∷ 2 ∷ 3 ∷ [];
  has_predicted = true;
  has_next_time = false;
}

-- A sum of 130 is cut to 100.
confidence_cut : confidence whole_numbers weights inputs ≡ 100
unfolding confidence
confidence_cut = refl

scores_bounded :
    (confidence whole_numbers weights inputs ≤ 100)
    × (funding_confidence whole_numbers leg leg ≤ 100)
scores_bounded = confidence_bounds whole_numbers whole_numbers-IsOrdered weights inputs leg leg

abbrev route : RiskInputs ℕ
route = record {
  arb_type = cross_chain;
  liquidity_usd = 9000;
  liquidity_floor = 1000;
  cross_network_transfer = true;
  bridge_time_sec = some 600;
  atomic_execution = false;
  venue_risk_penalty = 0;
  price_source_count = 9;
}

cross_chain_risk : classify_risk whole_numbers route ≡ high_risk
cross_chain_risk =
    classify_risk_high whole_numbers whole_numbers-IsOrdered route refl
      (cross_chain_points whole_numbers whole_numbers-IsOrdered route refl)

-- A transfer between networks without a bridge, on a deep market, is of medium risk.
transfer_risk :
    classify_risk whole_numbers (record route { arb_type = cex_dex; bridge_time_sec = none })
    ≡ medium_risk
unfolding classify_risk
transfer_risk = refl

abbrev ranked_inputs : RankInputs ℕ
ranked_inputs = record {
  net_profit_usd = 400;
  profit_reference_usd = 500;
  liquidity_score = 40;
  confidence_score = 90;
  risk = high_risk;
  arb_type = cross_chain;
  bridge_time_sec = some 600;
  warmed_up = true;
  funding_projected_profit = none;
}

slow_bridge : assign_tier whole_numbers weights 90 ranked_inputs ≡ high
unfolding assign_tier
slow_bridge = refl

cold_market :
    assign_tier whole_numbers weights 90 (record ranked_inputs { warmed_up = false }) ≡ medium
unfolding assign_tier
cold_market = refl

fast_bridge :
    assign_tier whole_numbers weights 90 (record ranked_inputs { bridge_time_sec = some 60 }) ≡ top
unfolding assign_tier
fast_bridge = refl
