-- ===== src/Scanner/Validation/Gates.antt =====
-- What the verdicts of src/scanner/validation/validator.py mean: the requirements on a candidate, each
-- stated on the candidate alone, against the chain of gates with its early returns.
use atlasarb.Prelude.{
  ℕ, ◌≤◌, ◌<◌, String, Bool, true, false, not, ◌&&◌, ◌||◌, Option, none, some, List, [], ◌∷◌, ◌≡◌,
  ◌↔◌, ◌⊎◌, inl, inr, refl, arith, if◌then◌else◌, ◌==◌, string_eq, ltb, ltb→lt, subst, any, All,
  ==_iff,
}
use atlasarb.Scanner.Numbers.{Numbers}
use atlasarb.Scanner.Health.{ExchangeStatus, online, degraded, venue_status_eq}
use atlasarb.Scanner.Validation.{
  RejectReason, below_min_profit, insufficient_liquidity, unprofitable_after_fees, risk_too_high,
  stale_data, exchange_not_online, low_confidence, implausible_spread, unverified_token,
  no_bridge_route, bridge_time_exceeded, gas_exceeds_limit, not_warmed_up, missing_fee_data,
  no_viable_size, signal_allowed, Limits, min_liquidity_usd, ValidationContext, ValidationResult,
  passed, rejected, required_fees, is_subset, exceeds, is_under, gas_exceeds, validate,
}

-- `s` is one of the texts.
abbrev pub Listed : String → List String → Type 0
Listed s [] = ⊥
Listed s (x ∷ xs) = (x ≡ s) ⊎ Listed s xs

any-Listed : (s : String) (xs : List String) → (any (λ y. y == s) xs ≡ true) ↔ Listed s xs
unfolding any
any-Listed s [] = (λ h. absurd cc, λ h. absurd h)
any-Listed s (x ∷ xs) = (
  λ h. ground (arith, any-Listed s xs, ==_iff x s),
  λ h. ground (arith, any-Listed s xs, ==_iff x s),
)

pub is_subset-Listed : (xs ys : List String) → (is_subset xs ys ≡ true) ↔ All (λ x. Listed x ys) xs
unfolding is_subset
is_subset-Listed [] ys = (λ h. tt, λ h. refl)
is_subset-Listed (x ∷ xs) ys = (
  λ h. ground (arith, any-Listed x ys, is_subset-Listed xs ys),
  λ h. ground (arith, any-Listed x ys, is_subset-Listed xs ys),
)

-- A venue on which signals are allowed.
abbrev pub IsOpen : ExchangeStatus → Type 0
IsOpen s = (s ≡ online) ⊎ (s ≡ degraded)

signal_allowed-IsOpen : (s : ExchangeStatus) → (signal_allowed s ≡ true) ↔ IsOpen s
unfolding signal_allowed
signal_allowed-IsOpen s = (
  λ h. ground (arith, ==_iff s online, ==_iff s degraded),
  λ h. ground (arith, ==_iff s online, ==_iff s degraded),
)

-- The time of the bridge, where it is known.
abbrev pub IsQuick : ℕ → Option ℕ → Type 0
IsQuick limit none = Unit
IsQuick limit (some t) = t ≤ limit

exceeds-IsQuick : (limit : ℕ) (t : Option ℕ) → (exceeds limit t ≡ false) ↔ IsQuick limit t
unfolding exceeds
exceeds-IsQuick limit none = (λ h. tt, λ h. refl)
exceeds-IsQuick limit (some t) = (λ h. ground arith, λ h. ground arith)

-- What a candidate has to meet. `lt a b ≡ false` says that `a` is at least `b`.
pub record Meets {D F : Type 0} (n : Numbers D F) (c : Limits F) (x : ValidationContext D F)
    : Type 0 where
  pub plausible : n.lt (n.of_float c.implausible_spread_pct) x.breakdown.gross_spread_pct ≡ false
  pub verified : x.token_verified ≡ true
  pub routed : x.is_cross_chain ≡ true → x.has_bridge_route ≡ true
  pub quick : x.is_cross_chain ≡ true → IsQuick c.max_bridge_time_sec x.bridge_time_sec
  pub net_enough : n.lt x.breakdown.net_profit_usd (n.of_float c.min_net_profit_usd) ≡ false
  pub roi_enough : n.lt x.breakdown.roi_pct (n.of_float c.min_roi_pct) ≡ false
  pub liquid :
      n.lt x.liquidity_usd (
        n.of_float (
          if x.venue_type_for_floor == "DEX"
          then c.min_liquidity_dex_usd
          else c.min_liquidity_cex_usd))
      ≡ false
  pub deep : n.lt x.liquidity_score (n.of_float c.liquidity_score_floor) ≡ false
  pub tradeable : n.lt x.sizing.recommended_size_usd (n.of_float c.min_tradeable_size_usd) ≡ false
  pub viable :
      n.lt x.sizing.max_recommended_position_usd (n.of_float c.min_tradeable_size_usd) ≡ false
  pub fees_known : All (λ f. Listed f x.breakdown.resolved_categories) required_fees
  pub profitable : n.lt (n.dec 0) x.breakdown.net_profit_usd ≡ true
  pub gas_bounded :
      n.lt (n.dec 0) x.gross_profit_usd ≡ true
      → n.lt
          (n.of_float c.max_gas_pct_of_gross)
          (n.mul (n.div x.gas_fee_usd x.gross_profit_usd) (n.dec 100))
        ≡ false
  pub warm : x.warmed_up ≡ true
  pub fresh : n.float_lt x.max_allowed_staleness_sec x.max_data_staleness_sec ≡ false
  pub buy_open : IsOpen x.buy_status
  pub sell_open : IsOpen x.sell_status
  pub confident : c.confidence_threshold ≤ x.confidence_score

module _ {D F : Type 0} (n : Numbers D F) (c : Limits F) (x : ValidationContext D F) where
  Meets-passed : Meets n c x → validate n c x ≡ passed
  unfolding validate is_under gas_exceeds min_liquidity_usd
  Meets-passed m = ground (
    arith,
    is_subset-Listed required_fees x.breakdown.resolved_categories,
    signal_allowed-IsOpen x.buy_status,
    signal_allowed-IsOpen x.sell_status,
    exceeds-IsQuick c.max_bridge_time_sec x.bridge_time_sec,
    m.plausible,
    m.verified,
    m.routed,
    m.quick,
    m.net_enough,
    m.roi_enough,
    m.liquid,
    m.deep,
    m.tradeable,
    m.viable,
    m.fees_known,
    m.profitable,
    m.gas_bounded,
    m.warm,
    m.fresh,
    m.buy_open,
    m.sell_open,
    m.confident,
  )

  gate-passed :
      (b : Bool) (r : RejectReason) (v : ValidationResult)
      → (if b then rejected r else v) ≡ passed
      → (b ≡ false) × (v ≡ passed)
  gate-passed true r v h = absurd (ground arith)
  gate-passed false r v h = (refl, h)

  passed-Meets : validate n c x ≡ passed → Meets n c x
  unfolding validate is_under gas_exceeds min_liquidity_usd
  passed-Meets h =
      let (plausible, h0) =
        gate-passed (n.lt (n.of_float c.implausible_spread_pct) x.breakdown.gross_spread_pct) _ _
          h in
      let (verified, h1) = gate-passed (not x.token_verified) _ _ h0 in
      let (routed, h2) = gate-passed (x.is_cross_chain && not x.has_bridge_route) _ _ h1 in
      let (quick, h3) =
        gate-passed (x.is_cross_chain && exceeds c.max_bridge_time_sec x.bridge_time_sec) _ _ h2 in
      let (profit, h4) =
        gate-passed
          (is_under n c x.breakdown.net_profit_usd c.min_net_profit_usd
            || is_under n c x.breakdown.roi_pct c.min_roi_pct)
          _ _ h3 in
      let (liquid, h5) =
        gate-passed (is_under n c x.liquidity_usd (min_liquidity_usd c x.venue_type_for_floor)) _ _
          h4 in
      let (deep, h6) =
        gate-passed (is_under n c x.liquidity_score c.liquidity_score_floor) _ _ h5 in
      let (tradeable, h7) =
        gate-passed (is_under n c x.sizing.recommended_size_usd c.min_tradeable_size_usd) _ _ h6 in
      let (viable, h8) =
        gate-passed (is_under n c x.sizing.max_recommended_position_usd c.min_tradeable_size_usd) _
          _ h7 in
      let (fees, h9) =
        gate-passed (not (is_subset required_fees x.breakdown.resolved_categories)) _ _ h8 in
      let (net, h10) = gate-passed (not (n.lt (n.dec 0) x.breakdown.net_profit_usd)) _ _ h9 in
      let (gas, h11) = gate-passed (gas_exceeds n c x) _ _ h10 in
      let (warm, h12) = gate-passed (not x.warmed_up) _ _ h11 in
      let (fresh, h13) =
        gate-passed (n.float_lt x.max_allowed_staleness_sec x.max_data_staleness_sec) _ _ h12 in
      let (opened, h14) =
        gate-passed (not (signal_allowed x.buy_status && signal_allowed x.sell_status)) _ _ h13 in
      let (confident, h15) = gate-passed (ltb x.confidence_score c.confidence_threshold) _ _ h14 in
      record {
        plausible = plausible;
        verified = ground arith;
        routed = λ r. ground arith;
        quick = λ r. (exceeds-IsQuick c.max_bridge_time_sec x.bridge_time_sec).0 (ground arith);
        net_enough = ground arith;
        roi_enough = ground arith;
        liquid = liquid;
        deep = deep;
        tradeable = tradeable;
        viable = viable;
        fees_known =
            (is_subset-Listed required_fees x.breakdown.resolved_categories).0 (ground arith);
        profitable = ground arith;
        gas_bounded = λ g. ground arith;
        warm = ground arith;
        fresh = fresh;
        buy_open = (signal_allowed-IsOpen x.buy_status).0 (ground arith);
        sell_open = (signal_allowed-IsOpen x.sell_status).0 (ground arith);
        confident = ground arith;
      }

  -- A candidate passes exactly if it meets every requirement.
  pub validate_iff : (validate n c x ≡ passed) ↔ Meets n c x
  validate_iff = (passed-Meets, Meets-passed)

-- What each reason says of the candidate; `risk_too_high` is never given.
abbrev pub Broken :
    {D F : Type 0} → Numbers D F → Limits F → ValidationContext D F → RejectReason → Type 0
Broken n c x below_min_profit =
    (n.lt x.breakdown.net_profit_usd (n.of_float c.min_net_profit_usd) ≡ true)
    ⊎ (n.lt x.breakdown.roi_pct (n.of_float c.min_roi_pct) ≡ true)
Broken n c x insufficient_liquidity =
    (n.lt x.liquidity_usd (n.of_float (min_liquidity_usd c x.venue_type_for_floor)) ≡ true)
    ⊎ (n.lt x.liquidity_score (n.of_float c.liquidity_score_floor) ≡ true)
    ⊎ (n.lt x.sizing.recommended_size_usd (n.of_float c.min_tradeable_size_usd) ≡ true)
Broken n c x unprofitable_after_fees = n.lt (n.dec 0) x.breakdown.net_profit_usd ≡ false
Broken n c x risk_too_high = ⊥
Broken n c x stale_data = n.float_lt x.max_allowed_staleness_sec x.max_data_staleness_sec ≡ true
Broken n c x exchange_not_online = ¬ (IsOpen x.buy_status × IsOpen x.sell_status)
Broken n c x low_confidence = x.confidence_score < c.confidence_threshold
Broken n c x implausible_spread =
    n.lt (n.of_float c.implausible_spread_pct) x.breakdown.gross_spread_pct ≡ true
Broken n c x unverified_token = x.token_verified ≡ false
Broken n c x no_bridge_route = (x.is_cross_chain ≡ true) × (x.has_bridge_route ≡ false)
Broken n c x bridge_time_exceeded =
    (x.is_cross_chain ≡ true) × ¬ IsQuick c.max_bridge_time_sec x.bridge_time_sec
Broken n c x gas_exceeds_limit =
    (n.lt (n.dec 0) x.gross_profit_usd ≡ true)
    × (n.lt (n.of_float c.max_gas_pct_of_gross)
          (n.mul (n.div x.gas_fee_usd x.gross_profit_usd) (n.dec 100))
        ≡ true)
Broken n c x not_warmed_up = x.warmed_up ≡ false
Broken n c x missing_fee_data = ¬ All (λ f. Listed f x.breakdown.resolved_categories) required_fees
Broken n c x no_viable_size =
    n.lt x.sizing.max_recommended_position_usd (n.of_float c.min_tradeable_size_usd) ≡ true

module _ {D F : Type 0} (n : Numbers D F) (c : Limits F) (x : ValidationContext D F) where
  -- A verdict that rejects only with a reason that is true of the candidate.
  abbrev Honest : ValidationResult → Type 0
  Honest v = (r : RejectReason) → v ≡ rejected r → Broken n c x r

  gate-Honest :
      (b : Bool) (r : RejectReason) (v : ValidationResult)
      → (b ≡ true → Broken n c x r)
      → Honest v
      → Honest (if b then rejected r else v)
  gate-Honest true r v broken rest s h = subst (Broken n c x) (cc) (broken refl)
  gate-Honest false r v broken rest s h = rest s h

  passed-Honest : Honest passed
  passed-Honest r h = absurd (ground arith)

  -- The reason of a rejection is true of the candidate.
  pub validate-Broken : (r : RejectReason) → validate n c x ≡ rejected r → Broken n c x r
  unfolding validate is_under gas_exceeds
  validate-Broken =
      (gate-Honest (n.lt (n.of_float c.implausible_spread_pct) x.breakdown.gross_spread_pct)
        implausible_spread _ (λ b. b)
        (gate-Honest (not x.token_verified) unverified_token _ (λ b. ground arith)
          (gate-Honest (x.is_cross_chain && not x.has_bridge_route) no_bridge_route _
            (λ b. ground arith)
            (gate-Honest (x.is_cross_chain && exceeds c.max_bridge_time_sec x.bridge_time_sec)
              bridge_time_exceeded _
              (λ b. ground (arith, exceeds-IsQuick c.max_bridge_time_sec x.bridge_time_sec))
              (gate-Honest
                (is_under n c x.breakdown.net_profit_usd c.min_net_profit_usd
                  || is_under n c x.breakdown.roi_pct c.min_roi_pct)
                below_min_profit _ (λ b. ground arith)
                (gate-Honest
                  (is_under n c x.liquidity_usd (min_liquidity_usd c x.venue_type_for_floor))
                  insufficient_liquidity _ (λ b. inl b)
                  (gate-Honest (is_under n c x.liquidity_score c.liquidity_score_floor)
                    insufficient_liquidity _ (λ b. inr (inl b))
                    (gate-Honest
                      (is_under n c x.sizing.recommended_size_usd c.min_tradeable_size_usd)
                      insufficient_liquidity _ (λ b. inr (inr b))
                      (gate-Honest
                        (is_under n c x.sizing.max_recommended_position_usd
                          c.min_tradeable_size_usd)
                        no_viable_size _ (λ b. b)
                        (gate-Honest (not (is_subset required_fees x.breakdown.resolved_categories))
                          missing_fee_data _
                          (λ b a.
                            ground (
                              arith,
                              is_subset-Listed required_fees x.breakdown.resolved_categories,
                            ))
                          (gate-Honest (not (n.lt (n.dec 0) x.breakdown.net_profit_usd))
                            unprofitable_after_fees _ (λ b. ground arith)
                            (gate-Honest (gas_exceeds n c x) gas_exceeds_limit _ (λ b. ground arith)
                              (gate-Honest (not x.warmed_up) not_warmed_up _ (λ b. ground arith)
                                (gate-Honest
                                  (n.float_lt x.max_allowed_staleness_sec x.max_data_staleness_sec)
                                  stale_data _ (λ b. b)
                                  (gate-Honest
                                    (not
                                      (signal_allowed x.buy_status && signal_allowed x.sell_status))
                                    exchange_not_online _
                                    (λ b o. ground (
                                      arith,
                                      signal_allowed-IsOpen x.buy_status,
                                      signal_allowed-IsOpen x.sell_status,
                                    ))
                                    (gate-Honest (ltb x.confidence_score c.confidence_threshold)
                                      low_confidence _ (λ b. ltb→lt _ _ b)
                                      passed-Honest))))))))))))))))
