-- ===== src/Scanner/Profit/Resolved.antt =====
-- No fee is assumed to be nothing: between src/scanner/profit/engine.py and src/scanner/validation/validator.py
-- a candidate passes only if each fee that its trade needs was resolved.
use atlasarb.Prelude.{
  Bool, true, false, not, ◌&&◌, ◌||◌, Option, none, some, [], ◌∷◌, ◌++◌, ◌≡◌, refl, ap, sym, subst,
  arith, if◌then◌else◌, is_some, any, string_eq,
}
use atlasarb.Scanner.Numbers.{Numbers}
use atlasarb.Scanner.Validation.{
  Limits, ProfitBreakdown, ValidationContext, passed, required_fees, is_subset, validate,
}
use atlasarb.Scanner.Validation.Gates.{validate_iff, is_subset-Listed}
use atlasarb.Scanner.Fills.{is_above_zero}
use atlasarb.Scanner.Legs.{LiquidityLeg, truthy}
use atlasarb.Scanner.Profit.{
  FeeInputs, category, resolved_categories, breakdown_of, filled_at, compute_at_size,
}

-- Each fee that the trade needs is known.
abbrev pub IsResolved : {D : Type 0} → FeeInputs D → Type 0
IsResolved f =
    (is_some f.buy_fee_rate && is_some f.sell_fee_rate ≡ true)
    × (not f.requires_withdrawal || is_some f.withdrawal_fee_usd ≡ true)
    × (not f.requires_gas || is_some f.gas_fee_usd ≡ true)
    × (not f.requires_bridge || is_some f.bridge_fee_usd ≡ true)

categories-subset :
    (b1 b2 b3 b4 : Bool)
    → is_subset required_fees (
        category b1 "trading"
        ++ category b2 "withdrawal"
        ++ category b3 "gas"
        ++ category b4 "bridge"
        ++ "slippage" ∷ [])
      ≡ true
    → (b1 ≡ true) × (b2 ≡ true) × (b3 ≡ true) × (b4 ≡ true)
unfolding category is_subset any
categories-subset true true true true h = (refl, refl, refl, refl)
categories-subset true true true false h = absurd (ground arith)
categories-subset true true false true h = absurd (ground arith)
categories-subset true true false false h = absurd (ground arith)
categories-subset true false true true h = absurd (ground arith)
categories-subset true false true false h = absurd (ground arith)
categories-subset true false false true h = absurd (ground arith)
categories-subset true false false false h = absurd (ground arith)
categories-subset false true true true h = absurd (ground arith)
categories-subset false true true false h = absurd (ground arith)
categories-subset false true false true h = absurd (ground arith)
categories-subset false true false false h = absurd (ground arith)
categories-subset false false true true h = absurd (ground arith)
categories-subset false false true false h = absurd (ground arith)
categories-subset false false false true h = absurd (ground arith)
categories-subset false false false false h = absurd (ground arith)

module _ {D F : Type 0} (n : Numbers D F) where
  -- The categories of a breakdown are those of the fees.
  abbrev Keeps : FeeInputs D → Option (ProfitBreakdown D) → Type 0
  Keeps fees o =
      (b : ProfitBreakdown D) → o ≡ some b → b.resolved_categories ≡ resolved_categories fees

  none-Keeps : (fees : FeeInputs D) → Keeps fees none
  none-Keeps fees b h = absurd (ground arith)

  bind-Keeps :
      (fees : FeeInputs D) (o : Option D) (f : D → Option (ProfitBreakdown D))
      → ((x : D) → Keeps fees (f x))
      → Keeps fees (elim o [ none ↦ none | some x ↦ f x ])
  bind-Keeps fees none f h = none-Keeps fees
  bind-Keeps fees (some x) f h = h x

  if-Keeps :
      (fees : FeeInputs D) (b : Bool) (o : Option (ProfitBreakdown D))
      → Keeps fees o
      → Keeps fees (if b then none else o)
  if-Keeps fees true o h = none-Keeps fees
  if-Keeps fees false o h = h

  breakdown-Keeps :
      (size buy_best sell_best buy_fill sell_fill p q : D) (fees : FeeInputs D)
      → Keeps fees (some (breakdown_of n size buy_best sell_best buy_fill sell_fill p q fees))
  unfolding breakdown_of
  breakdown-Keeps size buy_best sell_best buy_fill sell_fill p q fees b h =
      ap (λ o. elim o [ none ↦ resolved_categories fees | some x ↦ x.resolved_categories ]) (sym h)

  filled-Keeps :
      (size buy_best sell_best : D) (buy_leg sell_leg : LiquidityLeg D) (fees : FeeInputs D)
      → Keeps fees (filled_at n size buy_best sell_best buy_leg sell_leg fees)
  unfolding filled_at
  filled-Keeps size buy_best sell_best buy_leg sell_leg fees =
      bind-Keeps fees (buy_leg.fill_price size) _ (λ buy_fill.
        if-Keeps fees (not (is_above_zero n buy_fill)) _ (
          bind-Keeps fees (sell_leg.fill_price (n.mul (n.div size buy_fill) sell_best)) _
            (λ sell_fill.
              breakdown-Keeps size buy_best sell_best buy_fill sell_fill
                (buy_leg.pool_fee_cost_usd size)
                (sell_leg.pool_fee_cost_usd (n.mul (n.div size buy_fill) sell_best)) fees)))

  compute-Keeps :
      (size : D) (buy_leg sell_leg : LiquidityLeg D) (fees : FeeInputs D)
      → Keeps fees (compute_at_size n size buy_leg sell_leg fees)
  unfolding compute_at_size
  compute-Keeps size buy_leg sell_leg fees =
      bind-Keeps fees (truthy n buy_leg.best_price) _ (λ buy_best.
        bind-Keeps fees (truthy n sell_leg.best_price) _ (λ sell_best.
          if-Keeps fees (not (is_above_zero n buy_best) || not (is_above_zero n size)) _
            (filled-Keeps size buy_best sell_best buy_leg sell_leg fees)))

  -- When the validator passes a candidate whose breakdown the engine computed, each fee that the trade needs was
  -- resolved; an unresolved one, which the engine counts as nothing, makes the validator reject.
  pub passed-IsResolved :
      (c : Limits F) (x : ValidationContext D F) (size : D) (buy_leg sell_leg : LiquidityLeg D)
      (fees : FeeInputs D)
      → compute_at_size n size buy_leg sell_leg fees ≡ some x.breakdown
      → validate n c x ≡ passed
      → IsResolved fees
  unfolding resolved_categories
  passed-IsResolved c x size buy_leg sell_leg fees computed pass =
      let met = (validate_iff n c x).0 pass in
      let known =
        (is_subset-Listed required_fees x.breakdown.resolved_categories).1 met.fees_known in
      let same = compute-Keeps size buy_leg sell_leg fees x.breakdown computed in
      categories-subset (is_some fees.buy_fee_rate && is_some fees.sell_fee_rate)
        (not fees.requires_withdrawal || is_some fees.withdrawal_fee_usd)
        (not fees.requires_gas || is_some fees.gas_fee_usd)
        (not fees.requires_bridge || is_some fees.bridge_fee_usd)
        (subst (λ cs. is_subset required_fees cs ≡ true) same known)
