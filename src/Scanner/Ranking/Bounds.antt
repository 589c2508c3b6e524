-- ===== src/Scanner/Ranking/Bounds.antt =====
-- The bounds of src/scanner/ranking/confidence.py and of the classification of risk, over what Python
-- promises of the order of decimals.
use atlasarb.Prelude.{ℕ, ◌≤◌, true, false, ◌≡◌, arith}
use atlasarb.Scanner.Numbers.{Numbers, min_dec, max_dec, clamped}
use atlasarb.Signals.{cross_chain, arb_eq, high_risk}
use atlasarb.Scanner.Ranking.{
  Weights, ConfidenceInputs, FundingLegQuality, RiskInputs, confidence, funding_confidence,
  risk_points, type_points, classify_risk,
}

-- The order of finite decimals, and `int`, which drops the part behind the point.
pub record IsOrdered {D F : Type 0} (n : Numbers D F) : Type 0 where
  pub irreflexive : (a : D) → n.lt a a ≡ false
  pub asymmetric : (a b : D) → n.lt a b ≡ true → n.lt b a ≡ false
  pub literals : (j k : ℕ) → j ≤ k → n.lt (n.dec k) (n.dec j) ≡ false
  pub whole : (k : ℕ) (d : D) → n.lt (n.dec k) d ≡ false → n.truncated d ≤ k
  pub raised :
      (j k : ℕ) (d : D)
      → j ≤ k
      → n.lt d (n.dec 0) ≡ false
      → n.lt (n.add (n.dec k) d) (n.dec j) ≡ false

module _ {D F : Type 0} (n : Numbers D F) (ordered : IsOrdered n) where
  -- A clamped decimal is neither below 0 nor above 100.
  pub clamped_within :
      (d : D) → (n.lt (clamped n d) (n.dec 0) ≡ false) × (n.lt (n.dec 100) (clamped n d) ≡ false)
  unfolding clamped min_dec max_dec
  clamped_within d = ground (
    arith,
    ordered.irreflexive (n.dec 0),
    ordered.irreflexive (n.dec 100),
    ordered.asymmetric (n.dec 0) d,
    ordered.asymmetric d (n.dec 100),
    ordered.asymmetric (n.dec 0) (n.dec 100),
    ordered.literals 0 100 (omega arith),
  )

  clamped-le : (d : D) → n.truncated (clamped n d) ≤ 100
  clamped-le d = ordered.whole 100 (clamped n d) (clamped_within d).1

  -- Where decimals are ordered as numbers are, the confidence of a spot candidate and that of a
  -- funding candidate are at most 100, whatever the settings and the data of the legs.
  pub confidence_bounds :
      (c : Weights F) (i : ConfidenceInputs D) (a b : FundingLegQuality D F)
      → (confidence n c i ≤ 100) × (funding_confidence n a b ≤ 100)
  unfolding confidence funding_confidence
  confidence_bounds c i a b = (clamped-le _, clamped-le _)

  -- Where decimals are ordered as numbers are, a candidate whose points of penalty reach 45 is of high
  -- risk; so is each cross-chain candidate. The penalty of its venue must not be negative.
  pub classify_risk_high :
      (i : RiskInputs D)
      → n.lt i.venue_risk_penalty (n.dec 0) ≡ false
      → 45 ≤ risk_points n i
      → classify_risk n i ≡ high_risk
  unfolding classify_risk
  classify_risk_high i paid many =
      ground (arith, ordered.raised 45 (risk_points n i) i.venue_risk_penalty many paid)

  pub cross_chain_points : (i : RiskInputs D) → i.arb_type ≡ cross_chain → 45 ≤ risk_points n i
  unfolding risk_points type_points
  cross_chain_points i e = rw e (omega arith)
