-- ===== src/Scanner/Ranking/Tiers.antt =====
-- The hard overrides of assign_tier in src/scanner/ranking/ranker.py: no score can outweigh them.
use atlasarb.Prelude.{
  ℕ, ◌≤◌, ◌<◌, true, false, Option, none, some, ◌≡◌, ◌≢◌, ◌⊎◌, inl, inr, refl, arith, ==_iff,
}
use atlasarb.Scanner.Numbers.{Numbers}
use atlasarb.Signals.{cross_chain, arb_eq, RankingLevel, top, level_eq, level_number}
use atlasarb.Scanner.Ranking.{Weights, RankInputs, tier_of, is_fast, assign_tier}

-- The transfer over the bridge takes less than the limit for the first tier.
abbrev pub IsFast : ℕ → Option ℕ → Type 0
IsFast limit none = ⊥
IsFast limit (some t) = t < limit

is_fast-IsFast : (limit : ℕ) (t : Option ℕ) → IsFast limit t → is_fast limit t ≡ true
unfolding is_fast
is_fast-IsFast limit none h = absurd h
is_fast-IsFast limit (some t) h = ground arith

slow-IsFast : (limit : ℕ) (t : Option ℕ) → ¬ IsFast limit t → is_fast limit t ≡ false
unfolding is_fast
slow-IsFast limit none h = refl
slow-IsFast limit (some t) h = ground arith

-- How the tier of a score is capped; the first tier has number 0, the last number 3.
pub record Capped {D F : Type 0} (n : Numbers D F) (c : Weights F) (score : F) (i : RankInputs D)
    (tier : RankingLevel) : Type 0 where
  pub never_raised : level_number (tier_of n c score) ≤ level_number tier
  pub cold : i.warmed_up ≡ false → 2 ≤ level_number tier
  pub slow :
      i.arb_type ≡ cross_chain → ¬ IsFast c.fast_bridge_threshold_sec i.bridge_time_sec → tier ≢ top
  pub kept :
      i.warmed_up ≡ true
      → (i.arb_type ≢ cross_chain) ⊎ IsFast c.fast_bridge_threshold_sec i.bridge_time_sec
      → tier ≡ tier_of n c score

-- The tier is never better than the thresholds give it: a market that is not warmed up gets the third
-- tier at best, a cross-chain signal without a fast bridge is never first, and else the thresholds hold.
pub assign_tier-Capped :
    {D F : Type 0} (n : Numbers D F) (c : Weights F) (score : F) (i : RankInputs D)
    → Capped n c score i (assign_tier n c score i)
unfolding assign_tier
assign_tier-Capped n c score i =
    let chain = ==_iff i.arb_type cross_chain in
    let quick = is_fast-IsFast c.fast_bridge_threshold_sec i.bridge_time_sec in
    let late = slow-IsFast c.fast_bridge_threshold_sec i.bridge_time_sec in
    record {
      never_raised = ground arith;
      cold = λ w. ground arith;
      slow = λ e b t. ground (arith, chain, late b);
      kept = λ w k. elim k [
        | inl other ↦ ground (arith, chain)
        | inr fast ↦ ground (arith, quick fast)
      ];
    }
