-- ===== src/Scanner/Cadence.antt =====
-- DetectorReconciliationCadence of src/scanner/reconciliation/cadence.py: which detectors the safety net runs
-- again on a pass. Times and cadences are ticks; the factor of the backoff is a natural number.
use atlasarb.Prelude.{
  ℕ, ◌+◌, ◌*◌, max, String, Bool, true, false, not, ◌&&◌, ◌||◌, Option, none, some, List, [], ◌∷◌,
  if◌then◌else◌, ◌==◌, leb, ltb, nat_eq,
}
use atlasarb.Prelude.Dict
use atlasarb.Prelude.Dict.{Dict}
use atlasarb.Signals.{ArbitrageType, cex_cex, cex_dex, dex_dex, funding, cross_chain, arb_eq}
pub mod Passes
pub mod Examples

pub record CadenceConfig : Type 0 where
  pub funding_cadence : ℕ
  pub cex_cex_cadence : ℕ
  pub cex_dex_cadence : ℕ
  pub dex_dex_cadence : ℕ
  pub cross_chain_cadence : ℕ
  pub idle_after : ℕ
  pub idle_backoff : ℕ

-- The dictionaries are keyed by every type from the start. A detector that was never reconciled has `none`,
-- for minus infinity.
pub record Cadence : Type 0 where
  pub base : Dict ArbitrageType ℕ
  pub idle_after : ℕ
  pub idle_backoff : ℕ
  pub last_reconciled : Dict ArbitrageType (Option ℕ)
  pub last_publish : Dict ArbitrageType ℕ

abbrev pub bases : CadenceConfig → Dict ArbitrageType ℕ
bases c =
    (funding, c.funding_cadence)
    ∷ (cex_cex, c.cex_cex_cadence)
    ∷ (cex_dex, c.cex_dex_cadence)
    ∷ (dex_dex, c.dex_dex_cadence)
    ∷ (cross_chain, c.cross_chain_cadence)
    ∷ []

-- `{a: v for a in self._base}`
unfoldable pub for_each : {V : Type 0} → V → Dict ArbitrageType ℕ → Dict ArbitrageType V
for_each v [] = []
for_each v ((a, _) ∷ m) = (a, v) ∷ for_each v m

unfoldable pub new_cadence : CadenceConfig → ℕ → Cadence
unfolding for_each
new_cadence c start_now = record {
  base = bases c;
  idle_after = c.idle_after;
  idle_backoff = max 1 c.idle_backoff;
  last_reconciled = for_each none (bases c);
  last_publish = for_each start_now (bases c);
}

unfoldable pub configure : CadenceConfig → Cadence → Cadence
configure c s = record s {
  base = bases c;
  idle_after = c.idle_after;
  idle_backoff = max 1 c.idle_backoff;
}

unfoldable pub base_of : ArbitrageType → Cadence → ℕ
unfolding Dict.get
base_of arb s = elim (Dict.get arb s.base) [ none ↦ 0 | some b ↦ b ]

-- no publication for as long as `idle_after`; a type without an entry counts as just published
unfoldable pub is_idle : ArbitrageType → ℕ → Cadence → Bool
unfolding Dict.get
is_idle arb now s = elim (Dict.get arb s.last_publish) [
  | none ↦ ltb 0 s.idle_after && leb (now + s.idle_after) now
  | some t ↦ ltb 0 s.idle_after && leb (t + s.idle_after) now
]

unfoldable pub effective_cadence : ArbitrageType → ℕ → Cadence → ℕ
unfolding base_of is_idle
effective_cadence arb now s =
    if is_idle arb now s then base_of arb s * s.idle_backoff else base_of arb s

-- the time of the last reconciliation; `none` for minus infinity
unfoldable pub reconciled_at : ArbitrageType → Cadence → Option ℕ
unfolding Dict.get
reconciled_at arb s = elim (Dict.get arb s.last_reconciled) [ none ↦ none | some t ↦ t ]

-- `elapsed >= cadence`, where the time since minus infinity exceeds every cadence
unfoldable pub has_elapsed : ℕ → ℕ → Option ℕ → Bool
has_elapsed now cadence none = true
has_elapsed now cadence (some t) = leb (t + cadence) now

unfoldable pub is_due : ArbitrageType → ℕ → ℕ → Cadence → Bool
unfolding effective_cadence reconciled_at has_elapsed
is_due arb base now s =
    if base == 0 then true else has_elapsed now (effective_cadence arb now s) (reconciled_at arb s)

unfoldable pub due_among : Dict ArbitrageType ℕ → ℕ → Cadence → List ArbitrageType
unfolding is_due
due_among [] now s = []
due_among ((arb, base) ∷ m) now s =
    let rest = due_among m now s in if is_due arb base now s then arb ∷ rest else rest

unfoldable pub due_detectors : ℕ → Cadence → List ArbitrageType
unfolding due_among
due_detectors now s = due_among s.base now s

unfoldable pub mark_each :
    List ArbitrageType → ℕ → Dict ArbitrageType (Option ℕ) → Dict ArbitrageType (Option ℕ)
unfolding Dict.put
mark_each [] now m = m
mark_each (arb ∷ arbs) now m = mark_each arbs now (Dict.put arb (some now) m)

unfoldable pub mark_reconciled : List ArbitrageType → ℕ → Cadence → Cadence
unfolding mark_each
mark_reconciled arbs now s = record s { last_reconciled = mark_each arbs now s.last_reconciled }

unfoldable pub mark_publish : ArbitrageType → ℕ → Cadence → Cadence
unfolding Dict.has Dict.put
mark_publish arb now s =
    if Dict.has arb s.last_publish
    then record s { last_publish = Dict.put arb now s.last_publish }
    else s
