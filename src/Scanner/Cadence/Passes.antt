-- ===== src/Scanner/Cadence/Passes.antt =====
-- The bound that src/scanner/reconciliation/cadence.py promises: slowed down or not, each detector is reconciled
-- again within its cadence times the factor of the backoff.
use atlasarb.Prelude.{
  ℕ, zero, suc, ◌+◌, ◌*◌, ◌≤◌, ◌<◌, max, Bool, true, false, Option, some, List, [], ◌∷◌, ◌≡◌, ◌⊎◌,
  ◌∙◌, inl, inr, refl, arith, if◌then◌else◌, ◌==◌, ==_iff, nat_eq, any, Bool-cases, Option-cases,
}
use atlasarb.Prelude.Dict
use atlasarb.Prelude.Dict.{Dict, get-put}
use atlasarb.Signals.{ArbitrageType, arb_eq}
use atlasarb.Scanner.Cadence.{
  CadenceConfig, bases, new_cadence, Cadence, base_of, is_idle, effective_cadence, reconciled_at,
  has_elapsed, is_due, due_among, due_detectors, mark_each, mark_reconciled, mark_publish,
}

-- a pass of the safety net: the detectors that are due run and are marked
unfoldable pub pass_over : ℕ → Cadence → Cadence
unfolding due_detectors mark_reconciled
pass_over now s = mark_reconciled (due_detectors now s) now s

-- What happens to the cadence: a pass, or a publication.
pub data Happening : Type 0 where
  passes : ℕ → Happening
  publishes : ArbitrageType → ℕ → Happening

unfoldable pub happen : Happening → Cadence → Cadence
unfolding pass_over mark_publish
happen (passes now) s = pass_over now s
happen (publishes arb now) s = mark_publish arb now s

unfoldable pub happens : List Happening → Cadence → Cadence
unfolding happen
happens [] s = s
happens (h ∷ hs) s = happens hs (happen h s)

listed : ArbitrageType → List ArbitrageType → Bool
listed arb arbs = any (λ a. a == arb) arbs

get-mark_each :
    (arb : ArbitrageType) (arbs : List ArbitrageType) (now : ℕ) (m : Dict ArbitrageType (Option ℕ))
    → Dict.get arb (mark_each arbs now m)
      ≡ (if listed arb arbs then some (some now) else Dict.get arb m)
unfolding mark_each listed any
get-mark_each arb [] now m = refl
get-mark_each arb (a ∷ arbs) now m =
    ground (arith, get-mark_each arb arbs now (Dict.put a (some now) m), get-put a arb (some now) m)

-- a detector that is due is in the list
due-listed :
    (arb : ArbitrageType) (b : ℕ) (m : Dict ArbitrageType ℕ) (now : ℕ) (s : Cadence)
    → Dict.get arb m ≡ some b
    → listed arb (due_among m now s) ≡ false
    → is_due arb b now s ≡ false
unfolding due_among listed any Dict.get
due-listed arb b [] now s found absent = absurd (ground arith)
due-listed arb b ((a, k) ∷ m) now s found absent = elim (Bool-cases (a == arb)) [
  | inl own ↦ ground (arith, ==_iff a arb)
  | inr other ↦ due-listed arb b m now s (ground arith) (ground arith)
]

le-mul : (a k : ℕ) → 1 ≤ k → a ≤ a * k
le-mul a zero h = absurd (omega arith)
le-mul a (suc k) h = omega arith

effective-le :
    (arb : ArbitrageType) (now : ℕ) (s : Cadence)
    → 1 ≤ s.idle_backoff
    → effective_cadence arb now s ≤ base_of arb s * s.idle_backoff
unfolding effective_cadence
effective-le arb now s h = elim (Bool-cases (is_idle arb now s)) [
  | inl idle ↦ rw (effective_cadence, idle) (omega arith)
  | inr active ↦ rw (effective_cadence, active) (le-mul (base_of arb s) s.idle_backoff h)
]

-- A detector with cadence `b` was reconciled just now, or less than `b` times the factor ago.
abbrev pub IsRecent : ArbitrageType → ℕ → ℕ → Cadence → Type 0
IsRecent arb b now s =
    (reconciled_at arb s ≡ some now)
    ⊎ ((t : ℕ) × (reconciled_at arb s ≡ some t) × (now < t + b * s.idle_backoff))

base_found :
    (arb : ArbitrageType) (b : ℕ) (s : Cadence) → Dict.get arb s.base ≡ some b → base_of arb s ≡ b
unfolding base_of
base_found arb b s found = rw (base_of, found) refl

marked :
    (arb : ArbitrageType) (arbs : List ArbitrageType) (now : ℕ) (s : Cadence)
    → listed arb arbs ≡ true
    → reconciled_at arb (mark_reconciled arbs now s) ≡ some now
unfolding mark_reconciled reconciled_at
marked arb arbs now s due =
    rw (reconciled_at, get-mark_each arb arbs now s.last_reconciled, due) refl

unmarked :
    (arb : ArbitrageType) (arbs : List ArbitrageType) (now : ℕ) (s : Cadence)
    → listed arb arbs ≡ false
    → reconciled_at arb (mark_reconciled arbs now s) ≡ reconciled_at arb s
unfolding mark_reconciled reconciled_at
unmarked arb arbs now s rest =
    rw (reconciled_at, get-mark_each arb arbs now s.last_reconciled, rest) refl

not_due :
    (arb : ArbitrageType) (b now : ℕ) (s : Cadence)
    → 1 ≤ s.idle_backoff
    → Dict.get arb s.base ≡ some b
    → is_due arb b now s ≡ false
    → (t : ℕ) × (reconciled_at arb s ≡ some t) × (now < t + b * s.idle_backoff)
unfolding is_due has_elapsed
not_due arb b now s h found waits = elim (Option-cases (reconciled_at arb s)) [
  | inl never ↦ absurd (ground (arith, never))
  | inr (t, at) ↦ (t, at, ground (arith, at, effective-le arb now s h, base_found arb b s found))
]

pass-IsRecent :
    (arb : ArbitrageType) (b now : ℕ) (s : Cadence)
    → 1 ≤ s.idle_backoff
    → Dict.get arb s.base ≡ some b
    → IsRecent arb b now (pass_over now s)
unfolding pass_over due_detectors mark_reconciled
pass-IsRecent arb b now s h found = elim (Bool-cases (listed arb (due_among s.base now s))) [
  | inl due ↦ inl (marked arb (due_among s.base now s) now s due)
  | inr rest ↦
      let (t, at, soon) = not_due arb b now s h found (due-listed arb b s.base now s found rest) in
      inr (t, unmarked arb (due_among s.base now s) now s rest ∙ at, soon)
]

-- What no happening changes: the cadences and the factor.
abbrev IsConfigured : Dict ArbitrageType ℕ → ℕ → Cadence → Type 0
IsConfigured base factor s = (s.base ≡ base) × (s.idle_backoff ≡ factor)

happen-IsConfigured :
    (base : Dict ArbitrageType ℕ) (factor : ℕ) (h : Happening) (s : Cadence)
    → IsConfigured base factor s
    → IsConfigured base factor (happen h s)
unfolding happen pass_over mark_reconciled mark_publish
happen-IsConfigured base factor (passes now) s k = k
happen-IsConfigured base factor (publishes arb now) s k =
    elim (Bool-cases (Dict.has arb s.last_publish)) [
      | inl known ↦ rw (happen, mark_publish, known) k
      | inr unknown ↦ rw (happen, mark_publish, unknown) k
    ]

happens-IsConfigured :
    (base : Dict ArbitrageType ℕ) (factor : ℕ) (hs : List Happening) (s : Cadence)
    → IsConfigured base factor s
    → IsConfigured base factor (happens hs s)
unfolding happens
happens-IsConfigured base factor [] s k = k
happens-IsConfigured base factor (h ∷ hs) s k =
    happens-IsConfigured base factor hs (happen h s) (happen-IsConfigured base factor h s k)

-- After any passes and publications, at whatever times, a pass leaves each detector reconciled just now or less
-- than its cadence times the factor of the backoff ago: none is ever disabled.
pub pass_bounded :
    (c : CadenceConfig) (start now : ℕ) (hs : List Happening) (arb : ArbitrageType) (b : ℕ)
    → Dict.get arb (bases c) ≡ some b
    → IsRecent arb b now (pass_over now (happens hs (new_cadence c start)))
unfolding new_cadence
pass_bounded c start now hs arb b found =
    let (kept, factor) =
      happens-IsConfigured (bases c) (max 1 c.idle_backoff) hs (new_cadence c start) (refl, refl) in
    pass-IsRecent arb b now (happens hs (new_cadence c start)) (omega (arith, factor))
      (rw kept found)
