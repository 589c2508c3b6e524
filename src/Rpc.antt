-- ===== src/Rpc.antt =====
-- RpcProviderPool of src/scanner/adapters/rpc_pool.py: the JSON-RPC endpoints of a chain with a circuit
-- breaker each. `F` is the type of floats for scores and latencies; times are ticks, and an operation
-- that reads the clock takes it as `now`.
use atlasarb.Prelude.{
  ℕ, ◌+◌, ◌*◌, min, String, Bool, true, false, not, ◌&&◌, ◌||◌, Option, none, some, List, [], ◌∷◌,
  ◌++◌, map, ◌≡◌, ◌↔◌, arith, if◌then◌else◌, ◌==◌, Eq, nat_eq, nat_beq, string_eq, leb, ltb, length,
  filter, count, any,
}
pub mod Rotation
pub mod Outcomes
pub mod Choice
pub mod Breaker
pub mod Runs
pub mod Examples

pub data RpcErrorKind : Type 0 where
  unauthorized http rate_limit timeout rpc_error : RpcErrorKind

abbrev pub kind_number : RpcErrorKind → ℕ
kind_number unauthorized = 0
kind_number http = 1
kind_number rate_limit = 2
kind_number timeout = 3
kind_number rpc_error = 4

pub kind_beq_iff : (a b : RpcErrorKind) → (nat_beq (kind_number a) (kind_number b) ≡ true) ↔ (a ≡ b)
kind_beq_iff a b = (λ h. ground arith, λ h. ground arith)

instance abbrev pub kind_eq : Eq RpcErrorKind
kind_eq = record { same = λ a b. nat_beq (kind_number a) (kind_number b); same_iff = kind_beq_iff }

pub data BreakerState : Type 0 where
  closed opened half_open : BreakerState

-- `_HARD_KINDS`
unfoldable pub is_hard : RpcErrorKind → Bool
is_hard kind = (kind == http) || (kind == rate_limit) || (kind == timeout)

-- What the code takes from Python's floats: `lit 35 2` is the literal 0.35, `elapsed a b` is `a - b` of
-- two times in seconds, and `round1 x` is `round(x, 1)`.
pub record Floats (F : Type 0) : Type 0 where
  pub lit : ℕ → ℕ → F
  pub add : F → F → F
  pub sub : F → F → F
  pub mul : F → F → F
  pub div : F → F → F
  pub lt : F → F → Bool
  pub elapsed : ℕ → ℕ → F
  pub round1 : F → F

-- A time of 0 stands for never, as in the source.
pub record Provider (F : Type 0) : Type 0 where
  pub url : String
  pub tier : ℕ
  pub score : F
  pub latency_ms : F
  pub timeout_rate : F
  pub fail_streak : ℕ
  pub streak_has_nontimeout : Bool
  pub disabled_until : ℕ
  pub cooldown : ℕ
  pub permanent : Bool
  pub last_kind : Option RpcErrorKind
  pub last_success_at : ℕ
  pub last_failure_at : ℕ

-- The settings of a pool. The base of the cooldown is `half_base` twice, and `forever` is
-- _PERMANENT_COOLDOWN_SEC in ticks.
pub record PoolConfig (F : Type 0) : Type 0 where
  pub fail_threshold : ℕ
  pub half_base : ℕ
  pub cooldown_max : ℕ
  pub slow_latency_ms : F
  pub permanent_fail_threshold : ℕ
  pub forever : ℕ

pub record RpcPool (F : Type 0) : Type 0 where
  pub settings : PoolConfig F
  pub providers : List (Provider F)
  pub cursor : ℕ

module _ {F : Type 0} where
  unfoldable pub healthy : ℕ → Provider F → Bool
  healthy now p = not p.permanent && leb p.disabled_until now

  unfoldable pub state : ℕ → Provider F → BreakerState
  state now p =
      if p.permanent || ltb now p.disabled_until
      then opened
      else if ltb 0 p.disabled_until
      then half_open
      else closed

module _ {F : Type 0} (n : Floats F) where
  unfoldable pub zero_float : F
  zero_float = n.lit 0 0

  -- `min(x, 1.0)`
  unfoldable pub at_most_one : F → F
  at_most_one x = if n.lt (n.lit 1 0) x then n.lit 1 0 else x
