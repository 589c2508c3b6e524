-- ===== src/Signals.antt =====
-- Signals: src/domain/signal.py with the enums of src/domain/enums.py that it uses. Times are ticks.
-- `D` is the type of decimals; `E` holds the columns that the modelled code only carries along.
use atlasarb.Prelude.{
  ℕ, ◌-◌, String, Bool, true, false, Option, List, ◌≡◌, ◌↔◌, arith, Eq, ◌==◌, nat_beq,
  if◌then◌else◌, ltb,
}
use atlasarb.Prelude.Dict.{Dict}
pub mod Cooldown
pub mod Registry
pub mod Bridge
pub mod Lifecycle
pub mod Window
pub mod Backlog
pub mod Accounts
pub mod Tracking
pub mod Runs
pub mod Sweeps
pub mod Notices
pub mod Examples

pub data ArbitrageType : Type 0 where
  cex_cex cex_dex dex_dex funding cross_chain : ArbitrageType

abbrev pub arb_number : ArbitrageType → ℕ
arb_number cex_cex = 0
arb_number cex_dex = 1
arb_number dex_dex = 2
arb_number funding = 3
arb_number cross_chain = 4

pub arb_beq_iff : (a b : ArbitrageType) → (nat_beq (arb_number a) (arb_number b) ≡ true) ↔ (a ≡ b)
arb_beq_iff a b = (λ h. ground arith, λ h. ground arith)

instance abbrev pub arb_eq : Eq ArbitrageType
arb_eq = record { same = λ a b. nat_beq (arb_number a) (arb_number b); same_iff = arb_beq_iff }

pub data SignalStatus : Type 0 where
  active expired hidden : SignalStatus

pub data RankingLevel : Type 0 where
  top high medium low : RankingLevel

abbrev pub level_number : RankingLevel → ℕ
level_number top = 0
level_number high = 1
level_number medium = 2
level_number low = 3

pub level_beq_iff :
    (a b : RankingLevel) → (nat_beq (level_number a) (level_number b) ≡ true) ↔ (a ≡ b)
level_beq_iff a b = (λ h. ground arith, λ h. ground arith)

instance abbrev pub level_eq : Eq RankingLevel
level_eq = record {
  same = λ a b. nat_beq (level_number a) (level_number b);
  same_iff = level_beq_iff;
}

pub data RiskScore : Type 0 where
  low_risk medium_risk high_risk : RiskScore

-- `numeric`
abbrev pub risk_numeric : RiskScore → ℕ
risk_numeric low_risk = 1
risk_numeric medium_risk = 3
risk_numeric high_risk = 5

pub data ExpiryReason : Type 0 where
  ttl_exceeded spread_closed venue_offline market_delisted bridge_capacity funding_settled :
      ExpiryReason

-- A lifetime is a sign (`true` is minus) and a number of ticks.
pub record Signal (D E : Type 0) : Type 0 where
  pub id : String
  pub arb_type : ArbitrageType
  pub coin : String
  pub trading_pair : String
  pub network : Option String
  pub buy_exchange : String
  pub sell_exchange : String
  pub net_profit_pct : D
  pub net_profit_usd : D
  pub liquidity_usd : D
  pub risk_score : RiskScore
  pub confidence_score : ℕ
  pub ranking : RankingLevel
  pub signal_lifetime : Bool × ℕ
  pub status : SignalStatus
  pub timestamp : ℕ
  pub last_updated : ℕ
  pub expires_at : ℕ
  pub expired_at : Option ℕ
  pub expiry_reason : Option ExpiryReason
  pub funding_next_time : Option ℕ
  pub details : E

-- What the code takes from Python and from the settings: the arithmetic of decimals, the order of
-- texts, the last part of a text split at "/", and the tables of src/config/scanner_config.py.
pub record Settings (D : Type 0) : Type 0 where
  pub zero_dec : D
  pub hundred : D
  pub dec_same : D → D → Bool
  pub dec_leb : D → D → Bool
  pub dec_sub : D → D → D
  pub dec_mul : D → D → D
  pub dec_div : D → D → D
  pub dec_abs : D → D
  pub text_lt : String → String → Bool
  pub last_part : String → String
  pub ttl_by_type : Dict ArbitrageType ℕ
  pub cooldown_by_type : Dict ArbitrageType ℕ
  pub significant_profit_change_pct : D

-- The route: the type, the coin, the quote, the two venues in order, the network.
abbrev pub Key : Type 0
Key = ArbitrageType × (String × (String × ((String × String) × Option String)))

unfoldable pub sorted_pair : {D : Type 0} → Settings D → String → String → String × String
sorted_pair c a b = if c.text_lt b a then (b, a) else (a, b)

module _ {D E : Type 0} (c : Settings D) where
  unfoldable pub dedup_key : Signal D E → Key
  unfolding sorted_pair
  dedup_key s = (
    s.arb_type,
    (
      s.coin,
      (c.last_part s.trading_pair, (sorted_pair c s.buy_exchange s.sell_exchange, s.network)),
    ),
  )

-- `a - b` of two times
abbrev pub time_between : ℕ → ℕ → Bool × ℕ
time_between a b = if ltb a b then (true, b - a) else (false, a - b)
