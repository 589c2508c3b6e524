-- ===== src/Alerts.antt =====
-- Alerts: the filter of a user (UserFilter of src/domain/user.py), the tables that
-- src/services/notification_service.py reads and writes (src/database/models.py), and what it sends.
use atlasarb.Prelude.{
  ℕ, ◌+◌, String, Bool, true, false, not, ◌&&◌, ◌||◌, Option, none, some, List, [], ◌∷◌,
  if◌then◌else◌, ◌==◌, nat_eq, string_eq, pair_eq, any, ltb, nat_beq,
}
use atlasarb.Prelude.Dict.{Dict}
use atlasarb.Users.{UserProfile}
use atlasarb.Payments.Db.{Favorite}
use atlasarb.Signals.{ArbitrageType, arb_eq, Settings, Key, Signal, risk_numeric}
use atlasarb.Access.Ledger.{Ledger}
pub mod Tables
pub mod Eligible
pub mod Evaluate
pub mod Gates
pub mod Delivered
pub mod Quiet
pub mod Paywall
pub mod Mutes
pub mod Examples

-- An empty list of coins, exchanges, networks or types means any.
pub record UserFilter (D : Type 0) : Type 0 where
  pub min_profit_pct : D
  pub coins : List String
  pub exchanges : List String
  pub networks : List String
  pub min_liquidity_usd : D
  pub max_risk_numeric : ℕ
  pub max_signal_age_sec : ℕ
  pub arb_types : List ArbitrageType

-- A user with the filter.
pub record Member (D : Type 0) : Type 0 where
  pub profile : UserProfile
  pub filter : UserFilter D

-- What the service takes from its configuration and from Python: the confidence threshold, the
-- change of profit that overrides a cooldown, the value that a percentage has once it is stored,
-- and the text of a route; with whether the notifier is bound, and the quota's service is given.
pub record AlertSettings (D : Type 0) : Type 0 where
  pub decimals : Settings D
  pub dev : Bool
  pub confidence_threshold : ℕ
  pub profit_override : D
  pub stored_pct : D → D
  pub route_text : Key → String
  pub bound : Bool
  pub metered : Bool

unfoldable pub lists : String → List String → Bool
unfolding any
lists x xs = any (λ y. y == x) xs

-- `network or ""`
abbrev pub network_text : Option String → String
network_text none = ""
network_text (some n) = n

abbrev pub is_empty {ℓ} : {A : Type ℓ} → List A → Bool
is_empty [] = true
is_empty (_ ∷ _) = false

-- `matches`, at the time `now`; a time is a number of seconds here
module _ {D E : Type 0} (c : Settings D) where
  unfoldable pub matches : ℕ → UserFilter D → Signal D E → Bool
  unfolding lists any
  matches now f s =
      c.dec_leb f.min_profit_pct s.net_profit_pct
      && (is_empty f.coins || lists s.coin f.coins)
      && (is_empty f.exchanges
          || (lists s.buy_exchange f.exchanges || lists s.sell_exchange f.exchanges))
      && (is_empty f.networks || lists (network_text s.network) f.networks)
      && (c.dec_same f.min_liquidity_usd c.zero_dec
          || c.dec_leb f.min_liquidity_usd s.liquidity_usd)
      && not (ltb f.max_risk_numeric (risk_numeric s.risk_score))
      && (nat_beq f.max_signal_age_sec 0 || not (ltb (s.timestamp + f.max_signal_age_sec) now))
      && (is_empty f.arb_types || any (λ t. t == s.arb_type) f.arb_types)

-- A row of `muted_pairs`, of `notification_log`.
pub record Mute : Type 0 where
  pub user_id : ℕ
  pub pair : String
  pub until : ℕ

pub record Log : Type 0 where
  pub user_id : ℕ
  pub notif_type : String
  pub created_at : ℕ

-- A row of `alert_cooldowns`, keyed by the user and the route's text.
pub record AlertCooldown (D : Type 0) : Type 0 where
  pub last_net_pct : D
  pub until : ℕ

pub data Message : Type 0 where
  alert_of : ℕ → String → Message
  throttle_text : ℕ → Message
  paywall_text : ℕ → Message

-- The tables, what was sent to users, and the count of the telemetry hook.
pub record AlertDb (D : Type 0) : Type 0 where
  pub favorites : List Favorite
  pub mutes : List Mute
  pub cooldowns : Dict (ℕ × String) (AlertCooldown D)
  pub logs : List Log
  pub ledger : Ledger
  pub outbox : List Message
  pub sent : ℕ
