-- ===== src/Access.antt =====
-- What a plan opens: src/domain/entitlements.py. Times are ticks.
use atlasarb.Prelude.{
  ℕ, String, Bool, true, false, not, Option, none, some, List, [], ◌∷◌, if◌then◌else◌, ◌==◌,
  string_eq, any, ltb,
}
use atlasarb.Signals.{ArbitrageType, arb_eq, cex_cex, cex_dex, dex_dex, funding, cross_chain}
use atlasarb.Users.{SubscriptionTier, free_tier, pro_tier}
pub mod Ledger
pub mod Service
pub mod Charging
pub mod Showing
pub mod Quota
pub mod Runs
pub mod Overlap
pub mod Favorites
pub mod Toggles
pub mod Examples

-- A whole number that is -1 (`UNLIMITED`: no cap) or a cap.
pub data Limit : Type 0 where
  unlimited : Limit
  limited : ℕ → Limit

-- `limit == UNLIMITED`
abbrev pub is_unlimited : Limit → Bool
is_unlimited unlimited = true
is_unlimited (limited n) = false

abbrev pub free_signal_quota : ℕ
free_signal_quota = 5

pub record Entitlements : Type 0 where
  pub tier : SubscriptionTier
  pub signal_quota : Limit
  pub signal_delay_sec : ℕ
  pub signals_per_refresh : Limit
  pub instant_alerts_per_hour : Limit
  pub max_favorite_coins : Limit
  pub max_favorite_exchanges : Limit
  pub max_favorite_signals : Limit
  pub allowed_arb_types : List ArbitrageType
  pub filter_fields : List String
  pub history_enabled : Bool
  pub details_advanced : Bool
  pub favorite_entity_alerts : Bool

unfoldable pub unlimited_signals : Entitlements → Bool
unlimited_signals e = is_unlimited e.signal_quota

unfoldable pub arb_type_allowed : Entitlements → ArbitrageType → Bool
unfolding any
arb_type_allowed e t = any (λ u. u == t) e.allowed_arb_types

unfoldable pub filter_allowed : Entitlements → String → Bool
unfolding any
filter_allowed e name = any (λ f. f == name) e.filter_fields

-- the cap of a kind of favourite; none: the kind is unknown, and the lookup raises
unfoldable pub favorite_cap : Entitlements → String → Option Limit
favorite_cap e kind =
    if kind == "coin"
    then some e.max_favorite_coins
    else if kind == "exchange"
    then some e.max_favorite_exchanges
    else if kind == "signal"
    then some e.max_favorite_signals
    else none

unfoldable pub below_cap : Limit → ℕ → Bool
below_cap unlimited n = true
below_cap (limited cap) n = ltb n cap

unfoldable pub can_add_favorite : Entitlements → String → ℕ → Option Bool
unfolding favorite_cap below_cap
can_add_favorite e kind n = elim (favorite_cap e kind) [
  | none ↦ none
  | some cap ↦ some (below_cap cap n)
]

abbrev pub all_filters : List String
all_filters =
    "min_profit" ∷ "coin" ∷ "exchange" ∷ "network" ∷ "liquidity" ∷ "arbitrage_type" ∷ "risk"
    ∷ "signal_age" ∷ []

abbrev pub all_arb_types : List ArbitrageType
all_arb_types = cex_cex ∷ cex_dex ∷ dex_dex ∷ funding ∷ cross_chain ∷ []

unfoldable pub full_access : SubscriptionTier → Limit → Entitlements
full_access tier quota = record {
  tier = tier;
  signal_quota = quota;
  signal_delay_sec = 0;
  signals_per_refresh = unlimited;
  instant_alerts_per_hour = unlimited;
  max_favorite_coins = unlimited;
  max_favorite_exchanges = unlimited;
  max_favorite_signals = unlimited;
  allowed_arb_types = all_arb_types;
  filter_fields = all_filters;
  history_enabled = true;
  details_advanced = true;
  favorite_entity_alerts = true;
}

unfoldable pub matrix : SubscriptionTier → Entitlements
unfolding full_access
matrix free_tier = full_access free_tier (limited free_signal_quota)
matrix pro_tier = full_access pro_tier unlimited

-- `unlimited_access` is the flag of src/domain/dev_mode.py
unfoldable pub entitlements_for : Bool → SubscriptionTier → Entitlements
unfolding matrix
entitlements_for unlimited_access tier = if unlimited_access then matrix pro_tier else matrix tier
