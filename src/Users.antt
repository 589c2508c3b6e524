-- ===== src/Users.antt =====
-- Users, roles and plans: src/domain/user.py, src/domain/dev_mode.py, src/domain/entitlements.py
-- and the enums of src/domain/enums.py that they use.
use atlasarb.Prelude.{
  ℕ, String, Bool, true, Option, [], ◌∷◌, ◌≡◌, ◌↔◌, arith, Eq, ◌==◌, nat_beq, if◌then◌else◌, any,
  leb,
}

pub data UserRole : Type 0 where
  visitor free_user paid_user support admin : UserRole

abbrev pub role_rank : UserRole → ℕ
role_rank visitor = 0
role_rank free_user = 1
role_rank paid_user = 2
role_rank support = 3
role_rank admin = 4

pub role_beq_iff : (a b : UserRole) → (nat_beq (role_rank a) (role_rank b) ≡ true) ↔ (a ≡ b)
role_beq_iff a b = (λ h. ground arith, λ h. ground arith)

instance abbrev pub role_eq : Eq UserRole
role_eq = record { same = λ a b. nat_beq (role_rank a) (role_rank b); same_iff = role_beq_iff }

pub data SubscriptionTier : Type 0 where
  free_tier pro_tier : SubscriptionTier

abbrev pub tier_rank : SubscriptionTier → ℕ
tier_rank free_tier = 0
tier_rank pro_tier = 1

pub tier_beq_iff : (a b : SubscriptionTier) → (nat_beq (tier_rank a) (tier_rank b) ≡ true) ↔ (a ≡ b)
tier_beq_iff a b = (λ h. ground arith, λ h. ground arith)

instance abbrev pub tier_eq : Eq SubscriptionTier
tier_eq = record { same = λ a b. nat_beq (tier_rank a) (tier_rank b); same_iff = tier_beq_iff }

pub data Language : Type 0 where
  en ru : Language

pub data Currency : Type 0 where
  usd eur kzt rub usdt : Currency

pub record UserSettings : Type 0 where
  pub language : Language
  pub timezone : String
  pub currency : Currency
  pub daily_summary_enabled : Bool
  pub daily_summary_time : String
  pub instant_alerts_enabled : Bool
  pub favorite_coin_alerts : Bool
  pub favorite_exchange_alerts : Bool

pub record Subscription : Type 0 where
  pub tier : SubscriptionTier
  pub purchased_at : Option ℕ

unfoldable pub is_pro : Subscription → Bool
is_pro s = s.tier == pro_tier

-- The aggregate without its filter, which src/domain/user.py keeps apart from access decisions.
pub record UserProfile : Type 0 where
  pub telegram_user_id : ℕ
  pub username : Option String
  pub first_name : Option String
  pub role : UserRole
  pub subscription : Subscription
  pub settings : UserSettings
  pub onboarding_step : ℕ
  pub created_at : Option ℕ
  pub suspended : Bool
  pub pending_deeplink : Option String

unfoldable pub is_staff : UserProfile → Bool
unfolding any
is_staff u = any (λ r. r == u.role) (admin ∷ support ∷ [])

unfoldable pub is_admin : UserProfile → Bool
is_admin u = u.role == admin

unfoldable pub is_support : UserProfile → Bool
is_support u = u.role == support

unfoldable pub onboarding_complete : UserProfile → Bool
onboarding_complete u = leb 3 u.onboarding_step

-- The flag of src/domain/dev_mode.py is an argument: it is set once, at the composition root.
unfoldable pub effective_tier : Bool → UserProfile → SubscriptionTier
unfolding is_staff
effective_tier unlimited_access u =
    if unlimited_access then pro_tier else if is_staff u then pro_tier else u.subscription.tier
