-- ===== src/Purchases.antt =====
-- The purchase lifecycle: src/domain/purchase.py and the product of src/domain/product.py.
-- An amount is a natural number of cents (the column is Numeric(12, 2)); a time is a natural
-- number of clock ticks.
use atlasarb.Prelude.{
  ℕ, String, Bool, true, Option, none, some, List, [], ◌∷◌, ◌≡◌, ◌↔◌, arith, Eq, ◌==◌, nat_beq,
  if◌then◌else◌, any,
}
use atlasarb.Users.{SubscriptionTier}

pub data PurchaseStatus : Type 0 where
  created pending paid failed cancelled expired : PurchaseStatus

-- Python compares enum members by identity; each has a number here.
abbrev pub rank : PurchaseStatus → ℕ
rank created = 0
rank pending = 1
rank paid = 2
rank failed = 3
rank cancelled = 4
rank expired = 5

pub status_beq_iff : (a b : PurchaseStatus) → (nat_beq (rank a) (rank b) ≡ true) ↔ (a ≡ b)
status_beq_iff a b = (λ h. ground arith, λ h. ground arith)

instance abbrev pub status_eq : Eq PurchaseStatus
status_eq = record { same = λ a b. nat_beq (rank a) (rank b); same_iff = status_beq_iff }

-- `_TRANSITIONS`
unfoldable pub transitions : PurchaseStatus → List PurchaseStatus
transitions created = pending ∷ paid ∷ failed ∷ cancelled ∷ expired ∷ []
transitions pending = paid ∷ failed ∷ cancelled ∷ expired ∷ []
transitions paid = []
transitions failed = []
transitions cancelled = []
transitions expired = []

unfoldable pub can_transition : PurchaseStatus → PurchaseStatus → Bool
unfolding transitions any
can_transition current target = any (λ s. s == target) (transitions current)

unfoldable pub open_statuses : List PurchaseStatus
open_statuses = created ∷ pending ∷ []

pub data ProductCode : Type 0 where
  pro_lifetime : ProductCode

pub record Product : Type 0 where
  pub code : ProductCode
  pub display_name : String
  pub description : String
  pub currency : String
  pub amount : ℕ
  pub grants_tier : SubscriptionTier
  pub active : Bool

pub record Purchase {ℓ} (Payload : Type ℓ) : Type ℓ where
  pub id : String
  pub user_id : ℕ
  pub product_code : ProductCode
  pub currency : String
  pub amount : ℕ
  pub status : PurchaseStatus
  pub provider : String
  pub external_payment_id : Option String
  pub asset : Option String
  pub provider_payload : Option Payload
  pub detail : Option String
  pub created_at : Option ℕ
  pub updated_at : Option ℕ
  pub paid_at : Option ℕ

module _ {ℓ} {Payload : Type ℓ} where
  unfoldable pub is_open : Purchase Payload → Bool
  unfolding open_statuses any
  is_open p = any (λ s. s == p.status) open_statuses

  unfoldable pub is_paid : Purchase Payload → Bool
  is_paid p = p.status == paid

  -- `none` is the IllegalPurchaseTransition that is raised.
  unfoldable pub transition_to : Purchase Payload → PurchaseStatus → Option (Purchase Payload)
  transition_to p target =
      if can_transition p.status target then some (record p { status = target }) else none
