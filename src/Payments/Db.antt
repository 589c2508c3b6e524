-- ===== src/Payments/Db.antt =====
-- The tables that payments touch (src/database/models.py) and the session of src/database/base.py.
-- An action reads and writes the tables and may raise.
use atlasarb.Prelude.{ℕ, String, Bool, Option, List}
use atlasarb.Prelude.Dict.{Dict}
use atlasarb.Purchases.{Purchase, PurchaseStatus}
use atlasarb.Users.{UserProfile, SubscriptionTier}
use atlasarb.Payments.Json.{Fields}

pub data Error : Type 0 where
  -- IllegalPurchaseTransition
  illegal_transition : PurchaseStatus → PurchaseStatus → Error
  -- a unique constraint or a primary key refuses a row
  integrity_error : Error
  -- a method that the object lacks, such as `.get` of a JSON list
  attribute_error : Error
  -- any other exception of the payment provider's client
  provider_error : Error

pub data Result {ℓ} (A : Type ℓ) : Type ℓ where
  ok : A → Result A
  raise : Error → Result A

-- A row of `purchases`.
abbrev pub Row : Type 0
Row = Purchase Fields

-- A row of `subscription_events`.
pub record BillingEvent : Type 0 where
  pub user_id : ℕ
  pub event_type : String
  pub tier : SubscriptionTier
  pub amount_usd : ℕ
  pub external_payment_id : Option String

-- A row of `payment_events`; an update id is a sign and a size.
pub record PaymentEvent : Type 0 where
  pub provider : String
  pub update_id : Option (Bool × ℕ)
  pub invoice_id : Option String
  pub purchase_id : Option String
  pub event_type : String
  pub signature_valid : Bool
  pub processed : Bool
  pub payload : Fields

pub record Favorite : Type 0 where
  pub user_id : ℕ
  pub kind : String
  pub value : String
  pub frozen : Bool

-- `purchases` is keyed by its primary key, in insertion order; the position of an event in `events`
-- is its autoincremented id.
pub record Db : Type 0 where
  pub users : Dict ℕ UserProfile
  pub billing : List BillingEvent
  pub purchases : Dict String Row
  pub events : List PaymentEvent
  pub favorites : List Favorite

abbrev pub M : Type 0 → Type 0
M A = Db → Result A × Db

abbrev pub pure : {A : Type 0} → A → M A
pure a d = (ok a, d)

abbrev pub fail : {A : Type 0} → Error → M A
fail e d = (raise e, d)

abbrev pub after : {A B : Type 0} → Result A → Db → (A → M B) → Result B × Db
after (ok a) d f = f a d
after (raise e) d f = (raise e, d)

infixl 5 ◌>>=◌ ◌>>◌
abbrev pub ◌>>=◌ : {A B : Type 0} → M A → (A → M B) → M B
◌>>=◌ m f d = after (m d).0 (m d).1 f

abbrev pub ◌>>◌ : {A B : Type 0} → M A → M B → M B
m >> k = m >>= λ _. k

abbrev pub gets : {A : Type 0} → (Db → A) → M A
gets f d = (ok (f d), d)

-- `async with db.session()`: commit, or roll back and raise on.
abbrev pub commit_or : {A : Type 0} → Db → Result A → Db → Result A × Db
commit_or d (ok a) d' = (ok a, d')
commit_or d (raise e) d' = (raise e, d)

abbrev pub session : {A : Type 0} → M A → M A
session m d = commit_or d (m d).0 (m d).1
