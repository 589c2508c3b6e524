-- ===== src/Payments/Evolution.antt =====
-- How the tables may change: purchases keep their order data and follow the lifecycle of
-- src/domain/purchase.py, billing events stay, and no user loses Pro.
use atlasarb.Prelude.{
  ℕ, ◌+◌, ◌≤◌, count, String, Bool, true, false, none, some, List, [], ◌∷◌, ◌++◌, ◌≡◌, refl, ◌∙◌,
  ◌⊎◌, inl, inr, arith, ◌==◌, string_eq, nat_eq, option_eq, any, ==_iff, if◌then◌else◌, Bool-cases,
}
use atlasarb.Prelude.Dict
use atlasarb.Prelude.Dict.{get-put}
use atlasarb.Purchases.{PurchaseStatus, can_transition, status_eq}
use atlasarb.Users.{UserProfile, is_pro}
use atlasarb.Payments.Db.{Db, Row, BillingEvent}
use atlasarb.Payments.Repo.{recorded_in, seen_in}

pub can_transition_trans :
    (a b c : PurchaseStatus)
    → can_transition a b ≡ true
    → can_transition b c ≡ true
    → can_transition a c ≡ true
unfolding can_transition
can_transition_trans a b c h k = ground arith

abbrev pub Follows : PurchaseStatus → PurchaseStatus → Type 0
Follows a b = (a ≡ b) ⊎ (can_transition a b ≡ true)

pub Follows-trans : (a b c : PurchaseStatus) → Follows a b → Follows b c → Follows a c
Follows-trans a b c h k = ground (arith, can_transition_trans a b c)

pub record Moves (p q : Row) : Type 0 where
  pub id_kept : p.id ≡ q.id
  pub user_kept : p.user_id ≡ q.user_id
  pub code_kept : p.product_code ≡ q.product_code
  pub currency_kept : p.currency ≡ q.currency
  pub amount_kept : p.amount ≡ q.amount
  pub status_follows : Follows p.status q.status

pub Moves-refl : (p : Row) → Moves p p
Moves-refl p = ground arith

pub Moves-trans : (p q r : Row) → Moves p q → Moves q r → Moves p r
Moves-trans p q r h k = record {
  id_kept = h.id_kept ∙ k.id_kept;
  user_kept = h.user_kept ∙ k.user_kept;
  code_kept = h.code_kept ∙ k.code_kept;
  currency_kept = h.currency_kept ∙ k.currency_kept;
  amount_kept = h.amount_kept ∙ k.amount_kept;
  status_follows = Follows-trans p.status q.status r.status h.status_follows k.status_follows;
}

abbrev pub HasPro : ℕ → Db → Type 0
HasPro user_id d =
    (u : UserProfile) × (Dict.get user_id d.users ≡ some u) × (is_pro u.subscription ≡ true)

-- How many billing events carry a payment reference.
abbrev pub bill_count : String → List BillingEvent → ℕ
bill_count ref es = count (λ e. e.external_payment_id == some ref) es

abbrev pub BilledOnce : List BillingEvent → Type 0
BilledOnce es = (ref : String) → bill_count ref es ≤ 1

bill_count-append :
    (ref : String) (es : List BillingEvent) (e : BillingEvent)
    → bill_count ref (es ++ e ∷ [])
      ≡ bill_count ref es + (if e.external_payment_id == some ref then 1 else 0)
unfolding count
bill_count-append ref [] e = ground arith
bill_count-append ref (x ∷ es) e = ground (arith, bill_count-append ref es e)

bill_count_fresh :
    (ref : String) (es : List BillingEvent) → recorded_in ref es ≡ false → bill_count ref es ≡ 0
unfolding count recorded_in any
bill_count_fresh ref [] h = refl
bill_count_fresh ref (x ∷ es) h = ground (arith, bill_count_fresh ref es)

pub bill_count_pos :
    (ref : String) (es : List BillingEvent) → recorded_in ref es ≡ true → 1 ≤ bill_count ref es
unfolding count recorded_in any
bill_count_pos ref [] h = cc
bill_count_pos ref (x ∷ es) h = ground (arith, bill_count_pos ref es)

pub BilledOnce-append :
    (ref : String) (es : List BillingEvent) (e : BillingEvent)
    → e.external_payment_id ≡ some ref
    → recorded_in ref es ≡ false
    → BilledOnce es
    → BilledOnce (es ++ e ∷ [])
BilledOnce-append ref es e refers fresh once other = ground (
  arith,
  bill_count-append other es e,
  bill_count_fresh ref es,
  ==_iff e.external_payment_id (some other),
  once other,
)

pub record Evolves (d d' : Db) : Type 0 where
  pub rows :
      (id : String) (p : Row)
      → Dict.get id d.purchases ≡ some p
      → (q : Row) × (Dict.get id d'.purchases ≡ some q) × Moves p q
  pub bills : (ref : String) → recorded_in ref d.billing ≡ true → recorded_in ref d'.billing ≡ true
  pub once : BilledOnce d.billing → BilledOnce d'.billing
  pub seen :
      (provider : String) (n : Bool × ℕ)
      → seen_in provider n d.events ≡ true
      → seen_in provider n d'.events ≡ true
  pub pros : (user_id : ℕ) → HasPro user_id d → HasPro user_id d'

pub Evolves-refl : (d : Db) → Evolves d d
Evolves-refl d = record {
  rows = λ id p h. (p, h, Moves-refl p);
  bills = λ ref h. h;
  once = λ h. h;
  seen = λ provider n h. h;
  pros = λ user_id h. h;
}

pub Evolves-trans : (a b c : Db) → Evolves a b → Evolves b c → Evolves a c
Evolves-trans a b c h k = record {
  rows = λ id p e.
      let (q, eq, mq) = h.rows id p e in
      let (r, er, mr) = k.rows id q eq in (r, er, Moves-trans p q r mq mr);
  bills = λ ref e. k.bills ref (h.bills ref e);
  once = λ e. k.once (h.once e);
  seen = λ provider n e. k.seen provider n (h.seen provider n e);
  pros = λ user_id e. k.pros user_id (h.pros user_id e);
}

-- A write over an existing row.
pub put_row-Evolves :
    (d : Db) (id : String) (p q : Row)
    → Dict.get id d.purchases ≡ some p
    → Moves p q
    → Evolves d (record d { purchases = Dict.put id q d.purchases })
put_row-Evolves d id p q found moves = record {
  rows = λ j r h. elim (Bool-cases (id == j)) [
    | inl same ↦ (q, rw (get-put id j q d.purchases, same), ground (arith, ==_iff id j))
    | inr other ↦ (r, rw (get-put id j q d.purchases, other) h, Moves-refl r)
  ];
  bills = λ ref h. h;
  once = λ h. h;
  seen = λ provider n h. h;
  pros = λ user_id h. h;
}

-- A new row, under a key that is not taken.
pub add_row-Evolves :
    (d : Db) (id : String) (q : Row)
    → Dict.get id d.purchases ≡ none
    → Evolves d (record d { purchases = Dict.put id q d.purchases })
add_row-Evolves d id q fresh = record {
  rows = λ j r h. elim (Bool-cases (id == j)) [
    | inl same ↦ absurd (ground (arith, ==_iff id j))
    | inr other ↦ (r, rw (get-put id j q d.purchases, other) h, Moves-refl r)
  ];
  bills = λ ref h. h;
  once = λ h. h;
  seen = λ provider n h. h;
  pros = λ user_id h. h;
}
