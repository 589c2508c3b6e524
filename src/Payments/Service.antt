-- ===== src/Payments/Service.antt =====
-- PurchaseService of src/services/purchase_service.py. What `uuid4()` and `time.time()` return and
-- what the provider answers are arguments.
use Prim.Native.String.{◌++◌}
use atlasarb.Prelude.{ℕ, zero, suc, String, not, Option, none, some, ◌==◌, string_eq, if◌then◌else◌}
use atlasarb.Purchases.{
  Product, PurchaseStatus, created, pending, paid, failed, cancelled, expired, status_eq, is_open,
  is_paid, transition_to,
}
use atlasarb.Payments.Json.{Fields, end}
use atlasarb.Payments.Db.{
  M, Row, illegal_transition, provider_error, pure, fail, session, ◌>>=◌, ◌>>◌,
}
use atlasarb.Payments.Repo.{
  get_purchase, get_by_external_id, add_purchase, save_purchase, latest_open,
}
use atlasarb.Payments.Activation.{activate_lifetime}

pub record Invoice : Type 0 where
  pub payment_id : String
  pub pay_url : String
  pub amount_usd : ℕ

-- the provider's `create_invoice`: an invoice, PaymentProviderUnavailable, or another exception
pub data Answer : Type 0 where
  invoice : Invoice → Answer
  unavailable : String → Answer
  crashed : Answer

pub record Checkout : Type 0 where
  pub purchase : Row
  pub pay_url : Option String

-- PaymentReceipt, without the user id and the amount that `settle` does not read
pub record Receipt : Type 0 where
  pub payment_id : String
  pub asset : Option String
  pub invoice_id : Option String
  pub raw : Option Fields

-- `purchase.transition_to(target)`
unfoldable pub move_to : Row → PurchaseStatus → M Row
unfolding transition_to
move_to p target = elim (transition_to p target) [
  | none ↦ fail (illegal_transition p.status target)
  | some q ↦ pure q
]

unfoldable pub pend : ℕ → String → Option Row → M (Option Row)
unfolding move_to save_purchase
pend now external_payment_id none = pure none
pend now external_payment_id (some p) = if p.status == pending then pure (some p) else do
  q ← move_to p pending
  let r : Row = record q { external_payment_id = some external_payment_id }
  save_purchase now r
  pure (some r)

unfoldable pub mark_pending : ℕ → String → String → M (Option Row)
unfolding pend get_purchase
mark_pending now purchase_id external_payment_id =
    session (do found ← get_purchase purchase_id; pend now external_payment_id found)

-- `detail[:500]`
unfoldable pub take_chars : ℕ → String → String
take_chars zero s = String.[]
take_chars (suc n) String.[] = String.[]
take_chars (suc n) (String.◌∷◌ c s) = String.◌∷◌ c (take_chars n s)

unfoldable pub with_detail : String → Row → Row
unfolding take_chars
with_detail detail p =
    if detail == "" then p else record p { detail = some (take_chars 500 detail) }

unfoldable pub close_found : ℕ → PurchaseStatus → String → Option Row → M (Option Row)
unfolding move_to save_purchase with_detail
close_found now status detail none = pure none
close_found now status detail (some p) = if p.status == status then pure (some p) else do
  q ← move_to p status
  save_purchase now (with_detail detail q)
  pure (some (with_detail detail q))

-- `_close`
unfoldable pub close : ℕ → String → PurchaseStatus → String → M (Option Row)
unfolding close_found get_purchase
close now purchase_id status detail =
    session (do found ← get_purchase purchase_id; close_found now status detail found)

unfoldable pub mark_failed : ℕ → String → String → M (Option Row)
mark_failed now purchase_id detail = close now purchase_id failed detail

unfoldable pub mark_cancelled : ℕ → String → String → M (Option Row)
mark_cancelled now purchase_id detail = close now purchase_id cancelled detail

unfoldable pub mark_expired : ℕ → String → String → M (Option Row)
mark_expired now purchase_id detail = close now purchase_id expired detail

-- `f"purchase:{purchase.id}"`
unfoldable pub product_ref : String → String
product_ref id = "purchase:" ++ id

-- a text or dict is falsy when it is missing or empty
unfoldable pub text_or : Option String → Option String → Option String
text_or none old = old
text_or (some s) old = if s == "" then old else some s

unfoldable pub payload_or : Option Fields → Option Fields → Option Fields
payload_or none old = old
payload_or (some end) old = old
payload_or (some fs) old = some fs

unfoldable pub paid_row : ℕ → Option String → Option String → Option Fields → Row → Row
unfolding text_or payload_or
paid_row now external_payment_id asset payload q = record q {
  paid_at = some now;
  external_payment_id = text_or external_payment_id q.external_payment_id;
  asset = text_or asset q.asset;
  provider_payload = payload_or payload q.provider_payload;
}

-- the last session of `mark_paid`
unfoldable pub record_paid :
    ℕ → Option String → Option String → Option Fields → Option Row → M (Option Row)
unfolding move_to save_purchase paid_row is_paid
record_paid now external_payment_id asset payload none = pure none
record_paid now external_payment_id asset payload (some p) = if is_paid p then pure (some p) else do
  q ← move_to p paid
  save_purchase now (paid_row now external_payment_id asset payload q)
  pure (some (paid_row now external_payment_id asset payload q))

unfoldable pub settle_open :
    ℕ → Option String → Option String → Option Fields → Row → M (Option Row)
unfolding activate_lifetime close record_paid product_ref
settle_open now external_payment_id asset payload p = do
  activated ← activate_lifetime now p.user_id p.amount (some (product_ref p.id))
  elim activated [
    | none ↦ do close now p.id failed "user not found"; pure none
    | some _ ↦
        session
          (do fresh ← get_purchase p.id; record_paid now external_payment_id asset payload fresh)
  ]

unfoldable pub pay_found :
    ℕ → Option String → Option String → Option Fields → Option Row → M (Option Row)
unfolding settle_open is_paid is_open
pay_found now external_payment_id asset payload none = pure none
pay_found now external_payment_id asset payload (some p) =
    if is_paid p
    then pure (some p)
    else if not (is_open p)
    then fail (illegal_transition p.status paid)
    else settle_open now external_payment_id asset payload p

unfoldable pub mark_paid :
    ℕ → String → Option String → Option String → Option Fields → M (Option Row)
unfolding pay_found get_purchase
mark_paid now purchase_id external_payment_id asset payload = do
  found ← session (get_purchase purchase_id)
  pay_found now external_payment_id asset payload found

unfoldable pub resolve : String → Option Row → M (Option Row)
unfolding get_by_external_id
resolve payment_id (some p) = pure (some p)
resolve payment_id none = get_by_external_id payment_id

unfoldable pub settle_found : ℕ → Receipt → Option Row → M (Option Row)
unfolding mark_paid text_or
settle_found now receipt none = pure none
settle_found now receipt (some p) =
    mark_paid now p.id (text_or receipt.invoice_id (some receipt.payment_id)) receipt.asset
      receipt.raw

unfoldable pub settle : ℕ → Receipt → M (Option Row)
unfolding settle_found resolve get_purchase
settle now receipt = do
  found ← session (do p ← get_purchase receipt.payment_id; resolve receipt.payment_id p)
  settle_found now receipt found

unfoldable pub new_row : String → String → ℕ → Product → Row
new_row new_id provider_id user_id product = record {
  id = new_id;
  user_id = user_id;
  product_code = product.code;
  currency = product.currency;
  amount = product.amount;
  status = created;
  provider = provider_id;
  external_payment_id = none;
  asset = none;
  provider_payload = none;
  detail = none;
  created_at = none;
  updated_at = none;
  paid_at = none;
}

unfoldable pub reuse_or_add : ℕ → Row → Option Row → M Row
unfolding add_purchase
reuse_or_add now fresh none = add_purchase now fresh
reuse_or_add now fresh (some p) = pure p

-- the first session: resume an open purchase or insert a new one
unfoldable pub open_checkout : ℕ → String → String → ℕ → Product → M Row
unfolding reuse_or_add latest_open new_row
open_checkout now new_id provider_id user_id product = session (do
  found ← latest_open user_id product.code
  reuse_or_add now (new_row new_id provider_id user_id product) found)

-- the provider's answer, and what is written for it
unfoldable pub answered : ℕ → Row → Answer → M Checkout
unfolding close mark_pending
answered now p crashed = fail provider_error
answered now p (unavailable detail) = do
  close now p.id cancelled detail
  pure (record { purchase = p; pay_url = none })
answered now p (invoice i) = do
  mark_pending now p.id i.payment_id
  pure (record { purchase = p; pay_url = some i.pay_url })

-- `answer p` is what the provider says when it is asked for an invoice for `p`
unfoldable pub start_checkout : ℕ → String → String → (Row → Answer) → ℕ → Product → M Checkout
unfolding open_checkout answered
start_checkout now new_id provider_id answer user_id product = do
  p ← open_checkout now new_id provider_id user_id product
  answered now p (answer p)
