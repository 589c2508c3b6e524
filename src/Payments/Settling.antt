-- ===== src/Payments/Settling.antt =====
-- `mark_paid`, `settle` and `start_checkout` of src/services/purchase_service.py: they keep the
-- invariant, a settled purchase is paid, billed and Pro, and settling again changes nothing.
use atlasarb.Prelude.{
  ℕ, String, true, Option, none, some, ◌≡◌, ◌≢◌, ◌⊎◌, inl, inr, refl, sym, ◌∙◌, ◌==◌, string_eq,
  nat_eq, Bool-cases, Option-cases, ap, find, filter, option_eq,
}
use atlasarb.Prelude.Dict
use atlasarb.Prelude.Dict.{get-put_self}
use atlasarb.Purchases.{Product, paid, failed, cancelled, status_eq, is_paid, is_open}
use atlasarb.Users.{UserProfile}
use atlasarb.Payments.Json.{Fields}
use atlasarb.Payments.Db.{Db, Row, ok, pure}
use atlasarb.Payments.Repo.{
  get_purchase, get_by_external_id, recorded_in, latest_open, is_open_for, newest, add_purchase,
}
use atlasarb.Payments.Activation.{activate_lifetime, granted}
use atlasarb.Payments.Service.{
  close, mark_pending, record_paid, settle_open, pay_found, mark_paid, product_ref, resolve,
  settle_found, settle, Receipt, reuse_or_add, new_row, start_checkout, open_checkout, answered,
  text_or, Answer, invoice, unavailable, crashed,
}
use atlasarb.Payments.Evolution.{add_row-Evolves}
use atlasarb.Payments.Sound.{IsSound, add_row-IsSound}
use atlasarb.Payments.Writes.{Good, Good-refl, Good-trans, session-Good, bind-Good}
use atlasarb.Payments.Operations.{close-Good, mark_pending-Good, record_paid-Good, own_key}
use atlasarb.Payments.Grants.{
  product_ref-ne-empty, granted_db, granted_db-Good, granted_db_recorded, activate_unknown,
  activate_replay, activate_fresh,
}

-- The ways in which an activation for an existing purchase ends.
abbrev pub ActivationEnds : (now n amount : ℕ) → String → Db → Type 0
ActivationEnds now n amount id d =
    let r = activate_lifetime now n amount (some (product_ref id)) d in
    ((r ≡ (ok none, d)) × (Dict.get n d.users ≡ none))
    ⊎ ((v : UserProfile) × (e : Db) × (r ≡ (ok (some v), e))
        × Good d e
        × (recorded_in (product_ref id) e.billing ≡ true)
        × (e.purchases ≡ d.purchases))

pub activate_lifetime-ActivationEnds :
    (now amount : ℕ) (id : String) (p : Row) (d : Db)
    → IsSound d
    → Dict.get id d.purchases ≡ some p
    → ActivationEnds now p.user_id amount id d
activate_lifetime-ActivationEnds now amount id p d s found =
    elim (Option-cases (Dict.get p.user_id d.users)) [
      | inl missing ↦
          inl (activate_unknown now p.user_id amount (product_ref id) d missing, missing)
      | inr (u, found_u) ↦ elim (Bool-cases (recorded_in (product_ref id) d.billing)) [
        | inl seen ↦ inr (
          u,
          d,
          activate_replay now p.user_id amount (product_ref id) d u found_u
              (product_ref-ne-empty id) seen,
          Good-refl d s,
          seen,
          refl,
        )
        | inr fresh ↦
            let keyed : u.telegram_user_id ≡ p.user_id = s.users_keyed p.user_id u found_u in
            let own : Dict.get u.telegram_user_id d.users ≡ some u =
              ap (λ m. Dict.get m d.users) keyed ∙ found_u in
            inr (
              granted now u,
              granted_db now u amount (product_ref id) d,
              activate_fresh now p.user_id amount (product_ref id) d u found_u keyed
                  (product_ref-ne-empty id) fresh,
              granted_db-Good now u amount (product_ref id) d id p s own found (sym keyed) refl
                  fresh,
              granted_db_recorded now u amount (product_ref id) d,
              refl,
            )
      ]
    ]

-- The part of `mark_paid` behind its guards.
settle_open-Good :
    (now : ℕ) (ref asset : Option String) (payload : Option Fields) (p : Row) (d : Db)
    → IsSound d
    → Dict.get p.id d.purchases ≡ some p
    → Good d (settle_open now ref asset payload p d).1
unfolding settle_open get_purchase
settle_open-Good now ref asset payload p d s found =
    elim (activate_lifetime-ActivationEnds now p.amount p.id p d s found) [
      | inl (e, missing) ↦ rw e (
          bind-Good (close now p.id failed "user not found") (λ _. pure none) d
            (close-Good now p.id failed "user not found" d (λ f. cc) s)
            (λ _ _. Good-refl _ (close-Good now p.id failed "user not found" d (λ f. cc) s).0))
      | inr (v, e, ran, good, billed, same) ↦ rw ran (
          Good-trans d e _ good (
            session-Good (λ b. record_paid now ref asset payload (Dict.get p.id b.purchases) b) e
              good.0 (record_paid-Good now ref asset payload p.id e good.0 billed)))
    ]

pay_found-Good :
    (now : ℕ) (ref asset : Option String) (payload : Option Fields) (id : String) (d : Db)
    → IsSound d
    → Good d (pay_found now ref asset payload (Dict.get id d.purchases) d).1
unfolding pay_found
pay_found-Good now ref asset payload id d s = elim (Option-cases (Dict.get id d.purchases)) [
  | inl missing ↦ rw (missing, pay_found) (Good-refl d s)
  | inr (p, found) ↦
      rw (found, pay_found)
        (elim (Bool-cases (is_paid p)) [
          | inl old ↦ rw old (Good-refl d s)
          | inr new ↦ rw new (elim (Bool-cases (is_open p)) [
            | inr closed ↦ rw closed (Good-refl d s)
            | inl still ↦
                rw still (settle_open-Good now ref asset payload p d s (own_key d id p s found))
          ])
        ])
]

-- `mark_paid` keeps the invariant and lets the tables only evolve, on every branch and also where it
-- raises.
pub mark_paid-Good :
    (now : ℕ) (id : String) (ref asset : Option String) (payload : Option Fields) (d : Db)
    → IsSound d
    → Good d (mark_paid now id ref asset payload d).1
unfolding mark_paid get_purchase
mark_paid-Good now id ref asset payload d s = pay_found-Good now ref asset payload id d s

settle_found-Good :
    (now : ℕ) (receipt : Receipt) (found : Option Row) (d : Db)
    → IsSound d
    → Good d (settle_found now receipt found d).1
unfolding settle_found
settle_found-Good now receipt none d s = Good-refl d s
settle_found-Good now receipt (some p) d s =
    mark_paid-Good now p.id (text_or receipt.invoice_id (some receipt.payment_id)) receipt.asset
      receipt.raw d s

-- `settle` does so too.
pub settle-Good :
    (now : ℕ) (receipt : Receipt) (d : Db) → IsSound d → Good d (settle now receipt d).1
unfolding settle get_purchase resolve get_by_external_id
settle-Good now receipt d s = elim (Option-cases (Dict.get receipt.payment_id d.purchases)) [
  | inl missing ↦
      rw (missing, resolve)
        (settle_found-Good now receipt
          (find (λ p. p.external_payment_id == some receipt.payment_id) (Dict.values d.purchases)) d
          s)
  | inr (p, found) ↦ rw (found, resolve) (settle_found-Good now receipt (some p) d s)
]

reuse_or_add-Good :
    (now : ℕ) (fresh : Row) (found : Option Row) (d : Db)
    → fresh.status ≢ paid
    → IsSound d
    → Good d (reuse_or_add now fresh found d).1
unfolding reuse_or_add add_purchase Dict.has
reuse_or_add-Good now fresh (some p) d unpaid s = Good-refl d s
reuse_or_add-Good now fresh none d unpaid s = elim (Option-cases (Dict.get fresh.id d.purchases)) [
  | inr (p, taken) ↦ rw taken (Good-refl d s)
  | inl free ↦
      rw free ((add_row-IsSound d fresh.id _ s free refl unpaid, add_row-Evolves d fresh.id _ free))
]

open_checkout-Good :
    (now : ℕ) (new_id provider_id : String) (user_id : ℕ) (product : Product) (d : Db)
    → IsSound d
    → Good d (open_checkout now new_id provider_id user_id product d).1
unfolding open_checkout latest_open new_row
open_checkout-Good now new_id provider_id user_id product d s =
    session-Good
      (λ e.
        reuse_or_add now (new_row new_id provider_id user_id product)
          (newest (filter (is_open_for user_id product.code) (Dict.values e.purchases))) e)
      d s (reuse_or_add-Good now (new_row new_id provider_id user_id product) _ d (λ e. cc) s)

answered-Good :
    (now : ℕ) (p : Row) (a : Answer) (d : Db) → IsSound d → Good d (answered now p a d).1
unfolding answered
answered-Good now p crashed d s = Good-refl d s
answered-Good now p (unavailable detail) d s =
    bind-Good (close now p.id cancelled detail) (λ _. pure _) d
      (close-Good now p.id cancelled detail d (λ f. cc) s)
      (λ _ _. Good-refl _ (close-Good now p.id cancelled detail d (λ f. cc) s).0)
answered-Good now p (invoice i) d s =
    bind-Good (mark_pending now p.id i.payment_id) (λ _. pure _) d
      (mark_pending-Good now p.id i.payment_id d s)
      (λ _ _. Good-refl _ (mark_pending-Good now p.id i.payment_id d s).0)

-- `start_checkout` does so too, whatever the provider answers.
pub start_checkout-Good :
    (now : ℕ) (new_id provider_id : String) (answer : Row → Answer) (user_id : ℕ)
    (product : Product) (d : Db)
    → IsSound d
    → Good d (start_checkout now new_id provider_id answer user_id product d).1
unfolding start_checkout
start_checkout-Good now new_id provider_id answer user_id product d s =
    let opened = open_checkout-Good now new_id provider_id user_id product d s in
    bind-Good (open_checkout now new_id provider_id user_id product)
      (λ p. answered now p (answer p)) d opened (λ p _. answered-Good now p (answer p) _ opened.0)
