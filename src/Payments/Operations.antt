-- ===== src/Payments/Operations.antt =====
-- The operations of PurchaseService (src/services/purchase_service.py): each keeps the invariant of
-- the tables and lets them only evolve, on every branch and also when it raises.
use atlasarb.Prelude.{
  ℕ, String, true, Option, some, ◌≡◌, ◌≢◌, inl, inr, refl, ◌∙◌, ◌==◌, string_eq, Bool-cases,
  Option-cases, ap,
}
use atlasarb.Prelude.Dict
use atlasarb.Purchases.{PurchaseStatus, pending, paid, status_eq, is_paid}
use atlasarb.Payments.Json.{Fields}
use atlasarb.Payments.Db.{Db, Row}
use atlasarb.Payments.Repo.{get_purchase, recorded_in}
use atlasarb.Payments.Service.{
  pend, mark_pending, close_found, close, with_detail, paid_row, record_paid, product_ref,
}
use atlasarb.Payments.Evolution.{Moves-refl}
use atlasarb.Payments.Sound.{IsSound}
use atlasarb.Payments.Writes.{Good, Good-refl, session-Good, IsDecoration, advance-Good}

-- The row that a query found stands under its own id.
pub own_key :
    (d : Db) (id : String) (p : Row)
    → IsSound d
    → Dict.get id d.purchases ≡ some p
    → Dict.get p.id d.purchases ≡ some p
own_key d id p s found = ap (λ j. Dict.get j d.purchases) (s.keyed id p found) ∙ found

with_reference-IsDecoration :
    (ref : String) → IsDecoration (λ q. record q { external_payment_id = some ref })
with_reference-IsDecoration ref = record {
  keeps = λ q. record {
    id_kept = refl;
    user_kept = refl;
    code_kept = refl;
    currency_kept = refl;
    amount_kept = refl;
    status_follows = inl refl;
  };
  status_kept = λ q. refl;
}

with_detail-IsDecoration : (detail : String) → IsDecoration (with_detail detail)
unfolding with_detail
with_detail-IsDecoration detail = record {
  keeps = λ q. elim (Bool-cases (detail == "")) [
    | inl e ↦ rw e (Moves-refl q)
    | inr e ↦ rw e (record {
      id_kept = refl;
      user_kept = refl;
      code_kept = refl;
      currency_kept = refl;
      amount_kept = refl;
      status_follows = inl refl;
    })
  ];
  status_kept = λ q. elim (Bool-cases (detail == "")) [ inl e ↦ rw e | inr e ↦ rw e ];
}

paid_row-IsDecoration :
    (now : ℕ) (ref asset : Option String) (payload : Option Fields)
    → IsDecoration (paid_row now ref asset payload)
unfolding paid_row
paid_row-IsDecoration now ref asset payload = record {
  keeps = λ q. record {
    id_kept = refl;
    user_kept = refl;
    code_kept = refl;
    currency_kept = refl;
    amount_kept = refl;
    status_follows = inl refl;
  };
  status_kept = λ q. refl;
}

close_found-Good :
    (now : ℕ) (status : PurchaseStatus) (detail : String) (id : String) (d : Db)
    → status ≢ paid
    → IsSound d
    → Good d (close_found now status detail (Dict.get id d.purchases) d).1
unfolding close_found
close_found-Good now status detail id d unpaid s = elim (Option-cases (Dict.get id d.purchases)) [
  | inl missing ↦ rw (missing, close_found) (Good-refl d s)
  | inr (p, found) ↦
      rw (found, close_found)
        (elim (Bool-cases (p.status == status)) [
          | inl same ↦ rw same (Good-refl d s)
          | inr other ↦ rw other (
              advance-Good now p status (with_detail detail) (with_detail-IsDecoration detail) d s
                (own_key d id p s found) (λ e. absurd (unpaid e)))
        ])
]

-- Closing a purchase as failed, cancelled or expired.
pub close-Good :
    (now : ℕ) (id : String) (status : PurchaseStatus) (detail : String) (d : Db)
    → status ≢ paid
    → IsSound d
    → Good d (close now id status detail d).1
unfolding close get_purchase
close-Good now id status detail d unpaid s =
    session-Good (λ e. close_found now status detail (Dict.get id e.purchases) e) d s
      (close_found-Good now status detail id d unpaid s)

pend-Good :
    (now : ℕ) (ref id : String) (d : Db)
    → IsSound d
    → Good d (pend now ref (Dict.get id d.purchases) d).1
unfolding pend
pend-Good now ref id d s = elim (Option-cases (Dict.get id d.purchases)) [
  | inl missing ↦ rw (missing, pend) (Good-refl d s)
  | inr (p, found) ↦
      rw (found, pend)
        (elim (Bool-cases (p.status == pending)) [
          | inl same ↦ rw same (Good-refl d s)
          | inr other ↦ rw other (
              advance-Good now p pending _ (with_reference-IsDecoration ref) d s
                (own_key d id p s found) (λ e. cc))
        ])
]

pub mark_pending-Good :
    (now : ℕ) (id ref : String) (d : Db) → IsSound d → Good d (mark_pending now id ref d).1
unfolding mark_pending get_purchase
mark_pending-Good now id ref d s =
    session-Good (λ e. pend now ref (Dict.get id e.purchases) e) d s (pend-Good now ref id d s)

pub record_paid-Good :
    (now : ℕ) (ref asset : Option String) (payload : Option Fields) (id : String) (d : Db)
    → IsSound d
    → recorded_in (product_ref id) d.billing ≡ true
    → Good d (record_paid now ref asset payload (Dict.get id d.purchases) d).1
unfolding record_paid
record_paid-Good now ref asset payload id d s billed =
    elim (Option-cases (Dict.get id d.purchases)) [
      | inl missing ↦ rw (missing, record_paid) (Good-refl d s)
      | inr (p, found) ↦
          rw (found, record_paid)
            (elim (Bool-cases (is_paid p)) [
              | inl old ↦ rw old (Good-refl d s)
              | inr new ↦ rw new (
                  advance-Good now p paid (paid_row now ref asset payload)
                    (paid_row-IsDecoration now ref asset payload) d s (own_key d id p s found)
                    (λ e. rw (s.keyed id p found) billed))
            ])
    ]
