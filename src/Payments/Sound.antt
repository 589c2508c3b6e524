-- ===== src/Payments/Sound.antt =====
-- The invariant of the payment tables, and that each single write keeps it: purchases stand under
-- their ids, whoever is billed for a purchase has Pro, and what is paid is billed.
use atlasarb.Prelude.{
  ℕ, String, true, ◌||◌, none, some, List, [], ◌∷◌, ◌++◌, ◌≡◌, ◌≢◌, inl, inr, arith, ◌==◌,
  string_eq, nat_eq, option_eq, any, ==_iff, Bool-cases,
}
use atlasarb.Prelude.Dict
use atlasarb.Prelude.Dict.{get-put}
use atlasarb.Purchases.{paid, status_eq}
use atlasarb.Users.{UserProfile, is_pro}
use atlasarb.Payments.Db.{Db, Row, BillingEvent}
use atlasarb.Payments.Repo.{recorded_in}
use atlasarb.Payments.Service.{product_ref}
use atlasarb.Payments.Evolution.{HasPro}

pub record IsSound (d : Db) : Type 0 where
  pub keyed : (id : String) (p : Row) → Dict.get id d.purchases ≡ some p → p.id ≡ id
  pub users_keyed : (n : ℕ) (u : UserProfile) → Dict.get n d.users ≡ some u → u.telegram_user_id ≡ n
  pub paid_billed :
      (id : String) (p : Row)
      → Dict.get id d.purchases ≡ some p
      → p.status ≡ paid
      → recorded_in (product_ref id) d.billing ≡ true
  pub billed_known :
      (id : String)
      → recorded_in (product_ref id) d.billing ≡ true
      → (p : Row) × (Dict.get id d.purchases ≡ some p) × HasPro p.user_id d

-- A write over an existing row, which is marked paid only if it is billed.
pub put_row-IsSound :
    (d : Db) (id : String) (p q : Row)
    → IsSound d
    → Dict.get id d.purchases ≡ some p
    → q.id ≡ id
    → q.user_id ≡ p.user_id
    → (q.status ≡ paid → recorded_in (product_ref id) d.billing ≡ true)
    → IsSound (record d { purchases = Dict.put id q d.purchases })
put_row-IsSound d id p q s found named owned billed = record {
  keyed = λ j r h. ground (arith, get-put id j q d.purchases, ==_iff id j, s.keyed j r);
  users_keyed = s.users_keyed;
  paid_billed = λ j r h e. elim (Bool-cases (id == j)) [
    | inl same ↦ ground (arith, get-put id j q d.purchases, ==_iff id j, billed)
    | inr other ↦ s.paid_billed j r (ground (arith, get-put id j q d.purchases)) e
  ];
  billed_known = λ j h.
      let (r, found_r, pro) = s.billed_known j h in
      elim (Bool-cases (id == j)) [
        | inl same ↦
            let e : r.user_id ≡ q.user_id = ground (arith, ==_iff id j) in
            (q, rw (get-put id j q d.purchases, same), rw e at pro)
        | inr other ↦ (r, rw (get-put id j q d.purchases, other) found_r, pro)
      ];
}

pub add_row-IsSound :
    (d : Db) (id : String) (q : Row)
    → IsSound d
    → Dict.get id d.purchases ≡ none
    → q.id ≡ id
    → q.status ≢ paid
    → IsSound (record d { purchases = Dict.put id q d.purchases })
add_row-IsSound d id q s fresh named unpaid = record {
  keyed = λ j r h. ground (arith, get-put id j q d.purchases, ==_iff id j, s.keyed j r);
  users_keyed = s.users_keyed;
  paid_billed = λ j r h e. elim (Bool-cases (id == j)) [
    | inl same ↦ absurd (unpaid (ground (arith, get-put id j q d.purchases)))
    | inr other ↦ s.paid_billed j r (ground (arith, get-put id j q d.purchases)) e
  ];
  billed_known = λ j h.
      let (r, found_r, pro) = s.billed_known j h in
      elim (Bool-cases (id == j)) [
        | inl same ↦ absurd (ground (arith, ==_iff id j))
        | inr other ↦ (r, rw (get-put id j q d.purchases, other) found_r, pro)
      ];
}

-- A user row is written over with one that has Pro.
pub HasPro-put_user :
    (d : Db) (n m : ℕ) (v : UserProfile)
    → is_pro v.subscription ≡ true
    → HasPro m d
    → HasPro m (record d { users = Dict.put n v d.users })
HasPro-put_user d n m v pro (u, found, has) = elim (Bool-cases (n == m)) [
  | inl same ↦ (v, rw (get-put n m v d.users, same), pro)
  | inr other ↦ (u, rw (get-put n m v d.users, other) found, has)
]

pub put_user-IsSound :
    (d : Db) (n : ℕ) (v : UserProfile)
    → IsSound d
    → v.telegram_user_id ≡ n
    → is_pro v.subscription ≡ true
    → IsSound (record d { users = Dict.put n v d.users })
put_user-IsSound d n v s named pro = record {
  keyed = s.keyed;
  users_keyed = λ m u h. ground (arith, get-put n m v d.users, ==_iff n m, s.users_keyed m u);
  paid_billed = s.paid_billed;
  billed_known = λ j h.
      let (r, found, has) = s.billed_known j h in
      (r, found, HasPro-put_user d n r.user_id v pro has);
}

pub recorded_in-append :
    (ref : String) (es : List BillingEvent) (e : BillingEvent)
    → recorded_in ref (es ++ e ∷ []) ≡ (recorded_in ref es || e.external_payment_id == some ref)
unfolding recorded_in any
recorded_in-append ref [] e = ground arith
recorded_in-append ref (x ∷ es) e = ground (arith, recorded_in-append ref es e)

-- A billing event for a purchase whose owner has Pro.
pub add_bill-IsSound :
    (d : Db) (id : String) (p : Row) (e : BillingEvent)
    → IsSound d
    → Dict.get id d.purchases ≡ some p
    → e.external_payment_id ≡ some (product_ref id)
    → HasPro p.user_id d
    → ((j : String) → product_ref id ≡ product_ref j → id ≡ j)
    → IsSound (record d { billing = d.billing ++ e ∷ [] })
add_bill-IsSound d id p e s found refers pro injective = record {
  keyed = s.keyed;
  users_keyed = s.users_keyed;
  paid_billed = λ j r h k.
      rw (recorded_in-append (product_ref j) d.billing e) (ground (arith, s.paid_billed j r h k));
  billed_known = λ j h. elim (Bool-cases (recorded_in (product_ref j) d.billing)) [
    | inl old ↦ s.billed_known j old
    | inr new ↦
        let same : id ≡ j = injective j (
          ground (
            arith,
            recorded_in-append (product_ref j) d.billing e,
            ==_iff e.external_payment_id (some (product_ref j)),
          )) in
        (p, rw same at found, pro)
  ];
}
