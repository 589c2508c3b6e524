-- ===== src/Access/Overlap.antt =====
-- Two deliveries of src/services/signal_access_service.py that overlap.
use atlasarb.Prelude.{
  ℕ, ◌+◌, String, Bool, true, false, [], ◌∷◌, ◌≡◌, refl, arith, ◌==◌, ==_refl, nat_eq, string_eq,
}
use atlasarb.Users.{UserProfile}
use atlasarb.Access.{Limit, unlimited, limited}
use atlasarb.Access.Ledger.{Ledger, delivered_count, charged}
use atlasarb.Access.Service.{
  access_of, record_each, charge, record_deliveries, record_delivery, may_deliver,
}
use atlasarb.Access.Charging.{record_row_new, charged-record_row, count-record_row}
use atlasarb.Access.Runs.{spare, may_deliver-spare, spare_iff}

charge_new :
    (n uid : ℕ) (id channel : String) (l : Ledger)
    → charged uid id l ≡ false
    → delivered_count uid (charge (limited n) uid channel (id ∷ []) l).1 ≡ delivered_count uid l + 1
unfolding charge record_each
charge_new n uid id channel l new =
    ground
      (arith, count-record_row uid uid id channel l, record_row_new uid id channel l, ==_refl uid)

charge_other :
    (n uid : ℕ) (i j channel : String) (l : Ledger)
    → (i == j) ≡ false
    → charged uid j (charge (limited n) uid channel (i ∷ []) l).1 ≡ charged uid j l
unfolding charge record_each
charge_other n uid i j channel l other = ground (arith, charged-record_row uid uid i j channel l)

-- Both charged from one allowance.
both_charged :
    (q : Limit) (uid : ℕ) (i j channel channel' : String) (l : Ledger) (n : ℕ)
    → q ≡ limited n
    → delivered_count uid l + 1 ≡ n
    → (i == j) ≡ false
    → charged uid i l ≡ false
    → charged uid j l ≡ false
    → let first = (charge q uid channel (i ∷ []) l).1 in
      (spare q uid l ≡ true)
      × (spare q uid first ≡ false)
      × (delivered_count uid (charge q uid channel' (j ∷ []) first).1 ≡ n + 1)
both_charged unlimited uid i j channel channel' l n e last other new new' = absurd (ground arith)
both_charged (limited m) uid i j channel channel' l n e last other new new' =
    let first = (charge (limited m) uid channel (i ∷ []) l).1 in
    (
      ground (arith, spare_iff (limited m) uid l m refl),
      ground (arith, spare_iff (limited m) uid first m refl, charge_new m uid i channel l new),
      ground (
        arith,
        charge_new m uid i channel l new,
        charge_new m uid j channel' first,
        charge_other m uid i j channel l other,
      ),
    )

-- A user with a cap has one signal of it left, and has not been charged for either of two signals.
-- A delivery of each is allowed where the ledger shows that one is left; after the first is charged
-- another would be refused. But if the second was allowed before the first was charged, as two
-- overlapping deliveries do, charging it too takes the user's count one beyond the cap.
pub overlap_exceeds :
    (dev : Bool) (u : UserProfile) (i j channel channel' : String) (l : Ledger) (n : ℕ)
    → (access_of dev u).signal_quota ≡ limited n
    → delivered_count u.telegram_user_id l + 1 ≡ n
    → (i == j) ≡ false
    → charged u.telegram_user_id i l ≡ false
    → charged u.telegram_user_id j l ≡ false
    → let first = (record_delivery dev u i channel l).1 in
      (may_deliver dev u l ≡ true)
      × (may_deliver dev u first ≡ false)
      × (delivered_count u.telegram_user_id (record_delivery dev u j channel' first).1 ≡ n + 1)
unfolding record_delivery record_deliveries
overlap_exceeds dev u i j channel channel' l n capped last other new new' =
    let first = (record_delivery dev u i channel l).1 in
    rw (may_deliver-spare dev u l) (
      rw (may_deliver-spare dev u first) (
        both_charged (access_of dev u).signal_quota u.telegram_user_id i j channel channel' l n
          capped last other new new'))
