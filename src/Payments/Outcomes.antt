-- ===== src/Payments/Outcomes.antt =====
-- What `mark_paid` of src/services/purchase_service.py does on each of its paths.
use atlasarb.Prelude.{
  ℕ, String, true, false, Option, none, some, ◌≡◌, inl, inr, refl, sym, ◌∙◌, arith, ◌==◌, string_eq,
  nat_eq, ==_iff, ap,
}
use atlasarb.Prelude.Dict
use atlasarb.Prelude.Dict.{get-put}
use atlasarb.Purchases.{paid, failed, status_eq, is_paid, is_open, can_transition}
use atlasarb.Users.{UserProfile}
use atlasarb.Payments.Json.{Fields}
use atlasarb.Payments.Db.{Db, Row, ok, raise, illegal_transition}
use atlasarb.Payments.Repo.{
  get_purchase, recorded_in, reference_taken, saved_row, save_purchase, save_over,
}
use atlasarb.Payments.Activation.{activate_lifetime}
use atlasarb.Payments.Service.{
  close, close_found, record_paid, settle_open, pay_found, mark_paid, product_ref, paid_row,
  with_detail,
}
use atlasarb.Payments.Evolution.{HasPro}
use atlasarb.Payments.Sound.{IsSound}
use atlasarb.Payments.Writes.{put_row, move_to_legal}
use atlasarb.Payments.Operations.{own_key}
use atlasarb.Payments.Grants.{product_ref-ne-empty, activate_unknown, activate_replay}
use atlasarb.Payments.Settling.{activate_lifetime-ActivationEnds}

-- The purchase as a settlement leaves it, before it is saved.
abbrev pub settled_row : ℕ → Option String → Option String → Option Fields → Row → Row
settled_row now ref asset payload p = paid_row now ref asset payload (record p { status = paid })

abbrev pub failed_row : Row → Row
failed_row p = with_detail "user not found" (record p { status = failed })

-- A purchase that is already paid is returned as it is, and nothing is written.
mark_paid_again :
    (now : ℕ) (ref asset : Option String) (payload : Option Fields) (d : Db) (id : String) (p : Row)
    → Dict.get id d.purchases ≡ some p
    → p.status ≡ paid
    → mark_paid now id ref asset payload d ≡ (ok (some p), d)
unfolding mark_paid get_purchase is_paid
mark_paid_again now ref asset payload d id p found e = rw (found, pay_found) (rw e)

module _ (now : ℕ) (ref asset : Option String) (payload : Option Fields) (d : Db) where
  -- A failed, cancelled or expired purchase is refused, and nothing is written.
  pub mark_paid_closed :
      (id : String) (p : Row)
      → Dict.get id d.purchases ≡ some p
      → is_paid p ≡ false
      → is_open p ≡ false
      → mark_paid now id ref asset payload d ≡ (raise (illegal_transition p.status paid), d)
  unfolding mark_paid get_purchase
  mark_paid_closed id p found unpaid closed = rw (found, pay_found) (rw unpaid (rw closed))

  open_legal : (p : Row) → is_open p ≡ true → can_transition p.status paid ≡ true
  unfolding is_open can_transition
  open_legal p h = ground arith

  open_unpaid : (p : Row) → is_open p ≡ true → is_paid p ≡ false
  unfolding is_open is_paid
  open_unpaid p h = ground arith

  record_paid_lem :
      (p : Row) (e : Db)
      → is_open p ≡ true
      → Dict.get p.id e.purchases ≡ some p
      → reference_taken (settled_row now ref asset payload p) (Dict.values e.purchases) ≡ false
      → record_paid now ref asset payload (some p) e ≡ (
        ok (some (settled_row now ref asset payload p)),
        put_row p.id (saved_row now p (settled_row now ref asset payload p)) e,
      )
  unfolding record_paid paid_row save_purchase save_over
  record_paid_lem p e still found free =
      rw (open_unpaid p still)
        (rw (move_to_legal p paid e (open_legal p still)) (rw (found, save_over) (rw free)))

  settle_open_lem :
      (p : Row) (v : UserProfile) (e : Db)
      → is_open p ≡ true
      → activate_lifetime now p.user_id p.amount (some (product_ref p.id)) d ≡ (ok (some v), e)
      → Dict.get p.id e.purchases ≡ some p
      → reference_taken (settled_row now ref asset payload p) (Dict.values e.purchases) ≡ false
      → settle_open now ref asset payload p d ≡ (
        ok (some (settled_row now ref asset payload p)),
        put_row p.id (saved_row now p (settled_row now ref asset payload p)) e,
      )
  unfolding settle_open get_purchase
  settle_open_lem p v e still ran found free =
      rw ran (rw found (rw (record_paid_lem p e still found free)))

  -- In tables that keep the invariant, an open purchase of a known user is settled: the call
  -- returns it paid, its row is saved as paid at `now`, its owner has Pro and it is billed. It is
  -- assumed that no other purchase holds the reference that the row gets.
  pub mark_paid_settles :
      (id : String) (p : Row) (u : UserProfile)
      → IsSound d
      → Dict.get id d.purchases ≡ some p
      → is_open p ≡ true
      → Dict.get p.user_id d.users ≡ some u
      → reference_taken (settled_row now ref asset payload p) (Dict.values d.purchases) ≡ false
      → (mark_paid now id ref asset payload d).0 ≡ ok (some (settled_row now ref asset payload p))
        × (Dict.get id (mark_paid now id ref asset payload d).1.purchases
            ≡ some (saved_row now p (settled_row now ref asset payload p)))
        × HasPro p.user_id (mark_paid now id ref asset payload d).1
        × (recorded_in (product_ref id) (mark_paid now id ref asset payload d).1.billing ≡ true)
  unfolding mark_paid get_purchase
  mark_paid_settles id p u s found still found_u free =
      elim (activate_lifetime-ActivationEnds now p.amount p.id p d s (own_key d id p s found)) [
        | inl (_, missing) ↦ absurd (ground (arith, found_u, missing))
        | inr (v, e, ran, good, billed, same) ↦
            let found_e : Dict.get p.id e.purchases ≡ some p =
              ap (λ m. Dict.get p.id m) same ∙ own_key d id p s found in
            let free_e : reference_taken (settled_row now ref asset payload p)
                  (Dict.values e.purchases)
                ≡ false =
              ap (λ m. reference_taken (settled_row now ref asset payload p) (Dict.values m)) same
              ∙ free in
            let (q, found_q, pro) = good.0.billed_known p.id billed in
            let same_owner : q.user_id ≡ p.user_id = ground (arith, found_q, found_e) in
            rw (found, pay_found)
              (rw (open_unpaid p still) (
                rw still (
                  rw (settle_open_lem p v e still ran found_e free_e) (
                    (
                      refl,
                      ground (
                        arith,
                        get-put p.id id (saved_row now p (settled_row now ref asset payload p))
                            e.purchases,
                        ==_iff p.id id,
                        s.keyed id p found,
                      ),
                      rw same_owner at pro,
                      ap (λ j. recorded_in (product_ref j) e.billing) (sym (s.keyed id p found))
                          ∙ billed,
                    )))))
      ]

  -- In tables that keep the invariant, a settlement delivered twice: once an open purchase of a
  -- known user is settled, a second call with any arguments returns the saved row and writes
  -- nothing. It is assumed that no other purchase holds the reference that the row gets.
  pub mark_paid_twice :
      (id : String) (p : Row) (u : UserProfile) (now' : ℕ) (ref' asset' : Option String)
      (payload' : Option Fields)
      → IsSound d
      → Dict.get id d.purchases ≡ some p
      → is_open p ≡ true
      → Dict.get p.user_id d.users ≡ some u
      → reference_taken (settled_row now ref asset payload p) (Dict.values d.purchases) ≡ false
      → mark_paid now' id ref' asset' payload' (mark_paid now id ref asset payload d).1 ≡ (
        ok (some (saved_row now p (settled_row now ref asset payload p))),
        (mark_paid now id ref asset payload d).1,
      )
  unfolding saved_row paid_row
  mark_paid_twice id p u now' ref' asset' payload' s found still found_u free =
      mark_paid_again now' ref' asset' payload' (mark_paid now id ref asset payload d).1 id _
        (mark_paid_settles id p u s found still found_u free).1 refl

  -- In tables that keep the invariant, a call for an open purchase of a known user that is billed
  -- already, as after a crash between the grant and the record, writes the row of the purchase
  -- alone: no user and no billing event changes. It is assumed that no other purchase holds the
  -- reference that the row gets.
  pub mark_paid_retry :
      (id : String) (p : Row) (u : UserProfile)
      → IsSound d
      → Dict.get id d.purchases ≡ some p
      → is_open p ≡ true
      → Dict.get p.user_id d.users ≡ some u
      → recorded_in (product_ref id) d.billing ≡ true
      → reference_taken (settled_row now ref asset payload p) (Dict.values d.purchases) ≡ false
      → mark_paid now id ref asset payload d ≡ (
        ok (some (settled_row now ref asset payload p)),
        put_row id (saved_row now p (settled_row now ref asset payload p)) d,
      )
  unfolding mark_paid get_purchase
  mark_paid_retry id p u s found still found_u billed free =
      let key = s.keyed id p found in
      let ran =
        activate_replay now p.user_id p.amount (product_ref p.id) d u found_u
          (product_ref-ne-empty p.id)
          (ap (λ j. recorded_in (product_ref j) d.billing) key ∙ billed) in
      rw (found, pay_found)
        (rw (open_unpaid p still) (
          rw still (
            rw (settle_open_lem p u d still ran (own_key d id p s found) free) (
              ap
                (λ j. (
                  ok (some (settled_row now ref asset payload p)),
                  put_row j (saved_row now p (settled_row now ref asset payload p)) d,
                ))
                key))))

  open_not_failed : (p : Row) → is_open p ≡ true → (p.status == failed) ≡ false
  unfolding is_open
  open_not_failed p h = ground arith

  open_may_fail : (p : Row) → is_open p ≡ true → can_transition p.status failed ≡ true
  unfolding is_open can_transition
  open_may_fail p h = ground arith

  -- In tables that keep the invariant, an open purchase whose user is not there is closed as
  -- failed, and nothing is granted or billed. It is assumed that no other purchase holds the
  -- reference that the row gets.
  pub mark_paid_unknown_user :
      (id : String) (p : Row)
      → IsSound d
      → Dict.get id d.purchases ≡ some p
      → is_open p ≡ true
      → Dict.get p.user_id d.users ≡ none
      → reference_taken (failed_row p) (Dict.values d.purchases) ≡ false
      → mark_paid now id ref asset payload d
        ≡ (ok none, put_row id (saved_row now p (failed_row p)) d)
  unfolding mark_paid get_purchase settle_open close close_found save_purchase save_over
  mark_paid_unknown_user id p s found still missing free =
      let key = s.keyed id p found in
      rw (found, pay_found)
        (rw (open_unpaid p still) (
          rw still (
            rw (activate_unknown now p.user_id p.amount (product_ref p.id) d missing) (
              rw (own_key d id p s found, close_found)
                (rw (open_not_failed p still) (
                  rw (move_to_legal p failed d (open_may_fail p still)) (
                    rw (own_key d id p s found, save_over)
                      (rw free (
                        ap (λ j. (ok none, put_row j (saved_row now p (failed_row p)) d))
                          key)))))))))
