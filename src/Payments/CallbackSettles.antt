-- ===== src/Payments/CallbackSettles.antt =====
-- A callback that reports a payment (src/services/payments/webhook.py) settles the purchase.
use atlasarb.Prelude.{
  ℕ, String, Bool, true, false, some, [], ◌∷◌, ◌++◌, ◌≡◌, refl, arith, string_eq, nat_eq, bool_eq,
  option_eq, pair_eq, length,
}
use atlasarb.Prelude.Dict
use atlasarb.Purchases.{is_open, is_paid}
use atlasarb.Users.{UserProfile}
use atlasarb.Payments.Json.{Fields, obj}
use atlasarb.Payments.Db.{Db, Row, Result, ok, session}
use atlasarb.Payments.Repo.{
  record_event, mark_processed, get_purchase, seen_in, update_taken, reference_taken, recorded_in,
}
use atlasarb.Payments.Service.{product_ref}
use atlasarb.Payments.Callback.{Codec, Update, read_update, amount_matches, asset_of, is_paid_event}
use atlasarb.Payments.Webhook.{
  WebhookResult, activated, provider_name, settled_result, finish, settle_callback, find_purchase,
  event_of, act_on, log_and_act, handle_update, handle,
}
use atlasarb.Payments.Evolution.{HasPro}
use atlasarb.Payments.Sound.{IsSound}
use atlasarb.Payments.Outcomes.{settled_row, mark_paid_settles}
use atlasarb.Payments.CallbackSafety.{guard_hit, is_duplicate_lem, record_event-Good}
use atlasarb.Payments.CallbackRepeats.{handle_lem}

open_not_paid : (p : Row) → is_open p ≡ true → is_paid p ≡ false
unfolding is_open is_paid
open_not_paid p h = ground arith

-- The answer to a callback that settled a purchase.
abbrev pub settled_answer : Row → WebhookResult
settled_answer p = record {
  accepted = true;
  status = activated;
  purchase = some p;
  confirmed = some p;
}

module _ (c : Codec) (price now : ℕ) (u : Update) where
  -- The purchase as a callback leaves it.
  abbrev pub paid_by : Row → Row
  paid_by p = settled_row now u.invoice_id (asset_of c u.invoice) (some u.invoice) p

  -- What is said of a purchase that a callback settled.
  abbrev pub Settles : Row → Result WebhookResult × Db → Type 0
  Settles p r =
      (r.0 ≡ ok (settled_answer (paid_by p)))
      × HasPro p.user_id r.1
      × (recorded_in (product_ref p.id) r.1.billing ≡ true)

  settle_callback-Settles :
      (event : ℕ) (p : Row) (v : UserProfile) (d : Db)
      → IsSound d
      → amount_matches c price u.invoice ≡ true
      → Dict.get p.id d.purchases ≡ some p
      → is_open p ≡ true
      → Dict.get p.user_id d.users ≡ some v
      → reference_taken (paid_by p) (Dict.values d.purchases) ≡ false
      → Settles p (settle_callback c price now u event p d)
  unfolding settle_callback finish settled_result mark_processed is_paid
  settle_callback-Settles event p v d s same found still found_v free =
      let (answer, _, pro, billed) =
        mark_paid_settles now u.invoice_id (asset_of c u.invoice) (some u.invoice) d p.id p v s
          found still found_v free in
      rw same (rw (open_not_paid p still) (rw answer (refl, pro, billed)))

  act_on-Settles :
      (event : ℕ) (p : Row) (v : UserProfile) (d : Db)
      → IsSound d
      → is_paid_event u ≡ true
      → amount_matches c price u.invoice ≡ true
      → u.purchase_id ≡ some p.id
      → Dict.get p.id d.purchases ≡ some p
      → is_open p ≡ true
      → Dict.get p.user_id d.users ≡ some v
      → reference_taken (paid_by p) (Dict.values d.purchases) ≡ false
      → Settles p (act_on c price now true u event d)
  unfolding act_on find_purchase get_purchase
  act_on-Settles event p v d s reports same named found still found_v free = rw reports (
      rw (named, find_purchase)
        (rw found (settle_callback-Settles event p v d s same found still found_v free)))

  handle_update_new :
      (payload : Fields) (d : Db)
      → guard_hit c true u.update_id d ≡ false
      → handle_update c price now true payload u d ≡ log_and_act c price now true payload u d
  unfolding handle_update
  handle_update_new payload d new = rw (is_duplicate_lem c true u.update_id d) (rw new)

  recorded_db :
      (payload : Fields) (n : Bool × ℕ) (d : Db)
      → u.update_id ≡ some n
      → seen_in provider_name n d.events ≡ false
      → record_event (event_of c true payload u) d
        ≡ (ok (length d.events), record d { events = d.events ++ event_of c true payload u ∷ [] })
  unfolding record_event event_of
  recorded_db payload n d numbered new = rw (numbered, update_taken) (rw new)

  recorded :
      (payload : Fields) (n : Bool × ℕ) (d : Db)
      → u.update_id ≡ some n
      → seen_in provider_name n d.events ≡ false
      → session (record_event (event_of c true payload u)) d
        ≡ (ok (length d.events), record d { events = d.events ++ event_of c true payload u ∷ [] })
  recorded payload n d numbered new = rw (recorded_db payload n d numbered new)

  log_and_act-Settles :
      (payload : Fields) (n : Bool × ℕ) (p : Row) (v : UserProfile) (d : Db)
      → IsSound d
      → u.update_id ≡ some n
      → seen_in provider_name n d.events ≡ false
      → is_paid_event u ≡ true
      → amount_matches c price u.invoice ≡ true
      → u.purchase_id ≡ some p.id
      → Dict.get p.id d.purchases ≡ some p
      → is_open p ≡ true
      → Dict.get p.user_id d.users ≡ some v
      → reference_taken (paid_by p) (Dict.values d.purchases) ≡ false
      → Settles p (log_and_act c price now true payload u d)
  unfolding log_and_act
  log_and_act-Settles payload n p v d s numbered new reports same named found still found_v free =
      let e = event_of c true payload u in
      let ran = recorded payload n d numbered new in
      let logged = record_event-Good e d s in
      let sound = (rw (recorded_db payload n d numbered new) at logged).0 in
      rw ran (
        act_on-Settles (length d.events) p v (record d { events = d.events ++ e ∷ [] }) sound
          reports same named found still found_v free)

-- In tables that keep the invariant, a verified callback that is not in the log yet, reports a
-- payment of the right amount for an open purchase and whose owner is known, is answered as
-- activated with the purchase as paid and its confirmation; the owner has Pro and the purchase is
-- billed. It is assumed that no other purchase holds the payment reference that it gets, for which
-- the table has a unique index.
pub handle-Settles :
    (c : Codec) (price now : ℕ) (body signature : String) (fs : Fields) (n : Bool × ℕ) (p : Row)
    (v : UserProfile) (d : Db)
    → IsSound d
    → c.loads body ≡ some (obj fs)
    → c.verify body signature ≡ true
    → (read_update c fs).update_id ≡ some n
    → seen_in provider_name n d.events ≡ false
    → is_paid_event (read_update c fs) ≡ true
    → amount_matches c price (read_update c fs).invoice ≡ true
    → (read_update c fs).purchase_id ≡ some p.id
    → Dict.get p.id d.purchases ≡ some p
    → is_open p ≡ true
    → Dict.get p.user_id d.users ≡ some v
    → reference_taken (paid_by c price now (read_update c fs) p) (Dict.values d.purchases) ≡ false
    → Settles c price now (read_update c fs) p (handle c price now body signature d)
handle-Settles c price now body signature fs n p v d s decoded verified numbered new reports same
      named found still found_v free =
    rw (handle_lem c price now body signature fs d decoded) (
      rw verified (
        rw (handle_update_new c price now (read_update c fs) fs d (rw numbered new)) (
          log_and_act-Settles c price now (read_update c fs) fs n p v d s numbered new reports same
            named found still found_v free)))
