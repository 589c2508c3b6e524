-- ===== src/Payments/Examples.antt =====
-- Tests and concrete instances of the theorems about payments.
use atlasarb.Prelude.{
  ℕ, true, false, none, some, List, [], ◌∷◌, ◌≡◌, refl, arith, string_eq, nat_eq, count, any,
  ==_iff,
}
use atlasarb.Prelude.Dict
use atlasarb.Purchases.{pending, is_open, can_transition, pro_lifetime}
use atlasarb.Users.{UserProfile, free_user, free_tier, en, usd}
use atlasarb.Payments.Db.{Db, Row, ok}
use atlasarb.Payments.Repo.{saved_profile, recorded_in, reference_taken, saved_row}
use atlasarb.Payments.Service.{
  mark_expired, close, paid_row, with_detail, take_chars, mark_paid, product_ref, text_or,
  payload_or,
}
use atlasarb.Payments.Activation.{granted}
use atlasarb.Payments.Evolution.{HasPro, BilledOnce, bill_count}
use atlasarb.Payments.Grants.{granted_db, granted_db-Good}
use atlasarb.Payments.Sound.{IsSound}
use atlasarb.Payments.Writes.{Good, put_row}
use atlasarb.Payments.Outcomes.{settled_row, failed_row, mark_paid_unknown_user}
use atlasarb.Payments.Traces.{perform, Call, pay, expire, run, run-Good, run-paid}

abbrev pub ann : UserProfile
ann = record {
  telegram_user_id = 7;
  username = some "ann";
  first_name = none;
  role = free_user;
  subscription = record { tier = free_tier; purchased_at = none };
  settings = record {
    language = en;
    timezone = "UTC";
    currency = usd;
    daily_summary_enabled = false;
    daily_summary_time = "08:00";
    instant_alerts_enabled = true;
    favorite_coin_alerts = false;
    favorite_exchange_alerts = false;
  };
  onboarding_step = 3;
  created_at = some 1;
  suspended = false;
  pending_deeplink = none;
}

abbrev pub order : Row
order = record {
  id = "p1";
  user_id = 7;
  product_code = pro_lifetime;
  currency = "USD";
  amount = 2000;
  status = pending;
  provider = "cryptobot";
  external_payment_id = some "inv1";
  asset = none;
  provider_payload = none;
  detail = none;
  created_at = some 10;
  updated_at = some 10;
  paid_at = none;
}

abbrev pub shop : Db
shop = record {
  users = (7, ann) ∷ [];
  billing = [];
  purchases = ("p1", order) ∷ [];
  events = [];
  favorites = [];
}

pub shop-IsSound : IsSound shop
unfolding Dict.get recorded_in any
shop-IsSound = record {
  keyed = λ id p h. ground (arith, ==_iff "p1" id);
  users_keyed = λ n u h. ground arith;
  paid_billed = λ id p h e. ground (arith, ==_iff "p1" id);
  billed_known = λ id h. cc;
}

abbrev calls : List (ℕ × Call)
calls =
    (20, pay "p1" (some "inv1") (some "USDT") none)
    ∷ (21, pay "p1" (some "inv1") (some "USDT") none)
    ∷ (22, expire "p1" "late")
    ∷ []

run-Good_example : Good shop (run calls shop)
run-Good_example = run-Good calls shop shop-IsSound

abbrev paid_order : Row
paid_order = settled_row 20 (some "inv1") (some "USDT") none order

paid_order_free : reference_taken paid_order (Dict.values shop.purchases) ≡ false
unfolding Dict.values reference_taken paid_row any text_or payload_or
paid_order_free = refl

failed_order_free : reference_taken (failed_row order) (Dict.values shop.purchases) ≡ false
unfolding Dict.values reference_taken with_detail take_chars any
failed_order_free = refl

pub order_found : Dict.get "p1" shop.purchases ≡ some order
unfolding Dict.get
order_found = refl

pub ann_found : Dict.get 7 shop.users ≡ some ann
unfolding Dict.get
ann_found = refl

pub order_open : is_open order ≡ true
unfolding is_open
order_open = refl

-- The shop after a crash between the grant and the record.
abbrev crashed_shop : Db
crashed_shop = granted_db 19 ann 2000 (product_ref "p1") shop

crashed_shop-IsSound : IsSound crashed_shop
unfolding recorded_in any
crashed_shop-IsSound =
    (granted_db-Good 19 ann 2000 (product_ref "p1") shop "p1" order shop-IsSound ann_found
      order_found refl refl nothing_billed).0
  where
    nothing_billed : recorded_in (product_ref "p1") [] ≡ false
    nothing_billed = refl

abbrev pro_ann : UserProfile
pro_ann = saved_profile ann (granted 19 ann)

crashed_found : Dict.get 7 crashed_shop.users ≡ some pro_ann
unfolding Dict.get Dict.put
crashed_found = refl

-- A shop whose buyer is not there.
abbrev empty_shop : Db
empty_shop = record shop { users = [] }

empty_shop-IsSound : IsSound empty_shop
unfolding Dict.get recorded_in any
empty_shop-IsSound = record {
  keyed = λ id p h. ground (arith, ==_iff "p1" id);
  users_keyed = λ n u h. cc;
  paid_billed = λ id p h e. ground (arith, ==_iff "p1" id);
  billed_known = λ id h. cc;
}

nobody : Dict.get {K = ℕ} {V = UserProfile} 7 [] ≡ none
unfolding Dict.get
nobody = refl

mark_paid_unknown_user_example :
    mark_paid 20 "p1" none none none empty_shop
    ≡ (ok none, put_row "p1" (saved_row 20 order (failed_row order)) empty_shop)
mark_paid_unknown_user_example =
    mark_paid_unknown_user 20 none none none empty_shop "p1" order empty_shop-IsSound order_found
      order_open nobody failed_order_free

shop-BilledOnce : BilledOnce shop.billing
unfolding count
shop-BilledOnce ref = omega arith

order_paid : Dict.get "p1" (run calls shop).purchases ≡ some (saved_row 20 order paid_order)
unfolding run perform mark_paid mark_expired close Dict.get Dict.put Dict.values can_transition
order_paid = refl

run-paid_example :
    HasPro 7 (run calls shop) × (bill_count (product_ref "p1") (run calls shop).billing ≡ 1)
unfolding saved_row paid_row
run-paid_example =
    run-paid calls shop "p1" (saved_row 20 order paid_order) shop-IsSound shop-BilledOnce order_paid
      refl
