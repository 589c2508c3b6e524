-- ===== src/Access/Examples.antt =====
-- Runs of the access rules at concrete inputs.
use atlasarb.Prelude.{
  ℕ, ◌+◌, ◌≤◌, max, String, true, false, none, some, List, [], ◌∷◌, ◌≡◌, refl, arith, All,
  if◌then◌else◌, ◌==◌, nat_eq, string_eq,
}
use atlasarb.Users.{UserProfile, free_user, free_tier, en, usd}
use atlasarb.Payments.Db.{Favorite}
use atlasarb.Signals.Examples.{sample_signal}
use atlasarb.Access.{limited, Entitlements, full_access}
use atlasarb.Access.Ledger.{Ledger, Delivery, delivered_count, charged}
use atlasarb.Access.Service.{
  access_of, record_deliveries, record_delivery, signal_ids, allowance, may_deliver,
}
use atlasarb.Access.Quota.{shown_within_quota}
use atlasarb.Access.Runs.{AccessOp, listed, alerted, access_run, access_run_quota}
use atlasarb.Access.Overlap.{overlap_exceeds}
use atlasarb.Access.Favorites.{favorite_exists, toggle_with}
use atlasarb.Access.Toggles.{toggle_twice}

abbrev pub sample_user : UserProfile
sample_user = record {
  telegram_user_id = 7;
  username = none;
  first_name = none;
  role = free_user;
  subscription = record { tier = free_tier; purchased_at = none };
  settings = record {
    language = en;
    timezone = "UTC";
    currency = usd;
    daily_summary_enabled = false;
    daily_summary_time = "08:00";
    instant_alerts_enabled = true;
    favorite_coin_alerts = false;
    favorite_exchange_alerts = false;
  };
  onboarding_step = 3;
  created_at = some 1;
  suspended = false;
  pending_deeplink = none;
}

abbrev row_of : String → Delivery
row_of id = record { user_id = 7; signal_id = id; channel = "list" }

abbrev pub four_rows : Ledger
four_rows = row_of "a" ∷ row_of "b" ∷ row_of "c" ∷ row_of "d" ∷ []

shown_within_quota_example :
    let shown =
      signal_ids
        (allowance false sample_user
          (sample_signal "a" 5 ∷ sample_signal "e" 5 ∷ sample_signal "f" 5 ∷ [])
          four_rows).visible in
    let r = record_deliveries false sample_user shown "list" four_rows in
    All (λ id. charged 7 id r.1 ≡ true) shown
    × (delivered_count 7 r.1
        ≡ delivered_count 7 four_rows + (if sample_user.telegram_user_id == 7 then r.0 else 0))
    × (delivered_count 7 r.1 ≤ max (delivered_count 7 four_rows) 5)
unfolding access_of
shown_within_quota_example =
    shown_within_quota false sample_user
      (sample_signal "a" 5 ∷ sample_signal "e" 5 ∷ sample_signal "f" 5 ∷ []) "list" four_rows 5 7
      refl

abbrev access_ops : List (AccessOp ℕ ℕ)
access_ops =
    alerted sample_user "e" "alert" true ∷ listed sample_user (sample_signal "f" 5 ∷ []) "list" ∷ []

access_run_quota_example : delivered_count 7 (access_run false access_ops four_rows) ≤ 5
access_run_quota_example =
    access_run_quota false access_ops four_rows 7 (unfold delivered_count in omega arith)

overlap_exceeds_example :
    let first = (record_delivery false sample_user "e" "alert" four_rows).1 in
    (may_deliver false sample_user four_rows ≡ true)
    × (may_deliver false sample_user first ≡ false)
    × (delivered_count 7 (record_delivery false sample_user "f" "list" first).1 ≡ 5 + 1)
unfolding access_of delivered_count charged
overlap_exceeds_example =
    overlap_exceeds false sample_user "e" "f" "alert" "list" four_rows 5 refl refl refl refl refl

abbrev capped_plan : Entitlements
capped_plan = record (full_access free_tier (limited 5)) { max_favorite_coins = limited 2 }

abbrev coin_of : String → Favorite
coin_of value = record { user_id = 7; kind = "coin"; value = value; frozen = false }

toggle_twice_example :
    toggle_with capped_plan 7 "coin" "ETH" (coin_of "BTC" ∷ coin_of "ETH" ∷ [])
    ≡ some (
      record { ok = true; added = false; cap_reached = false; kind = "coin" },
      coin_of "BTC" ∷ [],
    )
unfolding favorite_exists toggle_with full_access
toggle_twice_example =
    toggle_twice capped_plan capped_plan 7 "coin" "ETH" (coin_of "BTC" ∷ [])
      (coin_of "BTC" ∷ coin_of "ETH" ∷ [])
      (record { ok = true; added = true; cap_reached = false; kind = "coin" }) refl refl refl
