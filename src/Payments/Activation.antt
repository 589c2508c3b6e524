-- ===== src/Payments/Activation.antt =====
-- SubscriptionService.activate_lifetime of src/services/subscription_service.py. `now` is what
-- `time.time()` returns.
use atlasarb.Prelude.{ℕ, String, Bool, false, Option, none, some, ◌==◌, string_eq, if◌then◌else◌}
use atlasarb.Users.{UserProfile, paid_user, pro_tier, is_staff}
use atlasarb.Payments.Db.{M, pure, session, ◌>>=◌, ◌>>◌}
use atlasarb.Payments.Repo.{get_user, payment_recorded, save_profile, record_billing, unfreeze_all}

-- the profile that is saved
unfoldable pub granted : ℕ → UserProfile → UserProfile
unfolding is_staff
granted now u = record u {
  subscription = record { tier = pro_tier; purchased_at = some now };
  role = if is_staff u then u.role else paid_user;
}

-- `external_payment_id and await billing.payment_recorded(external_payment_id)`
unfoldable pub replayed : Option String → M Bool
unfolding payment_recorded
replayed none = pure false
replayed (some ref) = if ref == "" then pure false else payment_recorded ref

unfoldable pub grant : ℕ → UserProfile → ℕ → Option String → M (Option UserProfile)
unfolding granted save_profile record_billing unfreeze_all
grant now u amount_paid ref = do
  let p = granted now u
  save_profile p
  record_billing (record {
    user_id = u.telegram_user_id;
    event_type = "purchase";
    tier = pro_tier;
    amount_usd = amount_paid;
    external_payment_id = ref;
  })
  unfreeze_all u.telegram_user_id "coin"
  unfreeze_all u.telegram_user_id "exchange"
  unfreeze_all u.telegram_user_id "signal"
  pure (some p)

unfoldable pub grant_to : ℕ → Option UserProfile → ℕ → Option String → M (Option UserProfile)
unfolding grant replayed
grant_to now none amount_paid ref = pure none
grant_to now (some u) amount_paid ref = do
  seen ← replayed ref
  if seen then pure (some u) else grant now u amount_paid ref

unfoldable pub activate_lifetime : ℕ → ℕ → ℕ → Option String → M (Option UserProfile)
unfolding grant_to get_user
activate_lifetime now user_id amount_paid ref =
    session (do u ← get_user user_id; grant_to now u amount_paid ref)
