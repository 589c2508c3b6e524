-- ===== src/Payments/Repo.antt =====
-- The repositories over the tables of `Db`: src/database/repositories/purchase_repo.py,
-- payment_event_repo.py, and what payments use of misc_repos.py, user_repo.py, favorites_repo.py.
use atlasarb.Prelude.{
  ℕ, zero, suc, String, Bool, true, false, not, ◌&&◌, Option, none, some, List, [], ◌∷◌, ◌++◌, ◌==◌,
  nat_eq, string_eq, option_eq, pair_eq, bool_eq, if◌then◌else◌, any, find, filter, length, ltb,
  is_some,
}
use atlasarb.Prelude.Dict
use atlasarb.Prelude.Dict.{Dict}
use atlasarb.Purchases.{ProductCode, pro_lifetime, is_open, status_eq}
use atlasarb.Users.{UserProfile}
use atlasarb.Payments.Json.{Fields, end}
use atlasarb.Payments.Db.{
  M, Row, ok, raise, integrity_error, gets, BillingEvent, PaymentEvent, Favorite,
}

-- ── purchase_repo.py ──

-- `x or {}`
abbrev pub payload_or_empty : Option Fields → Fields
payload_or_empty none = end
payload_or_empty (some fs) = fs

unfoldable pub get_purchase : String → M (Option Row)
get_purchase id = gets (λ d. Dict.get id d.purchases)

unfoldable pub get_by_external_id : String → M (Option Row)
get_by_external_id ref =
    gets (λ d. find (λ p. p.external_payment_id == some ref) (Dict.values d.purchases))

unfoldable pub add_purchase : ℕ → Row → M Row
add_purchase now p d =
    if Dict.has p.id d.purchases
    then (raise integrity_error, d)
    else let row = record p {
      provider_payload = some (payload_or_empty p.provider_payload);
      created_at = some now;
      updated_at = some now;
      paid_at = none;
    } in
      (ok p, record d { purchases = Dict.put p.id row d.purchases })

-- `uq_purchase_external_id`: another row carries the same reference
unfoldable pub reference_taken : Row → List Row → Bool
reference_taken p rows =
    is_some p.external_payment_id
    && any (λ q. not (q.id == p.id) && q.external_payment_id == p.external_payment_id) rows

-- the row that `save` writes over `row`
unfoldable pub saved_row : ℕ → Row → Row → Row
saved_row now row p = record row {
  status = p.status;
  provider = p.provider;
  external_payment_id = p.external_payment_id;
  asset = p.asset;
  provider_payload = some (payload_or_empty p.provider_payload);
  detail = p.detail;
  updated_at = some now;
  paid_at = p.paid_at;
}

unfoldable pub save_over : ℕ → Row → Option Row → M Unit
unfolding reference_taken saved_row
save_over now p none d = (ok tt, d)
save_over now p (some row) d =
    if reference_taken p (Dict.values d.purchases)
    then (raise integrity_error, d)
    else (ok tt, record d { purchases = Dict.put p.id (saved_row now row p) d.purchases })

unfoldable pub save_purchase : ℕ → Row → M Unit
unfolding save_over
save_purchase now p d = save_over now p (Dict.get p.id d.purchases) d

-- ORDER BY created_at DESC LIMIT 1; of equal times, the row inserted first
unfoldable pub created_before : Row → Row → Bool
created_before p q = elim p.created_at [
  | none ↦ is_some q.created_at
  | some s ↦ elim q.created_at [ none ↦ false | some t ↦ ltb s t ]
]

unfoldable pub newest : List Row → Option Row
unfolding created_before
newest [] = none
newest (p ∷ ps) = elim (newest ps) [
  | none ↦ some p
  | some q ↦ if created_before p q then some q else some p
]

unfoldable pub is_open_for : ℕ → ProductCode → Row → Bool
unfolding is_open
is_open_for user_id pro_lifetime p = (p.user_id == user_id) && is_open p

unfoldable pub latest_open : ℕ → ProductCode → M (Option Row)
unfolding is_open_for newest
latest_open user_id code =
    gets (λ d. newest (filter (is_open_for user_id code) (Dict.values d.purchases)))

-- ── user_repo.py (the fields that payments write) ──

unfoldable pub get_user : ℕ → M (Option UserProfile)
get_user user_id = gets (λ d. Dict.get user_id d.users)

-- the user row after `save_profile`: the Telegram identity and the creation time stay
unfoldable pub saved_profile : UserProfile → UserProfile → UserProfile
saved_profile row u = record row {
  role = u.role;
  onboarding_step = u.onboarding_step;
  suspended = u.suspended;
  pending_deeplink = u.pending_deeplink;
  settings = u.settings;
  subscription = u.subscription;
}

unfoldable pub save_profile_over : UserProfile → Option UserProfile → M Unit
unfolding saved_profile
save_profile_over u none d = (ok tt, d)
save_profile_over u (some row) d =
    (ok tt, record d { users = Dict.put u.telegram_user_id (saved_profile row u) d.users })

unfoldable pub save_profile : UserProfile → M Unit
unfolding save_profile_over
save_profile u d = save_profile_over u (Dict.get u.telegram_user_id d.users) d

-- ── misc_repos.py, BillingRepository ──

unfoldable pub recorded_in : String → List BillingEvent → Bool
recorded_in ref events = any (λ e. e.external_payment_id == some ref) events

unfoldable pub payment_recorded : String → M Bool
payment_recorded ref = gets (λ d. recorded_in ref d.billing)

-- `uq_sub_event_payment`: NULLs are distinct
unfoldable pub clashes : Option String → List BillingEvent → Bool
unfolding recorded_in
clashes none events = false
clashes (some ref) events = recorded_in ref events

unfoldable pub record_billing : BillingEvent → M Unit
unfolding clashes
record_billing e d =
    if clashes e.external_payment_id d.billing
    then (raise integrity_error, d)
    else (ok tt, record d { billing = d.billing ++ e ∷ [] })

-- ── payment_event_repo.py ──

unfoldable pub seen_in : String → Bool × ℕ → List PaymentEvent → Bool
unfolding any
seen_in provider update_id events =
    any (λ e. (e.provider == provider) && e.update_id == some update_id) events

unfoldable pub already_seen : String → Bool × ℕ → M Bool
already_seen provider update_id = gets (λ d. seen_in provider update_id d.events)

-- `uq_payment_event_update`: NULLs are distinct
unfoldable pub update_taken : PaymentEvent → Option (Bool × ℕ) → List PaymentEvent → Bool
unfolding seen_in
update_taken e none events = false
update_taken e (some n) events = seen_in e.provider n events

unfoldable pub record_event : PaymentEvent → M ℕ
unfolding update_taken
record_event e d =
    if update_taken e e.update_id d.events
    then (raise integrity_error, d)
    else (ok (length d.events), record d { events = d.events ++ e ∷ [] })

unfoldable pub set_processed : ℕ → List PaymentEvent → List PaymentEvent
set_processed n [] = []
set_processed zero (e ∷ es) = record e { processed = true } ∷ es
set_processed (suc n) (e ∷ es) = e ∷ set_processed n es

unfoldable pub mark_processed : ℕ → M Unit
unfolding set_processed
mark_processed n d = (ok tt, record d { events = set_processed n d.events })

-- ── favorites_repo.py ──

unfoldable pub unfreeze : ℕ → String → List Favorite → List Favorite
unfreeze user_id kind [] = []
unfreeze user_id kind (f ∷ fs) =
    (if (f.user_id == user_id) && f.kind == kind then record f { frozen = false } else f)
    ∷ unfreeze user_id kind fs

unfoldable pub unfreeze_all : ℕ → String → M Unit
unfolding unfreeze
unfreeze_all user_id kind d = (ok tt, record d { favorites = unfreeze user_id kind d.favorites })
