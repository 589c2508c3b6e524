-- ===== src/Onboarding.antt =====
-- Onboarding and roles: src/services/user_service.py over src/database/repositories/user_repo.py.
-- The filter of a profile is not part of it.
use atlasarb.Prelude.{
  ℕ, String, Bool, true, false, not, ◌&&◌, ◌||◌, Option, none, some, List, [], ◌∷◌, if◌then◌else◌,
  ◌==◌, nat_eq, string_eq, option_eq, any, ltb, is_some,
}
use atlasarb.Prelude.Dict
use atlasarb.Prelude.Dict.{Dict}
use atlasarb.Users.{
  UserProfile, UserRole, visitor, free_user, support, admin, role_eq, free_tier, en, usd, Language,
  Currency, is_staff, onboarding_complete,
}
use atlasarb.Payments.Repo.{saved_profile}
pub mod Roles
pub mod Examples

-- The allow-lists of src/config/settings.py.
pub record AllowLists : Type 0 where
  pub admin_telegram_ids : List ℕ
  pub support_user_ids : List ℕ

abbrev pub UserTable : Type 0
UserTable = Dict ℕ UserProfile

unfoldable pub allowlist_role : AllowLists → ℕ → Option UserRole
unfolding any
allowlist_role a uid =
    if any (λ i. i == uid) a.admin_telegram_ids
    then some admin
    else if any (λ i. i == uid) a.support_user_ids
    then some support
    else none

-- the row of a new user, whose child rows have the defaults of their columns
unfoldable pub new_user : ℕ → ℕ → Option String → Option String → UserProfile
new_user now uid username first_name = record {
  telegram_user_id = uid;
  username = username;
  first_name = first_name;
  role = visitor;
  subscription = record { tier = free_tier; purchased_at = none };
  settings = record {
    language = en;
    timezone = "UTC";
    currency = usd;
    daily_summary_enabled = false;
    daily_summary_time = "08:00";
    instant_alerts_enabled = true;
    favorite_coin_alerts = false;
    favorite_exchange_alerts = false;
  };
  onboarding_step = 0;
  created_at = some now;
  suspended = false;
  pending_deeplink = none;
}

-- `if new and row.x != new: row.x = new`
unfoldable pub refreshed : Option String → Option String → Option String
refreshed none old = old
refreshed (some text) old = if text == "" then old else some text

unfoldable pub refresh_identity : Option String → Option String → UserProfile → UserProfile
unfolding refreshed
refresh_identity username first_name row = record row {
  username = refreshed username row.username;
  first_name = refreshed first_name row.first_name;
}

-- INSERT ... ON CONFLICT DO NOTHING, and the row that is then read
unfoldable pub row_or_new : ℕ → ℕ → Option String → Option String → Option UserProfile → UserProfile
unfolding new_user
row_or_new now uid username first_name none = new_user now uid username first_name
row_or_new now uid username first_name (some row) = row

-- `UserRepository.get_or_create`
unfoldable pub register :
    ℕ → ℕ → Option String → Option String → UserTable → UserProfile × UserTable
unfolding row_or_new refresh_identity Dict.get Dict.put
register now uid username first_name users =
    let row =
      refresh_identity username first_name
        (row_or_new now uid username first_name (Dict.get uid users)) in
    (row, Dict.put uid row users)

unfoldable pub save_over_row : UserProfile → UserTable → Option UserProfile → UserTable
unfolding saved_profile Dict.put
save_over_row u users none = users
save_over_row u users (some row) = Dict.put u.telegram_user_id (saved_profile row u) users

-- `save_profile`
unfoldable pub save_user : UserProfile → UserTable → UserTable
unfolding save_over_row Dict.get
save_user u users = save_over_row u users (Dict.get u.telegram_user_id users)

-- the role that a touch leaves, and whether it is written
unfoldable pub enforced_role : Option UserRole → UserProfile → Option UserRole
unfolding is_staff onboarding_complete
enforced_role (some r) u = if u.role == r then none else some r
enforced_role none u =
    if is_staff u then some (if onboarding_complete u then free_user else visitor) else none

unfoldable pub apply_role : Option UserRole → UserProfile → UserTable → UserProfile × UserTable
unfolding save_user
apply_role none u users = (u, users)
apply_role (some r) u users = (record u { role = r }, save_user (record u { role = r }) users)

-- `get_or_create`
unfoldable pub touch :
    AllowLists → ℕ → ℕ → Option String → Option String → UserTable → UserProfile × UserTable
unfolding register allowlist_role enforced_role apply_role
touch a now uid username first_name users =
    let r = register now uid username first_name users in
    apply_role (enforced_role (allowlist_role a uid) r.0) r.0 r.1

unfoldable pub reach_step : ℕ → UserProfile → UserProfile
reach_step n u = if ltb u.onboarding_step n then record u { onboarding_step = n } else u

-- `set_language`, `set_timezone`
unfoldable pub set_language : Language → UserProfile → UserTable → UserProfile × UserTable
unfolding reach_step save_user
set_language language u users =
    let u' = reach_step 1 (record u { settings = record u.settings { language = language } }) in
    (u', save_user u' users)

unfoldable pub set_timezone : String → UserProfile → UserTable → UserProfile × UserTable
unfolding reach_step save_user
set_timezone timezone u users =
    let u' = reach_step 2 (record u { settings = record u.settings { timezone = timezone } }) in
    (u', save_user u' users)

-- the third step of a visitor makes a free user
unfoldable pub complete : UserProfile → UserProfile
complete u =
    if ltb u.onboarding_step 3
    then record u { onboarding_step = 3; role = if u.role == visitor then free_user else u.role }
    else u

unfoldable pub set_currency : Currency → UserProfile → UserTable → UserProfile × UserTable
unfolding complete save_user
set_currency currency u users =
    let u' = complete (record u { settings = record u.settings { currency = currency } }) in
    (u', save_user u' users)

unfoldable pub set_pending_deeplink :
    Option String → UserProfile → UserTable → UserProfile × UserTable
unfolding save_user
set_pending_deeplink payload u users =
    let u' = record u { pending_deeplink = payload } in (u', save_user u' users)
