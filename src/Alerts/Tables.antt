-- ===== src/Alerts/Tables.antt =====
-- NotificationRepository of src/database/repositories/misc_repos.py.
use atlasarb.Prelude.{
  ℕ, ◌+◌, String, Bool, true, false, not, ◌&&◌, ◌||◌, Option, none, some, List, [], ◌∷◌, ◌++◌,
  if◌then◌else◌, ◌==◌, nat_eq, string_eq, pair_eq, any, filter, count, ltb, leb,
}
use atlasarb.Prelude.Dict
use atlasarb.Prelude.Dict.{Dict}
use atlasarb.Payments.Db.{Favorite}
use atlasarb.Access.Favorites.{of_kind}
use atlasarb.Alerts.{Mute, Log, AlertCooldown}

-- `values` of favorites_repo.py, without the frozen
unfoldable pub favorite_values : ℕ → String → List Favorite → List String
unfolding of_kind
favorite_values uid kind [] = []
favorite_values uid kind (f ∷ fs) =
    if of_kind uid kind f && not f.frozen
    then f.value ∷ favorite_values uid kind fs
    else favorite_values uid kind fs

-- the mutes that a pair is under: its own and "*ALL*"
unfoldable pub mutes_on : ℕ → String → ℕ → List Mute → List Mute
unfolding filter
mutes_on uid pair now ms =
    filter (λ m. (m.user_id == uid) && (((m.pair == pair) || m.pair == "*ALL*") && ltb now m.until))
      ms

-- `scalar_one_or_none() is not None`; none: two rows or more, and the query raises
unfoldable pub one_or_none {ℓ} : {A : Type ℓ} → List A → Option Bool
one_or_none [] = some false
one_or_none (x ∷ []) = some true
one_or_none (x ∷ y ∷ r) = none

unfoldable pub is_muted : ℕ → String → ℕ → List Mute → Option Bool
unfolding mutes_on one_or_none
is_muted uid pair now ms = one_or_none (mutes_on uid pair now ms)

unfoldable pub mute_pair : ℕ → String → ℕ → List Mute → List Mute
mute_pair uid pair until [] = record { user_id = uid; pair = pair; until = until } ∷ []
mute_pair uid pair until (m ∷ ms) =
    if (m.user_id == uid) && m.pair == pair
    then record m { until = until } ∷ ms
    else m ∷ mute_pair uid pair until ms

unfoldable pub purge_expired_mutes : ℕ → List Mute → List Mute
unfolding filter
purge_expired_mutes now ms = filter (λ m. not (leb m.until now)) ms

unfoldable pub log_row : ℕ → String → ℕ → List Log → List Log
log_row uid notif_type now ls =
    ls ++ record { user_id = uid; notif_type = notif_type; created_at = now } ∷ []

unfoldable pub has_logged : ℕ → String → List Log → Bool
unfolding any
has_logged uid notif_type ls = any (λ l. (l.user_id == uid) && l.notif_type == notif_type) ls

-- `alerts_in_last_hour`, since an hour (3600) before `now`
unfoldable pub alerts_in_last_hour : ℕ → ℕ → List Log → ℕ
unfolding count
alerts_in_last_hour uid now ls =
    count
      (λ l.
        (l.user_id == uid) && ((l.notif_type == "instant_alert") && leb now (l.created_at + 3600)))
      ls

-- ON CONFLICT DO UPDATE writes over the row of the user and the route
module _ {D : Type 0} where
  unfoldable pub get_cooldown :
      ℕ → String → Dict (ℕ × String) (AlertCooldown D) → Option (AlertCooldown D)
  unfolding Dict.get
  get_cooldown uid route m = Dict.get (uid, route) m

  unfoldable pub set_cooldown :
      ℕ → String → D → ℕ → Dict (ℕ × String) (AlertCooldown D) → Dict (ℕ × String) (AlertCooldown D)
  unfolding Dict.put
  set_cooldown uid route net_pct until m =
      Dict.put (uid, route) (record { last_net_pct = net_pct; until = until }) m
