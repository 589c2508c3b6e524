-- ===== src/Alerts/Eligible.antt =====
-- The first transaction of `_evaluate_user` of src/services/notification_service.py: whether a user
-- is to be sent an alert of a signal.
use atlasarb.Prelude.{
  ℕ, String, Bool, true, false, not, ◌&&◌, ◌||◌, Option, none, some, if◌then◌else◌, ltb, leb,
  nat_beq,
}
use atlasarb.Signals.{Signal, dedup_key}
use atlasarb.Access.{Limit, unlimited, limited, arb_type_allowed}
use atlasarb.Access.Service.{access_of}
use atlasarb.Alerts.{Member, AlertSettings, AlertDb, AlertCooldown, lists, matches}
use atlasarb.Alerts.Tables.{favorite_values, is_muted, alerts_in_last_hour, get_cooldown}

-- `refused`: the evaluation ends. `broken`: a query raises. `capped`: the hourly cap is reached,
-- with whether this alert is the one that crosses it.
pub data Verdict : Type 0 where
  refused : Verdict
  broken : Verdict
  capped : Bool → Verdict
  passed : Verdict

-- the hourly cap against the alerts of the last hour
unfoldable pub hourly : Limit → ℕ → Verdict
hourly unlimited sent = passed
hourly (limited n) sent = if leb n sent then capped (nat_beq sent n) else passed

module _ {D E : Type 0} (c : AlertSettings D) where
  -- favourite coins and exchanges, which bypass the filter
  unfoldable pub fav_trigger : Member D → Signal D E → AlertDb D → Bool
  unfolding access_of lists favorite_values
  fav_trigger u s db =
      let uid = u.profile.telegram_user_id in
      let exchanges = favorite_values uid "exchange" db.favorites in
      (access_of c.dev u.profile).favorite_entity_alerts
      && ((u.profile.settings.favorite_coin_alerts
            && lists s.coin (favorite_values uid "coin" db.favorites))
          || (u.profile.settings.favorite_exchange_alerts
              && (lists s.buy_exchange exchanges || lists s.sell_exchange exchanges)))

  unfoldable pub passes_filter : ℕ → Member D → Signal D E → Bool
  unfolding access_of arb_type_allowed matches
  passes_filter now u s =
      u.profile.settings.instant_alerts_enabled
      && (arb_type_allowed (access_of c.dev u.profile) s.arb_type
          && matches c.decimals now u.filter s)

  unfoldable pub route_of : Signal D E → String
  unfolding dedup_key
  route_of s = c.route_text (dedup_key c.decimals s)

  -- a cooldown that runs, and a profit that has not moved enough
  unfoldable pub holds : ℕ → Signal D E → Option (AlertCooldown D) → Bool
  holds now s none = false
  holds now s (some cd) =
      ltb now cd.until
      && not (
          c.decimals.dec_leb c.profit_override
            (c.decimals.dec_abs (c.decimals.dec_sub s.net_profit_pct cd.last_net_pct)))

  unfoldable pub cooling : ℕ → ℕ → Signal D E → AlertDb D → Bool
  unfolding holds get_cooldown route_of
  cooling now uid s db = holds now s (get_cooldown uid (route_of s) db.cooldowns)

  -- the tests behind the filter, where the mute is known
  unfoldable pub unmuted : ℕ → Member D → Signal D E → AlertDb D → Option Bool → Verdict
  unfolding cooling hourly access_of alerts_in_last_hour
  unmuted now u s db none = broken
  unmuted now u s db (some true) = refused
  unmuted now u s db (some false) =
      let uid = u.profile.telegram_user_id in
      if cooling now uid s db
      then refused
      else hourly (access_of c.dev u.profile).instant_alerts_per_hour
          (alerts_in_last_hour uid now db.logs)

  unfoldable pub eligible : ℕ → Member D → Signal D E → AlertDb D → Verdict
  unfolding fav_trigger passes_filter unmuted is_muted
  eligible now u s db =
      if not (passes_filter now u s || fav_trigger u s db)
      then refused
      else if ltb s.confidence_score c.confidence_threshold
      then refused
      else unmuted now u s db (is_muted u.profile.telegram_user_id s.trading_pair now db.mutes)
