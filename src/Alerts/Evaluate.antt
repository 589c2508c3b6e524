-- ===== src/Alerts/Evaluate.antt =====
-- `_evaluate_user` of src/services/notification_service.py as a whole. `now` is the time of the first
-- transaction and `later` that of the last; `arrives` is whether Telegram takes the alert.
use atlasarb.Prelude.{ℕ, ◌+◌, String, Bool, true, false, not, ◌&&◌, [], ◌∷◌, ◌++◌, if◌then◌else◌}
use atlasarb.Signals.{Signal}
use atlasarb.Users.{UserProfile}
use atlasarb.Access.Service.{may_deliver, record_delivery}
use atlasarb.Alerts.{Member, AlertSettings, AlertDb, alert_of, throttle_text, paywall_text}
use atlasarb.Alerts.Tables.{log_row, has_logged, set_cooldown}
use atlasarb.Alerts.Eligible.{Verdict, refused, broken, capped, passed, eligible, route_of}

module _ {D : Type 0} (c : AlertSettings D) where
  -- `_maybe_notify_paywall`: once the quota is spent, and only if the log has no notice
  unfoldable pub maybe_notify_paywall : ℕ → UserProfile → AlertDb D → AlertDb D
  unfolding may_deliver has_logged log_row
  maybe_notify_paywall now u db =
      if may_deliver c.dev u db.ledger
      then db
      else if has_logged u.telegram_user_id "paywall_notice" db.logs
      then db
      else record db {
        logs = log_row u.telegram_user_id "paywall_notice" now db.logs;
        outbox = db.outbox ++ paywall_text u.telegram_user_id ∷ [];
      }

  -- the charge of a confirmed delivery, and the notice
  unfoldable pub settle_quota : ℕ → UserProfile → String → AlertDb D → AlertDb D
  unfolding record_delivery maybe_notify_paywall
  settle_quota now u id db =
      if c.metered
      then maybe_notify_paywall now u
          (record db { ledger = (record_delivery c.dev u id "alert" db.ledger).1 })
      else db

  -- the notice of the hourly cap
  unfoldable pub throttle : Bool → ℕ → ℕ → AlertDb D → AlertDb D
  unfolding log_row
  throttle false now uid db = db
  throttle true now uid db = record db {
    logs = log_row uid "throttle_notice" now db.logs;
    outbox = db.outbox ++ throttle_text uid ∷ [];
  }

module _ {D E : Type 0} (c : AlertSettings D) where
  -- the last transaction: the log and the user's cooldown of the route, for a minute
  unfoldable pub arm : ℕ → UserProfile → Signal D E → AlertDb D → AlertDb D
  unfolding log_row set_cooldown route_of
  arm later u s db = record db {
    sent = db.sent + 1;
    logs = log_row u.telegram_user_id "instant_alert" later db.logs;
    cooldowns =
        set_cooldown u.telegram_user_id (route_of c s) (c.stored_pct s.net_profit_pct) (later + 60)
          db.cooldowns;
  }

  -- what follows a send that arrived
  unfoldable pub deliver : ℕ → UserProfile → Signal D E → AlertDb D → AlertDb D
  unfolding settle_quota arm
  deliver later u s db = arm later u s (
      settle_quota c later u s.id
        (record db { outbox = db.outbox ++ alert_of u.telegram_user_id s.id ∷ [] }))

  unfoldable pub act :
      Verdict → ℕ → ℕ → Bool → UserProfile → Signal D E → AlertDb D → Bool × AlertDb D
  unfolding throttle may_deliver deliver
  act refused now later arrives u s db = (false, db)
  act broken now later arrives u s db = (false, db)
  act (capped notify) now later arrives u s db =
      (false, throttle c notify now u.telegram_user_id db)
  act passed now later arrives u s db =
      if c.metered && not (may_deliver c.dev u db.ledger)
      then (false, db)
      else if arrives
      then (true, deliver later u s db)
      else (false, db)

  -- and the guard around it, which returns False where the evaluation raises
  unfoldable pub evaluate_user : ℕ → ℕ → Bool → Member D → Signal D E → AlertDb D → Bool × AlertDb D
  unfolding eligible act
  evaluate_user now later arrives u s db =
      if c.bound then act (eligible c now u s db) now later arrives u.profile s db else (false, db)
