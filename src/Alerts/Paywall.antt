-- ===== src/Alerts/Paywall.antt =====
-- How often src/services/notification_service.py announces the paywall.
use atlasarb.Prelude.{
  ℕ, ◌+◌, ◌≤◌, String, Bool, true, false, not, ◌&&◌, ◌||◌, List, [], ◌∷◌, ◌++◌, ◌≡◌, sym, subst,
  inl, inr, arith, if◌then◌else◌, count, any, Bool-cases, nat_eq, ◌==◌, ==_iff, string_eq,
}
use atlasarb.Signals.{Signal}
use atlasarb.Users.{UserProfile}
use atlasarb.Access.Service.{may_deliver, record_delivery}
use atlasarb.Alerts.{
  Member, AlertSettings, AlertDb, Log, Message, alert_of, throttle_text, paywall_text,
}
use atlasarb.Alerts.Tables.{log_row, has_logged}
use atlasarb.Alerts.Eligible.{Verdict, refused, broken, capped, passed, eligible}
use atlasarb.Alerts.Delivered.{if_true, if_false}
use atlasarb.Alerts.Evaluate.{
  maybe_notify_paywall, settle_quota, throttle, arm, deliver, act, evaluate_user,
}

-- The notice of the paywall to a user.
abbrev pub is_notice : ℕ → Message → Bool
is_notice uid (alert_of v id) = false
is_notice uid (throttle_text v) = false
is_notice uid (paywall_text v) = v == uid

unfoldable pub notices : ℕ → List Message → ℕ
unfolding count
notices uid ms = count (is_notice uid) ms

notices-append :
    (uid : ℕ) (ms : List Message) (m : Message)
    → notices uid (ms ++ m ∷ []) ≡ notices uid ms + (if is_notice uid m then 1 else 0)
unfolding notices count
notices-append uid [] m = ground arith
notices-append uid (x ∷ ms) m = ground (arith, notices-append uid ms m)

logged-append :
    (uid v : ℕ) (kind other : String) (now : ℕ) (ls : List Log)
    → has_logged uid kind (log_row v other now ls)
      ≡ has_logged uid kind ls || ((v == uid) && other == kind)
unfolding has_logged log_row any
logged-append uid v kind other now [] = ground arith
logged-append uid v kind other now (l ∷ ls) = ground (arith, logged-append uid v kind other now ls)

if_either {ℓ κ} :
    {A : Type ℓ} (P : A → Type κ) (b : Bool) (x y : A) → P x → P y → P (if b then x else y)
if_either P true x y p q = p
if_either P false x y p q = q

-- The user was sent a notice at most once, and only with an entry in the log.
abbrev pub NotedOnce : {D : Type 0} → ℕ → AlertDb D → Type 0
NotedOnce uid db =
    notices uid db.outbox ≤ (if has_logged uid "paywall_notice" db.logs then 1 else 0)

module _ {D : Type 0} (c : AlertSettings D) where
  paywall-NotedOnce :
      (now uid : ℕ) (u : UserProfile) (db : AlertDb D)
      → NotedOnce uid db
      → NotedOnce uid (maybe_notify_paywall c now u db)
  unfolding maybe_notify_paywall
  paywall-NotedOnce now uid u db once = elim (Bool-cases (may_deliver c.dev u db.ledger)) [
    | inl may ↦ rw may once
    | inr spent ↦
        rw spent (elim (Bool-cases (has_logged u.telegram_user_id "paywall_notice" db.logs)) [
          | inl told ↦ rw told once
          | inr untold ↦ rw untold (
              ground (
                arith,
                notices-append uid db.outbox (paywall_text u.telegram_user_id),
                logged-append uid u.telegram_user_id "paywall_notice" "paywall_notice" now db.logs,
                ==_iff u.telegram_user_id uid,
                once,
              ))
        ])
  ]

  settle-NotedOnce :
      (now uid : ℕ) (u : UserProfile) (id : String) (db : AlertDb D)
      → NotedOnce uid db
      → NotedOnce uid (settle_quota c now u id db)
  unfolding settle_quota
  settle-NotedOnce now uid u id db once = elim (Bool-cases c.metered) [
    | inl metered ↦ subst (NotedOnce uid) (sym (if_true c.metered _ _ metered)) (
        paywall-NotedOnce now uid u
          (record db { ledger = (record_delivery c.dev u id "alert" db.ledger).1 }) once)
    | inr free ↦ subst (NotedOnce uid) (sym (if_false c.metered _ _ free)) once
  ]

  throttle-NotedOnce :
      (notify : Bool) (now uid v : ℕ) (db : AlertDb D)
      → NotedOnce uid db
      → NotedOnce uid (throttle c notify now v db)
  unfolding throttle
  throttle-NotedOnce false now uid v db once = once
  throttle-NotedOnce true now uid v db once = ground (
    arith,
    notices-append uid db.outbox (throttle_text v),
    logged-append uid v "paywall_notice" "throttle_notice" now db.logs,
    once,
  )

module _ {D E : Type 0} (c : AlertSettings D) where
  deliver-NotedOnce :
      (later uid : ℕ) (u : UserProfile) (s : Signal D E) (db : AlertDb D)
      → NotedOnce uid db
      → NotedOnce uid (deliver c later u s db)
  unfolding deliver arm
  deliver-NotedOnce later uid u s db once =
      let shown = record db { outbox = db.outbox ++ alert_of u.telegram_user_id s.id ∷ [] } in
      let charged = settle_quota c later u s.id shown in
      let kept : NotedOnce uid shown =
        ground (arith, notices-append uid db.outbox (alert_of u.telegram_user_id s.id), once) in
      let once' : NotedOnce uid charged = settle-NotedOnce c later uid u s.id shown kept in
      ground (
        arith,
        logged-append uid u.telegram_user_id "paywall_notice" "instant_alert" later charged.logs,
        once',
      )

  act-NotedOnce :
      (v : Verdict) (now later : ℕ) (arrives : Bool) (uid : ℕ) (u : UserProfile) (s : Signal D E)
      (db : AlertDb D)
      → NotedOnce uid db
      → NotedOnce uid (act c v now later arrives u s db).1
  unfolding act
  act-NotedOnce refused now later arrives uid u s db once = once
  act-NotedOnce broken now later arrives uid u s db once = once
  act-NotedOnce (capped notify) now later arrives uid u s db once =
      throttle-NotedOnce c notify now uid u.telegram_user_id db once
  act-NotedOnce passed now later arrives uid u s db once =
      if_either (λ (r : Bool × AlertDb D). NotedOnce uid r.1)
        (c.metered && not (may_deliver c.dev u db.ledger)) _ _ once
        (if_either (λ (r : Bool × AlertDb D). NotedOnce uid r.1) arrives _ _
          (deliver-NotedOnce later uid u s db once) once)

-- An evaluation: the two times, whether the alert arrives, the user, the signal.
pub record Evaluation (D E : Type 0) : Type 0 where
  pub now : ℕ
  pub later : ℕ
  pub arrives : Bool
  pub member : Member D
  pub signal : Signal D E

module _ {D E : Type 0} (c : AlertSettings D) where
  unfoldable pub evaluate_all : List (Evaluation D E) → AlertDb D → AlertDb D
  unfolding evaluate_user
  evaluate_all [] db = db
  evaluate_all (e ∷ es) db =
      evaluate_all es (evaluate_user c e.now e.later e.arrives e.member e.signal db).1

  -- Through any run of evaluations, of any users and signals, one after another, a user is sent the
  -- notice of the paywall at most once, and only with an entry in the log, if so it was at the start.
  pub evaluate_all-NotedOnce :
      (es : List (Evaluation D E)) (uid : ℕ) (db : AlertDb D)
      → NotedOnce uid db
      → NotedOnce uid (evaluate_all es db)
  unfolding evaluate_all evaluate_user
  evaluate_all-NotedOnce [] uid db once = once
  evaluate_all-NotedOnce (e ∷ es) uid db once = evaluate_all-NotedOnce es uid _ (
      if_either (λ (r : Bool × AlertDb D). NotedOnce uid r.1) c.bound _ _
        (act-NotedOnce c (eligible c e.now e.member e.signal db) e.now e.later e.arrives uid
          e.member.profile e.signal db once)
        once)
