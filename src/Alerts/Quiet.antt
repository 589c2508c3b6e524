-- ===== src/Alerts/Quiet.antt =====
-- When src/services/notification_service.py sends an alert for certain, and when it keeps silent.
use atlasarb.Prelude.{
  ℕ, ◌+◌, ◌<◌, String, Bool, true, false, not, ◌&&◌, some, List, [], ◌∷◌, ◌≡◌, refl, sym, ap, inl,
  inr, ◌⊎◌, arith, ◌==◌, nat_eq, string_eq, pair_eq, ◌∙◌, All,
}
use atlasarb.Prelude.Dict
use atlasarb.Prelude.Dict.{Dict}
use atlasarb.Payments.Db.{Favorite}
use atlasarb.Access.Ledger.{Ledger}
use atlasarb.Signals.{Signal}
use atlasarb.Users.{SubscriptionTier, free_tier, pro_tier, effective_tier}
use atlasarb.Access.{unlimited, entitlements_for}
use atlasarb.Access.Service.{may_deliver, access_of}
use atlasarb.Alerts.{Member, AlertSettings, AlertDb, Mute, Log, AlertCooldown}
use atlasarb.Alerts.Tables.{get_cooldown, set_cooldown, alerts_in_last_hour}
use atlasarb.Alerts.Eligible.{passed, hourly, route_of, holds, cooling, eligible}
use atlasarb.Alerts.Evaluate.{act, evaluate_user}
use atlasarb.Alerts.Gates.{Wanted}
use atlasarb.Alerts.Paywall.{Evaluation}
use atlasarb.Alerts.Delivered.{if_true, if_false, evaluate_user-Ends}

-- No plan caps the alerts of an hour.
no_hourly_cap :
    (dev : Bool) (tier : SubscriptionTier)
    → (entitlements_for dev tier).instant_alerts_per_hour ≡ unlimited
unfolding entitlements_for
no_hourly_cap true tier = refl
no_hourly_cap false free_tier = refl
no_hourly_cap false pro_tier = refl

uncapped :
    {D : Type 0} (c : AlertSettings D) (now : ℕ) (u : Member D) (db : AlertDb D)
    → hourly
        (access_of c.dev u.profile).instant_alerts_per_hour
        (alerts_in_last_hour u.profile.telegram_user_id now db.logs)
      ≡ passed
unfolding hourly access_of
uncapped c now u db =
    ap (λ limit. hourly limit (alerts_in_last_hour u.profile.telegram_user_id now db.logs))
      (no_hourly_cap c.dev (effective_tier c.dev u.profile))

true_ne_false : true ≡ false → ⊥
true_ne_false h = cc

get_cooldown-other :
    {D : Type 0} (uid v until : ℕ) (route r : String) (pct : D)
    (m : Dict (ℕ × String) (AlertCooldown D))
    → (v == uid) && (r == route) ≡ false
    → get_cooldown uid route (set_cooldown v r pct until m) ≡ get_cooldown uid route m
unfolding get_cooldown set_cooldown
get_cooldown-other uid v until route r pct m other =
    Dict.get-put (v, r) (uid, route) (record { last_net_pct = pct; until = until }) m
    ∙ if_false (◌==◌ {K = ℕ × String} (v, r) (uid, route)) _ _ other

-- What may happen between two evaluations: another evaluation, or new favourites, mutes, log and ledger.
pub data Between (D E : Type 0) : Type 0 where
  evaluated : Evaluation D E → Between D E
  edited : List Favorite → List Mute → List Log → Ledger → Between D E

module _ {D E : Type 0} (c : AlertSettings D) where
  -- the user's cooldown of the route, once recorded, holds back a small change
  recorded_holds :
      (uid uid' now later : ℕ) (s s' : Signal D E) (db : AlertDb D)
      → uid' ≡ uid
      → route_of c s' ≡ route_of c s
      → get_cooldown uid (route_of c s) db.cooldowns
        ≡ some (record { last_net_pct = c.stored_pct s.net_profit_pct; until = later + 60 })
      → now < later + 60
      → c.decimals.dec_leb c.profit_override (
          c.decimals.dec_abs (c.decimals.dec_sub s'.net_profit_pct (c.stored_pct s.net_profit_pct)))
        ≡ false
      → cooling c now uid' s' db ≡ true
  unfolding cooling holds
  recorded_holds uid uid' now later s s' db one route found soon small =
      rw one (rw route (rw found (ground arith)))

  eligible-Wanted :
      (now : ℕ) (u : Member D) (s : Signal D E) (db : AlertDb D)
      → Wanted c now u s db
      → eligible c now u s db ≡ passed
  unfolding eligible
  eligible-Wanted now u s db (bound, wanted, confident, unheld, free, open_quota) =
      rw wanted (rw confident (rw unheld (rw free (uncapped c now u db))))

  -- An alert that nothing stands against is sent: where the notifier is bound and takes it, the
  -- signal passes the user's filter or a favourite triggers it, its confidence reaches the
  -- threshold, the pair is not muted, no cooldown holds it back and the quota is not spent, the
  -- evaluation returns True. On no plan does an hourly cap stand in its way.
  pub Wanted-sent :
      (now later : ℕ) (u : Member D) (s : Signal D E) (db : AlertDb D)
      → Wanted c now u s db
      → (evaluate_user c now later true u s db).0 ≡ true
  unfolding evaluate_user act
  Wanted-sent now later u s db w =
      let test = c.metered && not (may_deliver c.dev u.profile db.ledger) in
      ap (λ (r : Bool × AlertDb D). r.0)
        (if_true c.bound _ _ w.0
          ∙ ap (λ v. act c v now later true u.profile s db) (eligible-Wanted now u s db w)
          ∙ if_false test _ _ w.5)

  unfoldable pub between : List (Between D E) → AlertDb D → AlertDb D
  unfolding evaluate_user
  between [] db = db
  between (evaluated e ∷ bs) db =
      between bs (evaluate_user c e.now e.later e.arrives e.member e.signal db).1
  between (edited favorites mutes logs ledger ∷ bs) db =
      between bs (record db { favorites = favorites; mutes = mutes; logs = logs; ledger = ledger })

  -- The profit of `s'` has not moved by the override from the stored profit of `s`.
  abbrev pub IsSmall : Signal D E → Signal D E → Type 0
  IsSmall s s' =
      c.decimals.dec_leb c.profit_override
        (c.decimals.dec_abs (c.decimals.dec_sub s'.net_profit_pct (c.stored_pct s.net_profit_pct)))
      ≡ false

  -- An evaluation of another user, of another route, or of a small change before the minute is over.
  abbrev pub Spares : ℕ → ℕ → Signal D E → Between D E → Type 0
  Spares uid later s (evaluated e) =
      ((e.member.profile.telegram_user_id == uid) && (route_of c e.signal == route_of c s) ≡ false)
      ⊎ (e.member.profile.telegram_user_id ≡ uid)
        × (route_of c e.signal ≡ route_of c s)
        × (e.now < later + 60)
        × IsSmall s e.signal
  Spares uid later s (edited favorites mutes logs ledger) = Unit {0}

  -- The cooldown of the user and the route is that of an alert of `s` recorded at `later`.
  abbrev pub Cools : ℕ → ℕ → Signal D E → AlertDb D → Type 0
  Cools uid later s db =
      get_cooldown uid (route_of c s) db.cooldowns
      ≡ some (record { last_net_pct = c.stored_pct s.net_profit_pct; until = later + 60 })

  -- while it cools, a small change before the minute is over is not sent
  held_small :
      (uid later now' later' : ℕ) (arrives' : Bool) (u' : Member D) (s s' : Signal D E)
      (db : AlertDb D)
      → Cools uid later s db
      → u'.profile.telegram_user_id ≡ uid
      → route_of c s' ≡ route_of c s
      → now' < later + 60
      → IsSmall s s'
      → ((evaluate_user c now' later' arrives' u' s' db).0 ≡ false)
        × ((evaluate_user c now' later' arrives' u' s' db).1.cooldowns ≡ db.cooldowns)
  held_small uid later now' later' arrives' u' s s' db cools one route soon small =
      elim (evaluate_user-Ends c now' later' arrives' u' s' db) [
        | inr (silent, (_, same, _, _)) ↦ (silent, same)
        | inl (_, _, wanted, _) ↦
            let held =
              recorded_holds uid u'.profile.telegram_user_id now' later s s' db one route cools soon
                small in
            absurd (true_ne_false (sym held ∙ wanted.4))
      ]

  evaluate-Cools :
      (uid later : ℕ) (s : Signal D E) (e : Evaluation D E) (db : AlertDb D)
      → Spares uid later s (evaluated e)
      → Cools uid later s db
      → Cools uid later s (evaluate_user c e.now e.later e.arrives e.member e.signal db).1
  evaluate-Cools uid later s e db (inr (one, route, soon, small)) cools =
      let (_, same) =
        held_small uid later e.now e.later e.arrives e.member s e.signal db cools one route soon
          small in
      rw same cools
  evaluate-Cools uid later s e db (inl other) cools =
      elim (evaluate_user-Ends c e.now e.later e.arrives e.member e.signal db) [
        | inr (_, (_, same, _, _)) ↦ rw same cools
        | inl (_, _, _, delivered) ↦
            ap (get_cooldown uid (route_of c s)) delivered.6
            ∙ get_cooldown-other uid e.member.profile.telegram_user_id (e.later + 60) (route_of c s)
                (route_of c e.signal) (c.stored_pct e.signal.net_profit_pct) db.cooldowns other
            ∙ cools
      ]

  between-Cools :
      (uid later : ℕ) (s : Signal D E) (bs : List (Between D E)) (db : AlertDb D)
      → All (Spares uid later s) bs
      → Cools uid later s db
      → Cools uid later s (between bs db)
  unfolding between
  between-Cools uid later s [] db spare cools = cools
  between-Cools uid later s (evaluated e ∷ bs) db (first, rest) cools =
      between-Cools uid later s bs (evaluate_user c e.now e.later e.arrives e.member e.signal db).1
        rest (evaluate-Cools uid later s e db first cools)
  between-Cools uid later s (edited favorites mutes logs ledger ∷ bs) db (_, rest) cools =
      between-Cools uid later s bs
        (record db { favorites = favorites; mutes = mutes; logs = logs; ledger = ledger }) rest
        cools

  -- After an alert of a signal was delivered to a user, and until a minute after the time at which
  -- it was recorded, the user is sent no alert of a signal of the same route whose profit has not
  -- moved by the override from the profit recorded. So it is also where in between the favourites, the
  -- mutes, the log and the ledger were changed at will and other evaluations were made, each of another
  -- user, of another route, or again of so small a change within the minute; the user's filter may
  -- differ too.
  pub repeat_held :
      (now later now' later' : ℕ) (arrives arrives' : Bool) (u u' : Member D) (s s' : Signal D E)
      (bs : List (Between D E)) (db : AlertDb D)
      → (evaluate_user c now later arrives u s db).0 ≡ true
      → All (Spares u.profile.telegram_user_id later s) bs
      → u'.profile.telegram_user_id ≡ u.profile.telegram_user_id
      → route_of c s' ≡ route_of c s
      → now' < later + 60
      → IsSmall s s'
      → (evaluate_user c now' later' arrives' u' s'
          (between bs (evaluate_user c now later arrives u s db).1)).0
        ≡ false
  repeat_held now later now' later' arrives arrives' u u' s s' bs db sent spare one route soon
        small =
      elim (evaluate_user-Ends c now later arrives u s db) [
        | inr (not_sent, _) ↦ absurd (cc)
        | inl (_, _, _, delivered) ↦
            let db' = (evaluate_user c now later arrives u s db).1 in
            let uid = u.profile.telegram_user_id in
            (held_small uid later now' later' arrives' u' s s' (between bs db')
              (between-Cools uid later s bs db' spare delivered.5) one route soon small).0
      ]
