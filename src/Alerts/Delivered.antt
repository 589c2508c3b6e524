-- ===== src/Alerts/Delivered.antt =====
-- What an evaluation by src/services/notification_service.py leaves behind.
use atlasarb.Prelude.{
  ℕ, ◌+◌, Bool, true, false, not, ◌&&◌, some, List, [], ◌∷◌, ◌++◌, ◌≡◌, refl, sym, subst, ap, inl,
  inr, ◌⊎◌, if◌then◌else◌, Bool-cases, nat_eq, string_eq, pair_eq, ◌∙◌,
}
use atlasarb.Prelude.Dict.{get-put_self}
use atlasarb.Signals.{Signal}
use atlasarb.Users.{UserProfile}
use atlasarb.Access.Service.{may_deliver, record_delivery}
use atlasarb.Alerts.{Member, AlertSettings, AlertDb, Message, alert_of, throttle_text, paywall_text}
use atlasarb.Alerts.Tables.{get_cooldown, set_cooldown, has_logged}
use atlasarb.Alerts.Eligible.{Verdict, refused, broken, capped, passed, route_of, eligible}
use atlasarb.Alerts.Evaluate.{
  maybe_notify_paywall, settle_quota, throttle, arm, deliver, act, evaluate_user,
}
use atlasarb.Alerts.Gates.{Wanted, eligible_passed}

++_assoc {ℓ} :
    {A : Type ℓ} (xs : List A) (y : A) (zs : List A) → (xs ++ y ∷ []) ++ zs ≡ xs ++ y ∷ zs
++_assoc [] y zs = refl
++_assoc (x ∷ xs) y zs = ap (λ r. x ∷ r) (++_assoc xs y zs)

++_nil {ℓ} : {A : Type ℓ} (xs : List A) → xs ≡ xs ++ []
++_nil [] = refl
++_nil (x ∷ xs) = ap (λ r. x ∷ r) (++_nil xs)

pub if_true {ℓ} : {A : Type ℓ} (b : Bool) (x y : A) → b ≡ true → (if b then x else y) ≡ x
if_true b x y h = rw h refl

pub if_false {ℓ} : {A : Type ℓ} (b : Bool) (x y : A) → b ≡ false → (if b then x else y) ≡ y
if_false b x y h = rw h refl

module _ {D : Type 0} (c : AlertSettings D) where
  -- What charging may add: the notice of the paywall.
  abbrev pub Adds : ℕ → AlertDb D → AlertDb D → Type 0
  Adds uid db r =
      (rest : List Message) × (r.outbox ≡ db.outbox ++ rest)
      × ((rest ≡ []) ⊎ (rest ≡ paywall_text uid ∷ []))
      × (r.sent ≡ db.sent)
      × (r.cooldowns ≡ db.cooldowns)
      × (r.ledger ≡ db.ledger)

  paywall-Adds :
      (now : ℕ) (u : UserProfile) (db : AlertDb D)
      → Adds u.telegram_user_id db (maybe_notify_paywall c now u db)
  unfolding maybe_notify_paywall
  paywall-Adds now u db = elim (Bool-cases (may_deliver c.dev u db.ledger)) [
    | inl may ↦ rw may ([], ++_nil db.outbox, inl refl, refl, refl, refl)
    | inr spent ↦
        rw spent (elim (Bool-cases (has_logged u.telegram_user_id "paywall_notice" db.logs)) [
          | inl told ↦ rw told ([], ++_nil db.outbox, inl refl, refl, refl, refl)
          | inr untold ↦
              rw untold (paywall_text u.telegram_user_id ∷ [], refl, inr refl, refl, refl, refl)
        ])
  ]

  -- Nothing is charged or armed, and nothing is sent but, perhaps, the notice of the hourly cap.
  abbrev pub Quiet : UserProfile → AlertDb D → AlertDb D → Type 0
  Quiet u db r =
      (r.ledger ≡ db.ledger)
      × (r.cooldowns ≡ db.cooldowns)
      × (r.sent ≡ db.sent)
      × ((r.outbox ≡ db.outbox) ⊎ (r.outbox ≡ db.outbox ++ throttle_text u.telegram_user_id ∷ []))

  throttle-Quiet :
      (notify : Bool) (now : ℕ) (u : UserProfile) (db : AlertDb D)
      → Quiet u db (throttle c notify now u.telegram_user_id db)
  unfolding throttle
  throttle-Quiet false now u db = (refl, refl, refl, inl refl)
  throttle-Quiet true now u db = (refl, refl, refl, inr refl)

module _ {D E : Type 0} (c : AlertSettings D) where
  -- The alert, and at most the notice of the paywall behind it; one more sent; the ledger as the charge
  -- leaves it, where deliveries are charged; the user's cooldown of the route for a minute, and no other.
  abbrev pub Delivered : ℕ → UserProfile → Signal D E → AlertDb D → AlertDb D → Type 0
  Delivered later u s db r =
      (rest : List Message) × (r.outbox ≡ db.outbox ++ alert_of u.telegram_user_id s.id ∷ rest)
      × ((rest ≡ []) ⊎ (rest ≡ paywall_text u.telegram_user_id ∷ []))
      × (r.sent ≡ db.sent + 1)
      × (r.ledger
          ≡ (if c.metered then (record_delivery c.dev u s.id "alert" db.ledger).1 else db.ledger))
      × (get_cooldown u.telegram_user_id (route_of c s) r.cooldowns
          ≡ some (record { last_net_pct = c.stored_pct s.net_profit_pct; until = later + 60 }))
      × (r.cooldowns
          ≡ set_cooldown u.telegram_user_id (route_of c s) (c.stored_pct s.net_profit_pct)
              (later + 60) db.cooldowns)

  armed :
      (later : ℕ) (u : UserProfile) (s : Signal D E) (db : AlertDb D)
      → get_cooldown u.telegram_user_id (route_of c s) (arm c later u s db).cooldowns
        ≡ some (record { last_net_pct = c.stored_pct s.net_profit_pct; until = later + 60 })
  unfolding arm get_cooldown set_cooldown
  armed later u s db = get-put_self (u.telegram_user_id, route_of c s) _ db.cooldowns

  deliver-Delivered :
      (later : ℕ) (u : UserProfile) (s : Signal D E) (db : AlertDb D)
      → Delivered later u s db (deliver c later u s db)
  unfolding deliver settle_quota arm
  deliver-Delivered later u s db =
      let uid = u.telegram_user_id in
      let shown = record db { outbox = db.outbox ++ alert_of uid s.id ∷ [] } in
      elim (Bool-cases c.metered) [
        | inl metered ↦
            let charged = record shown {
              ledger = (record_delivery c.dev u s.id "alert" db.ledger).1;
            } in
            let (rest, out, what, same, cool, ledger) = paywall-Adds c later u charged in
            rw metered (
              rest,
              out ∙ ++_assoc db.outbox (alert_of uid s.id) rest,
              what,
              ap (λ n. n + 1) same,
              ledger,
              armed later u s (maybe_notify_paywall c later u charged),
              ap
                  (set_cooldown u.telegram_user_id (route_of c s) (c.stored_pct s.net_profit_pct)
                    (later + 60))
                  cool,
            )
        | inr free ↦ rw free ([], refl, inl refl, refl, refl, armed later u s shown, refl)
      ]

  -- The two ends of an evaluation.
  abbrev pub Ends : ℕ → ℕ → Bool → Member D → Signal D E → AlertDb D → Bool × AlertDb D → Type 0
  Ends now later arrives u s db r =
      ((r.0 ≡ true) × (arrives ≡ true) × Wanted c now u s db × Delivered later u.profile s db r.1)
      ⊎ ((r.0 ≡ false) × Quiet c u.profile db r.1)

  act-Ends :
      (v : Verdict) (now later : ℕ) (arrives : Bool) (u : Member D) (s : Signal D E)
      (db : AlertDb D)
      → c.bound ≡ true
      → eligible c now u s db ≡ v
      → Ends now later arrives u s db (act c v now later arrives u.profile s db)
  unfolding act
  act-Ends refused now later arrives u s db bound e = inr (refl, (refl, refl, refl, inl refl))
  act-Ends broken now later arrives u s db bound e = inr (refl, (refl, refl, refl, inl refl))
  act-Ends (capped notify) now later arrives u s db bound e =
      inr (refl, throttle-Quiet c notify now u.profile db)
  act-Ends passed now later arrives u s db bound e =
      let test = c.metered && not (may_deliver c.dev u.profile db.ledger) in
      let same : Ends now later arrives u s db (false, db) =
        inr (refl, (refl, refl, refl, inl refl)) in
      elim (Bool-cases test) [
        | inl spent ↦ subst (Ends now later arrives u s db) (sym (if_true test _ _ spent)) same
        | inr open_quota ↦
            let (wanted, confident, unheld, free) = eligible_passed c now u s db e in
            elim (Bool-cases arrives) [
              | inr lost ↦
                  subst (Ends now later arrives u s db)
                    (sym (if_false test _ _ open_quota ∙ if_false arrives _ _ lost)) same
              | inl sent ↦
                  subst (Ends now later arrives u s db)
                    (sym (if_false test _ _ open_quota ∙ if_true arrives _ _ sent))
                    (inl (
                      refl,
                      sent,
                      (bound, wanted, confident, unheld, free, open_quota),
                      deliver-Delivered later u.profile s db,
                    ))
            ]
      ]

  -- An evaluation of a user for a signal ends in one of two ways. It returns True: then the notifier
  -- is bound and took the alert, the signal passes the user's filter or a favourite of the user
  -- triggers it, its confidence reaches the threshold, the pair is not muted for the user, no
  -- cooldown of the route holds it back, and the quota was not spent; and what is left is the alert,
  -- at most the paywall's notice behind it, one more sent, and a cooldown of the user and the route
  -- for a minute, every other cooldown kept. Where the service of the quota is given, the ledger is
  -- then what its record_delivery makes of it, which charges nothing for a user without a quota or a
  -- signal already charged; where it is not given, the ledger is as before. Or the evaluation returns
  -- False: then nothing is charged, counted or armed, and no message is sent but, perhaps, the notice
  -- of the hourly cap.
  pub evaluate_user-Ends :
      (now later : ℕ) (arrives : Bool) (u : Member D) (s : Signal D E) (db : AlertDb D)
      → Ends now later arrives u s db (evaluate_user c now later arrives u s db)
  unfolding evaluate_user
  evaluate_user-Ends now later arrives u s db = elim (Bool-cases c.bound) [
    | inl bound ↦
        subst (Ends now later arrives u s db) (sym (if_true c.bound _ _ bound))
          (act-Ends (eligible c now u s db) now later arrives u s db bound refl)
    | inr unbound ↦
        subst (Ends now later arrives u s db) (sym (if_false c.bound _ _ unbound))
          (inr (refl, (refl, refl, refl, inl refl)))
  ]
