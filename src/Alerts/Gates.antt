-- ===== src/Alerts/Gates.antt =====
-- Which users src/services/notification_service.py sends an alert.
use atlasarb.Prelude.{
  ℕ, Bool, true, false, not, ◌&&◌, ◌||◌, Option, none, some, ◌≡◌, refl, inl, inr, arith, ltb,
  Bool-cases, nat_eq, string_eq, pair_eq,
}
use atlasarb.Signals.{Signal}
use atlasarb.Access.Service.{may_deliver}
use atlasarb.Alerts.{Member, AlertSettings, AlertDb}
use atlasarb.Alerts.Tables.{is_muted}
use atlasarb.Alerts.Eligible.{passed, fav_trigger, passes_filter, cooling, unmuted, eligible}

module _ {D E : Type 0} (c : AlertSettings D) where
  -- What has to hold for an alert.
  abbrev pub Wanted : ℕ → Member D → Signal D E → AlertDb D → Type 0
  Wanted now u s db =
      (c.bound ≡ true)
      × ((passes_filter c now u s || fav_trigger c u s db) ≡ true)
      × (ltb s.confidence_score c.confidence_threshold ≡ false)
      × (is_muted u.profile.telegram_user_id s.trading_pair now db.mutes ≡ some false)
      × (cooling c now u.profile.telegram_user_id s db ≡ false)
      × ((c.metered && not (may_deliver c.dev u.profile db.ledger)) ≡ false)

  unmuted_passed :
      (now : ℕ) (u : Member D) (s : Signal D E) (db : AlertDb D) (o : Option Bool)
      → unmuted c now u s db o ≡ passed
      → (o ≡ some false) × (cooling c now u.profile.telegram_user_id s db ≡ false)
  unfolding unmuted
  unmuted_passed now u s db none h = absurd (ground arith)
  unmuted_passed now u s db (some true) h = absurd (ground arith)
  unmuted_passed now u s db (some false) h =
      elim (Bool-cases (cooling c now u.profile.telegram_user_id s db)) [
        | inl held ↦ absurd (ground (arith, rw held at h))
        | inr free ↦ (refl, free)
      ]

  pub eligible_passed :
      (now : ℕ) (u : Member D) (s : Signal D E) (db : AlertDb D)
      → eligible c now u s db ≡ passed
      → ((passes_filter c now u s || fav_trigger c u s db) ≡ true)
        × (ltb s.confidence_score c.confidence_threshold ≡ false)
        × (is_muted u.profile.telegram_user_id s.trading_pair now db.mutes ≡ some false)
        × (cooling c now u.profile.telegram_user_id s db ≡ false)
  unfolding eligible
  eligible_passed now u s db h =
      elim (Bool-cases (passes_filter c now u s || fav_trigger c u s db)) [
        | inr unwanted ↦ absurd (ground (arith, rw unwanted at h))
        | inl wanted ↦ elim (Bool-cases (ltb s.confidence_score c.confidence_threshold)) [
          | inl doubtful ↦ absurd (ground (arith, rw (wanted, doubtful) at h))
          | inr confident ↦
              let (unheld, free) = unmuted_passed now u s db _ (rw (wanted, confident) at h) in
              (wanted, confident, unheld, free)
        ]
      ]
