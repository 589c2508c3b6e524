-- ===== src/Payments/Grants.antt =====
-- SubscriptionService.activate_lifetime (src/services/subscription_service.py) for a purchase: what
-- it writes, and that it is idempotent on the payment reference.
use Prim.Native.String.append
use text.Mathlib.TextLemmas.{append_cancel_left}
use atlasarb.Prelude.{
  ℕ, String, true, false, Option, none, some, List, [], ◌∷◌, ◌≡◌, ◌≢◌, inl, inr, refl, sym, ◌∙◌,
  arith, ◌==◌, ◌++◌ as ◌++ᴸ◌, string_eq, nat_eq, option_eq, ==_iff, ==_refl, Bool-cases, ap,
}
use atlasarb.Prelude.Dict
use atlasarb.Prelude.Dict.{get-put}
use atlasarb.Users.{UserProfile, is_pro, pro_tier, tier_eq}
use atlasarb.Payments.Db.{Db, Row, Favorite, BillingEvent, ok}
use atlasarb.Payments.Repo.{
  get_user, recorded_in, saved_profile, save_profile, save_profile_over, payment_recorded,
  record_billing, clashes, unfreeze_all, unfreeze,
}
use atlasarb.Payments.Activation.{granted, replayed, grant, grant_to, activate_lifetime}
use atlasarb.Payments.Service.{product_ref}
use atlasarb.Payments.Evolution.{Moves-refl, BilledOnce-append}
use atlasarb.Payments.Sound.{
  IsSound, put_user-IsSound, add_bill-IsSound, HasPro-put_user, recorded_in-append,
}
use atlasarb.Payments.Writes.{Good}

pub product_ref-injective : (a b : String) → product_ref a ≡ product_ref b → a ≡ b
unfolding product_ref
product_ref-injective a b h = append_cancel_left "purchase:" a b h

pub product_ref-ne-empty : (id : String) → product_ref id ≢ ""
unfolding product_ref
product_ref-ne-empty id h = cc (sym (append.cons "p" "urchase:" id) ∙ h)

favorites-IsSound :
    (d : Db) (fs : List Favorite) → IsSound d → IsSound (record d { favorites = fs })
favorites-IsSound d fs s = record {
  keyed = s.keyed;
  users_keyed = s.users_keyed;
  paid_billed = s.paid_billed;
  billed_known = s.billed_known;
}

abbrev billing_event : UserProfile → ℕ → String → BillingEvent
billing_event u amount ref = record {
  user_id = u.telegram_user_id;
  event_type = "purchase";
  tier = pro_tier;
  amount_usd = amount;
  external_payment_id = some ref;
}

module _ (now : ℕ) (u : UserProfile) (amount : ℕ) (ref : String) where
  granted-pro : is_pro (saved_profile u (granted now u)).subscription ≡ true
  unfolding saved_profile granted is_pro
  granted-pro = refl

  abbrev promoted : Db → Db
  promoted d = record d {
    users = Dict.put u.telegram_user_id (saved_profile u (granted now u)) d.users;
  }

  -- The tables after a grant.
  abbrev pub granted_db : Db → Db
  granted_db d = record (promoted d) {
    billing = d.billing ++ᴸ billing_event u amount ref ∷ [];
    favorites =
        unfreeze u.telegram_user_id "signal"
          (unfreeze u.telegram_user_id "exchange" (unfreeze u.telegram_user_id "coin" d.favorites));
  }

  pub grant_lem :
      (d : Db)
      → Dict.get u.telegram_user_id d.users ≡ some u
      → recorded_in ref d.billing ≡ false
      → grant now u amount (some ref) d ≡ (ok (some (granted now u)), granted_db d)
  unfolding grant save_profile save_profile_over record_billing clashes unfreeze_all granted
  grant_lem d found fresh = rw (found, save_profile_over) (rw fresh)

  pub granted_db_recorded : (d : Db) → recorded_in ref (granted_db d).billing ≡ true
  granted_db_recorded d = ground (
    arith,
    recorded_in-append ref d.billing (billing_event u amount ref),
    ==_refl {A = Option String} (some ref),
  )

  pub granted_db-Good :
      (d : Db) (id : String) (p : Row)
      → IsSound d
      → Dict.get u.telegram_user_id d.users ≡ some u
      → Dict.get id d.purchases ≡ some p
      → p.user_id ≡ u.telegram_user_id
      → ref ≡ product_ref id
      → recorded_in ref d.billing ≡ false
      → Good d (granted_db d)
  unfolding saved_profile
  granted_db-Good d id p s found_u found owner refers fresh = (
    favorites-IsSound _ _ (
        add_bill-IsSound (promoted d) id p (billing_event u amount ref)
          (put_user-IsSound d u.telegram_user_id _ s refl granted-pro) found (ap some refers)
          (
            saved_profile u (granted now u),
            rw (owner, get-put _ _ _ d.users, ==_refl _),
            granted-pro,
          )
          (product_ref-injective id)),
    record {
      rows = λ j r h. (r, h, Moves-refl r);
      bills = λ j h. rw (recorded_in-append j d.billing (billing_event u amount ref), h);
      once = BilledOnce-append ref d.billing (billing_event u amount ref) refl fresh;
      seen = λ provider n h. h;
      pros = λ n h. HasPro-put_user d u.telegram_user_id n _ granted-pro h;
    },
  )

module _ (now n amount : ℕ) (ref : String) (d : Db) where
  pub activate_unknown :
      Dict.get n d.users ≡ none → activate_lifetime now n amount (some ref) d ≡ (ok none, d)
  unfolding activate_lifetime get_user
  activate_unknown missing = rw (missing, grant_to)

  pub activate_replay :
      (u : UserProfile)
      → Dict.get n d.users ≡ some u
      → ref ≢ ""
      → recorded_in ref d.billing ≡ true
      → activate_lifetime now n amount (some ref) d ≡ (ok (some u), d)
  unfolding activate_lifetime get_user grant_to replayed payment_recorded
  activate_replay u found named seen = elim (Bool-cases (ref == "")) [
    | inl empty ↦ absurd (named ((==_iff ref "").0 empty))
    | inr filled ↦ rw (found, grant_to) (rw filled (rw seen))
  ]

  pub activate_fresh :
      (u : UserProfile)
      → Dict.get n d.users ≡ some u
      → u.telegram_user_id ≡ n
      → ref ≢ ""
      → recorded_in ref d.billing ≡ false
      → activate_lifetime now n amount (some ref) d
        ≡ (ok (some (granted now u)), granted_db now u amount ref d)
  unfolding activate_lifetime get_user grant_to replayed payment_recorded
  activate_fresh u found keyed named fresh = elim (Bool-cases (ref == "")) [
    | inl empty ↦ absurd (named ((==_iff ref "").0 empty))
    | inr filled ↦
        let e : Dict.get u.telegram_user_id d.users ≡ some u =
          ap (λ m. Dict.get m d.users) keyed ∙ found in
        rw (found, grant_to) (rw filled (rw fresh (rw (grant_lem now u amount ref d e fresh))))
  ]
