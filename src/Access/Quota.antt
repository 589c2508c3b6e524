-- ===== src/Access/Quota.antt =====
-- The quota of src/services/signal_access_service.py: how many signals a user is shown and charged.
use atlasarb.Prelude.{
  ℕ, ◌+◌, ◌-◌, ◌≤◌, max, String, Bool, true, List, ◌≡◌, refl, ◌∙◌, arith, All, if◌then◌else◌, ◌==◌,
  ==_refl, nat_eq, string_eq,
}
use atlasarb.Signals.{Signal}
use atlasarb.Users.{UserProfile}
use atlasarb.Access.{Limit, unlimited, limited}
use atlasarb.Access.Ledger.{Ledger, delivered_count, mentions, delivered_ids, charged}
use atlasarb.Access.Service.{
  access_of, record_each, charge, record_deliveries, signal_ids, within, allowance_of, allowance,
}
use atlasarb.Access.Charging.{charged-record_each, count-record_each, record_each-le-fresh}
use atlasarb.Access.Showing.{
  fresh-within, delivered_agree, within_known, All-charged, record_each_known, deliveries_charge,
}

all_charged :
    (uid : ℕ) (channel : String) (ids : List String) (l : Ledger) (j : String)
    → mentions j ids ≡ true
    → charged uid j (record_each uid channel ids l).1 ≡ true
all_charged uid channel ids l j m =
    ground (arith, charged-record_each uid uid j channel ids l, ==_refl uid)

pub charge_grows :
    (q : Limit) (uid v : ℕ) (ids : List String) (channel : String) (l : Ledger)
    → delivered_count v (charge q uid channel ids l).1
      ≡ delivered_count v l + (if uid == v then (charge q uid channel ids l).0 else 0)
unfolding charge
charge_grows unlimited uid v ids channel l = ground arith
charge_grows (limited m) uid v ids channel l = count-record_each uid v channel ids l

module _ {D E : Type 0} where
  -- Showing and charging by a cap.
  pub charge_within :
      (q : Limit) (uid : ℕ) (signals : List (Signal D E)) (channel : String) (l : Ledger) (n : ℕ)
      → q ≡ limited n
      → (charge q uid channel (signal_ids (allowance_of q uid signals l).visible) l).0
        ≤ n - delivered_count uid l
  unfolding charge allowance_of
  charge_within unlimited uid signals channel l n e = absurd (ground arith)
  charge_within (limited m) uid signals channel l n e =
      let shown =
        within (delivered_ids uid (signal_ids signals) l) (m - delivered_count uid l) signals in
      ground (
        arith,
        record_each-le-fresh uid channel (signal_ids shown) l,
        fresh-within uid l (delivered_ids uid (signal_ids signals) l) (m - delivered_count uid l)
            signals (delivered_agree uid l signals),
      )

  charge-All :
      (q : Limit) (uid : ℕ) (ss : List (Signal D E)) (channel : String) (l : Ledger) (n : ℕ)
      → q ≡ limited n
      → All (λ id. charged uid id (charge q uid channel (signal_ids ss) l).1 ≡ true) (signal_ids ss)
  unfolding charge
  charge-All unlimited uid ss channel l n e = absurd (ground arith)
  charge-All (limited m) uid ss channel l n e =
      All-charged uid (record_each uid channel (signal_ids ss) l).1 ss
        (all_charged uid channel (signal_ids ss) l)

  charge_again :
      (q : Limit) (uid : ℕ) (signals : List (Signal D E)) (channel channel' : String) (l : Ledger)
      → let shown = (allowance_of q uid signals l).visible in
        let after = (charge q uid channel (signal_ids shown) l).1 in
        ((allowance_of q uid shown after).visible ≡ shown)
        × (charge q uid channel' (signal_ids shown) after ≡ (0, after))
  unfolding charge allowance_of
  charge_again unlimited uid signals channel channel' l = (refl, refl)
  charge_again (limited m) uid signals channel channel' l =
      let shown =
        within (delivered_ids uid (signal_ids signals) l) (m - delivered_count uid l) signals in
      let after = (record_each uid channel (signal_ids shown) l).1 in
      let known = all_charged uid channel (signal_ids shown) l in
      (
        within_known (delivered_ids uid (signal_ids shown) after) _ shown
            (λ j m. delivered_agree uid after shown j m ∙ known j m),
        record_each_known uid channel' shown after known,
      )

  -- A user whose plan has a cap is shown some candidates, and is charged for what was shown. Then
  -- the user has been charged for every signal that was shown; the user's count has grown by the
  -- number returned, and stands within the cap unless it was beyond it before, when it has not
  -- grown; and no other user's count has changed.
  pub shown_within_quota :
      (dev : Bool) (u : UserProfile) (signals : List (Signal D E)) (channel : String) (l : Ledger)
      (n v : ℕ)
      → (access_of dev u).signal_quota ≡ limited n
      → let shown = signal_ids (allowance dev u signals l).visible in
        let r = record_deliveries dev u shown channel l in
        All (λ id. charged u.telegram_user_id id r.1 ≡ true) shown
        × (delivered_count v r.1
            ≡ delivered_count v l + (if u.telegram_user_id == v then r.0 else 0))
        × (delivered_count u.telegram_user_id r.1 ≤ max (delivered_count u.telegram_user_id l) n)
  unfolding allowance
  shown_within_quota dev u signals channel l n v capped =
      let uid = u.telegram_user_id in
      let q = (access_of dev u).signal_quota in
      let shown = (allowance_of q uid signals l).visible in
      let few = charge_within q uid signals channel l n capped in
      rw (deliveries_charge dev u (signal_ids shown) channel l) (
        charge-All q uid shown channel l n capped,
        charge_grows q uid v (signal_ids shown) channel l,
        ground (arith, charge_grows q uid uid (signal_ids shown) channel l, ==_refl uid, few),
      )

  -- Showing the shown signals again: once a user has been charged for what was shown, the same
  -- signals are all shown again, whatever the plan and however much of the quota is left, and
  -- charging for them again, on any channel, costs nothing and changes nothing.
  pub reshown_free :
      (dev : Bool) (u : UserProfile) (signals : List (Signal D E)) (channel channel' : String)
      (l : Ledger)
      → let shown = (allowance dev u signals l).visible in
        let after = (record_deliveries dev u (signal_ids shown) channel l).1 in
        ((allowance dev u shown after).visible ≡ shown)
        × (record_deliveries dev u (signal_ids shown) channel' after ≡ (0, after))
  unfolding allowance
  reshown_free dev u signals channel channel' l =
      let q = (access_of dev u).signal_quota in
      let shown = signal_ids (allowance_of q u.telegram_user_id signals l).visible in
      rw (deliveries_charge dev u shown channel l) (
        rw (deliveries_charge dev u shown channel' (charge q u.telegram_user_id channel shown l).1)
          (charge_again q u.telegram_user_id signals channel channel' l))
