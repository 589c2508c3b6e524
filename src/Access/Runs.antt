-- ===== src/Access/Runs.antt =====
-- Runs of src/services/signal_access_service.py, one call after another.
use atlasarb.Prelude.{
  ℕ, ◌≤◌, ◌⊎◌, ◌-◌, String, Bool, true, false, not, List, [], ◌∷◌, ◌≡◌, refl, inl, inr, arith,
  if◌then◌else◌, ◌==◌, ==_iff, nat_eq, string_eq, nat_beq, Bool-cases,
}
use atlasarb.Signals.{Signal}
use atlasarb.Users.{UserProfile, SubscriptionTier, free_tier, pro_tier, effective_tier}
use atlasarb.Access.{Limit, unlimited, limited, free_signal_quota, entitlements_for}
use atlasarb.Access.Ledger.{Ledger, delivered_count}
use atlasarb.Access.Service.{
  access_of, record_each, charge, record_deliveries, record_delivery, signal_ids, allowance_of,
  allowance, may_deliver, exhausted,
}
use atlasarb.Access.Showing.{deliveries_charge}
use atlasarb.Access.Quota.{charge_within, charge_grows}

-- What the signal list and the alerts do: show candidates and charge what is shown; or ask, send
-- one signal and charge it, `arrived` being whether the send succeeded.
pub data AccessOp (D E : Type 0) : Type 0 where
  listed : UserProfile → List (Signal D E) → String → AccessOp D E
  alerted : UserProfile → String → String → Bool → AccessOp D E

module _ {D E : Type 0} (dev : Bool) where
  unfoldable pub access_step : AccessOp D E → Ledger → Ledger
  unfolding allowance record_deliveries may_deliver record_delivery
  access_step (listed u signals channel) l =
      (record_deliveries dev u (signal_ids (allowance dev u signals l).visible) channel l).1
  access_step (alerted u id channel arrived) l =
      if may_deliver dev u l
      then if arrived then (record_delivery dev u id channel l).1 else l
      else l

  unfoldable pub access_run : List (AccessOp D E) → Ledger → Ledger
  unfolding access_step
  access_run [] l = l
  access_run (o ∷ os) l = access_run os (access_step o l)

-- Every plan has no cap, or the free quota.
plan_quota :
    (dev : Bool) (tier : SubscriptionTier)
    → ((entitlements_for dev tier).signal_quota ≡ unlimited)
      ⊎ ((entitlements_for dev tier).signal_quota ≡ limited free_signal_quota)
unfolding entitlements_for
plan_quota true tier = inl refl
plan_quota false free_tier = inr refl
plan_quota false pro_tier = inl refl

user_quota :
    (dev : Bool) (u : UserProfile)
    → ((access_of dev u).signal_quota ≡ unlimited)
      ⊎ ((access_of dev u).signal_quota ≡ limited free_signal_quota)
unfolding access_of
user_quota dev u = plan_quota dev (effective_tier dev u)

-- `may_deliver` of a user with this cap
unfoldable pub spare : Limit → ℕ → Ledger → Bool
unfolding exhausted allowance_of
spare q uid l = not (exhausted (allowance_of {D = ℕ} {E = ℕ} q uid [] l))

pub may_deliver-spare :
    (dev : Bool) (u : UserProfile) (l : Ledger)
    → may_deliver dev u l ≡ spare (access_of dev u).signal_quota u.telegram_user_id l
unfolding may_deliver allowance spare
may_deliver-spare dev u l = refl

pub spare_iff :
    (q : Limit) (uid : ℕ) (l : Ledger) (n : ℕ)
    → q ≡ limited n
    → spare q uid l ≡ not (nat_beq (n - delivered_count uid l) 0)
unfolding spare
spare_iff unlimited uid l n e = absurd (ground arith)
spare_iff (limited m) uid l n e = ground arith

one_charged :
    (uid : ℕ) (id channel : String) (l : Ledger) → (record_each uid channel (id ∷ []) l).0 ≤ 1
unfolding record_each
one_charged uid id channel l = ground arith

charge_one :
    (q : Limit) (uid : ℕ) (id channel : String) (l : Ledger)
    → (charge q uid channel (id ∷ []) l).0 ≤ 1
unfolding charge
charge_one unlimited uid id channel l = omega arith
charge_one (limited n) uid id channel l = one_charged uid id channel l

-- A batch that adds no more than is left of the free quota keeps to it.
charge_quota :
    (q : Limit) (uid v : ℕ) (ids : List String) (channel : String) (l : Ledger)
    → (q ≡ unlimited) ⊎ ((charge q uid channel ids l).0 ≤ free_signal_quota - delivered_count uid l)
    → delivered_count v l ≤ free_signal_quota
    → delivered_count v (charge q uid channel ids l).1 ≤ free_signal_quota
charge_quota q uid v ids channel l (inl none_charged) kept = rw none_charged (unfold charge in kept)
charge_quota q uid v ids channel l (inr few) kept = elim (Bool-cases (uid == v)) [
  | inl own ↦ ground (arith, charge_grows q uid v ids channel l, ==_iff uid v, few)
  | inr other ↦ ground (arith, charge_grows q uid v ids channel l)
]

listed_quota :
    {D E : Type 0} (dev : Bool) (u : UserProfile) (signals : List (Signal D E)) (channel : String)
    (l : Ledger) (v : ℕ)
    → delivered_count v l ≤ free_signal_quota
    → delivered_count v
        (record_deliveries dev u (signal_ids (allowance dev u signals l).visible) channel l).1
      ≤ free_signal_quota
unfolding allowance
listed_quota dev u signals channel l v kept =
    let q = (access_of dev u).signal_quota in
    let shown = signal_ids (allowance_of q u.telegram_user_id signals l).visible in
    rw (deliveries_charge dev u shown channel l) (
      charge_quota q u.telegram_user_id v shown channel l
        (elim (user_quota dev u) [
          | inl open_plan ↦ inl open_plan
          | inr capped ↦
              inr (charge_within q u.telegram_user_id signals channel l free_signal_quota capped)
        ])
        kept)

alerted_quota :
    (dev : Bool) (u : UserProfile) (id channel : String) (l : Ledger) (v : ℕ)
    → may_deliver dev u l ≡ true
    → delivered_count v l ≤ free_signal_quota
    → delivered_count v (record_delivery dev u id channel l).1 ≤ free_signal_quota
unfolding record_delivery record_deliveries
alerted_quota dev u id channel l v may kept =
    let q = (access_of dev u).signal_quota in
    let uid = u.telegram_user_id in
    charge_quota q uid v (id ∷ []) channel l
      (elim (user_quota dev u) [
        | inl open_plan ↦ inl open_plan
        | inr capped ↦ inr (
            ground (
              arith,
              spare_iff q uid l free_signal_quota capped,
              may_deliver-spare dev u l,
              charge_one q uid id channel l,
            ))
      ])
      kept

module _ {D E : Type 0} (dev : Bool) where
  access_step_quota :
      (o : AccessOp D E) (l : Ledger) (v : ℕ)
      → delivered_count v l ≤ free_signal_quota
      → delivered_count v (access_step dev o l) ≤ free_signal_quota
  unfolding access_step
  access_step_quota (listed u signals channel) l v kept =
      listed_quota dev u signals channel l v kept
  access_step_quota (alerted u id channel arrived) l v kept =
      elim (Bool-cases (may_deliver dev u l)) [
        | inl may ↦ rw may (elim (Bool-cases arrived) [
          | inl sent ↦ rw sent (alerted_quota dev u id channel l v may kept)
          | inr failed ↦ rw failed kept
        ])
        | inr refused ↦ rw refused kept
      ]

  -- Take any run of signal lists and alerts, of any users on any plans, one after another; a list
  -- charges what it shows, and an alert is sent only where it may be delivered and is charged only
  -- if it arrives. A user who had been charged for no more than five signals at the start has been
  -- charged for no more than five at the end.
  pub access_run_quota :
      (os : List (AccessOp D E)) (l : Ledger) (v : ℕ)
      → delivered_count v l ≤ free_signal_quota
      → delivered_count v (access_run dev os l) ≤ free_signal_quota
  unfolding access_run
  access_run_quota [] l v kept = kept
  access_run_quota (o ∷ os) l v kept =
      access_run_quota os (access_step dev o l) v (access_step_quota o l v kept)
