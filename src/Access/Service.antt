-- ===== src/Access/Service.antt =====
-- SignalAccessService of src/services/signal_access_service.py. `dev` is the flag of
-- src/domain/dev_mode.py.
use atlasarb.Prelude.{
  ℕ, ◌+◌, ◌-◌, String, Bool, true, not, ◌&&◌, ◌||◌, List, [], ◌∷◌, if◌then◌else◌, ltb, nat_beq,
}
use atlasarb.Signals.{Signal}
use atlasarb.Users.{UserProfile, effective_tier}
use atlasarb.Access.{Limit, unlimited, limited, is_unlimited, Entitlements, entitlements_for}
use atlasarb.Access.Ledger.{Ledger, delivered_count, mentions, delivered_ids, record_row}

pub record Allowance (D E : Type 0) : Type 0 where
  pub visible : List (Signal D E)
  pub delivered : ℕ
  pub quota : Limit
  pub remaining : Limit

-- `remaining <= 0`, where -1 is `unlimited`
abbrev pub is_spent : Limit → Bool
is_spent unlimited = true
is_spent (limited n) = nat_beq n 0

unfoldable pub access_of : Bool → UserProfile → Entitlements
unfolding entitlements_for effective_tier
access_of dev u = entitlements_for dev (effective_tier dev u)

unfoldable pub record_each : ℕ → String → List String → Ledger → ℕ × Ledger
unfolding record_row
record_each uid channel [] l = (0, l)
record_each uid channel (id ∷ ids) l =
    let (new, l') = record_row uid id channel l in
    let rest = record_each uid channel ids l' in (if new then rest.0 + 1 else rest.0, rest.1)

-- `record_deliveries` of a user with this cap
unfoldable pub charge : Limit → ℕ → String → List String → Ledger → ℕ × Ledger
unfolding record_each
charge unlimited uid channel ids l = (0, l)
charge (limited q) uid channel ids l = record_each uid channel ids l

unfoldable pub record_deliveries : Bool → UserProfile → List String → String → Ledger → ℕ × Ledger
unfolding access_of charge
record_deliveries dev u [] channel l = (0, l)
record_deliveries dev u (id ∷ ids) channel l =
    charge (access_of dev u).signal_quota u.telegram_user_id channel (id ∷ ids) l

unfoldable pub record_delivery : Bool → UserProfile → String → String → Ledger → Bool × Ledger
unfolding record_deliveries
record_delivery dev u id channel l =
    let r = record_deliveries dev u (id ∷ []) channel l in (not (nat_beq r.0 0), r.1)

module _ {D E : Type 0} where
  unfoldable pub exhausted : Allowance D E → Bool
  exhausted a = not (is_unlimited a.quota) && is_spent a.remaining

  abbrev pub signal_ids : List (Signal D E) → List String
  signal_ids [] = []
  signal_ids (s ∷ ss) = s.id ∷ signal_ids ss

  -- the loop over the candidates, within a budget
  unfoldable pub within : List String → ℕ → List (Signal D E) → List (Signal D E)
  unfolding mentions
  within already budget [] = []
  within already budget (s ∷ ss) =
      let paid = mentions s.id already in
      let rest = within already (if paid then budget else budget - 1) ss in
      if paid || ltb 0 budget then s ∷ rest else rest

  unfoldable pub allowance_of : Limit → ℕ → List (Signal D E) → Ledger → Allowance D E
  unfolding delivered_count delivered_ids within
  allowance_of unlimited uid signals l = record {
    visible = signals;
    delivered = 0;
    quota = unlimited;
    remaining = unlimited;
  }
  allowance_of (limited quota) uid signals l = record {
    visible =
        within (delivered_ids uid (signal_ids signals) l) (quota - delivered_count uid l) signals;
    delivered = delivered_count uid l;
    quota = limited quota;
    remaining = limited (quota - delivered_count uid l);
  }

  unfoldable pub allowance : Bool → UserProfile → List (Signal D E) → Ledger → Allowance D E
  unfolding access_of allowance_of
  allowance dev u signals l =
      allowance_of (access_of dev u).signal_quota u.telegram_user_id signals l

unfoldable pub may_deliver : Bool → UserProfile → Ledger → Bool
unfolding allowance exhausted
may_deliver dev u l = not (exhausted (allowance {D = ℕ} {E = ℕ} dev u [] l))
