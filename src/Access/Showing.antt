-- ===== src/Access/Showing.antt =====
-- The candidates that src/services/signal_access_service.py shows within a budget.
use atlasarb.Prelude.{
  ℕ, ◌-◌, ◌≤◌, String, Bool, true, List, [], ◌∷◌, ◌≡◌, refl, sym, ◌∙◌, ap, inl, inr, arith, All,
  ==_refl, nat_eq, string_eq, ltb, Bool-cases,
}
use atlasarb.Signals.{Signal}
use atlasarb.Users.{UserProfile}
use atlasarb.Access.{Limit, unlimited, limited}
use atlasarb.Access.Ledger.{Ledger, mentions, delivered_ids, charged, record_row}
use atlasarb.Access.Service.{access_of, record_each, charge, record_deliveries, signal_ids, within}
use atlasarb.Access.Charging.{mentions-cons, mentions-delivered_ids, fresh, fresh-cons}

module _ {D E : Type 0} where
  -- the hypothesis for a list holds for its head and for its tail
  head_mentioned :
      (s : Signal D E) (ss : List (Signal D E)) → mentions s.id (signal_ids (s ∷ ss)) ≡ true
  head_mentioned s ss = ground (arith, mentions-cons s.id s.id (signal_ids ss), ==_refl s.id)

  tail_mentioned :
      (j : String) (s : Signal D E) (ss : List (Signal D E))
      → mentions j (signal_ids ss) ≡ true
      → mentions j (signal_ids (s ∷ ss)) ≡ true
  tail_mentioned j s ss h = ground (arith, mentions-cons j s.id (signal_ids ss))

  pub fresh-within :
      (uid : ℕ) (l : Ledger) (already : List String) (budget : ℕ) (ss : List (Signal D E))
      → ((j : String) → mentions j (signal_ids ss) ≡ true → mentions j already ≡ charged uid j l)
      → fresh uid l (signal_ids (within already budget ss)) ≤ budget
  unfolding within
  fresh-within uid l already budget [] agree = unfold fresh in omega arith
  fresh-within uid l already budget (s ∷ ss) agree =
      let agree' =
        λ (j : String) (m : mentions j (signal_ids ss) ≡ true). agree j (tail_mentioned j s ss m) in
      elim (Bool-cases (mentions s.id already)) [
        | inl paid ↦
            let known : charged uid s.id l ≡ true = sym (agree s.id (head_mentioned s ss)) ∙ paid in
            rw paid (
              ground (
                arith,
                fresh-cons uid l s.id (signal_ids (within already budget ss)),
                fresh-within uid l already budget ss agree',
              ))
        | inr unpaid ↦ rw unpaid (elim (Bool-cases (ltb 0 budget)) [
          | inl room ↦ rw room (
              ground (
                arith,
                fresh-cons uid l s.id (signal_ids (within already (budget - 1) ss)),
                fresh-within uid l already (budget - 1) ss agree',
              ))
          | inr none_left ↦
              rw none_left (ground (arith, fresh-within uid l already (budget - 1) ss agree'))
        ])
      ]

  -- what the delivered ids say of the candidates
  pub delivered_agree :
      (uid : ℕ) (l : Ledger) (ss : List (Signal D E)) (j : String)
      → mentions j (signal_ids ss) ≡ true
      → mentions j (delivered_ids uid (signal_ids ss) l) ≡ charged uid j l
  delivered_agree uid l ss j m = ground (arith, mentions-delivered_ids uid j (signal_ids ss) l)

  pub within_known :
      (already : List String) (budget : ℕ) (ss : List (Signal D E))
      → ((j : String) → mentions j (signal_ids ss) ≡ true → mentions j already ≡ true)
      → within already budget ss ≡ ss
  unfolding within
  within_known already budget [] known = refl
  within_known already budget (s ∷ ss) known =
      rw (known s.id (head_mentioned s ss)) (
        ap (λ r. s ∷ r) (within_known already budget ss (λ j m. known j (tail_mentioned j s ss m))))

  pub All-charged :
      (uid : ℕ) (l : Ledger) (ss : List (Signal D E))
      → ((j : String) → mentions j (signal_ids ss) ≡ true → charged uid j l ≡ true)
      → All (λ j. charged uid j l ≡ true) (signal_ids ss)
  All-charged uid l [] known = tt
  All-charged uid l (s ∷ ss) known = (
    known s.id (head_mentioned s ss),
    All-charged uid l ss (λ j m. known j (tail_mentioned j s ss m)),
  )

  pub record_each_known :
      (uid : ℕ) (channel : String) (ss : List (Signal D E)) (l : Ledger)
      → ((j : String) → mentions j (signal_ids ss) ≡ true → charged uid j l ≡ true)
      → record_each uid channel (signal_ids ss) l ≡ (0, l)
  unfolding record_each record_row
  record_each_known uid channel [] l known = refl
  record_each_known uid channel (s ∷ ss) l known =
      rw (known s.id (head_mentioned s ss))
        (record_each_known uid channel ss l (λ j m. known j (tail_mentioned j s ss m)))

charge_none :
    (q : Limit) (uid : ℕ) (channel : String) (l : Ledger) → charge q uid channel [] l ≡ (0, l)
unfolding charge record_each
charge_none unlimited uid channel l = refl
charge_none (limited q) uid channel l = refl

-- An empty batch is charged as any other.
pub deliveries_charge :
    (dev : Bool) (u : UserProfile) (ids : List String) (channel : String) (l : Ledger)
    → record_deliveries dev u ids channel l
      ≡ charge (access_of dev u).signal_quota u.telegram_user_id channel ids l
unfolding record_deliveries
deliveries_charge dev u [] channel l =
    sym (charge_none (access_of dev u).signal_quota u.telegram_user_id channel l)
deliveries_charge dev u (id ∷ ids) channel l = refl
