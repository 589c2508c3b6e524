-- ===== src/Signals/Sweeps.antt =====
-- What the expiries of src/scanner/lifecycle/manager.py take, and what they leave.
use atlasarb.Prelude.{
  ℕ, ◌+◌, String, Bool, true, false, ◌||◌, Option, none, some, [], ◌∷◌, ◌≡◌, refl, subst, ap, inl,
  inr, arith, if◌then◌else◌, ◌==◌, ==_iff, nat_eq, string_eq, pair_eq, option_eq, leb, now_or,
  Bool-cases, Option-cases, count, ◌∙◌,
}
use atlasarb.Prelude.Dict
use atlasarb.Prelude.Dict.{Dict, IsUnique, values, get-pop}
use atlasarb.Signals.{
  arb_eq, Settings, Key, Signal, ExpiryReason, ttl_exceeded, venue_offline, market_delisted,
}
use atlasarb.Signals.Lifecycle.{
  World, expire_found, expire, expire_where, sweep_expired, force_expire_venue,
  force_expire_delisted,
}

-- What is left under a route where `found` was listed and `o` stood.
abbrev pub left {ℓ} : {A : Type ℓ} → (A → Bool) → Option A → Option A → Option A
left test none o = o
left test (some s) o = if test s then none else o

-- What of one entry an expiry by `test` leaves.
abbrev pub unless {ℓ} : {A : Type ℓ} → (A → Bool) → Option A → Option A
unless test none = none
unless test (some s) = if test s then none else some s

left-unless {ℓ} : {A : Type ℓ} (test : A → Bool) (o : Option A) → left test o o ≡ unless test o
left-unless test none = refl
left-unless test (some s) = refl

left_ends {ℓ} :
    {A : Type ℓ} (test : A → Bool) (s : A) (own : Bool) (r o : Option A)
    → test s ≡ true
    → (own ≡ true → r ≡ none)
    → left test r (if own then none else o) ≡ left test (if own then some s else r) o
left_ends test s true r o ends absent = rw (absent refl) (rw ends refl)
left_ends test s false r o ends absent = refl

left_stays {ℓ} :
    {A : Type ℓ} (test : A → Bool) (s : A) (own : Bool) (r o : Option A)
    → test s ≡ false
    → (own ≡ true → r ≡ none)
    → left test r o ≡ left test (if own then some s else r) o
left_stays test s true r o stays absent = rw (absent refl) (rw stays refl)
left_stays test s false r o stays absent = refl

module _ {D E : Type 0} (c : Settings D) where
  get-expire :
      (fails : Bool) (now : ℕ) (key k : Key) (reason : ExpiryReason) (w : World D E)
      → Dict.get k (expire c fails now key reason w).signals
        ≡ (if key == k then none else Dict.get k w.signals)
  unfolding expire expire_found
  get-expire fails now key k reason w = elim (Option-cases (Dict.get key w.signals)) [
    | inr (s, found) ↦ rw (expire, found) (get-pop key k w.signals)
    | inl absent ↦
        rw (expire, absent)
          (elim (Bool-cases (key == k)) [
            | inl own ↦
                rw own (subst (λ j. Dict.get j w.signals ≡ none) ((==_iff key k).0 own) absent)
            | inr other ↦ rw other refl
          ])
  ]

  get-expire_where :
      (test : Signal D E → Bool) (fails : Key → Bool) (now : ℕ) (reason : ExpiryReason) (k : Key)
      → (listed : Dict Key (Signal D E)) (n : ℕ) (w : World D E) → IsUnique listed
      → Dict.get k (expire_where c test fails now reason listed n w).1.signals
        ≡ left test (Dict.get k listed) (Dict.get k w.signals)
  unfolding expire_where Dict.get
  get-expire_where test fails now reason k [] n w u = refl
  get-expire_where test fails now reason k ((j, s) ∷ rest) n w u =
      let after = expire c (fails j) now j reason w in
      let absent =
        λ (own : j == k ≡ true). subst (λ i. Dict.get i rest ≡ none) ((==_iff j k).0 own) u.0 in
      elim (Bool-cases (test s)) [
        | inl ends ↦ rw ends (
            get-expire_where test fails now reason k rest (n + 1) after u.1
            ∙ ap (left test (Dict.get k rest)) (get-expire (fails j) now j k reason w)
            ∙ left_ends test s (j == k) (Dict.get k rest) (Dict.get k w.signals) ends absent)
        | inr stays ↦ rw stays (
            get-expire_where test fails now reason k rest n w u.1
            ∙ left_stays test s (j == k) (Dict.get k rest) (Dict.get k w.signals) stays absent)
      ]

  expire_where-count :
      (test : Signal D E → Bool) (fails : Key → Bool) (now : ℕ) (reason : ExpiryReason)
      → (listed : Dict Key (Signal D E)) (n : ℕ) (w : World D E)
      → (expire_where c test fails now reason listed n w).0 ≡ n + count test (values listed)
  unfolding expire_where count values
  expire_where-count test fails now reason [] n w = omega arith
  expire_where-count test fails now reason ((j, s) ∷ rest) n w = elim (Bool-cases (test s)) [
    | inl ends ↦ rw ends (
        omega (
          arith,
          expire_where-count test fails now reason rest (n + 1) (expire c (fails j) now j reason w),
        ))
    | inr stays ↦ rw stays (expire_where-count test fails now reason rest n w)
  ]

  -- What an expiry by `test` does to the table of active signals, and the number that it returns.
  abbrev pub Takes : (Signal D E → Bool) → World D E → ℕ × World D E → Type 0
  Takes test w r =
      ((k : Key) → Dict.get k r.1.signals ≡ unless test (Dict.get k w.signals))
      × (r.0 ≡ count test (values w.signals))

  expire_where-Takes :
      (test : Signal D E → Bool) (fails : Key → Bool) (now : ℕ) (reason : ExpiryReason)
      (w : World D E)
      → IsUnique w.signals
      → Takes test w (expire_where c test fails now reason w.signals 0 w)
  expire_where-Takes test fails now reason w u = (
    λ k.
        get-expire_where test fails now reason k w.signals 0 w u
        ∙ left-unless test (Dict.get k w.signals),
    omega (arith, expire_where-count test fails now reason w.signals 0 w),
  )

  -- Where the table of active signals files each route once: a sweep takes exactly the signals that
  -- end by the time it uses (the given one, or the clock's when none or 0 is given); the loss of a
  -- venue takes exactly those that buy or sell there; a delisting takes exactly those of the pair.
  -- Each leaves every other signal as it was, whatever archiving does, and returns how many it took.
  pub expiries_take :
      (fails : Key → Bool) (clock : ℕ) (given : Option ℕ) (now : ℕ) (venue pair : String)
      (w : World D E)
      → IsUnique w.signals
      → Takes (λ s. leb s.expires_at (now_or clock given)) w (sweep_expired c fails clock given w)
        × Takes
            (λ s. (venue == s.buy_exchange) || venue == s.sell_exchange)
            w
            (force_expire_venue c fails now venue w)
        × Takes (λ s. s.trading_pair == pair) w (force_expire_delisted c fails now pair w)
  unfolding sweep_expired force_expire_venue force_expire_delisted
  expiries_take fails clock given now venue pair w u = (
    expire_where-Takes _ fails (now_or clock given) ttl_exceeded w u,
    expire_where-Takes _ fails now venue_offline w u,
    expire_where-Takes _ fails now market_delisted w u,
  )
