-- ===== src/Signals/Notices.antt =====
-- Which admissions of src/scanner/lifecycle/manager.py are announced.
use atlasarb.Prelude.{
  ℕ, ◌<◌, Bool, true, false, not, Option, none, some, ◌≡◌, refl, inl, inr, ◌⊎◌, arith, nat_eq,
  string_eq, pair_eq, option_eq, leb, Bool-cases, Option-cases,
}
use atlasarb.Prelude.Dict
use atlasarb.Prelude.Dict.{Dict, get-put_self}
use atlasarb.Signals.{arb_eq, level_eq, Settings, Key, Signal, dedup_key, active}
use atlasarb.Signals.Cooldown.{CooldownEntry, Cooldowns, check_entry, in_cooldown}
use atlasarb.Signals.Bridge.{Event, update, suppressed, publish}
use atlasarb.Signals.Lifecycle.{
  World, set_ttl, store, send, continued, is_significant, admit_known, admit_fresh, admit,
}

-- `until` is later than `now`
cooling_live :
    (now : ℕ) (k : Key) (m : Cooldowns) (e : CooldownEntry)
    → Dict.get k m ≡ some e
    → now < e.until
    → in_cooldown now k m ≡ (true, m)
unfolding in_cooldown check_entry
cooling_live now k m e cooling live =
    let before : leb e.until now ≡ false = ground arith in
    rw (in_cooldown, cooling) (rw before refl)

module _ {D E : Type 0} (c : Settings D) where
  -- Whether an admission is to be announced: what is active under the route, and whether it cools.
  abbrev pub is_news : Signal D E → Option (Signal D E) → Bool → Bool
  is_news s none cooling = not cooling
  is_news s (some old) cooling = is_significant c old s

  -- The signal under the route now, and what was sent of it.
  abbrev pub Announces : ℕ → Signal D E → World D E → (Bool × Event) × World D E → Type 0
  Announces mono s w r =
      (s' : Signal D E) × (Dict.get (dedup_key c s) r.1.signals ≡ some s')
      × (s'.id ≡ s.id)
      × (s'.net_profit_usd ≡ s.net_profit_usd)
      × ((r.0 ≡ (false, suppressed)) × (r.1.bridge ≡ w.bridge)
          ⊎ (r.0.0 ≡ true) × (r.1.bridge ≡ publish mono s' r.0.1 w.bridge))

  admit_known-Announces :
      (now mono : ℕ) (s old : Signal D E) (w : World D E)
      → Announces mono s w (admit_known c now mono s old w)
        × ((admit_known c now mono s old w).0.0 ≡ is_significant c old s)
  unfolding admit_known continued set_ttl store send
  admit_known-Announces now mono s old w = elim (Bool-cases (is_significant c old s)) [
    | inl sent ↦ rw sent (
      (
        continued c now old s,
        get-put_self (dedup_key c s) _ w.signals,
        refl,
        refl,
        inr (refl, refl),
      ),
      refl,
    )
    | inr absorbed ↦ rw absorbed (
      (
        continued c now old s,
        get-put_self (dedup_key c s) _ w.signals,
        refl,
        refl,
        inl (refl, refl),
      ),
      refl,
    )
  ]

  admit_fresh-Announces :
      (mono : ℕ) (s : Signal D E) (cooling : Bool) (m : Cooldowns) (w : World D E)
      → Announces mono s w (admit_fresh c mono s (cooling, m) w)
        × ((admit_fresh c mono s (cooling, m) w).0.0 ≡ not cooling)
  unfolding admit_fresh set_ttl store send
  admit_fresh-Announces mono s true m w =
      ((set_ttl c s, get-put_self (dedup_key c s) _ w.signals, refl, refl, inl (refl, refl)), refl)
  admit_fresh-Announces mono s false m w = (
    (
      record (set_ttl c s) { status = active },
      get-put_self (dedup_key c s) _ w.signals,
      refl,
      refl,
      inr (refl, refl),
    ),
    refl,
  )

  -- An admission leaves the admitted signal, with its id and its profit, active under its route.
  -- Either it returns "suppressed" and sends nothing, or it returns that it published and sends
  -- exactly one notice, of that signal and with the event it returns. It publishes exactly when the
  -- route was active and the change is significant, or was not active and is not in cooldown.
  pub admit-Announces :
      (now mono : ℕ) (s : Signal D E) (w : World D E)
      → Announces mono s w (admit c now mono s w)
        × ((admit c now mono s w).0.0
            ≡ is_news s
                (Dict.get (dedup_key c s) w.signals)
                (in_cooldown now (dedup_key c s) w.cooldowns).0)
  unfolding admit
  admit-Announces now mono s w = elim (Option-cases (Dict.get (dedup_key c s) w.signals)) [
    | inr (old, found) ↦ rw (admit, found) (admit_known-Announces now mono s old w)
    | inl absent ↦
        let (cooling, m) = in_cooldown now (dedup_key c s) w.cooldowns in
        rw (admit, absent) (admit_fresh-Announces mono s cooling m w)
  ]

  admit_quiet :
      (now mono : ℕ) (s : Signal D E) (e : CooldownEntry) (w : World D E)
      → Dict.get (dedup_key c s) w.signals ≡ none
      → Dict.get (dedup_key c s) w.cooldowns ≡ some e
      → now < e.until
      → admit c now mono s w ≡ ((false, suppressed), store c (dedup_key c s) (set_ttl c s) w)
  unfolding admit admit_fresh
  admit_quiet now mono s e w absent cooling live =
      rw (admit, absent) (rw (cooling_live now (dedup_key c s) w.cooldowns e cooling live) refl)

  admit_significant :
      (now mono : ℕ) (s old : Signal D E) (w : World D E)
      → Dict.get (dedup_key c s) w.signals ≡ some old
      → is_significant c old s ≡ true
      → admit c now mono s w ≡ (
        (true, update),
        send c mono
            (continued c now old s)
            update
            (store c (dedup_key c s) (continued c now old s) w),
      )
  unfolding admit admit_known
  admit_significant now mono s old w found differs = rw (admit, found) (rw differs refl)

  stored_under :
      (s s' : Signal D E) (w : World D E)
      → dedup_key c s' ≡ dedup_key c s
      → Dict.get (dedup_key c s') (store c (dedup_key c s) (set_ttl c s) w).signals
        ≡ some (set_ttl c s)
  unfolding store
  stored_under s s' w one = rw one (get-put_self (dedup_key c s) (set_ttl c s) w.signals)

  set_ttl-significant :
      (s s' : Signal D E) → is_significant c s s' ≡ true → is_significant c (set_ttl c s) s' ≡ true
  unfolding is_significant set_ttl
  set_ttl-significant s s' differs = differs

  -- A route that is not active and has a cooldown until after `now`. A first signal of it is
  -- suppressed, and nothing is sent. A second signal of the route that differs significantly from
  -- the first is published as an update, at any time, while the cooldown is untouched: however much
  -- of it is left, it does not keep the route silent.
  pub cooldown_bypassed :
      (now later mono mono' : ℕ) (s s' : Signal D E) (e : CooldownEntry) (w : World D E)
      → dedup_key c s' ≡ dedup_key c s
      → Dict.get (dedup_key c s) w.signals ≡ none
      → Dict.get (dedup_key c s) w.cooldowns ≡ some e
      → now < e.until
      → is_significant c s s' ≡ true
      → let first = admit c now mono s w in
        let second = admit c later mono' s' first.1 in
        (first.0 ≡ (false, suppressed))
        × (first.1.bridge ≡ w.bridge)
        × (second.0 ≡ (true, update))
        × (second.1.bridge ≡ publish mono' (continued c later (set_ttl c s) s') update w.bridge)
        × (second.1.cooldowns ≡ w.cooldowns)
  unfolding store send
  cooldown_bypassed now later mono mono' s s' e w one absent cooling live differs =
      rw (admit_quiet now mono s e w absent cooling live) (
        rw
          (admit_significant later mono' s' (set_ttl c s) (store c (dedup_key c s) (set_ttl c s) w)
            (stored_under s s' w one) (set_ttl-significant s s' differs))
          (refl, refl, refl, refl, refl))
