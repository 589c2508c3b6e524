-- ===== src/Signals/Tracking.antt =====
-- LifecycleManager of src/scanner/lifecycle/manager.py and SignalRegistry of
-- src/services/signal_registry.py through a run: what the bot shows is what the scanner tracks.
use atlasarb.Prelude.{
  ℕ, ◌+◌, String, Bool, true, false, Option, none, some, [], ◌∷◌, ◌≡◌, refl, sym, subst, ap, ◌∙◌,
  inl, inr, arith, if◌then◌else◌, ◌==◌, ==_iff, nat_eq, string_eq, pair_eq, option_eq, Bool-cases,
  Option-cases,
}
use atlasarb.Prelude.Dict
use atlasarb.Prelude.Dict.{
  Dict, IsUnique, put-IsUnique, pop-IsUnique, get-put, get-put_found, get-pop_found, get-put_self,
  has-put, has-pop, get-has,
}
use atlasarb.Signals.{arb_eq, Settings, Key, Signal, dedup_key, ExpiryReason, spread_closed, active}
use atlasarb.Signals.Cooldown.{Cooldowns, in_cooldown}
use atlasarb.Signals.Registry.{upsert}
use atlasarb.Signals.Registry
use atlasarb.Signals.Bridge.{Event, update, new_signal, publish, archive}
use atlasarb.Signals.Lifecycle.{
  World, set_ttl, store, send, continued, is_significant, admit_known, admit_fresh, admit, ended,
  expire_found, expire, expire_where, close_if_spread_gone,
}

if_has : (test : Bool) {b : Bool} → b ≡ true → (if test then true else b) ≡ true
if_has test h = ground arith

-- `route_id` is the identity that the code derives from a route; no two signals need differ by it.
module _ {D E : Type 0} (c : Settings D) (route_id : Key → String) where
  -- A signal carries its route's identity.
  abbrev pub IsRouted : Signal D E → Type 0
  IsRouted s = s.id ≡ route_id (dedup_key c s)

  -- The scanner files each signal once and under its route; each signal that the bot shows as active
  -- carries the id it is shown under, and its route is active in the scanner.
  pub record IsTracked (w : World D E) : Type 0 where
    pub unique : IsUnique w.signals
    pub filed :
        (k : Key) (s : Signal D E)
        → Dict.get k w.signals ≡ some s
        → (dedup_key c s ≡ k) × IsRouted s
    pub shown :
        (i : String) (s : Signal D E)
        → Dict.get i w.bridge.registry.active ≡ some s
        → (s.id ≡ i) × IsRouted s × (Dict.has (dedup_key c s) w.signals ≡ true)

  store-IsTracked :
      (k : Key) (s : Signal D E) (w : World D E)
      → dedup_key c s ≡ k
      → IsRouted s
      → IsTracked w
      → IsTracked (store c k s w)
  unfolding store
  store-IsTracked k s w own routed t = record {
    unique = put-IsUnique k s w.signals t.unique;
    filed = λ j s' found. elim (get-put_found k j s s' w.signals found) [
      | inl (here, same) ↦ subst (λ x. (dedup_key c x ≡ j) × IsRouted x) same (own ∙ here, routed)
      | inr (_, before) ↦ t.filed j s' before
    ];
    shown = λ i s' found.
        let (id, routed', known) = t.shown i s' found in
        (
          id,
          routed',
          rw (has-put k (dedup_key c s') s w.signals) (if_has (k == dedup_key c s') known),
        );
  }

  send-IsTracked :
      (mono : ℕ) (s : Signal D E) (event : Event) (w : World D E)
      → IsRouted s
      → Dict.has (dedup_key c s) w.signals ≡ true
      → IsTracked w
      → IsTracked (send c mono s event w)
  unfolding send publish upsert
  send-IsTracked mono s event w routed known t = record {
    unique = t.unique;
    filed = t.filed;
    shown = λ i s' found. elim (get-put_found s.id i s s' w.bridge.registry.active found) [
      | inl (here, same) ↦
          subst (λ x. (x.id ≡ i) × IsRouted x × (Dict.has (dedup_key c x) w.signals ≡ true)) same
            (here, routed, known)
      | inr (_, before) ↦ t.shown i s' before
    ];
  }

  cooldowns-IsTracked :
      (m : Cooldowns) (w : World D E) → IsTracked w → IsTracked (record w { cooldowns = m })
  cooldowns-IsTracked m w t = record { unique = t.unique; filed = t.filed; shown = t.shown }

  store-has : (k : Key) (s : Signal D E) (w : World D E) → Dict.has k (store c k s w).signals ≡ true
  unfolding store Dict.has
  store-has k s w = rw (get-put_self k s w.signals) refl

  -- Storing and then sending a signal.
  stored_sent :
      (mono : ℕ) (k : Key) (s : Signal D E) (event : Event) (w : World D E)
      → dedup_key c s ≡ k
      → IsRouted s
      → IsTracked w
      → IsTracked (send c mono s event (store c k s w))
  stored_sent mono k s event w own routed t =
      send-IsTracked mono s event (store c k s w) routed
        (subst (λ j. Dict.has j (store c k s w).signals ≡ true) (sym own) (store-has k s w))
        (store-IsTracked k s w own routed t)

  admit_known-IsTracked :
      (now mono : ℕ) (s old : Signal D E) (w : World D E)
      → IsRouted s
      → IsTracked w
      → IsTracked (admit_known c now mono s old w).1
  unfolding admit_known continued set_ttl dedup_key
  admit_known-IsTracked now mono s old w routed t = elim (Bool-cases (is_significant c old s)) [
    | inl sent ↦
        rw sent (stored_sent mono (dedup_key c s) (continued c now old s) update w refl routed t)
    | inr absorbed ↦
        rw absorbed (store-IsTracked (dedup_key c s) (continued c now old s) w refl routed t)
  ]

  admit_fresh-IsTracked :
      (mono : ℕ) (s : Signal D E) (cooling : Bool) (m : Cooldowns) (w : World D E)
      → IsRouted s
      → IsTracked w
      → IsTracked (admit_fresh c mono s (cooling, m) w).1
  unfolding admit_fresh set_ttl dedup_key
  admit_fresh-IsTracked mono s true m w routed t =
      store-IsTracked (dedup_key c s) (set_ttl c s) _ refl routed (cooldowns-IsTracked m w t)
  admit_fresh-IsTracked mono s false m w routed t =
      stored_sent mono (dedup_key c s) (record (set_ttl c s) { status = active }) new_signal _ refl
        routed (cooldowns-IsTracked m w t)

  pub admit-IsTracked :
      (now mono : ℕ) (s : Signal D E) (w : World D E)
      → IsRouted s
      → IsTracked w
      → IsTracked (admit c now mono s w).1
  unfolding admit
  admit-IsTracked now mono s w routed t = elim (Option-cases (Dict.get (dedup_key c s) w.signals)) [
    | inr (old, found) ↦ rw (admit, found) (admit_known-IsTracked now mono s old w routed t)
    | inl absent ↦
        let (cooling, m) = in_cooldown now (dedup_key c s) w.cooldowns in
        rw (admit, absent) (admit_fresh-IsTracked mono s cooling m w routed t)
  ]

  -- Another route shown under another id is another route.
  other_route :
      (s s' : Signal D E) (i : String)
      → IsRouted s
      → IsRouted s'
      → s'.id ≡ i
      → (s.id == i) ≡ false
      → (dedup_key c s == dedup_key c s') ≡ false
  other_route s s' i routed routed' id other = elim (Bool-cases (dedup_key c s == dedup_key c s')) [
    | inr apart ↦ apart
    | inl one ↦
        let same : s.id ≡ i = routed ∙ ap route_id ((==_iff _ _).0 one) ∙ sym routed' ∙ id in
        absurd (cc ((==_iff s.id i).1 same))
  ]

  expire_found-IsTracked :
      (fails : Bool) (now : ℕ) (key : Key) (reason : ExpiryReason) (o : Option (Signal D E))
      (w : World D E)
      → Dict.get key w.signals ≡ o
      → IsTracked w
      → IsTracked (expire_found c fails now key reason o w)
  unfolding expire_found archive Registry.expire ended
  expire_found-IsTracked fails now key reason none w found t = t
  expire_found-IsTracked fails now key reason (some s) w found t =
      let (own, routed) = t.filed key s found in
      record {
        unique = pop-IsUnique key w.signals t.unique;
        filed = λ j s' left.
            let (_, before) = get-pop_found key j s' w.signals left in t.filed j s' before;
        shown = λ i s' left.
            let (other, before) = get-pop_found s.id i s' w.bridge.registry.active left in
            let (id, routed', known) = t.shown i s' before in
            let apart = other_route s s' i routed routed' id other in
            (
              id,
              routed',
              rw (has-pop key (dedup_key c s') w.signals) (
                  subst
                    (λ k.
                      (if k == dedup_key c s' then false else Dict.has (dedup_key c s') w.signals)
                      ≡ true)
                    own (rw apart known)),
            );
      }

  expire-IsTracked :
      (fails : Bool) (now : ℕ) (key : Key) (reason : ExpiryReason) (w : World D E)
      → IsTracked w
      → IsTracked (expire c fails now key reason w)
  unfolding expire
  expire-IsTracked fails now key reason w t =
      expire_found-IsTracked fails now key reason (Dict.get key w.signals) w refl t

  pub expire_where-IsTracked :
      (test : Signal D E → Bool) (fails : Key → Bool) (now : ℕ) (reason : ExpiryReason)
      → (listed : Dict Key (Signal D E)) (n : ℕ) (w : World D E) → IsTracked w
      → IsTracked (expire_where c test fails now reason listed n w).1
  unfolding expire_where
  expire_where-IsTracked test fails now reason [] n w t = t
  expire_where-IsTracked test fails now reason ((key, s) ∷ rest) n w t =
      elim (Bool-cases (test s)) [
        | inl ends ↦ rw ends (
            expire_where-IsTracked test fails now reason rest (n + 1)
              (expire c (fails key) now key reason w)
              (expire-IsTracked (fails key) now key reason w t))
        | inr stays ↦ rw stays (expire_where-IsTracked test fails now reason rest n w t)
      ]

  pub close-IsTracked :
      (fails : Bool) (now : ℕ) (key : Key) (w : World D E)
      → IsTracked w
      → IsTracked (close_if_spread_gone c fails now key w).1
  unfolding close_if_spread_gone
  close-IsTracked fails now key w t = elim (Bool-cases (Dict.has key w.signals)) [
    | inl known ↦ rw known (expire-IsTracked fails now key spread_closed w t)
    | inr unknown ↦ rw unknown t
  ]
