-- ===== src/Scanner/Health/History.antt =====
-- What the callbacks of src/scanner/status/health_registry.py are told is what happens.
use atlasarb.Prelude.{
  ℕ, ◌+◌, String, Bool, true, false, not, ◌&&◌, ◌||◌, Option, none, some, List, [], ◌∷◌, ◌++◌, ◌≡◌,
  inl, inr, refl, ◌∙◌, arith, if◌then◌else◌, ◌==◌, nat_eq, string_eq, leb, ltb, Bool-cases, ==_iff,
  ap, now_or,
}
use atlasarb.Prelude.Dict.{get-put}
use atlasarb.Scanner.Health.{
  ExchangeStatus, online, degraded, maintenance, api_offline, unknown, venue_status_eq, Config,
  VenueHealth, Change, transition, record_success, succeeded, recovers, record_failure, failed,
  is_streaming, mark_offline, mark_maintenance, record_discovery, check_staleness, check_stale,
  Registry, health, told, at_venue,
}

-- One operation on a venue, with the clock and the settings.
pub data Operation : Type 0 where
  success : ℕ → Bool → Operation
  failure : Bool → Operation
  offline maintain : Operation
  discovery : Option ℕ → Operation
  staleness : ℕ → Option ℕ → Option ℕ → Operation

unfoldable pub act : Config → ℕ → Operation → VenueHealth → VenueHealth × Change
act config clock (success latency stream) h = record_success config clock latency stream h
act config clock (failure hard) h = record_failure config clock hard h
act config clock offline h = mark_offline h
act config clock maintain h = mark_maintenance h
act config clock (discovery now) h = record_discovery clock now h
act config clock (staleness threshold now offline_after) h =
    check_staleness clock threshold now offline_after h

unfoldable pub run : Config → List (ℕ × String × Operation) → Registry → Registry
unfolding act at_venue
run config [] r = r
run config ((clock, venue, o) ∷ more) r = run config more (at_venue venue (act config clock o) r)

-- The change told is the change made.
abbrev pub Honest : ExchangeStatus → VenueHealth × Change → Type 0
Honest s (h', none) = h'.status ≡ s
Honest s (h', some (old, new)) = (old ≡ s) × (new ≡ h'.status) × ((new == old) ≡ false)

transition-Honest : (new : ExchangeStatus) (h : VenueHealth) → Honest h.status (transition new h)
unfolding transition
transition-Honest new h = elim (Bool-cases (h.status == new)) [
  | inl same ↦ rw same refl
  | inr other ↦ rw other (refl, refl, ground (arith, ==_iff new h.status, ==_iff h.status new))
]

check_stale-Honest :
    (now : ℕ) (a : Option ℕ) (h : VenueHealth) → Honest h.status (check_stale now a h)
unfolding check_stale
check_stale-Honest now none h = elim (Bool-cases (h.status == online)) [
  | inl up ↦ rw up (transition-Honest maintenance h)
  | inr down ↦ rw down refl
]
check_stale-Honest now (some a) h = elim (Bool-cases (ltb (h.last_ws_data_at + a) now)) [
  | inl dead ↦ rw dead (elim (Bool-cases ((h.status == online) || h.status == degraded)) [
    | inl up ↦ rw up (transition-Honest maintenance h)
    | inr down ↦ rw down refl
  ])
  | inr slow ↦ rw slow (elim (Bool-cases (h.status == online)) [
    | inl up ↦ rw up (transition-Honest degraded h)
    | inr down ↦ rw down refl
  ])
]

record_success-Honest :
    (config : Config) (clock latency : ℕ) (stream : Bool) (h : VenueHealth)
    → Honest h.status (record_success config clock latency stream h)
unfolding record_success
record_success-Honest config clock latency stream h =
    let h' = succeeded clock latency stream h in
    elim (Bool-cases (not (h'.status == online) && recovers config stream h')) [
      | inl up ↦ rw up (transition-Honest online h')
      | inr down ↦ rw down refl
    ]

pub act-Honest :
    (config : Config) (clock : ℕ) (o : Operation) (h : VenueHealth)
    → Honest h.status (act config clock o h)
unfolding act record_failure failed mark_offline mark_maintenance record_discovery check_staleness
act-Honest config clock (success latency stream) h =
    record_success-Honest config clock latency stream h
act-Honest config clock (failure true) h = transition-Honest api_offline (failed h)
act-Honest config clock (failure false) h =
    elim (Bool-cases (is_streaming config clock (failed h))) [
      | inl alive ↦ rw alive refl
      | inr quiet ↦
          rw quiet
            (elim (Bool-cases (leb config.ws_fast_reconnect_max (h.consecutive_failure + 1))) [
              | inl many ↦ rw many (transition-Honest api_offline (failed h))
              | inr few ↦ rw few refl
            ])
    ]
act-Honest config clock offline h = transition-Honest api_offline h
act-Honest config clock maintain h = transition-Honest maintenance h
act-Honest config clock (discovery now) h = refl
act-Honest config clock (staleness threshold now offline_after) h =
    elim (Bool-cases (h.last_ws_data_at == 0)) [
      | inl never ↦ rw never refl
      | inr streamed ↦
          rw streamed (elim (Bool-cases (leb (now_or clock now) (h.last_ws_data_at + threshold))) [
            | inl fresh ↦ rw fresh refl
            | inr stale ↦ rw stale (check_stale-Honest (now_or clock now) offline_after h)
          ])
    ]

abbrev pub Changes : Type 0
Changes = List (String × ExchangeStatus × ExchangeStatus)

-- The status of a venue as one who hears every change from a given status on knows it.
unfoldable pub heard : String → ExchangeStatus → Changes → ExchangeStatus
heard venue s [] = s
heard venue s ((w, old, new) ∷ more) =
    if w == venue then heard venue new more else heard venue s more

-- Each change of the venue starts where the one before ended, and does change the status.
unfoldable pub is_chain : String → ExchangeStatus → Changes → Bool
is_chain venue s [] = true
is_chain venue s ((w, old, new) ∷ more) =
    if w == venue
    then (old == s) && not (new == old) && is_chain venue new more
    else is_chain venue s more

heard-append :
    (v w : String) (s old new : ExchangeStatus) (cs : Changes)
    → heard v s (cs ++ (w, old, new) ∷ []) ≡ (if w == v then new else heard v s cs)
unfolding heard
heard-append v w s old new [] = refl
heard-append v w s old new ((x, o, n) ∷ cs) =
    ground (arith, heard-append v w n old new cs, heard-append v w s old new cs)

is_chain-append :
    (v w : String) (s old new : ExchangeStatus) (cs : Changes)
    → is_chain v s cs ≡ true
    → ((w == v) ≡ true → ((old == heard v s cs) && not (new == old)) ≡ true)
    → is_chain v s (cs ++ (w, old, new) ∷ []) ≡ true
unfolding is_chain heard
is_chain-append v w s old new [] h k = ground arith
is_chain-append v w s old new ((x, o, n) ∷ cs) h k = elim (Bool-cases (x == v)) [
  | inl own ↦ rw own (ground (arith, is_chain-append v w n old new cs, rw own at h, rw own at k))
  | inr other ↦ rw other (is_chain-append v w s old new cs (rw other at h) (rw other at k))
]

-- The callbacks know the status of every venue, from changes that chain.
pub record IsKnown (r : Registry) : Type 0 where
  pub known : (v : String) → heard v unknown r.changes ≡ (health v r).status
  pub chained : (v : String) → is_chain v unknown r.changes ≡ true

told-heard :
    (v w : String) (s : ExchangeStatus) (h' : VenueHealth) (c : Change) (cs : Changes)
    → Honest (heard w s cs) (h', c)
    → heard v s (told w c cs) ≡ (if w == v then h'.status else heard v s cs)
unfolding told
told-heard v w s h' none cs honest = elim (Bool-cases (w == v)) [
  | inl own ↦ rw own (ground (arith, ==_iff w v))
  | inr other ↦ rw other refl
]
told-heard v w s h' (some (old, new)) cs (_, ends, _) =
    rw (heard-append v w s old new cs) (rw ends refl)

told-chain :
    (v w : String) (s : ExchangeStatus) (h' : VenueHealth) (c : Change) (cs : Changes)
    → Honest (heard w s cs) (h', c)
    → is_chain v s cs ≡ true
    → is_chain v s (told w c cs) ≡ true
unfolding told
told-chain v w s h' none cs honest chain = chain
told-chain v w s h' (some (old, new)) cs (starts, ends, moves) chain =
    is_chain-append v w s old new cs chain (λ own.
      let same : old ≡ heard v s cs = starts ∙ ap (λ x. heard x s cs) ((==_iff w v).0 own) in
      ground (arith, same, moves, ==_iff old (heard v s cs)))

health-at_venue :
    (v w : String) (f : VenueHealth → VenueHealth × Change) (r : Registry)
    → health v (at_venue w f r) ≡ (if w == v then (f (health w r)).0 else health v r)
unfolding at_venue health
health-at_venue v w f r = elim (Bool-cases (w == v)) [
  | inl own ↦ rw (get-put w v (f (health w r)).0 r.venues, health) (rw own refl)
  | inr other ↦ rw (get-put w v (f (health w r)).0 r.venues, health) (rw other refl)
]

changes-at_venue :
    (w : String) (f : VenueHealth → VenueHealth × Change) (r : Registry)
    → (at_venue w f r).changes ≡ told w (f (health w r)).1 r.changes
unfolding at_venue
changes-at_venue w f r = refl

at_venue-IsKnown :
    (w : String) (f : VenueHealth → VenueHealth × Change) (r : Registry)
    → Honest (health w r).status (f (health w r))
    → IsKnown r
    → IsKnown (at_venue w f r)
unfolding health heard
at_venue-IsKnown w f r honest k =
    let told_true : Honest (heard w unknown r.changes) (f (health w r)) = rw (k.known w) honest in
    record {
      known = λ v. rw (changes-at_venue w f r) (
          rw (told-heard v w unknown (f (health w r)).0 (f (health w r)).1 r.changes told_true) (
            rw (health-at_venue v w f r) (elim (Bool-cases (w == v)) [
              | inl own ↦ rw own refl
              | inr other ↦ rw other (k.known v)
            ])));
      chained = λ v. rw (changes-at_venue w f r) (
          told-chain v w unknown (f (health w r)).0 (f (health w r)).1 r.changes told_true
            (k.chained v));
    }

-- From a registry whose changes are known, such as a new one, after any operations on any venues
-- the callbacks know the status of each: the changes that they were told of a venue start at
-- Unknown, chain, change the status each time, and end at its status.
pub run-IsKnown :
    (config : Config) (os : List (ℕ × String × Operation)) (r : Registry)
    → IsKnown r
    → IsKnown (run config os r)
unfolding run
run-IsKnown config [] r k = k
run-IsKnown config ((clock, venue, o) ∷ more) r k =
    run-IsKnown config more (at_venue venue (act config clock o) r)
      (at_venue-IsKnown venue (act config clock o) r (act-Honest config clock o (health venue r)) k)
