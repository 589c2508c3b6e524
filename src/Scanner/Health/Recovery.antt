-- ===== src/Scanner/Health/Recovery.antt =====
-- The protection against flapping of src/scanner/status/health_registry.py: a venue that is down comes
-- back only after enough good checks in a row.
use atlasarb.Prelude.{
  ℕ, ◌+◌, ◌≤◌, ◌<◌, Bool, true, ◌||◌, none, some, List, [], ◌∷◌, ◌≡◌, inl, inr, refl, arith, ◌==◌,
  nat_eq, Bool-cases, suc,
}
use atlasarb.Scanner.Health.{
  maintenance, api_offline, venue_status_eq, Config, VenueHealth, transition, record_success,
  succeeded, recovers, record_failure, failed, is_streaming, mark_offline, mark_maintenance,
  record_discovery, check_staleness, check_stale,
}
use atlasarb.Scanner.Health.History.{
  Operation, success, failure, offline, maintain, discovery, staleness, act,
}

-- A venue that no signal may use: in maintenance or offline.
abbrev pub is_down : VenueHealth → Bool
is_down h = (h.status == maintenance) || h.status == api_offline

-- The operations of one venue, with the clock of each.
unfoldable pub act_all : Config → List (ℕ × Operation) → VenueHealth → VenueHealth
unfolding act
act_all config [] h = h
act_all config ((clock, o) ∷ more) h = act_all config more (act config clock o h).0

-- How many of the operations are good checks.
unfoldable pub good_checks : List (ℕ × Operation) → ℕ
good_checks [] = 0
good_checks ((_, success _ _) ∷ more) = suc (good_checks more)
good_checks ((_, failure _) ∷ more) = good_checks more
good_checks ((_, offline) ∷ more) = good_checks more
good_checks ((_, maintain) ∷ more) = good_checks more
good_checks ((_, discovery _) ∷ more) = good_checks more
good_checks ((_, staleness _ _ _) ∷ more) = good_checks more

success_down :
    (config : Config) (clock latency : ℕ) (stream : Bool) (h : VenueHealth)
    → is_down h ≡ true
    → h.consecutive_success + 1 < config.health_recovery_consecutive
    → (is_down (record_success config clock latency stream h).0 ≡ true)
      × ((record_success config clock latency stream h).0.consecutive_success
          ≡ h.consecutive_success + 1)
unfolding record_success succeeded recovers
success_down config clock latency stream h down few =
    elim (Bool-cases (recovers config stream (succeeded clock latency stream h))) [
      | inl up ↦ absurd (ground arith)
      | inr still ↦ rw (still, record_success) (ground arith)
    ]

other_down :
    (config : Config) (clock : ℕ) (o : Operation) (h : VenueHealth)
    → good_checks ((clock, o) ∷ []) ≡ 0
    → is_down h ≡ true
    → (is_down (act config clock o h).0 ≡ true)
      × ((act config clock o h).0.consecutive_success ≤ h.consecutive_success)
unfolding act record_failure failed mark_offline mark_maintenance record_discovery check_staleness
    check_stale transition good_checks is_streaming
other_down config clock (success latency stream) h none_good down = absurd (ground arith)
other_down config clock (failure hard) h none_good down = ground arith
other_down config clock offline h none_good down = ground arith
other_down config clock maintain h none_good down = ground arith
other_down config clock (discovery now) h none_good down = ground arith
other_down config clock (staleness threshold now none) h none_good down = ground arith
other_down config clock (staleness threshold now (some a)) h none_good down = ground arith

-- A venue in maintenance or offline stays so through any operations in which the good checks, with
-- those counted before, are fewer than the recovery needs, also if they carry market data.
pub no_early_recovery :
    (config : Config) (os : List (ℕ × Operation)) (h : VenueHealth)
    → is_down h ≡ true
    → h.consecutive_success + good_checks os < config.health_recovery_consecutive
    → is_down (act_all config os h) ≡ true
unfolding act_all good_checks
no_early_recovery config [] h down few = down
no_early_recovery config ((clock, success latency stream) ∷ more) h down few =
    let (down', counted) = success_down config clock latency stream h down (omega arith) in
    no_early_recovery config more (act config clock (success latency stream) h).0 down'
      (omega arith)
no_early_recovery config ((clock, failure hard) ∷ more) h down few =
    let (down', fewer) = other_down config clock (failure hard) h refl down in
    no_early_recovery config more (act config clock (failure hard) h).0 down' (omega arith)
no_early_recovery config ((clock, offline) ∷ more) h down few =
    let (down', fewer) = other_down config clock (offline) h refl down in
    no_early_recovery config more (act config clock (offline) h).0 down' (omega arith)
no_early_recovery config ((clock, maintain) ∷ more) h down few =
    let (down', fewer) = other_down config clock (maintain) h refl down in
    no_early_recovery config more (act config clock (maintain) h).0 down' (omega arith)
no_early_recovery config ((clock, discovery now) ∷ more) h down few =
    let (down', fewer) = other_down config clock (discovery now) h refl down in
    no_early_recovery config more (act config clock (discovery now) h).0 down' (omega arith)
no_early_recovery config ((clock, staleness threshold now after) ∷ more) h down few =
    let (down', fewer) = other_down config clock (staleness threshold now after) h refl down in
    no_early_recovery config more (act config clock (staleness threshold now after) h).0 down'
      (omega arith)
