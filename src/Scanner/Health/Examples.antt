-- ===== src/Scanner/Health/Examples.antt =====
-- Tests and concrete instances of the theorems about the health of venues.
use atlasarb.Prelude.{
  ℕ, ◌+◌, ◌<◌, String, true, false, none, List, [], ◌∷◌, ◌≡◌, refl, arith, nat_eq, string_eq,
}
use atlasarb.Prelude.Dict
use atlasarb.Scanner.Health.{
  online, maintenance, api_offline, unknown, Config, VenueHealth, new_venue, Registry, health,
  record_success, record_failure, check_staleness,
}
use atlasarb.Scanner.Health.History.{
  Operation, success, failure, discovery, staleness, run, IsKnown, run-IsKnown, heard, is_chain,
}
use atlasarb.Scanner.Health.Recovery.{is_down, act_all, good_checks, no_early_recovery}

abbrev config : Config
config = record { health_recovery_consecutive = 3; ws_idle_timeout = 30; ws_fast_reconnect_max = 2 }

abbrev empty_registry : Registry
empty_registry = record { venues = []; changes = [] }

empty_registry-IsKnown : IsKnown empty_registry
unfolding heard is_chain health Dict.get
empty_registry-IsKnown = record { known = λ v. refl; chained = λ v. refl }

abbrev story : List (ℕ × String × Operation)
story =
    (1, "okx", success 5 true)
    ∷ (2, "uni", success 9 false)
    ∷ (40, "okx", failure false)
    ∷ (41, "okx", failure false)
    ∷ (42, "okx", success 5 false)
    ∷ (50, "okx", staleness 10 none none)
    ∷ []

-- A venue whose stream is silent goes offline at the second failure, and one good check is not enough.
story_told :
    (run config story empty_registry).changes
    ≡ ("okx", unknown, online) ∷ ("uni", unknown, online) ∷ ("okx", online, api_offline) ∷ []
unfolding run check_staleness record_success record_failure
story_told = refl

run-IsKnown_example : IsKnown (run config story empty_registry)
run-IsKnown_example = run-IsKnown config story empty_registry empty_registry-IsKnown

abbrev dead : VenueHealth
dead = record new_venue { status = maintenance; last_ws_data_at = 7 }

abbrev checks : List (ℕ × Operation)
checks = (60, success 5 true) ∷ (61, discovery none) ∷ (62, success 5 true) ∷ []

two_checks : good_checks checks ≡ 2
unfolding good_checks
two_checks = refl

too_few : dead.consecutive_success + good_checks checks < config.health_recovery_consecutive
too_few = omega (arith, two_checks)

no_early_recovery_example : is_down (act_all config checks dead) ≡ true
no_early_recovery_example = no_early_recovery config checks dead refl too_few

-- The third one brings the venue back.
third_check :
    (act_all config
      ((60, success 5 true) ∷ (61, success 5 true) ∷ (62, success 5 true) ∷ [])
      dead).status
    ≡ online
unfolding act_all record_success
third_check = refl
