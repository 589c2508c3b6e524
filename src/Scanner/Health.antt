-- ===== src/Scanner/Health.antt =====
-- HealthRegistry of src/scanner/status/health_registry.py: the status of each venue. An operation on a
-- venue returns its new health and the change of status that the callbacks are told, if any.
use atlasarb.Prelude.{
  ℕ, ◌+◌, ◌-◌, String, Bool, true, false, not, ◌&&◌, ◌||◌, Option, none, some, List, [], ◌∷◌, ◌++◌,
  ◌≡◌, ◌↔◌, arith, if◌then◌else◌, ◌==◌, Eq, nat_eq, nat_beq, string_eq, leb, ltb, length, now_or,
}
use atlasarb.Prelude.Dict
use atlasarb.Prelude.Dict.{Dict}
pub mod History
pub mod Recovery
pub mod Examples

pub data ExchangeStatus : Type 0 where
  online degraded maintenance api_offline unknown : ExchangeStatus

abbrev pub number : ExchangeStatus → ℕ
number online = 0
number degraded = 1
number maintenance = 2
number api_offline = 3
number unknown = 4

pub venue_status_beq_iff : (a b : ExchangeStatus) → (nat_beq (number a) (number b) ≡ true) ↔ (a ≡ b)
venue_status_beq_iff a b = (λ h. ground arith, λ h. ground arith)

instance abbrev pub venue_status_eq : Eq ExchangeStatus
venue_status_eq = record {
  same = λ a b. nat_beq (number a) (number b);
  same_iff = venue_status_beq_iff;
}

-- the settings that the registry reads
pub record Config : Type 0 where
  pub health_recovery_consecutive : ℕ
  pub ws_idle_timeout : ℕ
  pub ws_fast_reconnect_max : ℕ

-- Times are ticks; 0 stands for never, as in the source.
pub record VenueHealth : Type 0 where
  pub status : ExchangeStatus
  pub consecutive_success : ℕ
  pub consecutive_failure : ℕ
  pub last_success_at : ℕ
  pub last_ws_data_at : ℕ
  pub last_discovery_at : ℕ
  pub latencies : List ℕ
  pub errors : List Bool

abbrev pub new_venue : VenueHealth
new_venue = record {
  status = unknown;
  consecutive_success = 0;
  consecutive_failure = 0;
  last_success_at = 0;
  last_ws_data_at = 0;
  last_discovery_at = 0;
  latencies = [];
  errors = [];
}

-- What a callback is told: the old and the new status.
abbrev pub Change : Type 0
Change = Option (ExchangeStatus × ExchangeStatus)

unfoldable pub tail : {A : Type 0} → List A → List A
tail [] = []
tail (x ∷ xs) = xs

-- `append` of a deque of at most 50 items
unfoldable pub push : {A : Type 0} → List A → A → List A
unfolding tail
push xs x = if ltb (length xs) 50 then xs ++ x ∷ [] else tail xs ++ x ∷ []

unfoldable pub transition : ExchangeStatus → VenueHealth → VenueHealth × Change
transition new h = if h.status == new then (h, none) else (
  record h {
    status = new;
    consecutive_success = if new == online then h.consecutive_success else 0;
  },
  some (h.status, new),
)

unfoldable pub succeeded : ℕ → ℕ → Bool → VenueHealth → VenueHealth
unfolding push
succeeded now latency stream h = record h {
  consecutive_success = h.consecutive_success + 1;
  consecutive_failure = 0;
  last_success_at = now;
  last_ws_data_at = if stream then now else h.last_ws_data_at;
  latencies = push h.latencies latency;
  errors = push h.errors false;
}

-- whether a venue that is not online recovers; the counters are already raised
unfoldable pub recovers : Config → Bool → VenueHealth → Bool
recovers config stream h =
    (h.status == unknown)
    || ((h.status == degraded) && stream)
    || ((stream || h.last_ws_data_at == 0)
        && leb config.health_recovery_consecutive h.consecutive_success)

unfoldable pub record_success : Config → ℕ → ℕ → Bool → VenueHealth → VenueHealth × Change
unfolding succeeded recovers transition
record_success config now latency stream h =
    let h' = succeeded now latency stream h in
    if not (h'.status == online) && recovers config stream h'
    then transition online h'
    else (h', none)

unfoldable pub failed : VenueHealth → VenueHealth
unfolding push
failed h = record h {
  consecutive_failure = h.consecutive_failure + 1;
  consecutive_success = 0;
  errors = push h.errors true;
}

-- whether the stream has delivered within the timeout
unfoldable pub is_streaming : Config → ℕ → VenueHealth → Bool
is_streaming config now h =
    not (h.last_ws_data_at == 0) && leb now (h.last_ws_data_at + config.ws_idle_timeout)

unfoldable pub record_failure : Config → ℕ → Bool → VenueHealth → VenueHealth × Change
unfolding failed is_streaming transition
record_failure config now hard h =
    let h' = failed h in
    if hard
    then transition api_offline h'
    else if is_streaming config now h'
    then (h', none)
    else if leb config.ws_fast_reconnect_max h'.consecutive_failure
    then transition api_offline h'
    else (h', none)

unfoldable pub mark_offline : VenueHealth → VenueHealth × Change
unfolding transition
mark_offline h = transition api_offline h

unfoldable pub mark_maintenance : VenueHealth → VenueHealth × Change
unfolding transition
mark_maintenance h = transition maintenance h

unfoldable pub record_discovery : ℕ → Option ℕ → VenueHealth → VenueHealth × Change
record_discovery clock now h = (record h { last_discovery_at = now_or clock now }, none)

-- a feed that is older than the threshold
unfoldable pub check_stale : ℕ → Option ℕ → VenueHealth → VenueHealth × Change
unfolding transition
check_stale now none h = if h.status == online then transition maintenance h else (h, none)
check_stale now (some offline_after) h =
    if ltb (h.last_ws_data_at + offline_after) now
    then if (h.status == online) || h.status == degraded
      then transition maintenance h
      else (h, none)
    else if h.status == online
    then transition degraded h
    else (h, none)

-- `age <= threshold` is `now <= last + threshold`, also for a clock that went back
unfoldable pub check_staleness : ℕ → ℕ → Option ℕ → Option ℕ → VenueHealth → VenueHealth × Change
unfolding check_stale
check_staleness clock threshold now offline_after h =
    if h.last_ws_data_at == 0
    then (h, none)
    else if leb (now_or clock now) (h.last_ws_data_at + threshold)
    then (h, none)
    else check_stale (now_or clock now) offline_after h

-- The venues, and the changes that the callbacks were told, oldest first.
pub record Registry : Type 0 where
  pub venues : Dict String VenueHealth
  pub changes : List (String × ExchangeStatus × ExchangeStatus)

-- `self._venues[venue]` of a defaultdict
unfoldable pub health : String → Registry → VenueHealth
unfolding Dict.get
health venue r = elim (Dict.get venue r.venues) [ none ↦ new_venue | some h ↦ h ]

unfoldable pub told :
    String
    → Change
    → List (String × ExchangeStatus × ExchangeStatus)
    → List (String × ExchangeStatus × ExchangeStatus)
told venue none changes = changes
told venue (some (old, new)) changes = changes ++ (venue, old, new) ∷ []

-- an operation on one venue of the registry
unfoldable pub at_venue : String → (VenueHealth → VenueHealth × Change) → Registry → Registry
unfolding health told Dict.put
at_venue venue f r = record {
  venues = Dict.put venue (f (health venue r)).0 r.venues;
  changes = told venue (f (health venue r)).1 r.changes;
}
