-- ===== src/Signals/Bridge.antt =====
-- EngineBridge of src/services/engine_bridge.py between the scanner and the bot, with the table of
-- archived signals (`archive_signal` of src/database/repositories/history_repo.py).
use atlasarb.Prelude.{
  ℕ, ◌+◌, String, Bool, Option, none, some, List, [], ◌∷◌, ◌++◌, if◌then◌else◌, string_eq, ltb, leb,
  length,
}
use atlasarb.Prelude.Dict
use atlasarb.Prelude.Dict.{Dict}
use atlasarb.Signals.{Signal}
use atlasarb.Signals.Registry.{Registry, upsert, expire}

pub data Event : Type 0 where
  new_signal update suppressed : Event

-- What waits for the notification service: the time it was queued, the event, the signal.
pub record Notice (D E : Type 0) : Type 0 where
  pub queued_at : ℕ
  pub event : Event
  pub signal : Signal D E

pub record Bridge (D E : Type 0) : Type 0 where
  pub registry : Registry D E
  pub queue : List (Notice D E)
  pub dropped_full : ℕ
  pub dropped_stale : ℕ
  pub history : Dict String (Signal D E)

abbrev pub max_pending : ℕ
max_pending = 1000

module _ {D E : Type 0} where
  -- the loop of `put_nowait` and, on a full queue, of the eviction of the oldest
  unfoldable pub push : Notice D E → List (Notice D E) → ℕ → List (Notice D E) × ℕ
  push n [] dropped = (n ∷ [], dropped)
  push n (old ∷ q) dropped =
      let rest = push n q (dropped + 1) in
      if leb max_pending (length (old ∷ q)) then rest else (old ∷ q ++ n ∷ [], dropped)

  unfoldable pub publish : ℕ → Signal D E → Event → Bridge D E → Bridge D E
  unfolding push upsert
  publish now s event b =
      let r = push (record { queued_at = now; event = event; signal = s }) b.queue b.dropped_full in
      record b { registry = upsert s b.registry; queue = r.0; dropped_full = r.1 }

  unfoldable pub archive_signal : Signal D E → Dict String (Signal D E) → Dict String (Signal D E)
  unfolding Dict.has Dict.put
  archive_signal s history = if Dict.has s.id history then history else Dict.put s.id s history

  -- `fails` is whether the database raises, which is only logged
  unfoldable pub archive : Bool → Signal D E → Bridge D E → Bridge D E
  unfolding expire archive_signal
  archive fails s b = record b {
    registry = expire s b.registry;
    history = if fails then b.history else archive_signal s b.history;
  }

  -- `next_event`, where `clock` gives the time of the n-th dequeue; none: it waits
  unfoldable pub take_fresh :
      (ℕ → ℕ)
      → ℕ
      → ℕ
      → List (Notice D E)
      → ℕ
      → Option (Event × Signal D E) × (List (Notice D E) × ℕ)
  take_fresh clock max_age i [] stale = (none, ([], stale))
  take_fresh clock max_age i (n ∷ q) stale =
      let rest = take_fresh clock max_age (i + 1) q (stale + 1) in
      if ltb (n.queued_at + max_age) (clock i) then rest else (some (n.event, n.signal), (q, stale))

  unfoldable pub next_event : (ℕ → ℕ) → ℕ → Bridge D E → Option (Event × Signal D E) × Bridge D E
  unfolding take_fresh
  next_event clock max_age b =
      let r = take_fresh clock max_age 0 b.queue b.dropped_stale in
      (r.0, record b { queue = r.1.0; dropped_stale = r.1.1 })
