-- ===== src/Signals/Accounts.antt =====
-- Where the notices of src/services/engine_bridge.py go: delivered, dropped or still waiting.
use atlasarb.Prelude.{
  ℕ, ◌+◌, ◌≤◌, Bool, Option, none, some, List, [], ◌∷◌, ◌≡◌, refl, inl, inr, arith, length,
  length-append, ap, ◌∙◌,
}
use atlasarb.Signals.{Signal}
use atlasarb.Signals.Bridge.{Event, Notice, Bridge, max_pending, publish, archive, next_event}
use atlasarb.Signals.Backlog.{publish_queue, next_event-Hands, Hands}

-- What the engine and the notification service do with the bridge.
pub data BridgeOp (D E : Type 0) : Type 0 where
  published : ℕ → Signal D E → Event → BridgeOp D E
  archived : Bool → Signal D E → BridgeOp D E
  taken : (ℕ → ℕ) → ℕ → BridgeOp D E

-- A run, with how many notices were published and how many handed over.
pub record Run (D E : Type 0) : Type 0 where
  pub bridge : Bridge D E
  pub offered : ℕ
  pub delivered : ℕ

-- Every notice is delivered, counted as dropped, or still waits, and at most 1000 wait.
pub record IsAccounted {D E : Type 0} (r : Run D E) : Type 0 where
  pub total :
      r.delivered + r.bridge.dropped_full + r.bridge.dropped_stale + length r.bridge.queue
      ≡ r.offered
  pub within : length r.bridge.queue ≤ max_pending

module _ {D E : Type 0} where
  abbrev pub handed : Option (Event × Signal D E) → ℕ
  handed none = 0
  handed (some _) = 1

  unfoldable pub bridge_step : BridgeOp D E → Run D E → Run D E
  unfolding publish archive next_event
  bridge_step (published now s event) r = record r {
    bridge = publish now s event r.bridge;
    offered = r.offered + 1;
  }
  bridge_step (archived fails s) r = record r { bridge = archive fails s r.bridge }
  bridge_step (taken clock max_age) r = record r {
    bridge = (next_event clock max_age r.bridge).1;
    delivered = r.delivered + handed (next_event clock max_age r.bridge).0;
  }

  unfoldable pub bridge_run : List (BridgeOp D E) → Run D E → Run D E
  unfolding bridge_step
  bridge_run [] r = r
  bridge_run (o ∷ os) r = bridge_run os (bridge_step o r)

  publish_stale :
      (now : ℕ) (s : Signal D E) (event : Event) (b : Bridge D E)
      → (publish now s event b).dropped_stale ≡ b.dropped_stale
  unfolding publish
  publish_stale now s event b = refl

  next_event_full :
      (clock : ℕ → ℕ) (max_age : ℕ) (b : Bridge D E)
      → (next_event clock max_age b).1.dropped_full ≡ b.dropped_full
  unfolding next_event
  next_event_full clock max_age b = refl

  archive_same :
      (fails : Bool) (s : Signal D E) (r : Run D E)
      → IsAccounted r
      → IsAccounted (record r { bridge = archive fails s r.bridge })
  unfolding archive
  archive_same fails s r a = record { total = a.total; within = a.within }

  published-IsAccounted :
      (now : ℕ) (s : Signal D E) (event : Event) (r : Run D E)
      → IsAccounted r
      → IsAccounted (record r { bridge = publish now s event r.bridge; offered = r.offered + 1 })
  published-IsAccounted now s event r a =
      let (dropped, kept, split, after, many, within, full, _) =
        publish_queue now s event r.bridge in
      let before : length r.bridge.queue ≡ length dropped + length kept =
        ap length split ∙ length-append dropped kept in
      let behind : length (publish now s event r.bridge).queue ≡ length kept + 1 =
        ap length after
        ∙ length-append kept (record { queued_at = now; event = event; signal = s } ∷ []) in
      record {
        total = omega (arith, a.total, before, behind, full, publish_stale now s event r.bridge);
        within = within;
      }

  queue_taken :
      (clock : ℕ → ℕ) (max_age : ℕ) (q : List (Notice D E)) (stale : ℕ)
      → (r : Option (Event × Signal D E) × (List (Notice D E) × ℕ))
      → Hands clock max_age 0 q stale r
      → (handed r.0 + r.1.1 + length r.1.0 ≡ stale + length q) × (length r.1.0 ≤ length q)
  queue_taken clock max_age q stale r (old, all, many, outcome) = elim outcome [
    | inl (nothing, empty, only) ↦ rw nothing (rw empty (omega (arith, many, ap length only)))
    | inr (n, given, fresh, split) ↦
        rw given (omega (arith, many, ap length split, length-append old (n ∷ r.1.0)))
  ]

  taken-IsAccounted :
      (clock : ℕ → ℕ) (max_age : ℕ) (r : Run D E)
      → IsAccounted r
      → IsAccounted (bridge_step (taken clock max_age) r)
  unfolding bridge_step
  taken-IsAccounted clock max_age r a =
      let (e, fewer) =
        queue_taken clock max_age r.bridge.queue r.bridge.dropped_stale _
          (next_event-Hands clock max_age r.bridge) in
      record {
        total = omega (arith, a.total, e, next_event_full clock max_age r.bridge);
        within = omega (arith, a.within, fewer);
      }

  bridge_step-IsAccounted :
      (o : BridgeOp D E) (r : Run D E) → IsAccounted r → IsAccounted (bridge_step o r)
  unfolding bridge_step
  bridge_step-IsAccounted (published now s event) r a = published-IsAccounted now s event r a
  bridge_step-IsAccounted (archived fails s) r a = archive_same fails s r a
  bridge_step-IsAccounted (taken clock max_age) r a = taken-IsAccounted clock max_age r a

  -- Through any run of publications, archivings and calls for the next event, the notices that were
  -- published are those delivered, those that the two counters count as dropped, and those that
  -- still wait, at most 1000, if this held at the start.
  pub bridge_run-IsAccounted :
      (os : List (BridgeOp D E)) (r : Run D E) → IsAccounted r → IsAccounted (bridge_run os r)
  unfolding bridge_run
  bridge_run-IsAccounted [] r a = a
  bridge_run-IsAccounted (o ∷ os) r a =
      bridge_run-IsAccounted os (bridge_step o r) (bridge_step-IsAccounted o r a)
