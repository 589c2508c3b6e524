-- ===== src/Signals/Backlog.antt =====
-- What the queue of src/services/engine_bridge.py keeps, drops and hands over.
use atlasarb.Prelude.{
  ℕ, ◌+◌, ◌-◌, ◌≤◌, Bool, true, false, Option, none, some, List, [], ◌∷◌, ◌++◌, ◌≡◌, refl, inl, inr,
  arith, ltb, leb, length, length-append, Bool-cases, ap, subst, ◌∙◌, ◌⊎◌, leb→le, string_eq,
}
use atlasarb.Prelude.Dict
use atlasarb.Prelude.Dict.{get-put_self}
use atlasarb.Signals.{Signal}
use atlasarb.Signals.Registry.{upsert}
use atlasarb.Signals.Bridge.{
  Event, Notice, Bridge, max_pending, push, publish, take_fresh, next_event,
}

module _ {D E : Type 0} where
  push_lem :
      (n : Notice D E) (q : List (Notice D E)) (d : ℕ)
      → (dropped : List (Notice D E)) × (kept : List (Notice D E)) × (q ≡ dropped ++ kept)
        × (push n q d ≡ (kept ++ n ∷ [], d + length dropped))
        × (length dropped ≡ length q - 999)
  unfolding push
  push_lem n [] d = ([], [], refl, ap (λ k. (n ∷ [], k)) (omega arith), refl)
  push_lem n (old ∷ q) d = elim (Bool-cases (leb max_pending (length (old ∷ q)))) [
    | inl full ↦
        let (dropped, kept, split, pushed, many) = push_lem n q (d + 1) in
        (
          old ∷ dropped,
          kept,
          ap (λ r. old ∷ r) split,
          rw full (rw pushed (ap (λ k. (kept ++ n ∷ [], k)) (omega arith))),
          ground (arith, leb→le _ _ full),
        )
    | inr room ↦
        ([], old ∷ q, refl, rw room (ap (λ k. (old ∷ q ++ n ∷ [], k)) (omega arith)), ground arith)
  ]

  -- Publishing a signal puts it in the registry under its id and its notice at the end of the
  -- queue. Of the notices that waited, a first part is dropped, as many as there were beyond 999,
  -- each is counted, and the others stay in their order: the queue ends within 1000.
  pub publish_queue :
      (now : ℕ) (s : Signal D E) (event : Event) (b : Bridge D E)
      → (dropped : List (Notice D E)) × (kept : List (Notice D E)) × (b.queue ≡ dropped ++ kept)
        × ((publish now s event b).queue
            ≡ kept ++ record { queued_at = now; event = event; signal = s } ∷ [])
        × (length dropped ≡ length b.queue - 999)
        × (length (publish now s event b).queue ≤ max_pending)
        × ((publish now s event b).dropped_full ≡ b.dropped_full + length dropped)
        × (Dict.get s.id (publish now s event b).registry.active ≡ some s)
  unfolding publish upsert
  publish_queue now s event b =
      let n : Notice D E = record { queued_at = now; event = event; signal = s } in
      let (dropped, kept, split, pushed, many) = push_lem n b.queue b.dropped_full in
      let total : length b.queue ≡ length dropped + length kept =
        ap length split ∙ length-append dropped kept in
      (
        dropped,
        kept,
        split,
        ap (λ r. r.0) pushed,
        many,
        rw pushed (omega (arith, length-append kept (n ∷ []))),
        ap (λ r. r.1) pushed,
        get-put_self s.id s b.registry.active,
      )

  -- A notice is over when it has waited longer than `max_age`.
  abbrev pub too_old : (ℕ → ℕ) → ℕ → ℕ → Notice D E → Bool
  too_old clock max_age i n = ltb (n.queued_at + max_age) (clock i)

  -- Each notice of the list was over at its own dequeue.
  abbrev pub AllOld : (ℕ → ℕ) → ℕ → ℕ → List (Notice D E) → Type 0
  AllOld clock max_age i [] = Unit {0}
  AllOld clock max_age i (n ∷ q) =
      (too_old clock max_age i n ≡ true) × AllOld clock max_age (i + 1) q

  -- What one call takes: the stale notices and, if there is one, the first that is fresh.
  abbrev pub Hands :
      (ℕ → ℕ)
      → ℕ
      → ℕ
      → List (Notice D E)
      → ℕ
      → Option (Event × Signal D E) × (List (Notice D E) × ℕ)
      → Type 0
  Hands clock max_age i q stale r =
      (old : List (Notice D E)) × AllOld clock max_age i old
      × (r.1.1 ≡ stale + length old)
      × (((r.0 ≡ none) × (r.1.0 ≡ []) × (q ≡ old))
          ⊎ ((n : Notice D E) × (r.0 ≡ some (n.event, n.signal))
              × (too_old clock max_age (i + length old) n ≡ false)
              × (q ≡ old ++ n ∷ r.1.0)))

  cons-Hands :
      (clock : ℕ → ℕ) (max_age i : ℕ) (n : Notice D E) (q : List (Notice D E)) (stale : ℕ)
      → too_old clock max_age i n ≡ true
      → {r : Option (Event × Signal D E) × (List (Notice D E) × ℕ)}
      → Hands clock max_age (i + 1) q (stale + 1) r
      → Hands clock max_age i (n ∷ q) stale r
  cons-Hands clock max_age i n q stale over (old, all, many, outcome) =
      let e : i + 1 + length old ≡ i + length (n ∷ old) = omega arith in
      (
        n ∷ old,
        (over, all),
        omega (arith, many),
        elim outcome [
          | inl (nothing, empty, only) ↦ inl (nothing, empty, ap (λ l. n ∷ l) only)
          | inr (m, given, fresh, split) ↦ inr (
            m,
            given,
            subst (λ j. too_old clock max_age j m ≡ false) e fresh,
            ap (λ l. n ∷ l) split,
          )
        ],
      )

  take_fresh_lem :
      (clock : ℕ → ℕ) (max_age i : ℕ) (q : List (Notice D E)) (stale : ℕ)
      → Hands clock max_age i q stale (take_fresh clock max_age i q stale)
  unfolding take_fresh
  take_fresh_lem clock max_age i [] stale = ([], tt, omega arith, inl (refl, refl, refl))
  take_fresh_lem clock max_age i (n ∷ q) stale =
      elim (Bool-cases (ltb (n.queued_at + max_age) (clock i))) [
        | inr fresh ↦ rw fresh (
          [],
          tt,
          omega arith,
          inr (
            n,
            refl,
            (let e : i ≡ i + length {A = Notice D E} [] = omega arith in
                subst (λ j. too_old clock max_age j n ≡ false) e fresh),
            refl,
          ),
        )
        | inl over ↦ rw over (
            cons-Hands clock max_age i n q stale over
              (take_fresh_lem clock max_age (i + 1) q (stale + 1)))
      ]

  -- A call for the next event, where `clock i` is the time of its i-th dequeue, discards a first
  -- part of the queue, of notices that had each waited longer than the limit at their own dequeue,
  -- and counts each of them. Then either the queue is at its end and the call waits, or the call
  -- returns the event and the signal of the first notice that had not waited so long, and exactly
  -- the notices behind it are left.
  pub next_event-Hands :
      (clock : ℕ → ℕ) (max_age : ℕ) (b : Bridge D E)
      → Hands clock max_age 0 b.queue b.dropped_stale (
        (next_event clock max_age b).0,
        ((next_event clock max_age b).1.queue, (next_event clock max_age b).1.dropped_stale),
      )
  unfolding next_event
  next_event-Hands clock max_age b = take_fresh_lem clock max_age 0 b.queue b.dropped_stale
