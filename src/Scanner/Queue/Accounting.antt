-- ===== src/Scanner/Queue/Accounting.antt =====
-- What the queue of src/scanner/priority/scheduler.py counts is what it holds.
use atlasarb.Prelude.{
  ℕ, ◌+◌, ◌%◌, ◌≤◌, false, Option, none, some, List, [], ◌∷◌, ◌≡◌, inl, inr, ◌⊎◌, All, refl, arith,
  ◌==◌, nat_eq, string_eq, pair_eq, Bool-cases,
}
use atlasarb.Scanner.Queue.{
  Priority, p1, p2, p3, Item, EventQueue, tier, set_tier, put, order, dequeue, serve, turn,
}
use atlasarb.Scanner.Queue.Counts.{IsConsistent, buffered, put-IsConsistent, dequeue-IsConsistent}

pub List-cases : (xs : List Item) → (xs ≡ []) ⊎ ((x : Item) × (r : List Item) × (xs ≡ x ∷ r))
List-cases [] = inl refl
List-cases (x ∷ r) = inr (x, r, refl)

-- A round takes the first item of a queue.
abbrev pub Takes : EventQueue → Option Item × EventQueue → Type 0
Takes q r =
    (p : Priority) × (item : Item) × (rest : List Item) × (tier p q ≡ item ∷ rest)
    × (r ≡ (some item, dequeue p item rest q))

serve_cases :
    (ps : List Priority) (q : EventQueue)
    → Takes q (serve ps q)
      ⊎ (serve ps q ≡ (none, record q { signalled = false })) × All (λ p. tier p q ≡ []) ps
unfolding serve
serve_cases [] q = inr (refl, tt)
serve_cases (p ∷ ps) q = elim (List-cases (tier p q)) [
  | inr (item, rest, e) ↦ inl (p, item, rest, e, rw (e, serve))
  | inl e ↦ elim (serve_cases ps q) [
    | inl (p', item, rest, e', ran) ↦ inl (p', item, rest, e', rw (e, serve) ran)
    | inr (ran, none_left) ↦ inr (rw (e, serve) ran, (e, none_left))
  ]
]

abbrev pub started : EventQueue → EventQueue
started q = record q { starts = q.starts + 1 }

nothing_buffered : (q : EventQueue) → q.first ≡ [] → q.second ≡ [] → q.third ≡ [] → buffered q ≡ 0
nothing_buffered q a b c = rw a (rw b (rw c refl))

buffered_none : (n : ℕ) (q : EventQueue) → All (λ p. tier p q ≡ []) (order n) → buffered q ≡ 0
unfolding order tier
buffered_none n q all = elim (Bool-cases (n % 4 == 0)) [
  | inl turn_of_two ↦ let (b, (c, (a, _))) = rw turn_of_two at all in nothing_buffered q a b c
  | inr other ↦ let (a, (b, (c, _))) = rw other at all in nothing_buffered q a b c
]

pub turn_cases :
    (q : EventQueue)
    → Takes (started q) (turn q)
      ⊎ (turn q ≡ (none, record (started q) { signalled = false })) × (buffered q ≡ 0)
unfolding turn
turn_cases q = elim (serve_cases (order q.starts) (started q)) [
  | inl takes ↦ inl takes
  | inr (ran, all) ↦ inr (ran, buffered_none q.starts (started q) all)
]

started-IsConsistent : (q : EventQueue) → IsConsistent q → IsConsistent (started q)
started-IsConsistent q c = record {
  tracked = c.tracked;
  unique = c.unique;
  sized = c.sized;
  accounted = c.accounted;
  awake = c.awake;
}

pub turn-IsConsistent : (q : EventQueue) → IsConsistent q → IsConsistent (turn q).1
turn-IsConsistent q c = elim (turn_cases q) [
  | inl (p, item, rest, e, ran) ↦
      rw ran (dequeue-IsConsistent p item rest (started q) e (started-IsConsistent q c))
  | inr (ran, none_left) ↦ rw ran (record {
    tracked = c.tracked;
    unique = c.unique;
    sized = c.sized;
    accounted = c.accounted;
    awake = λ h. none_left;
  })
]

buffered-dequeue :
    (p : Priority) (item : Item) (rest : List Item) (q : EventQueue)
    → tier p q ≡ item ∷ rest
    → (buffered (dequeue p item rest q) + 1 ≡ buffered q)
      × ((dequeue p item rest q).dequeued ≡ q.dequeued + 1)
unfolding tier dequeue set_tier
buffered-dequeue p1 item rest q e = (rw e (omega arith), refl)
buffered-dequeue p2 item rest q e = (rw e (omega arith), refl)
buffered-dequeue p3 item rest q e = (rw e (omega arith), refl)

-- A round on a queue that holds something returns an item and leaves one less to do; the
-- counter of dequeued items goes up by one.
pub turn_progress :
    (q : EventQueue)
    → 1 ≤ buffered q
    → (item : Item) × ((turn q).0 ≡ some item)
      × (buffered (turn q).1 + 1 ≡ buffered q)
      × ((turn q).1.dequeued ≡ q.dequeued + 1)
turn_progress q some_left = elim (turn_cases q) [
  | inr (ran, none_left) ↦ absurd (omega (arith, some_left, none_left))
  | inl (p, item, rest, e, ran) ↦
      let (size, counted) = buffered-dequeue p item rest (started q) e in
      rw ran (item, refl, size, counted)
]

-- Any sequence of the two operations that change the queue, by producers and consumers alike.
pub data Step : Type 0 where
  putting : ℕ → Priority → Item → Step
  getting : Step

unfoldable pub step : Step → EventQueue → EventQueue
step (putting now p item) q = put now p item q
step getting q = (turn q).1

unfoldable pub run : List Step → EventQueue → EventQueue
run [] q = q
run (s ∷ ss) q = run ss (step s q)

-- From a consistent queue, such as a new one, every sequence of `put` and rounds of `get` keeps it
-- consistent: its dictionary lists each queued symbol once and nothing else, `pending()` is its
-- size, what was enqueued and not dequeued is what is there, and a consumer only waits while
-- nothing is queued.
pub run-IsConsistent : (ss : List Step) (q : EventQueue) → IsConsistent q → IsConsistent (run ss q)
unfolding run step
run-IsConsistent [] q c = c
run-IsConsistent (putting now p item ∷ ss) q c =
    run-IsConsistent ss (put now p item q) (put-IsConsistent now p item q c)
run-IsConsistent (getting ∷ ss) q c = run-IsConsistent ss (turn q).1 (turn-IsConsistent q c)
