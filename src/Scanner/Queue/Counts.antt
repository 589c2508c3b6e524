-- ===== src/Scanner/Queue/Counts.antt =====
-- What the operations of the queue of src/scanner/priority/scheduler.py do to its counts.
use atlasarb.Prelude.{
  ℕ, ◌+◌, ◌≤◌, true, false, List, [], ◌∷◌, ◌++◌, ◌≡◌, inl, inr, refl, arith, if◌then◌else◌, ◌==◌,
  ==_iff, ==_refl, nat_eq, string_eq, pair_eq, count, length, length-append, Bool-cases,
}
use atlasarb.Prelude.Dict
use atlasarb.Prelude.Dict.{Dict}
use atlasarb.Scanner.Queue.{
  Priority, p1, p2, p3, Item, Key, key_of, EventQueue, tier, set_tier, enqueue, put, dequeue,
}

-- How many items of a list have a key, and how often a dictionary lists it.
abbrev pub copies : Key → List Item → ℕ
copies k items = count (λ i. key_of i == k) items

abbrev pub marks : Key → Dict Key ℕ → ℕ
marks k m = count (λ e. e.0 == k) m

abbrev pub queued : Key → EventQueue → ℕ
queued k q = copies k q.first + copies k q.second + copies k q.third

-- `pending()`
abbrev pub buffered : EventQueue → ℕ
buffered q = length q.first + length q.second + length q.third

-- The dictionary of waiting keys lists the queued items, each key once; the counters account for
-- them; and the event is only down when nothing is queued.
pub record IsConsistent (q : EventQueue) : Type 0 where
  pub tracked : (k : Key) → queued k q ≡ marks k q.waiting
  pub unique : (k : Key) → marks k q.waiting ≤ 1
  pub sized : length q.waiting ≡ buffered q
  pub accounted : q.enqueued ≡ q.dequeued + buffered q
  pub awake : q.signalled ≡ false → buffered q ≡ 0

copies-append :
    (k : Key) (xs : List Item) (i : Item)
    → copies k (xs ++ i ∷ []) ≡ copies k xs + (if key_of i == k then 1 else 0)
unfolding count
copies-append k [] i = ground arith
copies-append k (x ∷ xs) i = ground (arith, copies-append k xs i)

copies_cons :
    (k : Key) (i : Item) (xs : List Item)
    → copies k (i ∷ xs) ≡ copies k xs + (if key_of i == k then 1 else 0)
unfolding count
copies_cons k i xs = ground arith

marks_absent : (k : Key) (m : Dict Key ℕ) → Dict.has k m ≡ false → marks k m ≡ 0
unfolding count Dict.has Dict.get
marks_absent k [] h = refl
marks_absent k ((j, v) ∷ m) h = ground (arith, marks_absent k m)

marks-put :
    (k j : Key) (v : ℕ) (m : Dict Key ℕ)
    → Dict.has k m ≡ false
    → marks j (Dict.put k v m) ≡ marks j m + (if k == j then 1 else 0)
unfolding count Dict.has Dict.get Dict.put
marks-put k j v [] h = ground arith
marks-put k j v ((i, w) ∷ m) h = ground (arith, marks-put k j v m)

length-put :
    (k : Key) (v : ℕ) (m : Dict Key ℕ)
    → Dict.has k m ≡ false
    → length (Dict.put k v m) ≡ length m + 1
unfolding Dict.has Dict.get Dict.put
length-put k v [] h = refl
length-put k v ((i, w) ∷ m) h = ground (arith, length-put k v m)

marks-pop :
    (k j : Key) (m : Dict Key ℕ) → marks j (Dict.pop k m) ≡ (if k == j then 0 else marks j m)
unfolding count Dict.pop
marks-pop k j [] = ground arith
marks-pop k j ((i, w) ∷ m) = ground (arith, ==_iff k j, ==_iff i k, ==_iff i j, marks-pop k j m)

length-pop : (k : Key) (m : Dict Key ℕ) → length (Dict.pop k m) + marks k m ≡ length m
unfolding count Dict.pop
length-pop k [] = refl
length-pop k ((i, w) ∷ m) = ground (arith, length-pop k m)

-- A queue that holds one more item, and has marked it.
grown-IsConsistent :
    (now : ℕ) (item : Item) (q q' : EventQueue)
    → Dict.has (key_of item) q.waiting ≡ false
    → IsConsistent q
    → ((k : Key) → queued k q' ≡ queued k q + (if key_of item == k then 1 else 0))
    → buffered q' ≡ buffered q + 1
    → q'.waiting ≡ Dict.put (key_of item) now q.waiting
    → q'.enqueued ≡ q.enqueued + 1
    → q'.dequeued ≡ q.dequeued
    → q'.signalled ≡ true
    → IsConsistent q'
grown-IsConsistent now item q q' new c more size marked counted kept raised = record {
  tracked = λ k.
      rw marked (omega (arith, more k, marks-put (key_of item) k now q.waiting new, c.tracked k));
  unique = λ k. rw marked (
      ground (
        arith,
        marks-put (key_of item) k now q.waiting new,
        c.unique k,
        marks_absent (key_of item) q.waiting new,
        ==_iff (key_of item) k,
      ));
  sized = rw marked (omega (arith, size, length-put (key_of item) now q.waiting new, c.sized));
  accounted = omega (arith, size, c.accounted);
  awake = λ h. cc;
}

enqueue-IsConsistent :
    (now : ℕ) (p : Priority) (item : Item) (q : EventQueue)
    → Dict.has (key_of item) q.waiting ≡ false
    → IsConsistent q
    → IsConsistent (enqueue now p item q)
unfolding enqueue set_tier tier
enqueue-IsConsistent now p1 item q new c =
    grown-IsConsistent now item q (enqueue now p1 item q) new c
      (λ k. omega (arith, copies-append k q.first item))
      (omega (arith, length-append q.first (item ∷ []))) refl refl refl refl
enqueue-IsConsistent now p2 item q new c =
    grown-IsConsistent now item q (enqueue now p2 item q) new c
      (λ k. omega (arith, copies-append k q.second item))
      (omega (arith, length-append q.second (item ∷ []))) refl refl refl refl
enqueue-IsConsistent now p3 item q new c =
    grown-IsConsistent now item q (enqueue now p3 item q) new c
      (λ k. omega (arith, copies-append k q.third item))
      (omega (arith, length-append q.third (item ∷ []))) refl refl refl refl

pub put-IsConsistent :
    (now : ℕ) (p : Priority) (item : Item) (q : EventQueue)
    → IsConsistent q
    → IsConsistent (put now p item q)
unfolding put
put-IsConsistent now p item q c = elim (Bool-cases (Dict.has (key_of item) q.waiting)) [
  | inl old ↦ rw old c
  | inr new ↦ rw new (enqueue-IsConsistent now p item q new c)
]

-- A queue that holds one item less, and has unmarked it.
shrunk-IsConsistent :
    (item : Item) (q q' : EventQueue)
    → IsConsistent q
    → ((k : Key) → queued k q ≡ queued k q' + (if key_of item == k then 1 else 0))
    → buffered q ≡ buffered q' + 1
    → q'.waiting ≡ Dict.pop (key_of item) q.waiting
    → q'.enqueued ≡ q.enqueued
    → q'.dequeued ≡ q.dequeued + 1
    → q'.signalled ≡ q.signalled
    → IsConsistent q'
shrunk-IsConsistent item q q' c less size unmarked kept counted raised = record {
  tracked = λ k.
      rw unmarked
        (ground (arith, less k, marks-pop (key_of item) k q.waiting, c.tracked k, c.unique k));
  unique = λ k. rw unmarked (ground (arith, marks-pop (key_of item) k q.waiting, c.unique k));
  sized = rw unmarked (
      ground (
        arith,
        size,
        length-pop (key_of item) q.waiting,
        c.sized,
        c.tracked (key_of item),
        c.unique (key_of item),
        less (key_of item),
        ==_refl (key_of item),
      ));
  accounted = omega (arith, size, c.accounted);
  awake = λ h. absurd (ground (arith, size, c.awake));
}

pub dequeue-IsConsistent :
    (p : Priority) (item : Item) (rest : List Item) (q : EventQueue)
    → tier p q ≡ item ∷ rest
    → IsConsistent q
    → IsConsistent (dequeue p item rest q)
unfolding dequeue set_tier tier
dequeue-IsConsistent p1 item rest q e c =
    shrunk-IsConsistent item q (dequeue p1 item rest q) c
      (λ k. rw e (omega (arith, copies_cons k item rest))) (rw e (omega arith)) refl refl refl refl
dequeue-IsConsistent p2 item rest q e c =
    shrunk-IsConsistent item q (dequeue p2 item rest q) c
      (λ k. rw e (omega (arith, copies_cons k item rest))) (rw e (omega arith)) refl refl refl refl
dequeue-IsConsistent p3 item rest q e c =
    shrunk-IsConsistent item q (dequeue p3 item rest q) c
      (λ k. rw e (omega (arith, copies_cons k item rest))) (rw e (omega arith)) refl refl refl refl
