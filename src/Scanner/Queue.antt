-- ===== src/Scanner/Queue.antt =====
-- PriorityEventQueue of src/scanner/priority/scheduler.py: three queues of market events, a symbol
-- being queued once at most. `turn` is a round of the loop of `get`: it returns an item, or waits.
use atlasarb.Prelude.{
  ℕ, ◌+◌, ◌%◌, String, Bool, true, false, Option, none, some, List, [], ◌∷◌, ◌++◌, if◌then◌else◌,
  ◌==◌, nat_eq, string_eq, pair_eq, is_some,
}
use atlasarb.Prelude.Dict
use atlasarb.Prelude.Dict.{Dict}
pub mod Counts
pub mod Accounting
pub mod Fairness
pub mod Examples

pub data Priority : Type 0 where
  p1 p2 p3 : Priority

-- `(base, quote, venue)`
pub record Item : Type 0 where
  pub base : String
  pub quote : String
  pub venue : String

abbrev pub Key : Type 0
Key = String × String

abbrev pub key_of : Item → Key
key_of i = (i.base, i.quote)

-- `signalled` is the asyncio event that `get` waits for.
pub record EventQueue : Type 0 where
  pub first : List Item
  pub second : List Item
  pub third : List Item
  pub waiting : Dict Key ℕ
  pub starts : ℕ
  pub signalled : Bool
  pub enqueued : ℕ
  pub dequeued : ℕ

abbrev pub empty_queue : EventQueue
empty_queue = record {
  first = [];
  second = [];
  third = [];
  waiting = [];
  starts = 0;
  signalled = false;
  enqueued = 0;
  dequeued = 0;
}

unfoldable pub tier : Priority → EventQueue → List Item
tier p1 q = q.first
tier p2 q = q.second
tier p3 q = q.third

unfoldable pub set_tier : Priority → List Item → EventQueue → EventQueue
set_tier p1 items q = record q { first = items }
set_tier p2 items q = record q { second = items }
set_tier p3 items q = record q { third = items }

unfoldable pub enqueue : ℕ → Priority → Item → EventQueue → EventQueue
unfolding set_tier tier Dict.put
enqueue now p item q = set_tier p (tier p q ++ item ∷ []) (record q {
  waiting = Dict.put (key_of item) now q.waiting;
  enqueued = q.enqueued + 1;
  signalled = true;
})

unfoldable pub put : ℕ → Priority → Item → EventQueue → EventQueue
unfolding enqueue Dict.has
put now p item q = if Dict.has (key_of item) q.waiting then q else enqueue now p item q

unfoldable pub order : ℕ → List Priority
order starts = if starts % 4 == 0 then p2 ∷ p3 ∷ p1 ∷ [] else p1 ∷ p2 ∷ p3 ∷ []

-- `get_nowait` of a queue whose first item and other items are these
unfoldable pub dequeue : Priority → Item → List Item → EventQueue → EventQueue
unfolding set_tier Dict.pop
dequeue p item rest q =
    set_tier p rest
      (record q { waiting = Dict.pop (key_of item) q.waiting; dequeued = q.dequeued + 1 })

-- the `for` loop of `get`
unfoldable pub serve : List Priority → EventQueue → Option Item × EventQueue
unfolding tier dequeue
serve [] q = (none, record q { signalled = false })
serve (p ∷ ps) q = elim (tier p q) [
  | [] ↦ serve ps q
  | item ∷ rest ↦ (some item, dequeue p item rest q)
]

unfoldable pub turn : EventQueue → Option Item × EventQueue
unfolding order serve
turn q = serve (order q.starts) (record q { starts = q.starts + 1 })
