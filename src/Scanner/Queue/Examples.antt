-- ===== src/Scanner/Queue/Examples.antt =====
-- Tests and concrete instances of the theorems about the queue of market events.
use atlasarb.Prelude.{
  ◌≤◌, true, some, List, [], ◌∷◌, ◌≡◌, refl, arith, nat_eq, string_eq, pair_eq, count,
}
use atlasarb.Prelude.Dict
use atlasarb.Scanner.Queue.{p1, p2, p3, Item, EventQueue, empty_queue, enqueue, put, turn}
use atlasarb.Scanner.Queue.Accounting.{Step, putting, getting, run, step, run-IsConsistent}
use atlasarb.Scanner.Queue.Counts.{IsConsistent, buffered}
use atlasarb.Scanner.Queue.Fairness.{Returned, rounds, second_tier_served}

empty_queue-IsConsistent : IsConsistent empty_queue
unfolding count
empty_queue-IsConsistent = record {
  tracked = λ k. refl;
  unique = λ k. omega arith;
  sized = refl;
  accounted = refl;
  awake = λ h. refl;
}

abbrev btc : Item
btc = record { base = "BTC"; quote = "USDT"; venue = "okx" }

abbrev btc_again : Item
btc_again = record { base = "BTC"; quote = "USDT"; venue = "bybit" }

abbrev ape : Item
ape = record { base = "APE"; quote = "USDT"; venue = "okx" }

abbrev xyz : Item
xyz = record { base = "XYZ"; quote = "USDT"; venue = "okx" }

abbrev steps : List Step
steps =
    putting 1 p1 btc ∷ putting 2 p2 ape ∷ putting 3 p1 btc_again ∷ putting 4 p3 xyz ∷ getting ∷ []

abbrev busy : EventQueue
busy = record {
  first = btc ∷ [];
  second = ape ∷ [];
  third = xyz ∷ [];
  waiting = (("BTC", "USDT"), 1) ∷ (("APE", "USDT"), 2) ∷ (("XYZ", "USDT"), 4) ∷ [];
  starts = 0;
  signalled = true;
  enqueued = 3;
  dequeued = 0;
}

-- The second symbol of a key is not queued, and the first round starts with the second tier.
busy_reached :
    run
      (putting 1 p1 btc ∷ putting 2 p2 ape ∷ putting 3 p1 btc_again ∷ putting 4 p3 xyz ∷ [])
      empty_queue
    ≡ busy
unfolding run step put enqueue Dict.get
busy_reached = refl

ape_first : (turn busy).0 ≡ some ape
unfolding turn
ape_first = refl

run-IsConsistent_example : IsConsistent (run steps empty_queue)
run-IsConsistent_example = run-IsConsistent steps empty_queue empty_queue-IsConsistent

three_left : 1 ≤ buffered busy
three_left = omega arith

second_tier_served_example :
    Returned ape (rounds ([] ∷ ((5, p1, btc) ∷ []) ∷ [] ∷ ((6, p2, btc) ∷ []) ∷ []) busy)
second_tier_served_example =
    second_tier_served [] ((5, p1, btc) ∷ []) [] ((6, p2, btc) ∷ []) ape [] busy refl
