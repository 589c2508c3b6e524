-- ===== src/Limiter/Examples.antt =====
-- Tests and a concrete instance of the theorem about the sliding-window limiter.
use atlasarb.Prelude.{◌≤◌, [], ◌∷◌, ◌≡◌, refl, arith}
use atlasarb.Prelude.Dict
use atlasarb.Limiter.{Limiter}
use atlasarb.Limiter.Bound.{Calls, accepted, calls_in, Ordered, window_bound}

abbrev calls : Calls
calls = (7, 10) ∷ (7, 12) ∷ (8, 12) ∷ (7, 13) ∷ (7, 20) ∷ (7, 21) ∷ []

abbrev two_in_ten : Limiter
two_in_ten = record { max_events = 2; window = 10; events = [] }

-- An event counts for its window, the end included.
calls_accepted : accepted calls two_in_ten ≡ (7, 10) ∷ (7, 12) ∷ (8, 12) ∷ (7, 21) ∷ []
unfolding accepted Dict.get Dict.put
calls_accepted = refl

calls-Ordered : Ordered 0 calls
calls-Ordered = ground arith

window_bound_example : calls_in 7 10 11 (accepted calls two_in_ten) ≤ 2
window_bound_example = window_bound 2 10 7 11 0 calls calls-Ordered
