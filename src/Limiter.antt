-- ===== src/Limiter.antt =====
-- SlidingWindowLimiter of src/services/rate_limiter.py: at most so many events of a user in a window.
use atlasarb.Prelude.{
  ℕ, ◌+◌, Bool, true, false, Option, none, some, List, [], ◌∷◌, ◌++◌, if◌then◌else◌, nat_eq, leb,
  ltb, length,
}
use atlasarb.Prelude.Dict
use atlasarb.Prelude.Dict.{Dict}
pub mod Bound
pub mod Examples

-- The times of the accepted events of each user; times are ticks.
pub record Limiter : Type 0 where
  pub max_events : ℕ
  pub window : ℕ
  pub events : Dict ℕ (List ℕ)

-- `self._events[user_id]` of a defaultdict
unfoldable pub events_of : ℕ → Dict ℕ (List ℕ) → List ℕ
events_of user m = elim (Dict.get user m) [ none ↦ [] | some q ↦ q ]

-- the `while` loop: `q[0] < now - window`, for numbers that may be negative
unfoldable pub drop_old : ℕ → ℕ → List ℕ → List ℕ
drop_old window now [] = []
drop_old window now (t ∷ q) = if ltb (t + window) now then drop_old window now q else t ∷ q

-- `allow` on the queue of the user: whether it accepts, and the queue it leaves
unfoldable pub admit : ℕ → ℕ → ℕ → List ℕ → Bool × List ℕ
unfolding drop_old
admit max_events window now q =
    let kept = drop_old window now q in
    if leb max_events (length kept) then (false, kept) else (true, kept ++ now ∷ [])

unfoldable pub allow : ℕ → ℕ → Limiter → Bool × Limiter
unfolding admit events_of
allow user now l =
    let r = admit l.max_events l.window now (events_of user l.events) in
    (r.0, record l { events = Dict.put user r.1 l.events })
