-- ===== src/Limiter/Bound.antt =====
-- The limiter of src/services/rate_limiter.py keeps its limit in every window of time.
use atlasarb.Prelude.{
  ℕ, ◌+◌, ◌≤◌, Bool, true, false, ◌&&◌, List, [], ◌∷◌, ◌++◌, ◌≡◌, refl, arith, if◌then◌else◌, ◌==◌,
  ==_iff, ==_refl, nat_eq, leb, length, count, Bool-cases, inl, inr,
}
use atlasarb.Prelude.Dict
use atlasarb.Prelude.Dict.{Dict, get-put}
use atlasarb.Limiter.{Limiter, events_of, drop_old, admit, allow}

-- Whether a time lies in the closed window that starts at another.
abbrev pub in_window : ℕ → ℕ → ℕ → Bool
in_window window start t = leb start t && leb t (start + window)

abbrev pub times_in : ℕ → ℕ → List ℕ → ℕ
times_in window start q = count (in_window window start) q

-- Calls of `allow`: the user and the time of each.
abbrev pub Calls : Type 0
Calls = List (ℕ × ℕ)

-- The calls that are accepted, in order.
unfoldable pub accepted : Calls → Limiter → Calls
unfolding allow
accepted [] l = []
accepted ((user, now) ∷ more) l =
    if (allow user now l).0
    then (user, now) ∷ accepted more (allow user now l).1
    else accepted more (allow user now l).1

-- How many calls of a user lie in a window.
abbrev pub calls_in : ℕ → ℕ → ℕ → Calls → ℕ
calls_in user window start calls = count (λ c. (c.0 == user) && in_window window start c.1) calls

-- The clock does not go back.
abbrev pub Ordered : ℕ → Calls → Type 0
Ordered last [] = Unit
Ordered last ((_, now) ∷ more) = (last ≤ now) × Ordered now more

times_in-length : (window start : ℕ) (q : List ℕ) → times_in window start q ≤ length q
unfolding count
times_in-length window start [] = omega arith
times_in-length window start (t ∷ q) = ground (arith, times_in-length window start q)

times_in-append :
    (window start now : ℕ) (q : List ℕ)
    → times_in window start (q ++ now ∷ [])
      ≡ times_in window start q + (if in_window window start now then 1 else 0)
unfolding count
times_in-append window start now [] = ground arith
times_in-append window start now (t ∷ q) = ground (arith, times_in-append window start now q)

times_in-drop_old :
    (window start now : ℕ) (q : List ℕ)
    → now ≤ start + window
    → times_in window start (drop_old window now q) ≡ times_in window start q
unfolding count drop_old
times_in-drop_old window start now [] h = refl
times_in-drop_old window start now (t ∷ q) h =
    ground (arith, times_in-drop_old window start now q h)

events_of-put :
    (user v : ℕ) (q : List ℕ) (m : Dict ℕ (List ℕ))
    → events_of user (Dict.put v q m) ≡ (if v == user then q else events_of user m)
unfolding events_of
events_of-put user v q m = elim (Bool-cases (v == user)) [
  | inl own ↦ rw (get-put v user q m, events_of) (rw own refl)
  | inr other ↦ rw (get-put v user q m, events_of) (rw other refl)
]

-- What a call adds to the count of a user's window.
abbrev pub gained : ℕ → ℕ → ℕ → ℕ → ℕ → Bool → ℕ
gained user window start v now true = if (v == user) && in_window window start now then 1 else 0
gained user window start v now false = 0

module _ (max_events window user start : ℕ) where
  -- What is known of a window of a user whose queue is given, at a time: the count of past events
  -- is within the limit, and the queue still holds all of them while the window is open.
  abbrev pub Within : ℕ → ℕ → List ℕ → Type 0
  Within past now q = (past ≤ max_events) × (now ≤ start + window → past ≤ times_in window start q)

  admit-Within :
      (past last now : ℕ) (q : List ℕ)
      → last ≤ now
      → Within past last q
      → Within
          (past + gained user window start user now (admit max_events window now q).0)
          now
          (admit max_events window now q).1
  unfolding admit
  admit-Within past last now q later (bound, open_held) =
      elim (Bool-cases (leb max_events (length (drop_old window now q)))) [
        | inl full ↦ rw full (
          omega arith,
          λ still.
              omega (arith, open_held (omega arith), times_in-drop_old window start now q still),
        )
        | inr room ↦ rw room (
          ground (
            arith,
            ==_refl user,
            times_in-drop_old window start now q,
            times_in-length window start (drop_old window now q),
          ),
          λ still. ground (
            arith,
            ==_refl user,
            times_in-drop_old window start now q still,
            times_in-append window start now (drop_old window now q),
          ),
        )
      ]

events_of-allow :
    (user v now : ℕ) (l : Limiter)
    → events_of user (allow v now l).1.events ≡ (
        if v == user
        then (admit l.max_events l.window now (events_of v l.events)).1
        else events_of user l.events)
unfolding allow
events_of-allow user v now l =
    events_of-put user v (admit l.max_events l.window now (events_of v l.events)).1 l.events

abbrev verdict : ℕ → ℕ → Limiter → Bool
verdict v now l = (admit l.max_events l.window now (events_of v l.events)).0

allow-verdict : (v now : ℕ) (l : Limiter) → (allow v now l).0 ≡ verdict v now l
unfolding allow
allow-verdict v now l = refl

gained_other :
    (user window start v now : ℕ) (b : Bool)
    → (v == user) ≡ false
    → gained user window start v now b ≡ 0
gained_other user window start v now true h = rw h refl
gained_other user window start v now false h = refl

allow-Within :
    (user start past last now v : ℕ) (l : Limiter)
    → last ≤ now
    → Within l.max_events l.window user start past last (events_of user l.events)
    → Within l.max_events l.window user start
        (past + gained user l.window start v now (allow v now l).0)
        now
        (events_of user (allow v now l).1.events)
allow-Within user start past last now v l later within = rw (events_of-allow user v now l) (
    rw (allow-verdict v now l) (elim (Bool-cases (v == user)) [
      | inl own ↦ rw own (
          rw ((==_iff v user).0 own) (
            admit-Within l.max_events l.window user start past last now (events_of user l.events)
              later within))
      | inr other ↦ rw other (
          rw (gained_other user l.window start v now (verdict v now l) other)
            (omega (arith, within.0), λ still. omega (arith, within.1 (omega arith))))
    ]))

calls_in-step :
    (user window start v now : ℕ) (b : Bool) (rest : Calls)
    → calls_in user window start (if b then (v, now) ∷ rest else rest)
      ≡ gained user window start v now b + calls_in user window start rest
unfolding count
calls_in-step user window start v now true rest = ground arith
calls_in-step user window start v now false rest = omega arith

accepted_bound :
    (calls : Calls) (user start past last : ℕ) (l : Limiter)
    → Ordered last calls
    → Within l.max_events l.window user start past last (events_of user l.events)
    → past + calls_in user l.window start (accepted calls l) ≤ l.max_events
unfolding accepted count
accepted_bound [] user start past last l ordered within = omega (arith, within.0)
accepted_bound ((v, now) ∷ more) user start past last l (later, ordered) within =
    rw (calls_in-step user l.window start v now (allow v now l).0 (accepted more (allow v now l).1))
      (omega (
        arith,
        accepted_bound more user start (past + gained user l.window start v now (allow v now l).0)
            now (allow v now l).1 ordered (allow-Within user start past last now v l later within),
      ))

-- On a clock that does not go back, a new limiter accepts at most its maximum of calls of a user in any
-- window of its length, wherever the window starts.
pub window_bound :
    (max_events window user start last : ℕ) (calls : Calls)
    → Ordered last calls
    → calls_in user window start
        (accepted calls (record { max_events = max_events; window = window; events = [] }))
      ≤ max_events
window_bound max_events window user start last calls ordered = omega (
  arith,
  accepted_bound calls user start 0 last
      (record { max_events = max_events; window = window; events = [] }) ordered
      (omega arith, λ still. omega arith),
)
