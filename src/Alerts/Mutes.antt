-- ===== src/Alerts/Mutes.antt =====
-- Muting a pair and pausing all alerts: src/database/repositories/misc_repos.py.
use atlasarb.Prelude.{
  ℕ, ◌+◌, ◌≤◌, ◌<◌, String, false, ◌&&◌, none, List, [], ◌∷◌, ◌≡◌, refl, arith, ◌==◌, ==_iff,
  ==_refl, nat_eq, string_eq, ltb, length, count, filter,
}
use atlasarb.Alerts.{Mute}
use atlasarb.Alerts.Tables.{mutes_on, one_or_none, is_muted, mute_pair}

-- The user's mutes of one pair that run.
unfoldable pub running : ℕ → String → ℕ → List Mute → ℕ
unfolding count
running uid pair now ms =
    count (λ m. (m.user_id == uid) && ((m.pair == pair) && ltb now m.until)) ms

two_kinds :
    (uid : ℕ) (pair : String) (now : ℕ) (ms : List Mute)
    → (pair == "*ALL*") ≡ false
    → length (mutes_on uid pair now ms) ≡ running uid pair now ms + running uid "*ALL*" now ms
unfolding mutes_on running filter count
two_kinds uid pair now [] other = omega arith
two_kinds uid pair now (m ∷ ms) other = ground (
  arith,
  two_kinds uid pair now ms other,
  ==_iff m.pair pair,
  ==_iff m.pair "*ALL*",
  ==_iff pair "*ALL*",
)

running-mute_pair :
    (uid : ℕ) (pair : String) (until now : ℕ) (ms : List Mute)
    → now < until
    → 1 ≤ running uid pair now (mute_pair uid pair until ms)
unfolding running mute_pair count
running-mute_pair uid pair until now [] later = ground (arith, ==_refl uid, ==_refl pair)
running-mute_pair uid pair until now (m ∷ ms) later =
    ground (arith, running-mute_pair uid pair until now ms later, ==_refl uid, ==_refl pair)

running_kept :
    (uid : ℕ) (pair other : String) (until now : ℕ) (ms : List Mute)
    → (pair == other) ≡ false
    → running uid pair now ms ≤ running uid pair now (mute_pair uid other until ms)
unfolding running mute_pair count
running_kept uid pair other until now [] apart = omega arith
running_kept uid pair other until now (m ∷ ms) apart = ground (
  arith,
  running_kept uid pair other until now ms apart,
  ==_iff m.pair pair,
  ==_iff m.pair other,
  ==_iff pair other,
)

swapped : (a b : String) → (a == b) ≡ false → (b == a) ≡ false
swapped a b h = ground (arith, ==_iff a b, ==_iff b a)

one_or_none_many {ℓ} : {A : Type ℓ} (xs : List A) → 2 ≤ length xs → one_or_none xs ≡ none
unfolding one_or_none
one_or_none_many [] h = absurd (omega arith)
one_or_none_many (x ∷ []) h = absurd (omega arith)
one_or_none_many (x ∷ y ∷ r) h = refl

-- A user who has muted a pair and then pauses all alerts, or the other way round: while both run,
-- the query whether the pair is muted finds two rows and raises, whatever other mutes there are.
pub both_mutes_raise :
    (uid : ℕ) (pair : String) (until until' now : ℕ) (ms : List Mute)
    → (pair == "*ALL*") ≡ false
    → now < until
    → now < until'
    → (is_muted uid pair now (mute_pair uid "*ALL*" until' (mute_pair uid pair until ms)) ≡ none)
      × (is_muted uid pair now (mute_pair uid pair until (mute_pair uid "*ALL*" until' ms)) ≡ none)
unfolding is_muted
both_mutes_raise uid pair until until' now ms apart later later' = (
  one_or_none_many
      (mutes_on uid pair now (mute_pair uid "*ALL*" until' (mute_pair uid pair until ms)))
      (omega (
        arith,
        two_kinds uid pair now (mute_pair uid "*ALL*" until' (mute_pair uid pair until ms)) apart,
        running-mute_pair uid pair until now ms later,
        running_kept uid pair "*ALL*" until' now (mute_pair uid pair until ms) apart,
        running-mute_pair uid "*ALL*" until' now (mute_pair uid pair until ms) later',
      )),
  one_or_none_many
      (mutes_on uid pair now (mute_pair uid pair until (mute_pair uid "*ALL*" until' ms)))
      (omega (
        arith,
        two_kinds uid pair now (mute_pair uid pair until (mute_pair uid "*ALL*" until' ms)) apart,
        running-mute_pair uid "*ALL*" until' now ms later',
        running_kept uid "*ALL*" pair until now (mute_pair uid "*ALL*" until' ms)
            (swapped pair "*ALL*" apart),
        running-mute_pair uid pair until now (mute_pair uid "*ALL*" until' ms) later,
      )),
)
