-- ===== src/Signals/Window.antt =====
-- The cooldowns of src/scanner/lifecycle/cooldown.py against what they stand for: a deadline of each
-- route. The store forgets entries whose time has passed, at a query and when it grows; the
-- deadlines forget nothing.
use atlasarb.Prelude.{
  ℕ, ◌+◌, ◌≤◌, Bool, false, Option, none, some, List, [], ◌∷◌, ◌≡◌, refl, inl, inr, arith,
  if◌then◌else◌, ◌==◌, nat_eq, string_eq, pair_eq, option_eq, ltb, leb, length, Bool-cases, ==_iff,
  ap, subst, leb→le,
}
use atlasarb.Prelude.Dict
use atlasarb.Prelude.Dict.{Dict, IsUnique, get-put, get-pop, put-IsUnique, pop-IsUnique}
use atlasarb.Signals.{ArbitrageType, arb_eq, Settings, Key}
use atlasarb.Signals.Cooldown.{
  CooldownEntry, Cooldowns, purge, cooldown_for, on_expired, check_entry, in_cooldown, clear,
}

-- Whether an entry is live.
abbrev pub is_live : ℕ → Option CooldownEntry → Bool
is_live t none = false
is_live t (some e) = ltb t e.until

get-purge-none :
    (now : ℕ) (k : Key) (m : Cooldowns) → Dict.get k m ≡ none → Dict.get k (purge now m) ≡ none
unfolding purge Dict.get
get-purge-none now k [] h = refl
get-purge-none now k ((j, e) ∷ m) h = elim (Bool-cases (j == k)) [
  | inl own ↦ absurd (cc (rw own at h))
  | inr other ↦ elim (Bool-cases (ltb now e.until)) [
    | inl kept ↦ rw kept (rw other (get-purge-none now k m (rw other at h)))
    | inr gone ↦ rw gone (get-purge-none now k m (rw other at h))
  ]
]

-- A purge drops only what is over.
is_live-purge :
    (now t : ℕ) (k : Key) (m : Cooldowns)
    → now ≤ t
    → IsUnique m
    → is_live t (Dict.get k (purge now m)) ≡ is_live t (Dict.get k m)
unfolding purge Dict.get
is_live-purge now t k [] later u = refl
is_live-purge now t k ((j, e) ∷ m) later u = elim (Bool-cases (j == k)) [
  | inl own ↦ elim (Bool-cases (ltb now e.until)) [
    | inl kept ↦ rw kept (rw own refl)
    | inr gone ↦
        let absent : Dict.get k m ≡ none = rw ((==_iff j k).0 own) at u.0 in
        rw (gone, own) (rw (get-purge-none now k m absent) (ground arith))
  ]
  | inr other ↦ elim (Bool-cases (ltb now e.until)) [
    | inl kept ↦ rw kept (rw other (is_live-purge now t k m later u.1))
    | inr gone ↦ rw (gone, other) (is_live-purge now t k m later u.1)
  ]
]

purge-IsUnique : (now : ℕ) (m : Cooldowns) → IsUnique m → IsUnique (purge now m)
unfolding purge
purge-IsUnique now [] u = tt
purge-IsUnique now ((j, e) ∷ m) u = elim (Bool-cases (ltb now e.until)) [
  | inl kept ↦ rw kept (get-purge-none now j m u.0, purge-IsUnique now m u.1)
  | inr gone ↦ rw gone (purge-IsUnique now m u.1)
]

-- A deadline of each route; a route with none has 0.
abbrev pub Deadlines : Type 0
Deadlines = Key → ℕ

-- After `last`, the store says of each route what its deadline says.
abbrev pub Agrees : ℕ → Cooldowns → Deadlines → Type 0
Agrees last m d =
    IsUnique m × ((k : Key) (t : ℕ) → last ≤ t → is_live t (Dict.get k m) ≡ ltb t (d k))

-- What a signal's end, a query and a clearing are.
pub data Op : Type 0 where
  ended : ℕ → Key → ArbitrageType → Op
  asked : ℕ → Key → Op
  cleared : Key → Op

abbrev pub op_time : ℕ → Op → ℕ
op_time last (ended now k t) = now
op_time last (asked now k) = now
op_time last (cleared k) = last

-- The clock does not go back.
abbrev pub IsOrdered : ℕ → List Op → Type 0
IsOrdered last [] = Unit {0}
IsOrdered last (o ∷ os) = (last ≤ op_time last o) × IsOrdered (op_time last o) os

put-Agrees :
    (last : ℕ) (k : Key) (e : CooldownEntry) (n : ℕ) (m : Cooldowns) (d : Deadlines)
    → e.until ≡ n
    → Agrees last m d
    → Agrees last (Dict.put k e m) (λ j. if k == j then n else d j)
put-Agrees last k e n m d same (u, live) = (
  put-IsUnique k e m u,
  λ j t later. elim (Bool-cases (k == j)) [
    | inl own ↦ rw (get-put k j e m, own) (ap (ltb t) same)
    | inr other ↦ rw (get-put k j e m, other) (live j t later)
  ],
)

purge-Agrees :
    (last now : ℕ) (m : Cooldowns) (d : Deadlines)
    → last ≤ now
    → Agrees last m d
    → Agrees now (purge now m) d
purge-Agrees last now m d later (u, live) = (
  purge-IsUnique now m u,
  λ k t after. rw (is_live-purge now t k m after u) (live k t (ground arith)),
)

later-Agrees :
    (last now : ℕ) (m : Cooldowns) (d : Deadlines) → last ≤ now → Agrees last m d → Agrees now m d
later-Agrees last now m d later (u, live) = (u, λ k t after. live k t (ground arith))

pop-Agrees :
    (last : ℕ) (k : Key) (m : Cooldowns) (d : Deadlines)
    → Agrees last m d
    → Agrees last (Dict.pop k m) (λ j. if k == j then 0 else d j)
pop-Agrees last k m d (u, live) = (
  pop-IsUnique k m u,
  λ j t later. elim (Bool-cases (k == j)) [
    | inl own ↦ rw (get-pop k j m, own) (ground arith)
    | inr other ↦ rw (get-pop k j m, other) (live j t later)
  ],
)

past :
    (now t until deadline : ℕ)
    → until ≤ now
    → now ≤ t
    → ltb t until ≡ ltb t deadline
    → false ≡ ltb t deadline
past now t until deadline over later same = ground arith

-- A query gives the deadline's answer, and the entry that it drops is over.
checked-Agrees :
    (now : ℕ) (k : Key) (m : Cooldowns) (d : Deadlines) (o : Option CooldownEntry)
    → Dict.get k m ≡ o
    → Agrees now m d
    → ((check_entry now k m o).0 ≡ ltb now (d k)) × Agrees now (check_entry now k m o).1 d
unfolding check_entry
checked-Agrees now k m d none found a = (rw found at (a.1 k now (ground arith)), a)
checked-Agrees now k m d (some e) found (u, live) = elim (Bool-cases (leb e.until now)) [
  | inl over ↦ rw over (
    ground (arith, rw found at (live k now (ground arith))),
    (
      pop-IsUnique k m u,
      λ j t later. elim (Bool-cases (k == j)) [
        | inl own ↦
            rw (get-pop k j m, own)
              (subst (λ i. false ≡ ltb t (d i)) ((==_iff k j).0 own)
                (past now t e.until (d k) (leb→le _ _ over) later (rw found at (live k t later))))
        | inr other ↦ rw (get-pop k j m, other) (live j t later)
      ],
    ),
  )
  | inr before ↦ rw before (ground (arith, rw found at (live k now (ground arith))), (u, live))
]

module _ {D : Type 0} (c : Settings D) where
  unfoldable pub deadlines_after : Op → Deadlines → Deadlines
  deadlines_after (ended now k t) d j =
      if cooldown_for c t == 0 then d j else if k == j then now + cooldown_for c t else d j
  deadlines_after (asked now k) d j = d j
  deadlines_after (cleared k) d j = if k == j then 0 else d j

  unfoldable pub store_after : Op → Cooldowns → Cooldowns
  unfolding on_expired in_cooldown clear
  store_after (ended now k t) m = on_expired c now k t m
  store_after (asked now k) m = (in_cooldown now k m).1
  store_after (cleared k) m = clear k m

  -- the answers of the queries, in order, by the code and by the deadlines
  unfoldable pub store_answers : List Op → Cooldowns → List Bool
  unfolding store_after
  store_answers [] m = []
  store_answers (ended now k t ∷ os) m = store_answers os (store_after (ended now k t) m)
  store_answers (asked now k ∷ os) m =
      (in_cooldown now k m).0 ∷ store_answers os (store_after (asked now k) m)
  store_answers (cleared k ∷ os) m = store_answers os (store_after (cleared k) m)

  unfoldable pub deadline_answers : List Op → Deadlines → List Bool
  unfolding deadlines_after
  deadline_answers [] d = []
  deadline_answers (ended now k t ∷ os) d = deadline_answers os (deadlines_after (ended now k t) d)
  deadline_answers (asked now k ∷ os) d = ltb now (d k) ∷ deadline_answers os d
  deadline_answers (cleared k ∷ os) d = deadline_answers os (deadlines_after (cleared k) d)

  on_expired-Agrees :
      (last now : ℕ) (k : Key) (t : ArbitrageType) (m : Cooldowns) (d : Deadlines)
      → last ≤ now
      → Agrees last m d
      → Agrees now (on_expired c now k t m) (deadlines_after (ended now k t) d)
  unfolding on_expired deadlines_after
  on_expired-Agrees last now k t m d later a = elim (Bool-cases (cooldown_for c t == 0)) [
    | inl off ↦ rw off (later-Agrees last now m d later a)
    | inr on ↦ rw on (elim (Bool-cases (ltb 1024 (length m))) [
      | inl full ↦
          rw full (put-Agrees now k _ _ (purge now m) d refl (purge-Agrees last now m d later a))
      | inr room ↦ rw room (put-Agrees now k _ _ m d refl (later-Agrees last now m d later a))
    ])
  ]

  asked-Agrees :
      (last now : ℕ) (k : Key) (m : Cooldowns) (d : Deadlines)
      → last ≤ now
      → Agrees last m d
      → ((in_cooldown now k m).0 ≡ ltb now (d k)) × Agrees now (in_cooldown now k m).1 d
  unfolding in_cooldown
  asked-Agrees last now k m d later a =
      checked-Agrees now k m d (Dict.get k m) refl (later-Agrees last now m d later a)

  answers-Agrees :
      (os : List Op) (last : ℕ) (m : Cooldowns) (d : Deadlines)
      → Agrees last m d
      → IsOrdered last os
      → store_answers os m ≡ deadline_answers os d
  unfolding store_answers deadline_answers store_after
  answers-Agrees [] last m d a o = refl
  answers-Agrees (ended now k t ∷ os) last m d a o =
      answers-Agrees os now _ _ (on_expired-Agrees last now k t m d o.0 a) o.1
  answers-Agrees (asked now k ∷ os) last m d a o =
      let (same, a') = asked-Agrees last now k m d o.0 a in
      rw same (ap (λ rest. ltb now (d k) ∷ rest) (answers-Agrees os now _ d a' o.1))
  answers-Agrees (cleared k ∷ os) last m d a o =
      answers-Agrees os last _ _ (pop-Agrees last k m d a) o.1

  -- Take a clock that does not go back, and any sequence of ends of signals, queries and
  -- clearings from an empty store. The store answers each query as the table of deadlines does in
  -- which an end sets its route's deadline to the cooldown of its type from then on (unless that
  -- is 0), a clearing removes it, a query asks whether the time is before it, and nothing else
  -- happens: what the store forgets never changes an answer.
  pub cooldowns_refine :
      (os : List Op) → IsOrdered 0 os → store_answers os [] ≡ deadline_answers os (λ k. 0)
  unfolding Dict.get
  cooldowns_refine os o = answers-Agrees os 0 [] (λ k. 0) (tt, λ k t later. ground arith) o
