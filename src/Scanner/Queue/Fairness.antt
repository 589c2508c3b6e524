-- ===== src/Scanner/Queue/Fairness.antt =====
-- Which tier the queue of src/scanner/priority/scheduler.py serves.
use atlasarb.Prelude.{
  ℕ, ◌+◌, ◌%◌, true, false, Option, some, List, [], ◌∷◌, ◌++◌, ◌≡◌, inl, inr, ◌⊎◌, refl, arith,
  ◌==◌, nat_eq, string_eq, pair_eq, Bool-cases, ap,
}
use atlasarb.Prelude.Dict
use atlasarb.Scanner.Queue.Accounting.{List-cases}
use atlasarb.Scanner.Queue.{
  Priority, p1, p2, p3, Item, key_of, EventQueue, tier, set_tier, enqueue, put, order, dequeue,
  serve, turn,
}

-- `put` calls between two rounds.
unfoldable pub put_all : List (ℕ × Priority × Item) → EventQueue → EventQueue
put_all [] q = q
put_all ((now, p, item) ∷ more) q = put_all more (put now p item q)

-- What rounds return, with the calls of `put` before each.
unfoldable pub rounds : List (List (ℕ × Priority × Item)) → EventQueue → List (Option Item)
unfolding put_all turn
rounds [] q = []
rounds (puts ∷ more) q = (turn (put_all puts q)).0 ∷ rounds more (turn (put_all puts q)).1

-- Some result is this item.
abbrev pub Returned : Item → List (Option Item) → Type 0
Returned item [] = true ≡ false
Returned item (o ∷ os) = (o ≡ some item) ⊎ Returned item os

-- An item at the head of the second tier, at some value of the round counter.
abbrev pub Heads : Item → ℕ → EventQueue → Type 0
Heads item n q = (rest : List Item) × (q.starts ≡ n) × (q.second ≡ item ∷ rest)

put-Heads :
    (now : ℕ) (p : Priority) (x item : Item) (n : ℕ) (q : EventQueue)
    → Heads item n q
    → Heads item n (put now p x q)
unfolding put enqueue set_tier tier
put-Heads now p x item n q (rest, e, h) = elim (Bool-cases (Dict.has (key_of x) q.waiting)) [
  | inl old ↦ rw old (rest, e, h)
  | inr new ↦ rw new (go p)
]
  where
    go : (p' : Priority) → Heads item n (enqueue now p' x q)
    go p1 = (rest, e, h)
    go p2 = (rest ++ x ∷ [], e, ap (λ l. l ++ x ∷ []) h)
    go p3 = (rest, e, h)

put_all-Heads :
    (ps : List (ℕ × Priority × Item)) (item : Item) (n : ℕ) (q : EventQueue)
    → Heads item n q
    → Heads item n (put_all ps q)
unfolding put_all
put_all-Heads [] item n q h = h
put_all-Heads ((now, p, x) ∷ more) item n q h =
    put_all-Heads more item n (put now p x q) (put-Heads now p x item n q h)

-- A round returns the head of the second tier, or leaves it at the head; the former where the counter
-- is divisible by four.
turn-Heads :
    (item : Item) (n : ℕ) (q : EventQueue)
    → Heads item n q
    → ((turn q).0 ≡ some item) ⊎ ((n % 4 == 0) ≡ false) × Heads item (n + 1) (turn q).1
unfolding turn order serve tier dequeue set_tier
turn-Heads item n q (rest, e, h) = elim (Bool-cases (n % 4 == 0)) [
  | inl due ↦ inl (rw (e, order) (rw due (rw (h, serve) refl)))
  | inr other ↦ elim (List-cases q.first) [
    | inl empty ↦ inl (rw (e, order) (rw other (rw (empty, serve) (rw (h, serve) refl))))
    | inr (x, r, full) ↦ inr (other, rw (e, order) (rw other (rw (full, serve) (rest, refl, h))))
  ]
]

-- A round returns the head of the second tier, or the later rounds do.
round-Returned :
    (item : Item) (n : ℕ) (q : EventQueue) (puts : List (ℕ × Priority × Item))
    (more : List (List (ℕ × Priority × Item)))
    → Heads item n q
    → ((n % 4 == 0) ≡ false
        → Heads item (n + 1) (turn (put_all puts q)).1
        → Returned item (rounds more (turn (put_all puts q)).1))
    → Returned item (rounds (puts ∷ more) q)
unfolding rounds
round-Returned item n q puts more h later =
    elim (turn-Heads item n (put_all puts q) (put_all-Heads puts item n q h)) [
      | inl now ↦ inl now
      | inr (other, kept) ↦ inr (later other kept)
    ]

some_due :
    (n : ℕ)
    → (n % 4 == 0) ≡ false
    → ((n + 1) % 4 == 0) ≡ false
    → ((n + 1 + 1) % 4 == 0) ≡ false
    → ((n + 1 + 1 + 1) % 4 == 0) ≡ false
    → true ≡ false
some_due n a b c d = ground arith

-- The item at the head of the second tier is returned within four rounds, whatever is put in between,
-- also while the first tier is never empty.
pub second_tier_served :
    (a b c d : List (ℕ × Priority × Item)) (item : Item) (rest : List Item) (q : EventQueue)
    → q.second ≡ item ∷ rest
    → Returned item (rounds (a ∷ b ∷ c ∷ d ∷ []) q)
unfolding rounds
second_tier_served a b c d item rest q h =
    round-Returned item q.starts q a (b ∷ c ∷ d ∷ []) (rest, refl, h)
      (λ n0 h1. round-Returned item (q.starts + 1) _ b (c ∷ d ∷ []) h1 (λ n1 h2.
        round-Returned item (q.starts + 1 + 1) _ c (d ∷ []) h2 (λ n2 h3.
          round-Returned item (q.starts + 1 + 1 + 1) _ d [] h3
            (λ n3 h4. (some_due q.starts n0 n1 n2 n3)))))

-- A round while the first and the second tier hold something leaves the third as it is, at any
-- value of the round counter.
pub third_tier_waits :
    (x y : Item) (xs ys : List Item) (q : EventQueue)
    → q.first ≡ x ∷ xs
    → q.second ≡ y ∷ ys
    → (turn q).1.third ≡ q.third
unfolding turn order serve tier dequeue set_tier
third_tier_waits x y xs ys q h k = elim (Bool-cases (q.starts % 4 == 0)) [
  | inl due ↦ rw due (rw (k, serve) refl)
  | inr other ↦ rw other (rw (h, serve) refl)
]
