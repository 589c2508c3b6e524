-- ===== src/Payments/Writes.antt =====
-- What the sessions of the purchase service write: each keeps the invariant and lets the tables
-- only evolve.
use atlasarb.Prelude.{
  ℕ, String, true, false, Option, some, ◌≡◌, ◌⊎◌, inl, inr, refl, sym, ◌∙◌, string_eq, Bool-cases,
  ap,
}
use atlasarb.Prelude.Dict
use atlasarb.Purchases.{PurchaseStatus, paid, status_eq, can_transition, transition_to}
use atlasarb.Payments.Db.{
  Db, Row, M, Result, illegal_transition, integrity_error, pure, session, commit_or, ok, raise,
  after, ◌>>=◌, ◌>>◌,
}
use atlasarb.Payments.Repo.{save_purchase, save_over, saved_row, reference_taken, recorded_in}
use atlasarb.Payments.Service.{move_to, product_ref}
use atlasarb.Payments.Evolution.{Moves, Evolves, Evolves-refl, Evolves-trans, put_row-Evolves}
use atlasarb.Payments.Sound.{IsSound, put_row-IsSound}

abbrev pub Good : Db → Db → Type 0
Good d d' = IsSound d' × Evolves d d'

pub Good-refl : (d : Db) → IsSound d → Good d d
Good-refl d s = (s, Evolves-refl d)

pub Good-trans : (a b c : Db) → Good a b → Good b c → Good a c
Good-trans a b c g h = (h.0, Evolves-trans a b c g.1 h.1)

-- A session that raises leaves the tables as they were.
pub session-Good :
    {A : Type 0} (m : M A) (d : Db) → IsSound d → Good d (m d).1 → Good d (session m d).1
session-Good {A} m d s g = go (m d).0
  where
    go : (r : Result A) → Good d (commit_or d r (m d).1).1
    go (ok a) = g
    go (raise e) = Good-refl d s

-- One action after another.
pub bind-Good :
    {A B : Type 0} (m : M A) (f : A → M B) (d : Db)
    → Good d (m d).1
    → ((a : A) → (m d).0 ≡ ok a → Good (m d).1 (f a (m d).1).1)
    → Good d ((m >>= f) d).1
bind-Good {A} {B} m f d g h = go (m d).0 h
  where
    go :
        (r : Result A)
        → ((a : A) → r ≡ ok a → Good (m d).1 (f a (m d).1).1)
        → Good d (after r (m d).1 f).1
    go (ok a) k = Good-trans d (m d).1 _ g (k a refl)
    go (raise e) k = g

-- `f` sets columns that are neither the key nor the order data nor the status.
pub record IsDecoration (f : Row → Row) : Type 0 where
  pub keeps : (q : Row) → Moves q (f q)
  pub status_kept : (q : Row) → (f q).status ≡ q.status

abbrev advance : ℕ → Row → PurchaseStatus → (Row → Row) → M (Option Row)
advance now p target f = do q ← move_to p target; save_purchase now (f q); pure (some (f q))

pub move_to_legal :
    (p : Row) (target : PurchaseStatus) (d : Db)
    → can_transition p.status target ≡ true
    → move_to p target d ≡ (ok (record p { status = target }), d)
unfolding move_to transition_to
move_to_legal p target d h = rw (h, move_to, transition_to)

move_to_illegal :
    (p : Row) (target : PurchaseStatus) (d : Db)
    → can_transition p.status target ≡ false
    → move_to p target d ≡ (raise (illegal_transition p.status target), d)
unfolding move_to transition_to
move_to_illegal p target d h = rw (h, move_to, transition_to)

abbrev pub put_row : String → Row → Db → Db
put_row id row d = record d { purchases = Dict.put id row d.purchases }

pub save_purchase_cases :
    (now : ℕ) (row r : Row) (d : Db)
    → Dict.get r.id d.purchases ≡ some row
    → (save_purchase now r d ≡ (raise integrity_error, d))
      ⊎ (save_purchase now r d ≡ (ok tt, put_row r.id (saved_row now row r) d))
unfolding save_purchase save_over
save_purchase_cases now row r d found =
    elim (Bool-cases (reference_taken r (Dict.values d.purchases))) [
      | inl taken ↦ inl (rw (found, save_over) (rw taken))
      | inr fresh ↦ inr (rw (found, save_over) (rw fresh))
    ]

module _ (now : ℕ) (p : Row) (target : PurchaseStatus) (f : Row → Row) (dec : IsDecoration f) where
  abbrev moved : Row
  moved = f (record p { status = target })

  kept : Moves (record p { status = target }) moved
  kept = dec.keeps (record p { status = target })

  advance_cases :
      (d : Db)
      → Dict.get p.id d.purchases ≡ some p
      → ((advance now p target f d).1 ≡ d)
        ⊎ ((can_transition p.status target ≡ true)
            × ((advance now p target f d).1 ≡ put_row p.id (saved_row now p moved) d))
  advance_cases d found = elim (Bool-cases (can_transition p.status target)) [
    | inr illegal ↦ inl (rw (move_to_illegal p target d illegal))
    | inl legal ↦ elim (save_purchase_cases now p moved d (rw (← kept.id_kept) found)) [
      | inl refused ↦ inl (rw (move_to_legal p target d legal) (rw refused))
      | inr written ↦ inr (
        legal,
        rw (move_to_legal p target d legal)
            (rw written (ap (λ i. put_row i (saved_row now p moved) d) (sym kept.id_kept))),
      )
    ]
  ]

  saved-Moves : can_transition p.status target ≡ true → Moves p (saved_row now p moved)
  unfolding saved_row
  saved-Moves legal = record {
    id_kept = refl;
    user_kept = refl;
    code_kept = refl;
    currency_kept = refl;
    amount_kept = refl;
    status_follows = inr (rw (dec.status_kept (record p { status = target })) legal);
  }

  -- A move along the lifecycle, saved; to paid only if it is billed.
  pub advance-Good :
      (d : Db)
      → IsSound d
      → Dict.get p.id d.purchases ≡ some p
      → (target ≡ paid → recorded_in (product_ref p.id) d.billing ≡ true)
      → Good d (advance now p target f d).1
  unfolding saved_row
  advance-Good d s found billed = elim (advance_cases d found) [
    | inl same ↦ rw same (Good-refl d s)
    | inr (legal, changed) ↦ rw changed (
        (
          put_row-IsSound d p.id p (saved_row now p moved) s found refl refl
              (λ e. billed (sym (dec.status_kept (record p { status = target })) ∙ e)),
          put_row-Evolves d p.id p (saved_row now p moved) found (saved-Moves legal),
        ))
  ]
