-- ===== src/Prelude/Dict.antt =====
-- Python's dict, in insertion order: an assignment replaces in place or appends.
use mathlib.Core.Bool.{Bool, true, false}
use mathlib.Core.Logic.{inl, inr, ◌⊎◌}
use mathlib.Core.List.{List, [], ◌∷◌}
use mathlib.Core.Option.{Option, none, some}
use mathlib.Core.Path.{◌≡◌, refl}
use native.Mathlib.Omega.{arith}
use atlasarb.Prelude.Equality.{Eq, ◌==◌, ==_iff, ==_refl}
use atlasarb.Prelude.Tests.{if◌then◌else◌, is_some, Bool-cases}

abbrev pub Dict {ℓ κ} : Type ℓ → Type κ → Type (ℓ ⊔ κ)
Dict K V = List (K × V)

module _ {ℓ κ} {K : Type ℓ} {V : Type κ} where
  -- `d.values()` and `d.keys()`
  unfoldable pub values : Dict K V → List V
  values [] = []
  values ((_, v) ∷ m) = v ∷ values m

  unfoldable pub keys : Dict K V → List K
  keys [] = []
  keys ((k, _) ∷ m) = k ∷ keys m

module _ {ℓ κ} {K : Type ℓ} {V : Type κ} ⦃e : Eq K⦄ where
  -- `d.get(k)`
  unfoldable pub get : K → Dict K V → Option V
  get k [] = none
  get k ((j, v) ∷ m) = if j == k then some v else get k m

  -- `k in d`
  unfoldable pub has : K → Dict K V → Bool
  has k m = is_some (get k m)

  -- `d[k] = v`
  unfoldable pub put : K → V → Dict K V → Dict K V
  put k v [] = (k, v) ∷ []
  put k v ((j, w) ∷ m) = if j == k then (j, v) ∷ m else (j, w) ∷ put k v m

  -- `d.pop(k, None)`
  unfoldable pub pop : K → Dict K V → Dict K V
  pop k [] = []
  pop k ((j, w) ∷ m) = if j == k then pop k m else (j, w) ∷ pop k m

  pub get-put :
      (k j : K) (v : V) (m : Dict K V) → get j (put k v m) ≡ (if k == j then some v else get j m)
  unfolding get put
  get-put k j v [] = refl
  get-put k j v ((i, w) ∷ m) = ground (arith, ==_iff k j, ==_iff i k, ==_iff i j, get-put k j v m)

  pub get-put_self : (k : K) (v : V) (m : Dict K V) → get k (put k v m) ≡ some v
  get-put_self k v m = ground (arith, get-put k k v m, ==_refl k)

  pub get-pop : (k j : K) (m : Dict K V) → get j (pop k m) ≡ (if k == j then none else get j m)
  unfolding get pop
  get-pop k j [] = ground arith
  get-pop k j ((i, w) ∷ m) = ground (arith, ==_iff k j, ==_iff i k, ==_iff i j, get-pop k j m)

  pub get-pop_self : (k : K) (m : Dict K V) → get k (pop k m) ≡ none
  get-pop_self k m = ground (arith, get-pop k k m, ==_refl k)

  pub has-put :
      (k j : K) (v : V) (m : Dict K V) → has j (put k v m) ≡ (if k == j then true else has j m)
  unfolding has
  has-put k j v m = elim (Bool-cases (k == j)) [
    | inl own ↦ rw (get-put k j v m, own) refl
    | inr other ↦ rw (get-put k j v m, other) refl
  ]

  pub has-pop : (k j : K) (m : Dict K V) → has j (pop k m) ≡ (if k == j then false else has j m)
  unfolding has
  has-pop k j m = elim (Bool-cases (k == j)) [
    | inl own ↦ rw (get-pop k j m, own) refl
    | inr other ↦ rw (get-pop k j m, other) refl
  ]

  pub get-has : (k : K) (v : V) (m : Dict K V) → get k m ≡ some v → has k m ≡ true
  unfolding has
  get-has k v m found = rw found refl

  -- What is found after an assignment is what was assigned or what was there.
  pub get-put_found :
      (k j : K) (v w : V) (m : Dict K V)
      → get j (put k v m) ≡ some w
      → (k ≡ j) × (v ≡ w) ⊎ ((k == j) ≡ false) × (get j m ≡ some w)
  get-put_found k j v w m found = elim (Bool-cases (k == j)) [
    | inl own ↦ inl ((==_iff k j).0 own, cc (rw (get-put k j v m, own) at found))
    | inr other ↦ inr (other, rw (get-put k j v m, other) at found)
  ]

  pub get-pop_found :
      (k j : K) (w : V) (m : Dict K V)
      → get j (pop k m) ≡ some w
      → ((k == j) ≡ false) × (get j m ≡ some w)
  get-pop_found k j w m found = elim (Bool-cases (k == j)) [
    | inl own ↦ absurd (cc (rw (get-pop k j m, own) at found))
    | inr other ↦ (other, rw (get-pop k j m, other) at found)
  ]

  -- No key is listed twice.
  abbrev pub IsUnique : Dict K V → Type κ
  IsUnique [] = Unit
  IsUnique ((k, v) ∷ m) = (get k m ≡ none) × IsUnique m

  pub put-IsUnique : (k : K) (v : V) (m : Dict K V) → IsUnique m → IsUnique (put k v m)
  unfolding put get
  put-IsUnique k v [] u = (refl, tt)
  put-IsUnique k v ((j, w) ∷ m) u =
      ground (arith, get-put k j v m, put-IsUnique k v m u.1, ==_iff j k, ==_iff k j)

  pub pop-IsUnique : (k : K) (m : Dict K V) → IsUnique m → IsUnique (pop k m)
  unfolding pop
  pop-IsUnique k [] u = tt
  pop-IsUnique k ((j, w) ∷ m) u =
      ground (arith, get-pop k j m, pop-IsUnique k m u.1, ==_iff j k, ==_iff k j)
