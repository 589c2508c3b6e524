-- ===== src/Scanner/Profit/Largest.antt =====
-- The `max` by a key of src/scanner/profit/engine.py, and the order of decimals that it needs.
use atlasarb.Prelude.{
  Bool, true, false, some, List, [], ◌∷◌, ◌≡◌, ◌⊎◌, inl, inr, refl, sym, subst, arith, filter, All,
  Bool-cases,
}
use atlasarb.Scanner.Numbers.{Numbers}
use atlasarb.Scanner.Validation.{ProfitBreakdown}
use atlasarb.Scanner.Profit.{largest_by}

-- What the engine takes from the order of decimals: no number is below itself, and what does not exceed a number
-- does not exceed a larger one.
pub record IsOrder {D F : Type 0} (n : Numbers D F) : Type 0 where
  pub irrefl : (a : D) → n.lt a a ≡ false
  pub above : (a b c : D) → n.lt a b ≡ true → n.lt a c ≡ false → n.lt b c ≡ false

module _ {A : Type 0} where
  -- `x` is one of the list.
  abbrev pub Among : A → List A → Type 0
  Among x [] = ⊥
  Among x (y ∷ ys) = (y ≡ x) ⊎ Among x ys

  pub All-Among : (P : A → Type 0) (x : A) (xs : List A) → All P xs → Among x xs → P x
  All-Among P x [] h m = absurd m
  All-Among P x (y ∷ ys) h (inl e) = subst P e h.0
  All-Among P x (y ∷ ys) h (inr m) = All-Among P x ys h.1 m

  pub Among-filter :
      (f : A → Bool) (x : A) (xs : List A) → Among x xs → f x ≡ true → Among x (filter f xs)
  unfolding filter
  Among-filter f x [] m e = absurd m
  Among-filter f x (y ∷ ys) m e = elim (Bool-cases (f y)) [
    | inl keep ↦
        rw keep (elim m [ inl own ↦ inl own | inr later ↦ inr (Among-filter f x ys later e) ])
    | inr drop ↦ rw drop (elim m [
      | inl own ↦ absurd (ground (arith, drop, e, rw (sym own) at e))
      | inr later ↦ Among-filter f x ys later e
    ])
  ]

  pub filter-Among :
      (f : A → Bool) (x : A) (xs : List A) → Among x (filter f xs) → Among x xs × (f x ≡ true)
  unfolding filter
  filter-Among f x [] m = absurd m
  filter-Among f x (y ∷ ys) m = elim (Bool-cases (f y)) [
    | inl keep ↦ elim (let m' : Among x (y ∷ filter f ys) = rw keep at m in m') [
      | inl own ↦ (inl own, subst (λ z. f z ≡ true) own keep)
      | inr later ↦ let (there, e) = filter-Among f x ys later in (inr there, e)
    ]
    | inr drop ↦ let (there, e) = filter-Among f x ys (rw drop at m) in (inr there, e)
  ]

  pub some_inj : {x y : A} → some x ≡ some y → x ≡ y
  some_inj h = cc

module _ {D F : Type 0} (n : Numbers D F) (key : ProfitBreakdown D → D) where
  largest_by_up :
      (b x : ProfitBreakdown D) (xs : List (ProfitBreakdown D))
      → n.lt (key b) (key x) ≡ true
      → largest_by n key x xs ≡ largest_by n key b (x ∷ xs)
  unfolding largest_by
  largest_by_up b x xs e = rw e refl

  largest_by_kept :
      (b x : ProfitBreakdown D) (xs : List (ProfitBreakdown D))
      → n.lt (key b) (key x) ≡ false
      → largest_by n key b xs ≡ largest_by n key b (x ∷ xs)
  unfolding largest_by
  largest_by_kept b x xs e = rw e refl

  pub largest_by-Among :
      (b : ProfitBreakdown D) (bs : List (ProfitBreakdown D))
      → Among (largest_by n key b bs) (b ∷ bs)
  largest_by-Among b [] = inl (unfold largest_by in refl)
  largest_by-Among b (x ∷ xs) = elim (Bool-cases (n.lt (key b) (key x))) [
    | inl e ↦
        subst (λ r. Among r (b ∷ x ∷ xs)) (largest_by_up b x xs e) (inr (largest_by-Among x xs))
    | inr e ↦
        subst (λ r. Among r (b ∷ x ∷ xs)) (largest_by_kept b x xs e)
          (elim (largest_by-Among b xs) [ inl own ↦ inl own | inr later ↦ inr (inr later) ])
  ]

  -- a number that is not above the first one's is not above the largest one's
  largest_by_above :
      (order : IsOrder n) (d : D) (b : ProfitBreakdown D) (bs : List (ProfitBreakdown D))
      → n.lt (key b) d ≡ false
      → n.lt (key (largest_by n key b bs)) d ≡ false
  unfolding largest_by
  largest_by_above order d b [] h = h
  largest_by_above order d b (x ∷ xs) h = elim (Bool-cases (n.lt (key b) (key x))) [
    | inl e ↦ rw (largest_by, e) (largest_by_above order d x xs (order.above (key b) (key x) d e h))
    | inr e ↦ rw (largest_by, e) (largest_by_above order d b xs h)
  ]

  -- No breakdown of the list has more of the key.
  abbrev pub Tops : List (ProfitBreakdown D) → ProfitBreakdown D → Type 0
  Tops bs r = All (λ x. n.lt (key r) (key x) ≡ false) bs

  pub largest_by-Tops :
      (order : IsOrder n) (b : ProfitBreakdown D) (bs : List (ProfitBreakdown D))
      → Tops (b ∷ bs) (largest_by n key b bs)
  largest_by-Tops order b [] = (unfold largest_by in order.irrefl (key b), tt)
  largest_by-Tops order b (x ∷ xs) = elim (Bool-cases (n.lt (key b) (key x))) [
    | inl e ↦
        let falls = order.above (key b) (key x) (key b) e (order.irrefl (key b)) in
        subst (Tops (b ∷ x ∷ xs)) (largest_by_up b x xs e)
          (largest_by_above order (key b) x xs falls, largest_by-Tops order x xs)
    | inr e ↦
        let rest = largest_by-Tops order b xs in
        subst (Tops (b ∷ x ∷ xs)) (largest_by_kept b x xs e)
          (rest.0, (largest_by_above order (key x) b xs e, rest.1))
  ]
