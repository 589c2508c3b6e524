-- ===== src/Scanner/Profit/Sizing.antt =====
-- The size that `optimize` of src/scanner/profit/engine.py recommends.
use atlasarb.Prelude.{
  ℕ, String, Bool, true, false, not, Option, none, some, List, [], ◌∷◌, ◌≡◌, ◌⊎◌, inl, inr, refl,
  sym, subst, arith, Option-cases, if◌then◌else◌, filter,
}
use atlasarb.Scanner.Numbers.{Numbers}
use atlasarb.Scanner.Validation.{ProfitBreakdown, SizingProfile}
use atlasarb.Scanner.Fills.{is_above_zero}
use atlasarb.Scanner.Legs.{LiquidityLeg}
use atlasarb.Scanner.Profit.{
  FeeInputs, SizingConfig, compute_at_size, portion, swept, sweep, largest_by, preferred,
  recommended_of, chosen_size, saturation_of, optimize,
}
use atlasarb.Scanner.Profit.Largest.{
  IsOrder, Among, All-Among, Among-filter, filter-Among, some_inj, largest_by-Among,
  largest_by-Tops,
}

-- The sweep of a trade.
module _ {D F : Type 0} (n : Numbers D F) (order : IsOrder n) (buy_leg sell_leg : LiquidityLeg D)
    (fees : FeeInputs D) where
  -- The breakdown at a percentage of the saturation, one of 25, 50, 75 and 100, which can be filled.
  abbrev pub Offered : D → ℕ → ProfitBreakdown D → Type 0
  Offered saturation p b =
      ((p ≡ 25) ⊎ (p ≡ 50) ⊎ (p ≡ 75) ⊎ (p ≡ 100))
      × (compute_at_size n (n.mul saturation (n.div (n.dec p) (n.dec 100))) buy_leg sell_leg fees
          ≡ some b)

  -- what a size that can be filled gives is in the list, and the list has nothing else
  swept_computed :
      (ss : List (D × D)) (b : ProfitBreakdown D)
      → Among b (swept n ss buy_leg sell_leg fees).0
      → (s : D × D) × Among s ss × (compute_at_size n s.1 buy_leg sell_leg fees ≡ some b)
  unfolding swept
  swept_computed [] b m = absurd m
  swept_computed ((frac, size) ∷ ss) b m =
      elim (Option-cases (compute_at_size n size buy_leg sell_leg fees)) [
        | inl e ↦
            let (s, there, found) = swept_computed ss b (rw (swept, e) at m) in
            (s, inr there, found)
        | inr (b', e) ↦
            elim (let m' : Among b (b' ∷ (swept n ss buy_leg sell_leg fees).0) =
                rw (swept, e) at m in
              m') [
                | inl own ↦ ((frac, size), inl refl, rw (sym own) e)
                | inr later ↦
                    let (s, there, found) = swept_computed ss b later in (s, inr there, found)
              ]
      ]

  computed_swept :
      (ss : List (D × D)) (s : D × D) (b : ProfitBreakdown D)
      → Among s ss
      → compute_at_size n s.1 buy_leg sell_leg fees ≡ some b
      → Among b (swept n ss buy_leg sell_leg fees).0
  unfolding swept
  computed_swept [] s b m found = absurd m
  computed_swept ((frac, size) ∷ ss) s b (inl own) found =
      let here : compute_at_size n size buy_leg sell_leg fees ≡ some b =
        subst (λ (t : D × D). compute_at_size n t.1 buy_leg sell_leg fees ≡ some b) (sym own)
          found in
      rw (swept, here) (inl refl)
  computed_swept ((frac, size) ∷ ss) s b (inr later) found =
      elim (Option-cases (compute_at_size n size buy_leg sell_leg fees)) [
        | inl e ↦ rw (swept, e) (computed_swept ss s b later found)
        | inr (b', e) ↦ rw (swept, e) (inr (computed_swept ss s b later found))
      ]

  -- So the list has the breakdowns of the four percentages.
  swept-Offered :
      (saturation : D) (b : ProfitBreakdown D)
      → Among b (swept n (sweep n saturation) buy_leg sell_leg fees).0
      → (p : ℕ) × Offered saturation p b
  unfolding sweep portion
  swept-Offered saturation b m =
      let (s, there, found) = swept_computed (sweep n saturation) b m in
      let at_size = λ (t : D × D). compute_at_size n t.1 buy_leg sell_leg fees ≡ some b in
      elim there [
        | inl own ↦ (25, (inl refl, subst at_size (sym own) found))
        | inr (inl own) ↦ (50, (inr (inl refl), subst at_size (sym own) found))
        | inr (inr (inl own)) ↦ (75, (inr (inr (inl refl)), subst at_size (sym own) found))
        | inr (inr (inr (inl own))) ↦ (100, (inr (inr (inr refl)), subst at_size (sym own) found))
        | inr (inr (inr (inr none_left))) ↦ absurd none_left
      ]

  Offered_portion :
      (saturation : D) (p : ℕ)
      → (p ≡ 25) ⊎ (p ≡ 50) ⊎ (p ≡ 75) ⊎ (p ≡ 100)
      → Among (portion n saturation (n.dec p)) (sweep n saturation)
  unfolding sweep
  Offered_portion saturation p (inl e) = rw e (inl refl)
  Offered_portion saturation p (inr (inl e)) = rw e (inr (inl refl))
  Offered_portion saturation p (inr (inr (inl e))) = rw e (inr (inr (inl refl)))
  Offered_portion saturation p (inr (inr (inr e))) = rw e (inr (inr (inr (inl refl))))

  Offered-swept :
      (saturation : D) (p : ℕ) (b : ProfitBreakdown D)
      → Offered saturation p b
      → Among b (swept n (sweep n saturation) buy_leg sell_leg fees).0
  Offered-swept saturation p b (of_four, found) =
      computed_swept (sweep n saturation) (portion n saturation (n.dec p)) b
        (Offered_portion saturation p of_four) (unfold portion in found)

  -- The return on the size of a breakdown reaches the minimum.
  abbrev pub Pays : D → ProfitBreakdown D → Type 0
  Pays min_roi b = n.lt b.roi_pct min_roi ≡ false

  -- No breakdown that is `P` has a higher net profit.
  abbrev pub IsBest : (ProfitBreakdown D → Type 0) → ProfitBreakdown D → Type 0
  IsBest P b = (x : ProfitBreakdown D) → P x → n.lt b.net_profit_usd x.net_profit_usd ≡ false

  -- The best of those that pay, or the best of all where none pays.
  abbrev pub IsChoice : D → (ProfitBreakdown D → Type 0) → ProfitBreakdown D → Type 0
  IsChoice min_roi P b =
      Pays min_roi b × IsBest (λ x. P x × Pays min_roi x) b
      ⊎ ((x : ProfitBreakdown D) → P x → ¬ Pays min_roi x) × IsBest P b

  preferred-IsChoice :
      (min_roi : D) (es : List (ProfitBreakdown D)) (b : ProfitBreakdown D)
      (bs : List (ProfitBreakdown D))
      → filter (λ x. not (n.lt x.roi_pct min_roi)) (b ∷ bs) ≡ es
      → Among (preferred n es b bs) (b ∷ bs)
        × IsChoice min_roi (λ x. Among x (b ∷ bs)) (preferred n es b bs)
  unfolding preferred
  preferred-IsChoice min_roi [] b bs e =
      let net = λ (x : ProfitBreakdown D). x.net_profit_usd in
      let test = λ (x : ProfitBreakdown D). not (n.lt x.roi_pct min_roi) in
      (
        largest_by-Among n net b bs,
        inr (
          λ x m pays. subst (Among x) e (Among-filter test x (b ∷ bs) m (ground (arith, pays))),
          λ x m.
              All-Among (λ y. n.lt (net (largest_by n net b bs)) (net y) ≡ false) x (b ∷ bs)
                (largest_by-Tops n net order b bs) m,
        ),
      )
  preferred-IsChoice min_roi (y ∷ ys) b bs e =
      let net = λ (x : ProfitBreakdown D). x.net_profit_usd in
      let test = λ (x : ProfitBreakdown D). not (n.lt x.roi_pct min_roi) in
      let r = largest_by n net y ys in
      let (there, pays) =
        filter-Among test r (b ∷ bs) (subst (Among r) (sym e) (largest_by-Among n net y ys)) in
      (
        there,
        inl (
          ground (arith, pays),
          λ x (m, pays').
              All-Among (λ z. n.lt (net r) (net z) ≡ false) x (y ∷ ys)
                (largest_by-Tops n net order y ys)
                (subst (Among x) e (Among-filter test x (b ∷ bs) m (ground (arith, pays')))),
        ),
      )

  -- What a recommendation is: the breakdown at one of the percentages, of the size that is recommended, and
  -- the choice among those of the percentages.
  pub record Recommended (saturation min_roi : D) (r : ProfitBreakdown D × SizingProfile D)
      : Type 0 where
    pub percentage : ℕ
    pub offered : Offered saturation percentage r.0
    pub same_size : r.1.recommended_size_usd ≡ r.0.size_usd
    pub choice : IsChoice min_roi (λ x. (q : ℕ) × Offered saturation q x) r.0

  chosen-Recommended :
      (c : SizingConfig F) (saturation : D) (bs : List (ProfitBreakdown D)) (decay : List (D × D))
      (r : ProfitBreakdown D × SizingProfile D)
      → (swept n (sweep n saturation) buy_leg sell_leg fees).0 ≡ bs
      → chosen_size n c saturation bs decay ≡ some r
      → Recommended saturation (n.of_float c.min_roi_pct) r
  unfolding chosen_size recommended_of
  chosen-Recommended c saturation [] decay r from e = absurd (ground arith)
  chosen-Recommended c saturation (b ∷ bs) decay r from e =
      let min_roi = n.of_float c.min_roi_pct in
      let (there, choice) =
        preferred-IsChoice min_roi (filter (λ x. not (n.lt x.roi_pct min_roi)) (b ∷ bs)) b bs
          refl in
      let listed = λ (x : ProfitBreakdown D) (o : (q : ℕ) × Offered saturation q x).
        subst (Among x) from (Offered-swept saturation o.0 x o.1) in
      let (p, offered) = swept-Offered saturation _ (subst (Among _) (sym from) there) in
      subst (Recommended saturation min_roi) (some_inj e) (record {
        percentage = p;
        offered = offered;
        same_size = refl;
        choice = elim choice [
          | inl (pays, best) ↦ inl (pays, λ x (o, pays'). best x (listed x o, pays'))
          | inr (nobody, best) ↦ inr (λ x o. nobody x (listed x o), λ x o. best x (listed x o))
        ];
      })

  cond-some :
      {A : Type 0} (b : Bool) (o : Option A) (r : A) → (if b then none else o) ≡ some r → o ≡ some r
  cond-some true o r e = absurd (ground arith)
  cond-some false o r e = e

  -- Whatever `optimize` recommends was computed at 25, 50, 75 or 100 percent of the saturation, is of the size
  -- that the profile recommends, and is the most profitable choice: if the return on some of these sizes
  -- that can be filled reaches the minimum, then its own does, and none of those whose return reaches it has a
  -- higher net profit; if that on none does, then none of the sizes that can be filled has a higher net
  -- profit. Of the order of decimals it is assumed that no number is below itself and that what does not
  -- exceed a number does not exceed a larger one.
  pub optimize-Recommended :
      (c : SizingConfig F) (buy_type sell_type : String) (r : ProfitBreakdown D × SizingProfile D)
      → optimize n c buy_leg sell_leg fees buy_type sell_type ≡ some r
      → Recommended
          (saturation_of n c buy_leg sell_leg buy_type sell_type)
          (n.of_float c.min_roi_pct)
          r
  unfolding optimize
  optimize-Recommended c buy_type sell_type r e =
      let saturation = saturation_of n c buy_leg sell_leg buy_type sell_type in
      let found = swept n (sweep n saturation) buy_leg sell_leg fees in
      chosen-Recommended c saturation found.0 found.1 r refl (
        cond-some (not (is_above_zero n saturation)) (chosen_size n c saturation found.0 found.1) r
          e)
