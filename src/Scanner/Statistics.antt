-- ===== src/Scanner/Statistics.antt =====
-- The arithmetic of src/scanner/mathx.py: robust statistics, fills against an order book, and swaps on a
-- constant-product pool.
use atlasarb.Prelude.{Bool, false, not, List, [], ◌∷◌, map, if◌then◌else◌, ltb, length}
use atlasarb.Scanner.Numbers.{Numbers, clamped}

module _ {D F : Type 0} (n : Numbers D F) where
  unfoldable pub robust_median : List D → D
  robust_median [] = n.dec 0
  robust_median (v ∷ values) = n.median (v ∷ values)

  -- `mad(values, med)`
  unfoldable pub mad : List D → D → D
  unfolding robust_median
  mad [] med = n.dec 0
  mad (v ∷ values) med = robust_median (map (λ u. n.abs (n.sub u med)) (v ∷ values))

  unfoldable pub normalize_scale : D → D → D
  unfolding clamped
  normalize_scale value reference =
      if not (n.lt (n.dec 0) reference)
      then n.dec 0
      else clamped n (n.mul (n.div value reference) (n.dec 100))

  unfoldable pub is_mad_outlier : D → List D → D → Bool
  unfolding robust_median mad
  is_mad_outlier value window k =
      if ltb (length window) 3
      then false
      else (let med = robust_median window in
          let dispersion = mad window med in
          if n.same dispersion (n.dec 0)
          then not (n.same value med)
          else n.lt (n.mul k dispersion) (n.abs (n.sub value med)))

  unfoldable pub pct_deviation : D → D → D
  pct_deviation value reference =
      if n.same reference (n.dec 0)
      then n.dec 0
      else n.mul (n.div (n.abs (n.sub value reference)) reference) (n.dec 100)
