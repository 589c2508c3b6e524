-- ===== src/Scanner/Fills.antt =====
-- The fills of src/scanner/mathx.py: the price of a size against an order book and against a constant-product
-- pool, and the largest size within a tolerance of slippage. The `for` loops of fixed length count rounds down.
use atlasarb.Prelude.{
  ℕ, zero, suc, Bool, true, false, not, ◌&&◌, ◌||◌, Option, none, some, List, [], ◌∷◌,
  if◌then◌else◌,
}
use atlasarb.Scanner.Numbers.{Numbers, min_dec}
use atlasarb.Scanner.Cache.{BookLevel}
pub mod Tolerance
pub mod Examples

module _ {D F : Type 0} (n : Numbers D F) where
  -- `a > 0`
  unfoldable pub is_above_zero : D → Bool
  is_above_zero a = n.lt (n.dec 0) a

  -- `bool(a)`
  unfoldable pub is_truthy : D → Bool
  is_truthy a = not (n.same a (n.dec 0))

  -- the loop of the fill, which ends when nothing remains: what remains, and the notional
  unfoldable pub walk : D → D → List (BookLevel D) → D × D
  unfolding min_dec is_above_zero
  walk remaining notional [] = (remaining, notional)
  walk remaining notional (l ∷ ls) =
      let take = min_dec n remaining l.qty in
      let left = n.sub remaining take in
      let paid = n.add notional (n.mul take l.price) in
      let rest = walk left paid ls in if not (is_above_zero left) then (left, paid) else rest

  unfoldable pub vwap_fill_price : List (BookLevel D) → D → Option D
  unfolding walk is_above_zero
  vwap_fill_price [] size_base = none
  vwap_fill_price (l ∷ ls) size_base =
      let filled = walk size_base (n.dec 0) (l ∷ ls) in
      if not (is_above_zero size_base)
      then none
      else if is_above_zero filled.0
      then none
      else some (n.div filled.1 size_base)

  unfoldable pub slippage_pct : D → D → D
  slippage_pct vwap best_price =
      if n.same best_price (n.dec 0)
      then n.dec 0
      else n.mul (n.div (n.abs (n.sub vwap best_price)) best_price) (n.dec 100)

  -- `a / b if b else 0`
  unfoldable pub div_or_zero : D → D → D
  unfolding is_truthy
  div_or_zero a b = if is_truthy b then n.div a b else n.dec 0

  -- the boundary size within a level, by halving
  unfoldable pub level_bisect : ℕ → D → D → D → D → D → D → D → D
  unfolding div_or_zero slippage_pct
  level_bisect zero base notional price best tolerance lo hi = lo
  level_bisect (suc rounds) base notional price best tolerance lo hi =
      let mid = n.div (n.add lo hi) (n.dec 2) in
      let v = div_or_zero (n.add notional (n.mul (n.sub mid base) price)) mid in
      let over = n.lt tolerance (slippage_pct v best) in
      level_bisect rounds base notional price best tolerance (if over then lo else mid)
        (if over then mid else hi)

  unfoldable pub fillable : D → D → D → D → List (BookLevel D) → D
  unfolding level_bisect div_or_zero slippage_pct
  fillable best tolerance base notional [] = base
  fillable best tolerance base notional (l ∷ ls) =
      let trial_base = n.add base l.qty in
      let trial_notional = n.add notional (n.mul l.qty l.price) in
      let rest = fillable best tolerance trial_base trial_notional ls in
      if n.lt tolerance (slippage_pct (div_or_zero trial_notional trial_base) best)
      then level_bisect 40 base notional l.price best tolerance base trial_base
      else rest

  unfoldable pub max_fillable_within_slippage : List (BookLevel D) → D → D → D
  unfolding fillable
  max_fillable_within_slippage levels best tolerance =
      if n.same best (n.dec 0) then n.dec 0 else fillable best tolerance (n.dec 0) (n.dec 0) levels

  unfoldable pub amm_output : D → D → D → D → D
  unfolding is_above_zero
  amm_output reserve_in reserve_out amount_in fee_rate =
      if not (is_above_zero reserve_in)
        || not (is_above_zero reserve_out)
        || not (is_above_zero amount_in)
      then n.dec 0
      else n.sub reserve_out (
          n.div (n.mul reserve_in reserve_out)
            (n.add reserve_in (n.mul amount_in (n.sub (n.dec 1) fee_rate))))

  unfoldable pub amm_effective_price : D → D → D → D → Option D
  unfolding amm_output is_above_zero
  amm_effective_price reserve_in reserve_out amount_in fee_rate =
      let out = amm_output reserve_in reserve_out amount_in fee_rate in
      if not (is_above_zero out) then none else some (n.div amount_in out)

  -- whether a size has a price, and one within the tolerance
  unfoldable pub acceptable : D → D → Option D → Bool
  unfolding slippage_pct
  acceptable zero_size tolerance none = false
  acceptable zero_size tolerance (some eff) = not (n.lt tolerance (slippage_pct eff zero_size))

  unfoldable pub amm_bisect : ℕ → D → D → D → D → D → D → D → D
  unfolding amm_effective_price acceptable
  amm_bisect zero reserve_in reserve_out fee zero_size tolerance lo hi = lo
  amm_bisect (suc rounds) reserve_in reserve_out fee zero_size tolerance lo hi =
      let mid = n.div (n.add lo hi) (n.dec 2) in
      let good =
        acceptable zero_size tolerance (amm_effective_price reserve_in reserve_out mid fee) in
      amm_bisect rounds reserve_in reserve_out fee zero_size tolerance (if good then mid else lo)
        (if good then hi else mid)

  -- the price that a size of nothing would pay
  unfoldable pub zero_size_price : D → D → D → D
  zero_size_price reserve_in reserve_out fee =
      n.div (n.div reserve_in reserve_out) (n.sub (n.dec 1) fee)

  unfoldable pub amm_max_size_within_slippage : D → D → D → D → D
  unfolding is_above_zero amm_bisect zero_size_price
  amm_max_size_within_slippage reserve_in reserve_out fee tolerance =
      if not (is_above_zero reserve_in)
        || not (is_above_zero reserve_out)
        || not (n.lt fee (n.dec 1))
      then n.dec 0
      else amm_bisect 60 reserve_in reserve_out fee (zero_size_price reserve_in reserve_out fee)
          tolerance (n.dec 0) reserve_in
