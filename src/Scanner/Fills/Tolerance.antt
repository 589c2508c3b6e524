-- ===== src/Scanner/Fills/Tolerance.antt =====
-- The halving loop of amm_max_size_within_slippage in src/scanner/mathx.py never returns a size beyond the
-- tolerance.
use atlasarb.Prelude.{
  ℕ, zero, suc, Bool, true, false, not, ◌||◌, Option, none, some, ◌≡◌, ◌⊎◌, inl, inr, refl, arith,
  if◌then◌else◌,
}
use atlasarb.Scanner.Numbers.{Numbers}
use atlasarb.Scanner.Fills.{
  is_above_zero, slippage_pct, amm_effective_price, acceptable, amm_bisect, zero_size_price,
  amm_max_size_within_slippage,
}

module _ {D F : Type 0} (n : Numbers D F) where
  -- The size is 0, or it has a price whose slippage against that of size 0 does not exceed the tolerance.
  abbrev pub Tolerable : D → D → D → D → D → Type 0
  Tolerable reserve_in reserve_out fee tolerance size =
      (size ≡ n.dec 0)
      ⊎ ((eff : D) × (amm_effective_price n reserve_in reserve_out size fee ≡ some eff)
          × (n.lt tolerance (slippage_pct n eff (zero_size_price n reserve_in reserve_out fee))
              ≡ false))

  acceptable-price :
      (zero_size tolerance : D) (o : Option D)
      → acceptable n zero_size tolerance o ≡ true
      → (eff : D) × (o ≡ some eff) × (n.lt tolerance (slippage_pct n eff zero_size) ≡ false)
  unfolding acceptable
  acceptable-price zero_size tolerance none h = absurd (ground arith)
  acceptable-price zero_size tolerance (some eff) h = (eff, refl, ground arith)

  chosen-Tolerable :
      (reserve_in reserve_out fee tolerance : D) (b : Bool) (x y : D)
      → (b ≡ true → Tolerable reserve_in reserve_out fee tolerance x)
      → Tolerable reserve_in reserve_out fee tolerance y
      → Tolerable reserve_in reserve_out fee tolerance (if b then x else y)
  chosen-Tolerable reserve_in reserve_out fee tolerance true x y hx hy = hx refl
  chosen-Tolerable reserve_in reserve_out fee tolerance false x y hx hy = hy

  amm_bisect-Tolerable :
      (rounds : ℕ) (reserve_in reserve_out fee tolerance lo hi : D)
      → Tolerable reserve_in reserve_out fee tolerance lo
      → Tolerable reserve_in reserve_out fee tolerance (
          amm_bisect n rounds reserve_in reserve_out fee
            (zero_size_price n reserve_in reserve_out fee)
            tolerance
            lo
            hi)
  unfolding amm_bisect
  amm_bisect-Tolerable zero reserve_in reserve_out fee tolerance lo hi h = h
  amm_bisect-Tolerable (suc rounds) reserve_in reserve_out fee tolerance lo hi h =
      let mid = n.div (n.add lo hi) (n.dec 2) in
      let zero_size = zero_size_price n reserve_in reserve_out fee in
      let price = amm_effective_price n reserve_in reserve_out mid fee in
      let good = acceptable n zero_size tolerance price in
      amm_bisect-Tolerable rounds reserve_in reserve_out fee tolerance (if good then mid else lo)
        (if good then hi else mid)
        (chosen-Tolerable reserve_in reserve_out fee tolerance good mid lo
          (λ e. inr (acceptable-price zero_size tolerance price e)) h)

  shut-Tolerable :
      (reserve_in reserve_out fee tolerance : D) (b : Bool) (size : D)
      → Tolerable reserve_in reserve_out fee tolerance size
      → Tolerable reserve_in reserve_out fee tolerance (if b then n.dec 0 else size)
  shut-Tolerable reserve_in reserve_out fee tolerance true size h = inl refl
  shut-Tolerable reserve_in reserve_out fee tolerance false size h = h

  -- The largest size that is reported for a pool is 0, or a swap of that size gets a price whose slippage is
  -- within the tolerance, whatever rounding the decimals have.
  pub amm_max-Tolerable :
      (reserve_in reserve_out fee tolerance : D)
      → Tolerable reserve_in reserve_out fee tolerance
          (amm_max_size_within_slippage n reserve_in reserve_out fee tolerance)
  unfolding amm_max_size_within_slippage
  amm_max-Tolerable reserve_in reserve_out fee tolerance =
      shut-Tolerable reserve_in reserve_out fee tolerance
        (not (is_above_zero n reserve_in)
          || not (is_above_zero n reserve_out)
          || not (n.lt fee (n.dec 1)))
        (amm_bisect n 60 reserve_in reserve_out fee (zero_size_price n reserve_in reserve_out fee)
          tolerance (n.dec 0) reserve_in)
        (amm_bisect-Tolerable 60 reserve_in reserve_out fee tolerance (n.dec 0) reserve_in
          (inl refl))
