-- ===== src/Scanner/Numbers.antt =====
-- The numbers of the scanner: what its code takes from Python's Decimal and float. `D` is the type of
-- decimals and `F` that of floats; nothing is assumed of the operations here.
use atlasarb.Prelude.{ℕ, Bool, List, if◌then◌else◌}

pub record Numbers (D F : Type 0) : Type 0 where
  -- `Decimal(n)` of a literal, `Decimal(str(x))` of a float, `float(d)` and `int(d)`
  pub dec : ℕ → D
  pub of_float : F → D
  pub to_float : D → F
  pub truncated : D → ℕ
  pub add : D → D → D
  pub sub : D → D → D
  pub mul : D → D → D
  pub div : D → D → D
  pub abs : D → D
  pub same : D → D → Bool
  pub lt : D → D → Bool
  pub float_lt : F → F → Bool
  pub float_le : F → F → Bool
  -- `float(n)` of a literal, and `statistics.median` of a list that is not empty
  pub float : ℕ → F
  pub median : List D → D

module _ {D F : Type 0} (n : Numbers D F) where
  -- Python's `min(a, b)` and `max(a, b)`: the first one wins a tie
  unfoldable pub min_dec : D → D → D
  min_dec a b = if n.lt b a then b else a

  unfoldable pub max_dec : D → D → D
  max_dec a b = if n.lt a b then b else a

  -- `max(Decimal(0), min(Decimal(100), d))`
  unfoldable pub clamped : D → D
  unfolding min_dec max_dec
  clamped d = max_dec (n.dec 0) (min_dec (n.dec 100) d)
