-- ===== src/Scanner/Legs.antt =====
-- The legs of a trade in src/scanner/profit/liquidity_leg.py: what the profit engine asks of a venue, and how an
-- order book and a pool answer.
use atlasarb.Prelude.{String, not, Option, none, some, List, if◌then◌else◌, ◌==◌, string_eq}
use atlasarb.Scanner.Numbers.{Numbers}
use atlasarb.Scanner.Cache.{BookLevel, OrderBook, best}
use atlasarb.Scanner.Fills.{
  is_above_zero, is_truthy, vwap_fill_price, max_fillable_within_slippage, amm_output,
  amm_max_size_within_slippage,
}

-- The interface of a leg.
pub record LiquidityLeg (D : Type 0) : Type 0 where
  pub best_price : Option D
  pub fill_price : D → Option D
  pub max_size_usd : D → D
  pub liquidity_usd : D → D
  pub pool_fee_cost_usd : D → D

module _ {D F : Type 0} (n : Numbers D F) where
  -- the price, if there is one that is not 0
  unfoldable pub truthy : Option D → Option D
  unfolding is_truthy
  truthy none = none
  truthy (some d) = if is_truthy n d then some d else none

  unfoldable pub levels_of : OrderBook D → String → List (BookLevel D)
  levels_of book side = if side == "buy" then book.asks else book.bids

  unfoldable pub book_fill : OrderBook D → String → D → Option D
  unfolding levels_of best truthy is_above_zero vwap_fill_price
  book_fill book side size_usd = elim (truthy (best n (levels_of book side))) [
    | none ↦ none
    | some price ↦
        if is_above_zero n price
        then vwap_fill_price n (levels_of book side) (n.div size_usd price)
        else none
  ]

  unfoldable pub book_max_size : OrderBook D → String → D → D
  unfolding levels_of best truthy max_fillable_within_slippage
  book_max_size book side tolerance = elim (truthy (best n (levels_of book side))) [
    | none ↦ n.dec 0
    | some price ↦
        n.mul (max_fillable_within_slippage n (levels_of book side) price tolerance) price
  ]

  unfoldable pub cex_leg : OrderBook D → String → LiquidityLeg D
  unfolding levels_of best book_fill book_max_size
  cex_leg book side = record {
    best_price = best n (levels_of book side);
    fill_price = book_fill book side;
    max_size_usd = book_max_size book side;
    liquidity_usd = book_max_size book side;
    pool_fee_cost_usd = λ size_usd. n.dec 0;
  }

  -- `x or default`
  unfoldable pub or_default : D → Option D → D
  unfolding truthy
  or_default default x = elim (truthy x) [ none ↦ default | some d ↦ d ]

  unfoldable pub fee_rate : OrderBook D → D
  unfolding or_default
  fee_rate book = or_default (n.div (n.dec 3) (n.dec 1000)) book.pool_fee_tier

  unfoldable pub reserve : Option D → D
  unfolding or_default
  reserve x = or_default (n.dec 0) x

  unfoldable pub spot : OrderBook D → Option D
  unfolding reserve is_above_zero
  spot book =
      if is_above_zero n (reserve book.reserve_base)
      then some (n.div (reserve book.reserve_quote) (reserve book.reserve_base))
      else none

  unfoldable pub priced : D → Option D
  unfolding is_above_zero
  priced d = if is_above_zero n d then some d else none

  unfoldable pub pool_fill : OrderBook D → String → D → Option D
  unfolding spot truthy reserve fee_rate amm_output priced is_above_zero
  pool_fill book side size_usd = elim (truthy (spot book)) [
    | none ↦ none
    | some price ↦
        if not (is_above_zero n price)
        then none
        else if side == "buy"
        then elim (priced (
            amm_output n (reserve book.reserve_quote) (reserve book.reserve_base) size_usd
              (fee_rate book))) [ none ↦ none | some base_out ↦ some (n.div size_usd base_out) ]
        else elim (priced (
            amm_output n (reserve book.reserve_base) (reserve book.reserve_quote)
              (n.div size_usd price) (fee_rate book))) [
                | none ↦ none
                | some quote_out ↦ some (n.div quote_out (n.div size_usd price))
              ]
  ]

  unfoldable pub pool_max_size : OrderBook D → String → D → D
  unfolding spot truthy reserve fee_rate amm_max_size_within_slippage
  pool_max_size book side tolerance = elim (truthy (spot book)) [
    | none ↦ n.dec 0
    | some price ↦
        if side == "buy"
        then amm_max_size_within_slippage n (reserve book.reserve_quote) (reserve book.reserve_base)
            (fee_rate book) tolerance
        else n.mul
            (amm_max_size_within_slippage n (reserve book.reserve_base) (reserve book.reserve_quote)
              (fee_rate book) tolerance)
            price
  ]

  unfoldable pub pool_fee_cost : OrderBook D → D → D
  unfolding is_above_zero fee_rate
  pool_fee_cost book size_usd =
      if is_above_zero n size_usd then n.mul (fee_rate book) size_usd else n.dec 0

  unfoldable pub dex_leg : OrderBook D → String → LiquidityLeg D
  unfolding spot pool_fill pool_max_size pool_fee_cost
  dex_leg book side = record {
    best_price = spot book;
    fill_price = pool_fill book side;
    max_size_usd = pool_max_size book side;
    liquidity_usd = pool_max_size book side;
    pool_fee_cost_usd = pool_fee_cost book;
  }
