-- ===== src/Scanner/Cache.antt =====
-- MarketStateCache of src/scanner/cache/market_state_cache.py with the structures of src/domain/market.py:
-- its state and its reads. Times are seconds; `now` is the clock. `D` and `F` are the types of decimals and
-- floats.
use Prim.Native.String.{◌++◌ as append_text}
use atlasarb.Prelude.{
  ℕ, ◌+◌, ◌≤◌, String, Bool, true, false, not, ◌&&◌, ◌||◌, Option, none, some, List, [], ◌∷◌, ◌++◌,
  if◌then◌else◌, ◌==◌, Eq, nat_eq, string_eq, pair_eq, leb, ltb, length, any, is_some,
}
use atlasarb.Prelude.Dict
use atlasarb.Prelude.Dict.{Dict}
use atlasarb.Scanner.Numbers.{Numbers}
pub mod Writes
pub mod Coherence
pub mod Prices
pub mod Books
pub mod Removal
pub mod Runs
pub mod Lockout
pub mod Examples

pub record CanonicalSymbol : Type 0 where
  pub base_asset : String
  pub quote_asset : String
  pub venue_type : String
  pub network : Option String

-- `pair`
unfoldable pub pair : CanonicalSymbol → String
pair s = append_text s.base_asset (append_text "/" s.quote_asset)

pub record PriceQuote (D : Type 0) : Type 0 where
  pub venue : String
  pub symbol : CanonicalSymbol
  pub bid : D
  pub ask : D
  pub last : D
  pub ts : ℕ
  pub received_at : ℕ
  pub source : String

pub record BookLevel (D : Type 0) : Type 0 where
  pub price : D
  pub qty : D

pub record OrderBook (D : Type 0) : Type 0 where
  pub venue : String
  pub symbol : CanonicalSymbol
  pub bids : List (BookLevel D)
  pub asks : List (BookLevel D)
  pub ts : ℕ
  pub received_at : ℕ
  pub sequence : Option ℕ
  pub pool_address : Option String
  pub pool_fee_tier : Option D
  pub reserve_base : Option D
  pub reserve_quote : Option D

pub record FundingRate (D : Type 0) : Type 0 where
  pub venue : String
  pub base_asset : String
  pub current_rate : D
  pub predicted_rate : Option D
  pub next_funding_time : ℕ
  pub interval_hours : ℕ
  pub received_at : ℕ

-- the settings that the cache reads; `upper` is Python's
pub record CacheConfig (F : Type 0) : Type 0 where
  pub funding_history_window : ℕ
  pub outlier_window_ticks : ℕ
  pub outlier_mad_k : F
  pub warmup_samples : ℕ
  pub max_sane_spread_pct : F
  pub cross_venue_deviation_pct : F
  pub max_age_cex_price_sec : ℕ
  pub max_age_dex_price_sec : ℕ
  pub max_age_orderbook_cex_sec : ℕ
  pub max_age_funding_sec : ℕ
  pub upper : String → String

-- A venue and a pair, or a venue and a base asset.
abbrev pub Slot : Type 0
Slot = String × String

-- The dictionaries and sets, and what the listeners were told, oldest first.
pub record Cache (D : Type 0) : Type 0 where
  pub prices : Dict Slot (PriceQuote D)
  pub books : Dict Slot (OrderBook D)
  pub funding : Dict Slot (FundingRate D)
  pub funding_windows : Dict Slot (List D)
  pub price_windows : Dict Slot (List D)
  pub warmup : Dict Slot ℕ
  pub tracked : List Slot
  pub venues_by_pair : Dict String (List String)
  pub suspect : Dict Slot Bool
  pub rejected_prices : ℕ
  pub outliers : ℕ
  pub events : List (String × String × String)
  pub funding_events : List Slot

module _ {ℓ} {A : Type ℓ} ⦃e : Eq A⦄ where
  -- a set as a list without repetition: `x in s`, `s.add(x)` and `s.discard(x)`
  unfoldable pub member : A → List A → Bool
  member x [] = false
  member x (y ∷ s) = if y == x then true else member x s

  unfoldable pub add_member : A → List A → List A
  unfolding member
  add_member x s = if member x s then s else s ++ x ∷ []

  unfoldable pub discard : A → List A → List A
  discard x [] = []
  discard x (y ∷ s) = if y == x then discard x s else y ∷ discard x s

-- `d.get(k, default)`, and `d[k]` of a defaultdict
unfoldable pub get_or {ℓ κ} : {K : Type ℓ} {V : Type κ} ⦃e : Eq K⦄ → V → K → Dict K V → V
unfolding Dict.get
get_or v k m = elim (Dict.get k m) [ none ↦ v | some w ↦ w ]

module _ {D F : Type 0} (n : Numbers D F) where
  -- `(bid + ask) / 2`
  unfoldable pub mid : PriceQuote D → D
  mid q = n.div (n.add q.bid q.ask) (n.dec 2)

  unfoldable pub best : List (BookLevel D) → Option D
  best [] = none
  best (l ∷ ls) = some l.price

  -- `bool(d)` of an optional decimal: there and not 0
  unfoldable pub is_nonzero : Option D → Bool
  is_nonzero none = false
  is_nonzero (some d) = not (n.same d (n.dec 0))

  unfoldable pub touches : Option D → Option D → Bool
  touches (some bid) (some ask) = not (n.lt bid ask)
  touches none ask = false
  touches (some bid) none = false

  unfoldable pub is_crossed : OrderBook D → Bool
  unfolding best is_nonzero touches
  is_crossed b =
      is_nonzero (best b.bids) && is_nonzero (best b.asks) && touches (best b.bids) (best b.asks)

  unfoldable pub is_positive : Option D → Bool
  is_positive none = false
  is_positive (some d) = n.lt (n.dec 0) d

  unfoldable pub is_empty_side : OrderBook D → Bool
  unfolding is_nonzero is_positive
  is_empty_side b =
      if is_nonzero b.reserve_base && is_nonzero b.reserve_quote
      then not (is_positive b.reserve_base) || not (is_positive b.reserve_quote)
      else (length b.bids == 0) || (length b.asks == 0)

-- `now - received_at > max_age`
unfoldable pub is_stale : ℕ → ℕ → ℕ → Bool
is_stale now received_at max_age = ltb (received_at + max_age) now

module _ {D F : Type 0} (c : CacheConfig F) where
  unfoldable pub is_tracked : String → String → Cache D → Bool
  unfolding member
  is_tracked venue p s = member (venue, p) s.tracked

  unfoldable pub get_price : ℕ → String → String → Cache D → Option (PriceQuote D)
  unfolding Dict.get is_stale
  get_price now venue p s = elim (Dict.get (venue, p) s.prices) [
    | none ↦ none
    | some quote ↦
        let max_age =
          if (quote.source == "RPC") || (quote.source == "QUOTE")
          then c.max_age_dex_price_sec
          else c.max_age_cex_price_sec in
        if is_stale now quote.received_at max_age then none else some quote
  ]

  unfoldable pub get_book : ℕ → String → String → Cache D → Option (OrderBook D)
  unfolding Dict.get is_stale
  get_book now venue p s = elim (Dict.get (venue, p) s.books) [
    | none ↦ none
    | some book ↦
        if not (is_some book.pool_address)
          && is_stale now book.received_at c.max_age_orderbook_cex_sec
        then none
        else some book
  ]

  unfoldable pub get_funding : ℕ → String → String → Cache D → Option (FundingRate D)
  unfolding Dict.get is_stale
  get_funding now venue base s = elim (Dict.get (venue, base) s.funding) [
    | none ↦ none
    | some f ↦ if is_stale now f.received_at c.max_age_funding_sec then none else some f
  ]

  unfoldable pub is_warmed_up : String → String → Cache D → Bool
  unfolding get_or
  is_warmed_up venue p s = leb c.warmup_samples (get_or 0 (venue, p) s.warmup)

module _ {D : Type 0} where
  unfoldable pub venues_for_pair : String → Cache D → List String
  unfolding get_or
  venues_for_pair p s = get_or [] p s.venues_by_pair

  unfoldable pub price_window : String → String → Cache D → List D
  unfolding get_or
  price_window venue p s = get_or [] (venue, p) s.price_windows

  unfoldable pub funding_window : String → String → Cache D → List D
  unfolding get_or
  funding_window venue base s = get_or [] (venue, base) s.funding_windows

  unfoldable pub all_funding_for : String → Dict Slot (FundingRate D) → List (FundingRate D)
  all_funding_for base [] = []
  all_funding_for base (((_, b), f) ∷ m) =
      let rest = all_funding_for base m in if b == base then f ∷ rest else rest

  unfoldable pub size : Cache D → ℕ
  size s = length s.prices + length s.books + length s.funding
