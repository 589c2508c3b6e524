-- ===== src/Scanner/Cache/Writes.antt =====
-- The writes of src/scanner/cache/market_state_cache.py: tracking, quotes, books and funding rates, each
-- with its early returns.
use atlasarb.Prelude.{
  ℕ, ◌+◌, String, Bool, true, false, not, ◌&&◌, ◌||◌, Option, none, some, List, [], ◌∷◌, ◌++◌,
  if◌then◌else◌, ◌==◌, nat_eq, string_eq, pair_eq, ltb, length, is_some,
}
use atlasarb.Prelude.Dict
use atlasarb.Prelude.Dict.{Dict}
use atlasarb.Scanner.Numbers.{Numbers}
use atlasarb.Scanner.Statistics.{robust_median, is_mad_outlier, pct_deviation}
use atlasarb.Scanner.Cache.{
  CanonicalSymbol, pair, PriceQuote, OrderBook, FundingRate, CacheConfig, Slot, Cache, member,
  add_member, discard, get_or, mid, is_crossed, is_empty_side, venues_for_pair,
}

-- `append` of a deque of at most `limit` items
unfoldable pub drop_first : {A : Type 0} → List A → List A
drop_first [] = []
drop_first (x ∷ xs) = xs

unfoldable pub push_window : {A : Type 0} → ℕ → List A → A → List A
unfolding drop_first
push_window limit xs x =
    if limit == 0
    then []
    else if ltb (length xs) limit
    then xs ++ x ∷ []
    else drop_first xs ++ x ∷ []

module _ {D F : Type 0} (c : CacheConfig F) where
  unfoldable pub track : String → CanonicalSymbol → Cache D → Cache D
  unfolding add_member pair
  track venue symbol s =
      if c.upper symbol.quote_asset == "USDT"
      then record s { tracked = add_member (venue, pair symbol) s.tracked }
      else s

-- the venue leaves the index of the pair, and the pair with its last venue
unfoldable pub unlist : String → String → Dict String (List String) → Dict String (List String)
unfolding discard Dict.get Dict.pop Dict.put
unlist venue p index = elim (Dict.get p index) [
  | none ↦ index
  | some venues ↦
      if length (discard venue venues) == 0
      then Dict.pop p index
      else Dict.put p (discard venue venues) index
]

-- `self._venues_by_pair[pair].add(venue)`
unfoldable pub enlist : String → String → Dict String (List String) → Dict String (List String)
unfolding get_or add_member Dict.put
enlist venue p index = Dict.put p (add_member venue (get_or [] p index)) index

unfoldable pub symbol_event : String → CanonicalSymbol → String × String × String
symbol_event venue symbol = (symbol.base_asset, symbol.quote_asset, venue)

module _ {D : Type 0} where
  unfoldable pub untrack : String → String → Cache D → Cache D
  unfolding discard Dict.pop unlist
  untrack venue p s = record s {
    tracked = discard (venue, p) s.tracked;
    prices = Dict.pop (venue, p) s.prices;
    books = Dict.pop (venue, p) s.books;
    price_windows = Dict.pop (venue, p) s.price_windows;
    warmup = Dict.pop (venue, p) s.warmup;
    suspect = Dict.pop (venue, p) s.suspect;
    venues_by_pair = unlist venue p s.venues_by_pair;
  }

-- one more good sample, up to the number that is asked for
unfoldable pub warmed : {F : Type 0} → CacheConfig F → Slot → Dict Slot ℕ → Dict Slot ℕ
unfolding get_or Dict.put
warmed c key m =
    if ltb (get_or 0 key m) c.warmup_samples then Dict.put key (get_or 0 key m + 1) m else m

module _ {D F : Type 0} (n : Numbers D F) (c : CacheConfig F) where
  -- against the quote that it replaces: not older, and no jump
  unfoldable pub follows : PriceQuote D → Option (PriceQuote D) → Bool
  unfolding pct_deviation mid
  follows quote none = true
  follows quote (some prev) =
      not (ltb quote.ts prev.ts)
      && not (n.lt (n.of_float c.max_sane_spread_pct) (pct_deviation n (mid n quote) (mid n prev)))

  unfoldable pub valid_price : ℕ → PriceQuote D → Option (PriceQuote D) → Bool
  unfolding follows
  valid_price now quote prev =
      if not (n.lt (n.dec 0) quote.bid)
        || not (n.lt (n.dec 0) quote.ask)
        || not (n.lt (n.dec 0) quote.last)
      then false
      else if n.lt quote.ask quote.bid
      then false
      else if ltb (now + 2) quote.ts
      then false
      else follows quote prev

  -- the prices of the pair at the other venues
  unfoldable pub other_mids : String → String → Dict Slot (PriceQuote D) → List String → List D
  unfolding mid Dict.get
  other_mids venue p prices [] = []
  other_mids venue p prices (v ∷ vs) =
      let rest = other_mids venue p prices vs in
      if v == venue then rest else elim (Dict.get (v, p) prices) [
        | none ↦ rest
        | some q ↦ if n.lt (n.dec 0) (mid n q) then mid n q ∷ rest else rest
      ]

  unfoldable pub cross_venue_suspect : PriceQuote D → Cache D → Bool
  unfolding other_mids venues_for_pair robust_median pct_deviation mid pair
  cross_venue_suspect quote s =
      let others =
        other_mids quote.venue (pair quote.symbol) s.prices
          (venues_for_pair (pair quote.symbol) s) in
      if ltb (length others) 2
      then false
      else n.lt (n.of_float c.cross_venue_deviation_pct)
          (pct_deviation n (mid n quote) (robust_median n others))

  -- an accepted quote
  unfoldable pub seed : PriceQuote D → Cache D → Cache D
  unfolding pair mid get_or push_window enlist warmed symbol_event Dict.put
  seed quote s =
      let key : Slot = (quote.venue, pair quote.symbol) in
      record s {
        price_windows =
            Dict.put key
              (push_window c.outlier_window_ticks (get_or [] key s.price_windows) (mid n quote))
              s.price_windows;
        prices = Dict.put key quote s.prices;
        venues_by_pair = enlist quote.venue (pair quote.symbol) s.venues_by_pair;
        warmup = warmed c key s.warmup;
        events = s.events ++ symbol_event quote.venue quote.symbol ∷ [];
      }

  -- the flag of a quote that stands alone is set at its first reading
  unfoldable pub flag : Bool → PriceQuote D → Cache D → Cache D
  unfolding pair Dict.put
  flag b quote s = record s { suspect = Dict.put (quote.venue, pair quote.symbol) b s.suspect }

  unfoldable pub confirm : PriceQuote D → Cache D → Cache D
  unfolding pair seed flag get_or cross_venue_suspect
  confirm quote s =
      if cross_venue_suspect quote s
      then (if get_or false (quote.venue, pair quote.symbol) s.suspect
          then seed quote (flag true quote s)
          else flag true quote s)
      else seed quote (flag false quote s)

  unfoldable pub is_outlier : PriceQuote D → Cache D → Bool
  unfolding pair mid get_or is_mad_outlier
  is_outlier quote s =
      is_mad_outlier n (mid n quote) (get_or [] (quote.venue, pair quote.symbol) s.price_windows)
        (n.of_float c.outlier_mad_k)

  unfoldable pub upsert_price : ℕ → PriceQuote D → Cache D → Cache D
  unfolding pair member valid_price is_outlier confirm Dict.get
  upsert_price now quote s =
      if not (member (quote.venue, pair quote.symbol) s.tracked)
      then s
      else if not (valid_price now quote (Dict.get (quote.venue, pair quote.symbol) s.prices))
      then record s { rejected_prices = s.rejected_prices + 1 }
      else if is_outlier quote s
      then record s { outliers = s.outliers + 1 }
      else confirm quote s

  -- an accepted book; that of a pool counts as a sample
  unfoldable pub store_book : OrderBook D → Cache D → Cache D
  unfolding pair enlist warmed symbol_event Dict.put
  store_book book s =
      let key : Slot = (book.venue, pair book.symbol) in
      record s {
        books = Dict.put key book s.books;
        venues_by_pair = enlist book.venue (pair book.symbol) s.venues_by_pair;
        warmup = if is_some book.pool_address then warmed c key s.warmup else s.warmup;
        events = s.events ++ symbol_event book.venue book.symbol ∷ [];
      }

  unfoldable pub upsert_book : OrderBook D → Cache D → Cache D
  unfolding pair member is_crossed is_empty_side store_book
  upsert_book book s =
      if not (member (book.venue, pair book.symbol) s.tracked)
      then s
      else if is_crossed n book || is_empty_side n book
      then s
      else store_book book s

  unfoldable pub upsert_funding : FundingRate D → Cache D → Cache D
  unfolding get_or push_window Dict.put
  upsert_funding f s =
      let key : Slot = (f.venue, f.base_asset) in
      record s {
        funding = Dict.put key f s.funding;
        funding_windows =
            Dict.put key
              (push_window c.funding_history_window (get_or [] key s.funding_windows)
                f.current_rate)
              s.funding_windows;
        funding_events = s.funding_events ++ key ∷ [];
      }
