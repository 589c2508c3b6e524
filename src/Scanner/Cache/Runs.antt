-- ===== src/Scanner/Cache/Runs.antt =====
-- Any sequence of writes to the cache of src/scanner/cache/market_state_cache.py.
use atlasarb.Prelude.{ℕ, String, List, [], ◌∷◌, refl, arith, string_eq, pair_eq}
use atlasarb.Prelude.Dict
use atlasarb.Scanner.Numbers.{Numbers}
use atlasarb.Scanner.Cache.{
  CanonicalSymbol, PriceQuote, OrderBook, FundingRate, CacheConfig, Cache, member, get_or,
  venues_for_pair,
}
use atlasarb.Scanner.Cache.Writes.{track, untrack, upsert_price, upsert_book, upsert_funding}
use atlasarb.Scanner.Cache.Coherence.{IsCoherent}
use atlasarb.Scanner.Cache.Prices.{upsert_price-IsCoherent}
use atlasarb.Scanner.Cache.Books.{upsert_book-IsCoherent, upsert_funding-IsCoherent}
use atlasarb.Scanner.Cache.Removal.{track-IsCoherent, untrack-IsCoherent}

-- A write, with the clock where it is read.
pub data Write (D : Type 0) : Type 0 where
  tracks : String → CanonicalSymbol → Write D
  untracks : String → String → Write D
  quotes : ℕ → PriceQuote D → Write D
  books : OrderBook D → Write D
  funds : FundingRate D → Write D

abbrev pub empty_cache : {D : Type 0} → Cache D
empty_cache = record {
  prices = [];
  books = [];
  funding = [];
  funding_windows = [];
  price_windows = [];
  warmup = [];
  tracked = [];
  venues_by_pair = [];
  suspect = [];
  rejected_prices = 0;
  outliers = 0;
  events = [];
  funding_events = [];
}

module _ {D F : Type 0} (n : Numbers D F) (c : CacheConfig F) where
  unfoldable pub write : Write D → Cache D → Cache D
  unfolding track untrack upsert_price upsert_book upsert_funding
  write (tracks venue symbol) s = track c venue symbol s
  write (untracks venue p) s = untrack venue p s
  write (quotes now quote) s = upsert_price n c now quote s
  write (books book) s = upsert_book n c book s
  write (funds f) s = upsert_funding n c f s

  unfoldable pub writes : List (Write D) → Cache D → Cache D
  unfolding write
  writes [] s = s
  writes (w ∷ ws) s = writes ws (write w s)

  write-IsCoherent : (w : Write D) (s : Cache D) → IsCoherent n c s → IsCoherent n c (write w s)
  unfolding write
  write-IsCoherent (tracks venue symbol) s h = track-IsCoherent n c venue symbol s h
  write-IsCoherent (untracks venue p) s h = untrack-IsCoherent n c venue p s h
  write-IsCoherent (quotes now quote) s h = upsert_price-IsCoherent n c now quote s h
  write-IsCoherent (books book) s h = upsert_book-IsCoherent n c book s h
  write-IsCoherent (funds f) s h = upsert_funding-IsCoherent n c f s h

  -- Through any writes the cache holds quotes and books of tracked markets only, its index lists exactly the
  -- venues with a quote or a book of the pair, no stored book is crossed or one-sided, and no warm-up counter
  -- passes the number of samples asked for.
  pub writes-IsCoherent :
      (ws : List (Write D)) (s : Cache D) → IsCoherent n c s → IsCoherent n c (writes ws s)
  unfolding writes
  writes-IsCoherent [] s h = h
  writes-IsCoherent (w ∷ ws) s h = writes-IsCoherent ws (write w s) (write-IsCoherent w s h)

  pub empty-IsCoherent : IsCoherent n c empty_cache
  unfolding Dict.has Dict.get member get_or venues_for_pair
  empty-IsCoherent = record {
    price_tracked = λ k h. absurd (ground arith);
    book_tracked = λ k h. absurd (ground arith);
    indexed = λ v p. refl;
    sound = λ k b h. absurd (ground arith);
    counted = λ k. omega arith;
  }
