-- ===== src/Scanner/Cache/Removal.antt =====
-- Tracking in src/scanner/cache/market_state_cache.py: to track a market keeps what holds of the cache, to
-- untrack it too, and no quote, book, window or flag of an untracked market is left.
use atlasarb.Prelude.{
  ℕ, ◌<◌, String, false, none, [], ◌≡◌, inl, inr, refl, arith, ◌==◌, ==_iff, ==_refl, nat_eq,
  string_eq, pair_eq, Bool-cases,
}
use atlasarb.Prelude.Dict.{has-pop, get-pop_found, get-pop_self}
use atlasarb.Scanner.Numbers.{Numbers}
use atlasarb.Scanner.Cache.{
  CanonicalSymbol, pair, PriceQuote, OrderBook, CacheConfig, Slot, Cache, member, venues_for_pair,
  get_price, get_book, is_warmed_up, is_tracked, price_window, get_or,
}
use atlasarb.Scanner.Cache.Writes.{track, untrack, upsert_price, upsert_book}
use atlasarb.Scanner.Cache.Coherence.{
  IsCoherent, member-add_member, member-discard, member-unlist, get_or-pop,
}

module _ {D F : Type 0} (n : Numbers D F) (c : CacheConfig F) where
  pub track-IsCoherent :
      (venue : String) (symbol : CanonicalSymbol) (s : Cache D)
      → IsCoherent n c s
      → IsCoherent n c (track c venue symbol s)
  unfolding track venues_for_pair
  track-IsCoherent venue symbol s h = elim (Bool-cases (c.upper symbol.quote_asset == "USDT")) [
    | inr other ↦ rw (track, other) h
    | inl usdt ↦
        rw (track, usdt)
          (record {
            price_tracked = λ k stored. ground (
              arith,
              member-add_member k (venue, pair symbol) s.tracked,
              h.price_tracked k stored,
            );
            book_tracked = λ k stored. ground (
              arith,
              member-add_member k (venue, pair symbol) s.tracked,
              h.book_tracked k stored,
            );
            indexed = h.indexed;
            sound = h.sound;
            counted = h.counted;
          })
  ]

  pub untrack-IsCoherent :
      (venue p : String) (s : Cache D) → IsCoherent n c s → IsCoherent n c (untrack venue p s)
  unfolding untrack venues_for_pair
  untrack-IsCoherent venue p s h = record {
    price_tracked = λ k stored. ground (
      arith,
      has-pop (venue, p) k s.prices,
      member-discard k (venue, p) s.tracked,
      h.price_tracked k,
    );
    book_tracked = λ k stored. ground (
      arith,
      has-pop (venue, p) k s.books,
      member-discard k (venue, p) s.tracked,
      h.book_tracked k,
    );
    indexed = λ v q. ground (
      arith,
      member-unlist v venue p q s.venues_by_pair,
      has-pop (venue, p) (v, q) s.prices,
      has-pop (venue, p) (v, q) s.books,
      h.indexed v q,
      ==_iff p q,
    );
    sound = λ k b found. h.sound k b (get-pop_found (venue, p) k b s.books found).1;
    counted = λ k. ground (arith, get_or-pop 0 (venue, p) k s.warmup, h.counted k);
  }

  -- What the cache keeps of a market by venue and pair is gone: it is not tracked, and there is no quote, no
  -- book, no place in the index, no warm-up, no window of prices and no flag of a suspect reading.
  pub record Forgotten (venue p : String) (s : Cache D) : Type 0 where
    pub no_price : (now : ℕ) → get_price c now venue p s ≡ none
    pub no_book : (now : ℕ) → get_book c now venue p s ≡ none
    pub no_place : member venue (venues_for_pair p s) ≡ false
    pub cold : is_warmed_up c venue p s ≡ false
    pub not_tracked : is_tracked c venue p s ≡ false
    pub no_window : price_window venue p s ≡ []
    pub no_flag : get_or false (venue, p) s.suspect ≡ false

  untracked_price :
      (now : ℕ) (quote : PriceQuote D) (s : Cache D)
      → member (quote.venue, pair quote.symbol) s.tracked ≡ false
      → upsert_price n c now quote s ≡ s
  unfolding upsert_price
  untracked_price now quote s e = rw (upsert_price, e) refl

  untracked_book :
      (book : OrderBook D) (s : Cache D)
      → member (book.venue, pair book.symbol) s.tracked ≡ false
      → upsert_book n c book s ≡ s
  unfolding upsert_book
  untracked_book book s e = rw (upsert_book, e) refl

  dropped : (venue p : String) (s : Cache D) → member (venue, p) (untrack venue p s).tracked ≡ false
  unfolding untrack
  dropped venue p s =
      ground (arith, member-discard (venue, p) (venue, p) s.tracked, ==_refl {A = Slot} (venue, p))

  dropped-Forgotten :
      (venue p : String) (s : Cache D)
      → 0 < c.warmup_samples
      → Forgotten venue p (untrack venue p s)
  unfolding untrack venues_for_pair get_price get_book is_warmed_up is_tracked price_window get_or
  dropped-Forgotten venue p s some_samples = record {
    no_price = λ now. rw (get_price, get-pop_self (venue, p) s.prices) refl;
    no_book = λ now. rw (get_book, get-pop_self (venue, p) s.books) refl;
    no_place =
        ground (arith, member-unlist venue venue p p s.venues_by_pair, ==_refl p, ==_refl venue);
    cold =
        ground (arith, get_or-pop 0 (venue, p) (venue, p) s.warmup, ==_refl {A = Slot} (venue, p));
    not_tracked = dropped venue p s;
    no_window = rw (price_window, get_or, get-pop_self (venue, p) s.price_windows) refl;
    no_flag = rw (get_or, get-pop_self (venue, p) s.suspect) refl;
  }

  -- After a market, a venue with a pair, is untracked, and also after a late quote and then a late book of
  -- it, the market is not tracked and not warmed up, reading its price or its book gives nothing at any time, the
  -- venue is not listed for the pair, its window of prices is empty, and no suspect reading of it is
  -- remembered, so long as the settings ask for at least one sample to warm up.
  pub untrack-Forgotten :
      (now : ℕ) (quote : PriceQuote D) (book : OrderBook D) (s : Cache D)
      → 0 < c.warmup_samples
      → (book.venue ≡ quote.venue) × (pair book.symbol ≡ pair quote.symbol)
      → Forgotten quote.venue (pair quote.symbol) (
          upsert_book n c book
            (upsert_price n c now quote (untrack quote.venue (pair quote.symbol) s)))
  untrack-Forgotten now quote book s some_samples same =
      let key = dropped quote.venue (pair quote.symbol) s in
      let late = untracked_price now quote (untrack quote.venue (pair quote.symbol) s) key in
      rw
        (
          late,
          untracked_book book (untrack quote.venue (pair quote.symbol) s) (rw (same.0, same.1) key),
        )
        (dropped-Forgotten quote.venue (pair quote.symbol) s some_samples)
