-- ===== src/Scanner/Cache/Books.antt =====
-- A book or a funding rate written to src/scanner/cache/market_state_cache.py keeps what holds of the cache.
use atlasarb.Prelude.{
  ℕ, ◌≤◌, Bool, true, false, ◌≡◌, inl, inr, subst, arith, if◌then◌else◌, ==_iff, nat_eq, string_eq,
  pair_eq, is_some, Bool-cases,
}
use atlasarb.Prelude.Dict.{Dict, has-put, get-put_found}
use atlasarb.Scanner.Numbers.{Numbers}
use atlasarb.Scanner.Cache.{
  pair, OrderBook, FundingRate, CacheConfig, Slot, Cache, member, get_or, venues_for_pair,
  is_crossed, is_empty_side,
}
use atlasarb.Scanner.Cache.Writes.{warmed, store_book, upsert_book, upsert_funding}
use atlasarb.Scanner.Cache.Coherence.{IsCoherent, member-enlist, warmed-le}

module _ {D F : Type 0} (n : Numbers D F) (c : CacheConfig F) where
  sampled-le :
      (b : Bool) (k j : Slot) (m : Dict Slot ℕ)
      → get_or 0 j m ≤ c.warmup_samples
      → get_or 0 j (if b then warmed c k m else m) ≤ c.warmup_samples
  sampled-le true k j m h = warmed-le c k j m h
  sampled-le false k j m h = h

  store_book-IsCoherent :
      (book : OrderBook D) (s : Cache D)
      → member (book.venue, pair book.symbol) s.tracked ≡ true
      → (is_crossed n book ≡ false) × (is_empty_side n book ≡ false)
      → IsCoherent n c s
      → IsCoherent n c (store_book n c book s)
  unfolding store_book venues_for_pair
  store_book-IsCoherent book s known whole h = record {
    price_tracked = h.price_tracked;
    book_tracked = λ k stored. ground (
      arith,
      has-put (book.venue, pair book.symbol) k book s.books,
      ==_iff (book.venue, pair book.symbol) k,
      h.book_tracked k,
    );
    indexed = λ v p. ground (
      arith,
      member-enlist v book.venue (pair book.symbol) p s.venues_by_pair,
      has-put (book.venue, pair book.symbol) (v, p) book s.books,
      h.indexed v p,
    );
    sound = λ k b found.
        elim (get-put_found (book.venue, pair book.symbol) k book b s.books found) [
          | inl (_, own) ↦
              subst (λ x. (is_crossed n x ≡ false) × (is_empty_side n x ≡ false)) own whole
          | inr (_, old) ↦ h.sound k b old
        ];
    counted = λ k.
        sampled-le (is_some book.pool_address) (book.venue, pair book.symbol) k s.warmup
          (h.counted k);
  }

  pub upsert_book-IsCoherent :
      (book : OrderBook D) (s : Cache D)
      → IsCoherent n c s
      → IsCoherent n c (upsert_book n c book s)
  unfolding upsert_book
  upsert_book-IsCoherent book s h =
      elim (Bool-cases (member (book.venue, pair book.symbol) s.tracked)) [
        | inr unknown ↦ rw (upsert_book, unknown) h
        | inl known ↦ elim (Bool-cases (is_crossed n book)) [
          | inl crossed ↦ rw (upsert_book, known, crossed) h
          | inr apart ↦ elim (Bool-cases (is_empty_side n book)) [
            | inl empty ↦ rw (upsert_book, known, apart, empty) h
            | inr full ↦
                rw (upsert_book, known, apart, full)
                  (store_book-IsCoherent book s known (apart, full) h)
          ]
        ]
      ]

  pub upsert_funding-IsCoherent :
      (f : FundingRate D) (s : Cache D) → IsCoherent n c s → IsCoherent n c (upsert_funding n c f s)
  unfolding upsert_funding venues_for_pair
  upsert_funding-IsCoherent f s h = record {
    price_tracked = h.price_tracked;
    book_tracked = h.book_tracked;
    indexed = h.indexed;
    sound = h.sound;
    counted = h.counted;
  }
