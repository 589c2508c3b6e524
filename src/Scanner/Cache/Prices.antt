-- ===== src/Scanner/Cache/Prices.antt =====
-- A quote written to src/scanner/cache/market_state_cache.py keeps what holds of the cache.
use atlasarb.Prelude.{
  ℕ, Bool, true, false, ◌≡◌, inl, inr, arith, ==_iff, nat_eq, string_eq, pair_eq, Bool-cases,
}
use atlasarb.Prelude.Dict
use atlasarb.Prelude.Dict.{Dict, has-put}
use atlasarb.Scanner.Numbers.{Numbers}
use atlasarb.Scanner.Cache.{pair, PriceQuote, CacheConfig, Cache, member, get_or, venues_for_pair}
use atlasarb.Scanner.Cache.Writes.{
  seed, flag, cross_venue_suspect, confirm, is_outlier, valid_price, upsert_price,
}
use atlasarb.Scanner.Cache.Coherence.{IsCoherent, member-enlist, warmed-le}

module _ {D F : Type 0} (n : Numbers D F) (c : CacheConfig F) where
  seed-IsCoherent :
      (quote : PriceQuote D) (s : Cache D)
      → member (quote.venue, pair quote.symbol) s.tracked ≡ true
      → IsCoherent n c s
      → IsCoherent n c (seed n c quote s)
  unfolding seed venues_for_pair
  seed-IsCoherent quote s known h = record {
    price_tracked = λ k stored. ground (
      arith,
      has-put (quote.venue, pair quote.symbol) k quote s.prices,
      ==_iff (quote.venue, pair quote.symbol) k,
      h.price_tracked k,
    );
    book_tracked = h.book_tracked;
    indexed = λ v p. ground (
      arith,
      member-enlist v quote.venue (pair quote.symbol) p s.venues_by_pair,
      has-put (quote.venue, pair quote.symbol) (v, p) quote s.prices,
      h.indexed v p,
    );
    sound = h.sound;
    counted = λ k. warmed-le c (quote.venue, pair quote.symbol) k s.warmup (h.counted k);
  }

  flag-IsCoherent :
      (b : Bool) (quote : PriceQuote D) (s : Cache D)
      → IsCoherent n c s
      → IsCoherent n c (flag n c b quote s)
  unfolding flag venues_for_pair
  flag-IsCoherent b quote s h = record {
    price_tracked = h.price_tracked;
    book_tracked = h.book_tracked;
    indexed = h.indexed;
    sound = h.sound;
    counted = h.counted;
  }

  confirm-IsCoherent :
      (quote : PriceQuote D) (s : Cache D)
      → member (quote.venue, pair quote.symbol) s.tracked ≡ true
      → IsCoherent n c s
      → IsCoherent n c (confirm n c quote s)
  unfolding confirm flag
  confirm-IsCoherent quote s known h = elim (Bool-cases (cross_venue_suspect n c quote s)) [
    | inl alone ↦ elim (Bool-cases (get_or false (quote.venue, pair quote.symbol) s.suspect)) [
      | inl twice ↦
          rw (confirm, alone, twice)
            (seed-IsCoherent quote (flag n c true quote s) known (flag-IsCoherent true quote s h))
      | inr first ↦ rw (confirm, alone, first) (flag-IsCoherent true quote s h)
    ]
    | inr shared ↦
        rw (confirm, shared)
          (seed-IsCoherent quote (flag n c false quote s) known (flag-IsCoherent false quote s h))
  ]

  pub upsert_price-IsCoherent :
      (now : ℕ) (quote : PriceQuote D) (s : Cache D)
      → IsCoherent n c s
      → IsCoherent n c (upsert_price n c now quote s)
  unfolding upsert_price venues_for_pair
  upsert_price-IsCoherent now quote s h =
      elim (Bool-cases (member (quote.venue, pair quote.symbol) s.tracked)) [
        | inr unknown ↦ rw (upsert_price, unknown) h
        | inl known ↦
            elim (Bool-cases
              (valid_price n c now quote (Dict.get (quote.venue, pair quote.symbol) s.prices))) [
                | inr bad ↦
                    rw (upsert_price, known, bad)
                      (record {
                        price_tracked = h.price_tracked;
                        book_tracked = h.book_tracked;
                        indexed = h.indexed;
                        sound = h.sound;
                        counted = h.counted;
                      })
                | inl good ↦ elim (Bool-cases (is_outlier n c quote s)) [
                  | inl out ↦
                      rw (upsert_price, known, good, out)
                        (record {
                          price_tracked = h.price_tracked;
                          book_tracked = h.book_tracked;
                          indexed = h.indexed;
                          sound = h.sound;
                          counted = h.counted;
                        })
                  | inr fine ↦
                      rw (upsert_price, known, good, fine) (confirm-IsCoherent quote s known h)
                ]
              ]
      ]
