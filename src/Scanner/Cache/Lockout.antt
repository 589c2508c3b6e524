-- ===== src/Scanner/Cache/Lockout.antt =====
-- The guard against jumps in src/scanner/cache/market_state_cache.py compares with the stored quote, however
-- old it is, so a real jump of the price is never taken over.
use atlasarb.Prelude.{
  ℕ, ◌+◌, String, true, false, none, some, List, [], ◌∷◌, ◌≡◌, inl, inr, refl, arith, string_eq,
  pair_eq, ◌<◌, Bool-cases, All,
}
use atlasarb.Prelude.Dict
use atlasarb.Scanner.Numbers.{Numbers}
use atlasarb.Scanner.Statistics.{pct_deviation}
use atlasarb.Scanner.Cache.{pair, PriceQuote, CacheConfig, Cache, member, mid, get_price}
use atlasarb.Scanner.Cache.Writes.{follows, valid_price, upsert_price}

module _ {D F : Type 0} (n : Numbers D F) (c : CacheConfig F) where
  -- The price of `quote` is further from that of `prev` than the settings allow.
  abbrev pub Jumps : PriceQuote D → PriceQuote D → Type 0
  Jumps prev quote =
      n.lt (n.of_float c.max_sane_spread_pct) (pct_deviation n (mid n quote) (mid n prev)) ≡ true

  -- quotes of one market, each with the clock at its arrival
  unfoldable pub feed : List (ℕ × PriceQuote D) → Cache D → Cache D
  unfolding upsert_price
  feed [] s = s
  feed ((now, quote) ∷ qs) s = feed qs (upsert_price n c now quote s)

  jump_rejected :
      (now : ℕ) (prev quote : PriceQuote D)
      → Jumps prev quote
      → valid_price n c now quote (some prev) ≡ false
  unfolding valid_price follows
  jump_rejected now prev quote jump = ground arith

  jump_dropped :
      (now : ℕ) (prev quote : PriceQuote D) (s : Cache D)
      → Dict.get (quote.venue, pair quote.symbol) s.prices ≡ some prev
      → Jumps prev quote
      → ((upsert_price n c now quote s).prices ≡ s.prices)
        × ((upsert_price n c now quote s).tracked ≡ s.tracked)
  unfolding upsert_price
  jump_dropped now prev quote s stored jump =
      elim (Bool-cases (member (quote.venue, pair quote.symbol) s.tracked)) [
        | inr unknown ↦ rw (upsert_price, unknown) (refl, refl)
        | inl known ↦
            rw (upsert_price, known, stored, jump_rejected now prev quote jump) (refl, refl)
      ]

  -- Once a quote of a market is stored, no later quotes that all lie further from it than the settings allow
  -- are ever taken over, however many they are and however old the stored one becomes.
  pub feed_locked :
      (venue p : String) (prev : PriceQuote D) (qs : List (ℕ × PriceQuote D)) (s : Cache D)
      → Dict.get (venue, p) s.prices ≡ some prev
      → All (λ q. (q.1.venue ≡ venue) × (pair q.1.symbol ≡ p) × Jumps prev q.1) qs
      → Dict.get (venue, p) (feed qs s).prices ≡ some prev
  unfolding feed
  feed_locked venue p prev [] s stored jumps = stored
  feed_locked venue p prev ((now, quote) ∷ qs) s stored ((own, ours, jump), rest) =
      let (same, _) = jump_dropped now prev quote s (rw (own, ours) stored) jump in
      feed_locked venue p prev qs (upsert_price n c now quote s) (rw same stored) rest

  -- Where a quote of a market is stored and later quotes of the market, however many and at whatever times,
  -- all lie further from the stored one than the settings allow for a jump, the market has no readable price
  -- after them as soon as the stored quote is older than both the ages that the settings allow, those of a
  -- CEX and of a DEX price.
  pub locked_unreadable :
      (venue p : String) (prev : PriceQuote D) (qs : List (ℕ × PriceQuote D)) (s : Cache D)
      (now : ℕ)
      → Dict.get (venue, p) s.prices ≡ some prev
      → All (λ q. (q.1.venue ≡ venue) × (pair q.1.symbol ≡ p) × Jumps prev q.1) qs
      → prev.received_at + c.max_age_cex_price_sec < now
      → prev.received_at + c.max_age_dex_price_sec < now
      → get_price c now venue p (feed qs s) ≡ none
  unfolding get_price
  locked_unreadable venue p prev qs s now stored jumps old older =
      rw (get_price, feed_locked venue p prev qs s stored jumps) (ground arith)
