-- ===== src/Scanner/Cache/Examples.antt =====
-- Tests and concrete instances of the theorems about the market state cache.
use atlasarb.Prelude.{
  ℕ, ◌+◌, true, none, some, List, [], ◌∷◌, ◌≡◌, refl, arith, All, string_eq, pair_eq,
}
use atlasarb.Prelude.Dict
use atlasarb.Scanner.Validation.Examples.{whole_numbers}
use atlasarb.Scanner.Statistics.{pct_deviation}
use atlasarb.Scanner.Cache.{
  CanonicalSymbol, PriceQuote, OrderBook, CacheConfig, Cache, pair, mid, get_price, is_warmed_up,
}
use atlasarb.Scanner.Cache.Writes.{untrack, upsert_price, upsert_book}
use atlasarb.Scanner.Cache.Coherence.{IsCoherent}
use atlasarb.Scanner.Cache.Removal.{Forgotten, untrack-Forgotten}
use atlasarb.Scanner.Cache.Runs.{
  Write, tracks, quotes, books, empty_cache, writes, writes-IsCoherent, empty-IsCoherent,
}
use atlasarb.Scanner.Cache.Lockout.{Jumps, feed, locked_unreadable}

abbrev config : CacheConfig ℕ
config = record {
  funding_history_window = 4;
  outlier_window_ticks = 3;
  outlier_mad_k = 5;
  warmup_samples = 2;
  max_sane_spread_pct = 20;
  cross_venue_deviation_pct = 10;
  max_age_cex_price_sec = 5;
  max_age_dex_price_sec = 30;
  max_age_orderbook_cex_sec = 5;
  max_age_funding_sec = 60;
  upper = λ s. s;
}

abbrev btc : CanonicalSymbol
btc = record { base_asset = "BTC"; quote_asset = "USDT"; venue_type = "CEX"; network = none }

abbrev quote_at : ℕ → ℕ → PriceQuote ℕ
quote_at price now = record {
  venue = "okx";
  symbol = btc;
  bid = price;
  ask = price + 2;
  last = price;
  ts = now;
  received_at = now;
  source = "WS";
}

abbrev pool_book : OrderBook ℕ
pool_book = record {
  venue = "okx";
  symbol = btc;
  bids = [];
  asks = [];
  ts = 7;
  received_at = 7;
  sequence = none;
  pool_address = some "0x1";
  pool_fee_tier = none;
  reserve_base = some 10;
  reserve_quote = some 1000;
}

abbrev story : List (Write ℕ)
story =
    tracks "okx" btc
    ∷ quotes 1 (quote_at 100 1)
    ∷ quotes 2 (quote_at 500 2)
    ∷ quotes 3 (quote_at 101 3)
    ∷ books pool_book
    ∷ []

writes-IsCoherent_example :
    IsCoherent whole_numbers config (writes whole_numbers config story empty_cache)
writes-IsCoherent_example =
    writes-IsCoherent whole_numbers config story empty_cache (empty-IsCoherent whole_numbers config)

-- The jump is refused and counted, and the market warms up with the next quote.
jump_counted : (writes whole_numbers config story empty_cache).rejected_prices ≡ 1
unfolding writes pair
jump_counted = refl

warm_after :
    is_warmed_up config "okx" "BTC/USDT" (writes whole_numbers config story empty_cache) ≡ true
unfolding writes is_warmed_up pair
warm_after = refl

untrack-Forgotten_example : Forgotten whole_numbers config "okx" (pair btc) (
    upsert_book whole_numbers config pool_book (
      upsert_price whole_numbers config 8
        (quote_at 100 8)
        (untrack "okx" (pair btc) (writes whole_numbers config story empty_cache))))
untrack-Forgotten_example =
    untrack-Forgotten whole_numbers config 8 (quote_at 100 8) pool_book
      (writes whole_numbers config story empty_cache) (omega arith) (refl, refl)

abbrev jumped : List (ℕ × PriceQuote ℕ)
jumped = (2, quote_at 500 2) ∷ (9, quote_at 501 9) ∷ (90, quote_at 502 90) ∷ []

abbrev one_quote : Cache ℕ
one_quote =
    writes whole_numbers config (tracks "okx" btc ∷ quotes 1 (quote_at 100 1) ∷ []) empty_cache

one_quote_stored : Dict.get ("okx", pair btc) one_quote.prices ≡ some (quote_at 100 1)
unfolding writes pair Dict.get
one_quote_stored = refl

jumped-Jumps :
    All
      (λ q.
        (q.1.venue ≡ "okx")
        × (pair q.1.symbol ≡ pair btc)
        × Jumps whole_numbers config (quote_at 100 1) q.1)
      jumped
unfolding mid pct_deviation
jumped-Jumps = ((refl, refl, refl), ((refl, refl, refl), ((refl, refl, refl), tt)))

-- A market whose price jumps from 100 to 500 and stays there is unreadable from then on.
locked_unreadable_example :
    get_price config 91 "okx" (pair btc) (feed whole_numbers config jumped one_quote) ≡ none
locked_unreadable_example =
    locked_unreadable whole_numbers config "okx" (pair btc) (quote_at 100 1) jumped one_quote 91
      one_quote_stored jumped-Jumps (omega arith) (omega arith)
