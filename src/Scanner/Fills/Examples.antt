-- ===== src/Scanner/Fills/Examples.antt =====
-- Tests and a concrete instance of the theorem about the largest size within a tolerance.
use atlasarb.Prelude.{ℕ, List, some, none, [], ◌∷◌, ◌≡◌, refl}
use atlasarb.Scanner.Validation.Examples.{whole_numbers}
use atlasarb.Scanner.Cache.{BookLevel}
use atlasarb.Scanner.Fills.{vwap_fill_price, amm_max_size_within_slippage}
use atlasarb.Scanner.Fills.Tolerance.{Tolerable, amm_max-Tolerable}

abbrev levels : List (BookLevel ℕ)
levels = record { price = 100; qty = 2 } ∷ record { price = 110; qty = 8 } ∷ []

-- Two coins at 100 and two at 110; a book of ten coins does not fill eleven.
vwap_two_levels : vwap_fill_price whole_numbers levels 4 ≡ some 105
unfolding vwap_fill_price
vwap_two_levels = refl

vwap_too_deep : vwap_fill_price whole_numbers levels 11 ≡ none
unfolding vwap_fill_price
vwap_too_deep = refl

amm_max-Tolerable_example :
    Tolerable whole_numbers 5000 1000 0 20
      (amm_max_size_within_slippage whole_numbers 5000 1000 0 20)
amm_max-Tolerable_example = amm_max-Tolerable whole_numbers 5000 1000 0 20
