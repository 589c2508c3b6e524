-- ===== src/Scanner/Cadence/Examples.antt =====
-- Tests and a concrete instance of the theorem about the cadence of the detectors.
use atlasarb.Prelude.{some, List, [], ◌∷◌, ◌≡◌, refl}
use atlasarb.Prelude.Dict
use atlasarb.Signals.{cex_cex, funding, cross_chain, arb_eq}
use atlasarb.Scanner.Cadence.{CadenceConfig, bases, new_cadence, due_detectors}
use atlasarb.Scanner.Cadence.Passes.{
  pass_over, Happening, passes, publishes, happens, IsRecent, pass_bounded,
}

abbrev cadences : CadenceConfig
cadences = record {
  funding_cadence = 0;
  cex_cex_cadence = 2;
  cex_dex_cadence = 4;
  dex_dex_cadence = 4;
  cross_chain_cadence = 10;
  idle_after = 100;
  idle_backoff = 3;
}

abbrev story : List Happening
story = passes 1 ∷ publishes cex_cex 90 ∷ passes 120 ∷ []

cross_chain_cadence : Dict.get cross_chain (bases cadences) ≡ some 10
unfolding Dict.get
cross_chain_cadence = refl

pass_bounded_example :
    IsRecent cross_chain 10 125 (pass_over 125 (happens story (new_cadence cadences 0)))
pass_bounded_example = pass_bounded cadences 0 125 story cross_chain 10 cross_chain_cadence

-- Five ticks after a pass the active detector is due, and of those that published nothing only the one that is
-- reconciled on every pass.
due_after : due_detectors 125 (happens story (new_cadence cadences 0)) ≡ funding ∷ cex_cex ∷ []
unfolding due_detectors happens new_cadence Dict.get
due_after = refl
