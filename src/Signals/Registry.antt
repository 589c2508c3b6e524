-- ===== src/Signals/Registry.antt =====
-- SignalRegistry of src/services/signal_registry.py: the working set that the bot reads.
use atlasarb.Prelude.{ℕ, String, Option, none, some, [], ◌∷◌, if◌then◌else◌, string_eq, leb, length}
use atlasarb.Prelude.Dict
use atlasarb.Prelude.Dict.{Dict}
use atlasarb.Signals.{Signal, expired}

pub record Registry (D E : Type 0) : Type 0 where
  pub active : Dict String (Signal D E)
  pub recent_expired : Dict String (Signal D E)

abbrev pub recent_expired_max : ℕ
recent_expired_max = 500

module _ {D E : Type 0} where
  unfoldable pub upsert : Signal D E → Registry D E → Registry D E
  unfolding Dict.put
  upsert s r = record r { active = Dict.put s.id s r.active }

  -- the `while` loop: it drops the oldest, while there are too many
  unfoldable pub trim : Dict String (Signal D E) → Dict String (Signal D E)
  trim [] = []
  trim (e ∷ m) = if leb (length (e ∷ m)) recent_expired_max then e ∷ m else trim m

  unfoldable pub expire : Signal D E → Registry D E → Registry D E
  unfolding Dict.put Dict.pop trim
  expire s r =
      let gone = record s { status = expired } in
      record {
        active = Dict.pop s.id r.active;
        recent_expired = trim (Dict.put s.id gone r.recent_expired);
      }

  -- `get`
  unfoldable pub lookup : String → Registry D E → Option (Signal D E)
  unfolding Dict.get
  lookup id r = elim (Dict.get id r.active) [
    | none ↦ Dict.get id r.recent_expired
    | some s ↦ some s
  ]
