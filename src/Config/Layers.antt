-- ===== src/Config/Layers.antt =====
-- The layers of src/config/scanner_config.py: how overrides are merged and laid over the base.
use atlasarb.Prelude.{
  String, true, Option, none, some, [], ◌∷◌, ◌≡◌, inl, inr, refl, ◌∙◌, arith, if◌then◌else◌, ◌==◌,
  ==_iff, string_eq, Bool-cases,
}
use atlasarb.Prelude.Dict
use atlasarb.Prelude.Dict.{Dict, get-put, has-put, IsUnique, put-IsUnique}

module _ {V : Type 0} where
  -- `{**layer, **overrides}`
  unfoldable pub merge : Dict String V → Dict String V → Dict String V
  unfolding Dict.put
  merge layer [] = layer
  merge layer ((k, v) ∷ m) = merge (Dict.put k v layer) m

  -- `if hasattr(cfg, key): setattr(cfg, key, value)`
  unfoldable pub set_known : String → V → Dict String V → Dict String V
  unfolding Dict.has Dict.put
  set_known k v cfg = if Dict.has k cfg then Dict.put k v cfg else cfg

  unfoldable pub apply_layer : Dict String V → Dict String V → Dict String V
  unfolding set_known
  apply_layer [] cfg = cfg
  apply_layer ((k, v) ∷ m) cfg = apply_layer m (set_known k v cfg)

  unfoldable pub compose : Dict String V → Dict String V → Dict String V → Dict String V
  unfolding apply_layer
  compose base env runtime = apply_layer runtime (apply_layer env base)

  -- The first value where there is one, or else the second.
  abbrev pub or_else : Option V → Option V → Option V
  or_else (some v) w = some v
  or_else none w = w

  pub merge-IsUnique : (layer m : Dict String V) → IsUnique layer → IsUnique (merge layer m)
  unfolding merge
  merge-IsUnique layer [] u = u
  merge-IsUnique layer ((k, v) ∷ m) u =
      merge-IsUnique (Dict.put k v layer) m (put-IsUnique k v layer u)

  get-set_known :
      (k j : String) (v : V) (cfg : Dict String V)
      → Dict.has j cfg ≡ true
      → Dict.get j (set_known k v cfg) ≡ (if k == j then some v else Dict.get j cfg)
  unfolding set_known
  get-set_known k j v cfg known = elim (Bool-cases (Dict.has k cfg)) [
    | inl there ↦ rw (set_known, there) (get-put k j v cfg)
    | inr missing ↦ rw (set_known, missing) (ground (arith, ==_iff k j))
  ]

  has-set_known :
      (k j : String) (v : V) (cfg : Dict String V) → Dict.has j (set_known k v cfg) ≡ Dict.has j cfg
  unfolding set_known
  has-set_known k j v cfg = elim (Bool-cases (Dict.has k cfg)) [
    | inl there ↦ rw (set_known, there) (ground (arith, has-put k j v cfg, ==_iff k j))
    | inr missing ↦ rw (set_known, missing) refl
  ]

  pub has-apply_layer :
      (j : String) (layer cfg : Dict String V) → Dict.has j (apply_layer layer cfg) ≡ Dict.has j cfg
  unfolding apply_layer
  has-apply_layer j [] cfg = refl
  has-apply_layer j ((k, v) ∷ m) cfg =
      has-apply_layer j m (set_known k v cfg) ∙ has-set_known k j v cfg

  pub get-apply_layer :
      (j : String) (layer cfg : Dict String V)
      → IsUnique layer
      → Dict.has j cfg ≡ true
      → Dict.get j (apply_layer layer cfg) ≡ or_else (Dict.get j layer) (Dict.get j cfg)
  unfolding apply_layer Dict.get
  get-apply_layer j [] cfg u known = refl
  get-apply_layer j ((k, v) ∷ m) cfg u known = ground (
    arith,
    get-apply_layer j m (set_known k v cfg) u.1 (has-set_known k j v cfg ∙ known),
    get-set_known k j v cfg known,
    ==_iff k j,
    u.0,
  )
