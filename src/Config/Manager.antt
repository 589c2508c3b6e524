-- ===== src/Config/Manager.antt =====
-- ConfigManager of src/config/scanner_config.py: overrides are applied as a whole or not at all, and the
-- effective configuration is always a checked one.
use atlasarb.Prelude.{
  String, Bool, true, false, Option, none, some, List, [], ◌∷◌, ◌++◌, ◌≡◌, ◌⊎◌, inl, inr, refl,
  subst, ap, ◌∙◌, arith, if◌then◌else◌, string_eq, Bool-cases,
}
use atlasarb.Prelude.Dict
use atlasarb.Prelude.Dict.{IsUnique}
use atlasarb.Config.{Floats, Value, ScannerConfig, validate_config}
use atlasarb.Config.Layers.{
  merge, apply_layer, compose, or_else, merge-IsUnique, has-apply_layer, get-apply_layer,
}

-- The layers, the effective configuration, and what the subscribers were given, oldest first.
pub record Manager (F : Type 0) : Type 0 where
  pub base : ScannerConfig F
  pub env_layer : ScannerConfig F
  pub runtime_layer : ScannerConfig F
  pub effective : ScannerConfig F
  pub told : List (ScannerConfig F)

pub data Source : Type 0 where
  from_base environment runtime : Source

module _ {F : Type 0} where
  unfoldable pub reload : Manager F → Manager F
  unfolding compose
  reload m =
      let effective = compose m.base m.env_layer m.runtime_layer in
      record m { effective = effective; told = m.told ++ effective ∷ [] }

  -- `_recompute_sources` and the lookup of `introspect`
  unfoldable pub source_of : String → Manager F → Source
  unfolding Dict.has
  source_of name m =
      if Dict.has name m.runtime_layer
      then runtime
      else if Dict.has name m.env_layer
      then environment
      else from_base

  unfoldable pub introspect : String → Manager F → Option (Value F) × Source
  unfolding source_of Dict.get
  introspect name m = (Dict.get name m.effective, source_of name m)

some_inj : {A : Type 0} {x y : A} → some x ≡ some y → x ≡ y
some_inj h = cc

module _ {F : Type 0} (n : Floats F) where
  -- a base that fails the checks makes the constructor raise
  unfoldable pub new_manager : ScannerConfig F → Option (Manager F)
  unfolding validate_config
  new_manager base =
      if validate_config n base
      then some
          (record { base = base; env_layer = []; runtime_layer = []; effective = base; told = [] })
      else none

  -- whether it applied the overrides, or raised; and the manager that is left
  unfoldable pub apply_environment_layer : ScannerConfig F → Manager F → Bool × Manager F
  unfolding merge compose validate_config reload
  apply_environment_layer overrides m =
      let env = merge m.env_layer overrides in
      if validate_config n (compose m.base env m.runtime_layer)
      then (true, reload (record m { env_layer = env }))
      else (false, m)

  unfoldable pub apply_runtime_override : ScannerConfig F → Manager F → Bool × Manager F
  unfolding merge compose validate_config reload
  apply_runtime_override overrides m =
      let merged = merge m.runtime_layer overrides in
      if validate_config n (compose m.base m.env_layer merged)
      then (true, reload (record m { runtime_layer = merged }))
      else (false, m)

  -- The effective configuration is that of the layers and passes the checks; no layer names a key twice.
  pub record IsValid (base : ScannerConfig F) (m : Manager F) : Type 0 where
    pub based : m.base ≡ base
    pub env_unique : IsUnique m.env_layer
    pub runtime_unique : IsUnique m.runtime_layer
    pub composed : m.effective ≡ compose m.base m.env_layer m.runtime_layer
    pub checked : validate_config n m.effective ≡ true

  pub data Change : Type 0 where
    sets_environment : ScannerConfig F → Change
    sets_runtime : ScannerConfig F → Change

  unfoldable pub change : Change → Manager F → Bool × Manager F
  unfolding apply_environment_layer apply_runtime_override
  change (sets_environment overrides) m = apply_environment_layer overrides m
  change (sets_runtime overrides) m = apply_runtime_override overrides m

  unfoldable pub changes : List Change → Manager F → Manager F
  unfolding change
  changes [] m = m
  changes (o ∷ os) m = changes os (change o m).1

  pub new-IsValid :
      (base : ScannerConfig F) (m : Manager F) → new_manager base ≡ some m → IsValid base m
  unfolding new_manager compose apply_layer
  new-IsValid base m made = elim (Bool-cases (validate_config n base)) [
    | inl good ↦ subst (IsValid base) (some_inj (rw (new_manager, good) at made)) (record {
      based = refl;
      env_unique = tt;
      runtime_unique = tt;
      composed = refl;
      checked = good;
    })
    | inr bad ↦ absurd (ground (arith, rw (new_manager, bad) at made))
  ]

  -- What a change leaves: all of it, or the manager as it was.
  abbrev pub Atomic : Manager F → Bool × Manager F → Type 0
  Atomic m r = (r.0 ≡ false) × (r.1 ≡ m) ⊎ (r.0 ≡ true) × (r.1.told ≡ m.told ++ r.1.effective ∷ [])

  change-Atomic : (o : Change) (m : Manager F) → Atomic m (change o m)
  unfolding change apply_environment_layer apply_runtime_override reload
  change-Atomic (sets_environment overrides) m =
      elim (Bool-cases
        (validate_config n (compose m.base (merge m.env_layer overrides) m.runtime_layer))) [
          | inl good ↦ rw (change, apply_environment_layer, good) (inr (refl, refl))
          | inr bad ↦ rw (change, apply_environment_layer, bad) (inl (refl, refl))
        ]
  change-Atomic (sets_runtime overrides) m =
      elim (Bool-cases
        (validate_config n (compose m.base m.env_layer (merge m.runtime_layer overrides)))) [
          | inl good ↦ rw (change, apply_runtime_override, good) (inr (refl, refl))
          | inr bad ↦ rw (change, apply_runtime_override, bad) (inl (refl, refl))
        ]

  change-IsValid :
      (base : ScannerConfig F) (o : Change) (m : Manager F)
      → IsValid base m
      → IsValid base (change o m).1
  unfolding change apply_environment_layer apply_runtime_override reload
  change-IsValid base (sets_environment overrides) m v =
      elim (Bool-cases
        (validate_config n (compose m.base (merge m.env_layer overrides) m.runtime_layer))) [
          | inl good ↦
              rw (change, apply_environment_layer, good)
                (record {
                  based = v.based;
                  env_unique = merge-IsUnique m.env_layer overrides v.env_unique;
                  runtime_unique = v.runtime_unique;
                  composed = refl;
                  checked = good;
                })
          | inr bad ↦ rw (change, apply_environment_layer, bad) v
        ]
  change-IsValid base (sets_runtime overrides) m v =
      elim (Bool-cases
        (validate_config n (compose m.base m.env_layer (merge m.runtime_layer overrides)))) [
          | inl good ↦
              rw (change, apply_runtime_override, good)
                (record {
                  based = v.based;
                  env_unique = v.env_unique;
                  runtime_unique = merge-IsUnique m.runtime_layer overrides v.runtime_unique;
                  composed = refl;
                  checked = good;
                })
          | inr bad ↦ rw (change, apply_runtime_override, bad) v
        ]

  -- Through any overrides, applied or refused, the effective configuration is that of the layers over the base,
  -- and it passes every check.
  pub changes-IsValid :
      (base : ScannerConfig F) (os : List Change) (m : Manager F)
      → IsValid base m
      → IsValid base (changes os m)
  unfolding changes
  changes-IsValid base [] m v = v
  changes-IsValid base (o ∷ os) m v =
      changes-IsValid base os (change o m).1 (change-IsValid base o m v)

  -- The value of a name in the layer that a source names.
  abbrev pub value_in : Source → String → Manager F → Option (Value F)
  value_in from_base name m = Dict.get name m.base
  value_in environment name m = Dict.get name m.env_layer
  value_in runtime name m = Dict.get name m.runtime_layer

  effective_value :
      (base : ScannerConfig F) (name : String) (m : Manager F)
      → IsValid base m
      → Dict.has name m.base ≡ true
      → Dict.get name m.effective
        ≡ or_else
            (Dict.get name m.runtime_layer)
            (or_else (Dict.get name m.env_layer) (Dict.get name m.base))
  unfolding compose
  effective_value base name m v known =
      ap (λ c. Dict.get name c) v.composed
      ∙ get-apply_layer name m.runtime_layer (apply_layer m.env_layer m.base) v.runtime_unique
          (has-apply_layer name m.env_layer m.base ∙ known)
      ∙ ap (or_else (Dict.get name m.runtime_layer))
          (get-apply_layer name m.env_layer m.base v.env_unique known)

  -- For each attribute of the base, what `introspect` reports as the effective value is the value in the layer
  -- that it reports as its origin: the runtime layer before the environment before the base.
  pub introspect_agrees :
      (base : ScannerConfig F) (name : String) (m : Manager F)
      → IsValid base m
      → Dict.has name m.base ≡ true
      → (introspect name m).0 ≡ value_in (introspect name m).1 name m
  unfolding introspect source_of Dict.has
  introspect_agrees base name m v known = ground (arith, effective_value base name m v known)
