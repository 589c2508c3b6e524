-- ===== src/Payments/Json.antt =====
-- A decoded JSON value, as the callbacks of the payment provider carry it.
use atlasarb.Prelude.{
  ℕ, true, false, not, nat_eq, String, Bool, Option, none, some, if◌then◌else◌, ◌==◌, string_eq,
}

mutual
  pub data Json : Type 0 where
    null : Json
    bool : Bool → Json
    -- an integer, by its sign (`true` is minus) and size
    int : Bool → ℕ → Json
    -- any other number, by whether it differs from zero and its text
    float : Bool → String → Json
    text : String → Json
    arr : Items → Json
    obj : Fields → Json

  pub data Items : Type 0 where
    nil : Items
    cons : Json → Items → Items

  pub data Fields : Type 0 where
    end : Fields
    field : String → Json → Fields → Fields

-- `d.get(name)`; Python's decoder keeps the last of two equal keys, and so does a decoder here
unfoldable pub member : String → Fields → Option Json
member name end = none
member name (field k v rest) = if k == name then some v else member name rest

-- `d.get(name)` where a missing key and a JSON null are the same None
unfoldable pub get_or_null : String → Fields → Json
unfolding member
get_or_null name fs = elim (member name fs) [ none ↦ null | some v ↦ v ]

-- Python's truth value
unfoldable pub truthy : Json → Bool
truthy null = false
truthy (bool b) = b
truthy (int minus n) = not (n == 0)
truthy (float nonzero t) = nonzero
truthy (text t) = not (t == "")
truthy (arr nil) = false
truthy (arr (cons x xs)) = true
truthy (obj end) = false
truthy (obj (field k v fs)) = true

-- `a or b`
unfoldable pub or_else : Json → Json → Json
unfolding truthy
or_else a b = if truthy a then a else b

-- `v == t` for a text
unfoldable pub is_text : String → Json → Bool
is_text t (text s) = s == t
is_text t null = false
is_text t (bool b) = false
is_text t (int minus n) = false
is_text t (float nonzero s) = false
is_text t (arr xs) = false
is_text t (obj fs) = false
