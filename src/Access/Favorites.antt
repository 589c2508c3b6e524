-- ===== src/Access/Favorites.antt =====
-- Favourites: src/database/repositories/favorites_repo.py and src/services/favorites_service.py.
-- The rows stand in the order of their creation.
use atlasarb.Prelude.{
  ℕ, String, Bool, true, false, not, ◌&&◌, ◌||◌, Option, none, some, List, [], ◌∷◌, ◌++◌,
  if◌then◌else◌, ◌==◌, nat_eq, string_eq, any, filter, count, leb,
}
use atlasarb.Users.{UserProfile}
use atlasarb.Payments.Db.{Favorite}
use atlasarb.Access.{Limit, unlimited, limited, Entitlements, can_add_favorite}
use atlasarb.Access.Service.{access_of}

unfoldable pub of_kind : ℕ → String → Favorite → Bool
of_kind uid kind f = (f.user_id == uid) && f.kind == kind

unfoldable pub is_favorite : ℕ → String → String → Favorite → Bool
unfolding of_kind
is_favorite uid kind value f = of_kind uid kind f && f.value == value

-- `count`
unfoldable pub favorite_count : ℕ → String → Bool → List Favorite → ℕ
unfolding of_kind count
favorite_count uid kind include_frozen fs =
    count (λ f. of_kind uid kind f && (include_frozen || not f.frozen)) fs

-- `exists`
unfoldable pub favorite_exists : ℕ → String → String → List Favorite → Bool
unfolding is_favorite any
favorite_exists uid kind value fs = any (is_favorite uid kind value) fs

-- `add`
unfoldable pub add_favorite : ℕ → String → String → List Favorite → List Favorite
unfolding favorite_exists
add_favorite uid kind value fs =
    if favorite_exists uid kind value fs
    then fs
    else fs ++ record { user_id = uid; kind = kind; value = value; frozen = false } ∷ []

-- `remove`
unfoldable pub remove_favorite : ℕ → String → String → List Favorite → List Favorite
unfolding is_favorite filter
remove_favorite uid kind value fs = filter (λ f. not (is_favorite uid kind value f)) fs

-- whether the row with this many newer ones is beyond the cap
unfoldable pub is_excess : Limit → ℕ → Bool
is_excess unlimited idx = false
is_excess (limited keep) idx = leb keep idx

-- `freeze_excess`, which lists the newest first
unfoldable pub freeze_excess : ℕ → String → Limit → List Favorite → List Favorite
unfolding of_kind is_excess count
freeze_excess uid kind keep [] = []
freeze_excess uid kind keep (f ∷ fs) =
    (if of_kind uid kind f
      then record f { frozen = is_excess keep (count (of_kind uid kind) fs) }
      else f)
    ∷ freeze_excess uid kind keep fs

pub record FavoriteOutcome : Type 0 where
  pub ok : Bool
  pub added : Bool
  pub cap_reached : Bool
  pub kind : String

-- `toggle` where the favourite is missing, after the test of the cap; none: the test raises
unfoldable pub add_allowed :
    Option Bool → ℕ → String → String → List Favorite → Option (FavoriteOutcome × List Favorite)
unfolding add_favorite
add_allowed none uid kind value fs = none
add_allowed (some false) uid kind value fs =
    some (record { ok = false; added = false; cap_reached = true; kind = kind }, fs)
add_allowed (some true) uid kind value fs = some (
  record { ok = true; added = true; cap_reached = false; kind = kind },
  add_favorite uid kind value fs,
)

unfoldable pub toggle_with :
    Entitlements → ℕ → String → String → List Favorite → Option (FavoriteOutcome × List Favorite)
unfolding favorite_exists remove_favorite can_add_favorite favorite_count add_allowed
toggle_with ent uid kind value fs =
    if favorite_exists uid kind value fs
    then some (
      record { ok = true; added = false; cap_reached = false; kind = kind },
      remove_favorite uid kind value fs,
    )
    else add_allowed (can_add_favorite ent kind (favorite_count uid kind false fs)) uid kind value
        fs

unfoldable pub toggle :
    Bool → UserProfile → String → String → List Favorite → Option (FavoriteOutcome × List Favorite)
unfolding access_of toggle_with
toggle dev u kind value fs = toggle_with (access_of dev u) u.telegram_user_id kind value fs
