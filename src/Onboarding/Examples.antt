-- ===== src/Onboarding/Examples.antt =====
-- A touch of a user at a concrete input.
use atlasarb.Prelude.{ℕ, none, some, [], ◌∷◌, ◌≡◌, arith, if◌then◌else◌, ◌==◌, nat_eq}
use atlasarb.Prelude.Dict
use atlasarb.Users.{UserProfile, support}
use atlasarb.Access.Examples.{sample_user}
use atlasarb.Onboarding.{AllowLists, UserTable, allowlist_role, touch}
use atlasarb.Onboarding.Roles.{Follows, touch-Follows}

abbrev lists_of : AllowLists
lists_of = record { admin_telegram_ids = 1 ∷ []; support_user_ids = 2 ∷ [] }

-- a former member of the support, who is on no list now
abbrev some_rows : UserTable
some_rows = (7, record sample_user { role = support }) ∷ []

abbrev some_key : ℕ
some_key = 7

keyed_rows : (k : ℕ) (u : UserProfile) → Dict.get k some_rows ≡ some u → u.telegram_user_id ≡ k
unfolding Dict.get
keyed_rows k u found = ground arith

touch-Follows_example :
    Follows (allowlist_role lists_of 7) (touch lists_of 9 7 (some "bob") none some_rows).0
    × (Dict.get 7 (touch lists_of 9 7 (some "bob") none some_rows).1 ≡ (
        if some_key == 7
        then some (touch lists_of 9 7 (some "bob") none some_rows).0
        else Dict.get 7 some_rows))
touch-Follows_example = touch-Follows lists_of 9 7 (some "bob") none some_rows 7 keyed_rows
