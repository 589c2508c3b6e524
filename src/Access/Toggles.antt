-- ===== src/Access/Toggles.antt =====
-- What toggling and freezing do to the favourites of src/database/repositories/favorites_repo.py.
use atlasarb.Prelude.{
  ℕ, ◌+◌, ◌≤◌, String, Bool, true, false, Option, none, some, List, [], ◌∷◌, ◌++◌, ◌≡◌, refl, sym,
  ◌∙◌, ap, inl, inr, ◌⊎◌, arith, ==_refl, nat_eq, string_eq, any, filter, count, Bool-cases,
}
use atlasarb.Payments.Db.{Favorite}
use atlasarb.Access.{Limit, Entitlements, can_add_favorite, favorite_cap, below_cap}
use atlasarb.Access.Favorites.{
  of_kind, is_favorite, favorite_count, favorite_exists, add_favorite, remove_favorite,
  FavoriteOutcome, add_allowed, toggle_with,
}

exists-remove :
    (uid : ℕ) (kind value : String) (fs : List Favorite)
    → favorite_exists uid kind value (remove_favorite uid kind value fs) ≡ false
unfolding favorite_exists remove_favorite any filter
exists-remove uid kind value [] = refl
exists-remove uid kind value (f ∷ fs) = ground (arith, exists-remove uid kind value fs)

remove_absent :
    (uid : ℕ) (kind value : String) (fs : List Favorite)
    → favorite_exists uid kind value fs ≡ false
    → remove_favorite uid kind value fs ≡ fs
unfolding favorite_exists remove_favorite any filter
remove_absent uid kind value [] h = refl
remove_absent uid kind value (f ∷ fs) h = ground (arith, remove_absent uid kind value fs)

remove-append :
    (uid : ℕ) (kind value : String) (fs : List Favorite)
    → favorite_exists uid kind value fs ≡ false
    → remove_favorite uid kind value
        (fs ++ record { user_id = uid; kind = kind; value = value; frozen = false } ∷ [])
      ≡ fs
unfolding favorite_exists remove_favorite any filter
remove-append uid kind value [] h =
    unfold is_favorite of_kind in ground (arith, ==_refl kind, ==_refl value, ==_refl uid)
remove-append uid kind value (f ∷ fs) h = ground (arith, remove-append uid kind value fs)

exists-append :
    (uid : ℕ) (kind value : String) (fs : List Favorite)
    → favorite_exists uid kind value
        (fs ++ record { user_id = uid; kind = kind; value = value; frozen = false } ∷ [])
      ≡ true
unfolding favorite_exists any
exists-append uid kind value [] =
    unfold is_favorite of_kind in ground (arith, ==_refl kind, ==_refl value, ==_refl uid)
exists-append uid kind value (f ∷ fs) = ground (arith, exists-append uid kind value fs)

count-append :
    (uid : ℕ) (kind value : String) (fs : List Favorite)
    → favorite_count uid kind false
        (fs ++ record { user_id = uid; kind = kind; value = value; frozen = false } ∷ [])
      ≡ favorite_count uid kind false fs + 1
unfolding favorite_count count
count-append uid kind value [] = unfold of_kind in ground (arith, ==_refl kind, ==_refl uid)
count-append uid kind value (f ∷ fs) = ground (arith, count-append uid kind value fs)

count-remove :
    (uid : ℕ) (kind value : String) (fs : List Favorite)
    → favorite_count uid kind false (remove_favorite uid kind value fs)
      ≤ favorite_count uid kind false fs
unfolding favorite_count remove_favorite count filter
count-remove uid kind value [] = omega arith
count-remove uid kind value (f ∷ fs) = ground (arith, count-remove uid kind value fs)

-- The three ends of a toggle: added within the cap, removed, or refused with nothing changed.
abbrev pub Toggled :
    Limit → ℕ → String → String → List Favorite → FavoriteOutcome × List Favorite → Type 0
Toggled cap uid kind value fs r =
    ((r.0 ≡ record { ok = true; added = true; cap_reached = false; kind = kind })
      × (favorite_exists uid kind value fs ≡ false)
      × (favorite_exists uid kind value r.1 ≡ true)
      × (remove_favorite uid kind value r.1 ≡ fs)
      × (below_cap cap (favorite_count uid kind false fs) ≡ true)
      × (favorite_count uid kind false r.1 ≡ favorite_count uid kind false fs + 1))
    ⊎ ((r.0 ≡ record { ok = true; added = false; cap_reached = false; kind = kind })
        × (favorite_exists uid kind value fs ≡ true)
        × (favorite_exists uid kind value r.1 ≡ false)
        × (favorite_count uid kind false r.1 ≤ favorite_count uid kind false fs))
    ⊎ ((r.0 ≡ record { ok = false; added = false; cap_reached = true; kind = kind })
        × (favorite_exists uid kind value fs ≡ false)
        × (below_cap cap (favorite_count uid kind false fs) ≡ false)
        × (r.1 ≡ fs))

add_absent :
    (uid : ℕ) (kind value : String) (fs : List Favorite)
    → favorite_exists uid kind value fs ≡ false
    → add_favorite uid kind value fs
      ≡ fs ++ record { user_id = uid; kind = kind; value = value; frozen = false } ∷ []
unfolding add_favorite
add_absent uid kind value fs h = rw h refl

allowed-Toggled :
    (cap : Limit) (uid : ℕ) (kind value : String) (fs : List Favorite) (room : Bool)
    → favorite_exists uid kind value fs ≡ false
    → below_cap cap (favorite_count uid kind false fs) ≡ room
    → (r : FavoriteOutcome × List Favorite) × (add_allowed (some room) uid kind value fs ≡ some r)
      × Toggled cap uid kind value fs r
unfolding add_allowed
allowed-Toggled cap uid kind value fs false absent full =
    (_, refl, inr (inr (refl, absent, full, refl)))
allowed-Toggled cap uid kind value fs true absent room =
    let e = add_absent uid kind value fs absent in
    (
      _,
      refl,
      inl (
        refl,
        absent,
        ap (favorite_exists uid kind value) e ∙ exists-append uid kind value fs,
        ap (remove_favorite uid kind value) e ∙ remove-append uid kind value fs absent,
        room,
        ap (favorite_count uid kind false) e ∙ count-append uid kind value fs,
      ),
    )

can_add_known :
    (ent : Entitlements) (kind : String) (n : ℕ) (cap : Limit)
    → favorite_cap ent kind ≡ some cap
    → can_add_favorite ent kind n ≡ some (below_cap cap n)
unfolding can_add_favorite
can_add_known ent kind n cap known = rw (can_add_favorite, known) refl

toggle_there :
    (ent : Entitlements) (uid : ℕ) (kind value : String) (fs : List Favorite)
    → favorite_exists uid kind value fs ≡ true
    → toggle_with ent uid kind value fs
      ≡ some (
        record { ok = true; added = false; cap_reached = false; kind = kind },
        remove_favorite uid kind value fs,
      )
unfolding toggle_with
toggle_there ent uid kind value fs there = rw there refl

toggle_absent :
    (ent : Entitlements) (uid : ℕ) (kind value : String) (fs : List Favorite)
    → favorite_exists uid kind value fs ≡ false
    → toggle_with ent uid kind value fs
      ≡ add_allowed (can_add_favorite ent kind (favorite_count uid kind false fs)) uid kind value fs
unfolding toggle_with
toggle_absent ent uid kind value fs absent = rw absent refl

added_after :
    (room : Option Bool) (uid : ℕ) (kind value : String) (fs after : List Favorite)
    (outcome : FavoriteOutcome)
    → add_allowed room uid kind value fs ≡ some (outcome, after)
    → outcome.added ≡ true
    → add_favorite uid kind value fs ≡ after
unfolding add_allowed
added_after none uid kind value fs after outcome done added = absurd (ground arith)
added_after (some false) uid kind value fs after outcome done added = absurd (ground arith)
added_after (some true) uid kind value fs after outcome done added = ground arith

-- For a kind that the plan has a cap for, a toggle ends in exactly one of three ways. It removes a
-- favourite that was there, and the user's active favourites of the kind do not become more. It
-- adds one that was not there, if their number was below the cap, and they are one more; removing
-- it again gives back the list as it was. Or it reports that the cap is reached and changes nothing.
pub toggle-Toggled :
    (ent : Entitlements) (uid : ℕ) (kind value : String) (fs : List Favorite) (limit : Limit)
    → favorite_cap ent kind ≡ some limit
    → (r : FavoriteOutcome × List Favorite) × (toggle_with ent uid kind value fs ≡ some r)
      × Toggled limit uid kind value fs r
toggle-Toggled ent uid kind value fs limit known =
    elim (Bool-cases (favorite_exists uid kind value fs)) [
      | inl there ↦ (
        _,
        toggle_there ent uid kind value fs there,
        inr (inl (refl, there, exists-remove uid kind value fs, count-remove uid kind value fs)),
      )
      | inr absent ↦
          let (r, ran, t) = allowed-Toggled limit uid kind value fs _ absent refl in
          (
            r,
            toggle_absent ent uid kind value fs absent
                ∙ ap (λ room. add_allowed room uid kind value fs)
                    (can_add_known ent kind (favorite_count uid kind false fs) limit known)
                ∙ ran,
            t,
          )
    ]

-- A favourite that is added where it was missing is removed by the next toggle, whatever the
-- user's plan is by then, and the list of favourites is what it was before.
pub toggle_twice :
    (ent ent' : Entitlements) (uid : ℕ) (kind value : String) (fs after : List Favorite)
    (outcome : FavoriteOutcome)
    → favorite_exists uid kind value fs ≡ false
    → toggle_with ent uid kind value fs ≡ some (outcome, after)
    → outcome.added ≡ true
    → toggle_with ent' uid kind value after
      ≡ some (record { ok = true; added = false; cap_reached = false; kind = kind }, fs)
toggle_twice ent ent' uid kind value fs after outcome absent done added =
    let put =
      sym (add_absent uid kind value fs absent)
      ∙ added_after (can_add_favorite ent kind (favorite_count uid kind false fs)) uid kind value fs
          after outcome (sym (toggle_absent ent uid kind value fs absent) ∙ done) added in
    toggle_there ent' uid kind value after
      (ap (favorite_exists uid kind value) (sym put) ∙ exists-append uid kind value fs)
    ∙ ap (λ l. some (record { ok = true; added = false; cap_reached = false; kind = kind }, l))
        (ap (remove_favorite uid kind value) (sym put) ∙ remove-append uid kind value fs absent)
