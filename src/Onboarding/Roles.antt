-- ===== src/Onboarding/Roles.antt =====
-- The roles that src/services/user_service.py gives.
use atlasarb.Prelude.{
  ℕ, String, false, Option, none, some, ◌≡◌, refl, sym, ap, ◌∙◌, inl, inr, arith, if◌then◌else◌,
  ◌==◌, ==_iff, nat_eq, string_eq, Bool-cases,
}
use atlasarb.Prelude.Dict
use atlasarb.Prelude.Dict.{get-put, get-put_self}
use atlasarb.Users.{UserProfile, UserRole, role_eq, is_staff}
use atlasarb.Payments.Repo.{saved_profile}
use atlasarb.Onboarding.{
  AllowLists, UserTable, allowlist_role, row_or_new, new_user, refresh_identity, register,
  save_over_row, save_user, enforced_role, apply_role, touch,
}

-- Who is on a list has its role; who is on none has no staff role.
abbrev pub Follows : Option UserRole → UserProfile → Type 0
Follows none u = is_staff u ≡ false
Follows (some r) u = u.role ≡ r

-- Every row stands under its user's id.
abbrev pub IsKeyed : UserTable → Type 0
IsKeyed users = (k : ℕ) (u : UserProfile) → Dict.get k users ≡ some u → u.telegram_user_id ≡ k

row_id :
    (now uid : ℕ) (username first_name : Option String) (o : Option UserProfile)
    → ((u : UserProfile) → o ≡ some u → u.telegram_user_id ≡ uid)
    → (refresh_identity username first_name
        (row_or_new now uid username first_name o)).telegram_user_id
      ≡ uid
unfolding row_or_new refresh_identity new_user
row_id now uid username first_name none keyed = refl
row_id now uid username first_name (some u) keyed = keyed u refl

saved_same :
    (u : UserProfile) (r : UserRole)
    → saved_profile u (record u { role = r }) ≡ record u { role = r }
unfolding saved_profile
saved_same u r = refl

-- Applying a role stores what it returns, and touches one row.
get-apply_role :
    (o : Option UserRole) (u : UserProfile) (users : UserTable) (k : ℕ)
    → Dict.get u.telegram_user_id users ≡ some u
    → Dict.get k (apply_role o u users).1
      ≡ (if u.telegram_user_id == k then some (apply_role o u users).0 else Dict.get k users)
unfolding apply_role save_user save_over_row
get-apply_role none u users k found = elim (Bool-cases (u.telegram_user_id == k)) [
  | inl own ↦
      rw own (ap (λ i. Dict.get i users) (sym ((==_iff u.telegram_user_id k).0 own)) ∙ found)
  | inr other ↦ rw other refl
]
get-apply_role (some r) u users k found =
    rw (save_user, found)
      (get-put u.telegram_user_id k (saved_profile u (record u { role = r })) users
        ∙ ap (λ v. if u.telegram_user_id == k then some v else Dict.get k users) (saved_same u r))

enforced_role-Follows :
    (a : Option UserRole) (u : UserProfile) (users : UserTable)
    → Follows a (apply_role (enforced_role a u) u users).0
unfolding enforced_role apply_role
enforced_role-Follows none u users = elim (Bool-cases (is_staff u)) [
  | inl staff ↦ rw staff (ground arith)
  | inr plain ↦ rw plain plain
]
enforced_role-Follows (some r) u users = elim (Bool-cases (u.role == r)) [
  | inl same ↦ rw same ((==_iff u.role r).0 same)
  | inr other ↦ rw other refl
]

only_row :
    (i uid k : ℕ)
    → i ≡ uid
    → (x row : UserProfile) (users : UserTable)
    → (if i == k then some x else Dict.get k (Dict.put uid row users))
      ≡ (if uid == k then some x else Dict.get k users)
only_row i uid k e x row users = rw e (elim (Bool-cases (uid == k)) [
  | inl own ↦ rw own refl
  | inr other ↦ rw other (rw (get-put uid k row users, other) refl)
])

-- Where every row stands under its user's id: after a user is touched, known before or not, the user
-- has the role of the allow-list that names the user, administrators first, and no staff role if
-- none does; the profile that is returned is the one that is stored; and no other user's row has
-- changed.
pub touch-Follows :
    (a : AllowLists) (now uid : ℕ) (username first_name : Option String) (users : UserTable) (k : ℕ)
    → IsKeyed users
    → Follows (allowlist_role a uid) (touch a now uid username first_name users).0
      × (Dict.get k (touch a now uid username first_name users).1 ≡ (
          if uid == k
          then some (touch a now uid username first_name users).0
          else Dict.get k users))
unfolding touch register
touch-Follows a now uid username first_name users k keyed =
    let row =
      refresh_identity username first_name
        (row_or_new now uid username first_name (Dict.get uid users)) in
    let users' = Dict.put uid row users in
    let id : row.telegram_user_id ≡ uid =
      row_id now uid username first_name (Dict.get uid users) (keyed uid) in
    let found : Dict.get row.telegram_user_id users' ≡ some row =
      ap (λ i. Dict.get i users') id ∙ get-put_self uid row users in
    (
      enforced_role-Follows (allowlist_role a uid) row users',
      get-apply_role (enforced_role (allowlist_role a uid) row) row users' k found
          ∙ only_row row.telegram_user_id uid k id _ row users,
    )
