-- ===== src/Scanner/Cache/Coherence.antt =====
-- What holds of the cache of src/scanner/cache/market_state_cache.py at any time, with the lemmas on its sets
-- and on the index of venues by pair.
use atlasarb.Prelude.{
  ℕ, ◌+◌, ◌≤◌, String, true, false, ◌||◌, none, some, List, [], ◌∷◌, ◌++◌, ◌≡◌, inl, inr, refl,
  subst, arith, if◌then◌else◌, Eq, ◌==◌, ==_iff, ==_refl, nat_eq, string_eq, pair_eq, ltb, length,
  Bool-cases, Option-cases,
}
use atlasarb.Prelude.Dict
use atlasarb.Prelude.Dict.{Dict, get-put, get-pop}
use atlasarb.Scanner.Numbers.{Numbers}
use atlasarb.Scanner.Cache.{
  OrderBook, CacheConfig, Slot, Cache, member, add_member, discard, get_or, is_crossed,
  is_empty_side, venues_for_pair,
}
use atlasarb.Scanner.Cache.Writes.{enlist, unlist, warmed}

module _ {ℓ} {A : Type ℓ} ⦃e : Eq A⦄ where
  member-append :
      (u x : A) (s : List A) → member u (s ++ x ∷ []) ≡ (if x == u then true else member u s)
  unfolding member
  member-append u x [] = refl
  member-append u x (y ∷ s) = ground (arith, member-append u x s)

  pub member-add_member :
      (u x : A) (s : List A) → member u (add_member x s) ≡ (if x == u then true else member u s)
  unfolding add_member
  member-add_member u x s = elim (Bool-cases (member x s)) [
    | inl old ↦ rw old (ground (arith, ==_iff x u))
    | inr new ↦ rw new (member-append u x s)
  ]

  pub member-discard :
      (u x : A) (s : List A) → member u (discard x s) ≡ (if x == u then false else member u s)
  unfolding member discard
  member-discard u x [] = ground arith
  member-discard u x (y ∷ s) =
      ground (arith, member-discard u x s, ==_iff x u, ==_iff y x, ==_iff y u)

  empty-member : (u : A) (s : List A) → length s ≡ 0 → member u s ≡ false
  unfolding member
  empty-member u [] h = refl
  empty-member u (x ∷ s) h = absurd (omega arith)

module _ {ℓ κ} {K : Type ℓ} {V : Type κ} ⦃e : Eq K⦄ where
  pub get_or-put :
      (v w : V) (k j : K) (m : Dict K V)
      → get_or v j (Dict.put k w m) ≡ (if k == j then w else get_or v j m)
  unfolding get_or
  get_or-put v w k j m = elim (Bool-cases (k == j)) [
    | inl own ↦ rw (get_or, get-put k j w m, own) refl
    | inr other ↦ rw (get_or, get-put k j w m, other) refl
  ]

  pub get_or-pop :
      (v : V) (k j : K) (m : Dict K V)
      → get_or v j (Dict.pop k m) ≡ (if k == j then v else get_or v j m)
  unfolding get_or
  get_or-pop v k j m = elim (Bool-cases (k == j)) [
    | inl own ↦ rw (get_or, get-pop k j m, own) refl
    | inr other ↦ rw (get_or, get-pop k j m, other) refl
  ]

module _ {ℓ κ} {K : Type ℓ} {V : Type κ} ⦃e : Eq K⦄ where
  pub get_or_found : (v w : V) (k : K) (m : Dict K V) → Dict.get k m ≡ some w → get_or v k m ≡ w
  unfolding get_or
  get_or_found v w k m found = rw (get_or, found) refl

  pub get_or_absent : (v : V) (k : K) (m : Dict K V) → Dict.get k m ≡ none → get_or v k m ≡ v
  unfolding get_or
  get_or_absent v k m absent = rw (get_or, absent) refl

pub member-enlist :
    (u v p q : String) (index : Dict String (List String))
    → member u (get_or [] q (enlist v p index)) ≡ (
        if p == q
        then (if v == u then true else member u (get_or [] q index))
        else member u (get_or [] q index))
unfolding enlist
member-enlist u v p q index = elim (Bool-cases (p == q)) [
  | inl own ↦
      rw
        (
          get_or-put [] (add_member v (get_or [] p index)) p q index,
          own,
          member-add_member u v (get_or [] p index),
          (==_iff p q).0 own,
        )
        refl
  | inr other ↦ rw (get_or-put [] (add_member v (get_or [] p index)) p q index, other) refl
]

unlist_found :
    (v p : String) (venues : List String) (index : Dict String (List String))
    → Dict.get p index ≡ some venues
    → unlist v p index ≡ (
        if length (discard v venues) == 0
        then Dict.pop p index
        else Dict.put p (discard v venues) index)
unfolding unlist
unlist_found v p venues index found = rw (unlist, found) refl

unlist_absent :
    (v p : String) (index : Dict String (List String))
    → Dict.get p index ≡ none
    → unlist v p index ≡ index
unfolding unlist
unlist_absent v p index absent = rw (unlist, absent) refl

-- the venues of the pair that is taken off, and of another one
unlist_own :
    (u v p : String) (index : Dict String (List String))
    → member u (get_or [] p (unlist v p index))
      ≡ (if v == u then false else member u (get_or [] p index))
unlist_own u v p index = elim (Option-cases (Dict.get p index)) [
  | inl absent ↦
      rw (unlist_absent v p index absent, get_or_absent [] p index absent)
        (ground (arith, empty-member u [] refl))
  | inr (venues, found) ↦ elim (Bool-cases (length (discard v venues) == 0)) [
    | inl gone ↦
        rw
          (
            unlist_found v p venues index found,
            gone,
            get_or-pop [] p p index,
            ==_refl p,
            get_or_found [] venues p index found,
          )
          (ground (
            arith,
            member-discard u v venues,
            empty-member u [] refl,
            empty-member u (discard v venues) ((==_iff (length (discard v venues)) 0).0 gone),
          ))
    | inr left ↦
        rw
          (
            unlist_found v p venues index found,
            left,
            get_or-put [] (discard v venues) p p index,
            ==_refl p,
            get_or_found [] venues p index found,
          )
          (member-discard u v venues)
  ]
]

unlist_other :
    (v p q : String) (index : Dict String (List String))
    → (p == q) ≡ false
    → get_or [] q (unlist v p index) ≡ get_or [] q index
unlist_other v p q index other = elim (Option-cases (Dict.get p index)) [
  | inl absent ↦ rw (unlist_absent v p index absent) refl
  | inr (venues, found) ↦ elim (Bool-cases (length (discard v venues) == 0)) [
    | inl gone ↦ rw (unlist_found v p venues index found, gone, get_or-pop [] p q index, other) refl
    | inr left ↦
        rw
          (
            unlist_found v p venues index found,
            left,
            get_or-put [] (discard v venues) p q index,
            other,
          )
          refl
  ]
]

pub member-unlist :
    (u v p q : String) (index : Dict String (List String))
    → member u (get_or [] q (unlist v p index)) ≡ (
        if p == q
        then (if v == u then false else member u (get_or [] q index))
        else member u (get_or [] q index))
member-unlist u v p q index = elim (Bool-cases (p == q)) [
  | inl own ↦ rw own (
      subst
        (λ r.
          member u (get_or [] r (unlist v p index))
          ≡ (if v == u then false else member u (get_or [] r index)))
        ((==_iff p q).0 own) (unlist_own u v p index))
  | inr other ↦ rw (unlist_other v p q index other, other) refl
]

-- Each price and book is of a tracked slot, the index lists exactly the venues with a price or a book of the
-- pair, no stored book is crossed or has an empty side, and no counter of samples passes its end.
pub record IsCoherent {D F : Type 0} (n : Numbers D F) (c : CacheConfig F) (s : Cache D)
    : Type 0 where
  pub price_tracked : (k : Slot) → Dict.has k s.prices ≡ true → member k s.tracked ≡ true
  pub book_tracked : (k : Slot) → Dict.has k s.books ≡ true → member k s.tracked ≡ true
  pub indexed :
      (v p : String)
      → member v (venues_for_pair p s) ≡ Dict.has (v, p) s.prices || Dict.has (v, p) s.books
  pub sound :
      (k : Slot) (b : OrderBook D)
      → Dict.get k s.books ≡ some b
      → (is_crossed n b ≡ false) × (is_empty_side n b ≡ false)
  pub counted : (k : Slot) → get_or 0 k s.warmup ≤ c.warmup_samples

pub warmed-le :
    {F : Type 0} (c : CacheConfig F) (k j : Slot) (m : Dict Slot ℕ)
    → get_or 0 j m ≤ c.warmup_samples
    → get_or 0 j (warmed c k m) ≤ c.warmup_samples
unfolding warmed
warmed-le c k j m h = elim (Bool-cases (ltb (get_or 0 k m) c.warmup_samples)) [
  | inl room ↦ rw (room, get_or-put 0 (get_or 0 k m + 1) k j m) (ground arith)
  | inr full ↦ rw full h
]
