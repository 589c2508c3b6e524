-- ===== src/Rpc/Choice.antt =====
-- Which endpoints the pool of src/scanner/adapters/rpc_pool.py offers for a call: each healthy one once,
-- the primaries first, or else the one that recovers soonest.
use mathlib.Core.List.{Perm, Mem, mem-cons_self, mem-cons_of_mem, append-nil}
use mathlib.Core.List.Perm
use atlasarb.Prelude.{
  ℕ, zero, suc, ◌≤◌, String, Bool, true, false, List, [], ◌∷◌, ◌++◌, map, ◌≡◌, ◌≢◌, ◌⊎◌, inl, inr,
  refl, sym, subst, arith, ==_iff, nat_eq, filter, All, Bool-cases,
}
use atlasarb.Rpc.{Floats, Provider, PoolConfig, RpcPool, healthy}
use atlasarb.Rpc.Rotation.{
  rotated, sooner, soonest, usable, probe, insert, sort, before, best_latency, ranked, chosen,
  offered,
}

module _ {F : Type 0} where
  -- No primary stands behind a fallback.
  abbrev pub TierSorted : List (Provider F) → Type 0
  TierSorted [] = Unit
  TierSorted (p ∷ ps) = All (λ q. p.tier ≤ q.tier) ps × TierSorted ps

  -- An order of the sort that never puts a higher tier before a lower one.
  abbrev RespectsTier : (Provider F → Provider F → Bool) → Type 0
  RespectsTier earlier =
      ((p q : Provider F) → earlier p q ≡ true → p.tier ≤ q.tier)
      × ((p q : Provider F) → earlier p q ≡ false → q.tier ≤ p.tier)

  All-insert :
      (n : Floats F) (earlier : Provider F → Provider F → Bool) (P : Provider F → Type 0)
      (p : Provider F) (qs : List (Provider F))
      → P p
      → All P qs
      → All P (insert n earlier p qs)
  unfolding insert
  All-insert n earlier P p [] hp hq = (hp, tt)
  All-insert n earlier P p (q ∷ qs) hp hq = elim (Bool-cases (earlier q p)) [
    | inl e ↦ rw e (hq.0, All-insert n earlier P p qs hp hq.1)
    | inr e ↦ rw e (hp, hq)
  ]

  All-le :
      (a b : ℕ) (qs : List (Provider F))
      → a ≤ b
      → All (λ q. b ≤ q.tier) qs
      → All (λ q. a ≤ q.tier) qs
  All-le a b [] h hq = tt
  All-le a b (q ∷ qs) h hq = (omega (arith, hq.0), All-le a b qs h hq.1)

  insert-TierSorted :
      (n : Floats F) (earlier : Provider F → Provider F → Bool)
      → RespectsTier earlier
      → (p : Provider F) (qs : List (Provider F)) → TierSorted qs
      → TierSorted (insert n earlier p qs)
  unfolding insert
  insert-TierSorted n earlier ok p [] s = (tt, tt)
  insert-TierSorted n earlier ok p (q ∷ qs) s = elim (Bool-cases (earlier q p)) [
    | inl e ↦ rw e (
      All-insert n earlier (λ r. q.tier ≤ r.tier) p qs (ok.0 q p e) s.0,
      insert-TierSorted n earlier ok p qs s.1,
    )
    | inr e ↦ rw e ((ok.1 q p e, All-le p.tier q.tier qs (ok.1 q p e) s.0), s)
  ]

  sort-TierSorted :
      (n : Floats F) (earlier : Provider F → Provider F → Bool)
      → RespectsTier earlier
      → (ps : List (Provider F)) → TierSorted (sort n earlier ps)
  unfolding sort
  sort-TierSorted n earlier ok [] = tt
  sort-TierSorted n earlier ok (p ∷ ps) =
      insert-TierSorted n earlier ok p (sort n earlier ps) (sort-TierSorted n earlier ok ps)

  insert-Perm :
      (n : Floats F) (earlier : Provider F → Provider F → Bool) (p : Provider F)
      (qs : List (Provider F))
      → Perm (insert n earlier p qs) (p ∷ qs)
  unfolding insert
  insert-Perm n earlier p [] = Perm.rfl
  insert-Perm n earlier p (q ∷ qs) = elim (Bool-cases (earlier q p)) [
    | inl e ↦ rw e (Perm.trans (Perm.cons q (insert-Perm n earlier p qs)) (Perm.swap p q qs))
    | inr e ↦ rw e Perm.rfl
  ]

  sort-Perm :
      (n : Floats F) (earlier : Provider F → Provider F → Bool) (ps : List (Provider F))
      → Perm (sort n earlier ps) ps
  unfolding sort
  sort-Perm n earlier [] = Perm.rfl
  sort-Perm n earlier (p ∷ ps) =
      Perm.trans (insert-Perm n earlier p (sort n earlier ps))
        (Perm.cons p (sort-Perm n earlier ps))

  filter-append :
      (f : Provider F → Bool) (ps qs : List (Provider F))
      → filter f (ps ++ qs) ≡ filter f ps ++ filter f qs
  unfolding filter
  filter-append f [] qs = refl
  filter-append f (p ∷ ps) qs = ground (arith, filter-append f ps qs)

  last-Perm : (p : Provider F) (ps : List (Provider F)) → Perm (ps ++ p ∷ []) (p ∷ ps)
  last-Perm p [] = Perm.rfl
  last-Perm p (q ∷ ps) = Perm.trans (Perm.cons q (last-Perm p ps)) (Perm.swap p q ps)

  filter-last :
      (f : Provider F → Bool) (p : Provider F) (ps : List (Provider F))
      → Perm (filter f (ps ++ p ∷ [])) (filter f (p ∷ ps))
  unfolding filter
  filter-last f p ps = rw (filter-append f ps (p ∷ [])) (elim (Bool-cases (f p)) [
    | inl e ↦ rw e (last-Perm p (filter f ps))
    | inr e ↦ rw (e, append-nil (filter f ps)) Perm.rfl
  ])

  filter-rotated :
      (f : Provider F → Bool) (k : ℕ) (ps : List (Provider F))
      → Perm (filter f (rotated k ps)) (filter f ps)
  unfolding rotated
  filter-rotated f zero ps = Perm.rfl
  filter-rotated f (suc k) [] = Perm.rfl
  filter-rotated f (suc k) (p ∷ ps) =
      Perm.trans (filter-rotated f k (ps ++ p ∷ [])) (filter-last f p ps)

  sooner-le : (q p : Provider F) → sooner q p ≡ true → q.disabled_until ≤ p.disabled_until
  unfolding sooner
  sooner-le q p h = ground (arith, ==_iff q.disabled_until p.disabled_until)

  later-le : (q p : Provider F) → sooner q p ≡ false → p.disabled_until ≤ q.disabled_until
  unfolding sooner
  later-le q p h = ground arith

  soonest-first :
      (p q : Provider F) (ps : List (Provider F))
      → sooner q p ≡ true
      → soonest p (q ∷ ps) ≡ soonest q ps
  unfolding soonest
  soonest-first p q ps e = rw e refl

  soonest-kept :
      (p q : Provider F) (ps : List (Provider F))
      → sooner q p ≡ false
      → soonest p (q ∷ ps) ≡ soonest p ps
  unfolding soonest
  soonest-kept p q ps e = rw e refl

  -- No provider of the list recovers sooner than this one.
  abbrev IsLeast : Provider F → List (Provider F) → Type 0
  IsLeast r ps = All (λ q. r.disabled_until ≤ q.disabled_until) ps

  soonest-IsLeast : (p : Provider F) (ps : List (Provider F)) → IsLeast (soonest p ps) (p ∷ ps)
  unfolding soonest
  soonest-IsLeast p [] = (omega arith, tt)
  soonest-IsLeast p (q ∷ ps) = elim (Bool-cases (sooner q p)) [
    | inl e ↦
        let (first, rest) = soonest-IsLeast q ps in
        subst (λ r. IsLeast r (p ∷ q ∷ ps)) (sym (soonest-first p q ps e))
          (omega (arith, first, sooner-le q p e), (first, rest))
    | inr e ↦
        let (first, rest) = soonest-IsLeast p ps in
        subst (λ r. IsLeast r (p ∷ q ∷ ps)) (sym (soonest-kept p q ps e))
          (first, (omega (arith, first, later-le q p e), rest))
  ]

  soonest-Mem :
      (p : Provider F) (ps : List (Provider F)) → (soonest p ps ≡ p) ⊎ Mem (soonest p ps) ps
  unfolding soonest
  soonest-Mem p [] = inl refl
  soonest-Mem p (q ∷ ps) = elim (Bool-cases (sooner q p)) [
    | inl e ↦
        rw (e, soonest)
          (inr (elim (soonest-Mem q ps) [
            | inl own ↦ subst (λ r. Mem r (q ∷ ps)) (sym own) mem-cons_self
            | inr m ↦ mem-cons_of_mem q m
          ]))
    | inr e ↦
        rw (e, soonest)
          (elim (soonest-Mem p ps) [ inl own ↦ inl own | inr m ↦ inr (mem-cons_of_mem q m) ])
  ]

  -- What the pool may offer: the healthy ones in order of their tiers, or the one that recovers soonest
  -- when none is healthy, or nothing when each is retired.
  abbrev pub Offers : ℕ → List (Provider F) → List String → Type 0
  Offers now ps urls =
      (filter (healthy now) ps ≢ [])
        × ((qs : List (Provider F)) × (urls ≡ map (λ q. q.url) qs)
            × Perm qs (filter (healthy now) ps)
            × TierSorted qs)
      ⊎ (filter (healthy now) ps ≡ [])
        × ((p : Provider F) × (urls ≡ p.url ∷ [])
            × Mem p (usable ps)
            × All (λ q. p.disabled_until ≤ q.disabled_until) (usable ps))
      ⊎ (usable ps ≡ []) × (urls ≡ [])

  found_in : (p : Provider F) (ps : List (Provider F)) → Mem (soonest p ps) (p ∷ ps)
  found_in p ps = elim (soonest-Mem p ps) [
    | inl own ↦ subst (λ r. Mem r (p ∷ ps)) (sym own) mem-cons_self
    | inr m ↦ mem-cons_of_mem p m
  ]

  cons_nil : {p : Provider F} {ps : List (Provider F)} → ¬ (p ∷ ps ≡ [])
  cons_nil e = absurd cc

  Perm-nil : {ps qs : List (Provider F)} → Perm ps qs → qs ≡ [] → ps ≡ []
  Perm-nil h e = Perm.eq-nil (rw e at h)

module _ {F : Type 0} (n : Floats F) where
  before-RespectsTier : (now : ℕ) (best slow : F) → RespectsTier (before n now best slow)
  unfolding before
  before-RespectsTier now best slow =
      (λ p q h. ground (arith, ==_iff p.tier q.tier), λ p q h. ground arith)

  ranked-Sorted :
      (now : ℕ) (c : PoolConfig F) (ps : List (Provider F))
      → Perm (ranked n now c ps) ps × TierSorted (ranked n now c ps)
  unfolding ranked
  ranked-Sorted now c ps = (
    sort-Perm n (before n now (best_latency n ps) c.slow_latency_ms) ps,
    sort-TierSorted n (before n now (best_latency n ps) c.slow_latency_ms)
        (before-RespectsTier now (best_latency n ps) c.slow_latency_ms) ps,
  )

  probe-Offers :
      (now : ℕ) (ps us : List (Provider F))
      → usable ps ≡ us
      → filter (healthy now) ps ≡ []
      → Offers now ps (probe us)
  unfolding probe
  probe-Offers now ps [] e none_healthy = inr (inr (e, refl))
  probe-Offers now ps (p ∷ us) e none_healthy =
      inr (
        inl (none_healthy, (soonest p us, refl, rw e (found_in p us), rw e (soonest-IsLeast p us))))

  chosen-Offers :
      (now : ℕ) (pool : RpcPool F) (hs : List (Provider F))
      → Perm hs (filter (healthy now) pool.providers)
      → Offers now pool.providers (chosen n now pool hs)
  unfolding chosen
  chosen-Offers now pool [] same =
      probe-Offers now pool.providers (usable pool.providers) refl (Perm-nil (Perm.symm same) refl)
  chosen-Offers now pool (p ∷ ps) same =
      let (among, sorted) = ranked-Sorted now pool.settings (p ∷ ps) in
      inl (
        λ empty. cons_nil (Perm-nil same empty),
        (ranked n now pool.settings (p ∷ ps), refl, Perm.trans among same, sorted),
      )

  -- The pool offers each healthy endpoint exactly once, the primaries before the fallbacks. When none is
  -- healthy it offers the one that recovers soonest of those not retired, and nothing only when each is.
  pub offered-Offers : (now : ℕ) (pool : RpcPool F) → Offers now pool.providers (offered n now pool)
  unfolding offered
  offered-Offers now pool =
      chosen-Offers now pool (filter (healthy now) (rotated pool.cursor pool.providers))
        (filter-rotated (healthy now) pool.cursor pool.providers)
