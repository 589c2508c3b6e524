-- ===== src/Admin/Backed.antt =====
-- Where the jobs of src/services/admin_service.py come from: who wrote each for whom, and who confirmed it.
use atlasarb.Prelude.{
  ℕ, zero, suc, String, Bool, Option, none, some, List, [], ◌∷◌, ◌++◌, ◌≡◌, refl, ap, subst, inl,
  inr, ◌⊎◌, arith, nat_eq, string_eq, length, length-append, All, Bool-cases,
}
use atlasarb.Users.{UserProfile}
use atlasarb.Admin.{Job, get_job, set_job, has_confirmed, add_confirmation, resolve_recipients}
use atlasarb.Admin.TwoPerson.{BroadcastOp, written, confirmed, handed_out}

-- The target of a broadcast, and the users when it was written.
pub record Draft : Type 0 where
  pub users : List UserProfile
  pub kind : String
  pub value : Option String

-- The broadcasts that were written, in order.
abbrev pub drafts : List BroadcastOp → List Draft
drafts [] = []
drafts (written us admin_id kind value body template support ∷ os) =
    record { users = us; kind = kind; value = value } ∷ drafts os
drafts (confirmed id admin_id ∷ os) = drafts os
drafts (handed_out us id ∷ os) = drafts os

abbrev pub draft_at : ℕ → List Draft → Option Draft
draft_at n [] = none
draft_at zero (d ∷ ds) = some d
draft_at (suc n) (d ∷ ds) = draft_at n ds

-- The administrator confirmed the broadcast with this id.
abbrev pub Confirmed : ℕ → ℕ → List BroadcastOp → Type 0
Confirmed id a [] = ⊥
Confirmed id a (o ∷ os) = (o ≡ confirmed id a) ⊎ Confirmed id a os

-- The job is of the broadcast that was written at its place, counts the recipients of then, and lists only
-- administrators that confirmed it.
pub record IsBacked (dev : Bool) (os : List BroadcastOp) (id : ℕ) (job : Job) : Type 0 where
  pub origin : Draft
  pub placed : draft_at id (drafts os) ≡ some origin
  pub same_kind : job.target_type ≡ origin.kind
  pub same_value : job.target_value ≡ origin.value
  pub counted :
      job.recipients ≡ length (resolve_recipients dev origin.kind origin.value origin.users)
  pub by_admins : All (λ a. Confirmed id a os) job.confirmations

-- Every job is backed by the operations so far.
pub record AllBacked (dev : Bool) (os : List BroadcastOp) (js : List Job) : Type 0 where
  pub as_many : length (drafts os) ≡ length js
  pub backed : (id : ℕ) (job : Job) → get_job id js ≡ some job → IsBacked dev os id job

pub drafts-append :
    (os : List BroadcastOp) (o : BroadcastOp) → drafts (os ++ o ∷ []) ≡ drafts os ++ drafts (o ∷ [])
drafts-append [] o = refl
drafts-append (written us a kind value body template support ∷ os) o = rw (drafts-append os o)
drafts-append (confirmed id a ∷ os) o = drafts-append os o
drafts-append (handed_out us id ∷ os) o = drafts-append os o

draft_at-append :
    (n : ℕ) (ds es : List Draft) (d : Draft)
    → draft_at n ds ≡ some d
    → draft_at n (ds ++ es) ≡ some d
draft_at-append n [] es d h = absurd (cc)
draft_at-append zero (x ∷ ds) es d h = h
draft_at-append (suc n) (x ∷ ds) es d h = draft_at-append n ds es d h

pub draft_at-length : (ds : List Draft) (d : Draft) → draft_at (length ds) (ds ++ d ∷ []) ≡ some d
draft_at-length [] d = refl
draft_at-length (x ∷ ds) d = draft_at-length ds d

Confirmed-append :
    (id a : ℕ) (os : List BroadcastOp) (o : BroadcastOp)
    → Confirmed id a os
    → Confirmed id a (os ++ o ∷ [])
Confirmed-append id a [] o h = absurd h
Confirmed-append id a (x ∷ os) o (inl e) = inl e
Confirmed-append id a (x ∷ os) o (inr h) = inr (Confirmed-append id a os o h)

Confirmed-last : (id a : ℕ) (os : List BroadcastOp) → Confirmed id a (os ++ confirmed id a ∷ [])
Confirmed-last id a [] = inl refl
Confirmed-last id a (x ∷ os) = inr (Confirmed-last id a os)

All-Confirmed :
    (id : ℕ) (as' : List ℕ) (os : List BroadcastOp) (o : BroadcastOp)
    → All (λ a. Confirmed id a os) as'
    → All (λ a. Confirmed id a (os ++ o ∷ [])) as'
All-Confirmed id [] os o h = tt
All-Confirmed id (a ∷ as') os o (first, rest) =
    (Confirmed-append id a os o first, All-Confirmed id as' os o rest)

All-snoc : (P : ℕ → Type 0) (xs : List ℕ) (x : ℕ) → All P xs → P x → All P (xs ++ x ∷ [])
All-snoc P [] x h p = (p, tt)
All-snoc P (y ∷ xs) x (first, rest) p = (first, All-snoc P xs x rest p)

pub get_job-append :
    (id : ℕ) (js : List Job) (new job : Job)
    → get_job id (js ++ new ∷ []) ≡ some job
    → (get_job id js ≡ some job) ⊎ (id ≡ length js) × (new ≡ job)
unfolding get_job
get_job-append zero [] new job h = inr (refl, cc)
get_job-append (suc id) [] new job h = absurd (cc)
get_job-append zero (j ∷ js) new job h = inl h
get_job-append (suc id) (j ∷ js) new job h = elim (get_job-append id js new job h) [
  | inl old ↦ inl old
  | inr (last, same) ↦ inr (rw last refl, same)
]

get_job-set_job :
    (id i : ℕ) (new : Job) (js : List Job) (job : Job)
    → get_job id (set_job i new js) ≡ some job
    → (get_job id js ≡ some job) ⊎ (i ≡ id) × (new ≡ job)
unfolding get_job set_job
get_job-set_job id i new [] job h = inl h
get_job-set_job zero zero new (j ∷ js) job h = inr (refl, cc)
get_job-set_job (suc id) zero new (j ∷ js) job h = inl h
get_job-set_job zero (suc i) new (j ∷ js) job h = inl h
get_job-set_job (suc id) (suc i) new (j ∷ js) job h = elim (get_job-set_job id i new js job h) [
  | inl old ↦ inl old
  | inr (own, same) ↦ inr (rw own refl, same)
]

length-set_job : (i : ℕ) (new : Job) (js : List Job) → length (set_job i new js) ≡ length js
unfolding set_job
length-set_job i new [] = refl
length-set_job zero new (j ∷ js) = refl
length-set_job (suc i) new (j ∷ js) = rw (length-set_job i new js)

pub IsBacked-append :
    (dev : Bool) (os : List BroadcastOp) (o : BroadcastOp) (id : ℕ) (job : Job)
    → IsBacked dev os id job
    → IsBacked dev (os ++ o ∷ []) id job
IsBacked-append dev os o id job b = record {
  origin = b.origin;
  placed =
      rw (drafts-append os o) (draft_at-append id (drafts os) (drafts (o ∷ [])) b.origin b.placed);
  same_kind = b.same_kind;
  same_value = b.same_value;
  counted = b.counted;
  by_admins = All-Confirmed id job.confirmations os o b.by_admins;
}

pub add_confirmation-IsBacked :
    (dev : Bool) (os : List BroadcastOp) (id a : ℕ) (job : Job)
    → IsBacked dev os id job
    → IsBacked dev (os ++ confirmed id a ∷ []) id (add_confirmation a job)
unfolding add_confirmation
add_confirmation-IsBacked dev os id a job b =
    let b' = IsBacked-append dev os (confirmed id a) id job b in
    elim (Bool-cases (has_confirmed a job.confirmations)) [
      | inl known ↦ rw known b'
      | inr new ↦ rw new (record {
        origin = b'.origin;
        placed = b'.placed;
        same_kind = b'.same_kind;
        same_value = b'.same_value;
        counted = b'.counted;
        by_admins =
            All-snoc (λ x. Confirmed id x (os ++ confirmed id a ∷ [])) job.confirmations a
              b'.by_admins (Confirmed-last id a os);
      })
    ]

-- the same jobs, or one row written over that stays backed
pub kept-AllBacked :
    (dev : Bool) (os : List BroadcastOp) (o : BroadcastOp) (js : List Job)
    → drafts (o ∷ []) ≡ []
    → AllBacked dev os js
    → AllBacked dev (os ++ o ∷ []) js
kept-AllBacked dev os o js none_written all = record {
  as_many = omega (
    arith,
    all.as_many,
    ap length (drafts-append os o),
    length-append (drafts os) (drafts (o ∷ [])),
    ap length none_written,
  );
  backed = λ id job found. IsBacked-append dev os o id job (all.backed id job found);
}

pub set_job-AllBacked :
    (dev : Bool) (os : List BroadcastOp) (i : ℕ) (new : Job) (js : List Job)
    → AllBacked dev os js
    → IsBacked dev os i new
    → AllBacked dev os (set_job i new js)
set_job-AllBacked dev os i new js all b = record {
  as_many = omega (arith, all.as_many, length-set_job i new js);
  backed = λ id job found. elim (get_job-set_job id i new js job found) [
    | inl old ↦ all.backed id job old
    | inr (own, same) ↦ subst (λ k. IsBacked dev os k job) own (subst (IsBacked dev os i) same b)
  ];
}
