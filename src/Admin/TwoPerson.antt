-- ===== src/Admin/TwoPerson.antt =====
-- Runs of broadcasts in src/services/admin_service.py: no administrator is counted twice, and no job leaves the
-- draft without the confirmations that it asks for.
use atlasarb.Prelude.{
  ℕ, zero, suc, ◌≤◌, String, Bool, true, false, ◌||◌, Option, some, List, [], ◌∷◌, ◌++◌, ◌≡◌, refl,
  subst, inl, inr, ◌⊎◌, arith, ◌==◌, ==_iff, nat_eq, any, length, length-append, leb, leb→le, All,
  Bool-cases, Option-cases,
}
use atlasarb.Users.{UserProfile}
use atlasarb.Admin.{
  JobStatus, draft, approved, sent, Job, get_job, set_job, has_confirmed, add_confirmation,
  create_broadcast, required, confirm_job, confirm_found, confirm_broadcast, is_approved,
  recipients_found, recipients_for,
}

-- No administrator is listed twice.
abbrev pub Distinct : List ℕ → Type 0
Distinct [] = Unit {0}
Distinct (a ∷ others) = (has_confirmed a others ≡ false) × Distinct others

-- A job was confirmed by distinct administrators, and by enough of them once it is not a draft.
pub record IsSound (job : Job) : Type 0 where
  pub distinct : Distinct job.confirmations
  pub enough : (job.status ≡ draft) ⊎ (required job ≤ length job.confirmations)

has_confirmed-append :
    (a b : ℕ) (xs : List ℕ) → has_confirmed a (xs ++ b ∷ []) ≡ has_confirmed a xs || b == a
unfolding has_confirmed any
has_confirmed-append a b [] = ground arith
has_confirmed-append a b (x ∷ xs) = ground (arith, has_confirmed-append a b xs)

Distinct-append :
    (a : ℕ) (xs : List ℕ) → has_confirmed a xs ≡ false → Distinct xs → Distinct (xs ++ a ∷ [])
unfolding has_confirmed any
Distinct-append a [] new d = (refl, tt)
Distinct-append a (x ∷ xs) new (fresh, d) = (
  ground (arith, has_confirmed-append x a xs, ==_iff x a, ==_iff a x),
  Distinct-append a xs (ground arith) d,
)

add_confirmation-IsSound : (a : ℕ) (job : Job) → IsSound job → IsSound (add_confirmation a job)
unfolding add_confirmation required
add_confirmation-IsSound a job s = elim (Bool-cases (has_confirmed a job.confirmations)) [
  | inl known ↦ rw known s
  | inr new ↦ rw new (record {
    distinct = Distinct-append a job.confirmations new s.distinct;
    enough = elim s.enough [
      | inl still ↦ inl still
      | inr many ↦ inr (omega (arith, many, length-append job.confirmations (a ∷ [])))
    ];
  })
]

All-set_job :
    (n : ℕ) (job : Job) (js : List Job)
    → IsSound job
    → All IsSound js
    → All IsSound (set_job n job js)
unfolding set_job
All-set_job n job [] s all = tt
All-set_job zero job (j ∷ js) s (_, rest) = (s, rest)
All-set_job (suc n) job (j ∷ js) s (first, rest) = (first, All-set_job n job js s rest)

pub All-get_job :
    (n : ℕ) (js : List Job) (job : Job) → get_job n js ≡ some job → All IsSound js → IsSound job
unfolding get_job
All-get_job n [] job found all = absurd (ground arith)
All-get_job zero (j ∷ js) job found (s, _) = (let e : j ≡ job = cc in subst IsSound e s)
All-get_job (suc n) (j ∷ js) job found (_, rest) = All-get_job n js job found rest

All-append_job :
    (js : List Job) (job : Job) → All IsSound js → IsSound job → All IsSound (js ++ job ∷ [])
All-append_job [] job all s = (s, tt)
All-append_job (j ∷ js) job (first, rest) s = (first, All-append_job js job rest s)

confirm_job-All :
    (id a : ℕ) (js : List Job) (job : Job)
    → IsSound job
    → All IsSound js
    → All IsSound (confirm_job id a js job).1
unfolding confirm_job
confirm_job-All id a js job s all =
    elim (Bool-cases (leb (required job) (length job.confirmations))) [
      | inl ready ↦ rw ready (
          All-set_job id (record job { status = approved }) js
            (record { distinct = s.distinct; enough = inr (unfold required in leb→le _ _ ready) })
            all)
      | inr waits ↦ rw waits (All-set_job id job js s all)
    ]

confirm_broadcast-All :
    (id a : ℕ) (js : List Job) → All IsSound js → All IsSound (confirm_broadcast id a js).1
unfolding confirm_broadcast confirm_found
confirm_broadcast-All id a js all = elim (Option-cases (get_job id js)) [
  | inl absent ↦ rw (confirm_broadcast, absent) all
  | inr (job, found) ↦
      rw (confirm_broadcast, found)
        (confirm_job-All id a js (add_confirmation a job)
          (add_confirmation-IsSound a job (All-get_job id js job found all)) all)
]

recipients_for-All :
    (dev : Bool) (us : List UserProfile) (id : ℕ) (js : List Job)
    → All IsSound js
    → All IsSound (recipients_for dev us id js).1
unfolding recipients_for recipients_found
recipients_for-All dev us id js all = elim (Option-cases (get_job id js)) [
  | inl absent ↦ rw (recipients_for, absent) all
  | inr (job, found) ↦
      rw (recipients_for, found)
        (elim (Bool-cases (is_approved job.status)) [
          | inr other ↦ rw other all
          | inl ready ↦
              let s = All-get_job id js job found all in
              rw ready (
                All-set_job id (record job { status = sent }) js
                  (record {
                    distinct = s.distinct;
                    enough = elim s.enough [
                      | inl still ↦ absurd (ground (arith, rw still at ready))
                      | inr many ↦ inr (unfold required in many)
                    ];
                  })
                  all)
        ])
]

pub is_approved_eq : (s : JobStatus) → is_approved s ≡ true → s ≡ approved
is_approved_eq draft h = cc
is_approved_eq approved h = refl
is_approved_eq sent h = cc

-- What administrators do: write a broadcast, confirm one, have one handed out for sending.
pub data BroadcastOp : Type 0 where
  written : List UserProfile → ℕ → String → Option String → String → Bool → Bool → BroadcastOp
  confirmed : ℕ → ℕ → BroadcastOp
  handed_out : List UserProfile → ℕ → BroadcastOp

unfoldable pub broadcast_step : Bool → BroadcastOp → List Job → List Job
unfolding create_broadcast confirm_broadcast recipients_for
broadcast_step dev (written us admin_id kind value body template support) js =
    (create_broadcast dev us admin_id kind value body template support js).1
broadcast_step dev (confirmed id admin_id) js = (confirm_broadcast id admin_id js).1
broadcast_step dev (handed_out us id) js = (recipients_for dev us id js).1

unfoldable pub broadcast_run : Bool → List BroadcastOp → List Job → List Job
unfolding broadcast_step
broadcast_run dev [] js = js
broadcast_run dev (o ∷ os) js = broadcast_run dev os (broadcast_step dev o js)

broadcast_step-All :
    (dev : Bool) (o : BroadcastOp) (js : List Job)
    → All IsSound js
    → All IsSound (broadcast_step dev o js)
unfolding broadcast_step create_broadcast
broadcast_step-All dev (written us admin_id kind value body template support) js all =
    All-append_job js _ all (record { distinct = tt; enough = inl refl })
broadcast_step-All dev (confirmed id admin_id) js all = confirm_broadcast-All id admin_id js all
broadcast_step-All dev (handed_out us id) js all = recipients_for-All dev us id js all

pub broadcast_run-All :
    (dev : Bool) (os : List BroadcastOp) (js : List Job)
    → All IsSound js
    → All IsSound (broadcast_run dev os js)
unfolding broadcast_run
broadcast_run-All dev [] js all = all
broadcast_run-All dev (o ∷ os) js all = broadcast_run-All dev os _ (broadcast_step-All dev o js all)
