-- ===== src/Admin/Resends.antt =====
-- What a confirmation does to a broadcast that is already sent: src/services/admin_service.py.
use atlasarb.Prelude.{
  ℕ, zero, suc, ◌≤◌, Bool, true, some, List, [], ◌∷◌, ◌≡◌, refl, ap, ◌∙◌, inl, inr, arith, length,
  length-append, leb, le→leb, Bool-cases,
}
use atlasarb.Users.{UserProfile}
use atlasarb.Admin.{
  approved, Job, get_job, set_job, has_confirmed, add_confirmation, required, confirm_job,
  confirm_found, confirm_broadcast, recipients_found, recipients_for, resolve_recipients,
}

get-set_job :
    (n : ℕ) (job old : Job) (js : List Job)
    → get_job n js ≡ some old
    → get_job n (set_job n job js) ≡ some job
unfolding get_job set_job
get-set_job n job old [] h = absurd (ground arith)
get-set_job zero job old (j ∷ js) h = refl
get-set_job (suc n) job old (j ∷ js) h = get-set_job n job old js h

add_confirmation_more :
    (a : ℕ) (job : Job) → length job.confirmations ≤ length (add_confirmation a job).confirmations
unfolding add_confirmation
add_confirmation_more a job = elim (Bool-cases (has_confirmed a job.confirmations)) [
  | inl known ↦ rw known (omega arith)
  | inr new ↦ rw new (omega (arith, length-append job.confirmations (a ∷ [])))
]

add_confirmation_same :
    (a : ℕ) (job : Job)
    → (required (add_confirmation a job) ≡ required job)
      × ((add_confirmation a job).target_type ≡ job.target_type)
      × ((add_confirmation a job).target_value ≡ job.target_value)
unfolding add_confirmation required
add_confirmation_same a job = elim (Bool-cases (has_confirmed a job.confirmations)) [
  | inl known ↦ rw known (refl, refl, refl)
  | inr new ↦ rw new (refl, refl, refl)
]

-- A broadcast with enough confirmations, whether approved or already sent: when an administrator
-- confirms it again, the same one or another, it is reported as ready and is approved again, and
-- handing it out gives all its recipients once more.
pub confirm_sent_again :
    (dev : Bool) (us : List UserProfile) (id admin_id : ℕ) (js : List Job) (job : Job)
    → get_job id js ≡ some job
    → required job ≤ length job.confirmations
    → let again = confirm_broadcast id admin_id js in
      (again.0 ≡ true)
      × ((recipients_for dev us id again.1).0
          ≡ resolve_recipients dev job.target_type job.target_value us)
unfolding confirm_broadcast confirm_found confirm_job recipients_for recipients_found
confirm_sent_again dev us id admin_id js job found enough =
    let job' = add_confirmation admin_id job in
    let (need, kind, value) = add_confirmation_same admin_id job in
    let ready : leb (required job') (length job'.confirmations) ≡ true =
      le→leb _ _ (omega (arith, need, add_confirmation_more admin_id job, enough)) in
    let kept = get-set_job id (record job' { status = approved }) job js found in
    rw (confirm_broadcast, found)
      (rw ready (
        refl,
        rw (recipients_for, kept)
            (ap (λ k. resolve_recipients dev k job'.target_value us) kind
              ∙ ap (λ v. resolve_recipients dev job.target_type v us) value),
      ))
