-- ===== src/Admin.antt =====
-- Broadcasts by administrators: src/services/admin_service.py over BroadcastRepository of
-- src/database/repositories/misc_repos.py. The position of a job in the list is its id.
use atlasarb.Prelude.{
  ℕ, zero, suc, ◌+◌, String, Bool, true, false, not, ◌&&◌, ◌||◌, Option, none, some, List, [], ◌∷◌,
  ◌++◌, if◌then◌else◌, ◌==◌, nat_eq, string_eq, any, filter, length, leb, nat_beq,
}
use atlasarb.Users.{
  UserProfile, SubscriptionTier, free_tier, pro_tier, Language, en, ru, effective_tier,
  onboarding_complete,
}
pub mod TwoPerson
pub mod Backed
pub mod Handed
pub mod Resends
pub mod Examples

-- The column's texts: "draft", "approved", "sent".
pub data JobStatus : Type 0 where
  draft approved sent : JobStatus

-- A row of `broadcast_jobs`; the buttons and the schedule are never written.
pub record Job : Type 0 where
  pub admin_id : ℕ
  pub target_type : String
  pub target_value : Option String
  pub body : String
  pub is_template : Bool
  pub status : JobStatus
  pub recipients : ℕ
  pub confirmations : List ℕ

abbrev pub large_broadcast_threshold : ℕ
large_broadcast_threshold = 10000

abbrev pub tier_value : SubscriptionTier → String
tier_value free_tier = "free"
tier_value pro_tier = "pro_lifetime"

abbrev pub language_value : Language → String
language_value en = "en"
language_value ru = "ru"

-- `get`
unfoldable pub get_job : ℕ → List Job → Option Job
get_job n [] = none
get_job zero (j ∷ js) = some j
get_job (suc n) (j ∷ js) = get_job n js

-- a write to the row that was read
unfoldable pub set_job : ℕ → Job → List Job → List Job
set_job n job [] = []
set_job zero job (j ∷ js) = job ∷ js
set_job (suc n) job (j ∷ js) = j ∷ set_job n job js

unfoldable pub has_confirmed : ℕ → List ℕ → Bool
unfolding any
has_confirmed admin_id confirmations = any (λ a. a == admin_id) confirmations

unfoldable pub add_confirmation : ℕ → Job → Job
unfolding has_confirmed
add_confirmation admin_id job =
    if has_confirmed admin_id job.confirmations
    then job
    else record job { confirmations = job.confirmations ++ admin_id ∷ [] }

unfoldable pub ids_of_users : List UserProfile → List ℕ
ids_of_users [] = []
ids_of_users (u ∷ us) = u.telegram_user_id ∷ ids_of_users us

-- `alert_candidates` of user_repo.py: onboarded and not suspended
unfoldable pub alert_candidates : List UserProfile → List UserProfile
unfolding filter onboarding_complete
alert_candidates us = filter (λ u. onboarding_complete u && not u.suspended) us

-- a target's value that is missing or empty selects as if there were none
unfoldable pub selects : Bool → String → Option String → UserProfile → Bool
unfolding effective_tier
selects dev kind none u = true
selects dev kind (some value) u =
    if value == ""
    then true
    else if kind == "tier"
    then tier_value (effective_tier dev u) == value
    else if kind == "language"
    then language_value u.settings.language == value
    else true

unfoldable pub resolve_recipients : Bool → String → Option String → List UserProfile → List ℕ
unfolding ids_of_users alert_candidates selects filter
resolve_recipients dev kind value us =
    ids_of_users (filter (selects dev kind value) (alert_candidates us))

unfoldable pub needs_second : String → ℕ → Bool
needs_second kind recipients = (kind == "all") && leb large_broadcast_threshold recipients

-- the new job's id, its recipients, and whether a second administrator is asked for
unfoldable pub create_broadcast :
    Bool
    → List UserProfile
    → ℕ
    → String
    → Option String
    → String
    → Bool
    → Bool
    → List Job
    → (ℕ × ℕ × Bool) × List Job
unfolding resolve_recipients needs_second
create_broadcast dev users admin_id kind value body is_template is_support jobs =
    let recipients = length (resolve_recipients dev kind value users) in
    let job : Job = record {
      admin_id = admin_id;
      target_type = kind;
      target_value = value;
      body = body;
      is_template = is_template;
      status = draft;
      recipients = recipients;
      confirmations = [];
    } in
    ((length jobs, recipients, needs_second kind recipients && not is_support), jobs ++ job ∷ [])

-- how many confirmations a job needs
unfoldable pub required : Job → ℕ
unfolding needs_second
required job = if needs_second job.target_type job.recipients then 2 else 1

unfoldable pub confirm_job : ℕ → ℕ → List Job → Job → Bool × List Job
unfolding set_job required
confirm_job id admin_id jobs job =
    if leb (required job) (length job.confirmations)
    then (true, set_job id (record job { status = approved }) jobs)
    else (false, set_job id job jobs)

unfoldable pub confirm_found : ℕ → ℕ → List Job → Option Job → Bool × List Job
unfolding confirm_job add_confirmation
confirm_found id admin_id jobs none = (false, jobs)
confirm_found id admin_id jobs (some job) =
    confirm_job id admin_id jobs (add_confirmation admin_id job)

unfoldable pub confirm_broadcast : ℕ → ℕ → List Job → Bool × List Job
unfolding confirm_found get_job
confirm_broadcast id admin_id jobs = confirm_found id admin_id jobs (get_job id jobs)

abbrev pub is_approved : JobStatus → Bool
is_approved draft = false
is_approved approved = true
is_approved sent = false

unfoldable pub recipients_found :
    Bool → List UserProfile → ℕ → List Job → Option Job → List ℕ × List Job
unfolding set_job resolve_recipients
recipients_found dev users id jobs none = ([], jobs)
recipients_found dev users id jobs (some job) =
    if is_approved job.status
    then (
      resolve_recipients dev job.target_type job.target_value users,
      set_job id (record job { status = sent }) jobs,
    )
    else ([], jobs)

unfoldable pub recipients_for : Bool → List UserProfile → ℕ → List Job → List ℕ × List Job
unfolding recipients_found get_job
recipients_for dev users id jobs = recipients_found dev users id jobs (get_job id jobs)
