-- ===== src/Admin/Handed.antt =====
-- What stands behind a broadcast that src/services/admin_service.py hands out.
use atlasarb.Prelude.{
  ℕ, ◌≤◌, String, Bool, ◌&&◌, Option, some, List, [], ◌∷◌, ◌++◌, ◌≡◌, refl, ap, subst, inl, inr,
  ◌⊎◌, arith, if◌then◌else◌, ◌==◌, nat_eq, string_eq, length, length-append, leb, All, Bool-cases,
  Option-cases,
}
use mathlib.Core.List.{append-nil}
use atlasarb.Users.{UserProfile}
use atlasarb.Admin.{
  draft, approved, sent, Job, get_job, add_confirmation, create_broadcast, needs_second, required,
  confirm_job, confirm_found, confirm_broadcast, is_approved, recipients_found, recipients_for,
  resolve_recipients,
}
use atlasarb.Admin.TwoPerson.{
  Distinct, IsSound, All-get_job, BroadcastOp, written, confirmed, handed_out, broadcast_step,
  broadcast_run, broadcast_run-All,
}
use atlasarb.Admin.Backed.{
  Draft, drafts, draft_at, Confirmed, IsBacked, AllBacked, drafts-append, draft_at-length,
  get_job-append, IsBacked-append, add_confirmation-IsBacked, kept-AllBacked, set_job-AllBacked,
}

written-AllBacked :
    (dev : Bool) (os : List BroadcastOp) (us : List UserProfile) (admin_id : ℕ) (kind : String)
    (value : Option String) (body : String) (template support : Bool) (js : List Job)
    → AllBacked dev os js
    → AllBacked dev
        (os ++ written us admin_id kind value body template support ∷ [])
        (create_broadcast dev us admin_id kind value body template support js).1
unfolding create_broadcast
written-AllBacked dev os us admin_id kind value body template support js all =
    let o = written us admin_id kind value body template support in
    let d : Draft = record { users = us; kind = kind; value = value } in
    let new : Job = record {
      admin_id = admin_id;
      target_type = kind;
      target_value = value;
      body = body;
      is_template = template;
      status = draft;
      recipients = length (resolve_recipients dev kind value us);
      confirmations = [];
    } in
    record {
      as_many = omega (
        arith,
        all.as_many,
        ap length (drafts-append os o),
        length-append (drafts os) (d ∷ []),
        length-append js (new ∷ []),
      );
      backed = λ id job found. elim (get_job-append id js new job found) [
        | inl old ↦ IsBacked-append dev os o id job (all.backed id job old)
        | inr (last, same) ↦ subst (IsBacked dev (os ++ o ∷ []) id) same (record {
          origin = d;
          placed = rw (drafts-append os o, last, ← all.as_many) (draft_at-length (drafts os) d);
          same_kind = refl;
          same_value = refl;
          counted = refl;
          by_admins = tt;
        })
      ];
    }

confirmed-AllBacked :
    (dev : Bool) (os : List BroadcastOp) (id a : ℕ) (js : List Job)
    → AllBacked dev os js
    → AllBacked dev (os ++ confirmed id a ∷ []) (confirm_broadcast id a js).1
unfolding confirm_broadcast confirm_found confirm_job
confirmed-AllBacked dev os id a js all =
    let all' = kept-AllBacked dev os (confirmed id a) js refl all in
    elim (Option-cases (get_job id js)) [
      | inl absent ↦ rw (confirm_broadcast, absent) all'
      | inr (job, found) ↦
          let job' = add_confirmation a job in
          let b = add_confirmation-IsBacked dev os id a job (all.backed id job found) in
          elim (Bool-cases (leb (required job') (length job'.confirmations))) [
            | inr waits ↦
                rw (confirm_broadcast, found)
                  (rw waits (set_job-AllBacked dev (os ++ confirmed id a ∷ []) id job' js all' b))
            | inl ready ↦
                rw (confirm_broadcast, found)
                  (rw ready (
                    set_job-AllBacked dev (os ++ confirmed id a ∷ []) id
                      (record job' { status = approved }) js all'
                      (record {
                        origin = b.origin;
                        placed = b.placed;
                        same_kind = b.same_kind;
                        same_value = b.same_value;
                        counted = b.counted;
                        by_admins = b.by_admins;
                      })))
          ]
    ]

handed_out-AllBacked :
    (dev : Bool) (os : List BroadcastOp) (us : List UserProfile) (id : ℕ) (js : List Job)
    → AllBacked dev os js
    → AllBacked dev (os ++ handed_out us id ∷ []) (recipients_for dev us id js).1
unfolding recipients_for recipients_found
handed_out-AllBacked dev os us id js all =
    let all' = kept-AllBacked dev os (handed_out us id) js refl all in
    elim (Option-cases (get_job id js)) [
      | inl absent ↦ rw (recipients_for, absent) all'
      | inr (job, found) ↦ elim (Bool-cases (is_approved job.status)) [
        | inr other ↦ rw (recipients_for, found) (rw other all')
        | inl ready ↦
            let b = all'.backed id job found in
            rw (recipients_for, found)
              (rw ready (
                set_job-AllBacked dev (os ++ handed_out us id ∷ []) id
                  (record job { status = sent }) js all'
                  (record {
                    origin = b.origin;
                    placed = b.placed;
                    same_kind = b.same_kind;
                    same_value = b.same_value;
                    counted = b.counted;
                    by_admins = b.by_admins;
                  })))
      ]
    ]

step-AllBacked :
    (dev : Bool) (os : List BroadcastOp) (o : BroadcastOp) (js : List Job)
    → AllBacked dev os js
    → AllBacked dev (os ++ o ∷ []) (broadcast_step dev o js)
unfolding broadcast_step
step-AllBacked dev os (written us admin_id kind value body template support) js all =
    written-AllBacked dev os us admin_id kind value body template support js all
step-AllBacked dev os (confirmed id a) js all = confirmed-AllBacked dev os id a js all
step-AllBacked dev os (handed_out us id) js all = handed_out-AllBacked dev os us id js all

append_one :
    (xs : List BroadcastOp) (o : BroadcastOp) (ys : List BroadcastOp)
    → (xs ++ o ∷ []) ++ ys ≡ xs ++ o ∷ ys
append_one [] o ys = refl
append_one (x ∷ xs) o ys = rw (append_one xs o ys)

run-AllBacked :
    (dev : Bool) (past os : List BroadcastOp) (js : List Job)
    → AllBacked dev past js
    → AllBacked dev (past ++ os) (broadcast_run dev os js)
unfolding broadcast_run
run-AllBacked dev past [] js all = rw (append-nil past) all
run-AllBacked dev past (o ∷ os) js all =
    subst (λ h. AllBacked dev h (broadcast_run dev os (broadcast_step dev o js)))
      (append_one past o os)
      (run-AllBacked dev (past ++ o ∷ []) os (broadcast_step dev o js)
        (step-AllBacked dev past o js all))

-- What a broadcast that is handed out has behind it: it was written at its place in the run; distinct
-- administrators, at least one, or two if it was for all and counted 10000 recipients or more among the users
-- of then, each confirmed it in the run.
abbrev pub IsAuthorised : Bool → List BroadcastOp → ℕ → Draft → Type 0
IsAuthorised dev os id d =
    (admins : List ℕ) × (draft_at id (drafts os) ≡ some d)
    × Distinct admins
    × All (λ a. Confirmed id a os) admins
    × ((if (d.kind == "all") && leb 10000 (length (resolve_recipients dev d.kind d.value d.users))
          then 2
          else 1)
        ≤ length admins)

required_drafted :
    (dev : Bool) (os : List BroadcastOp) (id : ℕ) (job : Job) (b : IsBacked dev os id job)
    → let d = b.origin in
      required job ≡ (
        if (d.kind == "all") && leb 10000 (length (resolve_recipients dev d.kind d.value d.users))
        then 2
        else 1)
unfolding required needs_second
required_drafted dev os id job b = rw (b.same_kind, b.counted) refl

-- After any run of writing, confirming and handing out broadcasts, from no broadcasts on, handing one out
-- yields no recipients, or those that its target selects among the users of now. In that case it was
-- written in the run, for that target, and was confirmed in the run by at least one administrator, or
-- by two different ones where it goes to all and its target selected 10000 recipients or more of the
-- users when it was written, whoever wrote it.
pub broadcast_two_person :
    (dev dev' : Bool) (os : List BroadcastOp) (us : List UserProfile) (id : ℕ)
    → let handed = (recipients_for dev' us id (broadcast_run dev os [])).0 in
      (handed ≡ [])
      ⊎ (d : Draft) × (handed ≡ resolve_recipients dev' d.kind d.value us)
        × IsAuthorised dev os id d
unfolding recipients_for recipients_found
broadcast_two_person dev dev' os us id =
    let js = broadcast_run dev os [] in
    let sound : All IsSound js = broadcast_run-All dev os [] tt in
    let all : AllBacked dev os js =
      run-AllBacked dev [] os []
        (record { as_many = refl; backed = λ i job found. absurd (unfold get_job in cc) }) in
    elim (Option-cases (get_job id js)) [
      | inl absent ↦ inl (rw (recipients_for, absent) refl)
      | inr (job, found) ↦ elim (Bool-cases (is_approved job.status)) [
        | inr other ↦ inl (rw (recipients_for, found) (rw other refl))
        | inl ready ↦
            let s = All-get_job id js job found sound in
            let b = all.backed id job found in
            inr (
              b.origin,
              rw (recipients_for, found) (rw ready (rw (b.same_kind, b.same_value) refl)),
              (
                job.confirmations,
                b.placed,
                s.distinct,
                b.by_admins,
                elim s.enough [
                  | inl still ↦ absurd (ground (arith, rw still at ready))
                  | inr many ↦
                      subst (λ k. k ≤ length job.confirmations) (required_drafted dev os id job b)
                        many
                ],
              ),
            )
      ]
    ]
