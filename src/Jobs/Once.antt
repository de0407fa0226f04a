-- ===== src/Jobs/Once.antt =====
-- src/redline/service/store.py: no release job is claimed twice, whatever the order of the operations.
use mathlib.Core.Bool.{false≢true}
use playbook_redline.Base.{
  String, ◌≡◌, ◌≢◌, sym, ap, ◌∙◌, inl, inr, subst, Bool, true, false, ◌||◌, Option, none, some,
  some-inj, List, [], ◌∷◌, ◌++◌, any, All, eq_iff, Bool-cases, if-true, if-false, arith,
}
use playbook_redline.Base.Quantifiers.{All-map}
use playbook_redline.Canonical.{Fields}
use playbook_redline.Jobs.{
  ReleaseJobStatus, queued, ReleaseJob, has_job_id, insert_job, start_job, claim_next_release_job,
  recover_job, recover_interrupted_release_jobs, cancel_job, cancel_release_job, mark_job,
  mark_release_job_status,
}
use playbook_redline.Jobs.Claims.{
  waits, Taken, map-Taken, start_job-Tame, recover_job-Tame, cancel_job-Tame, mark_job-Tame,
  claim_parts, claim-Taken,
}

-- The tables of a service, with the ids of the jobs that were claimed, the latest first. A new row
-- is queued, and no caller sets the status of a row to queued.
pub data History : List String → List ReleaseJob → Type 0 where
  opened : History [] []
  inserted :
      {claims : List String} {table next : List ReleaseJob}
      → History claims table
      → (job : ReleaseJob) → insert_job job table ≡ some next
      → History claims next
  claimed :
      {claims : List String} {table next : List ReleaseJob}
      → History claims table
      → (now : String) (job : ReleaseJob) → claim_next_release_job now table ≡ (next, some job)
      → History (job.job_id ∷ claims) next
  recovered :
      {claims : List String} {table : List ReleaseJob}
      → History claims table
      → (now : String) → History claims (recover_interrupted_release_jobs now table)
  stopped :
      {claims : List String} {table : List ReleaseJob}
      → History claims table
      → (now release_id job_id : String)
      → History claims (cancel_release_job now release_id job_id table).0
  marked :
      {claims : List String} {table : List ReleaseJob}
      → History claims table
      → (now job_id : String) (status : ReleaseJobStatus) (result : Option Fields)
        (error_code error_message : Option String)
      → status ≢ queued
      → History claims
          (mark_release_job_status now job_id status result error_code error_message table)

any_append :
    (p : ReleaseJob → Bool) (table : List ReleaseJob) (job : ReleaseJob)
    → any p (table ++ job ∷ []) ≡ any p table || p job
any_append p [] job = ground arith
any_append p (x ∷ table) job = ground (arith, any_append p table job)

other_job :
    (job : ReleaseJob) (table : List ReleaseJob) (id : String)
    → any (has_job_id id) table ≡ true
    → any (has_job_id job.job_id) table ≡ false
    → has_job_id id job ≡ false
other_job job table id h n = elim (Bool-cases (has_job_id id job)) [
  | inr out ↦ out
  | inl found ↦
      let same : job.job_id ≡ id = (eq_iff job.job_id id).0 found in
      absurd (false≢true (sym n ∙ ap (λ (x : String). any (has_job_id x) table) same ∙ h))
]

insert-Taken :
    (job : ReleaseJob) (table next : List ReleaseJob) (id : String)
    → insert_job job table ≡ some next
    → Taken table id
    → Taken next id
unfolding insert_job Taken waits
insert-Taken job table next id e (h, w) = elim (Bool-cases (any (has_job_id job.job_id) table)) [
  | inl y ↦
      let bad : ◌≡◌ {A = Option (List ReleaseJob)} none (some next) =
        sym (if-true (any (has_job_id job.job_id) table) none _ y) ∙ e in
      cc
  | inr n ↦
      let q : table ++ job ∷ [] ≡ next =
        some-inj (table ++ job ∷ []) next
          (sym (if-false (any (has_job_id job.job_id) table) none _ n) ∙ e) in
      let other = other_job job table id h n in
      subst (λ (t : List ReleaseJob). Taken t id) q
        ((
          any_append (has_job_id id) table job ∙ ground arith,
          any_append (waits id) table job ∙ ground (arith, other),
        ))
]

-- No id occurs twice.
abbrev pub NoRepeat : List String → Type 0
NoRepeat [] = Unit
NoRepeat (id ∷ ids) = All (λ (other : String). other ≢ id) ids × NoRepeat ids

History-Taken :
    {claims : List String} {table : List ReleaseJob}
    → History claims table
    → All (Taken table) claims
unfolding recover_interrupted_release_jobs cancel_release_job mark_release_job_status
History-Taken opened = tt
History-Taken (inserted {claims} {table} {next} h job e) =
    All-map (λ id t. insert-Taken job table next id e t) claims (History-Taken h)
History-Taken (claimed {claims} {table} {next} h now job e) = (
  (claim-Taken now table next job e).1,
  All-map
      (λ id t.
        subst (λ (x : List ReleaseJob). Taken x id) (sym (claim_parts now table next job e).1)
          (map-Taken (start_job now job.job_id) (start_job-Tame now job.job_id) table id t))
      claims (History-Taken h),
)
History-Taken (recovered {claims} {table} h now) =
    All-map (λ id t. map-Taken (recover_job now) (recover_job-Tame now) table id t) claims
      (History-Taken h)
History-Taken (stopped {claims} {table} h now release_id job_id) =
    All-map
      (λ id t.
        map-Taken (cancel_job now release_id job_id) (cancel_job-Tame now release_id job_id) table
          id t)
      claims (History-Taken h)
History-Taken (marked {claims} {table} h now job_id status result error_code error_message n) =
    All-map
      (λ id t.
        map-Taken (mark_job now job_id status result error_code error_message)
          (mark_job-Tame now job_id status result error_code error_message n) table id t)
      claims (History-Taken h)

-- Whatever the order of inserts, claims, recoveries, cancellations and status updates that do not
-- set a job to queued, no job is claimed twice.
pub History-NoRepeat :
    {claims : List String} {table : List ReleaseJob} → History claims table → NoRepeat claims
unfolding Taken
History-NoRepeat opened = tt
History-NoRepeat (inserted h job e) = History-NoRepeat h
History-NoRepeat (claimed {claims} {table} {next} h now job e) = (
  All-map
      (λ id t same. false≢true (
        sym t.1
        ∙ ap (λ (x : String). any (waits x) table) same
        ∙ (claim-Taken now table next job e).0))
      claims (History-Taken h),
  History-NoRepeat h,
)
History-NoRepeat (recovered h now) = History-NoRepeat h
History-NoRepeat (stopped h now release_id job_id) = History-NoRepeat h
History-NoRepeat (marked h now job_id status result error_code error_message n) = History-NoRepeat h
