-- ===== src/Jobs/Claims.antt =====
-- src/redline/service/store.py: no release job is claimed twice, whatever the order of the operations.
use mathlib.Core.Bool.{false≢true}
use playbook_redline.Base.{
  String, ◌≡◌, ◌≢◌, refl, sym, ap, ◌∙◌, ◌⊎◌, inl, inr, subst, Bool, true, false, ◌&&◌, Option, none,
  some, some-inj, List, [], ◌∷◌, map, any, str_eq, eq_iff, str_leb, Bool-cases, if-true, if-false,
  arith, ◌==◌, if◌then◌else◌,
}
use playbook_redline.Canonical.{Fields}
use playbook_redline.Jobs.{
  ReleaseJobStatus, queued, running, ReleaseJob, status_index, has_status, has_job_id, earlier,
  oldest_queued, start_job, claim_next_release_job, recover_job, cancel_job, mark_job,
}

unfoldable pub waits : String → ReleaseJob → Bool
waits id job = has_job_id id job && has_status queued job

-- A job that has been claimed is in the table, and does not wait in it.
unfoldable pub Taken : List ReleaseJob → String → Type 0
Taken table id = (any (has_job_id id) table ≡ true) × (any (waits id) table ≡ false)

-- An update keeps the ids, and does not queue a row again.
unfoldable pub Tame : (ReleaseJob → ReleaseJob) → Type 0
Tame f =
    (job : ReleaseJob)
    → ((f job).job_id ≡ job.job_id)
      × (has_status queued job ≡ false → has_status queued (f job) ≡ false)

map-has_job_id :
    (f : ReleaseJob → ReleaseJob)
    → Tame f
    → (table : List ReleaseJob) (id : String)
    → any (has_job_id id) (map f table) ≡ any (has_job_id id) table
unfolding Tame
map-has_job_id f tame [] id = refl
map-has_job_id f tame (job ∷ table) id =
    let here : has_job_id id (f job) ≡ has_job_id id job =
      ap (λ (x : String). str_eq x id) (tame job).0 in
    ground (arith, here, map-has_job_id f tame table id)

map-waits :
    (f : ReleaseJob → ReleaseJob)
    → Tame f
    → (table : List ReleaseJob) (id : String) → any (waits id) table ≡ false
    → any (waits id) (map f table) ≡ false
unfolding Tame waits
map-waits f tame [] id w = refl
map-waits f tame (job ∷ table) id w =
    let here : has_job_id id (f job) ≡ has_job_id id job =
      ap (λ (x : String). str_eq x id) (tame job).0 in
    let rest : any (waits id) (map f table) ≡ false = map-waits f tame table id (ground arith) in
    elim (Bool-cases (has_status queued job)) [
      | inl y ↦ ground (arith, here, rest)
      | inr n ↦
          let out : has_status queued (f job) ≡ false = (tame job).1 n in ground (arith, out, rest)
    ]

pub map-Taken :
    (f : ReleaseJob → ReleaseJob)
    → Tame f
    → (table : List ReleaseJob) (id : String) → Taken table id
    → Taken (map f table) id
unfolding Taken
map-Taken f tame table id (h, w) = (map-has_job_id f tame table id ∙ h, map-waits f tame table id w)

tame_if :
    (b : Bool) (new old : ReleaseJob)
    → new.job_id ≡ old.job_id
    → has_status queued new ≡ false
    → ((if b then new else old).job_id ≡ old.job_id)
      × (has_status queued old ≡ false → has_status queued (if b then new else old) ≡ false)
tame_if true new old e q = (e, λ _. q)
tame_if false new old e q = (refl, λ h. h)

pub start_job-Tame : (now id : String) → Tame (start_job now id)
unfolding Tame start_job
start_job-Tame now id job = tame_if (has_job_id id job && has_status queued job) _ job refl refl

pub recover_job-Tame : (now : String) → Tame (recover_job now)
unfolding Tame recover_job
recover_job-Tame now job = tame_if (has_status running job) _ job refl refl

pub cancel_job-Tame : (now release_id job_id : String) → Tame (cancel_job now release_id job_id)
unfolding Tame cancel_job
cancel_job-Tame now release_id job_id job =
    tame_if (str_eq job.release_id release_id && has_job_id job_id job && has_status queued job) _
      job refl refl

not_queued : (s : ReleaseJobStatus) → s ≢ queued → (status_index s == status_index queued) ≡ false
not_queued queued n = absurd (n refl)
not_queued _ n = refl

pub mark_job-Tame :
    (now job_id : String) (status : ReleaseJobStatus) (result : Option Fields)
    (error_code error_message : Option String)
    → status ≢ queued
    → Tame (mark_job now job_id status result error_code error_message)
unfolding Tame mark_job
mark_job-Tame now job_id status result error_code error_message n job =
    tame_if (has_job_id job_id job) _ job refl (not_queued status n)

earlier_cases :
    (job : ReleaseJob) (o : Option ReleaseJob) → (earlier job o ≡ job) ⊎ (o ≡ some (earlier job o))
earlier_cases job none = inl refl
earlier_cases job (some other) = elim (Bool-cases (str_leb job.created_at other.created_at)) [
  | inl y ↦ inl (if-true (str_leb job.created_at other.created_at) job other y)
  | inr n ↦ inr (ap some (sym (if-false (str_leb job.created_at other.created_at) job other n)))
]

-- The oldest queued job is in the table, and waits there.
oldest_queued-waits :
    (table : List ReleaseJob) (job : ReleaseJob)
    → oldest_queued table ≡ some job
    → any (waits job.job_id) table ≡ true
unfolding oldest_queued waits
oldest_queued-waits [] job e = cc
oldest_queued-waits (x ∷ table) job e = elim (Bool-cases (has_status queued x)) [
  | inl y ↦
      let o = oldest_queued table in
      let q : earlier x o ≡ job =
        some-inj (earlier x o) job (sym (if-true (has_status queued x) _ _ y) ∙ e) in
      elim (earlier_cases x o) [
        | inl first ↦
            let id : x.job_id ≡ job.job_id = ap (λ (r : ReleaseJob). r.job_id) (sym first ∙ q) in
            let here : has_job_id job.job_id x ≡ true = (eq_iff x.job_id job.job_id).1 id in
            ground (arith, here)
        | inr later ↦
            let rest : any (waits job.job_id) table ≡ true =
              oldest_queued-waits table job (later ∙ ap some q) in
            ground (arith, rest)
      ]
  | inr n ↦
      let rest : any (waits job.job_id) table ≡ true =
        oldest_queued-waits table job (sym (if-false (has_status queued x) _ _ n) ∙ e) in
      ground (arith, rest)
]

after_start :
    (now id : String) (table : List ReleaseJob)
    → any (waits id) (map (start_job now id) table) ≡ false
unfolding start_job waits
after_start now id [] = refl
after_start now id (job ∷ table) =
    let rest = after_start now id table in
    elim (Bool-cases (has_job_id id job && has_status queued job)) [
      | inl y ↦ rw y (ground (arith, rest))
      | inr n ↦ rw n (ground (arith, rest))
    ]

waits-has_job_id :
    (table : List ReleaseJob) (id : String)
    → any (waits id) table ≡ true
    → any (has_job_id id) table ≡ true
unfolding waits
waits-has_job_id [] id e = absurd (false≢true e)
waits-has_job_id (job ∷ table) id e = elim (Bool-cases (has_job_id id job)) [
  | inl y ↦ ground arith
  | inr n ↦
      let rest : any (has_job_id id) table ≡ true = waits-has_job_id table id (ground arith) in
      ground (arith, rest)
]

-- What a claim that returns a job has done.
pub claim_parts :
    (now : String) (table next : List ReleaseJob) (job : ReleaseJob)
    → claim_next_release_job now table ≡ (next, some job)
    → (oldest_queued table ≡ some job) × (next ≡ map (start_job now job.job_id) table)
unfolding claim_next_release_job
claim_parts now table next job e = go (oldest_queued table) refl e
  where
    go :
        (o : Option ReleaseJob)
        → oldest_queued table ≡ o
        → elim o as (λ _. List ReleaseJob × Option ReleaseJob) [
          | none ↦ (table, none)
          | some x ↦ (map (start_job now x.job_id) table, some x)
        ]
          ≡ (next, some job)
        → (oldest_queued table ≡ some job) × (next ≡ map (start_job now job.job_id) table)
    go none q e =
        let h : ◌≡◌ {A = Option ReleaseJob} none (some job) =
          ap (λ (p : List ReleaseJob × Option ReleaseJob). p.1) e in
        cc
    go (some x) q e =
        let same : x ≡ job =
          some-inj x job (ap (λ (p : List ReleaseJob × Option ReleaseJob). p.1) e) in
        (
          q ∙ ap some same,
          sym (ap (λ (p : List ReleaseJob × Option ReleaseJob). p.0) e)
              ∙ ap (λ (r : ReleaseJob). map (start_job now r.job_id) table) same,
        )

-- A claimed job was waiting, and is taken afterwards.
pub claim-Taken :
    (now : String) (table next : List ReleaseJob) (job : ReleaseJob)
    → claim_next_release_job now table ≡ (next, some job)
    → (any (waits job.job_id) table ≡ true) × Taken next job.job_id
unfolding Taken
claim-Taken now table next job e =
    let (o, n) = claim_parts now table next job e in
    let w = oldest_queued-waits table job o in
    (
      w,
      subst (λ (t : List ReleaseJob). Taken t job.job_id) (sym n)
          ((
            map-has_job_id (start_job now job.job_id) (start_job-Tame now job.job_id) table
                  job.job_id
                ∙ waits-has_job_id table job.job_id w,
            after_start now job.job_id table,
          )),
    )
