-- ===== src/Runs/Claims.antt =====
-- src/redline/service/store.py and src/redline/service/app.py: what a claim does to the queue of runs.
use mathlib.Core.Bool.{false≢true}
use playbook_redline.Base.{
  ℕ, suc, ◌≤◌, String, ◌≡◌, refl, sym, ap, ◌∙◌, ◌⊎◌, inl, inr, Bool, true, false, ◌&&◌, ◌||◌,
  Option, none, some, some-inj, List, [], ◌∷◌, any, eq_iff, str_leb, Bool-cases, if-true, if-false,
  arith, if◌then◌else◌,
}
use playbook_redline.Runs.{
  queued, running, coalesce, get_run, Run, in_state, has_run_id, update_run, earlier,
  oldest_queued_run, start_run, claim_next_run, count, drain_queue,
}

earlier_cases : (run : Run) (o : Option Run) → (earlier run o ≡ run) ⊎ (o ≡ some (earlier run o))
earlier_cases run none = inl refl
earlier_cases run (some other) = elim (Bool-cases (str_leb run.created_at other.created_at)) [
  | inl y ↦ inl (if-true (str_leb run.created_at other.created_at) run other y)
  | inr n ↦ inr (ap some (sym (if-false (str_leb run.created_at other.created_at) run other n)))
]

abbrev pub waits : String → Run → Bool
waits id run = has_run_id id run && in_state queued run

pub oldest_waits :
    (table : List Run) (run : Run)
    → oldest_queued_run table ≡ some run
    → any (waits run.run_id) table ≡ true
unfolding oldest_queued_run
oldest_waits [] run e = cc
oldest_waits (x ∷ table) run e = elim (Bool-cases (in_state queued x)) [
  | inl y ↦
      let o = oldest_queued_run table in
      let q : earlier x o ≡ run =
        some-inj (earlier x o) run (sym (if-true (in_state queued x) _ _ y) ∙ e) in
      elim (earlier_cases x o) [
        | inl first ↦
            let id : x.run_id ≡ run.run_id = ap (λ (r : Run). r.run_id) (sym first ∙ q) in
            let here : has_run_id run.run_id x ≡ true = (eq_iff x.run_id run.run_id).1 id in
            ground (arith, here)
        | inr later ↦
            let rest : any (waits run.run_id) table ≡ true =
              oldest_waits table run (later ∙ ap some q) in
            ground (arith, rest)
      ]
  | inr n ↦
      let rest : any (waits run.run_id) table ≡ true =
        oldest_waits table run (sym (if-false (in_state queued x) _ _ n) ∙ e) in
      ground (arith, rest)
]

pub no_oldest :
    (table : List Run) → oldest_queued_run table ≡ none → count (in_state queued) table ≡ 0
unfolding oldest_queued_run
no_oldest [] e = refl
no_oldest (x ∷ table) e = elim (Bool-cases (in_state queued x)) [
  | inl y ↦
      let bad : some (earlier x (oldest_queued_run table)) ≡ none =
        sym (if-true (in_state queued x) _ _ y) ∙ e in
      cc
  | inr n ↦ rw n (no_oldest table (sym (if-false (in_state queued x) _ _ n) ∙ e))
]

started :
    (q w : Bool) (c d : ℕ)
    → c ≤ d
    → (w ≡ true → suc c ≤ d)
    → (c ≤ (if q then suc d else d)) × ((q || w) ≡ true → suc c ≤ (if q then suc d else d))
started true w c d l s = (omega (arith, l), λ e. omega (arith, l))
started false w c d l s = (l, s)

passed_over :
    (q w : Bool) (c d : ℕ)
    → c ≤ d
    → (w ≡ true → suc c ≤ d)
    → ((if q then suc c else c) ≤ (if q then suc d else d))
      × (w ≡ true → suc (if q then suc c else c) ≤ (if q then suc d else d))
passed_over true w c d l s = (omega (arith, l), λ e. let m = s e in omega (arith, m))
passed_over false w c d l s = (l, s)

-- Starting runs of an id queues none, and takes one out of the queue if one of the id waits.
pub start_run-count :
    (now id : String) (table : List Run)
    → (count (in_state queued) (start_run now id table) ≤ count (in_state queued) table)
      × (any (waits id) table ≡ true
          → suc (count (in_state queued) (start_run now id table)) ≤ count (in_state queued) table)
unfolding start_run update_run
start_run-count now id [] = (omega arith, λ e. absurd (false≢true e))
start_run-count now id (run ∷ table) =
    let (l, s) = start_run-count now id table in
    elim (Bool-cases (has_run_id id run)) [
      | inl y ↦ rw y (started (in_state queued run) (any (waits id) table) _ _ l s)
      | inr n ↦ rw n (passed_over (in_state queued run) (any (waits id) table) _ _ l s)
    ]

pub claim_empty :
    (now : String) (table : List Run)
    → oldest_queued_run table ≡ none
    → (claim_next_run now table).0 ≡ table
unfolding claim_next_run
claim_empty now table e = rw (claim_next_run, e) refl

pub claim_start :
    (now : String) (table : List Run) (run : Run)
    → oldest_queued_run table ≡ some run
    → (claim_next_run now table).0 ≡ start_run now run.run_id table
unfolding claim_next_run
claim_start now table run e = rw (claim_next_run, e) refl

pub claimed_none :
    (now : String) (table : List Run)
    → oldest_queued_run table ≡ none
    → (claim_next_run now table).1 ≡ none
unfolding claim_next_run
claimed_none now table e = rw (claim_next_run, e) refl

-- A run of the id is still found after runs of the id are started.
start_run-get_run :
    (now id : String) (table : List Run)
    → any (waits id) table ≡ true
    → (run : Run) × (get_run id (start_run now id table) ≡ some run)
unfolding start_run update_run get_run
start_run-get_run now id [] e = cc
start_run-get_run now id (run ∷ table) e = elim (Bool-cases (has_run_id id run)) [
  | inl y ↦ (
    record run { state = running; started_at = coalesce run.started_at now; updated_at = now },
    rw (y, y) refl,
  )
  | inr n ↦
      let rest : any (waits id) table ≡ true = ground arith in
      let (found, q) = start_run-get_run now id table rest in (found, rw (n, n) q)
]

pub claimed_some :
    (now : String) (table : List Run) (run : Run)
    → oldest_queued_run table ≡ some run
    → (found : Run) × ((claim_next_run now table).1 ≡ some found)
unfolding claim_next_run
claimed_some now table run e =
    let (found, q) = start_run-get_run now run.run_id table (oldest_waits table run e) in
    (found, rw (claim_next_run, e) q)

pub drain_stops :
    (clock : ℕ → String) (fuel : ℕ) (table : List Run)
    → (claim_next_run (clock fuel) table).1 ≡ none
    → drain_queue clock (suc fuel) table ≡ (claim_next_run (clock fuel) table).0
unfolding drain_queue
drain_stops clock fuel table e = rw (drain_queue, e) refl

pub drain_goes_on :
    (clock : ℕ → String) (fuel : ℕ) (table : List Run) (run : Run)
    → (claim_next_run (clock fuel) table).1 ≡ some run
    → drain_queue clock (suc fuel) table
      ≡ drain_queue clock fuel (claim_next_run (clock fuel) table).0
unfolding drain_queue
drain_goes_on clock fuel table run e = rw (drain_queue, e) refl
