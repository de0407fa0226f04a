-- ===== src/Runs/Queue.antt =====
-- src/redline/service/store.py: claims empty the queue of runs, and a restart fills it with the runs that
-- were interrupted.
use mathlib.Core.Bool.{false≢true}
use playbook_redline.Base.{
  ℕ, zero, suc, ◌+◌, ◌≤◌, String, ◌≡◌, ◌≢◌, refl, sym, ap, ◌∙◌, ◌⊎◌, inl, inr, Bool, true, false,
  List, [], ◌∷◌, Bool-cases, Option-cases, if-true, if-false, arith, ◌==◌, if◌then◌else◌,
}
use playbook_redline.Runs.{
  RunState, queued, running, state_index, Run, in_state, oldest_queued_run, claim_next_run,
  requeue_run, count, requeue_interrupted_runs, drain_queue,
}
use playbook_redline.Runs.Claims.{
  oldest_waits, no_oldest, start_run-count, claim_empty, claim_start, claimed_none, claimed_some,
  drain_stops, drain_goes_on,
}

kept : (b : Bool) (x y z : ℕ) → x ≡ y + z → (if b then suc x else x) ≡ (if b then suc y else y) + z
kept true x y z e = omega (arith, e)
kept false x y z e = e

-- A row before and after a restart: a run that was running is queued again at that time and keeps
-- all else, and any other run is as it was.
abbrev pub Restarted : String → Run → Run → Type 0
Restarted now before after =
    ((before.state ≡ running) × (after ≡ record before { state = queued; updated_at = now }))
    ⊎ ((before.state ≢ running) × (after ≡ before))

-- The rows of two tables, each with the one at its place.
abbrev pub Rowwise : (Run → Run → Type 0) → List Run → List Run → Type 0
Rowwise R [] [] = Unit
Rowwise R (run ∷ table) (other ∷ others) = R run other × Rowwise R table others
Rowwise R _ _ = ⊥

is_running : (s : RunState) → (state_index s == state_index running) ≡ true → s ≡ running
is_running running e = refl
is_running queued e = cc
is_running _ e = cc

requeue_run-Restarted : (now : String) (run : Run) → Restarted now run (requeue_run now run)
unfolding requeue_run
requeue_run-Restarted now run = elim (Bool-cases (in_state running run)) [
  | inl y ↦ inl ((is_running run.state y, if-true (in_state running run) _ run y))
  | inr n ↦ inr (
      (
        λ e. false≢true (sym n ∙ ap (λ (s : RunState). state_index s == 1) e),
        if-false (in_state running run) _ run n,
      ))
]

-- A requeue queues each run that was running, at the time of the requeue and with all else kept, and
-- leaves every other row as it is; it reports how many were running; afterwards none is running, and
-- the queue has grown by that number.
pub requeue_interrupted_runs_lem :
    (now : String) (table : List Run)
    → Rowwise (Restarted now) table (requeue_interrupted_runs now table).0
      × ((requeue_interrupted_runs now table).1 ≡ count (in_state running) table)
      × (count (in_state running) (requeue_interrupted_runs now table).0 ≡ 0)
      × (count (in_state queued) (requeue_interrupted_runs now table).0
          ≡ count (in_state queued) table + (requeue_interrupted_runs now table).1)
unfolding requeue_interrupted_runs requeue_run
requeue_interrupted_runs_lem now [] = (tt, refl, refl, refl)
requeue_interrupted_runs_lem now (run ∷ table) =
    let (rows, reported, r, q) = requeue_interrupted_runs_lem now table in
    let row = requeue_run-Restarted now run in
    elim (Bool-cases (in_state running run)) [
      | inl y ↦
          let away : in_state queued run ≡ false = ground arith in
          ((row, rows), refl, rw y r, rw (y, away) (omega (arith, q)))
      | inr n ↦ ((row, rows), refl, rw (n, n) r, rw n (kept (in_state queued run) _ _ _ q))
    ]

-- As many claims as there are queued runs leave none queued.
pub drain_queue_lem :
    (clock : ℕ → String) (fuel : ℕ) (table : List Run)
    → count (in_state queued) table ≤ fuel
    → count (in_state queued) (drain_queue clock fuel table) ≡ 0
unfolding drain_queue
drain_queue_lem clock zero table h = omega (arith, h)
drain_queue_lem clock (suc fuel) table h = elim (Option-cases (oldest_queued_run table)) [
  | inl e ↦
      ap (count (in_state queued)) (
        drain_stops clock fuel table (claimed_none (clock fuel) table e)
        ∙ claim_empty (clock fuel) table e)
      ∙ no_oldest table e
  | inr (run, e) ↦
      let step = ap (count (in_state queued)) (claim_start (clock fuel) table run e) in
      let less = (start_run-count (clock fuel) run.run_id table).1 (oldest_waits table run e) in
      let (found, q) = claimed_some (clock fuel) table run e in
      ap (count (in_state queued)) (drain_goes_on clock fuel table found q)
      ∙ drain_queue_lem clock fuel (claim_next_run (clock fuel) table).0
          (omega (arith, step, less, h))
]
