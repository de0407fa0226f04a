-- ===== src/Release/Laws.antt =====
-- src/redline/service/transitions.py: what a transition that succeeds has checked, and what can be
-- reached by transitions alone.
use playbook_redline.Base.{
  String, ◌≡◌, ◌≢◌, refl, sym, ap, ◌∙◌, ◌⊎◌, inl, inr, Bool, true, false, not, Option, some, List,
  [], ◌∷◌, arith, get_elem?, if◌then◌else◌,
}
use playbook_redline.Release.{
  ReleaseState, draft, redline_running, redline_passed, evidence_collecting, review_required,
  approved, demo_executed, release_ready, released_demo, released_live_gated, rejected, killed,
  blocked_withheld, blocked_unverified, blocked_missing_evidence, blocked_risk_policy,
  blocked_approval, blocked_exchange_error, ReleaseCandidate, index, same_state, member,
}
use playbook_redline.Release.Gate.{missing_evidence_for_target}
use playbook_redline.Release.Transition.{
  Outcome, moved, invalid, check_evidence, is_terminal_release_state, allowed_release_transitions,
  transition_release,
}

abbrev all_states : List ReleaseState
all_states =
    draft ∷ redline_running ∷ redline_passed ∷ evidence_collecting ∷ review_required ∷ approved
    ∷ demo_executed ∷ release_ready ∷ released_demo ∷ released_live_gated ∷ rejected ∷ killed
    ∷ blocked_withheld ∷ blocked_unverified ∷ blocked_missing_evidence ∷ blocked_risk_policy
    ∷ blocked_approval ∷ blocked_exchange_error ∷ []

state_at_index : (s : ReleaseState) → get_elem? all_states (index s) ≡ some s
state_at_index draft = refl
state_at_index _ = refl

-- Two states with one index are the same state.
pub same_state→eq : (s t : ReleaseState) → same_state s t ≡ true → s ≡ t
same_state→eq s t h =
    let e : index s ≡ index t = ground arith in
    let p : ◌≡◌ {A = Option ReleaseState} (some s) (some t) =
      sym (state_at_index s) ∙ ap (get_elem? all_states) e ∙ state_at_index t in
    cc

pub same_state_refl : (s : ReleaseState) → same_state s s ≡ true
same_state_refl s = ground arith

-- A move that the table admits: to the state itself, or along an entry out of a state that is not
-- terminal.
abbrev pub Admits : ReleaseState → ReleaseState → Type 0
Admits s t =
    (s ≡ t)
    ⊎ ((is_terminal_release_state s ≡ false) × (member t (allowed_release_transitions s) ≡ true))

tests_passed :
    (same terminal entry : Bool) (checked : Outcome) (s t : ReleaseState) {r : ReleaseCandidate}
    → (if same
        then checked
        else if terminal
        then invalid s t
        else if not entry
        then invalid s t
        else checked)
      ≡ moved r
    → ((same ≡ true) ⊎ ((terminal ≡ false) × (entry ≡ true))) × (checked ≡ moved r)
tests_passed true terminal entry checked s t h = (inl refl, h)
tests_passed false true entry checked s t h = cc
tests_passed false false true checked s t h = (inr (refl, refl), h)
tests_passed false false false checked s t h = cc

evidence_complete :
    (s t : ReleaseState) (u : ReleaseCandidate) (ms : List String) {r : ReleaseCandidate}
    → check_evidence s t u ms ≡ moved r
    → (ms ≡ []) × (r ≡ u)
unfolding check_evidence
evidence_complete s t u [] h = (refl, cc)
evidence_complete s t u (m ∷ ms) h = cc

evidence_never_invalid :
    (s t : ReleaseState) (u : ReleaseCandidate) (ms : List String) {x y : ReleaseState}
    → check_evidence s t u ms ≢ invalid x y
unfolding check_evidence
evidence_never_invalid s t u [] h = cc
evidence_never_invalid s t u (m ∷ ms) h = cc

tests_failed :
    (same terminal entry : Bool) (checked : Outcome) (s t : ReleaseState) {x y : ReleaseState}
    → checked ≢ invalid x y
    → (if same
        then checked
        else if terminal
        then invalid s t
        else if not entry
        then invalid s t
        else checked)
      ≡ invalid x y
    → (x ≡ s) × (y ≡ t)
tests_failed true terminal entry checked s t n h = absurd (n h)
tests_failed false true entry checked s t n h = (cc, cc)
tests_failed false false true checked s t n h = absurd (n h)
tests_failed false false false checked s t n h = (cc, cc)

same_state_of : {s t : ReleaseState} → s ≡ t → same_state s t ≡ true
same_state_of {s} p = ap (same_state s) (sym p) ∙ same_state_refl s

choice_same : (b : Bool) {r : Outcome} → (if b then r else r) ≡ r
choice_same true = refl
choice_same false = refl

module _ (release : ReleaseCandidate) (to : ReleaseState)
    (updates : ReleaseCandidate → ReleaseCandidate) where
  abbrev target : ReleaseCandidate
  target = updates (record release { state = to })

  pub transition_moved :
      {result : ReleaseCandidate}
      → transition_release release to updates ≡ moved result
      → Admits release.state to × (missing_evidence_for_target target to ≡ []) × (result ≡ target)
  unfolding transition_release
  transition_moved {result} h =
      let c =
        tests_passed (same_state release.state to) (is_terminal_release_state release.state)
          (member to (allowed_release_transitions release.state)) (checked) release.state to h in
      let e =
        evidence_complete release.state to target (missing_evidence_for_target target to) c.1 in
      (admits c.0, e.0, e.1)
    where
      checked : Outcome
      checked = check_evidence release.state to target (missing_evidence_for_target target to)

      admits :
          (same_state release.state to ≡ true)
            ⊎ ((is_terminal_release_state release.state ≡ false)
                × (member to (allowed_release_transitions release.state) ≡ true))
          → Admits release.state to
      admits (inl h) = inl (same_state→eq release.state to h)
      admits (inr h) = inr h

  pub transition_invalid :
      {from t : ReleaseState}
      → transition_release release to updates ≡ invalid from t
      → (from ≡ release.state) × (t ≡ to)
  unfolding transition_release
  transition_invalid h =
      tests_failed (same_state release.state to) (is_terminal_release_state release.state)
        (member to (allowed_release_transitions release.state))
        (check_evidence release.state to target (missing_evidence_for_target target to))
        release.state to
        (evidence_never_invalid release.state to target (missing_evidence_for_target target to)) h

  pub transition_complete :
      Admits release.state to
      → missing_evidence_for_target target to ≡ []
      → transition_release release to updates ≡ moved target
  unfolding transition_release
  transition_complete (inl p) e = rw (e, same_state_of p)
  transition_complete (inr (going, entry)) e =
      rw (e, going, entry) (choice_same (same_state release.state to))
