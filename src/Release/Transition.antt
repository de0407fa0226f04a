-- ===== src/Release/Transition.antt =====
-- src/redline/service/transitions.py: the transition table and `transition_release`.
use playbook_redline.Base.{Bool, not, String, List, [], ◌∷◌, if◌then◌else◌}
use playbook_redline.Release.{
  ReleaseState, draft, redline_running, redline_passed, evidence_collecting, review_required,
  approved, demo_executed, release_ready, released_demo, released_live_gated, rejected, killed,
  blocked_withheld, blocked_unverified, blocked_missing_evidence, blocked_risk_policy,
  blocked_approval, blocked_exchange_error, ReleaseCandidate, same_state, member,
}
use playbook_redline.Release.Gate.{missing_evidence_for_target}

abbrev pub terminal_release_states : List ReleaseState
terminal_release_states =
    released_demo ∷ released_live_gated ∷ rejected ∷ killed ∷ blocked_withheld ∷ blocked_unverified
    ∷ blocked_missing_evidence ∷ blocked_risk_policy ∷ blocked_approval ∷ blocked_exchange_error
    ∷ []

unfoldable pub is_terminal_release_state : ReleaseState → Bool
is_terminal_release_state s = member s terminal_release_states

-- `ALLOWED_RELEASE_TRANSITIONS.get(state, frozenset())`.
unfoldable pub allowed_release_transitions : ReleaseState → List ReleaseState
allowed_release_transitions draft =
    redline_running ∷ redline_passed ∷ evidence_collecting ∷ blocked_missing_evidence
    ∷ blocked_withheld ∷ blocked_unverified ∷ killed ∷ []
allowed_release_transitions redline_running =
    redline_passed ∷ blocked_missing_evidence ∷ blocked_withheld ∷ blocked_unverified ∷ killed ∷ []
allowed_release_transitions redline_passed =
    evidence_collecting ∷ review_required ∷ blocked_missing_evidence ∷ blocked_risk_policy ∷ killed
    ∷ []
allowed_release_transitions evidence_collecting =
    evidence_collecting ∷ review_required ∷ blocked_missing_evidence ∷ blocked_risk_policy ∷ killed
    ∷ []
allowed_release_transitions review_required =
    approved ∷ rejected ∷ blocked_missing_evidence ∷ killed ∷ []
allowed_release_transitions approved =
    release_ready ∷ evidence_collecting ∷ review_required ∷ blocked_missing_evidence
    ∷ blocked_risk_policy ∷ blocked_exchange_error ∷ killed ∷ []
allowed_release_transitions demo_executed = release_ready ∷ killed ∷ []
allowed_release_transitions release_ready = released_demo ∷ released_live_gated ∷ killed ∷ []
allowed_release_transitions _ = []

-- What a call returns or raises.
pub data Outcome : Type 0 where
  moved : ReleaseCandidate → Outcome
  invalid : ReleaseState → ReleaseState → Outcome
  missing : ReleaseState → ReleaseState → List String → Outcome

unfoldable pub check_evidence :
    ReleaseState → ReleaseState → ReleaseCandidate → List String → Outcome
check_evidence from to updated [] = moved updated
check_evidence from to updated (m ∷ ms) = missing from to (m ∷ ms)

-- `updates` is the effect of the other fields of the `updates` dict.
unfoldable pub transition_release :
    ReleaseCandidate → ReleaseState → (ReleaseCandidate → ReleaseCandidate) → Outcome
unfolding check_evidence
transition_release release to updates =
    let updated = updates (record release { state = to }) in
    let checked =
      check_evidence release.state to updated (missing_evidence_for_target updated to) in
    if same_state release.state to
    then checked
    else if is_terminal_release_state release.state
    then invalid release.state to
    else if not (member to (allowed_release_transitions release.state))
    then invalid release.state to
    else checked
