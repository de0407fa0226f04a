-- ===== src/Release/Tier.antt =====
-- src/redline/service/release.py: the tier computed from a release's evidence; src/redline/service/app.py:
-- the transition that every endpoint makes.
use playbook_redline.Base.{
  String, Bool, false, not, ◌&&◌, Option, none, some, List, [], ◌∷◌, str_eq, is_some, if◌then◌else◌,
}
use playbook_redline.Canonical.{Json, bool, str, obj, arr, Items, nil, cons, Fields, end, field}
use playbook_redline.Canonical.Dict.{get, get_or, truthy, is_true, nonempty, or_empty}
use playbook_redline.Release.{
  ReleaseState, released_live_gated, blocked_missing_evidence, ReleaseTier, l0, l1, l2,
  ReleaseCandidate, same_state,
}
use playbook_redline.Release.Gate.{nonempty_text, same_text}
use playbook_redline.Release.Transition.{Outcome, moved, invalid, missing, transition_release}

abbrev pub second_reviewer_ok : Option String → Option String → String → Bool
second_reviewer_ok manager none creator = false
second_reviewer_ok manager (some s) creator =
    not (same_text (some s) manager) && not (str_eq s creator)

unfoldable pub control_entries_ok : Fields → String → Bool
unfolding is_some
control_entries_ok controls creator =
    let manager = nonempty_text (get controls "release_manager_id") in
    let reviewer = nonempty_text (get controls "second_reviewer_id") in
    is_true (get controls "confirm_mainnet_order")
    && is_true (get controls "allow_live_gated_release")
    && is_some manager
    && second_reviewer_ok manager reviewer creator

unfoldable pub controls_ok : Option Json → String → Bool
controls_ok (some (obj controls)) creator = control_entries_ok controls creator
controls_ok _ creator = false

-- `_has_live_gate_controls`.
unfoldable pub has_live_gate_controls : ReleaseCandidate → Bool
has_live_gate_controls release =
    truthy (get_or (or_empty release.risk_policy) "mainnet_enabled" (bool false))
    && controls_ok (get release.metadata "live_gate") release.created_by

-- The four signals of `_release_tier_signals` that decide between L0 and L1.
unfoldable pub demo_signals : ReleaseCandidate → Bool
unfolding is_some
demo_signals release =
    (nonempty release.run_id
      && same_text release.redline_reason_code (some "PASS")
      && nonempty release.redline_receipt_hash)
    && (is_some release.simulation_evidence && nonempty release.simulation_evidence_hash)
    && (is_some release.risk_policy && nonempty release.risk_policy_hash)
    && (is_some release.execution_evidence && nonempty release.execution_run_id)

unfoldable pub compute_release_tier : ReleaseCandidate → ReleaseTier
compute_release_tier release =
    if same_state release.state released_live_gated && has_live_gate_controls release
    then l2
    else if demo_signals release
    then l1
    else l0

unfoldable pub with_computed_release_tier : ReleaseCandidate → ReleaseCandidate
with_computed_release_tier release = record release { release_tier = compute_release_tier release }

-- `{**metadata, key: value}`.
unfoldable pub set_field : String → Json → Fields → Fields
set_field k v end = field k v end
set_field k v (field j w fs) = if str_eq j k then field k v fs else field j w (set_field k v fs)

abbrev pub names : List String → Items
names [] = nil
names (s ∷ ss) = cons (str s) (names ss)

-- A release that moves on, or the 409 that the endpoint answers.
pub data Response : Type 0 where
  updated : ReleaseCandidate → Response
  conflict : ReleaseState → ReleaseState → Response

unfoldable pub answer :
    ReleaseCandidate → (ReleaseCandidate → ReleaseCandidate) → Outcome → Response
answer release updates (moved result) = updated (with_computed_release_tier result)
answer release updates (missing from to ms) = updated (
    with_computed_release_tier (record (updates release) {
      state = blocked_missing_evidence;
      metadata = set_field "missing_evidence" (arr (names ms)) release.metadata;
    }))
answer release updates (invalid from to) = conflict from to

-- `_transition_release_or_409`.
unfoldable pub transition_release_or_409 :
    ReleaseCandidate → ReleaseState → (ReleaseCandidate → ReleaseCandidate) → Response
unfolding answer
transition_release_or_409 release to updates =
    answer release updates (transition_release release to updates)
