-- ===== src/Release/Gate.antt =====
-- src/redline/service/transitions.py: the evidence that a release needs before it may enter a state.
use playbook_redline.Base.{
  String, Bool, true, false, not, ◌&&◌, ◌||◌, Option, none, some, List, [], ◌∷◌, ◌++◌, str_eq,
  is_some, if◌then◌else◌,
}
use playbook_redline.Base.Strip.{is_empty, strip}
use playbook_redline.Canonical.{Json, bool, str, obj, Fields}
use playbook_redline.Canonical.Dict.{get, get_or, truthy, is_true, nonempty, or_empty}
use playbook_redline.Release.{
  ReleaseState, review_required, approved, release_ready, released_demo, released_live_gated,
  ReleaseTier, l0, l1, l2, ReleaseCandidate, member,
}

unfoldable pub nonempty_text : Option Json → Option String
unfolding strip
nonempty_text (some (str s)) = let text = strip s in if is_empty text then none else some text
nonempty_text _ = none

-- `a == b` of optional texts.
abbrev pub same_text : Option String → Option String → Bool
same_text none none = true
same_text (some s) (some t) = str_eq s t
same_text _ _ = false

abbrev pub when : Bool → String → List String
when b name = if b then name ∷ [] else []

abbrev pub second_reviewer_missing : Option String → Option String → String → Bool
second_reviewer_missing manager none creator = true
second_reviewer_missing manager (some s) creator = same_text (some s) manager || str_eq s creator

abbrev pub tier_below_l1 : ReleaseTier → Bool
tier_below_l1 l0 = true
tier_below_l1 l1 = false
tier_below_l1 l2 = false

unfoldable pub missing_control_entries : Fields → String → List String
missing_control_entries controls creator =
    let manager = nonempty_text (get controls "release_manager_id") in
    let reviewer = nonempty_text (get controls "second_reviewer_id") in
    when (not (is_true (get controls "confirm_mainnet_order"))) "confirm_mainnet_order"
    ++ (when (not (is_true (get controls "allow_live_gated_release"))) "allow_live_gated_release"
        ++ (when (not (is_some manager)) "release_manager"
            ++ when (second_reviewer_missing manager reviewer creator) "second_reviewer"))

unfoldable pub missing_controls : Option Json → String → List String
unfolding missing_control_entries
missing_controls (some (obj controls)) creator = missing_control_entries controls creator
missing_controls _ creator = "live_gate_controls" ∷ []

unfoldable pub missing_live_gate_controls : ReleaseCandidate → List String
unfolding missing_controls is_some
missing_live_gate_controls release =
    when (tier_below_l1 release.release_tier) "l1_release_tier"
    ++ (when (not (truthy (get_or (or_empty release.risk_policy) "mainnet_enabled" (bool false))))
          "mainnet_risk_policy"
        ++ missing_controls (get release.metadata "live_gate") release.created_by)

unfoldable pub lacks_redline_pass : ReleaseCandidate → Bool
unfolding is_some
lacks_redline_pass release =
    not (is_some release.run_id)
    || not (same_text release.redline_reason_code (some "PASS"))
    || not (nonempty release.redline_receipt_hash)
    || not (nonempty release.redline_report_hash)

unfoldable pub lacks_risk_policy : ReleaseCandidate → Bool
unfolding is_some
lacks_risk_policy release =
    not (is_some release.risk_policy) || not (is_some release.risk_policy_hash)

unfoldable pub required : ReleaseCandidate → String → Bool
required release key = truthy (get_or (or_empty release.risk_policy) key (bool true))

unfoldable pub lacks_simulation : ReleaseCandidate → Bool
unfolding is_some required
lacks_simulation release =
    required release "require_simulation_evidence"
    && (not (is_some release.simulation_evidence) || not (is_some release.simulation_evidence_hash))

unfoldable pub lacks_approval : ReleaseCandidate → Bool
unfolding is_some required
lacks_approval release = required release "require_human_approval" && not (is_some release.approval)

unfoldable pub lacks_execution : ReleaseCandidate → Bool
unfolding is_some required
lacks_execution release =
    required release "require_demo_execution"
    && (not (is_some release.execution_evidence) || not (is_some release.execution_run_id))

abbrev pub gated : ReleaseState → Bool
gated s =
    member s (review_required ∷ approved ∷ release_ready ∷ released_demo ∷ released_live_gated ∷ [])

abbrev pub approval_gated : ReleaseState → Bool
approval_gated s = member s (approved ∷ release_ready ∷ released_demo ∷ released_live_gated ∷ [])

abbrev pub execution_gated : ReleaseState → Bool
execution_gated s = member s (release_ready ∷ released_demo ∷ released_live_gated ∷ [])

abbrev pub live_gated : ReleaseState → Bool
live_gated s = member s (released_live_gated ∷ [])

-- `_missing_evidence_for_target`.
unfoldable pub missing_evidence_for_target : ReleaseCandidate → ReleaseState → List String
missing_evidence_for_target release to =
    if not (gated to)
    then []
    else when (lacks_redline_pass release) "redline_pass"
      ++ (when (lacks_risk_policy release) "risk_policy"
          ++ (when (lacks_simulation release) "simulation_evidence"
              ++ (when (approval_gated to && lacks_approval release) "human_approval"
                  ++ (when (execution_gated to && lacks_execution release) "demo_execution"
                      ++ (if live_gated to then missing_live_gate_controls release else [])))))
