-- ===== src/Tests/Releases.antt =====
-- Releases and their transitions at concrete evidence.
use playbook_redline.Base.{◌≡◌, refl, inl, inr, ◌↔◌, true, false, none, some, List, [], ◌∷◌}
use playbook_redline.Base.Strip.{strip}
use playbook_redline.Canonical.{bool, str, obj, Fields, end, field}
use playbook_redline.Release.{
  ReleaseState, draft, redline_passed, review_required, approved, release_ready,
  released_live_gated, l1, l2, ReleaseCandidate, member,
}
use playbook_redline.Release.Gate.{
  missing_evidence_for_target, lacks_redline_pass, lacks_risk_policy, lacks_simulation,
  lacks_approval, lacks_execution, required, missing_live_gate_controls, missing_controls,
  missing_control_entries, nonempty_text,
}
use playbook_redline.Release.Transition.{
  moved, is_terminal_release_state, allowed_release_transitions, transition_release,
}
use playbook_redline.Release.Tier.{
  with_computed_release_tier, compute_release_tier, has_live_gate_controls,
}
use playbook_redline.Release.Laws.{Admits, transition_moved, transition_complete}
use playbook_redline.Release.Journey.{
  KeepsState, Journey, here, next, Earned, Journey-Earned, Journey-terminal,
}
use playbook_redline.Release.LiveGate.{live_gate_agrees, live_tier_stable}

abbrev gate : Fields
gate = field "confirm_mainnet_order" (bool true) (
    field "allow_live_gated_release" (bool true)
      (field "release_manager_id" (str "mei") (field "second_reviewer_id" (str " tao ") end)))

-- A release with every piece of evidence.
abbrev candidate : ReleaseCandidate
candidate = record {
  release_id = "rel-1";
  strategy_id = "strategy-1";
  version_id = "v2";
  state = draft;
  release_tier = l1;
  created_by = "ana";
  metadata = field "live_gate" (obj gate) end;
  run_id = some "run-1";
  redline_reason_code = some "PASS";
  redline_receipt_hash = some "sha256:1";
  redline_report_hash = some "sha256:2";
  simulation_evidence = some end;
  simulation_evidence_hash = some "sha256:3";
  risk_policy = some (field "mainnet_enabled" (bool true) end);
  risk_policy_hash = some "sha256:4";
  approval = some end;
  execution_run_id = some "run-2";
  execution_evidence = some end;
  evidence_manifest = none;
  evidence_manifest_hash = none;
  reject_reason = none;
  killed_at = none;
  created_at = "2026-06-10T00:00:00Z";
  updated_at = "2026-06-10T00:00:00Z";
}

abbrev in_state : ReleaseState → ReleaseCandidate
in_state s = record candidate { state = s }

abbrev stamp : ReleaseCandidate → ReleaseCandidate
stamp r = record r { updated_at = "2026-06-11T00:00:00Z" }

nothing_missing : (s : ReleaseState) → missing_evidence_for_target (in_state s) s ≡ []
unfolding missing_evidence_for_target lacks_redline_pass lacks_risk_policy lacks_simulation
    lacks_approval lacks_execution required missing_live_gate_controls missing_controls
    missing_control_entries nonempty_text strip
nothing_missing draft = refl
nothing_missing _ = refl

abbrev same : ReleaseCandidate → ReleaseCandidate
same r = r

same-KeepsState : (to : ReleaseState) → KeepsState to same
same-KeepsState to r e = e

move :
    (s t : ReleaseState) → Admits s t → transition_release (in_state s) t same ≡ moved (in_state t)
move s t a = transition_complete (in_state s) t same a (nothing_missing t)

abbrev Step : ReleaseState → ReleaseState → Type 0
Step s t = (is_terminal_release_state s ≡ false) × (member t (allowed_release_transitions s) ≡ true)

to_passed : Step draft redline_passed
unfolding is_terminal_release_state allowed_release_transitions
to_passed = (refl, refl)

to_review : Step redline_passed review_required
unfolding is_terminal_release_state allowed_release_transitions
to_review = (refl, refl)

to_approved : Step review_required approved
unfolding is_terminal_release_state allowed_release_transitions
to_approved = (refl, refl)

to_ready : Step approved release_ready
unfolding is_terminal_release_state allowed_release_transitions
to_ready = (refl, refl)

to_live : Step release_ready released_live_gated
unfolding is_terminal_release_state allowed_release_transitions
to_live = (refl, refl)

-- From a draft to a live release.
abbrev visited : List ReleaseState
visited =
    released_live_gated ∷ release_ready ∷ approved ∷ review_required ∷ redline_passed ∷ draft ∷ []

journey : Journey (in_state draft) visited (in_state released_live_gated)
journey =
    next
      (next
        (next
          (next
            (next here redline_passed same (same-KeepsState redline_passed)
              (move draft redline_passed (inr to_passed)))
            review_required same (same-KeepsState review_required)
            (move redline_passed review_required (inr to_review)))
          approved same (same-KeepsState approved)
          (move review_required approved (inr to_approved)))
        release_ready same (same-KeepsState release_ready)
        (move approved release_ready (inr to_ready)))
      released_live_gated same (same-KeepsState released_live_gated)
      (move release_ready released_live_gated (inr to_live))

Journey-Earned_example : Earned released_live_gated visited
Journey-Earned_example = Journey-Earned refl journey

live_is_terminal : is_terminal_release_state released_live_gated ≡ true
unfolding is_terminal_release_state
live_is_terminal = refl

stay :
    Journey
      (in_state released_live_gated)
      (released_live_gated ∷ released_live_gated ∷ [])
      (in_state released_live_gated)
stay =
    next here released_live_gated same (same-KeepsState released_live_gated)
      (move released_live_gated released_live_gated (inl refl))

Journey-terminal_example : released_live_gated ≡ released_live_gated
Journey-terminal_example = Journey-terminal live_is_terminal stay

live_gate_agrees_example :
    (missing_live_gate_controls candidate ≡ [])
    ↔ ((false ≡ false) × (has_live_gate_controls candidate ≡ true))
live_gate_agrees_example = live_gate_agrees candidate

live_controls : missing_live_gate_controls (in_state released_live_gated) ≡ []
unfolding missing_live_gate_controls missing_controls missing_control_entries nonempty_text strip
live_controls = refl

live_tier_stable_example :
    (compute_release_tier (in_state released_live_gated) ≡ l2)
    × (missing_live_gate_controls (with_computed_release_tier (in_state released_live_gated)) ≡ [])
live_tier_stable_example = live_tier_stable (in_state released_live_gated) refl live_controls

transition_complete_example :
    transition_release (in_state review_required) approved stamp ≡ moved (stamp (in_state approved))
unfolding missing_evidence_for_target lacks_redline_pass lacks_risk_policy lacks_simulation
    lacks_approval required
transition_complete_example =
    transition_complete (in_state review_required) approved stamp (inr to_approved) refl

transition_moved_example :
    Admits approved release_ready
    × (missing_evidence_for_target (in_state release_ready) release_ready ≡ [])
    × (in_state release_ready ≡ in_state release_ready)
transition_moved_example =
    transition_moved (in_state approved) release_ready same
      (move approved release_ready (inr to_ready))
