-- ===== src/Release/Service.antt =====
-- src/redline/service/app.py: `_transition_release_or_409` keeps the gate, although it recomputes the
-- tier after the gate was checked.
use playbook_redline.Base.{String, ◌≡◌, refl, sym, ap, ◌∙◌, ◌⊎◌, Bool, true, false, List, [], ◌++◌}
use playbook_redline.Release.{
  ReleaseState, released_live_gated, blocked_missing_evidence, ReleaseCandidate,
}
use playbook_redline.Release.Gate.{
  when, lacks_redline_pass, lacks_risk_policy, lacks_simulation, lacks_approval, lacks_execution,
  missing_live_gate_controls, missing_evidence_for_target,
}
use playbook_redline.Release.Tier.{with_computed_release_tier, Response, updated, conflict}
use playbook_redline.Release.Laws.{Admits}
use playbook_redline.Release.LiveGate.{live_tier_stable}

-- The five lists that stand before the live-gate controls in the report, and what follows them.
module _ (release : ReleaseCandidate) where
  abbrev before_live : List String → List String
  before_live rest =
      when (lacks_redline_pass release) "redline_pass"
      ++ (when (lacks_risk_policy release) "risk_policy"
          ++ (when (lacks_simulation release) "simulation_evidence"
              ++ (when (lacks_approval release) "human_approval"
                  ++ (when (lacks_execution release) "demo_execution" ++ rest))))

when_quiet :
    (b : Bool) (name : String) (rest : List String)
    → when b name ++ rest ≡ []
    → (b ≡ false) × (rest ≡ [])
when_quiet true name rest e = cc
when_quiet false name rest e = (refl, e)

quiet :
    (release : ReleaseCandidate) (rest : List String) → before_live release rest ≡ [] → rest ≡ []
quiet release rest e =
    (when_quiet (lacks_execution release) "demo_execution" rest
      (when_quiet (lacks_approval release) "human_approval" (_)
        (when_quiet (lacks_simulation release) "simulation_evidence" (_)
          (when_quiet (lacks_risk_policy release) "risk_policy" (_)
            (when_quiet (lacks_redline_pass release) "redline_pass" (_) e).1).1).1).1).1

swap_rest :
    (release : ReleaseCandidate) (x y : List String)
    → before_live release x ≡ []
    → y ≡ []
    → before_live release y ≡ []
swap_rest release x y e h = ap (before_live release) (h ∙ sym (quiet release x e)) ∙ e

-- Recomputing the tier of a release that passed the gate of its state leaves nothing missing.
pub tier_keeps_gate :
    (release : ReleaseCandidate) (to : ReleaseState)
    → release.state ≡ to
    → missing_evidence_for_target release to ≡ []
    → missing_evidence_for_target (with_computed_release_tier release) to ≡ []
unfolding missing_evidence_for_target with_computed_release_tier lacks_redline_pass
    lacks_risk_policy lacks_simulation lacks_approval lacks_execution
tier_keeps_gate release released_live_gated s e =
    swap_rest release (missing_live_gate_controls release)
      (missing_live_gate_controls (with_computed_release_tier release)) e
      (live_tier_stable release s (quiet release (missing_live_gate_controls release) e)).1
tier_keeps_gate release _ s e = e

-- What the endpoint's transition answers: a release in the state asked for, along an entry of the
-- table, with nothing missing for it; or a release in `blocked_missing_evidence`.
abbrev pub Sound : ReleaseCandidate → ReleaseState → Response → Type 0
Sound release to (updated result) =
    (Admits release.state to × (result.state ≡ to) × (missing_evidence_for_target result to ≡ []))
    ⊎ (result.state ≡ blocked_missing_evidence)
Sound release to (conflict from t) = (from ≡ release.state) × (t ≡ to)
