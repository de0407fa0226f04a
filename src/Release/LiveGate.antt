-- ===== src/Release/LiveGate.antt =====
-- src/redline/service/transitions.py and src/redline/service/release.py: the two implementations of
-- the live-gate controls agree.
use playbook_redline.Base.{
  String, ◌≡◌, refl, ap, ◌↔◌, Bool, true, false, not, ◌&&◌, ◌||◌, Option, none, some, List, [],
  ◌++◌, str_eq, is_some,
}
use playbook_redline.Canonical.{Json, null, bool, int, str, arr, obj, Fields}
use playbook_redline.Canonical.Dict.{get, get_or, truthy, is_true, or_empty}
use playbook_redline.Release.{released_live_gated, ReleaseCandidate, l2}
use playbook_redline.Release.Gate.{
  nonempty_text, same_text, when, second_reviewer_missing, tier_below_l1, missing_control_entries,
  missing_controls, missing_live_gate_controls,
}
use playbook_redline.Release.Tier.{
  second_reviewer_ok, control_entries_ok, controls_ok, has_live_gate_controls, compute_release_tier,
  with_computed_release_tier,
}

-- A report of four tests is empty if and only if none of them fired.
four_tests :
    (a b c d : Bool) (n m k l : String)
    → (when (not a) n ++ (when (not b) m ++ (when (not c) k ++ when d l)) ≡ [])
      ↔ ((a && b && c && not d) ≡ true)
four_tests false b c d n m k l = (λ e. cc, λ e. cc)
four_tests true false c d n m k l = (λ e. cc, λ e. cc)
four_tests true true false d n m k l = (λ e. cc, λ e. cc)
four_tests true true true true n m k l = (λ e. cc, λ e. cc)
four_tests true true true false n m k l = (λ e. refl, λ e. refl)

three_tests :
    (a b : Bool) (rest : List String) (n m : String)
    → (when a n ++ (when (not b) m ++ rest) ≡ []) ↔ ((a ≡ false) × (b ≡ true) × (rest ≡ []))
three_tests true b rest n m = (λ e. cc, λ e. cc)
three_tests false true rest n m = (λ e. (refl, refl, e), λ e. e.2)
three_tests false false rest n m = (λ e. cc, λ e. cc)

reviewer_agrees :
    (manager reviewer : Option String) (creator : String)
    → not (second_reviewer_missing manager reviewer creator)
      ≡ second_reviewer_ok manager reviewer creator
reviewer_agrees manager none creator = refl
reviewer_agrees manager (some s) creator = de_morgan (same_text (some s) manager) (str_eq s creator)
  where
    de_morgan : (a b : Bool) → not (a || b) ≡ (not a && not b)
    de_morgan true b = refl
    de_morgan false b = refl

pub entries_agree :
    (controls : Fields) (creator : String)
    → (missing_control_entries controls creator ≡ []) ↔ (control_entries_ok controls creator ≡ true)
unfolding missing_control_entries control_entries_ok
entries_agree controls creator =
    let manager = nonempty_text (get controls "release_manager_id") in
    let reviewer = nonempty_text (get controls "second_reviewer_id") in
    rw (← reviewer_agrees manager reviewer creator) (
      four_tests (is_true (get controls "confirm_mainnet_order"))
        (is_true (get controls "allow_live_gated_release")) (is_some manager)
        (second_reviewer_missing manager reviewer creator) _ _ _ _)

controls_agree :
    (controls : Option Json) (creator : String)
    → (missing_controls controls creator ≡ []) ↔ (controls_ok controls creator ≡ true)
unfolding missing_controls controls_ok
controls_agree (some (obj controls)) creator = entries_agree controls creator
controls_agree none creator = (λ e. cc, λ e. cc)
controls_agree (some null) creator = (λ e. cc, λ e. cc)
controls_agree (some (bool b)) creator = (λ e. cc, λ e. cc)
controls_agree (some (int n)) creator = (λ e. cc, λ e. cc)
controls_agree (some (str s)) creator = (λ e. cc, λ e. cc)
controls_agree (some (arr xs)) creator = (λ e. cc, λ e. cc)

both : (a b : Bool) → ((a ≡ true) × (b ≡ true)) ↔ ((a && b) ≡ true)
both true b = (λ p. p.1, λ e. (refl, e))
both false b = (λ p. cc, λ e. cc)

-- The gate reports no missing live control exactly when the tier is L1 or L2 and the controls that
-- the tier computation looks at are in place.
pub live_gate_agrees :
    (release : ReleaseCandidate)
    → (missing_live_gate_controls release ≡ [])
      ↔ ((tier_below_l1 release.release_tier ≡ false) × (has_live_gate_controls release ≡ true))
unfolding missing_live_gate_controls has_live_gate_controls
live_gate_agrees release =
    let mainnet = truthy (get_or (or_empty release.risk_policy) "mainnet_enabled" (bool false)) in
    let controls = get release.metadata "live_gate" in
    let report =
      three_tests (tier_below_l1 release.release_tier) mainnet
        (missing_controls controls release.created_by) "l1_release_tier" "mainnet_risk_policy" in
    let inner = controls_agree controls release.created_by in
    let join = both mainnet (controls_ok controls release.created_by) in
    (
      λ e. let p = report.0 e in (p.0, join.0 (p.1, inner.0 p.2)),
      λ p. let q = join.1 p.1 in report.1 (p.0, q.0, inner.1 q.1),
    )

-- A release that stands in `released_live_gated` with nothing missing is given the tier L2, and
-- still has nothing missing under that tier.
pub live_tier_stable :
    (release : ReleaseCandidate)
    → release.state ≡ released_live_gated
    → missing_live_gate_controls release ≡ []
    → (compute_release_tier release ≡ l2)
      × (missing_live_gate_controls (with_computed_release_tier release) ≡ [])
unfolding compute_release_tier with_computed_release_tier has_live_gate_controls
live_tier_stable release e h =
    let ok = ((live_gate_agrees release).0 h).1 in
    let tier : compute_release_tier release ≡ l2 = rw (e, ok) in
    (tier, (live_gate_agrees (with_computed_release_tier release)).1 (ap tier_below_l1 tier, ok))
