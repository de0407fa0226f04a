-- ===== src/Release.antt =====
-- src/redline/service/models.py: the states, the tiers and the record of a release candidate.
pub mod Gate
pub mod Transition
pub mod Tier
pub mod LiveGate
pub mod Laws
pub mod Journey
pub mod Service
use playbook_redline.Base.{ℕ, String, Bool, Option, List, [], ◌∷◌, ◌==◌, any}
use playbook_redline.Canonical.{Fields}

pub data ReleaseState : Type 0 where
  draft redline_running redline_passed evidence_collecting review_required : ReleaseState
  approved demo_executed release_ready released_demo released_live_gated : ReleaseState
  rejected killed blocked_withheld blocked_unverified blocked_missing_evidence : ReleaseState
  blocked_risk_policy blocked_approval blocked_exchange_error : ReleaseState

pub data ReleaseTier : Type 0 where
  l0 l1 l2 : ReleaseTier

abbrev pub index : ReleaseState → ℕ
index draft = 0
index redline_running = 1
index redline_passed = 2
index evidence_collecting = 3
index review_required = 4
index approved = 5
index demo_executed = 6
index release_ready = 7
index released_demo = 8
index released_live_gated = 9
index rejected = 10
index killed = 11
index blocked_withheld = 12
index blocked_unverified = 13
index blocked_missing_evidence = 14
index blocked_risk_policy = 15
index blocked_approval = 16
index blocked_exchange_error = 17

abbrev pub same_state : ReleaseState → ReleaseState → Bool
same_state s t = index s == index t

-- `state in {…}`.
abbrev pub member : ReleaseState → List ReleaseState → Bool
member s = any (same_state s)

pub record ReleaseCandidate : Type 0 where
  pub release_id : String
  pub strategy_id : String
  pub version_id : String
  pub state : ReleaseState
  pub release_tier : ReleaseTier
  pub created_by : String
  pub metadata : Fields
  pub run_id : Option String
  pub redline_reason_code : Option String
  pub redline_receipt_hash : Option String
  pub redline_report_hash : Option String
  pub simulation_evidence : Option Fields
  pub simulation_evidence_hash : Option String
  pub risk_policy : Option Fields
  pub risk_policy_hash : Option String
  pub approval : Option Fields
  pub execution_run_id : Option String
  pub execution_evidence : Option Fields
  pub evidence_manifest : Option Fields
  pub evidence_manifest_hash : Option String
  pub reject_reason : Option String
  pub killed_at : Option String
  pub created_at : String
  pub updated_at : String
