-- ===== src/Verdict.antt =====
-- src/redline/models.py: the enumerations and records that a verdict is made of.
pub mod Coverage
pub mod Size
pub mod Decide
pub mod Conditions
pub mod Reflection
pub mod Laws
pub mod Caps
pub mod Tiers
pub mod Severity
use playbook_redline.Base.{ℕ, String, Bool, Option, List, ◌==◌}
use playbook_redline.Canonical.{Fields}

pub data Status : Type 0 where
  pass withheld reduce_size reject : Status
  unverified_no_verdict : Status

pub data VerdictTier : Type 0 where
  allow reduce_size human_review block : VerdictTier

pub data ReasonCode : Type 0 where
  pass new_block_breach receipt_mismatch proof_hash_mismatch : ReasonCode
  ledger_chain_broken checkpoint_mismatch execution_ledger_broken merkle_inclusion_failed :
      ReasonCode
  approval_link_mismatch approval_consumed approval_expired chain_link_mismatch : ReasonCode
  baseline_unchained baseline_genesis coverage_incomplete probe_error : ReasonCode
  engine_failure data_missing calibration_failed baseline_breaches : ReasonCode
  baseline_unrunnable nonfinite_value engine_identity_mismatch candidate_sandbox_violation :
      ReasonCode
  verdict_path_violation receipt_binding_failed sponsor_readback_mismatch
        sponsor_evidence_unverified :
      ReasonCode
  unverified_no_verdict file_not_found parse_error schema_invalid : ReasonCode
  version_unsupported out_of_scope : ReasonCode

pub data ProofKind : Type 0 where
  package_canonical edit_provenance spec_compile baseline_calibration : ProofKind
  replay replay_wellformed probe coverage : ProofKind
  candidate_absolute decision sponsor_readback verification : ProofKind

pub data ChainStatus : Type 0 where
  chained genesis unchained : ChainStatus

-- The `value` of each member.
abbrev pub status_text : Status → String
status_text Status.pass = "pass"
status_text Status.withheld = "withheld"
status_text Status.reduce_size = "reduce_size"
status_text Status.reject = "reject"
status_text Status.unverified_no_verdict = "unverified_no_verdict"

abbrev pub tier_text : VerdictTier → String
tier_text VerdictTier.allow = "ALLOW"
tier_text VerdictTier.reduce_size = "REDUCE_SIZE"
tier_text VerdictTier.human_review = "HUMAN_REVIEW"
tier_text VerdictTier.block = "BLOCK"

abbrev pub reason_text : ReasonCode → String
reason_text ReasonCode.pass = "PASS"
reason_text ReasonCode.new_block_breach = "NEW_BLOCK_BREACH"
reason_text ReasonCode.receipt_mismatch = "RECEIPT_MISMATCH"
reason_text ReasonCode.proof_hash_mismatch = "PROOF_HASH_MISMATCH"
reason_text ReasonCode.ledger_chain_broken = "LEDGER_CHAIN_BROKEN"
reason_text ReasonCode.checkpoint_mismatch = "CHECKPOINT_MISMATCH"
reason_text ReasonCode.execution_ledger_broken = "EXECUTION_LEDGER_BROKEN"
reason_text ReasonCode.merkle_inclusion_failed = "MERKLE_INCLUSION_FAILED"
reason_text ReasonCode.approval_link_mismatch = "APPROVAL_LINK_MISMATCH"
reason_text ReasonCode.approval_consumed = "APPROVAL_CONSUMED"
reason_text ReasonCode.approval_expired = "APPROVAL_EXPIRED"
reason_text ReasonCode.chain_link_mismatch = "CHAIN_LINK_MISMATCH"
reason_text ReasonCode.baseline_unchained = "BASELINE_UNCHAINED"
reason_text ReasonCode.baseline_genesis = "BASELINE_GENESIS"
reason_text ReasonCode.coverage_incomplete = "COVERAGE_INCOMPLETE"
reason_text ReasonCode.probe_error = "PROBE_ERROR"
reason_text ReasonCode.engine_failure = "ENGINE_FAILURE"
reason_text ReasonCode.data_missing = "DATA_MISSING"
reason_text ReasonCode.calibration_failed = "CALIBRATION_FAILED"
reason_text ReasonCode.baseline_breaches = "BASELINE_BREACHES"
reason_text ReasonCode.baseline_unrunnable = "BASELINE_UNRUNNABLE"
reason_text ReasonCode.nonfinite_value = "NONFINITE_VALUE"
reason_text ReasonCode.engine_identity_mismatch = "ENGINE_IDENTITY_MISMATCH"
reason_text ReasonCode.candidate_sandbox_violation = "CANDIDATE_SANDBOX_VIOLATION"
reason_text ReasonCode.verdict_path_violation = "VERDICT_PATH_VIOLATION"
reason_text ReasonCode.receipt_binding_failed = "RECEIPT_BINDING_FAILED"
reason_text ReasonCode.sponsor_readback_mismatch = "SPONSOR_READBACK_MISMATCH"
reason_text ReasonCode.sponsor_evidence_unverified = "SPONSOR_EVIDENCE_UNVERIFIED"
reason_text ReasonCode.unverified_no_verdict = "UNVERIFIED_NO_VERDICT"
reason_text ReasonCode.file_not_found = "FILE_NOT_FOUND"
reason_text ReasonCode.parse_error = "PARSE_ERROR"
reason_text ReasonCode.schema_invalid = "SCHEMA_INVALID"
reason_text ReasonCode.version_unsupported = "VERSION_UNSUPPORTED"
reason_text ReasonCode.out_of_scope = "OUT_OF_SCOPE"

abbrev pub kind_text : ProofKind → String
kind_text ProofKind.package_canonical = "package_canonical"
kind_text ProofKind.edit_provenance = "edit_provenance"
kind_text ProofKind.spec_compile = "spec_compile"
kind_text ProofKind.baseline_calibration = "baseline_calibration"
kind_text ProofKind.replay = "replay"
kind_text ProofKind.replay_wellformed = "replay_wellformed"
kind_text ProofKind.probe = "probe"
kind_text ProofKind.coverage = "coverage"
kind_text ProofKind.candidate_absolute = "candidate_absolute"
kind_text ProofKind.decision = "decision"
kind_text ProofKind.sponsor_readback = "sponsor_readback"
kind_text ProofKind.verification = "verification"

abbrev pub kind_index : ProofKind → ℕ
kind_index ProofKind.package_canonical = 0
kind_index ProofKind.edit_provenance = 1
kind_index ProofKind.spec_compile = 2
kind_index ProofKind.baseline_calibration = 3
kind_index ProofKind.replay = 4
kind_index ProofKind.replay_wellformed = 5
kind_index ProofKind.probe = 6
kind_index ProofKind.coverage = 7
kind_index ProofKind.candidate_absolute = 8
kind_index ProofKind.decision = 9
kind_index ProofKind.sponsor_readback = 10
kind_index ProofKind.verification = 11

abbrev pub same_kind : ProofKind → ProofKind → Bool
same_kind k l = kind_index k == kind_index l

pub record Assertion : Type 0 where
  pub metric : String
  pub op : String
  pub threshold : String
  pub observed : String
  pub scenario_id : String
  pub bar : ℕ
  pub holds : Bool

pub record Proof : Type 0 where
  pub proof_id : String
  pub phase : String
  pub kind : ProofKind
  pub verdict_bearing : Bool
  pub inputs_hash : String
  pub artifact_hash : String
  pub assertions : List Assertion
  pub reproduce : Option String
  pub fill_model : Option String
  pub lookahead_guard : Option String
  pub fees_modeled : Option Bool
  pub meta : Fields

pub record CoverageManifest : Type 0 where
  pub manifest : String
  pub cells : List (String × String)
  pub complete : Bool
  pub missing : List String

pub record DecisionContext : Type 0 where
  pub suite_id : String
  pub spec_hash : String
  pub chain_status : ChainStatus
  pub reject_reason : Option ReasonCode

pub record DecisionEnvelope : Type 0 where
  pub status : Status
  pub verdict_tier : VerdictTier
  pub adjusted_size_cap : Option String
  pub reason_code : ReasonCode
  pub chain_status : ChainStatus
  pub required_proof_ids : List String
  pub satisfied_proof_ids : List String
  pub coverage : CoverageManifest
  pub scenario_count : ℕ
