-- ===== src/Violations.antt =====
-- src/redline/violations.py: the severity of each reason code, whether it can be recovered from, and
-- its summary.
use playbook_redline.Base.{String, Bool, true, false, append}
use playbook_redline.Verdict.{ReasonCode, reason_text}

pub data Severity : Type 0 where
  blocking advisory : Severity

pub record ReasonMeta : Type 0 where
  pub severity : Severity
  pub recoverable : Bool
  pub summary : String

abbrev meta : Severity → Bool → String → ReasonMeta
meta severity recoverable summary = record {
  severity = severity;
  recoverable = recoverable;
  summary = summary;
}

-- `_REASON_SUMMARIES`.
unfoldable pub reason_summary : ReasonCode → ReasonMeta
reason_summary ReasonCode.pass = meta advisory true "verification passed"
reason_summary ReasonCode.new_block_breach =
    meta blocking true "candidate introduced a new blocking probe breach"
reason_summary ReasonCode.receipt_mismatch =
    meta blocking true "receipt hash or receipt-bound projection changed"
reason_summary ReasonCode.proof_hash_mismatch =
    meta blocking true "proof sidecar, proof hash, or proof replay changed"
reason_summary ReasonCode.ledger_chain_broken =
    meta blocking true "issuance or audit ledger hash chain is broken"
reason_summary ReasonCode.checkpoint_mismatch =
    meta blocking true "ledger checkpoint hash, tail, or coverage changed"
reason_summary ReasonCode.execution_ledger_broken =
    meta blocking true "execution ledger hash chain or entry binding is broken"
reason_summary ReasonCode.merkle_inclusion_failed =
    meta blocking true "merkle root or inclusion proof does not cover the expected leaf"
reason_summary ReasonCode.approval_link_mismatch =
    meta blocking true "approval hash no longer links to the execution or decision record"
reason_summary ReasonCode.approval_consumed =
    meta blocking true "single-use approval was already consumed"
reason_summary ReasonCode.approval_expired =
    meta blocking true "approval TTL expired before execution"
reason_summary ReasonCode.chain_link_mismatch =
    meta blocking true "cross-artifact chain link does not match"
reason_summary ReasonCode.baseline_unchained =
    meta advisory true "PASS receipt lacks trusted ledger attestation"
reason_summary ReasonCode.baseline_genesis =
    meta advisory true "baseline is genesis and needs a prior-chain anchor for production publish"
reason_summary ReasonCode.coverage_incomplete =
    meta blocking true "required verdict proof coverage is incomplete"
reason_summary ReasonCode.probe_error = meta blocking true "a probe failed to evaluate cleanly"
reason_summary ReasonCode.engine_failure =
    meta blocking true "deterministic engine failed or could not replay"
reason_summary ReasonCode.data_missing =
    meta blocking true "required file, artifact, or field is missing"
reason_summary ReasonCode.calibration_failed = meta blocking true "baseline calibration failed"
reason_summary ReasonCode.baseline_breaches =
    meta blocking true "baseline itself breaches blocking probes"
reason_summary ReasonCode.baseline_unrunnable = meta blocking true "baseline could not run"
reason_summary ReasonCode.nonfinite_value =
    meta blocking true "canonical data contained a non-finite numeric value"
reason_summary ReasonCode.engine_identity_mismatch =
    meta blocking true "engine source, runner lock, or replay identity drifted"
reason_summary ReasonCode.candidate_sandbox_violation =
    meta blocking false "candidate attempted a sandbox-forbidden operation"
reason_summary ReasonCode.verdict_path_violation =
    meta blocking false "verdict path imported or used forbidden capabilities"
reason_summary ReasonCode.receipt_binding_failed =
    meta blocking true "package, identity lock, spec, or suite binding failed"
reason_summary ReasonCode.sponsor_readback_mismatch =
    meta blocking true "sponsor read-back payload does not match local evidence"
reason_summary ReasonCode.sponsor_evidence_unverified =
    meta blocking true "sponsor evidence is missing or not independently verified"
reason_summary ReasonCode.unverified_no_verdict =
    meta blocking true "verification was integrity-only and cannot authorize a verdict"
reason_summary ReasonCode.file_not_found = meta blocking true "input file does not exist"
reason_summary ReasonCode.parse_error = meta blocking true "input file could not be parsed"
reason_summary ReasonCode.schema_invalid =
    meta blocking true "input did not match the required schema"
reason_summary ReasonCode.version_unsupported =
    meta blocking true "input schema or receipt version is unsupported"
reason_summary ReasonCode.out_of_scope =
    meta blocking true "requested operation is outside the supported contract"

-- `REASON_META`: each summary after the value of the code.
unfoldable pub reason_meta : ReasonCode → ReasonMeta
reason_meta code =
    let entry = reason_summary code in
    record entry { summary = append (reason_text code) (append ": " entry.summary) }
