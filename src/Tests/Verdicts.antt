-- ===== src/Tests/Verdicts.antt =====
-- Verdicts at concrete proofs.
use playbook_redline.Base.{
  ℕ, String, ◌≡◌, refl, ◌↔◌, Bool, true, false, none, some, List, [], ◌∷◌, All, append,
}
use playbook_redline.Base.Int.{ℤ}
use playbook_redline.Base.Decimal.{parse_decimal, format_fixed, rstrip_char}
use playbook_redline.Canonical.{str, Fields, end, field}
use playbook_redline.Verdict.{
  Status, ProofKind, ChainStatus, Assertion, Proof, CoverageManifest, DecisionContext,
}
use playbook_redline.Verdict.Size.{
  reduce_size_cap_for_breaches, caps_of, add_cap, smallest, least, breaches, proposed_cap,
  cap_of_text, valid_cap, cap_text,
}
use playbook_redline.Verdict.Coverage.{is_probe}
use playbook_redline.Verdict.Decide.{required_proofs, decide}
use playbook_redline.Verdict.Laws.{Passes, decide-Passes}
use playbook_redline.Verdict.Caps.{Capped, Least, reduce_size_cap_sound}
use playbook_redline.Verdict.Tiers.{Coherent, decide-Coherent}
use playbook_redline.Verdict.Severity.{Graded, decide-Graded}
use playbook_redline.Violations.{reason_meta}
use playbook_redline.Tests.{toy_digest}

abbrev assertion : Bool → Assertion
assertion holds = record {
  metric = "max_drawdown";
  op = "<=";
  threshold = "0.2";
  observed = "0.1";
  scenario_id = "crash";
  bar = 7;
  holds = holds;
}

abbrev proof_of : String → ProofKind → List Assertion → Fields → Proof
proof_of id kind assertions meta = record {
  proof_id = id;
  phase = "replay";
  kind = kind;
  verdict_bearing = true;
  inputs_hash = "sha256:1";
  artifact_hash = "sha256:2";
  assertions = assertions;
  reproduce = none;
  fill_model = none;
  lookahead_guard = none;
  fees_modeled = none;
  meta = meta;
}

abbrev probe_meta : Fields → Fields
probe_meta more = field "scenario_id" (str "crash") (field "probe_id" (str "drawdown") more)

abbrev capped : String → Fields
capped cap =
    probe_meta (field "breach_action" (str "reduce_size") (field "adjusted_size_cap" (str cap) end))

abbrev other_proofs : List Proof
other_proofs =
    proof_of "p1" ProofKind.baseline_calibration [] end
    ∷ proof_of "p2" ProofKind.replay [] end
    ∷ proof_of "p3" ProofKind.replay_wellformed [] end
    ∷ proof_of "p4" ProofKind.coverage [] end
    ∷ proof_of "p5" ProofKind.candidate_absolute [] end
    ∷ proof_of "p6" ProofKind.package_canonical [] end
    ∷ proof_of "p7" ProofKind.spec_compile [] end
    ∷ []

abbrev clean_proofs : List Proof
clean_proofs = proof_of "p8" ProofKind.probe (assertion true ∷ []) (probe_meta end) ∷ other_proofs

abbrev breaching_proofs : List Proof
breaching_proofs =
    proof_of "p8" ProofKind.probe (assertion false ∷ []) (capped "0.50")
    ∷ proof_of "p9" ProofKind.probe (assertion false ∷ []) (capped "0.25")
    ∷ other_proofs

abbrev coverage : CoverageManifest
coverage = record {
  manifest = "suite.scenarios×spec.block_probes";
  cells = ("crash", "drawdown") ∷ [];
  complete = true;
  missing = [];
}

abbrev context : DecisionContext
context = record {
  suite_id = "suite-1";
  spec_hash = "sha256:9";
  chain_status = ChainStatus.chained;
  reject_reason = none;
}

decide-Passes_example :
    ((decide toy_digest required_proofs clean_proofs coverage context).status ≡ Status.pass)
    ↔ Passes required_proofs clean_proofs coverage context
decide-Passes_example = decide-Passes toy_digest required_proofs clean_proofs coverage context

decide-Coherent_example :
    let envelope = decide toy_digest required_proofs breaching_proofs coverage context in
    Coherent breaching_proofs envelope.status envelope.verdict_tier envelope.adjusted_size_cap
decide-Coherent_example =
    decide-Coherent toy_digest required_proofs breaching_proofs coverage context

decide-Graded_example :
    let envelope = decide toy_digest required_proofs breaching_proofs coverage context in
    Graded envelope.status (reason_meta envelope.reason_code).severity
decide-Graded_example =
    decide-Graded toy_digest required_proofs breaching_proofs coverage context tt

least_cap : reduce_size_cap_for_breaches breaching_proofs ≡ some "0.25"
unfolding reduce_size_cap_for_breaches smallest caps_of add_cap breaches is_probe proposed_cap
    cap_of_text valid_cap parse_decimal least cap_text format_fixed rstrip_char append
least_cap = refl

reduce_size_cap_sound_example :
    All Capped breaching_proofs × ((c : ℕ × ℤ) × ("0.25" ≡ cap_text c) × Least breaching_proofs c)
reduce_size_cap_sound_example = reduce_size_cap_sound breaching_proofs "0.25" least_cap
