-- ===== src/Lib.antt =====
-- Playbook Redline decides whether a change to a trading strategy may be released. A candidate is
-- replayed against anchored scenarios; probes turn the replays into proofs; the verdict kernel turns
-- proofs and their coverage into a decision; a receipt records the decision, and an issuance ledger
-- of chained hashes keeps a candidate from being judged twice; a release candidate then goes through
-- a state machine whose gates ask for evidence of each step; Merkle trees and canonical hashes bind
-- the artifacts to one another.
--
-- What models what (paths from the repository's root):
--   Base            shared names, Python's text, sorting and decimal operations
--   Canonical       src/redline/canonical.py: payloads, `normalize`, `canonical_bytes`, `hash_obj`
--   Merkle          src/redline/merkle.py: `merkle_root`, `merkle_proof`, `verify_inclusion`
--   Release         src/redline/service/transitions.py, and of src/redline/service/models.py,
--                   release.py and app.py the release record, `compute_release_tier` and
--                   `_transition_release_or_409`
--   Verdict         src/redline/proof_kernel.py: `decide`, and its types in src/redline/models.py
--   Violations      src/redline/violations.py: `REASON_META`
--   Tripwire        src/redline/tripwire.py: `_audit_hook`
--   Ledger          the issuance ledger of src/redline/receipt.py: `atomic_write_receipt`,
--                   `_append_ledger`, `_raise_on_ledger_conflict`, `_read_ledger_entries`
--   Trust           src/redline/trust.py: `verify_checkpoint_attestation`, `_trusted_key`
--   Jobs            the release jobs of src/redline/service/store.py: `claim_next_release_job`,
--                   `recover_interrupted_release_jobs`, `cancel_release_job` and the others
--   Jobs.Events     the events of release jobs there: `append_release_job_event`,
--                   `list_release_job_events`, `_validate_release_job_event_chain`
--   Runs            the runs of src/redline/service/store.py: `claim_next_run`,
--                   `requeue_interrupted_runs` and the others
--   Approvals       the release rows of src/redline/service/store.py: `consume_release_approval`
--   Execution       src/redline/sponsor/bitget_execution.py: `_send`, `query_order_status` and
--                   `place_order`; the headers of src/redline/sponsor/bitget.py
--   Execution.Ledger, Link, Evidence, Sidecars
--                   the execution ledger and evidence there: `load_execution_ledger`,
--                   `_resolve_issuance_link`, `write_execution_evidence_artifacts`, and
--                   `compute_ledger_checkpoint_hash` of src/redline/receipt.py; the files of
--                   preflight and order-status evidence
--   Bundle          the links of an evidence bundle in src/redline/service/release.py:
--                   `_verify_bundle_chain_links` and its four checks, `approval_record_hash`,
--                   `_run_bundle_check` and `_verify_bundle_execution_sidecars`
--   HashChain       what the chains of the ledgers and of the job events have in common
--   Tests           runs and applications of the theorems at concrete inputs
--
-- Definitions keep the names of the code, without a leading underscore. An exception is a value: an
-- Option, a Bool or a data type of outcomes. SHA-256 is a parameter `digest` from lists of code
-- points to texts, since UTF-8 encodes those injectively; a theorem that would need it to have no
-- collisions has a collision as its other case. A JSON payload is null, a Boolean, an integer, a
-- text, a list or a dict with text keys in the order of insertion. The `updates` of a transition are
-- a function on releases.
--
-- Loops are structural, or on fuel: `root_of` and `proof_of` take the number of leaves and one more,
-- and Merkle/Levels shows that this is enough; the digits of a number take the number and one more,
-- which Canonical/Numerals relies on.
--
-- Decimals are exact, with ASCII digits; the limits that the decimal module sets on exponents are
-- left out. The issuance ledger is a list of lines as `json.loads` reads them, a missing file an
-- empty one. The execution ledger and the evidence are files that are missing, unreadable, not in
-- UTF-8, or hold what pydantic reads of them; a write is atomic, and a process may stop between two.
-- The guards of io_safety and other failures of the file system are left out. Floats, enumerations
-- and model objects inside payloads are written out by the callers. The Ed25519 check, the reading
-- of times, the transport to the exchange, pydantic's reading of a checkpoint and the run directories
-- of a release are parameters. A transaction of the store is one function on a table, with the clock
-- as an argument; a transaction that fails leaves the table as it was. Whether the tripwire is
-- active is an argument, and the flags of `open` have the bits of Linux. Endpoints, the exchange
-- preflight, the sponsor read-back, the sandbox and the command line are not modelled.
pub mod Base
pub mod Canonical
pub mod HashChain
pub mod Release
pub mod Merkle
pub mod Verdict
pub mod Violations
pub mod Tripwire
pub mod Ledger
pub mod Jobs
pub mod Runs
pub mod Approvals
pub mod Trust
pub mod Execution
pub mod Bundle
pub mod Tests
