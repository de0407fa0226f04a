-- ===== src/Tests/Attestations.antt =====
-- An attestation that is accepted under a policy of one key.
use playbook_redline.Base.{
  ℕ, String, ◌≡◌, refl, ◌==◌, Bool, false, Option, none, some, List, [], ◌∷◌, append, length, codes,
}
use playbook_redline.Base.Strip.{strip}
use playbook_redline.Canonical.Dump.{canonical_bytes}
use playbook_redline.Canonical.Hash.{hash_obj, sha256_bytes}
use playbook_redline.Trust.{
  LedgerCheckpoint, LedgerCheckpointAttestation, TrustKey, TrustPolicy, attestation_json,
  policy_json, accepted, parse_public_key, parse_signature, parse_prefixed_hex, bytes_of_hex,
  verify_trust_policy, not_past, not_future, find_key, policy_key, trusted_key, binds,
  attestation_payload, check_signature, check_with, verify_checkpoint_attestation,
}
use playbook_redline.Trust.Acceptance.{ChosenKey, Attested, verify_checkpoint_attestation_sound}
use playbook_redline.Tests.{toy_digest}

abbrev toy_time : String → Option ℕ
toy_time text = some (length (codes text))

abbrev toy_verify : List ℕ → List ℕ → List ℕ → Bool
toy_verify (k ∷ key) (s ∷ signature) (p ∷ payload) = k == s
toy_verify _ _ _ = false

abbrev key_text : String
key_text = "ed25519-public:00112233445566778899aabbccddeeff00112233445566778899aabbccddeeff"

abbrev signature_text : String
signature_text =
    "ed25519-signature:00112233445566778899aabbccddeeff00112233445566778899aabbccddeeff00112233445566778899aabbccddeeff00112233445566778899aabbccddeeff"

abbrev key : TrustKey
key = record {
  key_id = "default";
  public_key = key_text;
  issuer = "ana";
  revoked = false;
  valid_from = none;
  valid_until = some "2027-01-01T00:00:00Z";
}

abbrev unhashed_policy : TrustPolicy
unhashed_policy = record {
  policy_id = "redline-default";
  audience = "redline.publish";
  allow_demo = false;
  keys = key ∷ [];
  policy_hash = "";
}

abbrev policy : TrustPolicy
policy = record unhashed_policy { policy_hash = hash_obj toy_digest (policy_json unhashed_policy) }

abbrev checkpoint : LedgerCheckpoint
checkpoint = record {
  ledger_path = "issuance-ledger.jsonl";
  ledger_hash = "sha256:1";
  ledger_tail_hash = "sha256:2";
  ledger_entry_count = 1;
  subject_receipt_hashes = "sha256:3" ∷ [];
  merkle_root = "sha256:4";
  anchor_kind = "local-artifact";
  checkpoint_hash = "sha256:5";
}

abbrev unhashed : LedgerCheckpointAttestation
unhashed = record {
  checkpoint_hash = "sha256:5";
  ledger_hash = "sha256:1";
  ledger_tail_hash = "sha256:2";
  ledger_entry_count = 1;
  subject_receipt_hashes = "sha256:3" ∷ [];
  trust_policy_id = "redline-default";
  key_id = "default";
  issuer = "ana";
  audience = "redline.publish";
  signer = "ana";
  public_key = key_text;
  signed_at = "2026-06-10T00:00:00Z";
  expires_at = none;
  signature = signature_text;
  attestation_hash = "";
}

abbrev attestation : LedgerCheckpointAttestation
attestation = record unhashed { attestation_hash = hash_obj toy_digest (attestation_json unhashed) }

is_accepted :
    verify_checkpoint_attestation toy_digest toy_time toy_verify 7 checkpoint attestation none
      (some policy)
    ≡ accepted
unfolding verify_checkpoint_attestation trusted_key policy_key verify_trust_policy not_past
    not_future find_key check_with binds check_signature parse_public_key parse_signature
    parse_prefixed_hex bytes_of_hex strip hash_obj canonical_bytes sha256_bytes append
    attestation_payload
is_accepted = refl

verify_checkpoint_attestation_sound_example :
    (k : TrustKey) × ChosenKey toy_digest toy_time toy_verify 7 attestation policy k
    × Attested toy_digest toy_time toy_verify checkpoint attestation k
verify_checkpoint_attestation_sound_example =
    verify_checkpoint_attestation_sound toy_digest toy_time toy_verify 7 checkpoint attestation none
      policy is_accepted
