-- ===== src/Trust/Acceptance.antt =====
-- src/redline/trust.py: `verify_checkpoint_attestation` accepts what a valid key of the policy has signed.
use playbook_redline.Base.{
  ℕ, String, ◌≡◌, refl, ap, ◌∙◌, Bool, true, false, not, ◌&&◌, Option, none, some, List, str_eq,
  eq_iff, arith, if◌then◌else◌,
}
use playbook_redline.Base.Quantifiers.{Exists}
use playbook_redline.Canonical.Hash.{hash_obj}
use playbook_redline.Trust.{
  LedgerCheckpoint, LedgerCheckpointAttestation, TrustKey, TrustPolicy, attestation_json,
  policy_json, accepted, refused, KeyAnswer, trusted, untrusted, unreadable, parse_public_key,
  parse_signature, verify_trust_policy, not_past, policy_key, trusted_key, binds, check_signature,
  check_with, verify_checkpoint_attestation,
}
use playbook_redline.Trust.Attested.{
  NotPast, ValidKey, Binds, Signed, unequal_answers, refused_or, then_check_parts,
  find_key-ValidKey, binds-Binds, not_past-NotPast,
}

module _ (digest : List ℕ → String) (parse_time : String → Option ℕ)
    (verify : List ℕ → List ℕ → List ℕ → Bool) where
  -- A policy that carries its own hash, and is for the attestation.
  abbrev pub PolicyFor : LedgerCheckpointAttestation → TrustPolicy → Type 0
  PolicyFor attestation policy =
      (policy.policy_hash ≡ hash_obj digest (policy_json (record policy { policy_hash = "" })))
      × (policy.policy_id ≡ attestation.trust_policy_id)
      × (policy.audience ≡ attestation.audience)

  -- What a policy's key was chosen for.
  abbrev pub ChosenKey : ℕ → LedgerCheckpointAttestation → TrustPolicy → TrustKey → Type 0
  ChosenKey now attestation policy found =
      PolicyFor attestation policy
      × NotPast digest parse_time verify now attestation.expires_at
      × Exists (ValidKey digest parse_time verify now attestation.key_id attestation.issuer found)
          policy.keys

  policy_key-ChosenKey :
      (now : ℕ) (a : LedgerCheckpointAttestation) (policy : TrustPolicy) (found : TrustKey)
      → policy_key digest parse_time verify now a policy ≡ trusted found
      → ChosenKey now a policy found
  unfolding policy_key verify_trust_policy
  policy_key-ChosenKey now a policy found e =
      let (h, e1) =
        unequal_answers (not (verify_trust_policy digest parse_time verify policy)) _ found e in
      let (m, e2) =
        unequal_answers
          (not (str_eq policy.policy_id a.trust_policy_id && str_eq policy.audience a.audience)) _
          found e1 in
      let (t, e3) =
        then_check_parts digest parse_time verify
          (not_past digest parse_time verify now a.expires_at) _ found e2 in
      (
        (
          (eq_iff policy.policy_hash _).0 (ground arith),
          (eq_iff policy.policy_id a.trust_policy_id).0 (ground arith),
          (eq_iff policy.audience a.audience).0 (ground arith),
        ),
        not_past-NotPast digest parse_time verify now a.expires_at t,
        find_key-ValidKey digest parse_time verify now a.key_id a.issuer policy.keys found e3,
      )

  signature_parts :
      (k s : Option (List ℕ)) (payload : List ℕ)
      → check_signature digest parse_time verify k s payload ≡ accepted
      → (key : List ℕ) × (signature : List ℕ) × (k ≡ some key)
        × (s ≡ some signature)
        × (verify key signature payload ≡ true)
  unfolding check_signature
  signature_parts (some key) (some signature) payload e =
      (key, signature, refl, refl, tested (verify key signature payload) e)
    where
      tested : (b : Bool) → (if b then accepted else refused) ≡ accepted → b ≡ true
      tested true e = refl
      tested false e = cc
  signature_parts (some key) none payload e = cc
  signature_parts none s payload e = cc

  -- The attestation names the key, its own hash and the checkpoint, and is signed.
  abbrev pub Attested : LedgerCheckpoint → LedgerCheckpointAttestation → TrustKey → Type 0
  Attested checkpoint attestation key =
      (attestation.public_key ≡ key.public_key)
      × (attestation.attestation_hash
          ≡ hash_obj digest (attestation_json (record attestation { attestation_hash = "" })))
      × Binds digest parse_time verify checkpoint attestation
      × Signed digest parse_time verify attestation

  own_hash :
      (c : LedgerCheckpoint) (a : LedgerCheckpointAttestation)
      → binds digest parse_time verify c a ≡ true
      → a.attestation_hash ≡ hash_obj digest (attestation_json (record a { attestation_hash = "" }))
  unfolding binds
  own_hash c a e = (eq_iff a.attestation_hash _).0 (ground arith)

  check_with-Attested :
      (c : LedgerCheckpoint) (a : LedgerCheckpointAttestation) (k : KeyAnswer)
      → check_with digest parse_time verify c a k ≡ accepted
      → (key : TrustKey) × (k ≡ trusted key) × Attested c a key
  unfolding check_with
  check_with-Attested c a untrusted e = cc
  check_with-Attested c a unreadable e = cc
  check_with-Attested c a (trusted key) e =
      let (p, e1) = refused_or (not (str_eq a.public_key key.public_key)) _ e in
      let (b, e2) = refused_or (not (binds digest parse_time verify c a)) _ e1 in
      let same : a.public_key ≡ key.public_key =
        (eq_iff a.public_key key.public_key).0 (ground arith) in
      let (raw, signature, q, s, v) =
        signature_parts (parse_public_key key.public_key) (parse_signature a.signature) _ e2 in
      (
        key,
        refl,
        (
          same,
          own_hash c a (ground arith),
          binds-Binds digest parse_time verify c a (ground arith),
          (raw, signature, ap parse_public_key same ∙ q, s, v),
        ),
      )

  -- When an attestation is accepted under a policy, the policy carries its own hash, has the id and
  -- the audience of the attestation, and among its keys one of the attestation's id and issuer that
  -- is not revoked and valid at the time; the attestation has not expired, carries its own hash, has
  -- the hashes, the count and the subjects of the checkpoint, and is signed by that key.
  pub verify_checkpoint_attestation_sound :
      (now : ℕ) (checkpoint : LedgerCheckpoint) (attestation : LedgerCheckpointAttestation)
      (text : Option String) (policy : TrustPolicy)
      → verify_checkpoint_attestation digest parse_time verify now checkpoint attestation text
          (some policy)
        ≡ accepted
      → (key : TrustKey) × ChosenKey now attestation policy key
        × Attested checkpoint attestation key
  unfolding verify_checkpoint_attestation trusted_key
  verify_checkpoint_attestation_sound now c a text policy e =
      let (key, k, attested) =
        check_with-Attested c a (policy_key digest parse_time verify now a policy) e in
      (key, policy_key-ChosenKey now a policy key k, attested)
