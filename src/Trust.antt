-- ===== src/Trust.antt =====
-- src/redline/trust.py: trust policies, and the attestation of a ledger checkpoint. Parameters stand for
-- what is not in the repository: `digest` for SHA-256, `verify` for the Ed25519 check of a key, a
-- signature and a payload in bytes, `parse_time` for `datetime.fromisoformat` in UTC, in microseconds.
pub mod Attested
pub mod Acceptance
use playbook_redline.Base.{
  ℕ, String, Bool, true, false, not, ◌&&◌, ◌||◌, Option, none, some, List, [], ◌∷◌, map, all,
  str_eq, ◌==◌, ltb, leb, ◌+◌, ◌*◌, ◌-◌, length, codes, if◌then◌else◌,
}
use playbook_redline.Base.Int.{pos}
use playbook_redline.Base.Strip.{strip}
use playbook_redline.Canonical.{
  Json, bool, int, str, arr, obj, Items, nil, cons, Fields, end, field,
}
use playbook_redline.Canonical.Dump.{canonical_bytes}
use playbook_redline.Canonical.Hash.{hash_obj}

pub record LedgerCheckpoint : Type 0 where
  pub ledger_path : String
  pub ledger_hash : String
  pub ledger_tail_hash : String
  pub ledger_entry_count : ℕ
  pub subject_receipt_hashes : List String
  pub merkle_root : String
  pub anchor_kind : String
  pub checkpoint_hash : String

pub record LedgerCheckpointAttestation : Type 0 where
  pub checkpoint_hash : String
  pub ledger_hash : String
  pub ledger_tail_hash : String
  pub ledger_entry_count : ℕ
  pub subject_receipt_hashes : List String
  pub trust_policy_id : String
  pub key_id : String
  pub issuer : String
  pub audience : String
  pub signer : String
  pub public_key : String
  pub signed_at : String
  pub expires_at : Option String
  pub signature : String
  pub attestation_hash : String

pub record TrustKey : Type 0 where
  pub key_id : String
  pub public_key : String
  pub issuer : String
  pub revoked : Bool
  pub valid_from : Option String
  pub valid_until : Option String

pub record TrustPolicy : Type 0 where
  pub policy_id : String
  pub audience : String
  pub allow_demo : Bool
  pub keys : List TrustKey
  pub policy_hash : String

-- A field that `exclude_none` leaves out.
abbrev pub optional : String → Option String → Fields → Fields
optional name none more = more
optional name (some text) more = field name (str text) more

abbrev pub texts : List String → Items
texts [] = nil
texts (s ∷ ss) = cons (str s) (texts ss)

-- `model_dump` of the models, without the fields that are None.
abbrev pub attestation_json : LedgerCheckpointAttestation → Json
attestation_json a = obj (
    field "version" (str "redline.ledger.attestation.v1") (
      field "checkpoint_hash" (str a.checkpoint_hash) (
        field "ledger_hash" (str a.ledger_hash) (
          field "ledger_tail_hash" (str a.ledger_tail_hash) (
            field "ledger_entry_count" (int (pos a.ledger_entry_count)) (
              field "subject_receipt_hashes" (arr (texts a.subject_receipt_hashes)) (
                field "trust_policy_id" (str a.trust_policy_id) (
                  field "key_id" (str a.key_id) (
                    field "issuer" (str a.issuer) (
                      field "audience" (str a.audience) (
                        field "signer" (str a.signer) (
                          field "public_key" (str a.public_key) (
                            field "signed_at" (str a.signed_at) (
                              optional "expires_at" a.expires_at (
                                field "signature" (str a.signature) (
                                  field "attestation_hash" (str a.attestation_hash)
                                    end))))))))))))))))

abbrev pub key_json : TrustKey → Json
key_json k = obj (
    field "key_id" (str k.key_id) (
      field "public_key" (str k.public_key) (
        field "issuer" (str k.issuer) (
          field "revoked" (bool k.revoked)
            (optional "valid_from" k.valid_from (optional "valid_until" k.valid_until end))))))

abbrev pub key_items : List TrustKey → Items
key_items [] = nil
key_items (k ∷ ks) = cons (key_json k) (key_items ks)

abbrev pub policy_json : TrustPolicy → Json
policy_json p = obj (
    field "version" (str "redline.trust_policy.v1") (
      field "policy_id" (str p.policy_id) (
        field "audience" (str p.audience) (
          field "allow_demo" (bool p.allow_demo) (
            field "keys" (arr (key_items p.keys)) (field "policy_hash" (str p.policy_hash) end))))))

-- What a check answers, or that it raises ValueError.
pub data Answer : Type 0 where
  accepted refused raised : Answer

-- A key that is trusted, none, or a time that cannot be read.
pub data KeyAnswer : Type 0 where
  trusted : TrustKey → KeyAnswer
  untrusted unreadable : KeyAnswer

-- A test of an optional time, which is absent, fails, holds, or cannot be read.
pub data TimeAnswer : Type 0 where
  in_time out_of_time bad_time : TimeAnswer

abbrev pub same_texts : List String → List String → Bool
same_texts [] [] = true
same_texts (s ∷ ss) (t ∷ ts) = str_eq s t && same_texts ss ts
same_texts _ _ = false

abbrev pub of_test : Bool → TimeAnswer
of_test true = in_time
of_test false = out_of_time

abbrev hex_value : ℕ → Option ℕ
hex_value c =
    if leb 48 c && leb c 57
    then some (c - 48)
    else if leb 97 c && leb c 102
    then some (c - 87)
    else if leb 65 c && leb c 70
    then some (c - 55)
    else none

abbrev hex_space : ℕ → Bool
hex_space c = (leb 9 c && leb c 13) || c == 32

abbrev add_byte : Option ℕ → Option ℕ → Option (List ℕ) → Option (List ℕ)
add_byte (some h) (some l) (some bytes) = some ((h * 16 + l) ∷ bytes)
add_byte _ _ _ = none

-- `bytes.fromhex`.
unfoldable pub bytes_of_hex : List ℕ → Option (List ℕ)
bytes_of_hex [] = some []
bytes_of_hex (c ∷ []) = if hex_space c then some [] else none
bytes_of_hex (c ∷ d ∷ r) =
    let skipped = bytes_of_hex (d ∷ r) in
    let rest = bytes_of_hex r in
    if hex_space c then skipped else add_byte (hex_value c) (hex_value d) rest

abbrev drop_prefix : List ℕ → List ℕ → Option (List ℕ)
drop_prefix [] s = some s
drop_prefix (c ∷ word) [] = none
drop_prefix (c ∷ word) (d ∷ s) = let rest = drop_prefix word s in if c == d then rest else none

abbrev of_length : ℕ → Option (List ℕ) → Option (List ℕ)
of_length n none = none
of_length n (some bytes) = if length bytes == n then some bytes else none

-- `_parse_prefixed_hex` of a stripped text; `none` is ValueError.
unfoldable pub parse_prefixed_hex : String → ℕ → String → Option (List ℕ)
unfolding strip bytes_of_hex
parse_prefixed_hex prefix expected_len text =
    elim (drop_prefix (codes prefix) (codes (strip text))) [
      | none ↦ none
      | some hex ↦ of_length expected_len (bytes_of_hex hex)
    ]

-- `_parse_public_key` and `_parse_signature`.
unfoldable pub parse_public_key : String → Option (List ℕ)
parse_public_key = parse_prefixed_hex "ed25519-public:" 32

unfoldable pub parse_signature : String → Option (List ℕ)
parse_signature = parse_prefixed_hex "ed25519-signature:" 64

module _ (digest : List ℕ → String) (parse_time : String → Option ℕ)
    (verify : List ℕ → List ℕ → List ℕ → Bool) where
  -- `verify_trust_policy`.
  unfoldable pub verify_trust_policy : TrustPolicy → Bool
  verify_trust_policy policy =
      str_eq policy.policy_hash (hash_obj digest (policy_json (record policy { policy_hash = "" })))

  -- `time is None or parse(time) > now`, and `time is None or parse(time) <= now`.
  unfoldable pub not_past : ℕ → Option String → TimeAnswer
  not_past now none = in_time
  not_past now (some text) = elim (parse_time text) [
    | none ↦ bad_time
    | some t ↦ of_test (ltb now t)
  ]

  unfoldable pub not_future : ℕ → Option String → TimeAnswer
  not_future now none = in_time
  not_future now (some text) = elim (parse_time text) [
    | none ↦ bad_time
    | some t ↦ of_test (leb t now)
  ]

  abbrev pub then_check : TimeAnswer → KeyAnswer → KeyAnswer
  then_check in_time next = next
  then_check out_of_time next = untrusted
  then_check bad_time next = unreadable

  -- The loop over the keys of the policy: the first with the id and the issuer decides.
  unfoldable pub find_key : ℕ → String → String → List TrustKey → KeyAnswer
  find_key now id issuer [] = untrusted
  find_key now id issuer (key ∷ keys) =
      let rest = find_key now id issuer keys in
      if str_eq key.key_id id && str_eq key.issuer issuer
      then (if key.revoked
          then untrusted
          else then_check (not_future now key.valid_from)
              (then_check (not_past now key.valid_until) (trusted key)))
      else rest

  unfoldable pub policy_key : ℕ → LedgerCheckpointAttestation → TrustPolicy → KeyAnswer
  policy_key now attestation policy =
      if not (verify_trust_policy policy)
      then untrusted
      else if not (
          str_eq policy.policy_id attestation.trust_policy_id
          && str_eq policy.audience attestation.audience)
      then untrusted
      else then_check (not_past now attestation.expires_at)
          (find_key now attestation.key_id attestation.issuer policy.keys)

  -- `_trusted_key`.
  unfoldable pub trusted_key :
      ℕ → LedgerCheckpointAttestation → Option String → Option TrustPolicy → KeyAnswer
  trusted_key now attestation text (some policy) = policy_key now attestation policy
  trusted_key now attestation none none = untrusted
  trusted_key now attestation (some text) none = trusted (record {
    key_id = attestation.key_id;
    public_key = text;
    issuer = attestation.issuer;
    revoked = false;
    valid_from = none;
    valid_until = none;
  })

  -- `_attestation_payload`.
  unfoldable pub attestation_payload : LedgerCheckpointAttestation → List ℕ
  attestation_payload attestation =
      canonical_bytes
        (attestation_json (record attestation { signature = ""; attestation_hash = "" }))

  -- The comparisons of the attestation with its own hash, and with the checkpoint.
  unfoldable pub binds : LedgerCheckpoint → LedgerCheckpointAttestation → Bool
  binds checkpoint attestation =
      str_eq attestation.attestation_hash
        (hash_obj digest (attestation_json (record attestation { attestation_hash = "" })))
      && str_eq attestation.checkpoint_hash checkpoint.checkpoint_hash
      && str_eq attestation.ledger_hash checkpoint.ledger_hash
      && str_eq attestation.ledger_tail_hash checkpoint.ledger_tail_hash
      && attestation.ledger_entry_count == checkpoint.ledger_entry_count
      && same_texts attestation.subject_receipt_hashes checkpoint.subject_receipt_hashes

  unfoldable pub check_signature : Option (List ℕ) → Option (List ℕ) → List ℕ → Answer
  check_signature (some key) (some signature) payload =
      if verify key signature payload then accepted else refused
  check_signature _ _ payload = raised

  unfoldable pub check_with : LedgerCheckpoint → LedgerCheckpointAttestation → KeyAnswer → Answer
  check_with checkpoint attestation untrusted = refused
  check_with checkpoint attestation unreadable = raised
  check_with checkpoint attestation (trusted key) =
      if not (str_eq attestation.public_key key.public_key)
      then refused
      else if not (binds checkpoint attestation)
      then refused
      else check_signature (parse_public_key key.public_key) (parse_signature attestation.signature)
          (attestation_payload attestation)

  -- `verify_checkpoint_attestation`.
  unfoldable pub verify_checkpoint_attestation :
      ℕ
      → LedgerCheckpoint
      → LedgerCheckpointAttestation
      → Option String
      → Option TrustPolicy
      → Answer
  verify_checkpoint_attestation now checkpoint attestation text policy =
      check_with checkpoint attestation (trusted_key now attestation text policy)
