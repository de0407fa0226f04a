-- ===== src/Trust/Attested.antt =====
-- src/redline/trust.py: what an accepted attestation has been checked for.
use mathlib.Core.Bool.{false≢true}
use playbook_redline.Base.{
  ℕ, String, ◌≡◌, refl, sym, ◌∙◌, inl, inr, ◌<◌, ◌≤◌, Bool, true, false, ◌&&◌, Option, none, some,
  List, [], ◌∷◌, str_eq, eq_iff, Bool-cases, if-true, if-false, arith, ==_iff, ltb, leb,
  if◌then◌else◌,
}
use playbook_redline.Base.Quantifiers.{Exists}
use playbook_redline.Trust.{
  LedgerCheckpoint, LedgerCheckpointAttestation, TrustKey, Answer, accepted, refused, KeyAnswer,
  trusted, untrusted, TimeAnswer, in_time, out_of_time, bad_time, same_texts, of_test,
  parse_public_key, parse_signature, not_past, not_future, then_check, find_key,
  attestation_payload, binds,
}

of_test-true : (b : Bool) → of_test b ≡ in_time → b ≡ true
of_test-true true e = refl
of_test-true false e = cc

ltb_lt : (a b : ℕ) → ltb a b ≡ true → a < b
ltb_lt a b e = ground arith

leb_le : (a b : ℕ) → leb a b ≡ true → a ≤ b
leb_le a b e = ground arith

pub unequal_answers :
    (b : Bool) (next : KeyAnswer) (k : TrustKey)
    → (if b then untrusted else next) ≡ trusted k
    → (b ≡ false) × (next ≡ trusted k)
unequal_answers true next k e = cc
unequal_answers false next k e = (refl, e)

pub refused_or :
    (b : Bool) (next : Answer)
    → (if b then refused else next) ≡ accepted
    → (b ≡ false) × (next ≡ accepted)
refused_or true next e = cc
refused_or false next e = (refl, e)

trusted-inj : (a b : TrustKey) → trusted a ≡ trusted b → a ≡ b
trusted-inj a b e = cc

same_texts-eq : (ss ts : List String) → same_texts ss ts ≡ true → ss ≡ ts
same_texts-eq [] [] e = refl
same_texts-eq [] (t ∷ ts) e = absurd (false≢true e)
same_texts-eq (s ∷ ss) [] e = absurd (false≢true e)
same_texts-eq (s ∷ ss) (t ∷ ts) e =
    let p : s ≡ t = (eq_iff s t).0 (ground arith) in
    let q : ss ≡ ts = same_texts-eq ss ts (ground arith) in cc

module _ (digest : List ℕ → String) (parse_time : String → Option ℕ)
    (verify : List ℕ → List ℕ → List ℕ → Bool) where
  -- A time that is absent, or can be read and has not passed.
  abbrev pub NotPast : ℕ → Option String → Type 0
  NotPast now none = Unit
  NotPast now (some text) = (t : ℕ) × (parse_time text ≡ some t) × (now < t)

  abbrev pub NotFuture : ℕ → Option String → Type 0
  NotFuture now none = Unit
  NotFuture now (some text) = (t : ℕ) × (parse_time text ≡ some t) × (t ≤ now)

  -- A key of an id and an issuer that is not revoked, and valid now.
  abbrev pub ValidKey : ℕ → String → String → TrustKey → TrustKey → Type 0
  ValidKey now id issuer found key =
      (key ≡ found)
      × (key.key_id ≡ id)
      × (key.issuer ≡ issuer)
      × (key.revoked ≡ false)
      × NotFuture now key.valid_from
      × NotPast now key.valid_until

  pub not_past-NotPast :
      (now : ℕ) (o : Option String)
      → not_past digest parse_time verify now o ≡ in_time
      → NotPast now o
  unfolding not_past
  not_past-NotPast now none e = tt
  not_past-NotPast now (some text) e = go (parse_time text) refl e
    where
      go :
          (o : Option ℕ)
          → parse_time text ≡ o
          → elim o as (λ _. TimeAnswer) [ none ↦ bad_time | some t ↦ of_test (ltb now t) ] ≡ in_time
          → NotPast now (some text)
      go none q e = cc
      go (some t) q e = (t, q, ltb_lt now t (of_test-true (ltb now t) e))

  not_future-NotFuture :
      (now : ℕ) (o : Option String)
      → not_future digest parse_time verify now o ≡ in_time
      → NotFuture now o
  unfolding not_future
  not_future-NotFuture now none e = tt
  not_future-NotFuture now (some text) e = go (parse_time text) refl e
    where
      go :
          (o : Option ℕ)
          → parse_time text ≡ o
          → elim o as (λ _. TimeAnswer) [ none ↦ bad_time | some t ↦ of_test (leb t now) ] ≡ in_time
          → NotFuture now (some text)
      go none q e = cc
      go (some t) q e = (t, q, leb_le t now (of_test-true (leb t now) e))

  pub then_check_parts :
      (a : TimeAnswer) (next : KeyAnswer) (k : TrustKey)
      → then_check digest parse_time verify a next ≡ trusted k
      → (a ≡ in_time) × (next ≡ trusted k)
  then_check_parts in_time next k e = (refl, e)
  then_check_parts out_of_time next k e = cc
  then_check_parts bad_time next k e = cc

  key_valid :
      (now : ℕ) (id issuer : String) (key found : TrustKey)
      → (str_eq key.key_id id && str_eq key.issuer issuer) ≡ true
      → (if key.revoked
          then untrusted
          else then_check digest parse_time verify
              (not_future digest parse_time verify now key.valid_from)
              (then_check digest parse_time verify
                (not_past digest parse_time verify now key.valid_until)
                (trusted key)))
        ≡ trusted found
      → ValidKey now id issuer found key
  key_valid now id issuer key found m e =
      let (r, e1) = unequal_answers key.revoked _ found e in
      let (f, e2) =
        then_check_parts (not_future digest parse_time verify now key.valid_from) _ found e1 in
      let (u, e3) =
        then_check_parts (not_past digest parse_time verify now key.valid_until) (trusted key) found
          e2 in
      (
        trusted-inj key found e3,
        (eq_iff key.key_id id).0 (ground arith),
        (eq_iff key.issuer issuer).0 (ground arith),
        r,
        not_future-NotFuture now key.valid_from f,
        not_past-NotPast now key.valid_until u,
      )

  pub find_key-ValidKey :
      (now : ℕ) (id issuer : String) (keys : List TrustKey) (found : TrustKey)
      → find_key digest parse_time verify now id issuer keys ≡ trusted found
      → Exists (ValidKey now id issuer found) keys
  unfolding find_key
  find_key-ValidKey now id issuer [] found e = cc
  find_key-ValidKey now id issuer (key ∷ keys) found e =
      elim (Bool-cases (str_eq key.key_id id && str_eq key.issuer issuer)) [
        | inl m ↦ inl (
            key_valid now id issuer key found m
              (sym (if-true (str_eq key.key_id id && str_eq key.issuer issuer) _ _ m) ∙ e))
        | inr m ↦ inr (
            find_key-ValidKey now id issuer keys found
              (sym (if-false (str_eq key.key_id id && str_eq key.issuer issuer) _ _ m) ∙ e))
      ]

  -- The attestation says of the ledger what the checkpoint says.
  abbrev pub Binds : LedgerCheckpoint → LedgerCheckpointAttestation → Type 0
  Binds checkpoint attestation =
      (attestation.checkpoint_hash ≡ checkpoint.checkpoint_hash)
      × (attestation.ledger_hash ≡ checkpoint.ledger_hash)
      × (attestation.ledger_tail_hash ≡ checkpoint.ledger_tail_hash)
      × (attestation.ledger_entry_count ≡ checkpoint.ledger_entry_count)
      × (attestation.subject_receipt_hashes ≡ checkpoint.subject_receipt_hashes)

  -- The signature of the attestation is that of its public key on its payload.
  abbrev pub Signed : LedgerCheckpointAttestation → Type 0
  Signed attestation =
      (key : List ℕ) × (signature : List ℕ) × (parse_public_key attestation.public_key ≡ some key)
      × (parse_signature attestation.signature ≡ some signature)
      × (verify key signature (attestation_payload digest parse_time verify attestation) ≡ true)

  pub binds-Binds :
      (c : LedgerCheckpoint) (a : LedgerCheckpointAttestation)
      → binds digest parse_time verify c a ≡ true
      → Binds c a
  unfolding binds
  binds-Binds c a e = (
    (eq_iff a.checkpoint_hash c.checkpoint_hash).0 (ground arith),
    (eq_iff a.ledger_hash c.ledger_hash).0 (ground arith),
    (eq_iff a.ledger_tail_hash c.ledger_tail_hash).0 (ground arith),
    (==_iff a.ledger_entry_count c.ledger_entry_count).0 (ground arith),
    same_texts-eq a.subject_receipt_hashes c.subject_receipt_hashes (ground arith),
  )
