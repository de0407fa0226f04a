-- ===== src/Bundle/Checkpoint.antt =====
-- src/redline/service/release.py: what the checkpoint link of a bundle says.
use playbook_redline.Base.{
  ℕ, String, ◌≡◌, ap, ◌∙◌, Bool, true, false, not, ◌||◌, Option, some, List, map, str_eq, eq_iff,
}
use playbook_redline.Base.Quantifiers.{Exists}
use playbook_redline.Canonical.{Json, str, arr, Items, Fields}
use playbook_redline.Canonical.Dict.{get}
use playbook_redline.Merkle.{merkle_root}
use playbook_redline.Ledger.{is_str}
use playbook_redline.Execution.Link.{
  ReadCheckpoint, covers_receipt, same_root, compute_ledger_checkpoint_hash,
}
use playbook_redline.Execution.Linkage.{covers_receipt-Exists, same_root_parts}
use playbook_redline.Execution.Entries.{is_str-some}
use playbook_redline.Bundle.{
  passed, ◌>>◌, require, receipt_mismatch, bundle_mapping, bundle_hash_string,
  bundle_artifact_content,
}
use playbook_redline.Bundle.Links.{
  ledger_of, validated, matching_issuance_entry, check_chain_checkpoint_link,
}
use playbook_redline.Bundle.Inversion.{
  bind-passed, require-passed, require_alone, bundle_mapping-passed, bundle_hash_string-passed,
  ledger_of-passed, validated-passed, HasEntry, matching_issuance_entry-HasEntry,
}
use playbook_redline.Bundle.Parts.{inside, inside-get, IsReceipt}

or_true : (b c : Bool) → (not b || c) ≡ true → b ≡ true → c ≡ true
or_true true c h b = h
or_true false c h b = cc

module _ (digest : List ℕ → String) (validate : Json → Option ReadCheckpoint)
    (bundle : Fields) where
  -- A checkpoint of the bundle with its own hash, the Merkle root of its receipts where it has a root,
  -- the receipt among them, and a ledger with an entry for the receipt; the order names both.
  pub record CheckpointLinked (receipt_hash : String) : Type 0 where
    pub payload : Json
    pub read : ReadCheckpoint
    pub entries : Items
    pub entry_hash : String
    pub file : bundle_artifact_content bundle "issuance-ledger-checkpoint" ≡ passed payload
    pub valid : validate payload ≡ some read
    pub own_hash : read.checkpoint.checkpoint_hash ≡ compute_ledger_checkpoint_hash digest read
    pub root :
        read.has_merkle_root ≡ true
        → merkle_root digest (map str read.checkpoint.subject_receipt_hashes)
          ≡ some read.checkpoint.merkle_root
    pub subject : Exists (λ (s : String). s ≡ receipt_hash) read.checkpoint.subject_receipt_hashes
    pub linked :
        inside bundle "execution_evidence" "issuance_checkpoint_hash"
        ≡ some (str read.checkpoint.checkpoint_hash)
    pub ledger : bundle_artifact_content bundle "issuance-ledger" ≡ passed (arr entries)
    pub entry : HasEntry receipt_hash entry_hash entries
    pub entry_linked :
        inside bundle "execution_evidence" "issuance_ledger_entry_hash" ≡ some (str entry_hash)

  pub checkpoint_linked :
      (detail : String)
      → check_chain_checkpoint_link digest validate bundle ≡ passed detail
      → (h : String) × IsReceipt bundle h × CheckpointLinked h
  unfolding check_chain_checkpoint_link
  checkpoint_linked detail e =
      let (redline, r, e1) = bind-passed (bundle_mapping bundle "redline") _ detail e in
      let (execution, x, e2) =
        bind-passed (bundle_mapping bundle "execution_evidence") _ detail e1 in
      let (payload, p, e3) =
        bind-passed (bundle_artifact_content bundle "issuance-ledger-checkpoint") _ detail e2 in
      let (content, c, e4) =
        bind-passed (bundle_artifact_content bundle "issuance-ledger") _ detail e3 in
      let (entries, n, e5) = bind-passed (ledger_of content) _ detail e4 in
      let (read, v, e6) = bind-passed (validated (validate payload)) _ detail e5 in
      let own = compute_ledger_checkpoint_hash digest read in
      let subjects = read.checkpoint.subject_receipt_hashes in
      let rooted = same_root (merkle_root digest (map str subjects)) read.checkpoint.merkle_root in
      let hashed =
        require (str_eq read.checkpoint.checkpoint_hash own)
          (receipt_mismatch "checkpoint hash mismatch") in
      let root =
        require (not read.has_merkle_root || rooted)
          (receipt_mismatch "checkpoint merkle root mismatch") in
      let text = bundle_hash_string redline "receipt_hash" "receipt hash" in
      let (h, e7, e8) = bind-passed (hashed >> root >> text) _ detail e6 in
      let (u, e9, s) = bind-passed (hashed >> root) _ h e7 in
      let (a, e10) =
        require-passed (str_eq read.checkpoint.checkpoint_hash own)
          (receipt_mismatch "checkpoint hash mismatch") root u e9 in
      let b =
        require_alone (not read.has_merkle_root || rooted)
          (receipt_mismatch "checkpoint merkle root mismatch") u e10 in
      let covered =
        require (covers_receipt h subjects)
          (receipt_mismatch "checkpoint does not cover receipt") in
      let named =
        require (is_str (get execution "issuance_checkpoint_hash") read.checkpoint.checkpoint_hash)
          (receipt_mismatch "checkpoint execution link mismatch") in
      let (k, e11, e12) =
        bind-passed (covered >> named >> matching_issuance_entry digest entries h) _ detail e8 in
      let (w, e13, m) = bind-passed (covered >> named) _ k e11 in
      let (d, e14) =
        require-passed (covers_receipt h subjects)
          (receipt_mismatch "checkpoint does not cover receipt") named w e13 in
      let f =
        require_alone
          (is_str (get execution "issuance_checkpoint_hash") read.checkpoint.checkpoint_hash)
          (receipt_mismatch "checkpoint execution link mismatch") w e14 in
      let (g, e15) =
        require-passed (is_str (get execution "issuance_ledger_entry_hash") k)
          (receipt_mismatch "checkpoint ledger entry link mismatch") _ detail e12 in
      let at = bundle_mapping-passed bundle "execution_evidence" execution x in
      (
        h,
        inside-get bundle "redline" "receipt_hash" redline
              (bundle_mapping-passed bundle "redline" redline r)
            ∙ bundle_hash_string-passed redline "receipt_hash" "receipt hash" h s,
        record {
          payload = payload;
          read = read;
          entries = entries;
          entry_hash = k;
          file = p;
          valid = validated-passed (validate payload) read v;
          own_hash = (eq_iff read.checkpoint.checkpoint_hash own).0 a;
          root = λ (y : read.has_merkle_root ≡ true).
              same_root_parts (merkle_root digest (map str subjects)) read.checkpoint.merkle_root
                (or_true read.has_merkle_root rooted b y);
          subject = covers_receipt-Exists h subjects d;
          linked =
              inside-get bundle "execution_evidence" "issuance_checkpoint_hash" execution at
              ∙ is_str-some (get execution "issuance_checkpoint_hash")
                  read.checkpoint.checkpoint_hash f;
          ledger = c ∙ ap (λ (j : Json). passed j) (ledger_of-passed content entries n);
          entry = matching_issuance_entry-HasEntry digest h entries k m;
          entry_linked =
              inside-get bundle "execution_evidence" "issuance_ledger_entry_hash" execution at
              ∙ is_str-some (get execution "issuance_ledger_entry_hash") k g;
        },
      )
