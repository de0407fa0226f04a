-- ===== src/Bundle/Inversion.antt =====
-- src/redline/service/release.py: what it says of a bundle that a step of a check passed.
use playbook_redline.Base.{
  ℕ, String, ◌≡◌, refl, sym, ap, ◌∙◌, ◌⊎◌, inl, inr, Bool, true, false, ◌&&◌, Option, none, some,
  List, append, arith, Bool-cases, if-true, if-false, if◌then◌else◌, some-inj,
}
use playbook_redline.Canonical.{Json, null, str, arr, obj, Items, nil, cons, Fields}
use playbook_redline.Canonical.Dict.{get, nonempty}
use playbook_redline.Canonical.Hash.{genesis, hash_obj}
use playbook_redline.Ledger.{without, is_str}
use playbook_redline.Execution.Entries.{is_str-some}
use playbook_redline.Execution.Link.{ReadCheckpoint}
use playbook_redline.Bundle.{
  Fault, canonicalization_error, Answer, passed, failed, uncaught, ◌>>=◌, ◌>>◌, require,
  bundle_mapping, bundle_hash_string,
}
use playbook_redline.Bundle.Links.{
  as_dict, approval_in, ledger_of, validated, match_from, matching_issuance_entry,
}

pub bind-passed :
    {A B : Type 0} (m : Answer A) (f : A → Answer B) (b : B)
    → (m >>= f) ≡ passed b
    → (a : A) × (m ≡ passed a) × (f a ≡ passed b)
bind-passed (passed a) f b h = (a, refl, h)
bind-passed (failed fault) f b h = cc
bind-passed uncaught f b h = cc

-- A condition that was required, and what follows.
pub require-passed :
    {B : Type 0} (c : Bool) (fault : Fault) (k : Answer B) (b : B)
    → (require c fault >> k) ≡ passed b
    → (c ≡ true) × (k ≡ passed b)
unfolding require
require-passed true fault k b h = (refl, h)
require-passed false fault k b h = cc

pub require_alone :
    (c : Bool) (fault : Fault) (u : Unit {0}) → require c fault ≡ passed u → c ≡ true
unfolding require
require_alone true fault u h = refl
require_alone false fault u h = cc

pub bundle_mapping-passed :
    (payload : Fields) (name : String) (fields : Fields)
    → bundle_mapping payload name ≡ passed fields
    → get payload name ≡ some (obj fields)
unfolding bundle_mapping
bundle_mapping-passed payload name fields h = go (get payload name) h
  where
    go :
        (o : Option Json)
        → elim o as (λ (x : Option Json). Answer Fields) [
          | some (obj fs) ↦ passed fs
          | _ ↦ failed (canonicalization_error "DATA_MISSING" (append name " is missing"))
        ]
          ≡ passed fields
        → o ≡ some (obj fields)
    go (some (obj fs)) e = let same : fs ≡ fields = cc in ap (λ (x : Fields). some (obj x)) same
    go none e = cc
    go (some _) e = cc

pub bundle_hash_string-passed :
    (payload : Fields) (name label text : String)
    → bundle_hash_string payload name label ≡ passed text
    → get payload name ≡ some (str text)
unfolding bundle_hash_string
bundle_hash_string-passed payload name label text h = go (get payload name) h
  where
    go :
        (o : Option Json)
        → elim o as (λ (x : Option Json). Answer String) [
          | some (str t) ↦
              if nonempty (some t)
              then passed t
              else failed (canonicalization_error "DATA_MISSING" (append label " is missing"))
          | _ ↦ failed (canonicalization_error "DATA_MISSING" (append label " is missing"))
        ]
          ≡ passed text
        → o ≡ some (str text)
    go (some (str t)) e = elim (Bool-cases (nonempty (some t))) [
      | inl y ↦
          let same : passed t ≡ passed text = sym (if-true (nonempty (some t)) _ _ y) ∙ e in
          let found : t ≡ text = cc in ap (λ (x : String). some (str x)) found
      | inr n ↦ let clash = sym (if-false (nonempty (some t)) _ _ n) ∙ e in cc
    ]
    go none e = cc
    go (some _) e = cc

pub as_dict-passed : (j : Json) (fields : Fields) → as_dict j ≡ passed fields → j ≡ obj fields
as_dict-passed (obj fs) fields h = cc
as_dict-passed null fields h = cc
as_dict-passed _ fields h = cc

pub approval_in-passed :
    (o : Option Json) (approval : Fields)
    → approval_in o ≡ passed approval
    → o ≡ some (obj approval)
approval_in-passed (some (obj fs)) approval h = cc
approval_in-passed none approval h = cc
approval_in-passed (some _) approval h = cc

pub ledger_of-passed : (j : Json) (items : Items) → ledger_of j ≡ passed items → j ≡ arr items
ledger_of-passed (arr xs) items h = cc
ledger_of-passed null items h = cc
ledger_of-passed _ items h = cc

pub validated-passed :
    (o : Option ReadCheckpoint) (read : ReadCheckpoint) → validated o ≡ passed read → o ≡ some read
validated-passed (some r) read h = cc
validated-passed none read h = cc

-- An entry of the ledger for the receipt, with its hash.
abbrev pub HasEntry : String → String → Items → Type 0
HasEntry receipt_hash entry_hash nil = ⊥
HasEntry receipt_hash entry_hash (cons (obj entry) entries) =
    ((get entry "receipt_hash" ≡ some (str receipt_hash))
      × (get entry "entry_hash" ≡ some (str entry_hash)))
    ⊎ HasEntry receipt_hash entry_hash entries
HasEntry receipt_hash entry_hash (cons _ entries) = HasEntry receipt_hash entry_hash entries

module _ (digest : List ℕ → String) (receipt_hash : String) where
  match_from-HasEntry :
      (previous : String) (match : Option String) (entries : Items) (found : String)
      → match_from digest receipt_hash previous match entries ≡ passed found
      → (match ≡ some found) ⊎ HasEntry receipt_hash found entries
  unfolding match_from
  match_from-HasEntry previous (some h) nil found e = inl (cc)
  match_from-HasEntry previous none nil found e = cc
  match_from-HasEntry previous match (cons (obj entry) entries) found e =
      let own = hash_obj digest (obj (without "entry_hash" entry)) in
      let hit = is_str (get entry "receipt_hash") receipt_hash in
      let chained =
        is_str (get entry "previous_entry_hash") previous && is_str (get entry "entry_hash") own in
      elim (Bool-cases chained) [
        | inr n ↦ let clash = sym (if-false chained _ _ n) ∙ e in cc
        | inl y ↦
            let hashed : is_str (get entry "entry_hash") own ≡ true = ground arith in
            elim (match_from-HasEntry own (if hit then some own else match) entries found
              (sym (if-true chained _ _ y) ∙ e)) [
                | inr later ↦ inr (inr later)
                | inl here ↦ elim (Bool-cases hit) [
                  | inr n ↦ inl (sym (if-false hit (some own) match n) ∙ here)
                  | inl t ↦
                      let same : own ≡ found =
                        some-inj own found (sym (if-true hit (some own) match t) ∙ here) in
                      inr (
                        inl (
                          (
                            is_str-some (get entry "receipt_hash") receipt_hash t,
                            is_str-some (get entry "entry_hash") own hashed
                                ∙ ap (λ (v : String). some (str v)) same,
                          )))
                ]
              ]
      ]
  match_from-HasEntry previous match (cons null entries) found e = cc
  match_from-HasEntry previous match (cons _ entries) found e = cc

  pub matching_issuance_entry-HasEntry :
      (entries : Items) (found : String)
      → matching_issuance_entry digest entries receipt_hash ≡ passed found
      → HasEntry receipt_hash found entries
  unfolding matching_issuance_entry
  matching_issuance_entry-HasEntry entries found e =
      elim (match_from-HasEntry genesis none entries found e) [ inl clash ↦ cc | inr held ↦ held ]
