-- ===== src/Canonical/Hash.antt =====
-- src/redline/canonical.py: `hash_obj`. Equal hashes mean equal payloads, or two different texts
-- with one SHA-256 digest in hand.
use playbook_redline.Base.{
  ℕ, String, ◌≡◌, ◌≢◌, refl, sym, ap, ◌∙◌, ◌⊎◌, inl, inr, List, [], append, ℕ_discrete,
}
use playbook_redline.Canonical.{Json}
use playbook_redline.Canonical.Dump.{normalize, dump, canonical_bytes}
use playbook_redline.Canonical.Unambiguous.{dump-injective}

-- `"sha256:genesis"`, the hash that precedes the first entry of every chain.
abbrev pub genesis : String
genesis = "sha256:genesis"

List-discrete : Discrete (List ℕ)
List-discrete = hlevel ℕ_discrete

-- Two texts that SHA-256 does not tell apart.
pub record Collision (digest : List ℕ → String) : Type 0 where
  pub left : List ℕ
  pub right : List ℕ
  pub distinct : left ≢ right
  pub same : digest left ≡ digest right

-- `sha256_bytes`.
unfoldable pub sha256_bytes : (List ℕ → String) → List ℕ → String
sha256_bytes digest text = append "sha256:" (digest text)

unfoldable pub hash_obj : (List ℕ → String) → Json → String
unfolding sha256_bytes
hash_obj digest j = sha256_bytes digest (canonical_bytes j)

-- What follows the seven characters of `sha256:`.
abbrev after_prefix : String → String
after_prefix
      (String.◌∷◌ a (
        String.◌∷◌ b
          (String.◌∷◌ c (String.◌∷◌ d (String.◌∷◌ e (String.◌∷◌ f (String.◌∷◌ g s))))))) =
    s
after_prefix s = s

module _ (digest : List ℕ → String) where
  digest_of_hash : (j : Json) → after_prefix (hash_obj digest j) ≡ digest (canonical_bytes j)
  unfolding hash_obj append
  digest_of_hash j = refl

  -- The payloads of equal hashes are equal after `normalize`, or a collision is in hand.
  pub hash_obj-inj :
      (a b : Json)
      → hash_obj digest a ≡ hash_obj digest b
      → (normalize a ≡ normalize b) ⊎ Collision digest
  hash_obj-inj a b e =
      let same : digest (canonical_bytes a) ≡ digest (canonical_bytes b) =
        sym (digest_of_hash a) ∙ ap after_prefix e ∙ digest_of_hash b in
      elim (List-discrete (canonical_bytes a) (canonical_bytes b)) [
        | yes p ↦ inl (dump-injective (normalize a) (normalize b) (unfold canonical_bytes in p))
        | no p ↦ inr (record {
          left = canonical_bytes a;
          right = canonical_bytes b;
          distinct = p;
          same = same;
        })
      ]

  pub hash_obj_cong :
      (a b : Json) → normalize a ≡ normalize b → hash_obj digest a ≡ hash_obj digest b
  unfolding hash_obj canonical_bytes
  hash_obj_cong a b e = ap (λ (j : Json). sha256_bytes digest (dump j [])) e
