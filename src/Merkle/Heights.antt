-- ===== src/Merkle/Heights.antt =====
-- src/redline/merkle.py: hashes by their height in a tree. Leaves and nodes are hashed under
-- different tags, so a hash has one height, unless two texts with one digest are in hand.
use playbook_redline.Base.{
  ℕ, suc, String, ◌≡◌, refl, sym, ap, ◌∙◌, ◌⊎◌, inl, inr, List, arith, ◌≢◌, eq_iff,
}
use playbook_redline.Canonical.{Json, str, obj, end, field}
use playbook_redline.Canonical.Dump.{normalize}
use playbook_redline.Canonical.Hash.{Collision, hash_obj-inj}
use playbook_redline.Merkle.{leaf_hash, node_hash}

module _ (digest : List ℕ → String) where
  -- A hash with a leaf below it at a height, along some path.
  pub data Above : ℕ → String → Type 0 where
    leaf : (v : Json) (x : String) → x ≡ leaf_hash digest v → Above 0 x
    left :
        {h : ℕ} {a : String} (b x : String) → Above h a → x ≡ node_hash digest a b → Above (suc h) x
    right :
        {h : ℕ} {b : String} (a x : String) → Above h b → x ≡ node_hash digest a b → Above (suc h) x

  -- A hash whose leaves all stand at one height.
  pub data Full : ℕ → String → Type 0 where
    leaf : (v : Json) (x : String) → x ≡ leaf_hash digest v → Full 0 x
    node :
        {h : ℕ} {a b : String} (x : String)
        → Full h a
        → Full h b
        → x ≡ node_hash digest a b
        → Full (suc h) x

  abbrev node_json : String → String → Json
  node_json a b =
      obj (field "merkle" (str "node") (field "left" (str a) (field "right" (str b) end)))

  abbrev leaf_json : Json → Json
  leaf_json v = obj (field "merkle" (str "leaf") (field "value" v end))

  node_json-inj :
      (a b c d : String) → normalize (node_json a b) ≡ normalize (node_json c d) → (a ≡ c) × (b ≡ d)
  unfolding normalize
  node_json-inj a b c d e = (cc, cc)

  leaf_json-inj :
      (v w : Json) → normalize (leaf_json v) ≡ normalize (leaf_json w) → normalize v ≡ normalize w
  unfolding normalize
  leaf_json-inj v w e = cc

  -- The keys of the two payloads differ.
  leaf_json_ne : (v : Json) (a b : String) → normalize (leaf_json v) ≢ normalize (node_json a b)
  unfolding normalize
  leaf_json_ne v a b e = tags (cc)
    where
      tags : ◌≡◌ {A = String} "merkle" "left" → ⊥
      tags p = ground (arith, eq_iff "merkle" "left")

  pub node_hash-inj :
      (a b c d : String)
      → node_hash digest a b ≡ node_hash digest c d
      → ((a ≡ c) × (b ≡ d)) ⊎ Collision digest
  unfolding node_hash
  node_hash-inj a b c d e = elim (hash_obj-inj digest (node_json a b) (node_json c d) e) [
    | inl p ↦ inl (node_json-inj a b c d p)
    | inr found ↦ inr found
  ]

  pub leaf_hash-inj :
      (v w : Json)
      → leaf_hash digest v ≡ leaf_hash digest w
      → (normalize v ≡ normalize w) ⊎ Collision digest
  unfolding leaf_hash
  leaf_hash-inj v w e = elim (hash_obj-inj digest (leaf_json v) (leaf_json w) e) [
    | inl p ↦ inl (leaf_json-inj v w p)
    | inr found ↦ inr found
  ]

  pub leaf_ne_node :
      (v : Json) (a b : String) → leaf_hash digest v ≡ node_hash digest a b → Collision digest
  unfolding leaf_hash node_hash
  leaf_ne_node v a b e = elim (hash_obj-inj digest (leaf_json v) (node_json a b) e) [
    | inl p ↦ absurd (leaf_json_ne v a b p)
    | inr found ↦ found
  ]

  climb :
      {P : Type 0} (h k : ℕ)
      → P ⊎ Collision digest
      → (P → (h ≡ k) ⊎ Collision digest)
      → (suc h ≡ suc k) ⊎ Collision digest
  climb h k (inr found) go = inr found
  climb h k (inl f) go = elim (go f) [ inl g ↦ inl (ap suc g) | inr found ↦ inr found ]

  -- A hash has one height.
  pub one_height :
      {h k : ℕ} {x y : String} → Above h x → Full k y → x ≡ y → (h ≡ k) ⊎ Collision digest
  one_height (leaf v x p) (leaf w y q) e = inl refl
  one_height (leaf v x p) (node {a} {b} y l r q) e = inr (leaf_ne_node v a b (sym p ∙ e ∙ q))
  one_height (left {a} b x u p) (leaf w y q) e = inr (leaf_ne_node w a b (sym q ∙ sym e ∙ p))
  one_height (right {b} a x u p) (leaf w y q) e = inr (leaf_ne_node w a b (sym q ∙ sym e ∙ p))
  one_height (left {h} {a} b x u p) (node {h = k} {a = c} {b = d} y l r q) e =
      climb h k (node_hash-inj a b c d (sym p ∙ e ∙ q)) (λ f. one_height u l f.0)
  one_height (right {h} {b} a x u p) (node {h = k} {a = c} {b = d} y l r q) e =
      climb h k (node_hash-inj a b c d (sym p ∙ e ∙ q)) (λ f. one_height u r f.1)
