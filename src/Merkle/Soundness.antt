-- ===== src/Merkle/Soundness.antt =====
-- src/redline/merkle.py: what an accepted inclusion proof says of the leaves behind the root.
use playbook_redline.Base.{
  ℕ, zero, suc, ◌+◌, ◌/◌, ◌%◌, ◌≤◌, ◌<◌, String, ◌≡◌, refl, sym, ap, subst, ◌∙◌, ◌⊎◌, inl, inr,
  true, Option, some, List, [], ◌∷◌, map, arith, ◌==◌, leb, str_eq, eq_iff, length, length-map,
  get_elem?, some-inj, All, Bool-cases,
}
use playbook_redline.Base.Int.{pos}
use playbook_redline.Canonical.{Json}
use playbook_redline.Canonical.Dump.{normalize}
use playbook_redline.Canonical.Hash.{Collision}
use playbook_redline.Merkle.{
  MerkleProofStep, proof_step, malformed, leaf_hash, node_hash, parent_level, root_of, merkle_root,
  next_width, wrong_pair, walk, verify_inclusion,
}
use playbook_redline.Merkle.Levels.{length-parent_level}
use playbook_redline.Merkle.Completeness.{paired, parent_of, get_elem?-map, root_fuel}
use playbook_redline.Merkle.Heights.{Above, Full, node_hash-inj, leaf_hash-inj, one_height}

find :
    {A : Type 0} (level : List A) (c : ℕ)
    → c < length level
    → (x : A) × (get_elem? level c ≡ some x)
find [] c h = absurd (omega arith)
find (x ∷ level) zero h = (x, refl)
find (x ∷ level) (suc c) h = find level c (omega arith)

module _ (digest : List ℕ → String) where
  -- An accepted step: the hash that it leads to, by the side of the sibling.
  walk_step :
      (step : MerkleProofStep) (proof : List MerkleProofStep) (x root : String) (c : ℕ)
      (width : Option ℕ)
      → walk digest (step ∷ proof) x c width root ≡ true
      → (s : String) × (walk digest proof (paired digest c x s) (c / 2) (next_width width) root
          ≡ true)
  unfolding walk
  walk_step malformed proof x root c width h = cc
  walk_step (proof_step side s) proof x root c width h = elim (Bool-cases (str_eq side "left")) [
    | inl l ↦ elim (Bool-cases (c % 2 == 0)) [
      | inl even ↦ cc (rw (l, even) at h)
      | inr odd ↦ (s, rw odd (rw (l, odd) at h))
    ]
    | inr l ↦ elim (Bool-cases (str_eq side "right")) [
      | inl r ↦ elim (Bool-cases (c % 2 == 1)) [
        | inl odd ↦ cc (rw (l, r, odd) at h)
        | inr other ↦ elim (Bool-cases (wrong_pair width c s x)) [
          | inl wrong ↦ cc (rw (l, r, other, wrong) at h)
          | inr right ↦
              let even : (c % 2 == 0) ≡ true = ground arith in
              (s, rw even (rw (l, r, other, right) at h))
        ]
      ]
      | inr r ↦ cc (rw (l, r) at h)
    ]
  ]

  paired-Above :
      (h c : ℕ) {x : String} (s : String)
      → Above digest h x
      → Above digest (suc h) (paired digest c x s)
  paired-Above h c {x} s a = elim (Bool-cases (c % 2 == 0)) [
    | inl even ↦ Above.left s (paired digest c x s) a (rw even)
    | inr odd ↦ Above.right s (paired digest c x s) a (rw odd)
  ]

  -- The root that an accepted walk ends at stands above its start, by the length of the proof.
  walk-Above :
      (proof : List MerkleProofStep) (h c : ℕ) {x : String} (root : String) (width : Option ℕ)
      → Above digest h x
      → walk digest proof x c width root ≡ true
      → (k : ℕ) × (k ≡ length proof + h) × Above digest k root
  walk-Above [] h c {x} root width a e =
      (h, omega arith, subst (Above digest h) ((eq_iff x root).0 (unfold walk in e)) a)
  walk-Above (step ∷ proof) h c {x} root width a e =
      let (s, f) = walk_step step proof x root c width e in
      let (k, p, b) =
        walk-Above proof (suc h) (c / 2) root (next_width width) (paired-Above h c s a) f in
      (k, omega arith, b)

  parent_level-Full :
      (h : ℕ) (level : List String)
      → All (Full digest h) level
      → All (Full digest (suc h)) (parent_level digest level)
  unfolding parent_level
  parent_level-Full h [] a = tt
  parent_level-Full h (x ∷ []) a = (Full.node (node_hash digest x x) a.0 a.0 refl, tt)
  parent_level-Full h (x ∷ y ∷ rest) a =
      (Full.node (node_hash digest x y) a.0 a.1.0 refl, parent_level-Full h rest a.1.1)

  -- The root of a level stands higher than the level, unless it is the level.
  root_of-Full :
      (fuel h : ℕ) (level : List String) {root : String}
      → All (Full digest h) level
      → root_of digest fuel level ≡ some root
      → (k : ℕ) × (h ≤ k) × (2 ≤ length level → h < k) × Full digest k root
  unfolding root_of
  root_of-Full zero h level a e = cc
  root_of-Full (suc fuel) h [] a e = cc
  root_of-Full (suc fuel) h (x ∷ []) {root} a e =
      let p : x ≡ root = cc in
      (h, omega arith, λ two. absurd (omega arith), subst (Full digest h) p a.0)
  root_of-Full (suc fuel) h (x ∷ y ∷ rest) a e =
      let (k, p, q, f) =
        root_of-Full fuel (suc h) (parent_level digest (x ∷ y ∷ rest))
          (parent_level-Full h (x ∷ y ∷ rest) a) e in
      (k, omega arith, λ two. p, f)

  paired_apart :
      (c : ℕ) (x y s t : String)
      → paired digest c x s ≡ paired digest c y t
      → (x ≡ y) ⊎ Collision digest
  paired_apart c x y s t e = elim (Bool-cases (c % 2 == 0)) [
    | inl even ↦ elim (node_hash-inj digest x s y t (rw even at e)) [
      | inl p ↦ inl p.0
      | inr found ↦ inr found
    ]
    | inr odd ↦ elim (node_hash-inj digest s x t y (rw odd at e)) [
      | inl p ↦ inl p.1
      | inr found ↦ inr found
    ]
  ]

  ends_at :
      (x root : String) (c : ℕ) (width : Option ℕ) → walk digest [] x c width root ≡ true → x ≡ root
  unfolding walk
  ends_at x root c width e = (eq_iff x root).0 e

  -- An accepted walk from a place of a level starts at the hash that stands there.
  walk_sound :
      (proof : List MerkleProofStep) (fuel h c : ℕ) (level : List String) {x root : String}
      (width : Option ℕ)
      → All (Full digest h) level
      → Above digest h x
      → c < length level
      → root_of digest fuel level ≡ some root
      → walk digest proof x c width root ≡ true
      → (get_elem? level c ≡ some x) ⊎ Collision digest
  unfolding root_of
  walk_sound proof zero h c level width full a l r e = cc
  walk_sound proof (suc fuel) h c [] width full a l r e = absurd (omega arith)
  walk_sound [] (suc fuel) h zero (y ∷ []) {x} {root} width full a l r e =
      let q : x ≡ root = ends_at x root 0 width e in inl (cc)
  walk_sound proof (suc fuel) h (suc c) (y ∷ []) width full a l r e = absurd (omega arith)
  walk_sound (step ∷ proof) (suc fuel) h zero (y ∷ []) {x} {root} width full a l r e =
      let (k, p, b) = walk-Above (step ∷ proof) h 0 root width a e in
      let q : root ≡ y = cc in
      elim (one_height digest b full.0 q) [
        | inl same ↦ absurd (omega arith)
        | inr found ↦ inr found
      ]
  walk_sound [] (suc fuel) h c (y ∷ z ∷ rest) {x} {root} width full a l r e =
      let q : x ≡ root = ends_at x root c width e in
      let (k, p, higher, f) = root_of-Full (suc fuel) h (y ∷ z ∷ rest) full r in
      elim (one_height digest a f q) [
        | inl same ↦ absurd (omega (arith, higher (omega arith)))
        | inr found ↦ inr found
      ]
  walk_sound (step ∷ proof) (suc fuel) h c (y ∷ z ∷ rest) {x} {root} width full a l r e =
      let level : List String = y ∷ z ∷ rest in
      let (s, f) = walk_step step proof x root c width e in
      let (w, found_at) = find level c l in
      let (t, beside, parent) = parent_of digest level c found_at in
      let size = length-parent_level digest level in
      elim (walk_sound proof fuel (suc h) (c / 2) (parent_level digest level) (next_width width)
        (parent_level-Full h level full) (paired-Above h c s a) (omega arith) r f) [
          | inr found ↦ inr found
          | inl up ↦
              let q : ◌≡◌ {A = Option String} (some (paired digest c w t))
                  (some (paired digest c x s)) =
                sym parent ∙ up in
              elim (paired_apart c w x t s
                (some-inj (paired digest c w t) (paired digest c x s) q)) [
                  | inl same ↦ inl (found_at ∙ ap some same)
                  | inr found ↦ inr found
                ]
        ]

  leaves-Full : (leaves : List Json) → All (Full digest 0) (map (leaf_hash digest) leaves)
  leaves-Full [] = tt
  leaves-Full (v ∷ leaves) = (Full.leaf v (leaf_hash digest v) refl, leaves-Full leaves)

  -- If a proof is accepted for a leaf and an index against the root of a list of leaves, with their
  -- number given, then the leaf at that index is that leaf, up to `normalize`, or two texts with
  -- one digest are in hand. The length of the proof is not part of the claim.
  pub verify_inclusion_sound :
      (leaves : List Json) (i : ℕ) (leaf : Json) (proof : List MerkleProofStep) (root : String)
      → merkle_root digest leaves ≡ some root
      → verify_inclusion digest leaf (pos i) proof root (some (pos (length leaves))) ≡ true
      → ((found : Json) × (get_elem? leaves i ≡ some found) × (normalize found ≡ normalize leaf))
        ⊎ Collision digest
  unfolding verify_inclusion
  verify_inclusion_sound leaves i leaf proof root r e = elim (Bool-cases (leb (length leaves) i)) [
    | inl beyond ↦ cc (rw beyond at e)
    | inr within ↦
        let n = length-map (leaf_hash digest) leaves in
        let l : i < length leaves = ground arith in
        let (found, at) = find leaves i l in
        let hashed = get_elem?-map digest (leaf_hash digest) leaves i at in
        elim (walk_sound proof (suc (length leaves)) 0 i (map (leaf_hash digest) leaves)
          (some (length leaves)) (leaves-Full leaves) (Above.leaf leaf (leaf_hash digest leaf) refl)
          (omega arith) (root_fuel digest leaves i at r) (rw within at e)) [
            | inr collision ↦ inr collision
            | inl same ↦
                elim (leaf_hash-inj digest found leaf
                  (some-inj (leaf_hash digest found) (leaf_hash digest leaf) (sym hashed ∙ same))) [
                    | inl p ↦ inl (found, at, p)
                    | inr collision ↦ inr collision
                  ]
          ]
  ]
