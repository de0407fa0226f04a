-- ===== src/Merkle/Levels.antt =====
-- src/redline/merkle.py: the levels of the tree, and that the loops end.
use playbook_redline.Base.{
  ℕ, zero, suc, ◌+◌, ◌/◌, ◌≤◌, ◌<◌, String, ◌≡◌, refl, some, List, [], ◌∷◌, map, arith, length,
  length-map,
}
use playbook_redline.Canonical.{Json}
use playbook_redline.Canonical.Hash.{genesis}
use playbook_redline.Merkle.{leaf_hash, parent_level, root_of, merkle_root}

module _ (digest : List ℕ → String) where
  pub length-parent_level :
      (level : List String) → length (parent_level digest level) ≡ (length level + 1) / 2
  unfolding parent_level
  length-parent_level [] = refl
  length-parent_level (x ∷ []) = refl
  length-parent_level (x ∷ y ∷ rest) = omega (arith, length-parent_level rest)

  -- The root exists for every level that is not empty, with as much fuel as it is wide.
  pub root_of_total :
      (fuel : ℕ) (level : List String)
      → 0 < length level
      → length level ≤ fuel
      → (root : String) × (root_of digest fuel level ≡ some root)
  unfolding root_of
  root_of_total zero level h k = absurd (omega arith)
  root_of_total (suc fuel) [] h k = absurd (omega arith)
  root_of_total (suc fuel) (x ∷ []) h k = (x, refl)
  root_of_total (suc fuel) (x ∷ y ∷ rest) h k =
      let e = length-parent_level (x ∷ y ∷ rest) in
      root_of_total fuel (parent_level digest (x ∷ y ∷ rest)) (omega arith) (omega arith)

  -- Every list of leaves has a Merkle root: the loop ends within one round for each leaf.
  pub merkle_root_total :
      (leaves : List Json) → (root : String) × (merkle_root digest leaves ≡ some root)
  unfolding merkle_root
  merkle_root_total [] = (genesis, refl)
  merkle_root_total (leaf ∷ leaves) =
      let e = length-map (leaf_hash digest) (leaf ∷ leaves) in
      root_of_total (length (leaf ∷ leaves)) (map (leaf_hash digest) (leaf ∷ leaves)) (omega arith)
        (omega arith)

  -- More fuel gives the same root.
  pub root_of_more :
      (fuel more : ℕ) (level : List String) {root : String}
      → fuel ≤ more
      → root_of digest fuel level ≡ some root
      → root_of digest more level ≡ some root
  unfolding root_of
  root_of_more zero more level h e = cc
  root_of_more (suc fuel) zero level h e = absurd (omega arith)
  root_of_more (suc fuel) (suc more) [] h e = cc
  root_of_more (suc fuel) (suc more) (x ∷ []) h e = e
  root_of_more (suc fuel) (suc more) (x ∷ y ∷ rest) h e =
      root_of_more fuel more (parent_level digest (x ∷ y ∷ rest)) (omega arith) e
