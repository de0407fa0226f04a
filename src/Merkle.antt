-- ===== src/Merkle.antt =====
-- src/redline/merkle.py: the binary Merkle tree over canonical leaf values. A hash is a text; the
-- digest function is the parameter `digest` of Canonical/Hash.
pub mod Levels
pub mod Completeness
pub mod Heights
pub mod Soundness
use playbook_redline.Base.{
  ℕ, zero, suc, ◌+◌, ◌/◌, ◌%◌, ◌-◌, String, Bool, true, false, ◌&&◌, ◌||◌, not, Option, none, some,
  List, [], ◌∷◌, map, ◌==◌, ltb, leb, str_eq, length, get_elem?, if◌then◌else◌,
}
use playbook_redline.Base.Int.{ℤ, pos, negsuc}
use playbook_redline.Canonical.{Json, str, obj, end, field}
use playbook_redline.Canonical.Hash.{genesis, hash_obj}

-- One entry of a proof, whose hash is a text; `malformed` is one that lacks a key, or whose side is no
-- text.
pub data MerkleProofStep : Type 0 where
  proof_step : String → String → MerkleProofStep
  malformed : MerkleProofStep

-- The sibling of the hash at `cursor`, by its index in the level.
unfoldable pub sibling_index : ℕ → ℕ → ℕ
sibling_index cursor width =
    let sibling = (if cursor % 2 == 0 then cursor + 1 else cursor - 1) in
    if leb width sibling then cursor else sibling

unfoldable pub sibling_step : List String → ℕ → Option MerkleProofStep
unfolding sibling_index
sibling_step level cursor =
    let sibling = sibling_index cursor (length level) in
    elim (get_elem? level sibling) [
      | none ↦ none
      | some hash ↦ some (proof_step (if ltb sibling cursor then "left" else "right") hash)
    ]

unfoldable pub push :
    Option MerkleProofStep → Option (List MerkleProofStep) → Option (List MerkleProofStep)
push (some step) (some proof) = some (step ∷ proof)
push _ _ = none

abbrev pub next_width : Option ℕ → Option ℕ
next_width none = none
next_width (some w) = some ((w + 1) / 2)

-- The test on a hash that is paired with itself at the end of a level of known width.
abbrev pub wrong_pair : Option ℕ → ℕ → String → String → Bool
wrong_pair none cursor sibling current = false
wrong_pair (some w) cursor sibling current = leb w (cursor + 1) && not (str_eq sibling current)

module _ (digest : List ℕ → String) where
  unfoldable pub leaf_hash : Json → String
  leaf_hash leaf = hash_obj digest (obj (field "merkle" (str "leaf") (field "value" leaf end)))

  unfoldable pub node_hash : String → String → String
  node_hash left right =
      hash_obj digest (
        obj (field "merkle" (str "node") (field "left" (str left) (field "right" (str right) end))))

  -- The last hash of a level of odd width is paired with itself.
  unfoldable pub parent_level : List String → List String
  parent_level [] = []
  parent_level (left ∷ []) = node_hash left left ∷ []
  parent_level (left ∷ right ∷ rest) = node_hash left right ∷ parent_level rest

  -- `while len(level) > 1`, on fuel.
  unfoldable pub root_of : ℕ → List String → Option String
  root_of zero level = none
  root_of (suc fuel) [] = none
  root_of (suc fuel) (x ∷ []) = some x
  root_of (suc fuel) (x ∷ y ∷ rest) = root_of fuel (parent_level (x ∷ y ∷ rest))

  -- The fuel is the number of leaves; `none` is never returned (Levels).
  unfoldable pub merkle_root : List Json → Option String
  merkle_root [] = some genesis
  merkle_root (leaf ∷ leaves) = root_of (length (leaf ∷ leaves)) (map leaf_hash (leaf ∷ leaves))

  unfoldable pub proof_of : ℕ → List String → ℕ → Option (List MerkleProofStep)
  unfolding sibling_step push
  proof_of zero level cursor = none
  proof_of (suc fuel) [] cursor = some []
  proof_of (suc fuel) (x ∷ []) cursor = some []
  proof_of (suc fuel) (x ∷ y ∷ rest) cursor =
      push (sibling_step (x ∷ y ∷ rest) cursor)
        (proof_of fuel (parent_level (x ∷ y ∷ rest)) (cursor / 2))

  -- `none` is the IndexError of an index out of range.
  unfoldable pub merkle_proof : List Json → ℤ → Option (List MerkleProofStep)
  merkle_proof leaves (negsuc n) = none
  merkle_proof leaves (pos index) =
      if leb (length leaves) index
      then none
      else proof_of (suc (length leaves)) (map leaf_hash leaves) index

  -- The loop of `verify_inclusion`, its result compared with the root.
  unfoldable pub walk : List MerkleProofStep → String → ℕ → Option ℕ → String → Bool
  walk [] current cursor width root = str_eq current root
  walk (malformed ∷ proof) current cursor width root = false
  walk (proof_step side sibling ∷ proof) current cursor width root =
      let left = walk proof (node_hash sibling current) (cursor / 2) (next_width width) root in
      let right = walk proof (node_hash current sibling) (cursor / 2) (next_width width) root in
      if str_eq side "left"
      then (if cursor % 2 == 0 then false else left)
      else if str_eq side "right"
      then (if cursor % 2 == 1
          then false
          else if wrong_pair width cursor sibling current
          then false
          else right)
      else false

  unfoldable pub start_walk : Json → ℕ → List MerkleProofStep → String → Option ℤ → Bool
  start_walk leaf index proof root none = walk proof (leaf_hash leaf) index none root
  start_walk leaf index proof root (some (negsuc n)) = false
  start_walk leaf index proof root (some (pos count)) =
      if leb count index then false else walk proof (leaf_hash leaf) index (some count) root

  -- `leaf_count` 0 is refused by the same test: no index is below it.
  unfoldable pub verify_inclusion : Json → ℤ → List MerkleProofStep → String → Option ℤ → Bool
  unfolding start_walk
  verify_inclusion leaf (negsuc n) proof root leaf_count = false
  verify_inclusion leaf (pos index) proof root leaf_count =
      start_walk leaf index proof root leaf_count
