-- ===== src/Tests/Hashes.antt =====
-- Canonical texts, their hashes and Merkle proofs at concrete payloads.
use playbook_redline.Base.{String, ◌≡◌, refl, ◌⊎◌, true, none, some, List, [], ◌∷◌, get_elem?}
use playbook_redline.Base.Int.{pos, negsuc}
use playbook_redline.Canonical.{Json, int, str, arr, obj, nil, cons, end, field}
use playbook_redline.Canonical.Dump.{normalize, insert_field}
use playbook_redline.Canonical.Hash.{Collision, hash_obj_cong, hash_obj-inj}
use playbook_redline.Merkle.{MerkleProofStep, merkle_root, merkle_proof, verify_inclusion}
use playbook_redline.Merkle.Levels.{merkle_root_total}
use playbook_redline.Merkle.Completeness.{verify_inclusion-merkle_proof}
use playbook_redline.Merkle.Soundness.{verify_inclusion_sound}
use playbook_redline.Tests.{toy_digest}

abbrev fill : Json
fill = obj (field "side" (str "buy") (field "qty" (int (negsuc 4)) end))

abbrev refill : Json
refill = obj (field "qty" (int (negsuc 4)) (field "side" (str "buy") end))

same_payload : normalize fill ≡ normalize refill
unfolding normalize insert_field
same_payload = refl

hash_obj-inj_example : (normalize fill ≡ normalize refill) ⊎ Collision toy_digest
hash_obj-inj_example =
    hash_obj-inj toy_digest fill refill (hash_obj_cong toy_digest fill refill same_payload)

-- Three leaves: the last one is paired with itself.
abbrev leaves : List Json
leaves = str "run-1" ∷ fill ∷ arr (cons (int (pos 3)) nil) ∷ []

abbrev root : String
root = (merkle_root_total toy_digest leaves).0

root_of_leaves : merkle_root toy_digest leaves ≡ some root
root_of_leaves = (merkle_root_total toy_digest leaves).1

merkle_root_total_example : (r : String) × (merkle_root toy_digest leaves ≡ some r)
merkle_root_total_example = merkle_root_total toy_digest leaves

inclusion :
    (proof : List MerkleProofStep) × (merkle_proof toy_digest leaves (pos 2) ≡ some proof)
    × (verify_inclusion toy_digest (arr (cons (int (pos 3)) nil)) (pos 2) proof root none ≡ true)
    × (verify_inclusion toy_digest (arr (cons (int (pos 3)) nil)) (pos 2) proof root (some (pos 3))
        ≡ true)
inclusion = verify_inclusion-merkle_proof toy_digest leaves 2 refl root_of_leaves

verify_inclusion-merkle_proof_example :
    (proof : List MerkleProofStep) × (merkle_proof toy_digest leaves (pos 1) ≡ some proof)
    × (verify_inclusion toy_digest fill (pos 1) proof root none ≡ true)
    × (verify_inclusion toy_digest fill (pos 1) proof root (some (pos 3)) ≡ true)
verify_inclusion-merkle_proof_example =
    verify_inclusion-merkle_proof toy_digest leaves 1 refl root_of_leaves

verify_inclusion_sound_example :
    ((found : Json) × (get_elem? leaves 2 ≡ some found)
      × (normalize found ≡ normalize (arr (cons (int (pos 3)) nil))))
    ⊎ Collision toy_digest
verify_inclusion_sound_example =
    verify_inclusion_sound toy_digest leaves 2 (arr (cons (int (pos 3)) nil)) inclusion.0 root
      root_of_leaves inclusion.3
