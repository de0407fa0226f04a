-- ===== src/Merkle/Completeness.antt =====
-- src/redline/merkle.py: the proof that `merkle_proof` makes is accepted by `verify_inclusion`.
use text.Mathlib.TextPositions.{eq_refl}
use playbook_redline.Base.{
  ℕ, zero, suc, ◌+◌, ◌/◌, ◌%◌, ◌<◌, String, ◌≡◌, refl, sym, ap, ◌∙◌, ◌⊎◌, inl, inr, true, false,
  Option, none, some, List, [], ◌∷◌, map, arith, ◌==◌, ltb, leb, str_eq, length, length-map,
  get_elem?, Bool-cases, if◌then◌else◌,
}
use playbook_redline.Base.Int.{pos}
use playbook_redline.Canonical.{Json}
use playbook_redline.Merkle.{
  MerkleProofStep, proof_step, leaf_hash, node_hash, parent_level, root_of, merkle_root,
  sibling_index, sibling_step, push, proof_of, merkle_proof, next_width, wrong_pair, walk,
  verify_inclusion,
}
use playbook_redline.Merkle.Levels.{length-parent_level, root_of_more}

sibling_index_step :
    (c n : ℕ) → sibling_index (suc (suc c)) (suc (suc n)) ≡ suc (suc (sibling_index c n))
unfolding sibling_index
sibling_index_step c n = ground arith

sibling_single : sibling_index 0 1 ≡ 0
unfolding sibling_index
sibling_single = refl

sibling_first : (n : ℕ) → sibling_index 0 (suc (suc n)) ≡ 1
unfolding sibling_index
sibling_first n = ground arith

sibling_second : (n : ℕ) → sibling_index 1 (suc (suc n)) ≡ 0
unfolding sibling_index
sibling_second n = ground arith

half_step : (c : ℕ) → suc (suc c) / 2 ≡ suc (c / 2)
half_step c = omega arith

parity_step : (c : ℕ) → suc (suc c) % 2 ≡ c % 2
parity_step c = omega arith

module _ (digest : List ℕ → String) where
  abbrev pub paired : ℕ → String → String → String
  paired c x s = if c % 2 == 0 then node_hash digest x s else node_hash digest s x

  -- A hash of a level, its sibling, and their parent in the level above.
  pub parent_of :
      (level : List String) (c : ℕ) {x : String}
      → get_elem? level c ≡ some x
      → (s : String) × (get_elem? level (sibling_index c (length level)) ≡ some s)
        × (get_elem? (parent_level digest level) (c / 2) ≡ some (paired c x s))
  unfolding parent_level
  parent_of [] c e = cc
  parent_of (a ∷ []) zero {x} e = (a, rw sibling_single, ap (λ y. some (node_hash digest y a)) (cc))
  parent_of (a ∷ []) (suc c) e = cc
  parent_of (a ∷ b ∷ rest) zero {x} e =
      (b, rw sibling_first, ap (λ y. some (node_hash digest y b)) (cc))
  parent_of (a ∷ b ∷ rest) (suc zero) {x} e =
      (a, rw sibling_second, ap (λ y. some (node_hash digest a y)) (cc))
  parent_of (a ∷ b ∷ rest) (suc (suc c)) {x} e =
      let (s, p, q) = parent_of rest c e in
      (s, rw sibling_index_step p, rw (half_step, parity_step) q)

-- The step that `merkle_proof` makes is on the right for an even cursor, and on the left for an odd
-- one; at the end of a level of odd width it is the hash itself.
side_even : (c w : ℕ) → c < w → (c % 2 == 0) ≡ true → ltb (sibling_index c w) c ≡ false
unfolding sibling_index
side_even c w h even = ground arith

side_odd : (c w : ℕ) → c < w → (c % 2 == 0) ≡ false → ltb (sibling_index c w) c ≡ true
unfolding sibling_index
side_odd c w h odd = ground arith

sibling_last :
    (c w : ℕ) → c < w → (c % 2 == 0) ≡ true → leb w (c + 1) ≡ true → sibling_index c w ≡ c
unfolding sibling_index
sibling_last c w h even last = ground arith

pub below :
    {A : Type 0} (level : List A) (c : ℕ) {x : A} → get_elem? level c ≡ some x → c < length level
below [] c e = cc
below (y ∷ level) zero e = omega arith
below (y ∷ level) (suc c) e = omega (arith, below level c e)

same_hash : (s t : String) → s ≡ t → str_eq s t ≡ true
same_hash s t e = rw e (eq_refl t)

not_wrong :
    (level : List String) (width : Option ℕ) (c : ℕ) {x s : String}
    → (width ≡ none) ⊎ (width ≡ some (length level))
    → get_elem? level c ≡ some x
    → get_elem? level (sibling_index c (length level)) ≡ some s
    → (c % 2 == 0) ≡ true
    → wrong_pair width c s x ≡ false
not_wrong level width c (inl w) e f even = rw w
not_wrong level width c {x} {s} (inr w) e f even = elim (Bool-cases (leb (length level) (c + 1))) [
  | inl last ↦
      let i = sibling_last c (length level) (below level c e) even last in
      let p : ◌≡◌ {A = Option String} (some s) (some x) = sym f ∙ ap (get_elem? level) i ∙ e in
      rw (w, last, same_hash s x (cc))
  | inr inside ↦ rw (w, inside)
]

step_even :
    (level : List String) (c : ℕ) {s : String}
    → c < length level
    → get_elem? level (sibling_index c (length level)) ≡ some s
    → (c % 2 == 0) ≡ true
    → sibling_step level c ≡ some (proof_step "right" s)
unfolding sibling_step
step_even level c l f even = rw (f, sibling_step) (rw (side_even c (length level) l even))

step_odd :
    (level : List String) (c : ℕ) {s : String}
    → c < length level
    → get_elem? level (sibling_index c (length level)) ≡ some s
    → (c % 2 == 0) ≡ false
    → sibling_step level c ≡ some (proof_step "left" s)
unfolding sibling_step
step_odd level c l f odd = rw (f, sibling_step) (rw (side_odd c (length level) l odd))

not_odd : (c : ℕ) → (c % 2 == 0) ≡ true → (c % 2 == 1) ≡ false
not_odd c e = ground arith

module _ (digest : List ℕ → String) where
  walk_even :
      (proof : List MerkleProofStep) (x s root : String) (c : ℕ) (width : Option ℕ)
      → (c % 2 == 0) ≡ true
      → wrong_pair width c s x ≡ false
      → walk digest proof (paired digest c x s) (c / 2) (next_width width) root ≡ true
      → walk digest (proof_step "right" s ∷ proof) x c width root ≡ true
  unfolding walk
  walk_even proof x s root c width even right h = rw (not_odd c even, right) (rw even at h)

  walk_odd :
      (proof : List MerkleProofStep) (x s root : String) (c : ℕ) (width : Option ℕ)
      → (c % 2 == 0) ≡ false
      → walk digest proof (paired digest c x s) (c / 2) (next_width width) root ≡ true
      → walk digest (proof_step "left" s ∷ proof) x c width root ≡ true
  unfolding walk
  walk_odd proof x s root c width odd h = rw odd (rw odd at h)

  abbrev Accepted : Option (List MerkleProofStep) → String → ℕ → Option ℕ → String → Type 0
  Accepted none x c width root = ⊥
  Accepted (some proof) x c width root = walk digest proof x c width root ≡ true

  Accepted-step :
      (level : List String) (c : ℕ) {x s : String} (width : Option ℕ) (root : String)
      (rest : Option (List MerkleProofStep))
      → (width ≡ none) ⊎ (width ≡ some (length level))
      → get_elem? level c ≡ some x
      → get_elem? level (sibling_index c (length level)) ≡ some s
      → Accepted rest (paired digest c x s) (c / 2) (next_width width) root
      → Accepted (push (sibling_step level c) rest) x c width root
  unfolding push
  Accepted-step level c width root none w e f h = absurd h
  Accepted-step level c {x} {s} width root (some proof) w e f h =
      let l = below level c e in
      elim (Bool-cases (c % 2 == 0)) [
        | inl even ↦
            rw (step_even level c l f even)
              (walk_even proof x s root c width even (not_wrong level width c w e f even) h)
        | inr odd ↦ rw (step_odd level c l f odd) (walk_odd proof x s root c width odd h)
      ]

  next_level_width :
      (level : List String) (width : Option ℕ)
      → (width ≡ none) ⊎ (width ≡ some (length level))
      → (next_width width ≡ none) ⊎ (next_width width ≡ some (length (parent_level digest level)))
  next_level_width level width (inl e) = inl (ap next_width e)
  next_level_width level width (inr e) =
      inr (ap next_width e ∙ ap some (sym (length-parent_level digest level)))

  -- The proof of a hash of a level leads to the root of the level.
  proof_of-Accepted :
      (fuel : ℕ) (level : List String) (c : ℕ) {x root : String} (width : Option ℕ)
      → (width ≡ none) ⊎ (width ≡ some (length level))
      → get_elem? level c ≡ some x
      → root_of digest fuel level ≡ some root
      → Accepted (proof_of digest fuel level c) x c width root
  unfolding root_of proof_of
  proof_of-Accepted zero level c width w e r = cc
  proof_of-Accepted (suc fuel) [] c width w e r = cc
  proof_of-Accepted (suc fuel) (a ∷ []) zero {x} {root} width w e r =
      unfold walk in same_hash x root (cc)
  proof_of-Accepted (suc fuel) (a ∷ []) (suc c) width w e r = cc
  proof_of-Accepted (suc fuel) (a ∷ b ∷ rest) c {x} {root} width w e r =
      let level : List String = a ∷ b ∷ rest in
      let (s, f, g) = parent_of digest level c e in
      Accepted-step level c width root (proof_of digest fuel (parent_level digest level) (c / 2)) w
        e f
        (proof_of-Accepted fuel (parent_level digest level) (c / 2) (next_width width)
          (next_level_width level width w) g r)

  Accepted-some :
      (o : Option (List MerkleProofStep)) (x root : String) (c : ℕ) (v w : Option ℕ)
      → Accepted o x c v root
      → Accepted o x c w root
      → (proof : List MerkleProofStep) × (o ≡ some proof)
        × (walk digest proof x c v root ≡ true)
        × (walk digest proof x c w root ≡ true)
  Accepted-some none x root c v w a b = absurd a
  Accepted-some (some proof) x root c v w a b = (proof, refl, a, b)

  pub get_elem?-map :
      {A : Type 0} (f : A → String) (xs : List A) (i : ℕ) {x : A}
      → get_elem? xs i ≡ some x
      → get_elem? (map f xs) i ≡ some (f x)
  get_elem?-map f [] i e = cc
  get_elem?-map f (y ∷ xs) zero e = ap some (ap f (cc))
  get_elem?-map f (y ∷ xs) (suc i) e = get_elem?-map f xs i e

  not_beyond : (c n : ℕ) → c < n → leb n c ≡ false
  not_beyond c n h = ground arith

  pub root_fuel :
      (leaves : List Json) (i : ℕ) {leaf : Json} {root : String}
      → get_elem? leaves i ≡ some leaf
      → merkle_root digest leaves ≡ some root
      → root_of digest (suc (length leaves)) (map (leaf_hash digest) leaves) ≡ some root
  unfolding merkle_root
  root_fuel [] i e r = cc
  root_fuel (l ∷ leaves) i e r =
      root_of_more digest (length (l ∷ leaves)) (suc (length (l ∷ leaves)))
        (map (leaf_hash digest) (l ∷ leaves)) (omega arith) r

  -- For every leaf of a list, `merkle_proof` makes a proof, and `verify_inclusion` accepts it against
  -- the root of the list, with the number of leaves given or left out.
  pub verify_inclusion-merkle_proof :
      (leaves : List Json) (i : ℕ) {leaf : Json} {root : String}
      → get_elem? leaves i ≡ some leaf
      → merkle_root digest leaves ≡ some root
      → (proof : List MerkleProofStep) × (merkle_proof digest leaves (pos i) ≡ some proof)
        × (verify_inclusion digest leaf (pos i) proof root none ≡ true)
        × (verify_inclusion digest leaf (pos i) proof root (some (pos (length leaves))) ≡ true)
  unfolding merkle_proof verify_inclusion
  verify_inclusion-merkle_proof leaves i {leaf} {root} e r =
      let level = map (leaf_hash digest) leaves in
      let x = get_elem?-map (leaf_hash digest) leaves i e in
      let n = ap some (length-map (leaf_hash digest) leaves) in
      let fuel = suc (length leaves) in
      let top = root_fuel leaves i e r in
      rw (not_beyond i (length leaves) (below leaves i e)) (
        Accepted-some (proof_of digest fuel level i) (leaf_hash digest leaf) root i none
          (some (length leaves)) (proof_of-Accepted fuel level i none (inl refl) x top)
          (proof_of-Accepted fuel level i (some (length leaves)) (inr (sym n)) x top))
