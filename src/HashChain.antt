-- ===== src/HashChain.antt =====
-- The chains of hashes that src/redline keeps as files and tables: each entry holds the hash of the
-- entry before, and its own hash is `hash_obj` of what it holds.
use mathlib.Core.List.{reverse, reverse_aux, reverse-reverse}
use playbook_redline.Base.{
  ℕ, String, ◌≡◌, ◌≢◌, refl, sym, ap, ◌∙◌, ◌⊎◌, inl, inr, List, [], ◌∷◌, map,
}
use playbook_redline.Canonical.{Json}
use playbook_redline.Canonical.Dump.{normalize}
use playbook_redline.Canonical.Hash.{genesis, hash_obj, Collision, hash_obj-inj}

-- The kind of entry of a chain: the hash before, its own, and the payload that is hashed, from which
-- the hash before can be read.
pub record Entry (E : Type 0) : Type 0 where
  pub previous_of : E → String
  pub hash_of : E → String
  pub body : E → Json
  pub previous_of_body :
      (e f : E) → normalize (body e) ≡ normalize (body f) → previous_of e ≡ previous_of f

module _ {E : Type 0} (c : Entry E) where
  open c use {previous_of, hash_of, body, previous_of_body}

  -- The hash at the end of a chain that starts after `previous`.
  abbrev pub end_hash : String → List E → String
  end_hash previous [] = previous
  end_hash previous (e ∷ entries) = end_hash (hash_of e) entries

  -- What the entries hold.
  abbrev pub bodies : List E → List Json
  bodies = map (λ (e : E). normalize (body e))

  -- The hash of the newest of entries that stand newest first.
  abbrev newest : List E → String
  newest [] = genesis
  newest (e ∷ entries) = hash_of e

module _ (digest : List ℕ → String) {E : Type 0} (c : Entry E) where
  open c use {previous_of, hash_of, body, previous_of_body}

  -- Each entry holds the hash before it and its own.
  abbrev pub Linked : String → List E → Type 0
  Linked previous [] = Unit
  Linked previous (e ∷ entries) =
      (previous_of e ≡ previous)
      × (hash_of e ≡ hash_obj digest (body e))
      × Linked (hash_of e) entries

  -- The same of entries that stand newest first.
  abbrev Backward : List E → Type 0
  Backward [] = Unit
  Backward (e ∷ entries) =
      (previous_of e ≡ newest c entries) × (hash_of e ≡ hash_obj digest (body e)) × Backward entries

  Backward-reverse_aux :
      (previous : String) (entries acc : List E)
      → Linked previous entries
      → Backward acc
      → newest c acc ≡ previous
      → Backward (reverse_aux entries acc)
        × (newest c (reverse_aux entries acc) ≡ end_hash c previous entries)
  Backward-reverse_aux previous [] acc l b n = (b, n)
  Backward-reverse_aux previous (e ∷ entries) acc (p, h, l) b n =
      Backward-reverse_aux (hash_of e) entries (e ∷ acc) l (p ∙ sym n, h, b) refl

  module _ (not_genesis : (j : Json) → hash_obj digest j ≢ genesis) where
    -- From the newest entry back, equal hashes mean equal payloads.
    bodies-Backward :
        (es fs : List E)
        → Backward es
        → Backward fs
        → newest c es ≡ newest c fs
        → (bodies c es ≡ bodies c fs) ⊎ Collision digest
    bodies-Backward [] [] b d n = inl refl
    bodies-Backward [] (f ∷ fs) b (q, g, d) n = absurd (not_genesis (body f) (sym (n ∙ g)))
    bodies-Backward (e ∷ es) [] (p, h, b) d n = absurd (not_genesis (body e) (sym h ∙ n))
    bodies-Backward (e ∷ es) (f ∷ fs) (p, h, b) (q, g, d) n =
        elim (hash_obj-inj digest (body e) (body f) (sym h ∙ n ∙ g)) [
          | inr collision ↦ inr collision
          | inl same ↦ elim (bodies-Backward es fs b d (sym p ∙ previous_of_body e f same ∙ q)) [
            | inr collision ↦ inr collision
            | inl rest ↦ inl (cc)
          ]
        ]

  bodies-reverse_aux :
      (entries acc : List E)
      → bodies c (reverse_aux entries acc) ≡ reverse_aux (bodies c entries) (bodies c acc)
  bodies-reverse_aux [] acc = refl
  bodies-reverse_aux (e ∷ entries) acc = bodies-reverse_aux entries (e ∷ acc)

  -- If no hash is the one that stands before the first entry, two chains with one hash at their ends
  -- hold the same payloads, or a collision is in hand.
  pub end_hash-inj :
      ((j : Json) → hash_obj digest j ≢ genesis)
      → (es fs : List E) → Linked genesis es
      → Linked genesis fs
      → end_hash c genesis es ≡ end_hash c genesis fs
      → (bodies c es ≡ bodies c fs) ⊎ Collision digest
  end_hash-inj not_genesis es fs l m n =
      let (b, p) = Backward-reverse_aux genesis es [] l tt refl in
      let (d, q) = Backward-reverse_aux genesis fs [] m tt refl in
      elim (bodies-Backward not_genesis (reverse es) (reverse fs) b d (p ∙ n ∙ sym q)) [
        | inr collision ↦ inr collision
        | inl same ↦ inl (
            sym (reverse-reverse (bodies c es))
            ∙ ap reverse (sym (bodies-reverse_aux es []) ∙ same ∙ bodies-reverse_aux fs [])
            ∙ reverse-reverse (bodies c fs))
      ]
