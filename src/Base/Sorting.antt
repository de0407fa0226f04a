-- ===== src/Base/Sorting.antt =====
-- Python's `sorted`, a stable sort, as insertion sort; and tests by a list.
use playbook_redline.Base.{String, Bool, false, ◌||◌, List, [], ◌∷◌, str_leb, any, if◌then◌else◌}

module _ {A : Type 0} (le : A → A → Bool) where
  unfoldable pub insert : A → List A → List A
  insert x [] = x ∷ []
  insert x (y ∷ ys) = if le x y then x ∷ y ∷ ys else y ∷ insert x ys

  unfoldable pub sort : List A → List A
  unfolding insert
  sort [] = []
  sort (x ∷ xs) = insert x (sort xs)

-- The first of each group of equal items, in order: the loops `if item not in unique: append`.
module _ {A : Type 0} (eq : A → A → Bool) where
  unfoldable pub unique_from : List A → List A → List A
  unique_from seen [] = []
  unique_from seen (x ∷ xs) =
      let old = unique_from seen xs in
      let new = x ∷ unique_from (x ∷ seen) xs in if any (eq x) seen then old else new

  unfoldable pub unique : List A → List A
  unfolding unique_from
  unique xs = unique_from [] xs

  -- `_has_duplicates`.
  unfoldable pub duplicates_from : List A → List A → Bool
  duplicates_from seen [] = false
  duplicates_from seen (x ∷ xs) = any (eq x) seen || duplicates_from (x ∷ seen) xs

unfoldable pub sort_texts : List String → List String
unfolding sort
sort_texts = sort str_leb
