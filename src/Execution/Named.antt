-- ===== src/Execution/Named.antt =====
-- src/redline/sponsor/bitget_execution.py: the symbol that a request names, in the body of an order and
-- in the query for one.
use playbook_redline.Base.{
  String, ◌≡◌, refl, ap, ◌⊎◌, inl, inr, Bool, true, false, not, ◌||◌, Option, none, some, [], ◌∷◌,
  all, append, str_eq, str_eq_refl, Bool-cases, arith,
}
use playbook_redline.Base.Quantifiers.{Exists}
use playbook_redline.Base.Sorting.{insert, sort}
use playbook_redline.Base.Strip.{is_empty}
use playbook_redline.Canonical.{str, obj, Fields}
use playbook_redline.Canonical.Dump.{normalize, normalize_fields}
use playbook_redline.Canonical.Dict.{get, nonempty}
use playbook_redline.Canonical.Lookup.{get-normalize_fields}
use playbook_redline.Execution.{ExecutionIntent, Adapter, Request}
use playbook_redline.Execution.Query.{
  Query, urlencode, filtered, by_key, with_query, path_with_query,
}
use playbook_redline.Execution.Outside.{Outside, place_order_path, order_detail_path, read_request}
use playbook_redline.Execution.Status.{query_of}
use playbook_redline.Execution.Order.{order_payload, order_request}

-- An order: the body is a dict whose symbol is this one.
abbrev pub Orders : String → String → Request → Type 0
Orders base_url symbol request =
    (fields : Fields) × (request.method ≡ "POST")
    × (request.url ≡ append base_url place_order_path)
    × (request.body ≡ some (obj fields))
    × (get fields "symbol" ≡ some (str symbol))

abbrev pub only_symbol : String → String × String → Bool
only_symbol symbol (key, value) = not (str_eq key "symbol") || str_eq value symbol

-- A query for an order: its symbol is this one and no other.
abbrev pub Asks : String → String → Request → Type 0
Asks base_url symbol request =
    (items : Query) × (request.method ≡ "GET")
    × (request.url ≡ append base_url (append order_detail_path (append "?" (urlencode items))))
    × Exists (λ (item : String × String). item ≡ ("symbol", symbol)) items
    × (all (only_symbol symbol) items ≡ true)
    × (request.body ≡ none)

abbrev pub Names : String → String → Request → Type 0
Names base_url symbol request = Orders base_url symbol request ⊎ Asks base_url symbol request

module _ (P : String × String → Type 0) where
  later_in :
      (x y : String × String) (items : Query)
      → (P x ⊎ Exists P items → Exists P (insert by_key x items))
      → P x ⊎ (P y ⊎ Exists P items)
      → P y ⊎ Exists P (insert by_key x items)
  later_in x y items rest (inl p) = inr (rest (inl p))
  later_in x y items rest (inr (inl q)) = inl q
  later_in x y items rest (inr (inr r)) = inr (rest (inr r))

  Exists-insert :
      (x : String × String) (items : Query)
      → P x ⊎ Exists P items
      → Exists P (insert by_key x items)
  unfolding insert
  Exists-insert x [] h = h
  Exists-insert x (y ∷ items) h =
      let later = later_in x y items (λ k. Exists-insert x items k) h in
      elim (Bool-cases (by_key x y)) [ inl e ↦ rw e h | inr e ↦ rw e later ]

  Exists-sort : (items : Query) → Exists P items → Exists P (sort by_key items)
  unfolding sort
  Exists-sort [] h = h
  Exists-sort (x ∷ items) (inl p) = Exists-insert x (sort by_key items) (inl p)
  Exists-sort (x ∷ items) (inr r) = Exists-insert x (sort by_key items) (inr (Exists-sort items r))

module _ (p : String × String → Bool) where
  all-insert :
      (x : String × String) (items : Query)
      → p x ≡ true
      → all p items ≡ true
      → all p (insert by_key x items) ≡ true
  unfolding insert
  all-insert x [] h a = rw h refl
  all-insert x (y ∷ items) h a = elim (Bool-cases (by_key x y)) [
    | inl e ↦ rw (e, h) a
    | inr e ↦
        let here : p y ≡ true = ground arith in
        let rest = all-insert x items h (ground arith) in rw (e, here) rest
  ]

  all-sort : (items : Query) → all p items ≡ true → all p (sort by_key items) ≡ true
  unfolding sort
  all-sort [] a = refl
  all-sort (x ∷ items) a =
      all-insert x (sort by_key items) (ground arith) (all-sort items (ground arith))

  all-filtered : (items : Query) → all p items ≡ true → all p (filtered items) ≡ true
  unfolding filtered
  all-filtered [] a = refl
  all-filtered ((key, value) ∷ items) a =
      let here : p (key, value) ≡ true = ground arith in
      let rest = all-filtered items (ground arith) in
      elim (Bool-cases (is_empty value)) [ inl e ↦ rw e rest | inr e ↦ rw (e, here) rest ]

-- A query that starts with a value that is not empty.
path_with_query_lem :
    (path key value : String) (query : Query)
    → is_empty value ≡ false
    → path_with_query path ((key, value) ∷ query)
      ≡ append path (append "?" (urlencode (sort by_key (filtered ((key, value) ∷ query)))))
unfolding path_with_query filtered with_query
path_with_query_lem path key value query e = rw e refl

Exists-filtered :
    (key value : String) (query : Query)
    → is_empty value ≡ false
    → Exists (λ (item : String × String). item ≡ (key, value)) (filtered ((key, value) ∷ query))
unfolding filtered
Exists-filtered key value query e = rw e (inl refl)

module _ {W : Type 0} (outside : Outside W) (adapter : Adapter) (intent : ExecutionIntent)
    (receipt_hash : String) where
  pub order_request-Names :
      (client_oid : String) (w : W)
      → Names adapter.base_url intent.symbol
          (order_request outside adapter intent receipt_hash client_oid w)
  unfolding normalize
  order_request-Names client_oid w = inl (
      (
        normalize_fields (order_payload intent client_oid),
        refl,
        refl,
        refl,
        get-normalize_fields (order_payload intent client_oid) "symbol",
      ))

  query_only :
      (client_oid : String) (order_id : Option String)
      → all
          (only_symbol intent.symbol)
          (query_of outside adapter intent receipt_hash client_oid order_id)
        ≡ true
  query_only client_oid none = rw (str_eq_refl intent.symbol) refl
  query_only client_oid (some id) = elim (Bool-cases (nonempty (some id))) [
    | inl e ↦ rw (str_eq_refl intent.symbol, e) refl
    | inr e ↦ rw (str_eq_refl intent.symbol, e) refl
  ]

  pub read_request-Names :
      (client_oid : String) (order_id : Option String) (auth : Bool) (w : W)
      → is_empty intent.symbol ≡ false
      → Names adapter.base_url intent.symbol (
          read_request outside adapter order_detail_path
            (query_of outside adapter intent receipt_hash client_oid order_id)
            auth
            w)
  read_request-Names client_oid order_id auth w e =
      let query = query_of outside adapter intent receipt_hash client_oid order_id in
      inr (
        (
          sort by_key (filtered query),
          refl,
          ap (append adapter.base_url)
              (path_with_query_lem order_detail_path "symbol" intent.symbol _ e),
          Exists-sort (λ (item : String × String). item ≡ ("symbol", intent.symbol))
              (filtered query) (Exists-filtered "symbol" intent.symbol _ e),
          all-sort (only_symbol intent.symbol) (filtered query)
              (all-filtered (only_symbol intent.symbol) query (query_only client_oid order_id)),
          refl,
        ))
