-- ===== src/Approvals/SingleUse.antt =====
-- src/redline/service/store.py: an approval is consumed once.
use mathlib.Core.Bool.{false≢true}
use playbook_redline.Base.{
  String, ◌≡◌, ◌≢◌, refl, sym, ap, ◌∙◌, inl, inr, subst, Bool, true, false, not, ◌&&◌, Option, none,
  some, some-inj, List, [], ◌∷◌, map, any, All, str_eq, str_eq_refl, eq_iff, Bool-cases, if-true,
  if-false, if-some, arith, if◌then◌else◌,
}
use playbook_redline.Canonical.{Json, str, Fields, end, field}
use playbook_redline.Canonical.Dict.{get}
use playbook_redline.Release.{ReleaseCandidate}
use playbook_redline.Release.Tier.{set_field}
use playbook_redline.Approvals.{
  ReleaseRow, set_text, is_set, row_of, has_id, find_row, text_is, unset, is_nonce, open_approval,
  matches, consumed_row, consume_row, consume_open, consume_release_approval,
}

get-set_field : (k : String) (v : Json) (fs : Fields) → get (set_field k v fs) k ≡ some v
unfolding set_field
get-set_field k v end = rw (str_eq_refl k) refl
get-set_field k v (field j w fs) = elim (Bool-cases (str_eq j k)) [
  | inl y ↦ rw (y, str_eq_refl k) refl
  | inr n ↦ rw (n, n) (get-set_field k v fs)
]

-- The columns of a row say what its approval says.
abbrev pub Synced : ReleaseRow → Type 0
Synced row = row ≡ row_of row.release

some_of : (ReleaseRow → ReleaseRow) → Option ReleaseRow → Option ReleaseRow
some_of f none = none
some_of f (some row) = some (f row)

find_row-map :
    (f : ReleaseRow → ReleaseRow)
    → ((row : ReleaseRow) → (f row).release.release_id ≡ row.release.release_id)
    → (id : String) (table : List ReleaseRow)
    → find_row id (map f table) ≡ some_of f (find_row id table)
unfolding find_row some_of
find_row-map f keeps id [] = refl
find_row-map f keeps id (row ∷ table) =
    let here : has_id id (f row) ≡ has_id id row = ap (λ (x : String). str_eq x id) (keeps row) in
    elim (Bool-cases (has_id id row)) [
      | inl y ↦ rw (y, here ∙ y) refl
      | inr n ↦ rw (n, here ∙ n) (find_row-map f keeps id table)
    ]

consume_row-id :
    (id nonce at : String) (approval : Fields) (row : ReleaseRow)
    → (consume_row id nonce at approval row).release.release_id ≡ row.release.release_id
unfolding consume_row
consume_row-id id nonce at approval row = elim (Bool-cases (matches id nonce row)) [
  | inl y ↦ rw y refl
  | inr n ↦ rw n refl
]

find_row-Synced :
    (id : String) (table : List ReleaseRow) (row : ReleaseRow)
    → All Synced table
    → find_row id table ≡ some row
    → Synced row × (has_id id row ≡ true)
unfolding find_row
find_row-Synced id [] row s e = cc
find_row-Synced id (x ∷ table) row (s, ss) e = elim (Bool-cases (has_id id x)) [
  | inl y ↦
      let q : x ≡ row = some-inj x row (sym (if-true (has_id id x) (some x) _ y) ∙ e) in
      (subst Synced q s, subst (λ (r : ReleaseRow). has_id id r ≡ true) q y)
  | inr n ↦ find_row-Synced id table row ss (sym (if-false (has_id id x) (some x) _ n) ∙ e)
]

open_parts :
    (a : Option Fields) (nonce : String) (approval : Fields)
    → open_approval a nonce ≡ some approval
    → (a ≡ some approval)
      × (is_nonce (get approval "nonce") nonce ≡ true)
      × (is_set (get approval "consumed_at") ≡ false)
open_parts none nonce approval e = cc
open_parts (some fs) nonce approval e =
    let (t, q) =
      if-some (is_nonce (get fs "nonce") nonce && not (is_set (get fs "consumed_at"))) fs approval
        e in
    subst
      (λ (x : Fields).
        (some fs ≡ some x)
        × (is_nonce (get x "nonce") nonce ≡ true)
        × (is_set (get x "consumed_at") ≡ false))
      q ((refl, ground arith, ground arith))

nonce_text :
    (o : Option Json) (nonce : String) → is_nonce o nonce ≡ true → text_is (set_text o) nonce ≡ true
nonce_text (some (str s)) nonce e = e
nonce_text _ nonce e = absurd (false≢true e)

unset_text : (o : Option Json) → is_set o ≡ false → unset (set_text o) ≡ true
unset_text (some (str s)) e = absurd (false≢true (sym e))
unset_text _ e = refl

columns :
    (release : ReleaseCandidate) (approval : Fields)
    → release.approval ≡ some approval
    → ((row_of release).approval_nonce ≡ set_text (get approval "nonce"))
      × ((row_of release).approval_consumed_at ≡ set_text (get approval "consumed_at"))
unfolding row_of
columns release approval e = (rw (row_of, e) refl, rw (row_of, e) refl)

-- A row in step with an open approval is matched by the update.
row_of-matches :
    (row : ReleaseRow) (id nonce : String) (approval : Fields)
    → Synced row
    → has_id id row ≡ true
    → open_approval row.release.approval nonce ≡ some approval
    → matches id nonce row ≡ true
row_of-matches row id nonce approval s h e =
    let (a, n, c) = open_parts row.release.approval nonce approval e in
    let (column, other) = columns row.release approval a in
    let first : text_is row.approval_nonce nonce ≡ true =
      ap (λ (r : ReleaseRow). text_is r.approval_nonce nonce) s
      ∙ ap (λ (o : Option String). text_is o nonce) column
      ∙ nonce_text (get approval "nonce") nonce n in
    let second : unset row.approval_consumed_at ≡ true =
      ap (λ (r : ReleaseRow). unset r.approval_consumed_at) s
      ∙ ap unset other
      ∙ unset_text (get approval "consumed_at") c in
    ground (arith, first, second)

-- What a call that consumes has found.
abbrev Consumed : String → String → String → List ReleaseRow → List ReleaseRow → Type 0
Consumed id nonce at table next =
    (row : ReleaseRow) × (approval : Fields) × (find_row id table ≡ some row)
    × (open_approval row.release.approval nonce ≡ some approval)
    × (next ≡ map (consume_row id nonce at approval) table)

if_pair :
    (b : Bool) (t u : List ReleaseRow) (o : Option ReleaseCandidate) (next : List ReleaseRow)
    (r : ReleaseCandidate)
    → ◌≡◌ {A = List ReleaseRow × Option ReleaseCandidate}
        (if b then (t, o) else (u, none))
        (next, some r)
    → next ≡ t
if_pair true t u o next r e = sym (ap (λ (p : List ReleaseRow × Option ReleaseCandidate). p.0) e)
if_pair false t u o next r e =
    let bad : ◌≡◌ {A = Option ReleaseCandidate} none (some r) =
      ap (λ (p : List ReleaseRow × Option ReleaseCandidate). p.1) e in
    cc

consume_parts :
    (id nonce at : String) (table next : List ReleaseRow) (r : ReleaseCandidate)
    → consume_release_approval id nonce at table ≡ (next, some r)
    → Consumed id nonce at table next
unfolding consume_release_approval consume_open
consume_parts id nonce at table next r e = go (find_row id table) refl e
  where
    inner :
        (row : ReleaseRow)
        → find_row id table ≡ some row
        → (o : Option Fields) → open_approval row.release.approval nonce ≡ o
        → consume_open id nonce at table o ≡ (next, some r)
        → Consumed id nonce at table next
    inner row f none q e =
        let bad : ◌≡◌ {A = Option ReleaseCandidate} none (some r) =
          ap (λ (p : List ReleaseRow × Option ReleaseCandidate). p.1) e in
        cc
    inner row f (some approval) q e =
        (row, approval, f, q, if_pair (any (matches id nonce) table) _ table _ next r e)

    go :
        (o : Option ReleaseRow)
        → find_row id table ≡ o
        → elim o as (λ _. List ReleaseRow × Option ReleaseCandidate) [
          | none ↦ (table, none)
          | some row ↦ consume_open id nonce at table (open_approval row.release.approval nonce)
        ]
          ≡ (next, some r)
        → Consumed id nonce at table next
    go none q e =
        let bad : ◌≡◌ {A = Option ReleaseCandidate} none (some r) =
          ap (λ (p : List ReleaseRow × Option ReleaseCandidate). p.1) e in
        cc
    go (some row) q e = inner row q (open_approval row.release.approval nonce) refl e

closed :
    (at : String) (approval : Fields) (nonce : String)
    → open_approval (some (set_field "consumed_at" (str at) approval)) nonce ≡ none
closed at approval nonce =
    let set : is_set (get (set_field "consumed_at" (str at) approval) "consumed_at") ≡ true =
      ap is_set (get-set_field "consumed_at" (str at) approval) in
    if-false
      (is_nonce (get (set_field "consumed_at" (str at) approval) "nonce") nonce
        && not (is_set (get (set_field "consumed_at" (str at) approval) "consumed_at")))
      _ none (ground (arith, set))

refuse :
    (id nonce at : String) (table : List ReleaseRow) (row : ReleaseRow)
    → find_row id table ≡ some row
    → open_approval row.release.approval nonce ≡ none
    → consume_release_approval id nonce at table ≡ (table, none)
unfolding consume_release_approval consume_open
refuse id nonce at table row f c = rw (consume_release_approval, f, c) refl

one_row :
    (id nonce at : String) (approval : Fields) (row : ReleaseRow)
    → matches id nonce row ≡ true
    → some_of (consume_row id nonce at approval) (some row) ≡ some (consumed_row at approval row)
unfolding some_of consume_row
one_row id nonce at approval row m = ap some (if-true (matches id nonce row) _ row m)

-- Once an approval was consumed, each further call for the release is refused, whatever its nonce,
-- and changes nothing, when the columns of the rows say what their approvals say.
pub consume_once :
    (id nonce at : String) (table next : List ReleaseRow) (r : ReleaseCandidate)
    (nonce' at' : String)
    → All Synced table
    → consume_release_approval id nonce at table ≡ (next, some r)
    → consume_release_approval id nonce' at' next ≡ (next, none)
consume_once id nonce at table next r nonce' at' s e =
    let (row, approval, f, o, n) = consume_parts id nonce at table next r e in
    let (synced, h) = find_row-Synced id table row s f in
    let m = row_of-matches row id nonce approval synced h o in
    let found : find_row id next ≡ some (consumed_row at approval row) =
      ap (find_row id) n
      ∙ find_row-map (consume_row id nonce at approval) (consume_row-id id nonce at approval) id
          table
      ∙ ap (some_of (consume_row id nonce at approval)) f
      ∙ one_row id nonce at approval row m in
    refuse id nonce' at' next (consumed_row at approval row) found (closed at approval nonce')

untouched :
    (id nonce at : String) (approval : Fields) (other : String) (row : ReleaseRow)
    → other ≢ id
    → has_id other row ≡ true
    → consume_row id nonce at approval row ≡ row
unfolding consume_row
untouched id nonce at approval other row different h = elim (Bool-cases (has_id id row)) [
  | inl y ↦
      let p : row.release.release_id ≡ other = (eq_iff row.release.release_id other).0 h in
      let q : row.release.release_id ≡ id = (eq_iff row.release.release_id id).0 y in
      absurd (different (sym p ∙ q))
  | inr n ↦
      let m : matches id nonce row ≡ false = ground arith in if-false (matches id nonce row) _ row m
]

others_same :
    (id nonce at : String) (approval : Fields) (other : String)
    → other ≢ id
    → (table : List ReleaseRow)
    → find_row other (map (consume_row id nonce at approval) table) ≡ find_row other table
unfolding find_row
others_same id nonce at approval other different [] = refl
others_same id nonce at approval other different (row ∷ table) =
    let f = consume_row id nonce at approval in
    let here : has_id other (f row) ≡ has_id other row =
      ap (λ (x : String). str_eq x other) (consume_row-id id nonce at approval row) in
    elim (Bool-cases (has_id other row)) [
      | inl y ↦
          if-true (has_id other (f row)) (some (f row)) _ (here ∙ y)
          ∙ ap some (untouched id nonce at approval other row different y)
          ∙ sym (if-true (has_id other row) (some row) _ y)
      | inr n ↦
          if-false (has_id other (f row)) (some (f row)) _ (here ∙ n)
          ∙ others_same id nonce at approval other different table
          ∙ sym (if-false (has_id other row) (some row) _ n)
    ]

-- A call that consumes an approval leaves the row of every other release as it is.
pub consume_others :
    (id nonce at : String) (table next : List ReleaseRow) (r : ReleaseCandidate) (other : String)
    → other ≢ id
    → consume_release_approval id nonce at table ≡ (next, some r)
    → find_row other next ≡ find_row other table
consume_others id nonce at table next r other different e =
    let (row, approval, f, o, n) = consume_parts id nonce at table next r e in
    ap (find_row other) n ∙ others_same id nonce at approval other different table
