-- ===== src/Approvals.antt =====
-- src/redline/service/store.py: the rows of release candidates, and the consumption of approvals. A
-- transaction of SQLite is one function on the table.
pub mod SingleUse
use playbook_redline.Base.{
  ℕ, String, Bool, true, false, not, ◌&&◌, ◌||◌, Option, none, some, List, [], ◌∷◌, ◌++◌, map, any,
  str_eq, if◌then◌else◌,
}
use playbook_redline.Canonical.{Json, null, str, obj, Fields, end, field}
use playbook_redline.Canonical.Dict.{get}
use playbook_redline.Release.{ReleaseCandidate}
use playbook_redline.Release.Tier.{set_field}

-- A row: the release, and the columns that repeat parts of its approval.
pub record ReleaseRow : Type 0 where
  pub release : ReleaseCandidate
  pub approval_nonce : Option String
  pub approval_expires_at : Option String
  pub approval_consumed_at : Option String

-- `d.get(key) is not None`, and the text of a value that is one.
abbrev pub set_text : Option Json → Option String
set_text (some (str s)) = some s
set_text _ = none

abbrev pub is_set : Option Json → Bool
is_set none = false
is_set (some null) = false
is_set (some v) = true

-- `_approval_lifecycle_values` of an approval whose nonce and times are texts.
unfoldable pub row_of : ReleaseCandidate → ReleaseRow
row_of release = elim release.approval [
  | none ↦ record {
    release = release;
    approval_nonce = none;
    approval_expires_at = none;
    approval_consumed_at = none;
  }
  | some approval ↦ record {
    release = release;
    approval_nonce = set_text (get approval "nonce");
    approval_expires_at = set_text (get approval "expires_at");
    approval_consumed_at = set_text (get approval "consumed_at");
  }
]

abbrev pub has_id : String → ReleaseRow → Bool
has_id id row = str_eq row.release.release_id id

-- `SELECT * FROM release_candidates WHERE release_id = ?`.
unfoldable pub find_row : String → List ReleaseRow → Option ReleaseRow
find_row id [] = none
find_row id (row ∷ table) = let rest = find_row id table in if has_id id row then some row else rest

-- `get_release_candidate`.
unfoldable pub get_release_candidate : String → List ReleaseRow → Option ReleaseCandidate
get_release_candidate id table = elim (find_row id table) [
  | none ↦ none
  | some row ↦ some row.release
]

-- `update_release_candidate` at a time; `none` is the KeyError of a release that is not there.
unfoldable pub update_release_candidate :
    String → ReleaseCandidate → List ReleaseRow → Option (List ReleaseRow)
update_release_candidate now release table =
    let updated = row_of (record release { updated_at = now }) in
    if any (has_id release.release_id) table
    then some
        (map (λ (row : ReleaseRow). if has_id release.release_id row then updated else row) table)
    else none

abbrev pub text_is : Option String → String → Bool
text_is none t = false
text_is (some s) t = str_eq s t

abbrev pub unset : Option String → Bool
unset none = true
unset (some s) = false

-- The nonce of an approval that is not consumed.
abbrev pub is_nonce : Option Json → String → Bool
is_nonce (some (str s)) nonce = str_eq s nonce
is_nonce _ nonce = false

abbrev pub open_approval : Option Fields → String → Option Fields
open_approval none nonce = none
open_approval (some approval) nonce =
    if is_nonce (get approval "nonce") nonce && not (is_set (get approval "consumed_at"))
    then some approval
    else none

-- The `UPDATE … WHERE release_id = ? AND approval_nonce = ? AND approval_consumed_at IS NULL`.
abbrev pub matches : String → String → ReleaseRow → Bool
matches id nonce row =
    has_id id row && text_is row.approval_nonce nonce && unset row.approval_consumed_at

abbrev pub consumed_row : String → Fields → ReleaseRow → ReleaseRow
consumed_row at approval row = record row {
  release = record row.release {
    approval = some (set_field "consumed_at" (str at) approval);
    updated_at = at;
  };
  approval_consumed_at = some at;
}

unfoldable pub consume_row : String → String → String → Fields → ReleaseRow → ReleaseRow
consume_row id nonce at approval row =
    if matches id nonce row then consumed_row at approval row else row

unfoldable pub consume_open :
    String
    → String
    → String
    → List ReleaseRow
    → Option Fields
    → List ReleaseRow × Option ReleaseCandidate
consume_open id nonce at table none = (table, none)
consume_open id nonce at table (some approval) =
    let updated = map (consume_row id nonce at approval) table in
    if any (matches id nonce) table
    then (updated, get_release_candidate id updated)
    else (table, none)

-- `consume_release_approval`: the table, and the release if the approval was consumed.
unfoldable pub consume_release_approval :
    String → String → String → List ReleaseRow → List ReleaseRow × Option ReleaseCandidate
unfolding consume_open
consume_release_approval id nonce at table = elim (find_row id table) [
  | none ↦ (table, none)
  | some row ↦ consume_open id nonce at table (open_approval row.release.approval nonce)
]
