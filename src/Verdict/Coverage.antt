-- ===== src/Verdict/Coverage.antt =====
-- src/redline/proof_kernel.py: the coverage manifest as `decide` reads it.
use playbook_redline.Base.{
  ℕ, String, Bool, true, false, ◌&&◌, ◌||◌, Option, none, some, List, [], ◌∷◌, map, any, str_eq,
  str_leb, append, length, if◌then◌else◌,
}
use playbook_redline.Base.Sorting.{sort, sort_texts, unique, duplicates_from}
use playbook_redline.Canonical.{Json, str}
use playbook_redline.Canonical.Dict.{get}
use playbook_redline.Verdict.{ProofKind, Proof, Assertion, CoverageManifest, same_kind}

abbrev pub Cell : Type 0
Cell = String × String

abbrev pub same_cell : Cell → Cell → Bool
same_cell c d = str_eq c.0 d.0 && str_eq c.1 d.1

-- Python's `<=` on pairs of texts.
abbrev pub cell_leb : Cell → Cell → Bool
cell_leb c d = if str_eq c.0 d.0 then str_leb c.1 d.1 else str_leb c.0 d.0

-- A verdict-bearing proof of kind `probe`.
unfoldable pub is_probe : Proof → Bool
is_probe p = same_kind p.kind ProofKind.probe && p.verdict_bearing

unfoldable pub text_of : Option Json → Option String
text_of (some (str s)) = some s
text_of _ = none

unfoldable pub cell_if : Option String → Option String → List Assertion → Option Cell
cell_if (some scenario) (some probe) assertions =
    if any (λ (a : Assertion). str_eq a.scenario_id scenario) assertions
    then some (scenario, probe)
    else none
cell_if _ _ assertions = none

-- The cell that a probe proof covers.
unfoldable pub covered_cell : Proof → Option Cell
unfolding is_probe text_of cell_if
covered_cell p =
    if is_probe p
    then cell_if (text_of (get p.meta "scenario_id")) (text_of (get p.meta "probe_id")) p.assertions
    else none

unfoldable pub covers : Cell → Proof → Bool
covers c p = elim (covered_cell p) [ none ↦ false | some d ↦ same_cell c d ]

missing_text : Cell → String
missing_text c = append c.0 (append ":" (append c.1 ":missing_probe_proof"))

-- `_missing_probe_coverage_cells`.
unfoldable pub missing_probe_coverage_cells : List Proof → List Cell → List String
unfolding missing_text append
missing_probe_coverage_cells proofs [] = []
missing_probe_coverage_cells proofs (c ∷ cells) =
    let rest = missing_probe_coverage_cells proofs cells in
    if any (covers c) proofs then rest else missing_text c ∷ rest

unfoldable pub has_duplicates : List Cell → Bool
has_duplicates cells = duplicates_from same_cell [] cells

abbrev pub no_cells : List Cell → Bool
no_cells [] = true
no_cells (c ∷ cells) = false

abbrev default_manifest : String
default_manifest = "suite.scenarios×spec.block_probes"

-- The first correction of `coverage`: cells that are absent or repeated.
unfoldable pub deduplicated : CoverageManifest → CoverageManifest
deduplicated coverage =
    if coverage.complete && (no_cells coverage.cells || has_duplicates coverage.cells)
    then record {
      manifest = default_manifest;
      cells = sort cell_leb (unique same_cell coverage.cells);
      complete = false;
      missing = "COVERAGE_INCOMPLETE" ∷ [];
    }
    else coverage

unfoldable pub with_missing : CoverageManifest → List String → CoverageManifest
with_missing coverage [] = coverage
with_missing coverage (m ∷ ms) = record {
  manifest = default_manifest;
  cells = coverage.cells;
  complete = false;
  missing = m ∷ ms;
}

-- The second: cells without a probe proof.
unfoldable pub with_probe_cells : List Proof → CoverageManifest → CoverageManifest
unfolding with_missing
with_probe_cells proofs coverage =
    if coverage.complete
    then with_missing coverage (missing_probe_coverage_cells proofs coverage.cells)
    else coverage

unfoldable pub corrected : List Proof → CoverageManifest → CoverageManifest
corrected proofs coverage = with_probe_cells proofs (deduplicated coverage)

-- `Capabilities.scenario_count`.
unfoldable pub scenario_count : CoverageManifest → ℕ
scenario_count coverage =
    length (sort_texts (unique str_eq (map (λ (c : Cell). c.0) coverage.cells)))
