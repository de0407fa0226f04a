-- ===== src/Release/Journey.antt =====
-- src/redline/service/transitions.py: sequences of transitions from a given release.
use playbook_redline.Base.{◌≡◌, refl, sym, ap, ◌∙◌, inl, inr, true, List, [], ◌∷◌, arith}
use mathlib.Core.Bool.{false≢true}
use playbook_redline.Release.{
  ReleaseState, draft, review_required, approved, demo_executed, release_ready, released_demo,
  released_live_gated, blocked_approval, ReleaseCandidate, member,
}
use playbook_redline.Release.Transition.{
  moved, is_terminal_release_state, allowed_release_transitions, transition_release,
}
use playbook_redline.Release.Laws.{Admits, transition_moved}

-- The `updates` of the callers: they leave a release in the target state, whether they name a
-- `"state"`, which is that one, or not.
abbrev pub KeepsState : ReleaseState → (ReleaseCandidate → ReleaseCandidate) → Type 0
KeepsState to u = (r : ReleaseCandidate) → r.state ≡ to → (u r).state ≡ to

-- Releases reached by transitions, with the states visited, the latest first.
pub data Journey (start : ReleaseCandidate) : List ReleaseState → ReleaseCandidate → Type 0 where
  here : Journey start (start.state ∷ []) start
  next :
      {seen : List ReleaseState} {r s : ReleaseCandidate}
      → Journey start seen r
      → (to : ReleaseState) (updates : ReleaseCandidate → ReleaseCandidate) → KeepsState to updates
      → transition_release r to updates ≡ moved s
      → Journey start (to ∷ seen) s

-- What a journey from a draft has visited when it stands in a state.
abbrev pub Earned : ReleaseState → List ReleaseState → Type 0
Earned review_required seen = member review_required seen ≡ true
Earned approved seen = (member review_required seen ≡ true) × (member approved seen ≡ true)
Earned release_ready seen =
    (member review_required seen ≡ true)
    × (member approved seen ≡ true)
    × (member release_ready seen ≡ true)
Earned released_demo seen =
    (member review_required seen ≡ true)
    × (member approved seen ≡ true)
    × (member release_ready seen ≡ true)
Earned released_live_gated seen =
    (member review_required seen ≡ true)
    × (member approved seen ≡ true)
    × (member release_ready seen ≡ true)
Earned demo_executed seen = ⊥
Earned blocked_approval seen = ⊥
Earned _ seen = Unit

Earned-entry :
    (s t : ReleaseState) (seen : List ReleaseState)
    → Earned s seen
    → member t (allowed_release_transitions s) ≡ true
    → Earned t (t ∷ seen)
unfolding allowed_release_transitions
Earned-entry draft draft seen e h = cc
Earned-entry _ _ seen e h = ground arith

Earned-self : (s : ReleaseState) (seen : List ReleaseState) → Earned s seen → Earned s (s ∷ seen)
Earned-self draft seen e = tt
Earned-self _ seen e = ground arith

module _ (r s : ReleaseCandidate) (to : ReleaseState)
    (updates : ReleaseCandidate → ReleaseCandidate) (keeps : KeepsState to updates)
    (h : transition_release r to updates ≡ moved s) where
  pub state_moved : s.state ≡ to
  state_moved =
      ap (λ (x : ReleaseCandidate). x.state) (transition_moved r to updates h).2
      ∙ keeps (record r { state = to }) refl

Earned-Admits :
    (s t : ReleaseState) (seen : List ReleaseState)
    → Earned s seen
    → Admits s t
    → Earned t (t ∷ seen)
Earned-Admits s t seen e (inl p) = rw p at (Earned-self s seen e)
Earned-Admits s t seen e (inr (going, entry)) = Earned-entry s t seen e entry

-- A journey from a draft that stands in `approved`, `release_ready` or a released state has been
-- through every review state before it, and none stands in `demo_executed` or `blocked_approval`.
pub Journey-Earned :
    {start r : ReleaseCandidate} {seen : List ReleaseState}
    → start.state ≡ draft
    → Journey start seen r
    → Earned r.state seen
Journey-Earned {start} d here = rw d tt
Journey-Earned {start} d (next {seen} {r} {s} j to updates keeps h) =
    rw (state_moved r s to updates keeps h)
      (Earned-Admits r.state to seen (Journey-Earned d j) (transition_moved r to updates h).0)

terminal_stays :
    (start r : ReleaseCandidate) (to : ReleaseState)
    → is_terminal_release_state start.state ≡ true
    → r.state ≡ start.state
    → Admits r.state to
    → to ≡ start.state
terminal_stays start r to t e (inl p) = sym p ∙ e
terminal_stays start r to t e (inr (going, entry)) =
    absurd (false≢true (sym going ∙ ap is_terminal_release_state e ∙ t))

-- A journey from a terminal state never leaves it.
pub Journey-terminal :
    {start r : ReleaseCandidate} {seen : List ReleaseState}
    → is_terminal_release_state start.state ≡ true
    → Journey start seen r
    → r.state ≡ start.state
Journey-terminal t here = refl
Journey-terminal {start} t (next {seen} {r} {s} j to updates keeps h) =
    state_moved r s to updates keeps h
    ∙ terminal_stays start r to t (Journey-terminal t j) (transition_moved r to updates h).0
