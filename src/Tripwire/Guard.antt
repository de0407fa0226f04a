-- ===== src/Tripwire/Guard.antt =====
-- src/redline/tripwire.py: what an active tripwire lets through.
use mathlib.Core.Bool.{false≢true}
use playbook_redline.Base.{
  ℕ, if◌then◌else◌, String, ◌≡◌, refl, ◌↔◌, ◌⊎◌, inl, inr, Bool, true, false, ◌&&◌, ◌||◌, none,
  some, List, [], ◌∷◌, codes, str_eq, eq_iff,
}
use playbook_redline.Base.Quantifiers.{Exists}
use playbook_redline.Tripwire.{
  Arg, str_of, forbidden_prefixes, forbidden_events, forbidden_import_prefixes, dotted,
  is_module_of, imports_forbidden, mode_of, flags_of, writing_modes, write_flags, has_bit,
  opens_to_write, has_side_effect, audit_hook,
}
use playbook_redline.Tripwire.Words.{StartsWith, Contains, starts_with_iff, contains_iff, any_iff}

-- An import of a forbidden package or of a module below one.
abbrev pub ForbiddenImport : String → List Arg → Type 0
ForbiddenImport event [] = ⊥
ForbiddenImport event (name ∷ args) =
    (event ≡ "import")
    × Exists
        (λ (parent : String).
          (str_of name ≡ parent) ⊎ StartsWith (codes (dotted parent)) (codes (str_of name)))
        forbidden_import_prefixes

-- An open whose mode has a character for writing or whose flags have a bit for writing.
abbrev pub ForbiddenOpen : String → List Arg → Type 0
ForbiddenOpen event [] = ⊥
ForbiddenOpen event (path ∷ args) =
    (event ≡ "open")
    × (Exists (λ (flag : String). Contains (codes flag) (codes (mode_of args))) writing_modes
        ⊎ Exists (λ (k : ℕ). has_bit (flags_of args) k ≡ true) write_flags)

-- An event that is forbidden or starts with a forbidden prefix.
abbrev pub ForbiddenEffect : String → Type 0
ForbiddenEffect event =
    Exists (λ (name : String). event ≡ name) forbidden_events
    ⊎ Exists (λ (start : String). StartsWith (codes start) (codes event)) forbidden_prefixes

or_iff : (a b : Bool) (P Q : Type 0) → (a ≡ true) ↔ P → (b ≡ true) ↔ Q → ((a || b) ≡ true) ↔ (P ⊎ Q)
or_iff true b P Q f g = (λ e. inl (f.0 refl), λ h. refl)
or_iff false b P Q f g =
    (λ e. inr (g.0 e), λ h. elim h [ inl p ↦ absurd (false≢true (f.1 p)) | inr q ↦ g.1 q ])

and_iff :
    (a b : Bool) (P Q : Type 0) → (a ≡ true) ↔ P → (b ≡ true) ↔ Q → ((a && b) ≡ true) ↔ (P × Q)
and_iff true b P Q f g = (λ e. (f.0 refl, g.0 e), λ h. g.1 h.1)
and_iff false b P Q f g = (λ e. absurd (false≢true e), λ h. f.1 h.0)

is_module_of_iff :
    (name parent : String)
    → (is_module_of name parent ≡ true)
      ↔ ((name ≡ parent) ⊎ StartsWith (codes (dotted parent)) (codes name))
unfolding is_module_of
is_module_of_iff name parent =
    or_iff _ _ _ _ (eq_iff name parent) (starts_with_iff (codes (dotted parent)) (codes name))

imports_forbidden_iff :
    (event : String) (args : List Arg)
    → (imports_forbidden event args ≡ true) ↔ ForbiddenImport event args
unfolding imports_forbidden
imports_forbidden_iff event [] = (λ e. absurd (false≢true e), λ h. elim h [ ])
imports_forbidden_iff event (name ∷ args) = and_iff _ _ _ _ (eq_iff event "import") (
    any_iff (is_module_of (str_of name)) _ (is_module_of_iff (str_of name))
      forbidden_import_prefixes)

opens_to_write_iff :
    (event : String) (args : List Arg)
    → (opens_to_write event args ≡ true) ↔ ForbiddenOpen event args
unfolding opens_to_write
opens_to_write_iff event [] = (λ e. absurd (false≢true e), λ h. elim h [ ])
opens_to_write_iff event (path ∷ args) = and_iff _ _ _ _ (eq_iff event "open") (
    or_iff _ _ _ _
      (any_iff _ _ (λ flag. contains_iff (codes flag) (codes (mode_of args))) writing_modes)
      (any_iff (has_bit (flags_of args)) _ (λ k. (λ e. e, λ e. e)) write_flags))

has_side_effect_iff : (event : String) → (has_side_effect event ≡ true) ↔ ForbiddenEffect event
unfolding has_side_effect
has_side_effect_iff event =
    or_iff _ _ _ _ (any_iff (str_eq event) _ (eq_iff event) forbidden_events)
      (any_iff _ _ (λ start. starts_with_iff (codes start) (codes event)) forbidden_prefixes)

-- The first of three messages whose test holds.
first_of_iff :
    (a b c : Bool) (m n k : String)
    → ((message : String) × ((if a
            then some m
            else if b
            then some n
            else if c
            then some k
            else none)
          ≡ some message))
      ↔ ((a ≡ true) ⊎ (b ≡ true) ⊎ (c ≡ true))
first_of_iff true b c m n k = (λ h. inl refl, λ h. (m, refl))
first_of_iff false true c m n k = (λ h. inr (inl refl), λ h. (n, refl))
first_of_iff false false true m n k = (λ h. inr (inr refl), λ h. (k, refl))
first_of_iff false false false m n k = (
  λ (s, e). cc,
  λ h. elim h [
    | inl e ↦ absurd (false≢true e)
    | inr (inl e) ↦ absurd (false≢true e)
    | inr (inr e) ↦ absurd (false≢true e)
  ],
)

-- An active tripwire raises on an event exactly when the event is an import of a forbidden package or
-- of a module below one, an open for writing by its mode or by its flags, or an event that is
-- forbidden or starts with a forbidden prefix.
pub audit_hook_iff :
    (event : String) (args : List Arg)
    → ((message : String) × (audit_hook true event args ≡ some message))
      ↔ (ForbiddenImport event args ⊎ ForbiddenOpen event args ⊎ ForbiddenEffect event)
unfolding audit_hook
audit_hook_iff event args =
    let (to, from) =
      first_of_iff (imports_forbidden event args) (opens_to_write event args)
        (has_side_effect event) _ _ _ in
    let f = imports_forbidden_iff event args in
    let g = opens_to_write_iff event args in
    let h = has_side_effect_iff event in
    (
      λ raised. elim (to raised) [
        | inl e ↦ inl (f.0 e)
        | inr (inl e) ↦ inr (inl (g.0 e))
        | inr (inr e) ↦ inr (inr (h.0 e))
      ],
      λ forbidden. elim forbidden [
        | inl e ↦ from (inl (f.1 e))
        | inr (inl e) ↦ from (inr (inl (g.1 e)))
        | inr (inr e) ↦ from (inr (inr (h.1 e)))
      ],
    )
