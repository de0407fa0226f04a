-- ===== src/Tests/Guards.antt =====
-- The tripwire at concrete events.
use playbook_redline.Base.{
  String, ◌≡◌, refl, ◌↔◌, ◌⊎◌, true, none, some, [], ◌∷◌, append, starts_with, contains,
}
use playbook_redline.Tripwire.{
  text, number, no_value, is_module_of, imports_forbidden, opens_to_write, has_side_effect,
  audit_hook,
}
use playbook_redline.Tripwire.Guard.{
  ForbiddenImport, ForbiddenOpen, ForbiddenEffect, audit_hook_iff,
}

submodule_raises :
    audit_hook true "import" (text "httpx.client" ∷ [])
    ≡ some "forbidden verdict-path import: httpx.client"
unfolding audit_hook imports_forbidden is_module_of starts_with append
submodule_raises = refl

like_named_passes : audit_hook true "import" (text "httpxtra" ∷ []) ≡ none
unfolding audit_hook imports_forbidden opens_to_write has_side_effect is_module_of starts_with
    append
like_named_passes = refl

flags_raise :
    audit_hook true "open" (text "out" ∷ no_value ∷ number 65 "65" ∷ [])
    ≡ some "forbidden verdict-path file write: open"
unfolding audit_hook imports_forbidden opens_to_write starts_with contains
flags_raise = refl

audit_hook_iff_example :
    ((message : String) × (audit_hook true "open" (text "out" ∷ text "w+" ∷ []) ≡ some message)) ↔ (
      ForbiddenImport "open" (text "out" ∷ text "w+" ∷ [])
      ⊎ ForbiddenOpen "open" (text "out" ∷ text "w+" ∷ [])
      ⊎ ForbiddenEffect "open")
audit_hook_iff_example = audit_hook_iff "open" (text "out" ∷ text "w+" ∷ [])
