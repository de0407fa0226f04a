-- ===== src/Tripwire.antt =====
-- src/redline/tripwire.py: the audit hook that guards the path of a verdict.
pub mod Words
pub mod Guard
use playbook_redline.Base.{
  ℕ, String, Bool, true, false, ◌&&◌, ◌||◌, ◌==◌, ◌/◌, ◌%◌, ◌^◌, Option, none, some, List, [], ◌∷◌,
  any, codes, append, str_eq, starts_with, contains, if◌then◌else◌,
}

-- An argument of an audit event: None, a text, an integer from 0 on, or an object with its `str`.
pub data Arg : Type 0 where
  no_value : Arg
  text : String → Arg
  number : ℕ → String → Arg
  other : String → Arg

-- `str(arg)`.
abbrev pub str_of : Arg → String
str_of no_value = "None"
str_of (text s) = s
str_of (number n s) = s
str_of (other s) = s

-- `_FORBIDDEN_PREFIXES`.
abbrev pub forbidden_prefixes : List String
forbidden_prefixes = "ctypes" ∷ "os.exec" ∷ "os.fork" ∷ "socket" ∷ "subprocess" ∷ []

-- `_FORBIDDEN_EVENTS`.
abbrev pub forbidden_events : List String
forbidden_events =
    "os.chmod" ∷ "os.chown" ∷ "os.link" ∷ "os.mkdir" ∷ "os.posix_spawn" ∷ "os.remove" ∷ "os.rename"
    ∷ "os.rmdir" ∷ "os.spawn" ∷ "os.system" ∷ "os.symlink" ∷ "os.truncate" ∷ "os.unlink"
    ∷ "os.utime" ∷ "pathlib.Path.open" ∷ "shutil.copyfile" ∷ "shutil.copymode" ∷ "shutil.copystat"
    ∷ "shutil.copytree" ∷ "shutil.move" ∷ []

-- `_FORBIDDEN_IMPORT_PREFIXES`.
abbrev pub forbidden_import_prefixes : List String
forbidden_import_prefixes =
    "anthropic" ∷ "_ctypes" ∷ "cffi" ∷ "ctypes" ∷ "google.generativeai" ∷ "httpx" ∷ "openai"
    ∷ "requests" ∷ "xai_sdk" ∷ []

abbrev pub dotted : String → String
dotted parent = append parent "."

unfoldable pub is_module_of : String → String → Bool
is_module_of name parent = str_eq name parent || starts_with (codes (dotted parent)) (codes name)

unfoldable pub imports_forbidden : String → List Arg → Bool
imports_forbidden event [] = false
imports_forbidden event (name ∷ args) =
    str_eq event "import" && any (is_module_of (str_of name)) forbidden_import_prefixes

-- The second argument of `open`, its mode.
abbrev pub mode_of : List Arg → String
mode_of [] = "r"
mode_of (no_value ∷ args) = "r"
mode_of (mode ∷ args) = str_of mode

-- The third argument of `open`, its flags, from the arguments after the first.
abbrev pub flags_of : List Arg → ℕ
flags_of (mode ∷ number n s ∷ args) = n
flags_of _ = 0

abbrev pub writing_modes : List String
writing_modes = "w" ∷ "a" ∷ "x" ∷ "+" ∷ []

-- The bits of O_WRONLY, O_RDWR, O_APPEND, O_CREAT and O_TRUNC on Linux.
abbrev pub write_flags : List ℕ
write_flags = 0 ∷ 1 ∷ 10 ∷ 6 ∷ 9 ∷ []

abbrev pub has_bit : ℕ → ℕ → Bool
has_bit flags k = flags / 2 ^ k % 2 == 1

unfoldable pub opens_to_write : String → List Arg → Bool
opens_to_write event [] = false
opens_to_write event (path ∷ args) =
    str_eq event "open"
    && (any (λ (flag : String). contains (codes flag) (codes (mode_of args))) writing_modes
        || any (has_bit (flags_of args)) write_flags)

unfoldable pub has_side_effect : String → Bool
has_side_effect event =
    any (str_eq event) forbidden_events
    || any (λ (start : String). starts_with (codes start) (codes event)) forbidden_prefixes

-- `str(args[0])`, of an event with arguments.
abbrev first_name : List Arg → String
first_name [] = ""
first_name (name ∷ args) = str_of name

-- `_audit_hook`, the message of a VerdictPathViolation.
unfoldable pub audit_hook : Bool → String → List Arg → Option String
audit_hook false event args = none
audit_hook true event args =
    if imports_forbidden event args
    then some (append "forbidden verdict-path import: " (first_name args))
    else if opens_to_write event args
    then some "forbidden verdict-path file write: open"
    else if has_side_effect event
    then some (append "forbidden verdict-path side effect: " event)
    else none
