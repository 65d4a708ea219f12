-- ===== src/Launch/Commands.antt =====
-- The tests of src/core/launch-policy.ts on a command and its arguments.
pub mod Dangers
pub mod Laws
use Prim.Native.Char.{code}
use gptqueue.Prelude.{
  starts_with, ℕ, ◌+◌, String, Bool, true, false, ◌&&◌, ◌||◌, not, Option, List, [], ◌∷◌,
  if◌then◌else◌, leb, ◌==◌, str_eq, any,
}
use gptqueue.Launch.Paths.{is_absolute, basename, resolve}

pub record LaunchAllowlistEntry : Type 0 where
  pub command : String
  pub allowed_args : List (List String)
  pub comment : Option String

pub record LaunchAllowlistConfig : Type 0 where
  pub version : ℕ
  pub commands : List LaunchAllowlistEntry

abbrev pub has : List String → String → Bool
has names s = any (λ name. str_eq s name) names

abbrev pub dangerous_shell_basenames : List String
dangerous_shell_basenames =
    "sh" ∷ "bash" ∷ "zsh" ∷ "dash" ∷ "fish" ∷ "ksh" ∷ "cmd" ∷ "powershell" ∷ "pwsh" ∷ []

abbrev pub dangerous_interpreter_basenames : List String
dangerous_interpreter_basenames =
    "node" ∷ "nodejs" ∷ "deno" ∷ "bun" ∷ "tsx" ∷ "ts-node" ∷ "python" ∷ "python2" ∷ "python3"
    ∷ "ruby" ∷ "perl" ∷ "php" ∷ []

abbrev pub dangerous_awk_basenames : List String
dangerous_awk_basenames = "awk" ∷ "gawk" ∷ "mawk" ∷ []

abbrev pub dangerous_interpreter_args : List String
dangerous_interpreter_args =
    "-e" ∷ "--eval" ∷ "-c" ∷ "--command" ∷ "-p" ∷ "--print" ∷ "-E" ∷ "-r" ∷ []

-- What `.` in a pattern does not match.
abbrev pub is_line_end : ℕ → Bool
is_line_end c = (c == 10) || (c == 13) || (c == 0x2028) || (c == 0x2029)

-- `[ecEpr]`
abbrev pub is_inline_letter : ℕ → Bool
is_inline_letter c = (c == b'e') || (c == b'c') || (c == b'E') || (c == b'p') || (c == b'r')

-- `/^-[ecEpr].+/`
abbrev pub is_glued_flag : String → Bool
is_glued_flag (String.◌∷◌ c (String.◌∷◌ d (String.◌∷◌ e s))) =
    (code c == b'-') && is_inline_letter (code d) && not (is_line_end (code e))
is_glued_flag _ = false

unfoldable pub is_inline_code_arg : String → Bool
is_inline_code_arg arg =
    has dangerous_interpreter_args arg
    || (starts_with arg "--eval=" || starts_with arg "--print=" || starts_with arg "--command=")
    || is_glued_flag arg

-- `toLowerCase` on one character: exact for the letters whose lower case is an ASCII letter, the
-- capitals of ASCII and the Kelvin sign; any other stays outside ASCII, as its lower case does.
abbrev pub lower_code : ℕ → ℕ
lower_code c = if leb b'A' c && leb c b'Z' then c + 32 else if c == 0x212a then b'k' else c

-- Whether `s.toLowerCase()` is `name`, a name in lower ASCII letters.
abbrev pub lowers_to : String → String → Bool
lowers_to String.[] String.[] = true
lowers_to (String.◌∷◌ c s) (String.◌∷◌ d t) = (lower_code (code c) == code d) && lowers_to s t
lowers_to _ _ = false

abbrev pub has_lower : List String → String → Bool
has_lower names s = any (λ name. lowers_to s name) names

unfoldable pub command_matches : String → String → String → Bool
command_matches cwd requested allowlisted =
    if is_absolute requested
    then is_absolute allowlisted && str_eq (resolve cwd requested) (resolve cwd allowlisted)
    else not (is_absolute allowlisted) && str_eq requested allowlisted

-- Equal lengths, and equal at each position.
unfoldable pub args_match_template : List String → List String → Bool
args_match_template [] [] = true
args_match_template (arg ∷ args) (t ∷ template) = str_eq arg t && args_match_template args template
args_match_template _ _ = false

unfoldable pub launch_matches_config : String → String → List String → LaunchAllowlistConfig → Bool
unfolding command_matches args_match_template
launch_matches_config cwd command args config =
    any
      (λ entry.
        command_matches cwd command entry.command
        && any (λ template. args_match_template args template) entry.allowed_args)
      config.commands

unfoldable pub is_dangerous_delegator : String → Bool
is_dangerous_delegator command = has_lower dangerous_shell_basenames (basename command)

unfoldable pub is_dangerous_interpreter : String → List String → Bool
unfolding is_inline_code_arg
is_dangerous_interpreter command args =
    if has_lower dangerous_awk_basenames (basename command)
    then true
    else if has_lower dangerous_interpreter_basenames (basename command)
    then any (λ arg. is_inline_code_arg arg) args
    else false
