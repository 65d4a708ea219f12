-- ===== src/Launch/Policy.antt =====
-- `parseLaunchAllowlist`, `loadLaunchAllowlist`, `launchCwdIsConfined` and `evaluateLaunchPolicy` of
-- src/core/launch-policy.ts. `JSON.parse`, and what the file system answers, are parameters.
pub mod Laws
pub mod Documents
use Prim.Native.String.{◌++◌}
use gptqueue.Prelude.{
  ℕ, ◌/◌, ◌%◌, String, Bool, true, false, ◌||◌, ◌&&◌, not, Option, none, some, List, [], ◌∷◌,
  if◌then◌else◌, ◌==◌, str_eq, is_blank, is_empty_text, trim, starts_with,
}
use gptqueue.Outcome.{Outcome, ok, err, ◌>>◌, guard}
use gptqueue.Value.{Value, Items, nil, cons, arr, num, str, prop, is_record, str_items, as_str}
use gptqueue.Launch.Paths.{resolve}
use gptqueue.Launch.Commands.{
  LaunchAllowlistEntry, LaunchAllowlistConfig, launch_matches_config, is_dangerous_delegator,
  is_dangerous_interpreter,
}

-- The reason of `unparseable` is left out.
pub data AllowlistLoad : Type 0 where
  loaded : (config : LaunchAllowlistConfig) → AllowlistLoad
  absent unparseable : AllowlistLoad

pub record LaunchContractLike : Type 0 where
  pub command : String
  pub args : List String
  pub cwd : Option String

pub data PolicyCode : Type 0 where
  launch_command_rejected launch_not_allowlisted launch_cwd_confined : PolicyCode

-- What `lstat` answers: no such file, another failure, or the file's kind and mode.
pub data Lstat : Type 0 where
  no_entry failed : Lstat
  found : (regular : Bool) (mode : ℕ) → Lstat

-- What `readFile` answers.
pub data Reading : Type 0 where
  gone unreadable : Reading
  contents : String → Reading

-- The process and its file system: the variables GPTQUEUE_LAUNCH_ALLOWLIST, `override`, and
-- XDG_CONFIG_HOME, the answer of `homedir`, `join` of Node's `path` on two paths, and what the files
-- are.
pub record Host : Type 0 where
  pub cwd : String
  pub override : Option String
  pub xdg_config_home : Option String
  pub home : String
  pub join : String → String → String
  pub lstat : String → Lstat
  pub read_file : String → Reading
  pub is_directory : String → Bool
  pub parse_json : String → Option Value

abbrev pub legacy_allowlist_path : String
legacy_allowlist_path = ".gptqueue/launch-allowlist.json"

abbrev pub or_default : String → Option String → String
or_default path none = path
or_default path (some s) = if is_blank s then path else trim s

abbrev pub is_overridden : Option String → Bool
is_overridden none = false
is_overridden (some s) = not (is_blank s)

-- `join` of three paths is that of the first two with the third.
abbrev pub default_path : Host → String
default_path host =
    host.join
      (host.join (or_default (host.join host.home ".config") host.xdg_config_home) "gptqueue")
      "launch-allowlist.json"

abbrev pub allowlist_file_path : Host → String
allowlist_file_path host = or_default (default_path host) host.override

abbrev pub with_template :
    Option (List String) → Option (List (List String)) → Option (List (List String))
with_template (some t) (some ts) = some (t ∷ ts)
with_template _ _ = none

abbrev pub template_of : Value → Option (List String)
template_of (arr xs) = str_items xs
template_of _ = none

abbrev pub parse_templates : Items → Option (List (List String))
parse_templates nil = some []
parse_templates (cons t ts) = with_template (template_of t) (parse_templates ts)

abbrev pub templates_of : Value → Option (List (List String))
templates_of (arr xs) = parse_templates xs
templates_of _ = none

abbrev pub entry_with :
    String → Option String → Option (List (List String)) → Option LaunchAllowlistEntry
entry_with command comment none = none
entry_with command comment (some ts) =
    if is_blank command
    then none
    else some (record { command = trim command; allowed_args = ts; comment = comment })

abbrev pub entry_of_command :
    Option String → Option String → Option (List (List String)) → Option LaunchAllowlistEntry
entry_of_command none comment ts = none
entry_of_command (some command) comment ts = entry_with command comment ts

-- One entry of `commands`. A value that is no object has no `command` that is a string.
abbrev pub parse_entry : Value → Option LaunchAllowlistEntry
parse_entry e =
    entry_of_command (as_str (prop "command" e)) (as_str (prop "comment" e))
      (templates_of (prop "allowed_args" e))

abbrev pub with_entry :
    Option LaunchAllowlistEntry
    → Option (List LaunchAllowlistEntry)
    → Option (List LaunchAllowlistEntry)
with_entry (some e) (some es) = some (e ∷ es)
with_entry _ _ = none

abbrev pub parse_commands : Items → Option (List LaunchAllowlistEntry)
parse_commands nil = some []
parse_commands (cons e es) = with_entry (parse_entry e) (parse_commands es)

abbrev pub commands_of : Value → Option (List LaunchAllowlistEntry)
commands_of (arr xs) = parse_commands xs
commands_of _ = none

abbrev pub is_version_2 : Value → Bool
is_version_2 (num n) = n == 2
is_version_2 _ = false

abbrev pub load_of : Option (List LaunchAllowlistEntry) → AllowlistLoad
load_of none = unparseable
load_of (some commands) = loaded (record { version = 2; commands = commands })

abbrev pub parse_document : Option Value → AllowlistLoad
parse_document none = unparseable
parse_document (some v) =
    if is_record v && is_version_2 (prop "version" v)
    then load_of (commands_of (prop "commands" v))
    else unparseable

unfoldable pub parse_launch_allowlist : (String → Option Value) → String → AllowlistLoad
parse_launch_allowlist parse raw = parse_document (parse raw)

-- `(mode & 0o022) !== 0`
abbrev pub is_shared_writable : ℕ → Bool
is_shared_writable mode = (mode / 2 % 2 == 1) || (mode / 16 % 2 == 1)

abbrev pub exists_at : Lstat → Bool
exists_at (found regular mode) = true
exists_at _ = false

-- The file that is read is missing: an old one in the working directory is refused.
abbrev pub load_missing : Host → AllowlistLoad
load_missing host =
    if not (is_overridden host.override) && exists_at (host.lstat legacy_allowlist_path)
    then unparseable
    else absent

abbrev pub load_contents : Host → Reading → AllowlistLoad
load_contents host gone = load_missing host
load_contents host unreadable = unparseable
load_contents host (contents raw) = parse_launch_allowlist host.parse_json raw

abbrev pub load_found : Host → Lstat → AllowlistLoad
load_found host no_entry = load_missing host
load_found host failed = unparseable
load_found host (found regular mode) =
    if regular && not (is_shared_writable mode)
    then load_contents host (host.read_file (allowlist_file_path host))
    else unparseable

unfoldable pub load_launch_allowlist : Host → AllowlistLoad
unfolding parse_launch_allowlist
load_launch_allowlist host = load_found host (host.lstat (allowlist_file_path host))

abbrev pub is_within : String → String → Bool
is_within resolved root = str_eq resolved root || starts_with resolved (root ++ "/")

-- `process.cwd()` is absolute and normalized, so that `resolve` returns it.
unfoldable pub launch_cwd_is_confined : Host → String → Bool
launch_cwd_is_confined host cwd =
    host.is_directory cwd && is_within (resolve host.cwd cwd) (resolve host.cwd host.cwd)

abbrev pub cwd_allowed : Host → Option String → Bool
cwd_allowed host none = true
cwd_allowed host (some cwd) = launch_cwd_is_confined host cwd

abbrev pub check_allowlist :
    Host → LaunchContractLike → AllowlistLoad → Outcome PolicyCode (Unit {0})
check_allowlist host contract (loaded config) =
    guard (launch_matches_config host.cwd contract.command contract.args config)
      launch_not_allowlisted
check_allowlist host contract _ = err launch_not_allowlisted

unfoldable pub evaluate_launch_policy : Host → LaunchContractLike → Outcome PolicyCode (Unit {0})
unfolding load_launch_allowlist launch_cwd_is_confined
evaluate_launch_policy host contract =
    guard (cwd_allowed host contract.cwd) launch_cwd_confined
    >> guard (not (is_dangerous_delegator contract.command)) launch_command_rejected
    >> guard (not (is_dangerous_interpreter contract.command contract.args)) launch_command_rejected
    >> check_allowlist host contract (load_launch_allowlist host)
