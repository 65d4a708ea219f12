-- ===== src/Launch/Policy/Laws.antt =====
-- What `evaluateLaunchPolicy`, `loadLaunchAllowlist` and `parseLaunchAllowlist` of
-- src/core/launch-policy.ts decide.
use gptqueue.Prelude.{
  or_iff, ℕ, String, Bool, true, false, not, Option, none, some, ◌≡◌, ◌↔◌, refl, Any, Bool-cases,
  arith, inl, inr, ◌⊎◌, and_iff, str_eq, str_eq_iff, starts_with,
}
use gptqueue.Outcome.{Outcome, ok, ◌>>◌, guard}
use gptqueue.Launch.Commands.{
  LaunchAllowlistConfig, is_dangerous_delegator, is_dangerous_interpreter, launch_matches_config,
}
use gptqueue.Launch.Commands.Dangers.{
  IsShell, RunsInline, delegator_iff, interpreter_iff, starts_with_iff,
}
use gptqueue.Launch.Commands.Laws.{Grants, launch_matches_iff}
use gptqueue.Launch.Paths.{resolve}
use Prim.Native.String.{◌++◌}
use gptqueue.Launch.Policy.{
  AllowlistLoad, loaded, absent, unparseable, LaunchContractLike, PolicyCode,
  launch_not_allowlisted, Lstat, no_entry, failed, found, Reading, contents, gone, unreadable, Host,
  allowlist_file_path, parse_launch_allowlist, is_shared_writable, load_launch_allowlist,
  load_missing, load_contents, load_found, cwd_allowed, check_allowlist, evaluate_launch_policy,
  launch_cwd_is_confined, is_within,
}

-- The file that a loaded allowlist was read from.
pub record Trusted (host : Host) (config : LaunchAllowlistConfig) : Type 0 where
  pub mode : ℕ
  pub raw : String
  pub regular : host.lstat (allowlist_file_path host) ≡ found true mode
  pub private_mode : is_shared_writable mode ≡ false
  pub read : host.read_file (allowlist_file_path host) ≡ contents raw
  pub parsed : parse_launch_allowlist host.parse_json raw ≡ loaded config

missing_not_loaded :
    (host : Host) (config : LaunchAllowlistConfig) → load_missing host ≡ loaded config → ⊥
missing_not_loaded host config e = ground arith

contents_loaded :
    (host : Host) (config : LaunchAllowlistConfig) (r : Reading)
    → load_contents host r ≡ loaded config
    → (raw : String) × (r ≡ contents raw)
      × (parse_launch_allowlist host.parse_json raw ≡ loaded config)
contents_loaded host config gone e = absurd (missing_not_loaded host config e)
contents_loaded host config unreadable e = absurd (ground arith)
contents_loaded host config (contents raw) e = (raw, refl, e)

found_loaded :
    (host : Host) (config : LaunchAllowlistConfig) (l : Lstat)
    → load_found host l ≡ loaded config
    → (mode : ℕ) × (l ≡ found true mode)
      × (is_shared_writable mode ≡ false)
      × (load_contents host (host.read_file (allowlist_file_path host)) ≡ loaded config)
found_loaded host config no_entry e = absurd (missing_not_loaded host config e)
found_loaded host config failed e = absurd (ground arith)
found_loaded host config (found false mode) e = absurd (ground arith)
found_loaded host config (found true mode) e = elim (Bool-cases (is_shared_writable mode)) [
  | inl shared ↦ absurd (refused (rw shared at e))
  | inr own ↦ (mode, refl, own, rw own at e)
]
  where
    refused : unparseable ≡ loaded config → ⊥
    refused h = ground arith

-- An allowlist that is loaded comes from a regular file at the configured path, not a symbolic
-- link and not writable by group or world, and is what its contents parse to; so a launch is
-- refused where the file is missing, shared or malformed.
pub load-Trusted :
    (host : Host) (config : LaunchAllowlistConfig)
    → load_launch_allowlist host ≡ loaded config
    → Trusted host config
unfolding load_launch_allowlist
load-Trusted host config e =
    let (mode, regular, own, e1) =
      found_loaded host config (host.lstat (allowlist_file_path host)) e in
    let (raw, read, parsed) =
      contents_loaded host config (host.read_file (allowlist_file_path host)) e1 in
    record {
      mode = mode;
      raw = raw;
      regular = regular;
      private_mode = own;
      read = read;
      parsed = parsed;
    }

-- The path is the workspace or lies below it.
abbrev pub IsBelow : String → String → Type 0
IsBelow path root = (path ≡ root) ⊎ ((rest : String) × (path ≡ (root ++ "/") ++ rest))

-- A working directory that a launch names is an existing directory in the workspace.
abbrev pub InWorkspace : Host → Option String → Type 0
InWorkspace host none = Unit
InWorkspace host (some cwd) =
    (host.is_directory cwd ≡ true) × IsBelow (resolve host.cwd cwd) (resolve host.cwd host.cwd)

-- What must hold for a launch.
pub record Permitted (host : Host) (contract : LaunchContractLike) : Type 0 where
  pub confined : InWorkspace host contract.cwd
  pub no_shell : ¬ IsShell contract.command
  pub no_inline_code : ¬ RunsInline contract.command contract.args
  pub config : LaunchAllowlistConfig
  pub operator : Trusted host config
  pub granted : Any (Grants host.cwd contract.command contract.args) config.commands

not_iff : {P : Type 0} (b : Bool) → (b ≡ true) ↔ P → (not b ≡ true) ↔ (¬ P)
not_iff true f = (λ e. absurd (ground arith), λ n. absurd (n (f.0 refl)))
not_iff false f = (λ e p. absurd (no (f.1 p)), λ n. refl)
  where
    no : false ≡ true → ⊥
    no e = ground arith

is_within_iff : (path root : String) → (is_within path root ≡ true) ↔ IsBelow path root
is_within_iff path root =
    or_iff (str_eq path root) (starts_with path (root ++ "/")) (str_eq_iff path root)
      (starts_with_iff path (root ++ "/"))

confined_iff :
    (host : Host) (cwd : Option String) → (cwd_allowed host cwd ≡ true) ↔ InWorkspace host cwd
unfolding launch_cwd_is_confined
confined_iff host none = (λ e. tt, λ e. refl)
confined_iff host (some cwd) =
    let (to, back) = is_within_iff (resolve host.cwd cwd) (resolve host.cwd host.cwd) in
    let (split, both) =
      and_iff (host.is_directory cwd)
        (is_within (resolve host.cwd cwd) (resolve host.cwd host.cwd)) in
    (λ e. let (a, b) = split e in (a, to b), λ (a, b). both (a, back b))

check-loaded :
    (host : Host) (contract : LaunchContractLike) (l : AllowlistLoad)
    → check_allowlist host contract l ≡ ok tt
    → (config : LaunchAllowlistConfig) × (l ≡ loaded config)
      × (launch_matches_config host.cwd contract.command contract.args config ≡ true)
check-loaded host contract (loaded config) e =
    (config, refl, passed (launch_matches_config host.cwd contract.command contract.args config) e)
  where
    passed : (b : Bool) → guard b launch_not_allowlisted ≡ ok tt → b ≡ true
    passed true h = refl
    passed false h = absurd (ground arith)
check-loaded host contract absent e = absurd (ground arith)
check-loaded host contract unparseable e = absurd (ground arith)

guards_passed :
    (a b c : Bool) (x y z : PolicyCode) (k : Outcome PolicyCode (Unit {0}))
    → (guard a x >> guard b y >> guard c z >> k) ≡ ok tt
    → (a ≡ true) × (b ≡ true) × (c ≡ true) × (k ≡ ok tt)
guards_passed true true true x y z k e = (refl, refl, refl, e)
guards_passed false b c x y z k e = absurd (ground arith)
guards_passed true false c x y z k e = absurd (ground arith)
guards_passed true true false x y z k e = absurd (ground arith)

evaluate-Permitted :
    (host : Host) (contract : LaunchContractLike)
    → evaluate_launch_policy host contract ≡ ok tt
    → Permitted host contract
unfolding evaluate_launch_policy
evaluate-Permitted host contract e =
    let (a, b, c, e1) =
      guards_passed (cwd_allowed host contract.cwd) (not (is_dangerous_delegator contract.command))
        (not (is_dangerous_interpreter contract.command contract.args)) _ _ _ _ e in
    let (config, operator, matches) = check-loaded host contract (load_launch_allowlist host) e1 in
    record {
      confined = (confined_iff host contract.cwd).0 a;
      no_shell = (not_iff _ (delegator_iff contract.command)).0 b;
      no_inline_code = (not_iff _ (interpreter_iff contract.command contract.args)).0 c;
      config = config;
      operator = load-Trusted host config operator;
      granted = (launch_matches_iff host.cwd contract.command contract.args config).0 matches;
    }

Trusted-load :
    (host : Host) (config : LaunchAllowlistConfig)
    → Trusted host config
    → load_launch_allowlist host ≡ loaded config
unfolding load_launch_allowlist
Trusted-load host config t = rw (t.regular, t.private_mode, t.read, t.parsed) refl

Permitted-evaluate :
    (host : Host) (contract : LaunchContractLike)
    → Permitted host contract
    → evaluate_launch_policy host contract ≡ ok tt
unfolding evaluate_launch_policy
Permitted-evaluate host contract p =
    rw
      (
        (confined_iff host contract.cwd).1 p.confined,
        (not_iff _ (delegator_iff contract.command)).1 p.no_shell,
        (not_iff _ (interpreter_iff contract.command contract.args)).1 p.no_inline_code,
        Trusted-load host p.config p.operator,
        (launch_matches_iff host.cwd contract.command contract.args p.config).1 p.granted,
      )
      refl

-- A launch is permitted just when these hold: its working directory, if it names one, is a directory
-- and is or lies below the workspace; its command is no shell and no awk; if the command is an
-- interpreter, no argument is one of the flags for inline code, a long one of them with `=`, or a short
-- one with something glued to it that does not begin a new line; the operator's allowlist was loaded
-- from a regular file that neither group nor world can write; and an entry of it grants the command with
-- exactly these arguments.
pub evaluate_iff :
    (host : Host) (contract : LaunchContractLike)
    → (evaluate_launch_policy host contract ≡ ok tt) ↔ Permitted host contract
evaluate_iff host contract = (evaluate-Permitted host contract, Permitted-evaluate host contract)
