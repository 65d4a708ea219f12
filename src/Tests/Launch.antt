-- ===== src/Tests/Launch.antt =====
-- Runs of src/core/launch-policy.ts.
use Prim.Native.String.{◌++◌}
use gptqueue.Prelude.{trim, is_blank, true, false, none, some, List, [], ◌∷◌, ◌≡◌, ◌↔◌, refl, Any}
use gptqueue.Launch.Commands.{
  is_dangerous_delegator, LaunchAllowlistEntry, LaunchAllowlistConfig, launch_matches_config,
  has_lower, dangerous_awk_basenames, is_dangerous_interpreter,
}
use gptqueue.Outcome.{ok, err}
use gptqueue.Launch.Paths.{basename, resolve}
use gptqueue.Launch.Commands.Laws.{Grants, launch_matches_iff, flag_with, inline-line_feed}
use gptqueue.Launch.Policy.{
  loaded, LaunchContractLike, found, contents, Host, load_launch_allowlist, launch_command_rejected,
  launch_cwd_confined, evaluate_launch_policy, launch_cwd_is_confined,
}
use gptqueue.Launch.Policy.Laws.{Permitted, evaluate_iff, Trusted, load-Trusted}
use gptqueue.Launch.Policy.Documents.{document}

abbrev entries : List LaunchAllowlistEntry
entries =
    record { command = "/usr/bin/node"; allowed_args = ("worker.js" ∷ []) ∷ []; comment = none }
    ∷ []

abbrev config : LaunchAllowlistConfig
config = record { version = 2; commands = entries }

-- A host on which every file is the operator's document, with mode 0644.
abbrev pub host : Host
host = record {
  cwd = "/work";
  override = none;
  xdg_config_home = none;
  home = "/home/u";
  join = λ a b. a ++ ("/" ++ b);
  lstat = λ path. found true 420;
  read_file = λ path. contents "allowlist";
  is_directory = λ path. true;
  parse_json = λ raw. some (document entries);
}

abbrev pub contract : LaunchContractLike
contract = record {
  command = "/usr/bin/../bin/node";
  args = "worker.js" ∷ [];
  cwd = some "sub/dir";
}

allowed : evaluate_launch_policy host contract ≡ ok tt
unfolding evaluate_launch_policy resolve is_dangerous_delegator basename is_dangerous_interpreter
    is_blank launch_matches_config trim
allowed = refl

-- A shell is refused, and so is a directory outside the workspace.
shell_refused :
    evaluate_launch_policy host (record contract { command = "/bin/BASH" })
    ≡ err launch_command_rejected
unfolding evaluate_launch_policy resolve is_dangerous_delegator basename
shell_refused = refl

outside_refused :
    evaluate_launch_policy host (record contract { cwd = some "../workshop" })
    ≡ err launch_cwd_confined
unfolding evaluate_launch_policy resolve
outside_refused = refl

-- With `/` as the workspace, only `/` itself counts as inside.
root_refused : launch_cwd_is_confined (record host { cwd = "/" }) "/tmp" ≡ false
unfolding launch_cwd_is_confined resolve
root_refused = refl

evaluate_iff_example : (evaluate_launch_policy host contract ≡ ok tt) ↔ Permitted host contract
evaluate_iff_example = evaluate_iff host contract

launch_matches_iff_example :
    (launch_matches_config "/work" contract.command contract.args config ≡ true)
    ↔ Any (Grants "/work" contract.command contract.args) entries
launch_matches_iff_example = launch_matches_iff "/work" contract.command contract.args config

loads : load_launch_allowlist host ≡ loaded config
unfolding load_launch_allowlist is_blank trim
loads = refl

load-Trusted_example : Trusted host config
load-Trusted_example = load-Trusted host config loads

python : has_lower dangerous_awk_basenames (basename "/usr/bin/python3") ≡ false
unfolding basename
python = refl

inline-line_feed_example :
    is_dangerous_interpreter "/usr/bin/python3" (flag_with "import os" ∷ []) ≡ false
inline-line_feed_example = inline-line_feed "/usr/bin/python3" "import os" python
