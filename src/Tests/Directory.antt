-- ===== src/Tests/Directory.antt =====
-- Runs of src/core/actor-directory.ts.
use gptqueue.Prelude.{
  ◌⊎◌, trim, is_blank, ℕ, String, false, none, some, [], ◌∷◌, ◌≡◌, refl, arith, lookup, put, Dict,
}
use gptqueue.Launch.Commands.{
  launch_matches_config, is_dangerous_interpreter, is_dangerous_delegator,
}
use gptqueue.Launch.Paths.{basename, resolve}
use gptqueue.Launch.Policy.{evaluate_launch_policy}
use gptqueue.Presence.{
  store_only, admit_actor_profile, Candidate, DurableActorProfile, wake_if_offline, runnable,
}
use gptqueue.Value.{Value, obj, field, end, str, num}
use gptqueue.Outcome.{ok}
use gptqueue.Directory.Stored.{ActorDirectoryRecord, record_value}
use gptqueue.Directory.{ActorRegisterInput, register, get, contract_readiness}
use gptqueue.Directory.Laws.{IsPermitted, register-IsPermitted}
use gptqueue.Directory.Owners.{is_ok, get-register, register-IsRefused}
use gptqueue.Tests.Launch.{host, contract}
use gptqueue.Tests.Codec.{json}

abbrev quiet : ℕ → Dict String → Dict String
quiet n st = st

abbrev coerce : Value → String
coerce v = String.[]

abbrev candidate : Candidate
candidate = record {
  actor_id = "worker";
  alias = "worker-1";
  capabilities = "build" ∷ [];
  workspace_root = "/w";
  working_directory = "/w";
  run_directory = none;
  runtime = "node";
  activation_policy = obj (field "mode" (str "wake_if_offline") end);
  max_concurrency = num 1;
}

abbrev input : ActorRegisterInput
input = record {
  profile_input = candidate;
  launch = some contract;
  registered_by = "s1";
  registered_at = "2024-02-29T12:00:00.000Z";
}

abbrev profile : DurableActorProfile
profile = record {
  actor_id = "worker";
  alias = "worker-1";
  capabilities = "build" ∷ [];
  workspace_root = "/w";
  working_directory = "/w";
  run_directory = none;
  runtime = "node";
  activation_policy = wake_if_offline;
  max_concurrency = 1;
}

abbrev entry : ActorDirectoryRecord
entry = record {
  profile = profile;
  launch = some contract;
  registered_by = "s1";
  registered_at = "2024-02-29T12:00:00.000Z";
}

abbrev registered : Dict String
registered = ("worker", json.encode (record_value entry)) ∷ []

registers : register json coerce quiet host input [] ≡ (registered, ok entry)
unfolding register admit_actor_profile evaluate_launch_policy resolve is_dangerous_delegator
    basename is_dangerous_interpreter is_blank launch_matches_config trim lookup put
registers = refl

register-IsPermitted_example :
    IsPermitted host input entry
    × (lookup "worker" registered ≡ some (json.encode (record_value entry)))
register-IsPermitted_example =
    register-IsPermitted json coerce quiet host input [] registered entry registers

get-register_example :
    (get json coerce "worker" registered ≡ ok (some (record_value entry)))
    × ((wake_if_offline ≡ store_only) ⊎ (contract_readiness (record_value entry) ≡ runnable))
get-register_example =
    get-register json coerce quiet host input [] registered entry registers (omega arith)

abbrev stranger : ActorRegisterInput
stranger = record {
  profile_input = candidate;
  launch = some contract;
  registered_by = "s2";
  registered_at = "2024-02-29T13:00:00.000Z";
}

stored_value : json.decode (json.encode (record_value entry)) ≡ some (record_value entry)
unfolding record_value
stored_value = refl

register-IsRefused_example :
    (lookup "worker" (register json coerce quiet host stranger registered).0
      ≡ some (json.encode (record_value entry)))
    × (is_ok (register json coerce quiet host stranger registered).1 ≡ false)
unfolding record_value lookup
register-IsRefused_example =
    register-IsRefused json coerce quiet host stranger registered (json.encode (record_value entry))
      (record_value entry, stored_value, refl) (λ n st h. h) refl
