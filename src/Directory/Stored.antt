-- ===== src/Directory/Stored.antt =====
-- Which stored values src/core/actor-directory.ts admits as records, and the record that it writes.
pub mod Laws
use gptqueue.Prelude.{
  ℕ, String, Bool, true, false, not, ◌&&◌, Option, none, some, List, if◌then◌else◌, is_empty_text,
  is_some,
}
use gptqueue.Value.{
  Value, undefined, null, bool, num, other_num, str, arr, obj, Items, nil, cons, field, end, prop,
  of_strs, str_items, is_record, is_str,
}
use gptqueue.Outcome.{Outcome, ok, err, throws, ◌>>=◌, ◌>>◌, guard, or_err}
use gptqueue.Json.{optional}
use gptqueue.Presence.{
  ActivationPolicyMode, wake_if_offline, store_only, DurableActorProfile, AdmissionCode,
  invalid_identity, invalid_identity_charset, invalid_policy, invalid_concurrency, is_identity,
  mode_of, concurrency_of,
}
use gptqueue.Launch.Policy.{LaunchContractLike}

pub record ActorDirectoryRecord : Type 0 where
  pub profile : DurableActorProfile
  pub launch : Option LaunchContractLike
  pub registered_by : String
  pub registered_at : String

-- The part of a stored value that is not admissible.
pub data Failure : Type 0 where
  root profile registered_by launch : Failure
  profile_code : AdmissionCode → Failure

-- `isStoredLaunch`
abbrev pub is_stored_cwd : Value → Bool
is_stored_cwd undefined = true
is_stored_cwd (str s) = true
is_stored_cwd _ = false

abbrev pub are_stored_args : Value → Bool
are_stored_args (arr xs) = is_some (str_items xs)
are_stored_args _ = false

abbrev pub is_stored_launch : Value → Bool
is_stored_launch null = true
is_stored_launch (obj fs) =
    is_str (prop "command" (obj fs))
    && are_stored_args (prop "args" (obj fs))
    && is_stored_cwd (prop "cwd" (obj fs))
is_stored_launch _ = false

-- `value.length === 0`, which throws for a value that is nothing.
abbrev pub has_no_length : Value → Outcome AdmissionCode Bool
has_no_length undefined = throws
has_no_length null = throws
has_no_length (str s) = ok (is_empty_text s)
has_no_length (arr nil) = ok true
has_no_length _ = ok false

abbrev pub refuse_when : AdmissionCode → Bool → Outcome AdmissionCode (Unit {0})
refuse_when e b = guard (not b) e

-- `[...value]`
abbrev pub spread : Value → Outcome AdmissionCode (Unit {0})
spread (str s) = ok tt
spread (arr xs) = ok tt
spread _ = throws

-- `IDENTITY_CHARSET.test(value)`
abbrev pub tests_identity : (Value → String) → Value → Bool
tests_identity coerce (str s) = is_identity s
tests_identity coerce v = is_identity (coerce v)

-- `admitActorProfile` of a value that has not been typed.
unfoldable pub admit_stored : (Value → String) → Value → Outcome AdmissionCode (Unit {0})
unfolding is_identity
admit_stored coerce v =
    has_no_length (prop "actor_id" v)
    >>= refuse_when invalid_identity
    >> (has_no_length (prop "alias" v) >>= refuse_when invalid_identity)
    >> guard (tests_identity coerce (prop "actor_id" v)) invalid_identity_charset
    >> guard (tests_identity coerce (prop "alias" v)) invalid_identity_charset
    >> guard (is_some (mode_of (prop "mode" (prop "activation_policy" v)))) invalid_policy
    >> guard (is_some (concurrency_of (prop "max_concurrency" v))) invalid_concurrency
    >> spread (prop "capabilities" v)

abbrev pub failure_of : Outcome AdmissionCode (Unit {0}) → Option Failure
failure_of (ok u) = none
failure_of (err e) = some (profile_code e)
failure_of throws = some profile

-- `storedActorFailure`
unfoldable pub stored_actor_failure : (Value → String) → Value → Option Failure
unfolding admit_stored
stored_actor_failure coerce v =
    if not (is_record v)
    then some root
    else if not (is_record (prop "profile" v))
    then some profile
    else if not (is_str (prop "registered_by" v))
    then some registered_by
    else if not (is_stored_launch (prop "launch" v))
    then some launch
    else failure_of (admit_stored coerce (prop "profile" v))

abbrev pub admissible : Value → Option Failure → Option Value
admissible v none = some v
admissible v (some f) = none

-- `parseStored`; `none` stands for a corrupt value.
unfoldable pub parse_stored : (Value → String) → Option Value → Option Value
unfolding stored_actor_failure
parse_stored coerce none = none
parse_stored coerce (some v) = admissible v (stored_actor_failure coerce v)

abbrev pub mode_text : ActivationPolicyMode → String
mode_text wake_if_offline = "wake_if_offline"
mode_text store_only = "store_only"

abbrev pub text_value : Option String → Option Value
text_value none = none
text_value (some s) = some (str s)

-- What `JSON.stringify` is given: a field that is undefined is left out.
abbrev pub profile_value : DurableActorProfile → Value
profile_value p = obj (
    field "actor_id" (str p.actor_id) (
      field "alias" (str p.alias) (
        field "activation_policy" (obj (field "mode" (str (mode_text p.activation_policy)) end)) (
          field "max_concurrency" (num p.max_concurrency) (
            field "capabilities" (arr (of_strs p.capabilities)) (
              field "workspace_root" (str p.workspace_root) (
                field "working_directory" (str p.working_directory) (
                  field "runtime" (str p.runtime)
                    (optional "run_directory" (text_value p.run_directory) end)))))))))

abbrev pub launch_value : Option LaunchContractLike → Value
launch_value none = null
launch_value (some l) = obj (
    field "command" (str l.command)
      (field "args" (arr (of_strs l.args)) (optional "cwd" (text_value l.cwd) end)))

unfoldable pub record_value : ActorDirectoryRecord → Value
record_value r = obj (
    field "profile" (profile_value r.profile) (
      field "launch" (launch_value r.launch) (
        field "registered_by" (str r.registered_by)
          (field "registered_at" (str r.registered_at) end))))
