-- ===== src/Directory.antt =====
-- src/core/actor-directory.ts and src/mcp-server/lua/actor-conditional-set.lua: the durable actors, in
-- the hash `gptq:actor-profiles`. `others n` is what other clients do to the hash before call number
-- `n` of Redis; `coerce` is `String(value)` for a value that is no text.
pub mod Stored
pub mod Laws
pub mod Owners
use gptqueue.Prelude.{
  ℕ, zero, suc, ◌+◌, String, Bool, true, false, not, ◌&&◌, Option, none, some, List, [], ◌∷◌,
  if◌then◌else◌, str_eq, is_empty_text, Dict, lookup, put, is_some,
}
use gptqueue.Value.{
  Value, obj, arr, str, num, null, field, end, prop, of_strs, is_record, is_text, as_str,
  as_nonempty,
}
use gptqueue.Outcome.{Outcome, ok, err, throws, ◌>>=◌, ◌>>◌, guard}
use gptqueue.Json.{JsonCodec, optional}
use gptqueue.Presence.{
  ActivationPolicyMode, wake_if_offline, store_only, Candidate, DurableActorProfile, AdmissionCode,
  LaunchContractReadiness, runnable, not_runnable, admit_actor_profile,
}
use gptqueue.Launch.Policy.{LaunchContractLike, PolicyCode, Host, evaluate_launch_policy}
use Stored.{parse_stored, record_value}
use gptqueue.Directory.Stored.{ActorDirectoryRecord}

pub data ActorDirectoryErrorCode : Type 0 where
  admission : AdmissionCode → ActorDirectoryErrorCode
  policy : PolicyCode → ActorDirectoryErrorCode
  invalid_launch_contract actor_owned_elsewhere store_corrupt : ActorDirectoryErrorCode

-- How an attempt to register ends: with an answer, or with a precondition that failed.
pub data Attempt : Type 0 where
  answered : Outcome ActorDirectoryErrorCode ActorDirectoryRecord → Attempt
  raced : Attempt

pub record ActorRegisterInput : Type 0 where
  pub profile_input : Candidate
  pub launch : Option LaunchContractLike
  pub registered_by : String
  pub registered_at : String

-- `isValidLaunchContract`; the arguments are texts by their type.
abbrev pub is_well_formed_launch : Option LaunchContractLike → Bool
is_well_formed_launch none = false
is_well_formed_launch (some l) = not (is_empty_text l.command)

abbrev pub is_valid_launch_contract : ActivationPolicyMode → Option LaunchContractLike → Bool
is_valid_launch_contract wake_if_offline l = is_well_formed_launch l
is_valid_launch_contract store_only l = true

-- The policy of the operator, for actors that are to be woken.
abbrev pub of_policy : Outcome PolicyCode (Unit {0}) → Outcome ActorDirectoryErrorCode (Unit {0})
of_policy (ok u) = ok u
of_policy (err e) = err (policy e)
of_policy throws = throws

abbrev pub check_policy :
    Host
    → ActivationPolicyMode
    → Option LaunchContractLike
    → Outcome ActorDirectoryErrorCode (Unit {0})
check_policy host wake_if_offline (some l) = of_policy (evaluate_launch_policy host l)
check_policy host _ l = ok tt

abbrev pub of_admission :
    Outcome AdmissionCode DurableActorProfile → Outcome ActorDirectoryErrorCode DurableActorProfile
of_admission (ok p) = ok p
of_admission (err e) = err (admission e)
of_admission throws = throws

abbrev pub directory_record : ActorRegisterInput → DurableActorProfile → ActorDirectoryRecord
directory_record input profile = record {
  profile = profile;
  launch = input.launch;
  registered_by = input.registered_by;
  registered_at = input.registered_at;
}

-- What `register` decides before it calls Redis: the record that it is to write.
unfoldable pub admit_registration :
    Host → ActorRegisterInput → Outcome ActorDirectoryErrorCode ActorDirectoryRecord
admit_registration host input =
    of_admission (admit_actor_profile input.profile_input) >>= λ profile.
    guard (is_valid_launch_contract profile.activation_policy input.launch) invalid_launch_contract
    >> check_policy host profile.activation_policy input.launch
    >> ok (directory_record input profile)

-- `contractReadiness`
abbrev pub runnable_when : Bool → LaunchContractReadiness
runnable_when true = runnable
runnable_when false = not_runnable

unfoldable pub contract_readiness : Value → LaunchContractReadiness
contract_readiness v = runnable_when (is_some (as_nonempty (prop "command" (prop "launch" v))))

module _ (json : JsonCodec) (coerce : Value → String) where
  -- The test of the script on the value that is stored.
  abbrev pub is_owned_by : String → Option Value → Bool
  is_owned_by owner none = false
  is_owned_by owner (some v) = is_record v && is_text (prop "registered_by" v) owner

  abbrev pub may_set : String → Option String → Bool
  may_set owner none = true
  may_set owner (some raw) = is_owned_by owner (json.decode raw)

  -- actor-conditional-set.lua
  unfoldable pub conditional_set : String → String → String → Dict String → Dict String × Bool
  conditional_set actor_id value owner st =
      if may_set owner (lookup actor_id st) then (put actor_id value st, true) else (st, false)

  abbrev pub read_as : Option Value → Option (Option Value)
  read_as none = none
  read_as (some v) = some (some v)

  abbrev pub read_of : Option String → Option (Option Value)
  read_of none = some none
  read_of (some raw) = read_as (parse_stored coerce (json.decode raw))

  -- `none` for a corrupt value, `some none` for an absent one.
  unfoldable pub read_record : String → Dict String → Option (Option Value)
  read_record actor_id st = read_of (lookup actor_id st)

  -- `get`
  abbrev pub got : Option (Option Value) → Outcome ActorDirectoryErrorCode (Option Value)
  got none = err store_corrupt
  got (some o) = ok o

  unfoldable pub get : String → Dict String → Outcome ActorDirectoryErrorCode (Option Value)
  unfolding read_record
  get actor_id st = got (read_record actor_id st)

  abbrev pub listed :
      Option Value
      → Outcome ActorDirectoryErrorCode (List Value)
      → Outcome ActorDirectoryErrorCode (List Value)
  listed none rest = err store_corrupt
  listed (some v) (ok vs) = ok (v ∷ vs)
  listed (some v) e = e

  -- `list`
  unfoldable pub list : Dict String → Outcome ActorDirectoryErrorCode (List Value)
  list [] = ok []
  list ((actor_id, raw) ∷ rest) = listed (parse_stored coerce (json.decode raw)) (list rest)

  module _ (others : ℕ → Dict String → Dict String) where
    abbrev pub persisted : ActorDirectoryRecord → Dict String × Bool → Dict String × Attempt
    persisted r (st, true) = (st, answered (ok r))
    persisted r (st, false) = (st, raced)

    abbrev pub persist : ℕ → ActorDirectoryRecord → Dict String → Dict String × Attempt
    persist n r st = persisted r (
        conditional_set r.profile.actor_id (json.encode (record_value r)) r.registered_by
          (others n st))

    abbrev pub register_read :
        ℕ → ActorDirectoryRecord → Option (Option Value) → Dict String → Dict String × Attempt
    register_read n r none st = (st, answered (err store_corrupt))
    register_read n r (some none) st = persist n r st
    register_read n r (some (some v)) st =
        if is_text (prop "registered_by" v) r.registered_by
        then persist n r st
        else (st, answered (err actor_owned_elsewhere))

    -- An attempt makes two calls, from number `n` on.
    abbrev pub register_attempt : ℕ → ActorDirectoryRecord → Dict String → Dict String × Attempt
    register_attempt n r st =
        let now = others n st in register_read (n + 1) r (read_record r.profile.actor_id now) now

    abbrev pub register_exhausted :
        Option (Option Value) → Outcome ActorDirectoryErrorCode ActorDirectoryRecord
    register_exhausted none = err store_corrupt
    register_exhausted (some o) = err actor_owned_elsewhere

    abbrev pub register_again :
        ℕ
        → ActorDirectoryRecord
        → Dict String × Attempt
        → Dict String × Outcome ActorDirectoryErrorCode ActorDirectoryRecord
    register_again zero r (st, raced) =
        let now = others 4 st in (now, register_exhausted (read_record r.profile.actor_id now))
    register_again (suc more) r (st, raced) = register_again more r (register_attempt 2 r st)
    register_again more r (st, answered a) = (st, a)

    abbrev pub register_admitted :
        Outcome ActorDirectoryErrorCode ActorDirectoryRecord
        → Dict String
        → Dict String × Outcome ActorDirectoryErrorCode ActorDirectoryRecord
    register_admitted (ok r) st = register_again 1 r (register_attempt 0 r st)
    register_admitted (err e) st = (st, err e)
    register_admitted throws st = (st, throws)

    unfoldable pub register :
        Host
        → ActorRegisterInput
        → Dict String
        → Dict String × Outcome ActorDirectoryErrorCode ActorDirectoryRecord
    unfolding conditional_set read_record admit_registration
    register host input st = register_admitted (admit_registration host input) st
