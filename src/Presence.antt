-- ===== src/Presence.antt =====
-- src/core/actor-presence.ts: whether an actor is reachable, and which profiles are admitted.
pub mod Laws
use Prim.Native.Char.{code}
use gptqueue.Prelude.{
  if◌then◌else◌, ℕ, ◌+◌, String, Bool, true, false, ◌&&◌, ◌||◌, not, Option, none, some, List,
  is_some, leb, ◌==◌, str_eq, is_empty_text,
}
use gptqueue.Outcome.{Outcome, ok, err, ◌>>=◌, ◌>>◌, guard, or_err}
use gptqueue.Value.{Value, num, str, prop}

pub data ActivationPolicyMode : Type 0 where
  wake_if_offline store_only : ActivationPolicyMode

-- A profile as a caller hands it over: `admit_actor_profile` is what checks the last two fields. The
-- others have the types that the source declares for them, and fields beyond these are left out.
pub record Candidate : Type 0 where
  pub actor_id : String
  pub alias : String
  pub capabilities : List String
  pub workspace_root : String
  pub working_directory : String
  pub run_directory : Option String
  pub runtime : String
  pub activation_policy : Value
  pub max_concurrency : Value

pub record DurableActorProfile : Type 0 where
  pub actor_id : String
  pub alias : String
  pub capabilities : List String
  pub workspace_root : String
  pub working_directory : String
  pub run_directory : Option String
  pub runtime : String
  pub activation_policy : ActivationPolicyMode
  pub max_concurrency : ℕ

pub data Workload : Type 0 where
  processing idle : Workload

pub record RuntimeIncarnation : Type 0 where
  pub incarnation_id : String
  pub session_id : Option String
  pub started_at : Option String
  pub lease_id : Option String
  pub workload : Workload

pub data LaunchContractReadiness : Type 0 where
  runnable not_runnable : LaunchContractReadiness

pub record PresenceInput : Type 0 where
  pub actor : Option DurableActorProfile
  pub launch_contract : LaunchContractReadiness
  pub runtime : Option RuntimeIncarnation
  pub wake_lease_id : Option String

pub data RuntimePresenceState : Type 0 where
  active idle starting : RuntimePresenceState
  offline_launchable offline_store_only unavailable : RuntimePresenceState

pub data UnknownRecipient : Type 0 where
  unknown_recipient : UnknownRecipient

pub data AdmissionCode : Type 0 where
  invalid_identity invalid_identity_charset invalid_policy invalid_concurrency : AdmissionCode

pub data Situation : Type 0 where
  runtime_leased : (workload : Workload) → Situation
  wake_lease_outstanding : Situation
  offline : (contract : LaunchContractReadiness) (policy : ActivationPolicyMode) → Situation

abbrev pub classify_situation : Situation → RuntimePresenceState
classify_situation (runtime_leased processing) = active
classify_situation (runtime_leased Workload.idle) = RuntimePresenceState.idle
classify_situation wake_lease_outstanding = starting
classify_situation (offline not_runnable policy) = unavailable
classify_situation (offline runnable store_only) = offline_store_only
classify_situation (offline runnable wake_if_offline) = offline_launchable

-- The workload of an incarnation that holds a lease.
abbrev pub leased : Option RuntimeIncarnation → Option Workload
leased none = none
leased (some r) = elim r.lease_id [ none ↦ none | some lease ↦ some r.workload ]

abbrev pub situation_of :
    Option Workload → Option String → LaunchContractReadiness → ActivationPolicyMode → Situation
situation_of (some w) wake contract policy = runtime_leased w
situation_of none (some lease) contract policy = wake_lease_outstanding
situation_of none none contract policy = offline contract policy

abbrev pub resolve_situation : PresenceInput → DurableActorProfile → Situation
resolve_situation input actor =
    situation_of (leased input.runtime) input.wake_lease_id input.launch_contract
      actor.activation_policy

unfoldable pub classify_presence :
    PresenceInput → Outcome UnknownRecipient (String × RuntimePresenceState)
classify_presence input = or_err input.actor unknown_recipient >>= λ actor.
    ok (actor.actor_id, classify_situation (resolve_situation input actor))

-- `[A-Za-z0-9._-]`
abbrev pub is_identity_code : ℕ → Bool
is_identity_code c =
    (leb b'A' c && leb c b'Z')
    || (leb b'a' c && leb c b'z')
    || (leb b'0' c && leb c b'9')
    || (c == b'.')
    || (c == b'_')
    || (c == b'-')

abbrev pub all_identity : String → Bool
all_identity String.[] = true
all_identity (String.◌∷◌ c s) = is_identity_code (code c) && all_identity s

abbrev pub text_length : String → ℕ
text_length String.[] = 0
text_length (String.◌∷◌ c s) = text_length s + 1

-- `IDENTITY_CHARSET.test(s)`
unfoldable pub is_identity : String → Bool
is_identity s = leb 1 (text_length s) && leb (text_length s) 64 && all_identity s

abbrev pub mode_of_text : String → Option ActivationPolicyMode
mode_of_text s = elim (str_eq s "wake_if_offline") [
  | true ↦ some wake_if_offline
  | false ↦ elim (str_eq s "store_only") [ true ↦ some store_only | false ↦ none ]
]

-- `isActivationPolicyMode(value)`
abbrev pub mode_of : Value → Option ActivationPolicyMode
mode_of (str s) = mode_of_text s
mode_of _ = none

-- An integer of at least 1.
abbrev pub concurrency_of : Value → Option ℕ
concurrency_of (num n) = if leb 1 n then some n else none
concurrency_of _ = none

abbrev pub admitted : Candidate → ActivationPolicyMode → ℕ → DurableActorProfile
admitted c policy concurrency = record {
  actor_id = c.actor_id;
  alias = c.alias;
  capabilities = c.capabilities;
  workspace_root = c.workspace_root;
  working_directory = c.working_directory;
  run_directory = c.run_directory;
  runtime = c.runtime;
  activation_policy = policy;
  max_concurrency = concurrency;
}

abbrev pub admit_policy : Candidate → Outcome AdmissionCode DurableActorProfile
admit_policy c = or_err (mode_of (prop "mode" c.activation_policy)) invalid_policy >>= λ policy.
    or_err (concurrency_of c.max_concurrency) invalid_concurrency >>= λ concurrency.
    ok (admitted c policy concurrency)

unfoldable pub admit_actor_profile : Candidate → Outcome AdmissionCode DurableActorProfile
unfolding is_identity
admit_actor_profile c =
    guard (not (is_empty_text c.actor_id)) invalid_identity
    >> guard (not (is_empty_text c.alias)) invalid_identity
    >> guard (is_identity c.actor_id) invalid_identity_charset
    >> guard (is_identity c.alias) invalid_identity_charset
    >> admit_policy c
