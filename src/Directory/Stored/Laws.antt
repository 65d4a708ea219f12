-- ===== src/Directory/Stored/Laws.antt =====
-- The records that src/core/actor-directory.ts writes are those that it admits when it reads.
use gptqueue.Prelude.{
  ℕ, String, true, false, Option, none, some, ◌≡◌, ◌≤◌, refl, is_empty_text, is_some, arith,
}
use gptqueue.Value.{Value, str, Fields, str_items-of_strs}
use gptqueue.Outcome.{ok}
use gptqueue.Json.{IsJson, HaveJson, optional, strs-AreJson}
use gptqueue.Presence.{
  ActivationPolicyMode, wake_if_offline, store_only, DurableActorProfile, is_identity, mode_of,
  concurrency_of,
}
use gptqueue.Launch.Policy.{LaunchContractLike}
use gptqueue.Directory.Stored.{
  ActorDirectoryRecord, admit_stored, stored_actor_failure, parse_stored, is_stored_launch,
  launch_value, profile_value, record_value, mode_text, text_value,
}

-- A profile that has been admitted, with a concurrency that a double holds.
pub record IsAdmissible (p : DurableActorProfile) : Type 0 where
  pub actor_id : is_identity p.actor_id ≡ true
  pub alias : is_identity p.alias ≡ true
  pub positive : 1 ≤ p.max_concurrency
  pub small : p.max_concurrency ≤ 9007199254740991

identity_nonempty : (s : String) → is_identity s ≡ true → is_empty_text s ≡ false
unfolding is_identity
identity_nonempty String.[] h = absurd (ground arith)
identity_nonempty (String.◌∷◌ c s) h = refl

mode_of-text : (m : ActivationPolicyMode) → mode_of (str (mode_text m)) ≡ some m
mode_of-text wake_if_offline = refl
mode_of-text store_only = refl

concurrency_positive : (n : ℕ) → 1 ≤ n → is_some (concurrency_of (Value.num n)) ≡ true
concurrency_positive n h = ground arith

admit-profile_value :
    (coerce : Value → String) (p : DurableActorProfile)
    → IsAdmissible p
    → admit_stored coerce (profile_value p) ≡ ok tt
unfolding admit_stored
admit-profile_value coerce p a =
    rw
      (
        identity_nonempty p.actor_id a.actor_id,
        identity_nonempty p.alias a.alias,
        a.actor_id,
        a.alias,
        mode_of-text p.activation_policy,
        concurrency_positive p.max_concurrency a.positive,
      )
      refl

launch_value-IsStored : (o : Option LaunchContractLike) → is_stored_launch (launch_value o) ≡ true
launch_value-IsStored none = refl
launch_value-IsStored (some l) = by_cwd l.cwd
  where
    by_cwd :
        (o : Option String)
        → is_stored_launch
            (launch_value (some (record { command = l.command; args = l.args; cwd = o })))
          ≡ true
    by_cwd none = rw (str_items-of_strs l.args) refl
    by_cwd (some s) = rw (str_items-of_strs l.args) refl

-- A record with an admissible profile is read back as the value that was written.
pub parse-record_value :
    (coerce : Value → String) (r : ActorDirectoryRecord)
    → IsAdmissible r.profile
    → parse_stored coerce (some (record_value r)) ≡ some (record_value r)
unfolding parse_stored stored_actor_failure record_value
parse-record_value coerce r a =
    rw (launch_value-IsStored r.launch, admit-profile_value coerce r.profile a) refl

HaveJson-text :
    (k : String) (o : Option String) (fs : Fields)
    → HaveJson fs
    → HaveJson (optional k (text_value o) fs)
HaveJson-text k none fs h = h
HaveJson-text k (some s) fs h = (tt, h)

launch_value-IsJson : (o : Option LaunchContractLike) → IsJson (launch_value o)
launch_value-IsJson none = tt
launch_value-IsJson (some l) = (tt, (strs-AreJson l.args, HaveJson-text "cwd" l.cwd Fields.end tt))

pub record_value-IsJson :
    (r : ActorDirectoryRecord) → IsAdmissible r.profile → IsJson (record_value r)
unfolding record_value
record_value-IsJson r a =
    let p = r.profile in
    (
      (
        tt,
        (
          tt,
          (
            (tt, tt),
            (
              a.small,
              (
                strs-AreJson p.capabilities,
                (tt, (tt, (tt, HaveJson-text "run_directory" p.run_directory Fields.end tt))),
              ),
            ),
          ),
        ),
      ),
      (launch_value-IsJson r.launch, (tt, (tt, tt))),
    )
