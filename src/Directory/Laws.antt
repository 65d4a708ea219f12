-- ===== src/Directory/Laws.antt =====
-- What a registration in src/core/actor-directory.ts promises, whatever other clients do meanwhile.
use gptqueue.Prelude.{
  ℕ, zero, suc, String, Bool, true, false, Option, none, some, ◌≡◌, refl, sym, subst, if◌then◌else◌,
  str_eq_refl, Dict, lookup, put, lookup-put, arith,
}
use gptqueue.Value.{Value, prop, is_text}
use gptqueue.Outcome.{Outcome, ok, err, throws, guard, ◌>>=◌, ◌>>◌}
use gptqueue.Json.{JsonCodec}
use gptqueue.Presence.{DurableActorProfile, admit_actor_profile, AdmissionCode}
use gptqueue.Presence.Laws.{IsProfile, admit-IsProfile_iff}
use gptqueue.Launch.Policy.{Host}
use gptqueue.Directory.Stored.{ActorDirectoryRecord, record_value}
use gptqueue.Directory.{
  ActorDirectoryErrorCode, actor_owned_elsewhere, ActorRegisterInput, Attempt, answered, raced,
  admit_registration, directory_record, of_admission, invalid_launch_contract, check_policy,
  is_valid_launch_contract, may_set, conditional_set, read_record, persisted, persist,
  register_read, register_attempt, register_exhausted, register_again, register_admitted, register,
}

abbrev Answer : Type 0
Answer = Outcome ActorDirectoryErrorCode ActorDirectoryRecord

module _ (json : JsonCodec) (coerce : Value → String) (others : ℕ → Dict String → Dict String)
    (r : ActorDirectoryRecord) where
  -- An answer of success is the record, and the hash has it.
  abbrev Wrote : Dict String × Attempt → Type 0
  Wrote (st, answered (ok x)) =
      (x ≡ r) × (lookup r.profile.actor_id st ≡ some (json.encode (record_value r)))
  Wrote _ = Unit

  persist-Wrote : (n : ℕ) (st : Dict String) → Wrote (persist json coerce others n r st)
  unfolding conditional_set
  persist-Wrote n st =
      by_test (may_set json coerce r.registered_by (lookup r.profile.actor_id (others n st)))
    where
      by_test :
          (b : Bool)
          → Wrote (
              persisted json coerce others r (
                if b
                then (put r.profile.actor_id (json.encode (record_value r)) (others n st), true)
                else (others n st, false)))
      by_test true = (
        refl,
        rw
            (
              lookup-put r.profile.actor_id r.profile.actor_id (json.encode (record_value r))
                  (others n st),
              str_eq_refl r.profile.actor_id,
            )
            refl,
      )
      by_test false = tt

  register_read-Wrote :
      (n : ℕ) (o : Option (Option Value)) (st : Dict String)
      → Wrote (register_read json coerce others n r o st)
  register_read-Wrote n none st = tt
  register_read-Wrote n (some none) st = persist-Wrote n st
  register_read-Wrote n (some (some v)) st =
      by_owner (is_text (prop "registered_by" v) r.registered_by)
    where
      by_owner :
          (b : Bool)
          → Wrote (
              if b
              then persist json coerce others n r st
              else (st, answered (err actor_owned_elsewhere)))
      by_owner true = persist-Wrote n st
      by_owner false = tt

  abbrev WroteLast : Dict String × Answer → Type 0
  WroteLast (st, a) = Wrote (st, answered a)

  register_again-Wrote :
      (more : ℕ) (p : Dict String × Attempt)
      → Wrote p
      → WroteLast (register_again json coerce others more r p)
  register_again-Wrote zero (st, raced) w =
      exhausted (read_record json coerce r.profile.actor_id (others 4 st))
    where
      exhausted :
          (o : Option (Option Value))
          → WroteLast (others 4 st, register_exhausted json coerce others o)
      exhausted none = tt
      exhausted (some o) = tt
  register_again-Wrote (suc more) (st, raced) w =
      register_again-Wrote more (register_attempt json coerce others 2 r st) (
        register_read-Wrote 3 (read_record json coerce r.profile.actor_id (others 2 st))
          (others 2 st))
  register_again-Wrote zero (st, answered a) w = w
  register_again-Wrote (suc more) (st, answered a) w = w

-- What a registration must be, for its record to be written.
pub record IsPermitted (host : Host) (input : ActorRegisterInput) (r : ActorDirectoryRecord)
    : Type 0 where
  pub profile : DurableActorProfile
  pub is_profile : IsProfile input.profile_input profile
  pub contract : is_valid_launch_contract profile.activation_policy input.launch ≡ true
  pub policy : check_policy host profile.activation_policy input.launch ≡ ok tt
  pub kept : r ≡ directory_record input profile

pub admission-IsPermitted :
    (host : Host) (input : ActorRegisterInput) (r : ActorDirectoryRecord)
    → admit_registration host input ≡ ok r
    → IsPermitted host input r
unfolding admit_registration
admission-IsPermitted host input r h = by_admission (admit_actor_profile input.profile_input) refl h
  where
    all_ok :
        (p : DurableActorProfile) (b : Bool) (o : Outcome ActorDirectoryErrorCode (Unit {0}))
        → (guard b invalid_launch_contract >> o >> ok (directory_record input p)) ≡ ok r
        → (b ≡ true) × (o ≡ ok tt) × (r ≡ directory_record input p)
    all_ok p true (ok u) k = (refl, refl, ground arith)
    all_ok p true (err e) k = absurd (ground arith)
    all_ok p true throws k = absurd (ground arith)
    all_ok p false o k = absurd (ground arith)

    by_admission :
        (o : Outcome AdmissionCode DurableActorProfile)
        → admit_actor_profile input.profile_input ≡ o
        → (of_admission o >>= λ p.
            guard
              (is_valid_launch_contract p.activation_policy input.launch)
              invalid_launch_contract
            >> check_policy host p.activation_policy input.launch
            >> ok (directory_record input p))
          ≡ ok r
        → IsPermitted host input r
    by_admission (err e) a k = absurd (ground arith)
    by_admission throws a k = absurd (ground arith)
    by_admission (ok p) a k =
        let (c, d, e) = all_ok p _ _ k in
        record {
          profile = p;
          is_profile = (admit-IsProfile_iff input.profile_input p).0 a;
          contract = c;
          policy = d;
          kept = e;
        }

-- A registration that succeeds is permitted: the profile is admitted, an actor to be woken has a
-- command and passes the launch policy of the operator. The hash then has the record, under its id.
pub register-IsPermitted :
    (json : JsonCodec) (coerce : Value → String) (others : ℕ → Dict String → Dict String)
    (host : Host) (input : ActorRegisterInput) (st st' : Dict String) (r : ActorDirectoryRecord)
    → register json coerce others host input st ≡ (st', ok r)
    → IsPermitted host input r
      × (lookup r.profile.actor_id st' ≡ some (json.encode (record_value r)))
unfolding register
register-IsPermitted json coerce others host input st st' r h =
    by_admission (admit_registration host input) refl h
  where
    by_admission :
        (o : Answer)
        → admit_registration host input ≡ o
        → register_admitted json coerce others o st ≡ (st', ok r)
        → IsPermitted host input r
          × (lookup r.profile.actor_id st' ≡ some (json.encode (record_value r)))
    by_admission (err e) a k = absurd (ground arith)
    by_admission throws a k = absurd (ground arith)
    by_admission (ok x) a k =
        let now = others 0 st in
        let (same, there) = subst (WroteLast json coerce others x) k (
          register_again-Wrote json coerce others x 1 (register_attempt json coerce others 0 x st) (
            register_read-Wrote json coerce others x 1
              (read_record json coerce x.profile.actor_id now) now)) in
        subst
          (λ y.
            IsPermitted host input y
            × (lookup y.profile.actor_id st' ≡ some (json.encode (record_value y))))
          (sym same) (admission-IsPermitted host input x a, there)
