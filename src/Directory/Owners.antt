-- ===== src/Directory/Owners.antt =====
-- Who may write the record of an actor in src/core/actor-directory.ts, and what is read of it then.
use gptqueue.Prelude.{
  ◌⊎◌, inl, inr, ℕ, zero, suc, String, Bool, true, false, Option, none, some, ◌≡◌, ◌≤◌, refl, ap,
  sym, subst, ◌∙◌, if◌then◌else◌, Dict, lookup, put, arith,
}
use gptqueue.Value.{Value, prop, is_text}
use gptqueue.Outcome.{Outcome, ok, err, throws}
use gptqueue.Json.{JsonCodec}
use gptqueue.Presence.{ActivationPolicyMode, store_only, wake_if_offline, runnable}
use gptqueue.Presence.Laws.{is_identity_iff}
use gptqueue.Launch.Policy.{LaunchContractLike, Host}
use gptqueue.Directory.Stored.{ActorDirectoryRecord, parse_stored, record_value}
use gptqueue.Directory.Stored.Laws.{IsAdmissible, parse-record_value, record_value-IsJson}
use gptqueue.Directory.{
  ActorDirectoryErrorCode, actor_owned_elsewhere, ActorRegisterInput, Attempt, answered, raced,
  admit_registration, is_valid_launch_contract, contract_readiness, is_owned_by, may_set,
  conditional_set, got, read_record, read_as, read_of, get, persisted, persist, register_read,
  register_attempt, register_exhausted, register_again, register_admitted, register,
}
use gptqueue.Directory.Laws.{IsPermitted, admission-IsPermitted, register-IsPermitted}

-- The record is admissible, if its concurrency is a number that a double holds.
permitted-IsAdmissible :
    (host : Host) (input : ActorRegisterInput) (r : ActorDirectoryRecord)
    → IsPermitted host input r
    → r.profile.max_concurrency ≤ 9007199254740991
    → IsAdmissible r.profile
permitted-IsAdmissible host input r p small =
    subst (λ x. x.profile.max_concurrency ≤ 9007199254740991 → IsAdmissible x.profile) (sym p.kept)
      (λ fits.
        subst (λ x. x.max_concurrency ≤ 9007199254740991 → IsAdmissible x) (sym p.is_profile.kept)
          (λ fine. record {
            actor_id = (is_identity_iff input.profile_input.actor_id).1 p.is_profile.actor_id;
            alias = (is_identity_iff input.profile_input.alias).1 p.is_profile.alias;
            positive = p.is_profile.positive;
            small = fine;
          })
          fits)
      small

readable :
    (json : JsonCodec) (coerce : Value → String) (st : Dict String) (r : ActorDirectoryRecord)
    → IsAdmissible r.profile
    → lookup r.profile.actor_id st ≡ some (json.encode (record_value r))
    → get json coerce r.profile.actor_id st ≡ ok (some (record_value r))
unfolding get read_record
readable json coerce st r a there =
    ap (λ o. got json coerce (read_of json coerce o)) there
    ∙ ap (λ o. got json coerce (read_as json coerce (parse_stored coerce o)))
        (json.decode-encode (record_value r) (record_value-IsJson r a))
    ∙ ap (λ o. got json coerce (read_as json coerce o)) (parse-record_value coerce r a)

is_runnable :
    (r : ActorDirectoryRecord)
    → is_valid_launch_contract wake_if_offline r.launch ≡ true
    → contract_readiness (record_value r) ≡ runnable
unfolding contract_readiness record_value
is_runnable r h = by_launch r.launch h
  where
    by_launch :
        (o : Option LaunchContractLike)
        → is_valid_launch_contract wake_if_offline o ≡ true
        → contract_readiness (
            record_value (record {
              profile = r.profile;
              launch = o;
              registered_by = r.registered_by;
              registered_at = r.registered_at;
            }))
          ≡ runnable
    by_launch none k = absurd (ground arith)
    by_launch (some l) k = ground arith

permitted_contract :
    {host : Host} {input : ActorRegisterInput} {r : ActorDirectoryRecord}
    → IsPermitted host input r
    → is_valid_launch_contract r.profile.activation_policy r.launch ≡ true
permitted_contract p =
    subst (λ x. is_valid_launch_contract x.profile.activation_policy x.launch ≡ true) (sym p.kept)
      p.contract

readiness :
    (r : ActorDirectoryRecord) (m : ActivationPolicyMode)
    → is_valid_launch_contract m r.launch ≡ true
    → (m ≡ store_only) ⊎ (contract_readiness (record_value r) ≡ runnable)
readiness r store_only h = inl refl
readiness r wake_if_offline h = inr (is_runnable r h)

-- A record that a registration has written, whose concurrency a double holds, is what `get` answers
-- next, and its actor is store-only or counts as one that can be run.
pub get-register :
    (json : JsonCodec) (coerce : Value → String) (others : ℕ → Dict String → Dict String)
    (host : Host) (input : ActorRegisterInput) (st st' : Dict String) (r : ActorDirectoryRecord)
    → register json coerce others host input st ≡ (st', ok r)
    → r.profile.max_concurrency ≤ 9007199254740991
    → (get json coerce r.profile.actor_id st' ≡ ok (some (record_value r)))
      × ((r.profile.activation_policy ≡ store_only)
          ⊎ (contract_readiness (record_value r) ≡ runnable))
get-register json coerce others host input st st' r h small =
    let (permitted, there) = register-IsPermitted json coerce others host input st st' r h in
    (
      readable json coerce st' r (permitted-IsAdmissible host input r permitted small) there,
      readiness r r.profile.activation_policy (permitted_contract permitted),
    )

-- Whether a call answers `{ ok: true, … }`.
abbrev pub is_ok : Outcome ActorDirectoryErrorCode ActorDirectoryRecord → Bool
is_ok (ok r) = true
is_ok _ = false

module _ (json : JsonCodec) (coerce : Value → String) (others : ℕ → Dict String → Dict String)
    (actor_id raw owner : String) where
  -- What is stored under the id belongs to a session other than `owner`.
  abbrev pub IsForeign : Type 0
  IsForeign =
      (v : Value) × (json.decode raw ≡ some v) × (is_text (prop "registered_by" v) owner ≡ false)

  -- The other clients leave it there.
  abbrev pub IsKept : Type 0
  IsKept =
      (n : ℕ) (st : Dict String)
      → lookup actor_id st ≡ some raw
      → lookup actor_id (others n st) ≡ some raw

  abbrev IsRefusal : Attempt → Type 0
  IsRefusal (answered (ok r)) = ⊥
  IsRefusal _ = Unit

  abbrev IsRefused : Dict String × Attempt → Type 0
  IsRefused (st, a) = (lookup actor_id st ≡ some raw) × IsRefusal a

  persist-IsRefused :
      (n : ℕ) (r : ActorDirectoryRecord) (st : Dict String)
      → IsForeign
      → IsKept
      → r.profile.actor_id ≡ actor_id
      → r.registered_by ≡ owner
      → lookup actor_id st ≡ some raw
      → IsRefused (persist json coerce others n r st)
  unfolding conditional_set
  persist-IsRefused n r st (v, decoded, foreign) kept same own there =
      subst
        (λ b. IsRefused (
          persisted json coerce others r (
            if b
            then (put r.profile.actor_id (json.encode (record_value r)) (others n st), true)
            else (others n st, false))))
        (sym closed) (kept n st there, tt)
    where
      owned_by-foreign : is_owned_by json coerce owner (some v) ≡ false
      owned_by-foreign = ground arith

      closed : may_set json coerce r.registered_by (lookup r.profile.actor_id (others n st)) ≡ false
      closed =
          ap (λ o. may_set json coerce o (lookup r.profile.actor_id (others n st))) own
          ∙ ap (λ i. may_set json coerce owner (lookup i (others n st))) same
          ∙ ap (may_set json coerce owner) (kept n st there)
          ∙ ap (is_owned_by json coerce owner) decoded
          ∙ owned_by-foreign

  register_read-IsRefused :
      (n : ℕ) (r : ActorDirectoryRecord) (o : Option (Option Value)) (st : Dict String)
      → IsForeign
      → IsKept
      → r.profile.actor_id ≡ actor_id
      → r.registered_by ≡ owner
      → lookup actor_id st ≡ some raw
      → IsRefused (register_read json coerce others n r o st)
  register_read-IsRefused n r none st f k i w there = (there, tt)
  register_read-IsRefused n r (some none) st f k i w there = persist-IsRefused n r st f k i w there
  register_read-IsRefused n r (some (some v)) st f k i w there =
      by_owner (is_text (prop "registered_by" v) r.registered_by)
    where
      by_owner :
          (b : Bool)
          → IsRefused (
              if b
              then persist json coerce others n r st
              else (st, answered (err actor_owned_elsewhere)))
      by_owner true = persist-IsRefused n r st f k i w there
      by_owner false = (there, tt)

  abbrev IsRefusedLast : Dict String × Outcome ActorDirectoryErrorCode ActorDirectoryRecord → Type 0
  IsRefusedLast (st, a) = IsRefused (st, answered a)

  refusal_of :
      (p : Dict String × Outcome ActorDirectoryErrorCode ActorDirectoryRecord)
      → IsRefusedLast p
      → (lookup actor_id p.0 ≡ some raw) × (is_ok p.1 ≡ false)
  refusal_of (st, ok x) (there, h) = absurd h
  refusal_of (st, err e) (there, h) = (there, refl)
  refusal_of (st, throws) (there, h) = (there, refl)

  register_again-IsRefused :
      (more : ℕ) (r : ActorDirectoryRecord) (p : Dict String × Attempt)
      → IsForeign
      → IsKept
      → r.profile.actor_id ≡ actor_id
      → r.registered_by ≡ owner
      → IsRefused p
      → IsRefusedLast (register_again json coerce others more r p)
  register_again-IsRefused zero r (st, raced) f k i w (there, u) =
      exhausted (read_record json coerce r.profile.actor_id (others 4 st))
    where
      exhausted :
          (o : Option (Option Value))
          → IsRefusedLast (others 4 st, register_exhausted json coerce others o)
      exhausted none = (k 4 st there, tt)
      exhausted (some o) = (k 4 st there, tt)
  register_again-IsRefused (suc more) r (st, raced) f k i w (there, u) =
      register_again-IsRefused more r (register_attempt json coerce others 2 r st) f k i w (
        register_read-IsRefused 3 r (read_record json coerce r.profile.actor_id (others 2 st))
          (others 2 st) f k i w (k 2 st there))
  register_again-IsRefused zero r (st, answered a) f k i w h = h
  register_again-IsRefused (suc more) r (st, answered a) f k i w h = h

-- A session never takes over an actor of another: while what the other has registered stays stored,
-- a registration under its id does not succeed and leaves it as it is.
pub register-IsRefused :
    (json : JsonCodec) (coerce : Value → String) (others : ℕ → Dict String → Dict String)
    (host : Host) (input : ActorRegisterInput) (st : Dict String) (raw : String)
    → IsForeign json coerce others input.profile_input.actor_id raw input.registered_by
    → IsKept json coerce others input.profile_input.actor_id raw input.registered_by
    → lookup input.profile_input.actor_id st ≡ some raw
    → (lookup input.profile_input.actor_id (register json coerce others host input st).0 ≡ some raw)
      × (is_ok (register json coerce others host input st).1 ≡ false)
unfolding register
register-IsRefused json coerce others host input st raw foreign kept there =
    by_admission (admit_registration host input) refl
  where
    by_admission :
        (o : Outcome ActorDirectoryErrorCode ActorDirectoryRecord)
        → admit_registration host input ≡ o
        → (lookup input.profile_input.actor_id (register_admitted json coerce others o st).0
            ≡ some raw)
          × (is_ok (register_admitted json coerce others o st).1 ≡ false)
    by_admission (err e) a = (there, refl)
    by_admission throws a = (there, refl)
    by_admission (ok r) a =
        let permitted = admission-IsPermitted host input r a in
        let id_of =
          ap (λ x. x.profile.actor_id) permitted.kept
          ∙ ap (λ x. x.actor_id) permitted.is_profile.kept in
        let by = ap (λ x. x.registered_by) permitted.kept in
        let now = others 0 st in
        refusal_of json coerce others input.profile_input.actor_id raw input.registered_by
          (register_again json coerce others 1 r (register_attempt json coerce others 0 r st))
          (register_again-IsRefused json coerce others input.profile_input.actor_id raw
            input.registered_by 1 r (register_attempt json coerce others 0 r st) foreign kept id_of
            by
            (register_read-IsRefused json coerce others input.profile_input.actor_id raw
              input.registered_by 1 r (read_record json coerce r.profile.actor_id now) now foreign
              kept id_of by (kept 0 st there)))
