-- ===== src/Presence/Laws.antt =====
-- What src/core/actor-presence.ts answers, as conditions on its inputs.
use gptqueue.Prelude.{
  ℕ, ◌≤◌, String, Bool, true, false, not, Option, none, some, ◌≡◌, ◌↔◌, refl, leb, leb_iff, arith,
  is_empty_text, Bool-cases, inl, inr, ap, subst,
}
use gptqueue.Value.{Value, num, prop}
use gptqueue.Outcome.{Outcome, ok, ◌>>◌, ◌>>=◌, guard, or_err}
use gptqueue.Presence.{
  ActivationPolicyMode, wake_if_offline, store_only, Candidate, DurableActorProfile, Workload,
  processing, LaunchContractReadiness, runnable, not_runnable, PresenceInput, RuntimePresenceState,
  active, starting, offline_launchable, offline_store_only, unavailable, leased, classify_presence,
  text_length, all_identity, is_identity, mode_of, concurrency_of, admitted, admit_actor_profile,
  invalid_policy, invalid_concurrency, AdmissionCode, UnknownRecipient, situation_of,
  classify_situation,
}

-- The table of presence states: a runtime with a lease decides first, then a wake lease, then the
-- launch contract, then the policy.
abbrev pub Shows :
    Option Workload
    → Option String
    → LaunchContractReadiness
    → ActivationPolicyMode
    → RuntimePresenceState
    → Type 0
Shows run wake contract policy active = run ≡ some processing
Shows run wake contract policy RuntimePresenceState.idle = run ≡ some Workload.idle
Shows run wake contract policy starting = (run ≡ none) × ((l : String) × (wake ≡ some l))
Shows run wake contract policy unavailable =
    (run ≡ none) × (wake ≡ none) × (contract ≡ not_runnable)
Shows run wake contract policy offline_store_only =
    (run ≡ none) × (wake ≡ none) × (contract ≡ runnable) × (policy ≡ store_only)
Shows run wake contract policy offline_launchable =
    (run ≡ none) × (wake ≡ none) × (contract ≡ runnable) × (policy ≡ wake_if_offline)

situation-Shows :
    (run : Option Workload) (wake : Option String) (contract : LaunchContractReadiness)
    (policy : ActivationPolicyMode)
    → Shows run wake contract policy (classify_situation (situation_of run wake contract policy))
situation-Shows (some processing) wake contract policy = refl
situation-Shows (some Workload.idle) wake contract policy = refl
situation-Shows none (some l) contract policy = (refl, (l, refl))
situation-Shows none none not_runnable policy = (refl, refl, refl)
situation-Shows none none runnable store_only = (refl, refl, refl, refl)
situation-Shows none none runnable wake_if_offline = (refl, refl, refl, refl)

Shows-situation :
    (run : Option Workload) (wake : Option String) (contract : LaunchContractReadiness)
    (policy : ActivationPolicyMode) (s : RuntimePresenceState)
    → Shows run wake contract policy s
    → classify_situation (situation_of run wake contract policy) ≡ s
Shows-situation run wake contract policy active h = rw h refl
Shows-situation run wake contract policy RuntimePresenceState.idle h = rw h refl
Shows-situation run wake contract policy starting (a, (l, b)) = rw (a, b) refl
Shows-situation run wake contract policy unavailable (a, b, c) = rw (a, b, c) refl
Shows-situation run wake contract policy offline_store_only (a, b, c, d) = rw (a, b, c, d) refl
Shows-situation run wake contract policy offline_launchable (a, b, c, d) = rw (a, b, c, d) refl

-- A registered actor is classified, under its own id, as the one state whose conditions hold: a
-- leased runtime before a wake lease, a wake lease before the launch contract, and the contract
-- before the policy.
pub classify_iff :
    (input : PresenceInput) (actor : DurableActorProfile) (s : RuntimePresenceState)
    → input.actor ≡ some actor
    → (classify_presence input ≡ ok (actor.actor_id, s))
      ↔ Shows
          (leased input.runtime)
          input.wake_lease_id
          input.launch_contract
          actor.activation_policy
          s
unfolding classify_presence
classify_iff input actor s registered = rw registered (
  λ e.
      subst
        (Shows (leased input.runtime) input.wake_lease_id input.launch_contract
          actor.activation_policy)
        (state_of _ s e)
        (situation-Shows (leased input.runtime) input.wake_lease_id input.launch_contract
          actor.activation_policy),
  λ h.
      ap (λ state. ok (actor.actor_id, state))
        (Shows-situation (leased input.runtime) input.wake_lease_id input.launch_contract
          actor.activation_policy s h),
)
  where
    state_of :
        (a b : RuntimePresenceState)
        → ◌≡◌ {A = Outcome UnknownRecipient (String × RuntimePresenceState)}
            (ok (actor.actor_id, a))
            (ok (actor.actor_id, b))
        → a ≡ b
    state_of a b e = ground arith

-- An identity: 1 to 64 characters of `[A-Za-z0-9._-]`.
abbrev pub IsIdentity : String → Type 0
IsIdentity s = (1 ≤ text_length s) × (text_length s ≤ 64) × (all_identity s ≡ true)

pub is_identity_iff : (s : String) → (is_identity s ≡ true) ↔ IsIdentity s
unfolding is_identity
is_identity_iff s = ground arith

-- What a candidate must be, to be admitted as a profile.
pub record IsProfile (c : Candidate) (p : DurableActorProfile) : Type 0 where
  pub actor_id : IsIdentity c.actor_id
  pub alias : IsIdentity c.alias
  pub policy : ActivationPolicyMode
  pub concurrency : ℕ
  pub has_policy : mode_of (prop "mode" c.activation_policy) ≡ some policy
  pub has_concurrency : c.max_concurrency ≡ num concurrency
  pub positive : 1 ≤ concurrency
  pub kept : p ≡ admitted c policy concurrency

mode_or_error :
    (c : Candidate) (o : Option ActivationPolicyMode) (n : Option ℕ) (p : DurableActorProfile)
    → (or_err o invalid_policy >>= λ policy.
        or_err n invalid_concurrency >>= λ concurrency. ok (admitted c policy concurrency))
      ≡ ok p
    → (policy : ActivationPolicyMode) × (concurrency : ℕ) × (o ≡ some policy)
      × (n ≡ some concurrency)
      × (p ≡ admitted c policy concurrency)
mode_or_error c (some policy) (some n) p e = (policy, n, refl, refl, ground arith)
mode_or_error c none n p e = absurd (ground arith)
mode_or_error c (some policy) none p e = absurd (ground arith)

concurrency_is : (v : Value) (n : ℕ) → concurrency_of v ≡ some n → (v ≡ num n) × (1 ≤ n)
concurrency_is (num m) n e = elim (Bool-cases (leb 1 m)) [
  | inl hit ↦
      let same = value_same m n (rw (concurrency_of, hit) at e) in
      (ap num same, subst (λ k. 1 ≤ k) same ((leb_iff 1 m).0 hit))
  | inr miss ↦ absurd (nothing (rw (concurrency_of, miss) at e))
]
  where
    value_same : (a b : ℕ) → ◌≡◌ {A = Option ℕ} (some a) (some b) → a ≡ b
    value_same a b h = ground arith

    nothing : ◌≡◌ {A = Option ℕ} none (some n) → ⊥
    nothing h = ground arith
concurrency_is _ n e = absurd (ground arith)

concurrency_back : (n : ℕ) → 1 ≤ n → concurrency_of (num n) ≡ some n
concurrency_back n h = rw (concurrency_of, (leb_iff 1 n).1 h) refl

guards_passed :
    {A : Type 0} (a b c d : Bool) (w x y z : AdmissionCode) (k : Outcome AdmissionCode A) {p : A}
    → (guard a w >> guard b x >> guard c y >> guard d z >> k) ≡ ok p
    → (c ≡ true) × (d ≡ true) × (k ≡ ok p)
guards_passed true true true true w x y z k e = (refl, refl, e)
guards_passed false b c d w x y z k e = absurd (ground arith)
guards_passed true false c d w x y z k e = absurd (ground arith)
guards_passed true true false d w x y z k e = absurd (ground arith)
guards_passed true true true false w x y z k e = absurd (ground arith)

identity_not_empty : (s : String) → IsIdentity s → is_empty_text s ≡ false
identity_not_empty String.[] (a, b, c) = absurd (ground arith)
identity_not_empty (String.◌∷◌ ch s) h = refl

admit-IsProfile :
    (c : Candidate) (p : DurableActorProfile) → admit_actor_profile c ≡ ok p → IsProfile c p
unfolding admit_actor_profile
admit-IsProfile c p e =
    let (a, b, e1) =
      guards_passed (not (is_empty_text c.actor_id)) (not (is_empty_text c.alias))
        (is_identity c.actor_id) (is_identity c.alias) _ _ _ _ _ e in
    let (policy, n, has_policy, has_n, kept) =
      mode_or_error c (mode_of (prop "mode" c.activation_policy)) (concurrency_of c.max_concurrency)
        p e1 in
    let (is_n, positive) = concurrency_is c.max_concurrency n has_n in
    record {
      actor_id = (is_identity_iff c.actor_id).0 a;
      alias = (is_identity_iff c.alias).0 b;
      policy = policy;
      concurrency = n;
      has_policy = has_policy;
      has_concurrency = is_n;
      positive = positive;
      kept = kept;
    }

IsProfile-admit :
    (c : Candidate) (p : DurableActorProfile) → IsProfile c p → admit_actor_profile c ≡ ok p
unfolding admit_actor_profile
IsProfile-admit c p h =
    rw
      (
        identity_not_empty c.actor_id h.actor_id,
        identity_not_empty c.alias h.alias,
        (is_identity_iff c.actor_id).1 h.actor_id,
        (is_identity_iff c.alias).1 h.alias,
        h.has_policy,
        h.has_concurrency,
        concurrency_back h.concurrency h.positive,
        h.kept,
      )
      refl

-- A candidate is admitted just when its id and its alias are identities, its policy is one of the
-- two modes and its concurrency an integer of at least 1; the profile is then the candidate.
pub admit-IsProfile_iff :
    (c : Candidate) (p : DurableActorProfile) → (admit_actor_profile c ≡ ok p) ↔ IsProfile c p
admit-IsProfile_iff c p = (admit-IsProfile c p, IsProfile-admit c p)
