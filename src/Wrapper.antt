-- ===== src/Wrapper.antt =====
-- The identity claim of src/experimental-wrapper/identity-claim.ts: its scripts that acquire, verify
-- and release a wrapper's claim of an agent's name. A heartbeat is its deadline, as a lease is.
pub mod Laws
use gptqueue.Prelude.{
  ℕ, String, Bool, true, false, not, ◌&&◌, ◌||◌, Option, none, some, ◌≡◌, ◌⊎◌, inl, inr, refl, ap,
  sym, subst, ◌∙◌, if◌then◌else◌, ◌==◌, str_eq, str_eq_refl, is_some, any, length, Dict, lookup,
  put, remove, lookup-put, arith, Bool-cases,
}
use gptqueue.Sessions.{has, members_of, is_before, is_leased, resolve_registered}
use gptqueue.Sessions

pub record State : Type 0 where
  pub sessions : Sessions.State
  -- gptq:experimental-wrapper-claim:<hash of the name>
  pub claims : Dict String
  -- gptq:heartbeat:<name>
  pub heartbeats : Dict ℕ

-- What the script that acquires answers: 1, 0, -1 and -2.
pub data Acquired : Type 0 where
  acquired owned pre_existing active : Acquired

abbrev pub has_active_session : ℕ → String → State → Bool
has_active_session time agent st =
    any (λ sid. is_leased time sid st.sessions) (members_of agent st.sessions)

abbrev pub has_heartbeat : ℕ → String → State → Bool
has_heartbeat time agent st = is_before time (lookup agent st.heartbeats)

-- ACQUIRE_CLAIM_SCRIPT
unfoldable pub acquire : Bool → ℕ → (agent token : String) → State → State × Acquired
unfolding members_of is_leased resolve_registered
acquire fresh time agent token st =
    if is_some (lookup agent st.claims)
    then (st, owned)
    else if fresh && resolve_registered agent st.sessions
    then (st, pre_existing)
    else if has_active_session time agent st || has_heartbeat time agent st
    then (st, active)
    else (record st { claims = put agent token st.claims }, acquired)

abbrev pub is_token : Option String → String → Bool
is_token none token = false
is_token (some t) token = str_eq t token

-- RELEASE_CLAIM_SCRIPT
unfoldable pub release : (agent token : String) → State → State × Bool
release agent token st =
    if is_token (lookup agent st.claims) token
    then (record st { claims = remove agent st.claims }, true)
    else (st, false)

pub data Verified : Type 0 where
  exclusive lost shared : Verified

-- VERIFY_SESSION_SCRIPT
unfoldable pub verify_session : (agent token sid : String) → State → Verified
unfolding members_of
verify_session agent token sid st =
    if not (is_token (lookup agent st.claims) token)
    then lost
    else if not (length (members_of agent st.sessions) == 1)
    then shared
    else if has sid (members_of agent st.sessions)
    then exclusive
    else shared
