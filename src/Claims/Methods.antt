-- ===== src/Claims/Methods.antt =====
-- The methods of `TaskClaimStore` in src/core/task-claim-store.ts. Each takes and returns the state
-- of Redis. A rejected promise is `throws`; it leaves what was written before.
pub mod Guards
pub mod Laws
pub mod Active
use gptqueue.Prelude.{
  ℕ, ◌+◌, ◌*◌, String, Bool, true, false, ◌&&◌, ◌||◌, not, Option, none, some, List, [], ◌∷◌, map,
  all, if◌then◌else◌, ltb, leb, str_eq, is_blank, lookup, take,
}
use gptqueue.Value.{Value, as_str, prop}
use gptqueue.Outcome.{Outcome, ok, err, throws}
use gptqueue.Claims.Codec.{TaskClaim, Json, Clock, parse_task_claim}
use gptqueue.Claims.State.{Slot, holds, wrong_type, State, recover_count}
use gptqueue.Claims.Recover.{Recovery, done, corrupt, recover_script}
use gptqueue.Claims.Scripts.{
  BatchClaim, nothing_pending, at_ceiling, raised, stored, batch_claim_script, Ack, acked, unknown,
  not_owner, ack_script,
}
use gptqueue.Claims.Scripts.Renew.{Renewal, renewed, expired_claim, exhausted, renew_script}
use gptqueue.Claims.Scripts.Letters.{Requeue, moved, absent, requeue_script, purge_script, letters}
use Guards.{
  Number, nat, ClaimInput, is_claim_request, RenewInput, is_renew_request, value_of, limit_of,
}

-- DLQ_PROVISIONAL in src/core/keys.ts
abbrev pub recover_cap : ℕ
recover_cap = 5

abbrev pub dlq_max_length : ℕ
dlq_max_length = 1000

pub data ErrorCode : Type 0 where
  invalid_claim_request invalid_renew_request concurrency_limit_reached unknown_claim : ErrorCode
  not_claim_owner claim_expired budget_exceeded store_corrupt dlq_entry_not_found : ErrorCode

abbrev pub Answer : Type 0 → Type 0
Answer A = State × Outcome ErrorCode A

module _ (json : Json) (clock : Clock) where
  abbrev pub recovery_answer : State × Recovery → Answer (ℕ × ℕ)
  recovery_answer (st, done recovered deadlettered) = (st, ok (recovered, deadlettered))
  recovery_answer (st, corrupt) = (st, err store_corrupt)

  -- A `now` that is NaN makes the range of the script invalid, and Redis rejects the call.
  abbrev pub recover_at : Option ℕ → State → Answer (ℕ × ℕ)
  recover_at none st = (st, throws)
  recover_at (some now) st = recovery_answer (recover_script recover_cap dlq_max_length json now st)

  unfoldable pub recover_expired : String → State → Answer (ℕ × ℕ)
  unfolding recover_script
  recover_expired now st = recover_at (clock.date_parse now) st

  abbrev pub parsed_claim : Option TaskClaim → Outcome ErrorCode (Option TaskClaim)
  parsed_claim none = err store_corrupt
  parsed_claim (some c) = ok (some c)

  abbrev pub batch_answer : State × BatchClaim → Answer (Option TaskClaim)
  batch_answer (st, nothing_pending) = (st, ok none)
  batch_answer (st, at_ceiling) = (st, err concurrency_limit_reached)
  batch_answer (st, raised) = (st, throws)
  batch_answer (st, stored raw) = (st, parsed_claim (parse_task_claim json raw))

  abbrev pub new_claim : ClaimInput → String → String → TaskClaim
  new_claim input claim_id expires_at = record {
    claim_id = claim_id;
    actor_id = input.actor_id;
    session_id = input.session_id;
    claimed_at = input.now;
    expires_at = expires_at;
    tasks = [];
  }

  -- `expiresAtMs` is `Date.parse` of the text that was just written; a NaN score is refused by ZADD.
  abbrev pub claim_until :
      ClaimInput → String → String → Option ℕ → State → Answer (Option TaskClaim)
  claim_until input claim_id expires_at none st = (st, throws)
  claim_until input claim_id expires_at (some score) st = batch_answer (
      batch_claim_script json (new_claim input claim_id expires_at) score (value_of input.max_batch)
        (limit_of input.max_concurrent_claims) st)

  abbrev pub claim_expiring :
      ClaimInput → String → Option String → State → Answer (Option TaskClaim)
  claim_expiring input claim_id none st = (st, throws)
  claim_expiring input claim_id (some expires_at) st =
      claim_until input claim_id expires_at (clock.date_parse expires_at) st

  abbrev pub expiry : ClaimInput → Option ℕ → Option String
  expiry input none = none
  expiry input (some now) = clock.to_iso (now + value_of input.ttl_seconds * 1000)

  abbrev pub claim_recovered : ClaimInput → String → Answer (ℕ × ℕ) → Answer (Option TaskClaim)
  claim_recovered input claim_id (st, err e) = (st, err e)
  claim_recovered input claim_id (st, throws) = (st, throws)
  claim_recovered input claim_id (st, ok counts) =
      claim_expiring input claim_id (expiry input (clock.date_parse input.now)) st

  -- `claim_id` is the fresh `randomUUID()`.
  unfoldable pub claim : ClaimInput → String → State → Answer (Option TaskClaim)
  unfolding recover_expired batch_claim_script
  claim input claim_id st =
      if is_claim_request input
      then claim_recovered input claim_id (recover_expired input.now st)
      else (st, err invalid_claim_request)

  abbrev pub ack_answer : State × Ack → Answer ℕ
  ack_answer (st, acked n) = (st, ok n)
  ack_answer (st, unknown) = (st, err unknown_claim)
  ack_answer (st, not_owner) = (st, err not_claim_owner)

  unfoldable pub acknowledge : String → String → String → State → Answer ℕ
  unfolding ack_script
  acknowledge claim_id actor session st = ack_answer (ack_script json claim_id actor session st)

  abbrev pub renewal_answer : State × Renewal → Answer String
  renewal_answer (st, renewed expires_at) = (st, ok expires_at)
  renewal_answer (st, Renewal.unknown) = (st, err unknown_claim)
  renewal_answer (st, Renewal.not_owner) = (st, err not_claim_owner)
  renewal_answer (st, expired_claim) = (st, err claim_expired)
  renewal_answer (st, exhausted) = (st, err budget_exceeded)

  -- A `now` that is NaN is not modelled: the adapter passes `new Date().toISOString()`.
  abbrev pub renew_at : RenewInput → Option ℕ → State → Answer String
  renew_at input none st = (st, throws)
  renew_at input (some now) st = renewal_answer (
      renew_script json input.claim_id input.actor_id input.session_id now
        (value_of input.ttl_seconds) input.budget_seconds st)

  unfoldable pub renew : RenewInput → State → Answer String
  unfolding renew_script
  renew input st =
      if is_renew_request input
      then renew_at input (clock.date_parse input.now) st
      else (st, err invalid_renew_request)

  abbrev pub requeue_answer : State × Requeue → Answer ℕ
  requeue_answer (st, moved) = (st, ok 1)
  requeue_answer (st, absent) = (st, err dlq_entry_not_found)
  requeue_answer (st, Requeue.raised) = (st, throws)

  unfoldable pub requeue : String → String → State → Answer ℕ
  unfolding requeue_script
  requeue actor message st =
      requeue_answer (requeue_script json (recover_count actor message) message st)

  unfoldable pub purge_actor : String → State → State × ℕ
  unfolding purge_script
  purge_actor actor st = purge_script json actor st

  -- Neither NaN nor past: `now >= NaN` and `NaN >= expires` are false.
  abbrev pub is_live : Option ℕ → Option ℕ → Bool
  is_live now none = false
  is_live none (some expires) = true
  is_live (some now) (some expires) = not (leb expires now)

  abbrev pub active_of : String → String → Option ℕ → Option TaskClaim → Option TaskClaim
  active_of actor session now none = none
  active_of actor session now (some c) =
      if str_eq c.actor_id actor
        && str_eq c.session_id session
        && is_live now (clock.date_parse c.expires_at)
      then some c
      else none

  abbrev pub or_else : Option TaskClaim → Option TaskClaim → Option TaskClaim
  or_else none other = other
  or_else (some c) other = some c

  abbrev pub parsed_of : Option String → Option TaskClaim
  parsed_of none = none
  parsed_of (some raw) = parse_task_claim json raw

  -- The loop of `activeClaimFor` over the members of the index.
  unfoldable pub active_claim_in :
      String → String → Option ℕ → State → List (String × ℕ) → Option TaskClaim
  active_claim_in actor session now st [] = none
  active_claim_in actor session now st ((id, score) ∷ index) =
      or_else (active_of actor session now (parsed_of (lookup id st.claims)))
        (active_claim_in actor session now st index)

  unfoldable pub active_claim_for : String → String → String → State → Option TaskClaim
  unfolding active_claim_in
  active_claim_for actor session now st =
      active_claim_in actor session (clock.date_parse now) st st.index

  abbrev pub get_raw : Option String → Outcome ErrorCode (Option TaskClaim)
  get_raw none = ok none
  get_raw (some raw) = parsed_claim (parse_task_claim json raw)

  unfoldable pub get : String → State → Outcome ErrorCode (Option TaskClaim)
  get claim_id st = get_raw (lookup claim_id st.claims)
