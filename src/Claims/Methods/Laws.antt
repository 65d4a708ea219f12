-- ===== src/Claims/Methods/Laws.antt =====
-- What the methods of `TaskClaimStore` in src/core/task-claim-store.ts promise to their callers.

use gptqueue.Prelude.{
  [], ◌∷◌, ℕ, ◌+◌, ◌*◌, ◌≤◌, ◌<◌, String, Option, none, some, List, ◌++◌, ◌≡◌, refl, length, arith,
  put, remove, lookup-remove, ap, sym, ◌∙◌, subst, lookup, lookup-put, str_eq_refl,
}
use gptqueue.Claims.Scripts.Laws.{
  Stores, Stores-limit, batch_claim_script-stored, ack_by_owner, ack_absent,
}
use gptqueue.Outcome.{ok, err, throws}
use gptqueue.Claims.Codec.Laws.{parse-encode}
use gptqueue.Claims.Codec.{TaskClaim, claim_value, Json, Clock, parse_task_claim}
use gptqueue.Claims.State.{holds, State, zadd, zrem}
use gptqueue.Claims.Scripts.{
  BatchClaim, nothing_pending, at_ceiling, raised, stored, batch_claim_script, delete_counters,
}
use gptqueue.Claims.Methods.{
  Answer, recover_expired, batch_answer, new_claim, claim_until, claim_expiring, expiry,
  claim_recovered, acknowledge, ack_answer, unknown_claim, claim,
}
use gptqueue.Claims.Methods.Guards.{ClaimInput, value_of, limit_of}
use gptqueue.Prelude.{is_empty}
use gptqueue.Claims.Methods.{false}
use gptqueue.Claims.Methods.{◌∷◌}

-- What a caller who got the claim `c` can rely on. `mid` is the state after the recovery that runs
-- first: the claim takes its tasks from there.
pub record Claimed (json : Json) (clock : Clock) (input : ClaimInput) (claim_id : String)
    (st mid st' : State) (c : TaskClaim) : Type 0 where
  pub counts : ℕ × ℕ
  pub recovered : recover_expired json clock input.now st ≡ (mid, ok counts)
  pub rest : List String
  pub taken : mid.inbox ≡ holds (c.tasks ++ rest)
  pub left : st'.inbox ≡ holds rest
  pub nonempty : 0 < length c.tasks
  pub batch : length c.tasks ≤ value_of input.max_batch
  pub named :
      (c.claim_id ≡ claim_id) × (c.actor_id ≡ input.actor_id) × (c.session_id ≡ input.session_id)
  pub claimed_at : c.claimed_at ≡ input.now
  pub expires :
      (now : ℕ) × (clock.date_parse input.now ≡ some now)
      × (clock.date_parse c.expires_at ≡ some (now + value_of input.ttl_seconds * 1000))
  pub persisted : st'.claims ≡ put claim_id (json.encode (claim_value c)) mid.claims
  pub indexed :
      (score : ℕ) × (clock.date_parse c.expires_at ≡ some score)
      × (st'.index ≡ zadd claim_id score mid.index)
  pub rest_kept : (st'.dlq ≡ mid.dlq) × (st'.counters ≡ mid.counters)
  pub limited :
      0 < limit_of input.max_concurrent_claims
      → length st'.index ≤ limit_of input.max_concurrent_claims

not_empty : (ts : List String) → 0 < length ts → is_empty ts ≡ false
not_empty [] h = absurd (omega arith)
not_empty (t ∷ ts) h = refl

module _ (json : Json) (clock : Clock) (input : ClaimInput) (claim_id : String) where
  batch_answer-some :
      (r : State × BatchClaim) (st' : State) (c : TaskClaim)
      → batch_answer json clock r ≡ (st', ok (some c))
      → (raw : String) × (r ≡ (st', stored raw)) × (parse_task_claim json raw ≡ some c)
  batch_answer-some (st, nothing_pending) st' c e = absurd (ground arith)
  batch_answer-some (st, at_ceiling) st' c e = absurd (ground arith)
  batch_answer-some (st, raised) st' c e = absurd (ground arith)
  batch_answer-some (st, stored raw) st' c e = (raw, ground arith, ground arith)

  claim_recovered-some :
      (a : Answer (ℕ × ℕ)) (st' : State) (c : TaskClaim)
      → claim_recovered json clock input claim_id a ≡ (st', ok (some c))
      → (mid : State) × (counts : ℕ × ℕ) × (a ≡ (mid, ok counts))
        × (claim_expiring json clock input claim_id
              (expiry json clock input (clock.date_parse input.now))
              mid
            ≡ (st', ok (some c)))
  claim_recovered-some (mid, ok counts) st' c e = (mid, counts, refl, e)
  claim_recovered-some (mid, err x) st' c e = absurd (ground arith)
  claim_recovered-some (mid, throws) st' c e = absurd (ground arith)

  claim_expiring-some :
      (o : Option String) (mid st' : State) (c : TaskClaim)
      → claim_expiring json clock input claim_id o mid ≡ (st', ok (some c))
      → (expires_at : String) × (score : ℕ) × (o ≡ some expires_at)
        × (clock.date_parse expires_at ≡ some score)
        × (batch_answer json clock (
              batch_claim_script json
                (new_claim json clock input claim_id expires_at)
                score
                (value_of input.max_batch)
                (limit_of input.max_concurrent_claims)
                mid)
            ≡ (st', ok (some c)))
  claim_expiring-some none mid st' c e = absurd (ground arith)
  claim_expiring-some (some expires_at) mid st' c e =
      with_score (clock.date_parse expires_at) refl e
    where
      with_score :
          (p : Option ℕ)
          → clock.date_parse expires_at ≡ p
          → claim_until json clock input claim_id expires_at p mid ≡ (st', ok (some c))
          → (expires' : String) × (score : ℕ) × (◌≡◌ {A = Option String}
              (some expires_at)
              (some expires'))
            × (clock.date_parse expires' ≡ some score)
            × (batch_answer json clock (
                  batch_claim_script json
                    (new_claim json clock input claim_id expires')
                    score
                    (value_of input.max_batch)
                    (limit_of input.max_concurrent_claims)
                    mid)
                ≡ (st', ok (some c)))
      with_score none h k = absurd (ground arith)
      with_score (some score) h k = (expires_at, score, refl, h, k)

eq_of_some : {a b : TaskClaim} → ◌≡◌ {A = Option TaskClaim} (some a) (some b) → a ≡ b
eq_of_some e = ground arith

module _ (json : Json) (clock : Clock) (input : ClaimInput) (claim_id : String) where
  expiry-some :
      (o : Option ℕ) (s : String)
      → expiry json clock input o ≡ some s
      → (now : ℕ) × (o ≡ some now)
        × (clock.date_parse s ≡ some (now + value_of input.ttl_seconds * 1000))
  expiry-some none s e = absurd (ground arith)
  expiry-some (some now) s e = (now, refl, clock.parse-to_iso _ s e)

  assemble :
      (st mid st' : State) (c : TaskClaim) (counts : ℕ × ℕ) (expires_at raw : String) (score : ℕ)
      → recover_expired json clock input.now st ≡ (mid, ok counts)
      → expiry json clock input (clock.date_parse input.now) ≡ some expires_at
      → clock.date_parse expires_at ≡ some score
      → Stores json
          (new_claim json clock input claim_id expires_at)
          score
          (value_of input.max_batch)
          (limit_of input.max_concurrent_claims)
          mid
          st'
          raw
      → parse_task_claim json raw ≡ some c
      → Claimed json clock input claim_id st mid st' c
  assemble st mid st' c counts expires_at raw score recovered exp at s parsed =
      let full : TaskClaim = record (new_claim json clock input claim_id expires_at) {
        tasks = s.tasks;
      } in
      let is_raw : raw ≡ json.encode (claim_value full) = ap (λ x. raw_of x.1) (sym s.written) in
      let same : c ≡ full = eq_of_some (
        sym parsed
        ∙ ap (parse_task_claim json) is_raw
        ∙ parse-encode json full (not_empty s.tasks s.nonempty)) in
      subst (λ k. Claimed json clock input claim_id st mid st' k) (sym same)
        (record {
          counts = counts;
          recovered = recovered;
          rest = s.rest;
          taken = s.pending;
          left = ap (λ x. x.0.inbox) (sym s.written);
          nonempty = s.nonempty;
          batch = s.bounded;
          named = (refl, refl, refl);
          claimed_at = refl;
          expires = expiry-some (clock.date_parse input.now) expires_at exp;
          persisted = ap (λ x. x.0.claims) (sym s.written);
          indexed = (score, at, ap (λ x. x.0.index) (sym s.written));
          rest_kept = (ap (λ x. x.0.dlq) (sym s.written), ap (λ x. x.0.counters) (sym s.written));
          limited = λ h. Stores-limit s h;
        })
    where
      raw_of : BatchClaim → String
      raw_of (stored r) = r
      raw_of _ = raw

  request_accepted :
      (st st' : State) (c : TaskClaim)
      → claim json clock input claim_id st ≡ (st', ok (some c))
      → claim_recovered json clock input claim_id (recover_expired json clock input.now st)
        ≡ (st', ok (some c))
  unfolding claim
  request_accepted st st' c e = ground arith

-- A claim that `claim` returns is made of the first messages of the inbox, as recovery left it, in
-- their order: at least one and at most `max_batch`; the rest stays. It carries the caller's
-- identity and the expiry `now + ttl_seconds`, is stored and indexed by that expiry under the fresh
-- id, and leaves the dead-letter queue, the counters and the limit of outstanding claims as they are.
pub claim-Claimed :
    (json : Json) (clock : Clock) (input : ClaimInput) (claim_id : String) (st st' : State)
    (c : TaskClaim)
    → claim json clock input claim_id st ≡ (st', ok (some c))
    → (mid : State) × Claimed json clock input claim_id st mid st' c
claim-Claimed json clock input claim_id st st' c e =
    let (mid, counts, recovered, e1) =
      claim_recovered-some json clock input claim_id (recover_expired json clock input.now st) st' c
        (request_accepted json clock input claim_id st st' c e) in
    let (expires_at, score, exp, at, e2) =
      claim_expiring-some json clock input claim_id
        (expiry json clock input (clock.date_parse input.now)) mid st' c e1 in
    let (raw, e3, parsed) = batch_answer-some json clock input claim_id _ st' c e2 in
    (
      mid,
      assemble json clock input claim_id st mid st' c counts expires_at raw score recovered exp at
          (batch_claim_script-stored json (new_claim json clock input claim_id expires_at) score
            (value_of input.max_batch) (limit_of input.max_concurrent_claims) mid st' raw e3)
          parsed,
    )

-- A claim that was just made can be acknowledged by the session it was made for: the answer is the
-- number of its tasks, and the same call again is refused as unknown.
pub claim_acknowledged :
    (json : Json) (clock : Clock) (input : ClaimInput) (claim_id : String) (st st' : State)
    (c : TaskClaim)
    → claim json clock input claim_id st ≡ (st', ok (some c))
    → (st'' : State) × (acknowledge json clock claim_id input.actor_id input.session_id st'
        ≡ (st'', ok (length c.tasks)))
      × (acknowledge json clock claim_id input.actor_id input.session_id st''
          ≡ (st'', err unknown_claim))
      × (st''.inbox ≡ st'.inbox)
      × (st''.dlq ≡ st'.dlq)
unfolding acknowledge
claim_acknowledged json clock input claim_id st st' c e =
    let (mid, k) = claim-Claimed json clock input claim_id st st' c e in
    let (_, actor, session) = k.named in
    let there : lookup claim_id st'.claims ≡ some (json.encode (claim_value c)) =
      ap (lookup claim_id) k.persisted
      ∙ lookup-put claim_id claim_id (json.encode (claim_value c)) mid.claims
      ∙ rw (str_eq_refl claim_id) refl in
    (
      record st' {
        claims = remove claim_id st'.claims;
        index = zrem claim_id st'.index;
        counters = delete_counters json input.actor_id c.tasks st'.counters;
      },
      ap (ack_answer json clock)
          (ack_by_owner json claim_id input.actor_id input.session_id st' c there actor session),
      ap (ack_answer json clock) (
          ack_absent json claim_id input.actor_id input.session_id _
            (lookup-remove claim_id claim_id st'.claims ∙ rw (str_eq_refl claim_id) refl)),
      refl,
      refl,
    )
