-- ===== src/Claims/Scripts/Laws.antt =====
-- What claims-batch-claim.lua and claims-ack.lua of src/mcp-server/lua do to the keys of an actor.

use gptqueue.Prelude.{
  and_iff, ℕ, ◌≤◌, ◌<◌, String, false, some, List, [], ◌∷◌, ◌++◌, ◌≡◌, refl, str_eq, str_eq_iff,
  length, take, drop, length-take, take-append-drop, arith, Bool-cases, inl, inr, lookup, remove,
  ◌∙◌, ap, sym, none,
}
use gptqueue.Claims.Codec.{TaskClaim, claim_value, Json}
use gptqueue.Claims.Codec.Laws.{table_items-tasks_value, size-of_strs, texts-of_strs}
use gptqueue.Claims.State.{Slot, holds, wrong_type, State, zrem}
use gptqueue.Claims.State.Laws.{length-zadd}
use gptqueue.Claims.Scripts.{
  BatchClaim, at_ceiling, stored, is_full, materialize, claim_tasks, claim_inbox,
  batch_claim_script, acked, not_owner, is_owner, ack_decoded, ack_raw, ack_script, delete_counters,
  unknown,
}

-- What a claim script that stored a claim has done: `tasks` left the head of the inbox.
pub record Stores (json : Json) (c : TaskClaim) (score batch max_concurrent : ℕ) (st st' : State)
    (raw : String) : Type 0 where
  pub tasks : List String
  pub rest : List String
  pub pending : st.inbox ≡ holds (tasks ++ rest)
  pub nonempty : 0 < length tasks
  pub bounded : length tasks ≤ batch
  pub allowed : is_full max_concurrent st.index ≡ false
  pub written : materialize json st (record c { tasks = tasks }) score rest ≡ (st', stored raw)

module _ (json : Json) (c : TaskClaim) (score : ℕ) where
  claim_tasks-stored :
      (st st' : State) (raw : String) (ts rest : List String)
      → claim_tasks json st c score ts rest ≡ (st', stored raw)
      → (0 < length ts)
        × (materialize json st (record c { tasks = ts }) score rest ≡ (st', stored raw))
  claim_tasks-stored st st' raw [] rest e = absurd (ground arith)
  claim_tasks-stored st st' raw (t ∷ ts) rest e = (omega arith, e)

  claim_inbox-stored :
      (batch max_concurrent : ℕ) (st st' : State) (raw : String) (i : Slot)
      → st.inbox ≡ i
      → is_full max_concurrent st.index ≡ false
      → claim_inbox json st c score batch i ≡ (st', stored raw)
      → Stores json c score batch max_concurrent st st' raw
  claim_inbox-stored batch max_concurrent st st' raw wrong_type hi ok e = absurd (ground arith)
  claim_inbox-stored batch max_concurrent st st' raw (holds inbox) hi ok e =
      let (nonempty, written) =
        claim_tasks-stored st st' raw (take batch inbox) (drop batch inbox) e in
      record {
        tasks = take batch inbox;
        rest = drop batch inbox;
        pending = hi ∙ ap holds (sym (take-append-drop batch inbox));
        nonempty = nonempty;
        bounded = omega (arith, length-take batch inbox);
        allowed = ok;
        written = written;
      }

  pub batch_claim_script-stored :
      (batch max_concurrent : ℕ) (st st' : State) (raw : String)
      → batch_claim_script json c score batch max_concurrent st ≡ (st', stored raw)
      → Stores json c score batch max_concurrent st st' raw
  unfolding batch_claim_script
  batch_claim_script-stored batch max_concurrent st st' raw e =
      elim (Bool-cases (is_full max_concurrent st.index)) [
        | inl full ↦ absurd (full_stores (rw full at e))
        | inr free ↦
            claim_inbox-stored batch max_concurrent st st' raw st.inbox refl free (rw free at e)
      ]
    where
      full_stores : ◌≡◌ {A = State × BatchClaim} (st, at_ceiling) (st', stored raw) → ⊥
      full_stores h = ground arith

below_limit :
    (max_concurrent : ℕ) (index : List (String × ℕ))
    → is_full max_concurrent index ≡ false
    → 0 < max_concurrent
    → length index < max_concurrent
below_limit max_concurrent index free h = ground arith

-- The limit of outstanding claims holds after each claim that was stored under it.
pub Stores-limit :
    {json : Json} {c : TaskClaim} {score batch max_concurrent : ℕ} {st st' : State} {raw : String}
    → Stores json c score batch max_concurrent st st' raw
    → 0 < max_concurrent
    → length st'.index ≤ max_concurrent
Stores-limit {c} {score} {max_concurrent} {st} s h = omega (
  arith,
  length-zadd c.claim_id score st.index,
  ap (λ x. length x.0.index) s.written,
  below_limit max_concurrent st.index s.allowed h,
)

module _ (json : Json) (claim_id actor session : String) (st : State) (c : TaskClaim)
    (there : lookup claim_id st.claims ≡ some (json.encode (claim_value c))) where
  ack_found :
      ack_script json claim_id actor session st
      ≡ ack_decoded json claim_id actor session st (some (claim_value c))
  unfolding ack_script
  ack_found =
      ap (ack_raw json claim_id actor session st) there
      ∙ ap (ack_decoded json claim_id actor session st) (json.decode-encode c)

  -- The session that owns a stored claim acknowledges it: all its tasks are counted, and the claim
  -- leaves the hash and the index.
  pub ack_by_owner :
      c.actor_id ≡ actor
      → c.session_id ≡ session
      → ack_script json claim_id actor session st ≡ (
        record st {
          claims = remove claim_id st.claims;
          index = zrem claim_id st.index;
          counters = delete_counters json actor c.tasks st.counters;
        },
        acked (length c.tasks),
      )
  ack_by_owner ha hs =
      ack_found
      ∙ rw
          (
            table_items-tasks_value c.tasks,
            (str_eq_iff c.actor_id actor).1 ha,
            (str_eq_iff c.session_id session).1 hs,
            texts-of_strs c.tasks,
            size-of_strs c.tasks,
          )
          refl

  -- Any other session, or another actor, is refused, and nothing changes.
  pub ack_by_other :
      ((c.actor_id ≡ actor) × (c.session_id ≡ session) → ⊥)
      → ack_script json claim_id actor session st ≡ (st, not_owner)
  ack_by_other other = ack_found ∙ elim (Bool-cases (is_owner (claim_value c) actor session)) [
    | inl own ↦ absurd (
        other (
          let (a, s) = (and_iff (str_eq c.actor_id actor) (str_eq c.session_id session)).0 own in
          ((str_eq_iff _ _).0 a, (str_eq_iff _ _).0 s)))
    | inr foreign ↦ rw (table_items-tasks_value c.tasks, foreign) refl
  ]

-- A claim that the hash does not hold is unknown, and nothing changes.
pub ack_absent :
    (json : Json) (claim_id actor session : String) (st : State)
    → lookup claim_id st.claims ≡ none
    → ack_script json claim_id actor session st ≡ (st, unknown)
unfolding ack_script
ack_absent json claim_id actor session st h = ap (ack_raw json claim_id actor session st) h
