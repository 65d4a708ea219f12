-- ===== src/Tests/Claims.antt =====
-- Runs of the claims of src/core/task-claim-store.ts: two messages are claimed, and their claim is
-- renewed, acknowledged or recovered.
use mathlib.Core.List.{Perm}
use gptqueue.Prelude.{
  ap, str_eq, ◌+◌, ◌≤◌, String, Bool, true, none, some, List, [], ◌∷◌, ◌++◌, ◌≡◌, refl, length,
  lookup, if◌then◌else◌, arith, is_blank, put, remove,
}
use gptqueue.Outcome.{ok, err}
use gptqueue.Claims.Codec.{TaskClaim, claim_value, claim_of_value, message_id, parse_task_claim}
use gptqueue.Claims.State.{holds, wrong_type, State, expired, count, zadd, zadd_xx, zrem, zscore}
use gptqueue.Claims.Methods.Guards.{is_claim_request, ClaimInput, nat}
use gptqueue.Calendar.Text.{ms_from_iso, number, iso_from_ms, format_iso, padded}
use gptqueue.Calendar.{days_from_civil, civil_from_days}
use gptqueue.Claims.State.Laws.{IsIndex}
use gptqueue.Claims.Recover.{done, corrupt, recover_script, plan}
use gptqueue.Claims.Recover.Counts.{total_tasks, AllWithin}
use gptqueue.Claims.Recover.Expiry.{live, mem, stored_tasks}
use gptqueue.Claims.Recover.Laws.{
  recover_conserves, recover_counts, recover_expires, recover_in_order,
}
use gptqueue.Claims.Scripts.Renew.{renewed, renew_script}
use gptqueue.Claims.Scripts.Renew.Laws.{Extends, renew-Extends}
use gptqueue.Claims.Scripts.Letters.{is_message, id_of_value, requeue_script, moved, claimed_tasks}
use gptqueue.Claims.Scripts.Letters.Laws.{requeue-moved}
use gptqueue.Claims.Methods.{claim, acknowledge, unknown_claim, active_claim_for}
use gptqueue.Claims.Methods.Laws.{Claimed, claim-Claimed, claim_acknowledged}
use gptqueue.Tests.Fixtures.{write, claims_json, clock}

abbrev message : String → String
message id = write (id ∷ [])

abbrev start : String
start = "2024-02-29T12:00:00.000Z"

abbrev two_pending : State
two_pending = record {
  claims = [];
  index = [];
  inbox = holds (message "m1" ∷ message "m2" ∷ []);
  dlq = holds [];
  counters = [];
}

abbrev request : ClaimInput
request = record {
  actor_id = "worker";
  session_id = "s1";
  max_batch = nat 2;
  ttl_seconds = nat 60;
  max_concurrent_claims = none;
  now = start;
}

abbrev two_claimed : TaskClaim
two_claimed = record {
  claim_id = "c1";
  actor_id = "worker";
  session_id = "s1";
  claimed_at = start;
  expires_at = "2024-02-29T12:01:00.000Z";
  tasks = message "m1" ∷ message "m2" ∷ [];
}

abbrev claimed_state : State
claimed_state = record {
  claims = ("c1", claims_json.encode (claim_value two_claimed)) ∷ [];
  index = ("c1", 1709208060000) ∷ [];
  inbox = holds [];
  dlq = holds [];
  counters = [];
}

claim_two :
    claim claims_json clock request "c1" two_pending ≡ (claimed_state, ok (some two_claimed))
unfolding claim is_claim_request is_blank ms_from_iso number days_from_civil iso_from_ms format_iso
    padded civil_from_days put zadd parse_task_claim
claim_two = refl

-- The claim above is described by what it promises.
claim-Claimed_example :
    (mid : State) × Claimed claims_json clock request "c1" two_pending mid claimed_state two_claimed
claim-Claimed_example =
    claim-Claimed claims_json clock request "c1" two_pending claimed_state two_claimed claim_two

claim_acknowledged_example :
    (st : State) × (acknowledge claims_json clock "c1" "worker" "s1" claimed_state ≡ (st, ok 2))
    × (acknowledge claims_json clock "c1" "worker" "s1" st ≡ (st, err unknown_claim))
    × (st.inbox ≡ holds [])
    × (st.dlq ≡ holds [])
claim_acknowledged_example =
    claim_acknowledged claims_json clock request "c1" two_pending claimed_state two_claimed
      claim_two

abbrev recovered_state : State
recovered_state = record {
  claims = [];
  index = [];
  inbox = holds (message "m1" ∷ message "m2" ∷ []);
  dlq = holds [];
  counters = ("gptq:rc:worker:m1", count 1) ∷ ("gptq:rc:worker:m2", count 1) ∷ [];
}

recover_two :
    recover_script 5 1000 claims_json 1709208060001 claimed_state ≡ (recovered_state, done 2 0)
unfolding recover_script lookup claim_of_value message_id remove zrem put
recover_two = refl

is_index : IsIndex claimed_state.index
unfolding zscore
is_index = (refl, tt)

room :
    0
      + length (
          stored_tasks claims_json claimed_state.claims (expired 1709208060001 claimed_state.index))
    ≤ 1000
unfolding expired lookup claim_of_value
room = omega arith

no_counters : AllWithin 5 claimed_state.counters
unfolding lookup
no_counters key = tt

recover_conserves_example :
    (inbox' : List String) × (dlq' : List String) × (recovered_state.inbox ≡ holds inbox')
    × (recovered_state.dlq ≡ holds dlq')
    × Perm
        ((inbox' ++ dlq') ++ claimed_tasks claims_json recovered_state.claims [])
        (([] ++ []) ++ claimed_tasks claims_json claimed_state.claims claimed_state.index)
recover_conserves_example =
    recover_conserves 5 1000 claims_json 1709208060001 claimed_state recovered_state [] [] 2 0
      recover_two refl refl is_index room

recover_counts_example :
    (2
      ≡ total_tasks
          (plan claims_json claimed_state.claims (expired 1709208060001 claimed_state.index)))
    × ((inbox' : List String) × (dlq' : List String) × (recovered_state.inbox ≡ holds inbox')
        × (recovered_state.dlq ≡ holds dlq')
        × (length inbox' ≡ 2)
        × (length dlq' ≤ 1000))
    × AllWithin 5 recovered_state.counters
recover_counts_example =
    recover_counts 5 1000 claims_json 1709208060001 claimed_state recovered_state [] [] 2 0
      recover_two refl refl (omega arith) no_counters

recover_expires_example :
    (recovered_state.index ≡ live 1709208060001 claimed_state.index)
    × ((id : String)
        → lookup id recovered_state.claims ≡ (
            if mem id (expired 1709208060001 claimed_state.index)
            then none
            else lookup id claimed_state.claims))
recover_expires_example =
    recover_expires 5 1000 claims_json 1709208060001 claimed_state recovered_state [] [] 2 0
      recover_two refl refl is_index

recover_in_order_example :
    (recovered_state.inbox
      ≡ holds (
          []
          ++ stored_tasks claims_json claimed_state.claims
              (expired 1709208060001 claimed_state.index)))
    × (recovered_state.dlq ≡ claimed_state.dlq)
recover_in_order_example =
    recover_in_order 5 1000 claims_json 1709208060001 claimed_state recovered_state [] [] 2
      recover_two refl refl

abbrev corrupt_state : State
corrupt_state = record claimed_state { dlq = wrong_type }

recover_wrong :
    recover_script 5 1000 claims_json 1709208060001 corrupt_state ≡ (corrupt_state, corrupt)
unfolding recover_script lookup claim_of_value message_id remove zrem put
recover_wrong = refl

abbrev renewed_claim : TaskClaim
renewed_claim = record two_claimed { expires_at = "2024-02-29T12:02:00.000Z" }

abbrev renewed_state : State
renewed_state = record claimed_state {
  claims = ("c1", claims_json.encode (claim_value renewed_claim)) ∷ [];
  index = ("c1", 1709208120000) ∷ [];
}

renew_two :
    renew_script claims_json "c1" "worker" "s1" 1709208030000 90 3600 claimed_state
    ≡ (renewed_state, renewed "2024-02-29T12:02:00.000Z")
unfolding renew_script lookup claim_of_value ms_from_iso number days_from_civil put zadd_xx
    iso_from_ms format_iso padded civil_from_days
renew_two = refl

there : lookup "c1" claimed_state.claims ≡ some (claims_json.encode (claim_value two_claimed))
unfolding lookup
there = refl

renew-Extends_example :
    Extends claims_json "c1" "worker" "s1" 1709208030000 90 3600 two_claimed claimed_state
      renewed_state "2024-02-29T12:02:00.000Z"
renew-Extends_example =
    renew-Extends claims_json "c1" "worker" "s1" 1709208030000 90 3600 two_claimed claimed_state
      renewed_state "2024-02-29T12:02:00.000Z" there renew_two

abbrev dead_state : State
dead_state = record recovered_state {
  dlq = holds (message "m3" ∷ message "m4" ∷ []);
  counters = ("gptq:rc:worker:m4", count 4) ∷ ("gptq:rc:worker:m1", count 1) ∷ [];
}

abbrev requeued_state : State
requeued_state = record dead_state {
  inbox = holds (message "m1" ∷ message "m2" ∷ message "m4" ∷ []);
  dlq = holds (message "m3" ∷ []);
  counters = ("gptq:rc:worker:m1", count 1) ∷ [];
}

requeue_one :
    requeue_script claims_json "gptq:rc:worker:m4" "m4" dead_state ≡ (requeued_state, moved)
unfolding requeue_script remove
requeue_one = refl

requeue-moved_example :
    (p : String) × (is_message (id_of_value claims_json (claims_json.decode p)) "m4" ≡ true)
    × (dlq' : List String) × (requeued_state.inbox
        ≡ holds ((message "m1" ∷ message "m2" ∷ []) ++ p ∷ []))
    × (requeued_state.dlq ≡ holds dlq')
    × Perm (message "m3" ∷ message "m4" ∷ []) (p ∷ dlq')
    × (lookup "gptq:rc:worker:m4" requeued_state.counters ≡ none)
    × (requeued_state.claims ≡ dead_state.claims)
    × (requeued_state.index ≡ dead_state.index)
requeue-moved_example =
    requeue-moved claims_json "m4" "gptq:rc:worker:m4" dead_state requeued_state
      (message "m1" ∷ message "m2" ∷ []) (message "m3" ∷ message "m4" ∷ []) refl refl requeue_one

leap_day : iso_from_ms 1709210096007 ≡ "2024-02-29T12:34:56.007Z"
unfolding iso_from_ms format_iso padded civil_from_days
leap_day = refl

other_session : (two_claimed.actor_id ≡ "worker") × (two_claimed.session_id ≡ "s2") → ⊥
other_session (a, b) = not_same b
  where
    is_first : String → Bool
    is_first s = str_eq s "s1"

    not_same : ◌≡◌ {A = String} "s1" "s2" → ⊥
    not_same e = ground (arith, ap is_first e)

find_active :
    active_claim_for claims_json clock "worker" "s1" "2024-02-29T12:00:30.000Z" claimed_state
    ≡ some two_claimed
unfolding active_claim_for lookup claim_of_value parse_task_claim ms_from_iso number days_from_civil
find_active = refl
