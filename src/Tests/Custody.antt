-- ===== src/Tests/Custody.antt =====
-- Runs of src/core/custody-model.ts and src/core/actor-presence.ts.
use gptqueue.Prelude.{
  ℕ, ◌<◌, String, true, false, Option, none, some, List, [], ◌∷◌, ◌≡◌, ◌⊎◌, ◌↔◌, ◌≢◌, refl, arith,
}
use gptqueue.Value.{Value, obj, field, end, num, str, arr, of_strs}
use gptqueue.Outcome.{ok, throws}
use gptqueue.Custody.Handoff.{HandoffRecord, origin, clean, admit_handoff_record}
use gptqueue.Custody.Handoff.Fields.{Describes, DescribesRest}
use gptqueue.Custody.Handoff.Laws.{to_value, admit_iff, admit-hazards_undefined}
use gptqueue.Custody.Model.{
  unowned, released, forfeited, CustodianIdentity, WorktreeIdentity, CustodyRecord, initial,
  graceful_handoff, successor_takeover, claim, assume, release, expire, create_custody, hold,
  unhold, transition_custody, run, is_valid_claim,
}
use gptqueue.Custody.Model.Laws.{
  is_held, IsWellFormed, run-IsWellFormed, transition_exclusive, transition_takes, expire_iff,
  transition_keeps,
}
use gptqueue.Presence.{
  DurableActorProfile, PresenceInput, store_only, Candidate, runnable, offline_store_only,
  classify_presence,
}
use gptqueue.Presence.Laws.{Shows, classify_iff}
use gptqueue.Tests.Fixtures.{clock}

abbrev pub handoff : HandoffRecord
handoff = record {
  authored_by = origin;
  repo_head = "abc123";
  tracked_tree_state = clean;
  untracked_inventory = [];
  unfinished_work = "none";
  hazards = [];
  next_step = "merge";
}

abbrev pub handoff_value : Value
handoff_value = to_value handoff

admitted : admit_handoff_record handoff_value ≡ ok handoff
unfolding admit_handoff_record
admitted = refl

admit_iff_example :
    (admit_handoff_record handoff_value ≡ ok handoff) ↔ Describes handoff_value handoff
admit_iff_example = admit_iff handoff_value handoff

abbrev no_hazards : Value
no_hazards = obj (
    field "schema_version" (num 1) (
      field "repo_head" (str "abc123") (
        field "tracked_tree_state" (str "clean") (
          field "untracked_inventory" (arr (of_strs [])) (
            field "unfinished_work" (str "none")
              (field "authored_by" (str "origin") (field "next_step" (str "merge") end)))))))

described : DescribesRest no_hazards handoff
described = record {
  version = refl;
  head = refl;
  head_nonempty = refl;
  tree = refl;
  inventory = refl;
  inventory_nonempty = tt;
  dirty_listed = λ e. absurd (ground (arith, e));
  work = refl;
  work_nonempty = refl;
  author = refl;
  next = refl;
  next_nonempty = refl;
}

admit-hazards_undefined_example : admit_handoff_record no_hazards ≡ throws
admit-hazards_undefined_example = admit-hazards_undefined no_hazards handoff described refl

abbrev pub worktree : WorktreeIdentity
worktree = record { worktree_path = "/w"; repo_head = "abc123"; tree_fingerprint = "t" }

abbrev pub worker : CustodianIdentity
worker = record { actor_name = "worker"; session_id = "s1" }

abbrev fresh : CustodyRecord
fresh = create_custody worktree

abbrev held_record : CustodyRecord
held_record = hold fresh worker initial "2024-02-29T12:00:00.000Z" none

run-IsWellFormed_example : IsWellFormed (
    run clock.date_parse
      (create_custody worktree)
      (claim worker "2024-02-29T12:00:00.000Z" none ∷ release handoff_value ∷ []))
run-IsWellFormed_example =
    run-IsWellFormed clock.date_parse worktree
      (claim worker "2024-02-29T12:00:00.000Z" none ∷ release handoff_value ∷ [])

claimed :
    transition_custody clock.date_parse fresh (claim worker "2024-02-29T12:00:00.000Z" none)
    ≡ ok held_record
unfolding transition_custody create_custody
claimed = refl

released_ok :
    transition_custody clock.date_parse held_record (release handoff_value)
    ≡ ok (unhold held_record released (some handoff))
unfolding transition_custody admit_handoff_record
released_ok = refl

transition_exclusive_example :
    (unhold held_record released (some handoff) ≡ held_record) ⊎ (is_held released ≡ false)
transition_exclusive_example =
    transition_exclusive clock.date_parse held_record (unhold held_record released (some handoff))
      (release handoff_value) refl released_ok

transition_keeps_example :
    (worktree ≡ worktree)
    × ((some handoff ≡ none)
        ⊎ ((v : Value) × (h : HandoffRecord) × (release handoff_value ≡ release v)
            × (some handoff ≡ some h)
            × (admit_handoff_record v ≡ ok h)))
unfolding create_custody
transition_keeps_example =
    transition_keeps clock.date_parse held_record (unhold held_record released (some handoff))
      (release handoff_value) released_ok

expire_iff_example :
    (transition_custody clock.date_parse held_record (expire "2024-02-29T12:00:01.000Z")
      ≡ ok (unhold held_record forfeited none))
    ↔ ((t : ℕ) × (u : ℕ) × (clock.date_parse "2024-02-29T12:00:01.000Z" ≡ some t)
        × (clock.date_parse "2024-02-29T12:00:00.000Z" ≡ some u)
        × (u < t))
unfolding create_custody
expire_iff_example =
    expire_iff clock.date_parse held_record "2024-02-29T12:00:00.000Z" "2024-02-29T12:00:01.000Z"
      refl refl

transition_takes_example :
    (c : CustodianIdentity) × (lease : String) × (acquired : Option String) × (held_record.custodian
      ≡ some c)
    × (held_record.lease_expires_at ≡ some lease)
    × (held_record.acquired_at ≡ acquired)
    × (is_valid_claim c lease acquired ≡ true)
    × ((claim worker "2024-02-29T12:00:00.000Z" none ≡ claim c lease acquired)
          × (fresh.state ≡ unowned)
          × (held_record.mode ≡ some initial)
        ⊎ (claim worker "2024-02-29T12:00:00.000Z" none ≡ claim c lease acquired)
          × (fresh.state ≡ released)
          × (held_record.mode ≡ some graceful_handoff)
        ⊎ ((inventory : List String) × (claim worker "2024-02-29T12:00:00.000Z" none
              ≡ assume c lease inventory acquired)
            × (inventory ≢ [])
            × (fresh.state ≡ forfeited)
            × (held_record.mode ≡ some successor_takeover)))
unfolding create_custody
transition_takes_example =
    transition_takes clock.date_parse fresh held_record
      (claim worker "2024-02-29T12:00:00.000Z" none) refl claimed refl

abbrev profile : DurableActorProfile
profile = record {
  actor_id = "worker";
  alias = "worker-1";
  capabilities = [];
  workspace_root = "/w";
  working_directory = "/w";
  run_directory = none;
  runtime = "node";
  activation_policy = store_only;
  max_concurrency = 1;
}

abbrev offline_input : PresenceInput
offline_input = record {
  actor = some profile;
  launch_contract = runnable;
  runtime = none;
  wake_lease_id = none;
}

classify_iff_example :
    (classify_presence offline_input ≡ ok ("worker", offline_store_only))
    ↔ Shows none none runnable store_only offline_store_only
classify_iff_example = classify_iff offline_input profile offline_store_only refl

abbrev candidate : Candidate
candidate = record {
  actor_id = "worker";
  alias = "worker-1";
  capabilities = [];
  workspace_root = "/w";
  working_directory = "/w";
  run_directory = none;
  runtime = "node";
  activation_policy = obj (field "mode" (str "store_only") end);
  max_concurrency = num 1;
}
