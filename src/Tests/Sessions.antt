-- ===== src/Tests/Sessions.antt =====
-- Runs of src/core/session-store.ts.
use gptqueue.Prelude.{
  remove, ℕ, String, Bool, false, none, some, List, [], ◌∷◌, ◌≡◌, ◌⊎◌, arith, refl, if◌then◌else◌,
  lookup, str_eq, true,
}
use gptqueue.Sessions.{
  SessionRecord, State, has, members_of, is_leased, prune_expired_sessions, close_session,
  get_session, refresh_lease, create_session, registry_value,
}
use gptqueue.Sessions.Registry.{RegistryEvent, write, undo, publish, to_restore, after_events}
use gptqueue.Sessions.Registry.Published.{published, no_names, events-published}
use gptqueue.Sessions.Presence.{get_presence_many, presence_each, get_presence_many-each}
use gptqueue.Outcome.{ok, throws}
use gptqueue.Tests.Codec.{json}
use gptqueue.Sessions.Created.{IsAbsent, create-fails, create-succeeds}
use gptqueue.Sessions.Timer.{tick, after_close}
use gptqueue.Sessions.Laws.{prune-has, refresh-close}
use gptqueue.Prelude.{put}

abbrev is_draft : String → Bool
is_draft s = str_eq s "draft"

-- A registration is completed, and another of the same name is undone.
abbrev events : List RegistryEvent
events =
    write "worker" "draft"
    ∷ publish "worker" "done"
    ∷ write "worker" "draft"
    ∷ undo "worker" "draft"
    ∷ []

events-published_example : to_restore "worker" (after_events events no_names) ≡ some "done"
unfolding published
events-published_example =
    events-published is_draft "worker" events (refl, (refl, (refl, (refl, tt))))

abbrev session : SessionRecord
session = record {
  session_id = "s1";
  agent_name = "worker";
  role = "both";
  description = String.[];
  created_at = "2024-02-29T12:00:00.000Z";
  last_seen = "2024-02-29T12:00:00.000Z";
  transport = "stdio";
}

abbrev one_session : State
one_session = record {
  sessions = ("s1", session) ∷ [];
  leases = ("s1", 30000) ∷ [];
  members = ("worker", "s0" ∷ "s1" ∷ []) ∷ [];
  names = no_names;
}

prune-has_example :
    (has "s0" (members_of "worker" (prune_expired_sessions 20000 "worker" one_session).0) ≡ false)
    × (lookup "s0" (prune_expired_sessions 20000 "worker" one_session).0.sessions ≡ none)
unfolding members_of lookup is_leased
prune-has_example = prune-has 20000 "worker" "s0" one_session

abbrev no_sessions : State
no_sessions = record { sessions = []; leases = []; members = []; names = no_names }

abbrev quiet : ℕ → State → State
quiet n st = st

abbrev closed : State
closed = (close_session quiet "s1" one_session).0

closes : close_session quiet "s1" one_session ≡ (closed, some "worker")
unfolding close_session lookup
closes = refl

refresh-close_example :
    (get_session "s1" closed ≡ none)
    × (has "s1" (members_of "worker" closed) ≡ false)
    × (refresh_lease 20000 "2024-02-29T12:00:20.000Z" "s1" closed ≡ (closed, false))
refresh-close_example =
    refresh-close quiet 20000 "2024-02-29T12:00:20.000Z" "s1" "worker" one_session closed closes
      (λ n s e. e)

abbrev ttl_of : String → ℕ
ttl_of sid = if str_eq sid "s1" then 30 else 0

abbrev sessions_of : String → List String
sessions_of name = if str_eq name "worker" then "s0" ∷ "s1" ∷ [] else "s2" ∷ []

get_presence_many-each_example :
    get_presence_many sessions_of ttl_of ("lead" ∷ "worker" ∷ [])
    ≡ presence_each sessions_of ttl_of ("lead" ∷ "worker" ∷ [])
get_presence_many-each_example = get_presence_many-each sessions_of ttl_of ("lead" ∷ "worker" ∷ [])

-- The transaction that takes the session back fails too.
abbrev leftover : State
leftover = (create_session json quiet 20000 true true none session no_sessions).0

create-fails_example :
    ((create_session json quiet 20000 true true none session no_sessions).1 ≡ throws)
    × ((true ≡ true) ⊎ IsAbsent "s1" "worker" leftover)
    × (is_leased 50000 "s1" leftover ≡ false)
    × (lookup "s1" (prune_expired_sessions 50000 "worker" leftover).0.sessions ≡ none)
    × (has "s1" (members_of "worker" (prune_expired_sessions 50000 "worker" leftover).0) ≡ false)
create-fails_example =
    create-fails json quiet 20000 none session no_sessions true 50000 (λ n s. (refl, refl))
      (omega arith)

left_behind : lookup "s1" leftover.sessions ≡ some session
unfolding create_session lookup put prune_expired_sessions
left_behind = refl

create-succeeds_example :
    ((create_session json quiet 20000 false false none session one_session).1
      ≡ ok (session, json.encode (registry_value session none)))
    × (lookup "s1" (create_session json quiet 20000 false false none session one_session).0.sessions
        ≡ some session)
    × (lookup "s1" (create_session json quiet 20000 false false none session one_session).0.leases
        ≡ some 50000)
    × (has "s1" (
          members_of "worker"
            (create_session json quiet 20000 false false none session one_session).0)
        ≡ true)
    × (lookup "worker"
          (create_session json quiet 20000 false false none session one_session).0.names.registry
        ≡ some (json.encode (registry_value session none)))
create-succeeds_example =
    create-succeeds json quiet 20000 none session one_session false (λ s. refl)

-- The timer of another session leaves a closed one alone.
ticked :
    get_session "s1" (
      tick 20000 "2024-02-29T12:00:20.000Z"
        (after_close "s1" (record { is_running = true; refresh_session_id = some "s0" }))
        closed)
    ≡ none
unfolding get_session lookup tick close_session remove
ticked = refl
