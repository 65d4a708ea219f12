-- ===== src/Sessions.antt =====
-- src/core/session-store.ts: sessions, their leases, and the sets of an agent's sessions. A set is a
-- list; a lease is its deadline on the clock of Redis, in milliseconds. Before the later calls of an
-- operation other clients do `others n`.
pub mod Registry
pub mod Presence
pub mod Timer
pub mod Created
pub mod Laws
use gptqueue.Prelude.{
  ℕ, zero, suc, ◌+◌, String, Bool, true, false, not, ◌&&◌, ◌||◌, Option, none, some, List, [], ◌∷◌,
  ◌++◌, if◌then◌else◌, ltb, str_eq, is_empty_text, is_some, any, Dict, lookup, put, remove,
}
use gptqueue.Value.{Value, obj, field, end, str}
use gptqueue.Json.{JsonCodec, optional}
use gptqueue.Outcome.{Outcome, ok, throws}
use Registry.{Names, write_provisional}

-- The hash `gptq:session:<id>`: a field that is undefined is stored as the empty text.
pub record SessionRecord : Type 0 where
  pub session_id : String
  pub agent_name : String
  pub role : String
  pub description : String
  pub created_at : String
  pub last_seen : String
  pub transport : String

pub record State : Type 0 where
  -- gptq:session:<id>
  pub sessions : Dict SessionRecord
  -- gptq:lease:<id>
  pub leases : Dict ℕ
  -- gptq:agent-sessions:<name>
  pub members : Dict (List String)
  pub names : Names

abbrev pub lease_ttl_ms : ℕ
lease_ttl_ms = 30000

abbrev pub has : String → List String → Bool
has sid xs = any (λ x. str_eq x sid) xs

abbrev pub or_none : Option (List String) → List String
or_none none = []
or_none (some xs) = xs

-- SMEMBERS
unfoldable pub members_of : String → State → List String
members_of agent st = or_none (lookup agent st.members)

-- SADD
abbrev pub sadd : String → List String → List String
sadd sid xs = if has sid xs then xs else xs ++ sid ∷ []

-- SREM
abbrev pub srem : String → List String → List String
srem sid [] = []
srem sid (x ∷ xs) = if str_eq x sid then srem sid xs else x ∷ srem sid xs

abbrev pub is_before : ℕ → Option ℕ → Bool
is_before time none = false
is_before time (some deadline) = ltb time deadline

-- EXISTS gptq:lease:<id>
unfoldable pub is_leased : ℕ → String → State → Bool
is_leased time sid st = is_before time (lookup sid st.leases)

-- HGET … agent_name, where an absent and an empty name count the same.
abbrev pub named : Option SessionRecord → Option String
named none = none
named (some r) = if is_empty_text r.agent_name then none else some r.agent_name

abbrev pub refreshed : ℕ → String → String → SessionRecord → State → State
refreshed time now sid r st = record st {
  leases = put sid (time + lease_ttl_ms) st.leases;
  sessions = put sid (record r { last_seen = now }) st.sessions;
  members = put r.agent_name (sadd sid (or_none (lookup r.agent_name st.members))) st.members;
}

abbrev pub refresh_record : ℕ → String → String → Option SessionRecord → State → State × Bool
refresh_record time now sid none st = (st, false)
refresh_record time now sid (some r) st =
    if is_empty_text r.agent_name then (st, false) else (refreshed time now sid r st, true)

-- REFRESH_LEASE_SCRIPT
unfoldable pub refresh_lease : ℕ → (now sid : String) → State → State × Bool
refresh_lease time now sid st = refresh_record time now sid (lookup sid st.sessions) st

abbrev pub dropped : String → String → State → State
dropped agent sid st = record st {
  members = put agent (srem sid (or_none (lookup agent st.members))) st.members;
  sessions = remove sid st.sessions;
}

abbrev pub unless_leased : Bool → String → String → State → State
unless_leased true agent sid st = st
unless_leased false agent sid st = dropped agent sid st

abbrev pub tally : Bool → State × ℕ → State × ℕ
tally true (st, n) = (st, n)
tally false (st, n) = (st, n + 1)

-- The loop of the script over the members that it has read; a lease does not change meanwhile.
abbrev pub prune_members : ℕ → String → List String → State → State × ℕ
prune_members time agent [] st = (st, 0)
prune_members time agent (sid ∷ sids) st =
    tally (is_leased time sid st)
      (prune_members time agent sids (unless_leased (is_leased time sid st) agent sid st))

-- PRUNE_EXPIRED_SCRIPT
unfoldable pub prune_expired_sessions : ℕ → String → State → State × ℕ
unfolding members_of is_leased
prune_expired_sessions time agent st = prune_members time agent (members_of agent st) st

abbrev pub text_value : Option String → Option Value
text_value none = none
text_value (some s) = some (str s)

-- The registry value of a registration in progress, of the description that the caller has given.
abbrev pub registry_value : SessionRecord → Option String → Value
registry_value r description = obj (
    field "name" (str r.agent_name) (
      field "role" (str r.role) (
        optional "description" (text_value description)
          (field "registered_at" (str r.created_at) end))))

-- `createSession`: `r` is the new record, `fails` whether the call that writes the registry fails, and
-- `undo_fails` whether the transaction that takes the session back fails too, which the source does not
-- look at. A call that fails has changed nothing in Redis.
abbrev pub added : ℕ → SessionRecord → State → State
added time r st = record st {
  sessions = put r.session_id r st.sessions;
  leases = put r.session_id (time + lease_ttl_ms) st.leases;
  members =
      put r.agent_name (sadd r.session_id (or_none (lookup r.agent_name st.members))) st.members;
}

abbrev pub taken_back : SessionRecord → State → State
taken_back r st = record st {
  sessions = remove r.session_id st.sessions;
  leases = remove r.session_id st.leases;
  members =
      put r.agent_name (srem r.session_id (or_none (lookup r.agent_name st.members))) st.members;
}

module _ (json : JsonCodec) (others : ℕ → State → State) where
  -- The record, and the registry value that was written.
  abbrev pub Created : Type 0
  Created = State × Outcome (Unit {0}) (SessionRecord × String)

  abbrev pub rolled_back : (undo_fails : Bool) → SessionRecord → State → State
  rolled_back true r st = st
  rolled_back false r st = taken_back r st

  abbrev pub registered : (fails undo_fails : Bool) → String → SessionRecord → State → Created
  registered true undo_fails text r st = (rolled_back undo_fails r (others 3 (others 2 st)), throws)
  registered false undo_fails text r st = (
    record (others 2 st) { names = write_provisional r.agent_name text (others 2 st).names },
    ok (r, text),
  )

  unfoldable pub create_session :
      (time : ℕ) (fails undo_fails : Bool) (description : Option String)
      → SessionRecord
      → State
      → Created
  unfolding prune_expired_sessions
  create_session time fails undo_fails description r st =
      registered fails undo_fails (json.encode (registry_value r description)) r
        (added time r (others 1 (prune_expired_sessions time r.agent_name (others 0 st)).0))

module _ (others : ℕ → State → State) where
  abbrev pub removed : String → State → State
  removed sid st = record st { sessions = remove sid st.sessions; leases = remove sid st.leases }

  abbrev pub left : String → String → State → State
  left agent sid st = record st {
    members = put agent (srem sid (or_none (lookup agent st.members))) st.members;
  }

  abbrev pub close_named : String → Option String → State → State × Option String
  close_named sid none st = (st, none)
  close_named sid (some agent) st =
      (left agent sid (others 2 (removed sid (others 1 st))), some agent)

  unfoldable pub close_session : String → State → State × Option String
  close_session sid st =
      let now = others 0 st in close_named sid (named (lookup sid now.sessions)) now

-- `getSession`: a record without an id counts as none.
abbrev pub shown : Option SessionRecord → Option SessionRecord
shown none = none
shown (some r) = if is_empty_text r.session_id then none else some r

unfoldable pub get_session : String → State → Option SessionRecord
get_session sid st = shown (lookup sid st.sessions)

unfoldable pub resolve_registered : String → State → Bool
resolve_registered name st = is_some (lookup name st.names.registry)
