-- ===== src/Sessions/Presence.antt =====
-- `getPresenceMany` of src/core/session-store.ts, which asks for all leases at once. `ttl` is the TTL
-- of a lease in whole seconds, as Redis rounds it; `-1` and `-2` are 0 here, since only `> 0` is asked.
use mathlib.Core.List.{append_assoc}
use gptqueue.Prelude.{
  length-append, ℕ, ◌+◌, String, Bool, not, List, [], ◌∷◌, ◌++◌, if◌then◌else◌, ltb, length, drop,
  is_empty, map, ◌≡◌, refl, ap, suc, ◌∙◌, sym,
}

pub record AgentPresence : Type 0 where
  pub agent_name : String
  pub online : Bool
  pub active_sessions : List String

abbrev pub presence : String → List String → AgentPresence
presence name active = record {
  agent_name = name;
  online = not (is_empty active);
  active_sessions = active;
}

-- The sessions whose TTL, at the same place, is positive.
abbrev pub active_at : List String → List ℕ → List String
active_at [] ttls = []
active_at (sid ∷ sids) [] = []
active_at (sid ∷ sids) (t ∷ ttls) =
    let rest = active_at sids ttls in if ltb 0 t then sid ∷ rest else rest

abbrev pub flat : List (String × List String) → List String
flat [] = []
flat ((name, sids) ∷ rest) = sids ++ flat rest

unfoldable pub presences_from : ℕ → List (String × List String) → List ℕ → List AgentPresence
presences_from offset [] ttls = []
presences_from offset ((name, sids) ∷ rest) ttls =
    presence name (active_at sids (drop offset ttls))
    ∷ presences_from (offset + length sids) rest ttls

abbrev pub with_members : (String → List String) → List String → List (String × List String)
with_members members [] = []
with_members members (name ∷ names) = (name, members name) ∷ with_members members names

-- `members` and `ttl` are what the two batches of calls find.
unfoldable pub get_presence_many :
    (members : String → List String) (ttl : String → ℕ) → List String → List AgentPresence
unfolding presences_from
get_presence_many members ttl names =
    presences_from 0 (with_members members names) (map ttl (flat (with_members members names)))

-- The sessions that are active, asked for one by one.
abbrev pub active : (String → ℕ) → List String → List String
active ttl [] = []
active ttl (sid ∷ sids) = if ltb 0 (ttl sid) then sid ∷ active ttl sids else active ttl sids

abbrev pub presence_each : (String → List String) → (String → ℕ) → List String → List AgentPresence
presence_each members ttl [] = []
presence_each members ttl (name ∷ names) =
    presence name (active ttl (members name)) ∷ presence_each members ttl names

active_at-map :
    (ttl : String → ℕ) (sids : List String) (rest : List ℕ)
    → active_at sids (map ttl sids ++ rest) ≡ active ttl sids
active_at-map ttl [] rest = refl
active_at-map ttl (sid ∷ sids) rest =
    ap (λ l. if ltb 0 (ttl sid) then sid ∷ l else l) (active_at-map ttl sids rest)

map-append :
    (ttl : String → ℕ) (xs ys : List String) → map ttl (xs ++ ys) ≡ map ttl xs ++ map ttl ys
map-append ttl [] ys = refl
map-append ttl (x ∷ xs) ys = ap (λ l. ttl x ∷ l) (map-append ttl xs ys)

drop-append : (before after : List ℕ) → drop (length before) (before ++ after) ≡ after
drop-append [] after = refl
drop-append (x ∷ xs) after = drop-append xs after

length-map : (ttl : String → ℕ) (xs : List String) → length (map ttl xs) ≡ length xs
length-map ttl [] = refl
length-map ttl (x ∷ xs) = ap suc (length-map ttl xs)

presences_from-each :
    (members : String → List String) (ttl : String → ℕ) (names : List String) (before : List ℕ)
    → presences_from
        (length before)
        (with_members members names)
        (before ++ map ttl (flat (with_members members names)))
      ≡ presence_each members ttl names
unfolding presences_from
presences_from-each members ttl [] before = refl
presences_from-each members ttl (name ∷ names) before =
    let rest = flat (with_members members names) in
    ap
      (λ l.
        presence name (active_at (members name) l)
        ∷ presences_from (length before + length (members name)) (with_members members names)
            (before ++ map ttl (members name ++ rest)))
      (drop-append before (map ttl (members name ++ rest)) ∙ map-append ttl (members name) rest)
    ∙ ap
        (λ a.
          presence name a
          ∷ presences_from (length before + length (members name)) (with_members members names)
              (before ++ map ttl (members name ++ rest)))
        (active_at-map ttl (members name) (map ttl rest))
    ∙ ap (λ l. presence name (active ttl (members name)) ∷ l)
        (ap
            (λ l.
              presences_from (length before + length (members name)) (with_members members names) l)
            (ap (λ l. before ++ l) (map-append ttl (members name) rest)
              ∙ sym (append_assoc before (map ttl (members name)) (map ttl rest)))
          ∙ ap
              (λ n.
                presences_from n (with_members members names)
                  ((before ++ map ttl (members name)) ++ map ttl rest))
              (sym (
                length-append before (map ttl (members name))
                ∙ ap (λ n. length before + n) (length-map ttl (members name))))
          ∙ presences_from-each members ttl names (before ++ map ttl (members name)))

-- The presences that are computed from two batches of calls, by counting offsets, are those of the
-- agents one by one.
pub get_presence_many-each :
    (members : String → List String) (ttl : String → ℕ) (names : List String)
    → get_presence_many members ttl names ≡ presence_each members ttl names
unfolding get_presence_many
get_presence_many-each members ttl names = presences_from-each members ttl names []

pub record LeaseState : Type 0 where
  pub session_id : String
  pub alive : Bool
  pub ttl_seconds : ℕ

-- `getLeaseState`
abbrev pub get_lease_state : (ttl : String → ℕ) → String → LeaseState
get_lease_state ttl sid = record {
  session_id = sid;
  alive = ltb 0 (ttl sid);
  ttl_seconds = ttl sid;
}
