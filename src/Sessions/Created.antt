-- ===== src/Sessions/Created.antt =====
-- What `createSession` of src/core/session-store.ts leaves behind, when it succeeds and when it fails.
use gptqueue.Prelude.{
  [], ◌∷◌, ◌++◌, ◌||◌, ◌&&◌, not, ◌⊎◌, ◌≤◌, ltb, Dict, Bool-cases, inl, inr, arith, ℕ, ◌+◌, String,
  Bool, true, false, Option, none, some, List, ◌≡◌, refl, ap, ◌∙◌, if◌then◌else◌, str_eq,
  str_eq_refl, lookup, put, remove, lookup-put, lookup-remove,
}
use gptqueue.Outcome.{Outcome, ok, throws}
use gptqueue.Json.{JsonCodec}
use gptqueue.Sessions.{
  SessionRecord, State, has, or_none, members_of, sadd, added, registry_value, create_session,
  prune_expired_sessions, is_leased, is_before, taken_back, rolled_back,
}
use gptqueue.Sessions.Registry.{write_provisional}
use gptqueue.Sessions.Laws.{has-put-srem, prune-has}

-- Nobody else changes the lease of the session `sid` or its place in the set of `agent`.
abbrev pub LeavesAlone : String → String → (ℕ → State → State) → Type 0
LeavesAlone sid agent others =
    (n : ℕ) (st : State)
    → (lookup sid (others n st).leases ≡ lookup sid st.leases)
      × (has sid (members_of agent (others n st)) ≡ has sid (members_of agent st))

abbrev pub IsAbsent : String → String → State → Type 0
IsAbsent sid agent st =
    (lookup sid st.sessions ≡ none)
    × (lookup sid st.leases ≡ none)
    × (has sid (members_of agent st) ≡ false)

-- A pruning leaves nothing of a session whose lease has ended, if the session is in its agent's set or
-- has no record.
prune-absent :
    (later : ℕ) (agent sid : String) (st : State)
    → is_leased later sid st ≡ false
    → (has sid (members_of agent st) ≡ true) ⊎ (lookup sid st.sessions ≡ none)
    → (lookup sid (prune_expired_sessions later agent st).0.sessions ≡ none)
      × (has sid (members_of agent (prune_expired_sessions later agent st).0) ≡ false)
prune-absent later agent sid st ended there =
    let (member, kept) = prune-has later agent sid st in
    (
      kept ∙ by_place (has sid (members_of agent st)) (is_leased later sid st) there ended,
      member ∙ (ap (λ b. has sid (members_of agent st) && b) ended ∙ never _),
    )
  where
    never : (b : Bool) → (b && false) ≡ false
    never b = ground arith

    by_place :
        (member leased : Bool)
        → (member ≡ true) ⊎ (lookup sid st.sessions ≡ none)
        → leased ≡ false
        → (if member && not leased then none else lookup sid st.sessions) ≡ none
    by_place true false w e = refl
    by_place m true w e = absurd (ground arith)
    by_place false false (inl w) e = absurd (ground arith)
    by_place false false (inr w) e = w

module _ (json : JsonCodec) (others : ℕ → State → State) (time : ℕ) (description : Option String)
    (r : SessionRecord) (st : State) where
  has-sadd : (sid : String) (xs : List String) → has sid (sadd sid xs) ≡ true
  has-sadd sid xs = elim (Bool-cases (has sid xs)) [
    | inl there ↦ rw there there
    | inr new ↦ rw new (at_end xs)
  ]
    where
      at_end : (ys : List String) → has sid (ys ++ sid ∷ []) ≡ true
      at_end [] = ap (λ b. b || false) (str_eq_refl sid)
      at_end (y ∷ ys) = ap (λ b. str_eq y sid || b) (at_end ys) ∙ either (str_eq y sid)
        where
          either : (b : Bool) → (b || true) ≡ true
          either b = ground arith

  here : {V : Type 0} (k : String) (v : V) (m : Dict V) → lookup k (put k v m) ≡ some v
  here k v m = lookup-put k k v m ∙ ap (λ b. if b then some v else lookup k m) (str_eq_refl k)

  has-added :
      (before : State) → has r.session_id (members_of r.agent_name (added time r before)) ≡ true
  unfolding members_of
  has-added before =
      ap (λ o. has r.session_id (or_none o))
        (here r.agent_name (sadd r.session_id (or_none (lookup r.agent_name before.members)))
          before.members)
      ∙ has-sadd r.session_id (or_none (lookup r.agent_name before.members))

  taken_back-IsAbsent : (now : State) → IsAbsent r.session_id r.agent_name (taken_back r now)
  unfolding members_of
  taken_back-IsAbsent now = (gone _, gone _, has-put-srem r.session_id r.agent_name _)
    where
      gone :
          {V : Type 0} (m : List (String × V)) → lookup r.session_id (remove r.session_id m) ≡ none
      gone m =
          lookup-remove r.session_id r.session_id m
          ∙ ap (λ b. if b then none else lookup r.session_id m) (str_eq_refl r.session_id)

  -- A registration whose registry write fails is answered by an exception. If the transaction that
  -- takes the session back goes through, the session has no record, no lease and no place in its
  -- agent's set. In every case, also where that transaction fails and leaves the session behind, its
  -- lease has ended thirty seconds after it was made, and a pruning from then on leaves no record of it
  -- and no place in the set; other clients do not touch the lease and the place of the new session.
  pub create-fails :
      (undo_fails : Bool) (later : ℕ)
      → LeavesAlone r.session_id r.agent_name others
      → time + 30000 ≤ later
      → ((create_session json others time true undo_fails description r st).1 ≡ throws)
        × ((undo_fails ≡ true)
            ⊎ IsAbsent r.session_id r.agent_name
                (create_session json others time true undo_fails description r st).0)
        × (is_leased later r.session_id
              (create_session json others time true undo_fails description r st).0
            ≡ false)
        × (lookup r.session_id
              (prune_expired_sessions later r.agent_name
                (create_session json others time true undo_fails description r st).0).0.sessions
            ≡ none)
        × (has r.session_id (
              members_of r.agent_name
                (prune_expired_sessions later r.agent_name
                  (create_session json others time true undo_fails description r st).0).0)
            ≡ false)
  unfolding create_session is_leased
  create-fails undo_fails later alone ends = by_undo undo_fails
    where
      before : State
      before = others 1 (prune_expired_sessions time r.agent_name (others 0 st)).0

      after : State
      after = others 3 (others 2 (added time r before))

      lease : lookup r.session_id after.leases ≡ some (time + 30000)
      lease =
          (alone 3 (others 2 (added time r before))).0
          ∙ (alone 2 (added time r before)).0
          ∙ here r.session_id (time + 30000) before.leases

      place : has r.session_id (members_of r.agent_name after) ≡ true
      place =
          (alone 3 (others 2 (added time r before))).1
          ∙ (alone 2 (added time r before)).1
          ∙ has-added before

      ended : ltb later (time + 30000) ≡ false
      ended = ground arith

      by_undo :
          (b : Bool)
          → (◌≡◌ {A = Outcome (Unit {0}) (SessionRecord × String)} throws throws)
            × ((b ≡ true) ⊎ IsAbsent r.session_id r.agent_name (rolled_back json others b r after))
            × (is_before later (lookup r.session_id (rolled_back json others b r after).leases)
                ≡ false)
            × (lookup r.session_id
                  (prune_expired_sessions later r.agent_name
                    (rolled_back json others b r after)).0.sessions
                ≡ none)
            × (has r.session_id (
                  members_of r.agent_name
                    (prune_expired_sessions later r.agent_name
                      (rolled_back json others b r after)).0)
                ≡ false)
      by_undo true =
          let over = ap (is_before later) lease ∙ ended in
          let (record_gone, place_gone) =
            prune-absent later r.agent_name r.session_id after over (inl place) in
          (refl, inl refl, over, record_gone, place_gone)
      by_undo false =
          let absent = taken_back-IsAbsent after in
          let over = ap (is_before later) absent.1 in
          let (record_gone, place_gone) =
            prune-absent later r.agent_name r.session_id (taken_back r after) over (inr absent.0) in
          (refl, inr absent, over, record_gone, place_gone)

  -- A registration whose registry write succeeds is answered by its record and the value written:
  -- unless somebody else changes it in between, the record and its lease of thirty seconds are there,
  -- the session is in its agent's set, and the registry has the value for the name.
  pub create-succeeds :
      (undo_fails : Bool)
      → ((s : State) → others 2 s ≡ s)
      → ((create_session json others time false undo_fails description r st).1
          ≡ ok (r, json.encode (registry_value r description)))
        × (lookup r.session_id
              (create_session json others time false undo_fails description r st).0.sessions
            ≡ some r)
        × (lookup r.session_id
              (create_session json others time false undo_fails description r st).0.leases
            ≡ some (time + 30000))
        × (has r.session_id (
              members_of r.agent_name
                (create_session json others time false undo_fails description r st).0)
            ≡ true)
        × (lookup r.agent_name
              (create_session json others time false undo_fails description r st).0.names.registry
            ≡ some (json.encode (registry_value r description)))
  unfolding create_session members_of write_provisional
  create-succeeds undo_fails still =
      let before = others 1 (prune_expired_sessions time r.agent_name (others 0 st)).0 in
      let after = added time r before in
      (
        refl,
        ap (λ s. lookup r.session_id s.sessions) (still after)
            ∙ here r.session_id r before.sessions,
        ap (λ s. lookup r.session_id s.leases) (still after)
            ∙ here r.session_id (time + 30000) before.leases,
        ap (λ s. has r.session_id (or_none (lookup r.agent_name s.members))) (still after)
            ∙ has-added before,
        here r.agent_name _ _,
      )
