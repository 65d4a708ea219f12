-- ===== src/Sessions/Laws.antt =====
-- Which sessions src/core/session-store.ts removes, and that a closed one does not come back.
use gptqueue.Prelude.{
  ℕ, String, Bool, true, false, not, ◌&&◌, ◌||◌, List, [], ◌∷◌, ◌≡◌, refl, ap, sym, ◌∙◌,
  if◌then◌else◌, str_eq, str_eq_iff, str_eq_refl, lookup, lookup-put, arith, Option, none, some,
  lookup-remove, subst, Dict, put,
}
use gptqueue.Sessions.{
  State, has, or_none, members_of, srem, is_before, is_leased, dropped, prune_members,
  prune_expired_sessions, tally, unless_leased, close_session, SessionRecord, get_session,
  refresh_lease, left, removed, shown, close_named, refresh_record, named,
}

pub has-srem :
    (sid x : String) (xs : List String) → has x (srem sid xs) ≡ (has x xs && not (str_eq sid x))
has-srem sid x [] = refl
has-srem sid x (y ∷ ys) = either (str_eq y sid) refl (has-srem sid x ys)
  where
    either :
        (b : Bool)
        → str_eq y sid ≡ b
        → has x (srem sid ys) ≡ (has x ys && not (str_eq sid x))
        → has x (if b then srem sid ys else y ∷ srem sid ys)
          ≡ ((str_eq y x || has x ys) && not (str_eq sid x))
    either true e h = ground (arith, e, h, str_eq_iff y sid, str_eq_iff y x, str_eq_iff sid x)
    either false e h = ground (arith, e, h, str_eq_iff y sid, str_eq_iff y x, str_eq_iff sid x)

abbrev members_in : String → State → List String
members_in agent st = or_none (lookup agent st.members)

members_in-dropped :
    (agent sid : String) (st : State)
    → members_in agent (dropped agent sid st) ≡ srem sid (members_in agent st)
members_in-dropped agent sid st =
    rw (lookup-put agent agent (srem sid (members_in agent st)) st.members, str_eq_refl agent) refl

-- Whether a session of `sids` without a lease is `x`.
abbrev is_expired : ℕ → String → List String → State → Bool
is_expired time x sids st = has x sids && not (is_leased time x st)

prune_members-has :
    (time : ℕ) (agent x : String) (sids : List String) (st : State)
    → has x (members_in agent (prune_members time agent sids st).0)
      ≡ (has x (members_in agent st) && not (is_expired time x sids st))
unfolding is_leased
prune_members-has time agent x [] st = ground arith
prune_members-has time agent x (sid ∷ sids) st =
    by_lease (is_before time (lookup sid st.leases)) refl
      (λ s. prune_members-has time agent x sids s)
  where
    tally-fst : (b : Bool) (p : State × ℕ) → (tally b p).0 ≡ p.0
    tally-fst true p = refl
    tally-fst false p = refl

    -- The tests on `x` and on `sid`, where these are equal or not.
    both :
        (m h l : Bool)
        → (str_eq sid x ≡ true → l ≡ true)
        → (m && not (h && not l)) ≡ (m && not ((str_eq sid x || h) && not l))
    both m h l k = ground (arith, k)

    gone :
        (m h l : Bool)
        → (str_eq sid x ≡ true → l ≡ false)
        → ((m && not (str_eq sid x)) && not (h && not l))
          ≡ (m && not ((str_eq sid x || h) && not l))
    gone m h l k = ground (arith, k)

    lease_of :
        (b : Bool)
        → is_before time (lookup sid st.leases) ≡ b
        → str_eq sid x ≡ true
        → is_before time (lookup x st.leases) ≡ b
    lease_of b e k =
        ap (λ y. is_before time (lookup y st.leases)) (sym ((str_eq_iff sid x).0 k)) ∙ e

    by_lease :
        (b : Bool)
        → is_before time (lookup sid st.leases) ≡ b
        → ((s : State)
            → has x (members_in agent (prune_members time agent sids s).0)
              ≡ (has x (members_in agent s) && not (is_expired time x sids s)))
        → has x (
            members_in agent
              (tally b (prune_members time agent sids (unless_leased b agent sid st))).0)
          ≡ (has x (members_in agent st) && not (is_expired time x (sid ∷ sids) st))
    by_lease true e again =
        again st
        ∙ both (has x (members_in agent st)) (has x sids) (is_before time (lookup x st.leases))
            (lease_of true e)
    by_lease false e again =
        again (dropped agent sid st)
        ∙ ap (λ b. b && not (is_expired time x sids st))
            (ap (has x) (members_in-dropped agent sid st) ∙ has-srem sid x (members_in agent st))
        ∙ gone (has x (members_in agent st)) (has x sids) (is_before time (lookup x st.leases))
            (lease_of false e)

none_or : (b : Bool) → ◌≡◌ {A = Option SessionRecord} (if b then none else none) none
none_or true = refl
none_or false = refl

prune_members-record :
    (time : ℕ) (agent x : String) (sids : List String) (st : State)
    → lookup x (prune_members time agent sids st).0.sessions
      ≡ (if is_expired time x sids st then none else lookup x st.sessions)
unfolding is_leased
prune_members-record time agent x [] st = refl
prune_members-record time agent x (sid ∷ sids) st =
    by_lease (is_before time (lookup sid st.leases)) refl
      (λ s. prune_members-record time agent x sids s)
  where
    lease_of :
        (b : Bool)
        → is_before time (lookup sid st.leases) ≡ b
        → str_eq sid x ≡ true
        → is_before time (lookup x st.leases) ≡ b
    lease_of b e k =
        ap (λ y. is_before time (lookup y st.leases)) (sym ((str_eq_iff sid x).0 k)) ∙ e

    both :
        (h l : Bool) (o : Option SessionRecord)
        → (str_eq sid x ≡ true → l ≡ true)
        → (if h && not l then none else o) ≡ (if (str_eq sid x || h) && not l then none else o)
    both h l o k = ap (λ b. if b then none else o) (same h l k)
      where
        same :
            (h l : Bool)
            → (str_eq sid x ≡ true → l ≡ true)
            → (h && not l) ≡ ((str_eq sid x || h) && not l)
        same h l k = ground (arith, k)

    gone :
        (c h l : Bool) (o : Option SessionRecord)
        → (c ≡ true → l ≡ false)
        → (if h && not l then none else if c then none else o)
          ≡ (if (c || h) && not l then none else o)
    gone true h l o k = none_or (h && not l) ∙ ap (λ b. if not b then none else o) (sym (k refl))
    gone false h l o k = refl

    by_lease :
        (b : Bool)
        → is_before time (lookup sid st.leases) ≡ b
        → ((s : State)
            → lookup x (prune_members time agent sids s).0.sessions
              ≡ (if is_expired time x sids s then none else lookup x s.sessions))
        → lookup x
            (tally b (prune_members time agent sids (unless_leased b agent sid st))).0.sessions
          ≡ (if is_expired time x (sid ∷ sids) st then none else lookup x st.sessions)
    by_lease true e again =
        again st
        ∙ both (has x sids) (is_before time (lookup x st.leases)) (lookup x st.sessions)
            (lease_of true e)
    by_lease false e again =
        again (dropped agent sid st)
        ∙ ap (λ o. if is_expired time x sids st then none else o) (lookup-remove sid x st.sessions)
        ∙ gone (str_eq sid x) (has x sids) (is_before time (lookup x st.leases))
            (lookup x st.sessions) (lease_of false e)

-- Of an agent's sessions, a pruning keeps those with a lease and no others; of the others it deletes
-- the records.
pub prune-has :
    (time : ℕ) (agent sid : String) (st : State)
    → (has sid (members_of agent (prune_expired_sessions time agent st).0)
        ≡ (has sid (members_of agent st) && is_leased time sid st))
      × (lookup sid (prune_expired_sessions time agent st).0.sessions ≡ (
          if has sid (members_of agent st) && not (is_leased time sid st)
          then none
          else lookup sid st.sessions))
unfolding prune_expired_sessions
prune-has time agent sid st = (
  prune_members-has time agent sid (members_in agent st) st
      ∙ once (has sid (members_in agent st)) (is_leased time sid st),
  prune_members-record time agent sid (members_in agent st) st,
)
  where
    once : (m l : Bool) → (m && not (m && not l)) ≡ (m && l)
    once m l = ground arith

abbrev IsGone : ℕ → String → String → String → State → Type 0
IsGone time now sid agent s =
    (get_session sid s ≡ none)
    × (has sid (members_of agent s) ≡ false)
    × (refresh_lease time now sid s ≡ (s, false))

without-record :
    (time : ℕ) (now sid agent : String) (s : State)
    → lookup sid s.sessions ≡ none
    → has sid (members_of agent s) ≡ false
    → IsGone time now sid agent s
unfolding get_session refresh_lease
without-record time now sid agent s e h =
    (ap shown e, h, ap (λ o. refresh_record time now sid o s) e)

pub has-put-srem :
    (sid agent : String) (m : Dict (List String))
    → has sid (or_none (lookup agent (put agent (srem sid (or_none (lookup agent m))) m))) ≡ false
has-put-srem sid agent m =
    ap (λ o. has sid (or_none o))
      (lookup-put agent agent (srem sid xs) m
        ∙ ap (λ b. if b then some (srem sid xs) else lookup agent m) (str_eq_refl agent))
    ∙ has-srem sid sid xs
    ∙ ap (λ b. has sid xs && not b) (str_eq_refl sid)
    ∙ never (has sid xs)
  where
    xs : List String
    xs = or_none (lookup agent m)

    never : (b : Bool) → (b && false) ≡ false
    never b = ground arith

left-members :
    (others : ℕ → State → State) (sid agent : String) (s : State)
    → has sid (members_of agent (left others agent sid s)) ≡ false
unfolding members_of
left-members others sid agent s = has-put-srem sid agent s.members

abbrev Closed : ℕ → String → String → State × Option String → Type 0
Closed time now sid (s, none) = Unit
Closed time now sid (s, some agent) = IsGone time now sid agent s

-- A session that has been closed is gone: it has no record, its agent's set does not have it, and a
-- late refresh of its lease does nothing; provided that nobody else makes a session of that id.
pub refresh-close :
    (others : ℕ → State → State) (time : ℕ) (now sid agent : String) (st st' : State)
    → close_session others sid st ≡ (st', some agent)
    → ((n : ℕ) (s : State) → lookup sid s.sessions ≡ none → lookup sid (others n s).sessions ≡ none)
    → (get_session sid st' ≡ none)
      × (has sid (members_of agent st') ≡ false)
      × (refresh_lease time now sid st' ≡ (st', false))
unfolding close_session
refresh-close others time now sid agent st st' h kept =
    subst (Closed time now sid) h (by_name (named (lookup sid (others 0 st).sessions)))
  where
    gone_record :
        lookup sid (others 2 (removed others sid (others 1 (others 0 st)))).sessions ≡ none
    gone_record = kept 2 (removed others sid (others 1 (others 0 st))) (
        lookup-remove sid sid (others 1 (others 0 st)).sessions
        ∙ ap (λ b. if b then none else lookup sid (others 1 (others 0 st)).sessions)
            (str_eq_refl sid))

    by_name : (o : Option String) → Closed time now sid (close_named others sid o (others 0 st))
    by_name none = tt
    by_name (some a) =
        without-record time now sid a
          (left others a sid (others 2 (removed others sid (others 1 (others 0 st))))) gone_record
          (left-members others sid a (others 2 (removed others sid (others 1 (others 0 st)))))
