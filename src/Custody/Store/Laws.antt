-- ===== src/Custody/Store/Laws.antt =====
-- What the hash of custody records holds, whatever clients of src/core/custody-store.ts do, in any
-- order of their calls of Redis.
use gptqueue.Prelude.{
  ℕ, String, Bool, true, false, Option, none, some, ◌≡◌, refl, ap, sym, subst, ◌∙◌, if◌then◌else◌,
  str_eq, str_eq_iff, is_empty_text, Bool-cases, inl, inr, arith, lookup, put, lookup-put,
}
use gptqueue.Outcome.{ok, err, throws}
use gptqueue.Json.{JsonCodec}
use gptqueue.Claims.Codec.{Clock}
use gptqueue.Custody.Handoff.{HandoffRecord, admit_handoff_record}
use gptqueue.Custody.Handoff.Laws.{to_value, admit-to_value}
use gptqueue.Custody.Model.{
  CustodyState, unowned, held, released, forfeited, WorktreeIdentity, CustodyRecord, CustodyEvent,
  expire, create_custody, transition_custody, Transition,
}
use gptqueue.Custody.Model.Laws.{create-IsWellFormed, transition-IsWellFormed, transition_keeps}
use gptqueue.Custody.Store.Read.{custody_value}
use gptqueue.Custody.Store.Read.Laws.{IsStored, parse-custody_value, custody_value-IsJson}
use gptqueue.Custody.Store.{
  Store, may_set, conditional_set, read_of, read_record, is_lapsed, forfeit_as, forfeit,
  lazy_expire, persisted, persist,
}
use gptqueue.Custody.Store.{Attempt}

-- A stored record stays one under every accepted event, and is about the same worktree.
pub transition-IsStored :
    (date_parse : String → Option ℕ) (r r' : CustodyRecord) (e : CustodyEvent)
    → IsStored r
    → transition_custody date_parse r e ≡ ok r'
    → IsStored r' × (r'.worktree ≡ r.worktree)
transition-IsStored date_parse r r' e s h =
    let (same, kept) = transition_keeps date_parse r r' e h in
    (
      record {
        well_formed = transition-IsWellFormed date_parse r r' e s.well_formed h;
        path = ap (λ w. is_empty_text w.worktree_path) same ∙ s.path;
        handoff = λ x there. elim kept [
          | inl old ↦ s.handoff x (sym old ∙ there)
          | inr (v, x', is_release, new, adm) ↦
              subst (λ y. admit_handoff_record (to_value y) ≡ ok y)
                (same_record x' x (sym new ∙ there)) (admit-to_value v x' adm)
        ];
      },
      same,
    )
  where
    same_record : (x y : HandoffRecord) → ◌≡◌ {A = Option HandoffRecord} (some x) (some y) → x ≡ y
    same_record x y k = ap record_in k
      where
        record_in : Option HandoffRecord → HandoffRecord
        record_in none = x
        record_in (some z) = z

pub create-IsStored :
    (w : WorktreeIdentity) → is_empty_text w.worktree_path ≡ false → IsStored (create_custody w)
unfolding create_custody
create-IsStored w e = record {
  well_formed = create-IsWellFormed w;
  path = e;
  handoff = λ h there. absurd (ground arith);
}

module _ (json : JsonCodec) where
  -- Every text in the hash is that of a record, under the path of its worktree.
  pub record IsSound (st : Store) : Type 0 where
    pub entry :
        (path raw : String)
        → lookup path st ≡ some raw
        → (r : CustodyRecord) × IsStored r
          × (r.worktree.worktree_path ≡ path)
          × (raw ≡ json.encode (custody_value r))

  -- What the other clients do keeps the hash sound.
  abbrev pub AreHonest : (ℕ → Store → Store) → Type 0
  AreHonest others = (n : ℕ) (st : Store) → IsSound st → IsSound (others n st)

  put-IsSound :
      (path : String) (r : CustodyRecord) (st : Store)
      → IsSound st
      → IsStored r
      → r.worktree.worktree_path ≡ path
      → IsSound (put path (json.encode (custody_value r)) st)
  put-IsSound path r st s stored same = record {
    entry = λ p raw there. elim (Bool-cases (str_eq path p)) [
      | inl here ↦ (
        r,
        stored,
        same ∙ (str_eq_iff path p).0 here,
        same_text raw (rw (lookup-put path p (json.encode (custody_value r)) st, here) at there),
      )
      | inr elsewhere ↦
          s.entry p raw
            (rw (lookup-put path p (json.encode (custody_value r)) st, elsewhere) at there)
    ];
  }
    where
      same_text :
          (t : String)
          → ◌≡◌ {A = Option String} (some (json.encode (custody_value r))) (some t)
          → t ≡ json.encode (custody_value r)
      same_text t k = ground arith

abbrev persisted_store : Store × Bool → Store
persisted_store p = p.0

module _ (json : JsonCodec) (clock : Clock) (others : ℕ → Store → Store)
    (honest : AreHonest json others) where
  set-IsSound :
      (path : String) (r : CustodyRecord) (state session : String) (st : Store)
      → IsSound json st
      → IsStored r
      → r.worktree.worktree_path ≡ path
      → IsSound json (conditional_set json clock others path r state session st).0
  unfolding conditional_set
  set-IsSound path r state session st s stored same =
      either (may_set json clock others (lookup path st) state session)
    where
      either :
          (b : Bool)
          → IsSound json (
              persisted_store
                (if b then (put path (json.encode (custody_value r)) st, true) else (st, false)))
      either true = put-IsSound json path r st s stored same
      either false = s

  -- A record that is read from a sound hash is stored under its own path.
  pub read-IsStored :
      (path : String) (st : Store) (r : CustodyRecord)
      → IsSound json st
      → read_record json clock others path st ≡ some (some r)
      → IsStored r
        × (r.worktree.worktree_path ≡ path)
        × (lookup path st ≡ some (json.encode (custody_value r)))
  unfolding read_record
  read-IsStored path st r s e = found (lookup path st) refl e
    where
      same_record :
          (x : CustodyRecord)
          → ◌≡◌ {A = Option (Option CustodyRecord)} (some (some x)) (some (some r))
          → x ≡ r
      same_record x k = ground arith

      found :
          (o : Option String)
          → lookup path st ≡ o
          → read_of json clock others o ≡ some (some r)
          → IsStored r
            × (r.worktree.worktree_path ≡ path)
            × (lookup path st ≡ some (json.encode (custody_value r)))
      found none h k = absurd (ground arith)
      found (some raw) h k =
          let (x, stored, at_path, text) = s.entry path raw h in
          let back =
            rw
              (
                text,
                json.decode-encode (custody_value x) (custody_value-IsJson x),
                parse-custody_value x stored,
              )
              at k in
          subst
            (λ y.
              IsStored y
              × (y.worktree.worktree_path ≡ path)
              × (lookup path st ≡ some (json.encode (custody_value y))))
            (same_record x back) (stored, at_path, h ∙ ap some text)

  persisted-fst : (r : CustodyRecord) (p : Store × Bool) → (persisted json clock others r p).0 ≡ p.0
  persisted-fst r (st, true) = refl
  persisted-fst r (st, false) = refl

  pub transition_set :
      (n : ℕ) (path : String) (r : CustodyRecord) (e : CustodyEvent) (state session : String)
      (st : Store)
      → IsSound json st
      → IsStored r
      → r.worktree.worktree_path ≡ path
      → IsSound json
          (persist json clock others n path
            (transition_custody clock.date_parse r e)
            state
            session
            st).0
  transition_set n path r e state session st s stored same =
      by_result (transition_custody clock.date_parse r e) refl
    where
      by_result :
          (t : Transition)
          → transition_custody clock.date_parse r e ≡ t
          → IsSound json (persist json clock others n path t state session st).0
      by_result (ok r') h =
          let (kept, same_tree) = transition-IsStored clock.date_parse r r' e stored h in
          rw
            (persisted-fst r'
              (conditional_set json clock others path r' state session (others n st)))
            (set-IsSound path r' state session (others n st) (honest n st s) kept
              (ap (λ w. w.worktree_path) same_tree ∙ same))
      by_result (err c) h = s
      by_result throws h = s

  abbrev pub IsExpired : CustodyRecord → Store × CustodyRecord → Type 0
  IsExpired r p = IsSound json p.0 × IsStored p.1 × (p.1.worktree ≡ r.worktree)

  forfeit-IsExpired :
      (n : ℕ) (r : CustodyRecord) (t : Transition) (st : Store)
      → IsSound json st
      → IsStored r
      → ((r' : CustodyRecord) → t ≡ ok r' → IsStored r' × (r'.worktree ≡ r.worktree))
      → IsExpired r (forfeit json clock others n r t st)
  forfeit-IsExpired n r (ok r') st s stored kept = by_state r'.state
    where
      by_state : (c : CustodyState) → IsExpired r (forfeit_as json clock others c n r r' st)
      by_state forfeited =
          let (good, same) = kept r' refl in
          (
            set-IsSound r.worktree.worktree_path r' "held" String.[] (others n st) (honest n st s)
                good (ap (λ w. w.worktree_path) same),
            good,
            same,
          )
      by_state unowned = (s, stored, refl)
      by_state held = (s, stored, refl)
      by_state released = (s, stored, refl)
  forfeit-IsExpired n r (err e) st s stored kept = (s, stored, refl)
  forfeit-IsExpired n r throws st s stored kept = (s, stored, refl)

  pub lazy_expire-IsExpired :
      (n : ℕ) (r : CustodyRecord) (now : String) (st : Store)
      → IsSound json st
      → IsStored r
      → IsExpired r (lazy_expire json clock others n r now st)
  unfolding lazy_expire
  lazy_expire-IsExpired n r now st s stored = either (is_lapsed json clock others r now)
    where
      either :
          (b : Bool)
          → IsExpired r (
              if b
              then forfeit json clock others n r
                  (transition_custody clock.date_parse r (expire now))
                  st
              else (st, r))
      either true =
          forfeit-IsExpired n r (transition_custody clock.date_parse r (expire now)) st s stored
            (λ r' h. transition-IsStored clock.date_parse r r' (expire now) stored h)
      either false = (s, stored, refl)

abbrev persisted_attempt : Store × Attempt → Store
persisted_attempt p = p.0

pub either-IsSound :
    (json : JsonCodec) (b : Bool) (x y : Store × Attempt)
    → IsSound json x.0
    → IsSound json y.0
    → IsSound json (persisted_attempt (if b then x else y))
either-IsSound json true x y h k = h
either-IsSound json false x y h k = k
