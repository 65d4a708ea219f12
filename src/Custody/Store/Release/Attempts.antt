-- ===== src/Custody/Store/Release/Attempts.antt =====
-- What the attempts of `release` of src/core/custody-store.ts have read and written when one succeeds,
-- whatever other clients do.
use gptqueue.Prelude.{
  subst, ℕ, ◌+◌, String, Bool, true, false, Option, none, some, ◌≡◌, ◌⊎◌, inl, inr, refl, ap, sym,
  ◌∙◌, lookup, put, if◌then◌else◌, str_eq_iff, arith,
}
use gptqueue.Outcome.{Outcome, ok, err, throws}
use gptqueue.Json.{JsonCodec}
use gptqueue.Claims.Codec.{Clock}
use gptqueue.Custody.Handoff.{not_held, HandoffRecord}
use gptqueue.Custody.Handoff.Laws.{to_value}
use gptqueue.Custody.Model.{
  CustodianIdentity, CustodyState, unowned, held, released, forfeited, CustodyRecord, Transition,
  release, transition_custody,
}
use gptqueue.Custody.Store.{
  not_custodian, refuse, Store, StoreCode, Attempt, answered, raced, read_record, is_lapsed,
  has_state, may_set, conditional_set, lazy_expire, persisted, persist,
}
use gptqueue.Custody.Store.Release.{
  CustodyReleaseInput, is_custodian, release_in, release_read, release_again, release_exhausted,
  release_refused, release_attempt,
}
use gptqueue.Custody.Store.Read.{custody_value}
use gptqueue.Custody.Store.Races.{lazy_expire-held}

abbrev store_of : {A : Type 0} → Store × A → Store
store_of p = p.0

module _ (json : JsonCodec) (clock : Clock) (others : ℕ → Store → Store)
    (input : CustodyReleaseInput) (handoff : HandoffRecord) where
  -- An attempt whose first call is number `n`, on the hash `st`, has released: the record `source`
  -- that it read was held by the caller's session with a lease that had not ended; immediately before
  -- the write the stored record was still held by that session; and the write of what the model makes
  -- of `source` is all that the attempt changed.
  pub record IsReleaseAt (n : ℕ) (st st' : Store) (r : CustodyRecord) : Type 0 where
    pub source : CustodyRecord
    pub read : read_record json clock others input.worktree_path (others n st) ≡ some (some source)
    pub was_held : source.state ≡ held
    pub own :
        (actor : String) × (source.custodian
          ≡ some (record { actor_name = actor; session_id = input.session_id }))
    pub in_time : is_lapsed json clock others source input.now ≡ false
    pub still_own :
        (raw : String) × (lookup input.worktree_path (others (n + 1 + 1) (others n st)) ≡ some raw)
        × (has_state json clock others (json.decode raw) "held" input.session_id ≡ true)
    pub step : transition_custody clock.date_parse source (release (to_value handoff)) ≡ ok r
    pub written :
        st'
        ≡ put input.worktree_path (json.encode (custody_value r)) (others (n + 1 + 1) (others n st))

  abbrev Left : ℕ → Store → Store × Attempt → Type 0
  Left n st (st', answered (ok r)) = IsReleaseAt n st st' r
  Left n st _ = Unit

  same_session :
      (o : Option CustodianIdentity)
      → is_custodian json clock others o input.session_id ≡ true
      → (actor : String) × (o ≡ some (record { actor_name = actor; session_id = input.session_id }))
  same_session none h = absurd (ground arith)
  same_session (some c) h = (
    c.actor_name,
    ap (λ s. some (record { actor_name = c.actor_name; session_id = s }))
        ((str_eq_iff c.session_id input.session_id).0 h),
  )

  module _ (n : ℕ) (st : Store) (source : CustodyRecord)
      (read : read_record json clock others input.worktree_path (others n st) ≡ some (some source))
      (was_held : source.state ≡ held)
      (in_time : is_lapsed json clock others source input.now ≡ false) where
    was_own :
        (o : Option String)
        → may_set json clock others o "held" input.session_id ≡ true
        → (raw : String) × (o ≡ some raw)
          × (has_state json clock others (json.decode raw) "held" input.session_id ≡ true)
    was_own none h = absurd (ground (arith, str_eq_iff "held" "ABSENT"))
    was_own (some raw) h = (raw, refl, h)

    persist-Left :
        is_custodian json clock others source.custodian input.session_id ≡ true
        → Left n st (
            persist json clock others
              (n + 1 + 1)
              input.worktree_path
              (transition_custody clock.date_parse source (release (to_value handoff)))
              "held"
              input.session_id
              (others n st))
    unfolding conditional_set
    persist-Left own =
        by_result (transition_custody clock.date_parse source (release (to_value handoff))) refl
      where
        by_test :
            (r : CustodyRecord)
            → transition_custody clock.date_parse source (release (to_value handoff)) ≡ ok r
            → (b : Bool)
            → may_set json clock others
                (lookup input.worktree_path (others (n + 1 + 1) (others n st)))
                "held"
                input.session_id
              ≡ b
            → Left n st (
                persisted json clock others r (
                  if b
                  then (
                    put input.worktree_path
                        (json.encode (custody_value r))
                        (others (n + 1 + 1) (others n st)),
                    true,
                  )
                  else (others (n + 1 + 1) (others n st), false)))
        by_test r h true still = record {
          source = source;
          read = read;
          was_held = was_held;
          own = same_session source.custodian own;
          in_time = in_time;
          still_own = was_own (lookup input.worktree_path (others (n + 1 + 1) (others n st))) still;
          step = h;
          written = refl;
        }
        by_test r h false still = tt

        by_result :
            (t : Transition)
            → transition_custody clock.date_parse source (release (to_value handoff)) ≡ t
            → Left n st (
                persist json clock others
                  (n + 1 + 1)
                  input.worktree_path
                  t
                  "held"
                  input.session_id
                  (others n st))
        by_result (ok r) h =
            by_test r h
              (may_set json clock others
                (lookup input.worktree_path (others (n + 1 + 1) (others n st))) "held"
                input.session_id)
              refl
        by_result (err c) h = tt
        by_result throws h = tt

    release_held-Left :
        Left n st (release_in json clock others held (n + 1 + 1) input handoff source (others n st))
    release_held-Left =
        either (is_custodian json clock others source.custodian input.session_id) refl
      where
        either :
            (b : Bool)
            → is_custodian json clock others source.custodian input.session_id ≡ b
            → Left n st (
                if b
                then persist json clock others
                    (n + 1 + 1)
                    input.worktree_path
                    (transition_custody clock.date_parse source (release (to_value handoff)))
                    "held"
                    input.session_id
                    (others n st)
                else (others n st, answered (err not_custodian)))
        either true own = persist-Left own
        either false e = tt

  release_expired-Left :
      (n : ℕ) (st : Store) (source : CustodyRecord)
      → read_record json clock others input.worktree_path (others n st) ≡ some (some source)
      → (p : Store × CustodyRecord)
      → lazy_expire json clock others (n + 1) source input.now (others n st) ≡ p
      → Left n st (release_in json clock others p.1.state (n + 1 + 1) input handoff p.1 p.0)
  release_expired-Left n st source read (st1, r1) e = by_state r1.state refl
    where
      by_state :
          (s : CustodyState)
          → r1.state ≡ s
          → Left n st (release_in json clock others s (n + 1 + 1) input handoff r1 st1)
      by_state held h =
          let (runs, same) =
            lazy_expire-held json clock others (n + 1) source input.now (others n st)
              (ap (λ p. p.1.state) e ∙ h) in
          let is_pair = sym same ∙ e in
          subst
            (λ p. Left n st (release_in json clock others held (n + 1 + 1) input handoff p.1 p.0))
            is_pair (release_held-Left n st source read (ap (λ p. p.1.state) is_pair ∙ h) runs)
      by_state unowned h = tt
      by_state released h = tt
      by_state forfeited h = tt

  release_attempt-Left :
      (n : ℕ) (st : Store) → Left n st (release_attempt json clock others n input handoff st)
  release_attempt-Left n st =
      by_read (read_record json clock others input.worktree_path (others n st)) refl
    where
      by_read :
          (o : Option (Option CustodyRecord))
          → read_record json clock others input.worktree_path (others n st) ≡ o
          → Left n st (release_read json clock others (n + 1) input handoff o (others n st))
      by_read none e = tt
      by_read (some none) e = tt
      by_read (some (some r)) e = release_expired-Left n st r e _ refl

  -- Of the two attempts, the first on the hash as it was, and the second on what the first left.
  abbrev pub IsReleaseOf : Store → Store → CustodyRecord → Type 0
  IsReleaseOf st st' r =
      IsReleaseAt 0 st st' r
      ⊎ IsReleaseAt 3 (release_attempt json clock others 0 input handoff st).0 st' r

  pub release_again-Left :
      (st st' : Store) (r : CustodyRecord) (p : Store × Attempt)
      → release_attempt json clock others 0 input handoff st ≡ p
      → release_again json clock others 1 input handoff p ≡ (st', ok r)
      → IsReleaseOf st st' r
  release_again-Left st st' r (st1, answered a) e k =
      inl (subst (Left 0 st) (e ∙ λ i. ((k i).0, answered (k i).1)) (release_attempt-Left 0 st))
  release_again-Left st st' r (st1, raced) e k = inr (
      second (release_attempt json clock others 3 input handoff st1)
        (subst (λ s. Left 3 s (release_attempt json clock others 3 input handoff st1)) (sym first)
          (release_attempt-Left 3 st1))
        k)
    where
      first : (release_attempt json clock others 0 input handoff st).0 ≡ st1
      first = ap store_of e

      second :
          (q : Store × Attempt)
          → Left 3 (release_attempt json clock others 0 input handoff st).0 q
          → release_again json clock others 0 input handoff q ≡ (st', ok r)
          → IsReleaseAt 3 (release_attempt json clock others 0 input handoff st).0 st' r
      second (st2, answered a) l k =
          subst (Left 3 (release_attempt json clock others 0 input handoff st).0)
            (λ i. ((k i).0, answered (k i).1)) l
      second (st2, raced) l k = absurd (exhausted (others 6 st2) k)
        where
          refused_by : (b : Bool) → (if b then refuse not_held else err not_custodian) ≡ ok r → ⊥
          refused_by true h = ground arith
          refused_by false h = ground arith

          by_state :
              (s : CustodyState) (c : Option CustodianIdentity)
              → release_refused json clock others s c input.session_id ≡ ok r
              → ⊥
          by_state held c h = refused_by (is_custodian json clock others c input.session_id) h
          by_state unowned c h = ground arith
          by_state released c h = ground arith
          by_state forfeited c h = ground arith

          not_ok :
              (o : Option (Option CustodyRecord))
              → release_exhausted json clock others input.session_id o ≡ ok r
              → ⊥
          not_ok none h = ground arith
          not_ok (some none) h = ground arith
          not_ok (some (some c)) h = by_state c.state c.custodian h

          exhausted :
              (now : Store)
              → ◌≡◌ {A = Store × Outcome StoreCode CustodyRecord}
                  (
                    now,
                    release_exhausted json clock others input.session_id
                        (read_record json clock others input.worktree_path now),
                  )
                  (st', ok r)
              → ⊥
          exhausted now h =
              not_ok (read_record json clock others input.worktree_path now) (ap (λ q. q.1) h)
