-- ===== src/Sessions/Timer.antt =====
-- The timer of src/core/session-store.ts that refreshes one session's lease, and `closeSession` with
-- it. An interval of the timer is a step of its own.
use gptqueue.Prelude.{
  ◌≡◌, refl, ap, sym, ◌∙◌, arith, is_empty_text, lookup, lookup-put, str_eq_iff, ℕ, String, Bool,
  true, false, Option, none, some, if◌then◌else◌, str_eq,
}
use gptqueue.Sessions.{
  SessionRecord, refreshed, refresh_record, State, refresh_lease, close_session,
}

pub record Refresher : Type 0 where
  pub is_running : Bool
  pub refresh_session_id : Option String

-- `stopLeaseRefresh`
abbrev pub stopped : Refresher
stopped = record { is_running = false; refresh_session_id = none }

-- `startLeaseRefresh`, with the refresh that it begins by.
unfoldable pub start_lease_refresh : ℕ → (now sid : String) → State → State × Refresher
unfolding refresh_lease
start_lease_refresh time now sid st =
    ((refresh_lease time now sid st).0, record { is_running = true; refresh_session_id = some sid })

abbrev pub refresh_of : ℕ → String → Option String → State → State
refresh_of time now none st = st
refresh_of time now (some sid) st = (refresh_lease time now sid st).0

-- An interval that ends.
unfoldable pub tick : ℕ → (now : String) → Refresher → State → State
unfolding refresh_lease
tick time now r st = if r.is_running then refresh_of time now r.refresh_session_id st else st

abbrev pub is_refreshing : Option String → String → Bool
is_refreshing none sid = false
is_refreshing (some s) sid = str_eq s sid

abbrev pub after_close : String → Refresher → Refresher
after_close sid r = if is_refreshing r.refresh_session_id sid then stopped else r

-- `closeSession`
unfoldable pub close :
    (ℕ → State → State) → String → Refresher → State → Refresher × (State × Option String)
unfolding close_session
close others sid r st = (after_close sid r, close_session others sid st)

abbrev state_of : State × Bool → State
state_of p = p.0

refresh-absent :
    (time : ℕ) (now s sid : String) (st : State)
    → lookup sid st.sessions ≡ none
    → lookup sid (refresh_lease time now s st).0.sessions ≡ none
unfolding refresh_lease
refresh-absent time now s sid st absent = by_record (lookup s st.sessions) refl
  where
    kept :
        (c : Bool) (r : SessionRecord)
        → (c ≡ true → lookup s st.sessions ≡ none)
        → lookup s st.sessions ≡ some r
        → (if c then some (record r { last_seen = now }) else lookup sid st.sessions) ≡ none
    kept true r clash there = absurd (nothing (sym (clash refl) ∙ there))
      where
        nothing : ◌≡◌ {A = Option SessionRecord} none (some r) → ⊥
        nothing e = ground arith
    kept false r clash there = absent

    by_empty :
        (b : Bool) (r : SessionRecord)
        → lookup s st.sessions ≡ some r
        → lookup sid
            (state_of (if b then (st, false) else (refreshed time now s r st, true))).sessions
          ≡ none
    by_empty true r there = absent
    by_empty false r there =
        lookup-put s sid (record r { last_seen = now }) st.sessions
        ∙ kept (str_eq s sid) r
            (λ e. ap (λ k. lookup k st.sessions) ((str_eq_iff s sid).0 e) ∙ absent) there

    by_record :
        (o : Option SessionRecord)
        → lookup s st.sessions ≡ o
        → lookup sid (refresh_record time now s o st).0.sessions ≡ none
    by_record none e = absent
    by_record (some r) e = by_empty (is_empty_text r.agent_name) r e

-- The timer brings back no session that has no record.
pub tick-absent :
    (time : ℕ) (now sid : String) (r : Refresher) (st : State)
    → lookup sid st.sessions ≡ none
    → lookup sid (tick time now r st).sessions ≡ none
unfolding tick
tick-absent time now sid r st absent = by_running r.is_running r.refresh_session_id
  where
    by_running :
        (b : Bool) (o : Option String)
        → lookup sid (if b then refresh_of time now o st else st).sessions ≡ none
    by_running true none = absent
    by_running true (some s) = refresh-absent time now s sid st absent
    by_running false o = absent
