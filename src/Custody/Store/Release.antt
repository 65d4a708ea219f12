-- ===== src/Custody/Store/Release.antt =====
-- `release` of src/core/custody-store.ts.
pub mod Attempts
pub mod Sound
pub mod Laws
use gptqueue.Prelude.{
  ℕ, zero, suc, ◌+◌, String, Bool, false, Option, none, some, if◌then◌else◌, str_eq,
}
use gptqueue.Value.{Value}
use gptqueue.Outcome.{Outcome, ok, err, throws}
use gptqueue.Json.{JsonCodec}
use gptqueue.Claims.Codec.{Clock}
use gptqueue.Custody.Handoff.{HandoffRecord, CustodyErrorCode, not_held, admit_handoff_record}
use gptqueue.Custody.Handoff.Laws.{to_value}
use gptqueue.Custody.Model.{
  CustodyState, held, CustodianIdentity, CustodyRecord, release, transition_custody,
}
use gptqueue.Custody.Store.{
  Store, StoreCode, not_custodian, store_corrupt, Attempt, answered, raced, refuse, conditional_set,
  read_record, lazy_expire, persist,
}

pub record CustodyReleaseInput : Type 0 where
  pub worktree_path : String
  pub actor_name : String
  pub session_id : String
  pub handoff : Value
  pub now : String

module _ (json : JsonCodec) (clock : Clock) (others : ℕ → Store → Store) where
  abbrev pub is_custodian : Option CustodianIdentity → String → Bool
  is_custodian none session = false
  is_custodian (some c) session = str_eq c.session_id session

  abbrev pub release_in :
      CustodyState
      → ℕ
      → CustodyReleaseInput
      → HandoffRecord
      → CustodyRecord
      → Store
      → Store × Attempt
  release_in held n input handoff r st =
      if is_custodian r.custodian input.session_id
      then persist json clock others n input.worktree_path
          (transition_custody clock.date_parse r (release (to_value handoff))) "held"
          input.session_id st
      else (st, answered (err not_custodian))
  release_in _ n input handoff r st = (st, answered (refuse not_held))

  abbrev pub release_expired :
      ℕ → CustodyReleaseInput → HandoffRecord → Store × CustodyRecord → Store × Attempt
  release_expired n input handoff (st, r) = release_in r.state n input handoff r st

  abbrev pub release_read :
      ℕ
      → CustodyReleaseInput
      → HandoffRecord
      → Option (Option CustodyRecord)
      → Store
      → Store × Attempt
  release_read n input handoff none st = (st, answered (err store_corrupt))
  release_read n input handoff (some none) st = (st, answered (refuse not_held))
  release_read n input handoff (some (some r)) st =
      release_expired (n + 1) input handoff (lazy_expire json clock others n r input.now st)

  abbrev pub release_attempt : ℕ → CustodyReleaseInput → HandoffRecord → Store → Store × Attempt
  release_attempt n input handoff st =
      let now = others n st in
      release_read (n + 1) input handoff (read_record json clock others input.worktree_path now) now

  abbrev pub release_refused :
      CustodyState → Option CustodianIdentity → String → Outcome StoreCode CustodyRecord
  release_refused held custodian session =
      if is_custodian custodian session then refuse not_held else err not_custodian
  release_refused _ custodian session = refuse not_held

  abbrev pub release_exhausted :
      String → Option (Option CustodyRecord) → Outcome StoreCode CustodyRecord
  release_exhausted session none = err store_corrupt
  release_exhausted session (some none) = refuse not_held
  release_exhausted session (some (some r)) = release_refused r.state r.custodian session

  abbrev pub release_again :
      ℕ
      → CustodyReleaseInput
      → HandoffRecord
      → Store × Attempt
      → Store × Outcome StoreCode CustodyRecord
  release_again zero input handoff (st, raced) =
      let now = others 6 st in
      (
        now,
        release_exhausted input.session_id (read_record json clock others input.worktree_path now),
      )
  release_again (suc more) input handoff (st, raced) =
      release_again more input handoff (release_attempt 3 input handoff st)
  release_again more input handoff (st, answered a) = (st, a)

  abbrev pub release_admitted :
      CustodyReleaseInput
      → Outcome CustodyErrorCode HandoffRecord
      → Store
      → Store × Outcome StoreCode CustodyRecord
  release_admitted input (ok handoff) st =
      release_again 1 input handoff (release_attempt 0 input handoff st)
  release_admitted input (err e) st = (st, refuse e)
  release_admitted input throws st = (st, throws)

  unfoldable pub release_worktree :
      CustodyReleaseInput → Store → Store × Outcome StoreCode CustodyRecord
  unfolding read_record lazy_expire conditional_set
  release_worktree input st = release_admitted input (admit_handoff_record input.handoff) st
