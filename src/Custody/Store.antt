-- ===== src/Custody/Store.antt =====
-- src/core/custody-store.ts and src/mcp-server/lua/custody-conditional-set.lua. Between any two calls
-- of Redis that an operation makes, other clients may change the hash `gptq:custody`: `others n`
-- is what they do before the operation's call number `n`.
pub mod Read
pub mod Claim
pub mod Release
pub mod Status
pub mod Laws
pub mod Calls
pub mod Grants
pub mod Races
use gptqueue.Prelude.{
  ℕ, zero, suc, ◌+◌, ◌*◌, String, Bool, true, false, not, ◌&&◌, ◌||◌, Option, none, some, List, [],
  ◌∷◌, if◌then◌else◌, leb, str_eq, is_empty, is_empty_text, all, Dict, lookup, put,
}
use gptqueue.Value.{Value, obj, arr, str, field, end, prop, as_str, is_record, is_text}
use gptqueue.Outcome.{Outcome, ok, err, throws}
use gptqueue.Json.{JsonCodec, optional}
use gptqueue.Claims.Codec.{Clock}
use gptqueue.Custody.Handoff.{
  HandoffRecord, CustodyErrorCode, not_held, already_held, admit_handoff_record,
  takeover_requires_inventory, forfeited_requires_takeover,
}
use gptqueue.Custody.Handoff.Laws.{to_value}
use gptqueue.Custody.Model.{
  CustodyState, unowned, held, released, forfeited, CustodianIdentity, WorktreeIdentity,
  CustodyRecord, CustodyEvent, claim, assume, release, expire, create_custody, transition_custody,
  Transition,
}
use Read.{parse_stored, custody_value, state_text}

pub data StoreCode : Type 0 where
  custody : CustodyErrorCode → StoreCode
  not_custodian store_corrupt : StoreCode

-- Field: worktree path; value: the text of a record.
abbrev pub Store : Type 0
Store = Dict String

-- How an attempt ends: with an answer, or with a precondition that failed.
pub data Attempt : Type 0 where
  answered : Outcome StoreCode CustodyRecord → Attempt
  raced : Attempt

abbrev pub of_model : Transition → Outcome StoreCode CustodyRecord
of_model (ok r) = ok r
of_model (err e) = err (custody e)
of_model throws = throws

abbrev pub refuse : CustodyErrorCode → Outcome StoreCode CustodyRecord
refuse e = err (custody e)

abbrev pub read_as : Option CustodyRecord → Option (Option CustodyRecord)
read_as none = none
read_as (some r) = some (some r)

module _ (json : JsonCodec) (clock : Clock) (others : ℕ → Store → Store) where
  -- The test of the script on the value that is stored.
  abbrev pub has_state : Option Value → String → String → Bool
  has_state none state session = false
  has_state (some v) state session =
      is_record v
      && is_text (prop "state" v) state
      && (is_empty_text session || is_text (prop "session_id" (prop "custodian" v)) session)

  abbrev pub may_set : Option String → String → String → Bool
  may_set none state session = str_eq state "ABSENT"
  may_set (some raw) state session = has_state (json.decode raw) state session

  -- custody-conditional-set.lua; an empty `session` disables its check.
  unfoldable pub conditional_set : String → CustodyRecord → String → String → Store → Store × Bool
  conditional_set path r state session st =
      if may_set (lookup path st) state session
      then (put path (json.encode (custody_value r)) st, true)
      else (st, false)

  abbrev pub read_of : Option String → Option (Option CustodyRecord)
  read_of none = some none
  read_of (some raw) = read_as (parse_stored (json.decode raw))

  -- `none` for a corrupt value, `some none` for an absent one.
  unfoldable pub read_record : String → Store → Option (Option CustodyRecord)
  read_record path st = read_of (lookup path st)

  abbrev pub passed : Option ℕ → Option ℕ → Bool
  passed (some lease) (some now) = not (leb now lease)
  passed _ _ = false

  abbrev pub lapsed_lease : Option String → String → Bool
  lapsed_lease none now = false
  lapsed_lease (some lease) now = passed (clock.date_parse lease) (clock.date_parse now)

  abbrev pub lapsed_in : CustodyState → Option String → String → Bool
  lapsed_in held lease now = lapsed_lease lease now
  lapsed_in _ lease now = false

  abbrev pub is_lapsed : CustodyRecord → String → Bool
  is_lapsed r now = lapsed_in r.state r.lease_expires_at now

  abbrev pub forfeit_as :
      CustodyState → ℕ → CustodyRecord → CustodyRecord → Store → Store × CustodyRecord
  forfeit_as forfeited n r r' st =
      ((conditional_set r.worktree.worktree_path r' "held" String.[] (others n st)).0, r')
  forfeit_as _ n r r' st = (st, r)

  abbrev pub forfeit : ℕ → CustodyRecord → Transition → Store → Store × CustodyRecord
  forfeit n r (ok r') st = forfeit_as r'.state n r r' st
  forfeit n r _ st = (st, r)

  unfoldable pub lazy_expire : ℕ → CustodyRecord → String → Store → Store × CustodyRecord
  unfolding conditional_set
  lazy_expire n r now st =
      if is_lapsed r now
      then forfeit n r (transition_custody clock.date_parse r (expire now)) st
      else (st, r)

  -- The last step of each attempt: the new record is written if the precondition still holds.
  abbrev pub persisted : CustodyRecord → Store × Bool → Store × Attempt
  persisted r (st, true) = (st, answered (ok r))
  persisted r (st, false) = (st, raced)

  abbrev pub persist : ℕ → String → Transition → String → String → Store → Store × Attempt
  persist n path (ok r) state session st =
      persisted r (conditional_set path r state session (others n st))
  persist n path t state session st = (st, answered (of_model t))
