-- ===== src/Custody/Store/Read.antt =====
-- How src/core/custody-store.ts reads a stored record, `storedCustodySchema`, and writes one. A zod
-- schema stands for the checks that it names. `mode` and `acquired_at` are not checked by the
-- source; a value of theirs that is no text of a record is read as absent here. Fields that the
-- schema does not name, which the source keeps, are dropped.
pub mod Laws
use gptqueue.Prelude.{
  String, Bool, true, false, not, ◌&&◌, Option, none, some, if◌then◌else◌, str_eq, is_empty_text,
  is_some,
}
use gptqueue.Value.{Value, undefined, str, arr, obj, field, end, prop, as_str}
use gptqueue.Outcome.{Outcome, ok}
use gptqueue.Json.{optional}
use gptqueue.Custody.Handoff.{HandoffRecord, CustodyErrorCode, admit_handoff_record}
use gptqueue.Custody.Handoff.Laws.{to_value}
use gptqueue.Custody.Model.{
  CustodyState, unowned, held, released, forfeited, CustodyAcquisitionMode, initial,
  graceful_handoff, successor_takeover, CustodianIdentity, WorktreeIdentity, CustodyRecord,
}

abbrev pub state_text : CustodyState → String
state_text unowned = "unowned"
state_text held = "held"
state_text released = "released"
state_text forfeited = "forfeited"

abbrev pub state_of_text : String → Option CustodyState
state_of_text s =
    if str_eq s "unowned"
    then some unowned
    else if str_eq s "held"
    then some held
    else if str_eq s "released"
    then some released
    else if str_eq s "forfeited"
    then some forfeited
    else none

abbrev pub mode_text : CustodyAcquisitionMode → String
mode_text initial = "initial"
mode_text graceful_handoff = "graceful_handoff"
mode_text successor_takeover = "successor_takeover"

abbrev pub mode_of_text : String → Option CustodyAcquisitionMode
mode_of_text s =
    if str_eq s "initial"
    then some initial
    else if str_eq s "graceful_handoff"
    then some graceful_handoff
    else if str_eq s "successor_takeover"
    then some successor_takeover
    else none

infixl 5 ◌>>=◌ ◌>>◌
abbrev pub ◌>>=◌ : {A B : Type 0} → Option A → (A → Option B) → Option B
none >>= f = none
some a >>= f = f a

abbrev pub ◌>>◌ : {B : Type 0} → Option (Unit {0}) → Option B → Option B
m >> k = m >>= λ _. k

abbrev pub check : Bool → Option (Unit {0})
check true = some tt
check false = none

-- `.optional()`: the value is undefined, or is read by `f`.
abbrev pub optionally : {A : Type 0} → (Value → Option A) → Value → Option (Option A)
optionally f undefined = some none
optionally f v = f v >>= λ a. some (some a)

abbrev pub state_of : Value → Option CustodyState
state_of v = as_str v >>= state_of_text

abbrev pub mode_of : Value → Option CustodyAcquisitionMode
mode_of v = as_str v >>= mode_of_text

-- `z.object`: an array is none.
abbrev pub is_object : Value → Bool
is_object (obj fs) = true
is_object _ = false

abbrev pub worktree_of : Value → Option WorktreeIdentity
worktree_of v = do
  check (is_object v)
  path ← as_str (prop "worktree_path" v)
  check (not (is_empty_text path))
  head ← as_str (prop "repo_head" v)
  fingerprint ← as_str (prop "tree_fingerprint" v)
  some (record { worktree_path = path; repo_head = head; tree_fingerprint = fingerprint })

abbrev pub custodian_of : Value → Option CustodianIdentity
custodian_of v = do
  check (is_object v)
  actor ← as_str (prop "actor_name" v)
  session ← as_str (prop "session_id" v)
  some (record { actor_name = actor; session_id = session })

abbrev pub admitted_of : Outcome CustodyErrorCode HandoffRecord → Option HandoffRecord
admitted_of (ok h) = some h
admitted_of _ = none

abbrev pub is_array : Value → Bool
is_array (arr xs) = true
is_array _ = false

-- `isStoredHandoff`
abbrev pub handoff_of : Value → Option HandoffRecord
handoff_of v = do check (is_array (prop "hazards" v)); admitted_of (admit_handoff_record v)

-- The refinements of the schema.
abbrev pub is_complete : CustodyState → Bool → Bool → Bool → Bool
is_complete held custodian lease handoff = custodian && lease
is_complete released custodian lease handoff = handoff
is_complete _ custodian lease handoff = true

unfoldable pub record_of : Value → Option CustodyRecord
record_of v = do
  check (is_object v)
  state ← state_of (prop "state" v)
  worktree ← worktree_of (prop "worktree" v)
  custodian ← optionally custodian_of (prop "custodian" v)
  lease ← optionally as_str (prop "lease_expires_at" v)
  handoff ← optionally handoff_of (prop "handoff" v)
  check (is_complete state (is_some custodian) (is_some lease) (is_some handoff))
  some (record {
    state = state;
    worktree = worktree;
    custodian = custodian;
    mode = mode_of (prop "mode" v);
    acquired_at = as_str (prop "acquired_at" v);
    lease_expires_at = lease;
    handoff = handoff;
  })

-- `parseStored`; `none` stands for a corrupt value.
unfoldable pub parse_stored : Option Value → Option CustodyRecord
unfolding record_of
parse_stored o = o >>= record_of

abbrev pub mapped : {A : Type 0} → (A → Value) → Option A → Option Value
mapped f none = none
mapped f (some a) = some (f a)

abbrev pub worktree_value : WorktreeIdentity → Value
worktree_value w = obj (
    field "worktree_path" (str w.worktree_path)
      (field "repo_head" (str w.repo_head) (field "tree_fingerprint" (str w.tree_fingerprint) end)))

abbrev pub custodian_value : CustodianIdentity → Value
custodian_value c =
    obj (field "actor_name" (str c.actor_name) (field "session_id" (str c.session_id) end))

-- What `JSON.stringify` is given: a field that is undefined is left out.
unfoldable pub custody_value : CustodyRecord → Value
custody_value r = obj (
    field "state" (str (state_text r.state)) (
      field "worktree" (worktree_value r.worktree) (
        optional "custodian" (mapped custodian_value r.custodian) (
          optional "mode" (mapped (λ m. str (mode_text m)) r.mode) (
            optional "acquired_at" (mapped str r.acquired_at) (
              optional "lease_expires_at" (mapped str r.lease_expires_at)
                (optional "handoff" (mapped to_value r.handoff) end)))))))
