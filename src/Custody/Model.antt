-- ===== src/Custody/Model.antt =====
-- `createCustody` and `transitionCustody` of src/core/custody-model.ts. The instants of a lease are
-- texts; `Date.parse` is the parameter `date_parse`, which answers in milliseconds, `none` for NaN.
pub mod Laws
use gptqueue.Prelude.{
  [], ◌∷◌, ℕ, String, Bool, true, not, ◌&&◌, Option, none, some, List, if◌then◌else◌, leb,
  is_empty_text, is_empty, all,
}
use gptqueue.Value.{Value}
use gptqueue.Outcome.{Outcome, ok, err, ◌>>=◌}
use gptqueue.Custody.Handoff.{
  HandoffRecord, CustodyErrorCode, already_held, forfeited_requires_takeover, invalid_custodian,
  takeover_requires_inventory, takeover_requires_forfeited, not_held, invalid_timestamp,
  admit_handoff_record,
}

pub data CustodyState : Type 0 where
  unowned held released forfeited : CustodyState

pub data CustodyAcquisitionMode : Type 0 where
  initial graceful_handoff successor_takeover : CustodyAcquisitionMode

pub record CustodianIdentity : Type 0 where
  pub actor_name : String
  pub session_id : String

pub record WorktreeIdentity : Type 0 where
  pub worktree_path : String
  pub repo_head : String
  pub tree_fingerprint : String

pub record CustodyRecord : Type 0 where
  pub state : CustodyState
  pub worktree : WorktreeIdentity
  pub custodian : Option CustodianIdentity
  pub mode : Option CustodyAcquisitionMode
  pub acquired_at : Option String
  pub lease_expires_at : Option String
  pub handoff : Option HandoffRecord

pub data CustodyEvent : Type 0 where
  claim :
      (custodian : CustodianIdentity) (lease : String) (acquired_at : Option String) → CustodyEvent
  assume :
      (custodian : CustodianIdentity) (lease : String) (inventory : List String)
      (acquired_at : Option String)
      → CustodyEvent
  release : (handoff : Value) → CustodyEvent
  expire : (now : String) → CustodyEvent

abbrev pub is_valid_custodian : CustodianIdentity → Bool
is_valid_custodian c = not (is_empty_text c.actor_name) && not (is_empty_text c.session_id)

-- `acquiredAt === undefined || acquiredAt.length > 0`
abbrev pub is_valid_instant : Option String → Bool
is_valid_instant none = true
is_valid_instant (some s) = not (is_empty_text s)

-- The guard that `claim` and `assume` share.
abbrev pub is_valid_claim : CustodianIdentity → String → Option String → Bool
is_valid_claim c lease acquired =
    is_valid_custodian c && not (is_empty_text lease) && is_valid_instant acquired

unfoldable pub create_custody : WorktreeIdentity → CustodyRecord
create_custody w = record {
  state = unowned;
  worktree = w;
  custodian = none;
  mode = none;
  acquired_at = none;
  lease_expires_at = none;
  handoff = none;
}

abbrev pub Transition : Type 0
Transition = Outcome CustodyErrorCode CustodyRecord

abbrev pub hold :
    CustodyRecord
    → CustodianIdentity
    → CustodyAcquisitionMode
    → String
    → Option String
    → CustodyRecord
hold r c m lease acquired = record r {
  state = held;
  custodian = some c;
  mode = some m;
  lease_expires_at = some lease;
  acquired_at = acquired;
}

-- A record that nobody holds any more: every field that only a holder has is dropped.
abbrev pub unhold : CustodyRecord → CustodyState → Option HandoffRecord → CustodyRecord
unhold r s h = record r {
  state = s;
  custodian = none;
  mode = none;
  acquired_at = none;
  lease_expires_at = none;
  handoff = h;
}

unfoldable pub claim_from :
    CustodyState → CustodyRecord → CustodianIdentity → String → Option String → Transition
claim_from held r c lease acquired = err already_held
claim_from forfeited r c lease acquired = err forfeited_requires_takeover
claim_from unowned r c lease acquired =
    if is_valid_claim c lease acquired
    then ok (hold r c initial lease acquired)
    else err invalid_custodian
claim_from released r c lease acquired =
    if is_valid_claim c lease acquired
    then ok (hold r c graceful_handoff lease acquired)
    else err invalid_custodian

unfoldable pub assume_from :
    CustodyState
    → CustodyRecord
    → CustodianIdentity
    → String
    → List String
    → Option String
    → Transition
assume_from forfeited r c lease inventory acquired =
    if not (is_valid_claim c lease acquired)
    then err invalid_custodian
    else if is_empty inventory
    then err takeover_requires_inventory
    else if all (λ entry. not (is_empty_text entry)) inventory
    then ok (hold r c successor_takeover lease acquired)
    else err takeover_requires_inventory
assume_from _ r c lease inventory acquired = err takeover_requires_forfeited

unfoldable pub release_from : CustodyState → CustodyRecord → Value → Transition
release_from held r handoff = do
  admitted ← admit_handoff_record handoff
  ok (unhold r released (some admitted))
release_from _ r handoff = err not_held

unfoldable pub expire_at : CustodyRecord → Option ℕ → Option ℕ → Transition
expire_at r (some now) (some lease) =
    if leb now lease then ok r else ok (unhold r forfeited r.handoff)
expire_at r _ _ = err invalid_timestamp

unfoldable pub expire_from :
    (String → Option ℕ) → CustodyState → CustodyRecord → Option String → String → Transition
unfolding expire_at
expire_from date_parse held r none now = err invalid_timestamp
expire_from date_parse held r (some lease) now = expire_at r (date_parse now) (date_parse lease)
expire_from date_parse _ r lease now = ok r

unfoldable pub transition_custody : (String → Option ℕ) → CustodyRecord → CustodyEvent → Transition
unfolding claim_from assume_from release_from expire_from
transition_custody date_parse r (claim c lease acquired) = claim_from r.state r c lease acquired
transition_custody date_parse r (assume c lease inventory acquired) =
    assume_from r.state r c lease inventory acquired
transition_custody date_parse r (release handoff) = release_from r.state r handoff
transition_custody date_parse r (expire now) =
    expire_from date_parse r.state r r.lease_expires_at now

-- A history: an event that is refused leaves the record as it was.
abbrev pub after : CustodyRecord → Transition → CustodyRecord
after r (ok r') = r'
after r _ = r

pub run : (String → Option ℕ) → CustodyRecord → List CustodyEvent → CustodyRecord
run date_parse r [] = r
run date_parse r (e ∷ es) = run date_parse (after r (transition_custody date_parse r e)) es
