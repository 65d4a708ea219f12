-- ===== src/Custody/Store/Claim.antt =====
-- `claim` of src/core/custody-store.ts.
pub mod Sound
pub mod Laws
use gptqueue.Prelude.{
  ℕ, zero, suc, ◌+◌, ◌*◌, String, Bool, false, not, ◌&&◌, Option, none, some, List, [],
  if◌then◌else◌, is_empty, is_empty_text, all,
}
use gptqueue.Outcome.{Outcome, err, throws}
use gptqueue.Json.{JsonCodec}
use gptqueue.Claims.Codec.{Clock}
use gptqueue.Custody.Handoff.{
  already_held, takeover_requires_inventory, forfeited_requires_takeover,
}
use gptqueue.Custody.Model.{
  CustodyState, held, forfeited, CustodianIdentity, WorktreeIdentity, CustodyRecord, claim, assume,
  create_custody, transition_custody,
}
use gptqueue.Custody.Store.Read.{state_text}
use gptqueue.Custody.Store.{
  Store, StoreCode, store_corrupt, Attempt, answered, raced, refuse, conditional_set, read_record,
  lazy_expire, persist,
}

pub record CustodyClaimInput : Type 0 where
  pub worktree : WorktreeIdentity
  pub lease_seconds : ℕ
  pub inventory : Option (List String)
  pub custodian : CustodianIdentity
  pub now : String

abbrev pub inventory_of : Option (List String) → List String
inventory_of none = []
inventory_of (some xs) = xs

abbrev pub is_valid_inventory : Option (List String) → Bool
is_valid_inventory none = false
is_valid_inventory (some xs) = not (is_empty xs) && all (λ s. not (is_empty_text s)) xs

module _ (json : JsonCodec) (clock : Clock) (others : ℕ → Store → Store) where
  abbrev pub lease_end : CustodyClaimInput → Option ℕ → Option String
  lease_end input none = none
  lease_end input (some now) = clock.to_iso (now + input.lease_seconds * 1000)

  -- An attempt to claim a record that was read, and expired if its lease had passed.
  abbrev pub claim_in :
      CustodyState → ℕ → CustodyClaimInput → String → CustodyRecord → Store → Store × Attempt
  claim_in held n input lease r st = (st, answered (refuse already_held))
  claim_in forfeited n input lease r st =
      if is_valid_inventory input.inventory
      then persist json clock others n input.worktree.worktree_path
          (transition_custody clock.date_parse r
            (assume input.custodian lease (inventory_of input.inventory) (some input.now)))
          (state_text r.state) String.[] st
      else (st, answered (refuse takeover_requires_inventory))
  claim_in _ n input lease r st =
      persist json clock others n input.worktree.worktree_path
        (transition_custody clock.date_parse r (claim input.custodian lease (some input.now)))
        (state_text r.state) String.[] st

  abbrev pub claim_expired :
      ℕ → CustodyClaimInput → String → Store × CustodyRecord → Store × Attempt
  claim_expired n input lease (st, r) = claim_in r.state n input lease r st

  abbrev pub claim_read :
      ℕ → CustodyClaimInput → String → Option (Option CustodyRecord) → Store → Store × Attempt
  claim_read n input lease none st = (st, answered (err store_corrupt))
  claim_read n input lease (some none) st =
      persist json clock others n input.worktree.worktree_path
        (transition_custody clock.date_parse (create_custody input.worktree)
          (claim input.custodian lease (some input.now)))
        "ABSENT" String.[] st
  claim_read n input lease (some (some r)) st =
      claim_expired (n + 1) input lease (lazy_expire json clock others n r input.now st)

  -- An attempt makes at most three calls, from number `n` on.
  abbrev pub claim_attempt : ℕ → CustodyClaimInput → String → Store → Store × Attempt
  claim_attempt n input lease st =
      let now = others n st in
      claim_read (n + 1) input lease
        (read_record json clock others input.worktree.worktree_path now) now

  abbrev pub claim_refused : CustodyState → Outcome StoreCode CustodyRecord
  claim_refused forfeited = refuse forfeited_requires_takeover
  claim_refused _ = refuse already_held

  abbrev pub claim_exhausted : Option (Option CustodyRecord) → Outcome StoreCode CustodyRecord
  claim_exhausted none = err store_corrupt
  claim_exhausted (some none) = refuse already_held
  claim_exhausted (some (some r)) = claim_refused r.state

  abbrev pub claim_again :
      ℕ → CustodyClaimInput → String → Store × Attempt → Store × Outcome StoreCode CustodyRecord
  claim_again zero input lease (st, raced) =
      let now = others 6 st in
      (now, claim_exhausted (read_record json clock others input.worktree.worktree_path now))
  claim_again (suc more) input lease (st, raced) =
      claim_again more input lease (claim_attempt 3 input lease st)
  claim_again more input lease (st, answered a) = (st, a)

  abbrev pub claim_until :
      CustodyClaimInput → Option String → Store → Store × Outcome StoreCode CustodyRecord
  claim_until input none st = (st, throws)
  claim_until input (some lease) st = claim_again 1 input lease (claim_attempt 0 input lease st)

  unfoldable pub claim_worktree :
      CustodyClaimInput → Store → Store × Outcome StoreCode CustodyRecord
  unfolding read_record lazy_expire conditional_set
  claim_worktree input st = claim_until input (lease_end input (clock.date_parse input.now)) st
