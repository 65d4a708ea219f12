-- ===== src/Custody/Store/Claim/Sound.antt =====
-- `claim` of src/core/custody-store.ts and the texts in the hash.
use gptqueue.Prelude.{
  ℕ, zero, suc, ◌+◌, String, false, Option, none, some, ◌≡◌, refl, ap, ◌∙◌, is_empty_text,
}
use gptqueue.Json.{JsonCodec}
use gptqueue.Claims.Codec.{Clock}
use gptqueue.Custody.Model.{
  CustodyState, unowned, held, released, forfeited, WorktreeIdentity, CustodyRecord, claim, assume,
  create_custody,
}
use gptqueue.Custody.Store.Read.{state_text}
use gptqueue.Custody.Store.Laws.{
  IsSound, AreHonest, create-IsStored, read-IsStored, transition_set, lazy_expire-IsExpired,
}
use gptqueue.Custody.Store.Read.Laws.{IsStored}
use gptqueue.Custody.Store.{Store, Attempt, answered, raced, read_record}
use gptqueue.Custody.Store.Claim.{
  CustodyClaimInput, claim_in, claim_read, claim_attempt, claim_again, claim_until,
  is_valid_inventory, inventory_of,
}
use gptqueue.Custody.Store.Laws.{either-IsSound}

create_path : (w : WorktreeIdentity) → (create_custody w).worktree.worktree_path ≡ w.worktree_path
unfolding create_custody
create_path w = refl

module _ (json : JsonCodec) (clock : Clock) (others : ℕ → Store → Store)
    (honest : AreHonest json others) where
  claim_in-IsSound :
      (s : CustodyState) (n : ℕ) (input : CustodyClaimInput) (lease : String) (r : CustodyRecord)
      (st : Store)
      → IsSound json st
      → IsStored r
      → r.worktree.worktree_path ≡ input.worktree.worktree_path
      → IsSound json (claim_in json clock others s n input lease r st).0
  claim_in-IsSound held n input lease r st s stored same = s
  claim_in-IsSound forfeited n input lease r st s stored same =
      either-IsSound json (is_valid_inventory input.inventory) _ _
        (transition_set json clock others honest n input.worktree.worktree_path r
          (assume input.custodian lease (inventory_of input.inventory) (some input.now))
          (state_text r.state) String.[] st s stored same)
        s
  claim_in-IsSound unowned n input lease r st s stored same =
      transition_set json clock others honest n input.worktree.worktree_path r
        (claim input.custodian lease (some input.now)) (state_text r.state) String.[] st s stored
        same
  claim_in-IsSound released n input lease r st s stored same =
      transition_set json clock others honest n input.worktree.worktree_path r
        (claim input.custodian lease (some input.now)) (state_text r.state) String.[] st s stored
        same

  claim_read-IsSound :
      (n : ℕ) (input : CustodyClaimInput) (lease : String) (o : Option (Option CustodyRecord))
      (st : Store)
      → is_empty_text input.worktree.worktree_path ≡ false
      → IsSound json st
      → read_record json clock others input.worktree.worktree_path st ≡ o
      → IsSound json (claim_read json clock others n input lease o st).0
  claim_read-IsSound n input lease none st path s e = s
  claim_read-IsSound n input lease (some none) st path s e =
      transition_set json clock others honest n input.worktree.worktree_path
        (create_custody input.worktree) (claim input.custodian lease (some input.now)) "ABSENT"
        String.[] st s (create-IsStored input.worktree path) (create_path input.worktree)
  claim_read-IsSound n input lease (some (some r)) st path s e =
      let (stored, at_path, there) =
        read-IsStored json clock others honest input.worktree.worktree_path st r s e in
      let (sound, good, same) =
        lazy_expire-IsExpired json clock others honest n r input.now st s stored in
      claim_in-IsSound _ (n + 1) input lease _ _ sound good
        (ap (λ w. w.worktree_path) same ∙ at_path)

  claim_attempt-IsSound :
      (n : ℕ) (input : CustodyClaimInput) (lease : String) (st : Store)
      → is_empty_text input.worktree.worktree_path ≡ false
      → IsSound json st
      → IsSound json (claim_attempt json clock others n input lease st).0
  claim_attempt-IsSound n input lease st path s =
      claim_read-IsSound (n + 1) input lease _ (others n st) path (honest n st s) refl

  claim_again-IsSound :
      (more : ℕ) (input : CustodyClaimInput) (lease : String) (p : Store × Attempt)
      → is_empty_text input.worktree.worktree_path ≡ false
      → IsSound json p.0
      → IsSound json (claim_again json clock others more input lease p).0
  claim_again-IsSound zero input lease (st, raced) path s = honest 6 st s
  claim_again-IsSound (suc more) input lease (st, raced) path s =
      claim_again-IsSound more input lease _ path (claim_attempt-IsSound 3 input lease st path s)
  claim_again-IsSound zero input lease (st, answered a) path s = s
  claim_again-IsSound (suc more) input lease (st, answered a) path s = s

  pub claim-IsSound :
      (input : CustodyClaimInput) (o : Option String) (st : Store)
      → is_empty_text input.worktree.worktree_path ≡ false
      → IsSound json st
      → IsSound json (claim_until json clock others input o st).0
  claim-IsSound input none st path s = s
  claim-IsSound input (some lease) st path s =
      claim_again-IsSound 1 input lease _ path (claim_attempt-IsSound 0 input lease st path s)
