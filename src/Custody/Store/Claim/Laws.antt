-- ===== src/Custody/Store/Claim/Laws.antt =====
-- What a claim of src/core/custody-store.ts that succeeds promises, whatever other clients do.
use gptqueue.Prelude.{
  subst, ℕ, zero, suc, ◌+◌, String, true, Option, none, some, ◌≡◌, ◌⊎◌, inl, inr, refl, arith,
}
use gptqueue.Outcome.{Outcome, ok}
use gptqueue.Json.{JsonCodec}
use gptqueue.Claims.Codec.{Clock}
use gptqueue.Custody.Model.{
  CustodyState, unowned, held, released, forfeited, CustodyRecord, CustodyEvent, claim, assume,
  create_custody, transition_custody, claim_from, assume_from,
}
use gptqueue.Custody.Store.Read.{state_text}
use gptqueue.Custody.Store.{Store, StoreCode, Attempt, answered, raced, read_record}
use gptqueue.Custody.Store.Claim.{
  CustodyClaimInput, claim_in, claim_read, claim_again, is_valid_inventory, inventory_of,
  claim_refused, claim_exhausted, claim_attempt, claim_worktree, lease_end, claim_until,
}
use gptqueue.Custody.Store.Grants.{IsWritten, After, persist-After, either-After}

-- The event by which a claim takes a worktree: a list of what was found there comes with a takeover.
abbrev pub IsTaking : CustodyClaimInput → String → CustodyRecord → CustodyEvent → Type 0
IsTaking input lease source e =
    (e ≡ claim input.custodian lease (some input.now))
    ⊎ (e ≡ assume input.custodian lease (inventory_of input.inventory) (some input.now))
      × (is_valid_inventory input.inventory ≡ true)

module _ (json : JsonCodec) (clock : Clock) (others : ℕ → Store → Store) where
  module _ (input : CustodyClaimInput) (lease : String) where
    abbrev Taken : Store × Attempt → Type 0
    Taken = After json clock others (IsTaking input lease) input.worktree.worktree_path

    claim_in-Taken :
        (s : CustodyState) (n : ℕ) (r : CustodyRecord) (st : Store)
        → Taken (claim_in json clock others s n input lease r st)
    claim_in-Taken held n r st = tt
    claim_in-Taken forfeited n r st =
        either-After json clock others (IsTaking input lease) input.worktree.worktree_path
          (is_valid_inventory input.inventory) _ _
          (λ valid.
            persist-After json clock others (IsTaking input lease) n input.worktree.worktree_path r
              (assume input.custodian lease (inventory_of input.inventory) (some input.now))
              (state_text r.state) String.[] st (inr (refl, valid)))
          tt
    claim_in-Taken unowned n r st =
        persist-After json clock others (IsTaking input lease) n input.worktree.worktree_path r
          (claim input.custodian lease (some input.now)) (state_text r.state) String.[] st
          (inl refl)
    claim_in-Taken released n r st =
        persist-After json clock others (IsTaking input lease) n input.worktree.worktree_path r
          (claim input.custodian lease (some input.now)) (state_text r.state) String.[] st
          (inl refl)

    claim_read-Taken :
        (n : ℕ) (o : Option (Option CustodyRecord)) (st : Store)
        → Taken (claim_read json clock others n input lease o st)
    claim_read-Taken n none st = tt
    claim_read-Taken n (some none) st =
        persist-After json clock others (IsTaking input lease) n input.worktree.worktree_path
          (create_custody input.worktree) (claim input.custodian lease (some input.now)) "ABSENT"
          String.[] st (inl refl)
    claim_read-Taken n (some (some r)) st = claim_in-Taken _ (n + 1) _ _

    -- The same of an answer that is the last.
    abbrev TakenLast : Store × Outcome StoreCode CustodyRecord → Type 0
    TakenLast (st, a) = Taken (st, answered a)

    claim_again-Taken :
        (more : ℕ) (p : Store × Attempt)
        → Taken p
        → TakenLast (claim_again json clock others more input lease p)
    claim_again-Taken zero (st, raced) t =
        exhausted (read_record json clock others input.worktree.worktree_path (others 6 st))
      where
        by_state : (s : CustodyState) → TakenLast (others 6 st, claim_refused json clock others s)
        by_state unowned = tt
        by_state held = tt
        by_state released = tt
        by_state forfeited = tt

        exhausted :
            (o : Option (Option CustodyRecord))
            → TakenLast (others 6 st, claim_exhausted json clock others o)
        exhausted none = tt
        exhausted (some none) = tt
        exhausted (some (some r)) = by_state r.state
    claim_again-Taken (suc more) (st, raced) t =
        claim_again-Taken more (claim_attempt json clock others 3 input lease st) (
          claim_read-Taken 4
            (read_record json clock others input.worktree.worktree_path (others 3 st))
            (others 3 st))
    claim_again-Taken zero (st, answered a) t = t
    claim_again-Taken (suc more) (st, answered a) t = t

taken-IsHeld :
    (date_parse : String → Option ℕ) (input : CustodyClaimInput) (lease : String)
    (source r : CustodyRecord) (e : CustodyEvent)
    → IsTaking input lease source e
    → transition_custody date_parse source e ≡ ok r
    → (r.state ≡ held)
      × (r.custodian ≡ some input.custodian)
      × (r.lease_expires_at ≡ some lease)
      × (r.acquired_at ≡ some input.now)
      × (r.worktree ≡ source.worktree)
unfolding transition_custody claim_from assume_from
taken-IsHeld date_parse input lease source r e (inl k) h = ground (arith)
taken-IsHeld date_parse input lease source r e (inr (k, valid)) h = ground (arith)

-- A claim that succeeds leaves in the hash the record that it answers: the model makes it of some
-- record by the taking of the worktree, it is held by the caller until now plus the lease, and it was
-- forfeited only if the caller has given a valid list of what was found there.
pub claim-IsWritten :
    (json : JsonCodec) (clock : Clock) (others : ℕ → Store → Store) (input : CustodyClaimInput)
    (st st' : Store) (r : CustodyRecord)
    → claim_worktree json clock others input st ≡ (st', ok r)
    → (lease : String) × (source : CustodyRecord) × (e : CustodyEvent) × (lease_end json clock
          others input
          (clock.date_parse input.now)
        ≡ some lease)
      × IsTaking input lease source e
      × IsWritten json clock.date_parse input.worktree.worktree_path source e r st'
      × (r.state ≡ held)
      × (r.custodian ≡ some input.custodian)
      × (r.lease_expires_at ≡ some lease)
unfolding claim_worktree
claim-IsWritten json clock others input st st' r h =
    by_lease (lease_end json clock others input (clock.date_parse input.now)) refl h
  where
    by_lease :
        (o : Option String)
        → lease_end json clock others input (clock.date_parse input.now) ≡ o
        → claim_until json clock others input o st ≡ (st', ok r)
        → (lease : String) × (source : CustodyRecord) × (e : CustodyEvent) × (lease_end json clock
              others input
              (clock.date_parse input.now)
            ≡ some lease)
          × IsTaking input lease source e
          × IsWritten json clock.date_parse input.worktree.worktree_path source e r st'
          × (r.state ≡ held)
          × (r.custodian ≡ some input.custodian)
          × (r.lease_expires_at ≡ some lease)
    by_lease none l k = absurd (ground arith)
    by_lease (some lease) l k =
        let now = others 0 st in
        let (source, e, taking, written) = subst (TakenLast json clock others input lease) k (
          claim_again-Taken json clock others input lease 1
            (claim_attempt json clock others 0 input lease st)
            (claim_read-Taken json clock others input lease 1
              (read_record json clock others input.worktree.worktree_path now) now)) in
        let (is_held, by, until, acquired, same) =
          taken-IsHeld clock.date_parse input lease source r e taking written.step in
        (lease, source, e, l, taking, written, is_held, by, until)
