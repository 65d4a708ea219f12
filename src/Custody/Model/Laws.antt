-- ===== src/Custody/Model/Laws.antt =====
-- What `transitionCustody` of src/core/custody-model.ts keeps, and which changes it makes.
use gptqueue.Prelude.{
  ℕ, String, Bool, true, false, not, Option, none, some, List, ◌≡◌, is_some, arith, ◌⊎◌, ◌∷◌, ◌≢◌,
  [], inr, refl, ◌↔◌, ◌<◌, inl,
}
use gptqueue.Value.{Value}
use gptqueue.Outcome.{throws, ok, Outcome-cases}
use gptqueue.Custody.Handoff.{HandoffRecord, admit_handoff_record}
use gptqueue.Custody.Model.{
  CustodyState, unowned, held, released, forfeited, CustodyAcquisitionMode, initial,
  graceful_handoff, CustodianIdentity, WorktreeIdentity, CustodyRecord, is_valid_custodian,
  create_custody, claim_from, assume_from, release_from, expire_from, CustodyEvent, Transition, run,
  transition_custody, after, claim, is_valid_claim, assume, err, release, expire,
  successor_takeover, unhold, expire_at,
}

abbrev pub is_held : CustodyState → Bool
is_held held = true
is_held _ = false

-- A mode says how the holder came by the worktree, and so what the record must still carry.
abbrev pub fits_mode : Option CustodyAcquisitionMode → Option HandoffRecord → Bool
fits_mode (some initial) h = not (is_some h)
fits_mode (some graceful_handoff) h = is_some h
fits_mode _ h = true

abbrev pub fits_state : CustodyState → Option HandoffRecord → Bool
fits_state unowned h = not (is_some h)
fits_state released h = is_some h
fits_state _ h = true

abbrev pub is_named : Option CustodianIdentity → Bool
is_named none = true
is_named (some c) = is_valid_custodian c

-- A record names a holder, with a mode and a lease, exactly while it is held.
pub record IsWellFormed (r : CustodyRecord) : Type 0 where
  pub custodian : is_some r.custodian ≡ is_held r.state
  pub mode : is_some r.mode ≡ is_held r.state
  pub lease : is_some r.lease_expires_at ≡ is_held r.state
  pub acquired : is_held r.state ≡ false → r.acquired_at ≡ none
  pub named : is_named r.custodian ≡ true
  pub by_mode : fits_mode r.mode r.handoff ≡ true
  pub by_state : fits_state r.state r.handoff ≡ true

pub create-IsWellFormed : (w : WorktreeIdentity) → IsWellFormed (create_custody w)
unfolding create_custody
create-IsWellFormed w = ground arith

claim-IsWellFormed :
    (s : CustodyState) (r r' : CustodyRecord) (c : CustodianIdentity) (lease : String)
    (acquired : Option String)
    → r.state ≡ s
    → IsWellFormed r
    → claim_from s r c lease acquired ≡ ok r'
    → IsWellFormed r'
unfolding claim_from
claim-IsWellFormed unowned r r' c lease acquired h w e = ground arith
claim-IsWellFormed released r r' c lease acquired h w e = ground arith
claim-IsWellFormed _ r r' c lease acquired h w e = cc

assume-IsWellFormed :
    (s : CustodyState) (r r' : CustodyRecord) (c : CustodianIdentity) (lease : String)
    (inventory : List String) (acquired : Option String)
    → IsWellFormed r
    → assume_from s r c lease inventory acquired ≡ ok r'
    → IsWellFormed r'
unfolding assume_from
assume-IsWellFormed forfeited r r' c lease inventory acquired w e = ground arith
assume-IsWellFormed _ r r' c lease inventory acquired w e = cc

release-IsWellFormed :
    (s : CustodyState) (r r' : CustodyRecord) (v : Value)
    → release_from s r v ≡ ok r'
    → IsWellFormed r'
unfolding release_from
release-IsWellFormed held r r' v e = ground arith
release-IsWellFormed _ r r' v e = cc

expire-IsWellFormed :
    (date_parse : String → Option ℕ) (s : CustodyState) (r r' : CustodyRecord)
    (lease : Option String) (now : String)
    → IsWellFormed r
    → expire_from date_parse s r lease now ≡ ok r'
    → IsWellFormed r'
unfolding expire_from
expire-IsWellFormed date_parse held r r' lease now w e = ground arith
expire-IsWellFormed date_parse _ r r' lease now w e = ground arith

-- Every event that is accepted keeps a record well formed.
pub transition-IsWellFormed :
    (date_parse : String → Option ℕ) (r r' : CustodyRecord) (e : CustodyEvent)
    → IsWellFormed r
    → transition_custody date_parse r e ≡ ok r'
    → IsWellFormed r'
unfolding transition_custody
transition-IsWellFormed date_parse r r' (claim c lease acquired) w h =
    claim-IsWellFormed r.state r r' c lease acquired refl w h
transition-IsWellFormed date_parse r r' (assume c lease inventory acquired) w h =
    assume-IsWellFormed r.state r r' c lease inventory acquired w h
transition-IsWellFormed date_parse r r' (release v) w h = release-IsWellFormed r.state r r' v h
transition-IsWellFormed date_parse r r' (expire now) w h =
    expire-IsWellFormed date_parse r.state r r' r.lease_expires_at now w h

after-IsWellFormed :
    (r : CustodyRecord) (t : Transition)
    → IsWellFormed r
    → ((r' : CustodyRecord) → t ≡ ok r' → IsWellFormed r')
    → IsWellFormed (after r t)
after-IsWellFormed r (ok r') w h = h r' refl
after-IsWellFormed r (err e) w h = w
after-IsWellFormed r throws w h = w

run-IsWellFormed_from :
    (date_parse : String → Option ℕ) (r : CustodyRecord) (es : List CustodyEvent)
    → IsWellFormed r
    → IsWellFormed (run date_parse r es)
unfolding run
run-IsWellFormed_from date_parse r [] w = w
run-IsWellFormed_from date_parse r (e ∷ es) w =
    run-IsWellFormed_from date_parse (after r (transition_custody date_parse r e)) es
      (after-IsWellFormed r _ w (λ r' h. transition-IsWellFormed date_parse r r' e w h))

-- A record is well formed after any sequence of events from its creation, refused ones included.
pub run-IsWellFormed :
    (date_parse : String → Option ℕ) (w : WorktreeIdentity) (es : List CustodyEvent)
    → IsWellFormed (run date_parse (create_custody w) es)
run-IsWellFormed date_parse w es =
    run-IsWellFormed_from date_parse (create_custody w) es (create-IsWellFormed w)

-- While a worktree is held, no accepted event gives it to somebody else or changes the lease: the
-- record stays as it is or is no longer held.
pub transition_exclusive :
    (date_parse : String → Option ℕ) (r r' : CustodyRecord) (e : CustodyEvent)
    → r.state ≡ held
    → transition_custody date_parse r e ≡ ok r'
    → (r' ≡ r) ⊎ (is_held r'.state ≡ false)
unfolding transition_custody
transition_exclusive date_parse r r' (claim c lease acquired) h e = cc (rw h at e)
transition_exclusive date_parse r r' (assume c lease inventory acquired) h e = cc (rw h at e)
transition_exclusive date_parse r r' (release v) h e = ground arith
transition_exclusive date_parse r r' (expire now) h e = ground arith

-- The ways into being held: by a claim of a worktree that nobody has used or that its holder has
-- released, or by an assumption of a forfeited one with a list of what was found there.
pub transition_takes :
    (date_parse : String → Option ℕ) (r r' : CustodyRecord) (e : CustodyEvent)
    → is_held r.state ≡ false
    → transition_custody date_parse r e ≡ ok r'
    → is_held r'.state ≡ true
    → (c : CustodianIdentity) × (lease : String) × (acquired : Option String) × (r'.custodian
        ≡ some c)
      × (r'.lease_expires_at ≡ some lease)
      × (r'.acquired_at ≡ acquired)
      × (is_valid_claim c lease acquired ≡ true)
      × ((e ≡ claim c lease acquired) × (r.state ≡ unowned) × (r'.mode ≡ some initial)
          ⊎ (e ≡ claim c lease acquired) × (r.state ≡ released) × (r'.mode ≡ some graceful_handoff)
          ⊎ ((inventory : List String) × (e ≡ assume c lease inventory acquired)
              × (inventory ≢ [])
              × (r.state ≡ forfeited)
              × (r'.mode ≡ some successor_takeover)))
unfolding transition_custody
transition_takes date_parse r r' (claim c lease acquired) n e h =
    (c, lease, acquired, ground arith, ground arith, ground arith, ground arith, ground arith)
transition_takes date_parse r r' (assume c lease inventory acquired) n e h = (
  c,
  lease,
  acquired,
  ground arith,
  ground arith,
  ground arith,
  ground arith,
  inr (inr (inventory, refl, ground arith, ground arith, ground arith)),
)
transition_takes date_parse r r' (release v) n e h = absurd (ground arith)
transition_takes date_parse r r' (expire now) n e h = absurd (ground arith)

expire_at_iff :
    (r : CustodyRecord) (o p : Option ℕ)
    → r.state ≡ held
    → (expire_at r o p ≡ ok (unhold r forfeited r.handoff))
      ↔ ((t : ℕ) × (u : ℕ) × (o ≡ some t) × (p ≡ some u) × (u < t))
unfolding expire_at
expire_at_iff r (some t) (some u) h =
    (λ e. (t, u, refl, refl, ground arith), λ (t', u', e, f, g). ground arith)
expire_at_iff r (some t) none h = (λ e. cc, λ (t', u', e, f, g). cc)
expire_at_iff r none p h = (λ e. cc, λ (t', u', e, f, g). cc)

-- A held worktree is forfeited by `expire` exactly when both instants can be read and the lease
-- lies strictly before now; a lease that ends now still holds.
pub expire_iff :
    (date_parse : String → Option ℕ) (r : CustodyRecord) (lease now : String)
    → r.state ≡ held
    → r.lease_expires_at ≡ some lease
    → (transition_custody date_parse r (expire now) ≡ ok (unhold r forfeited r.handoff))
      ↔ ((t : ℕ) × (u : ℕ) × (date_parse now ≡ some t) × (date_parse lease ≡ some u) × (u < t))
unfolding transition_custody
expire_iff date_parse r lease now h l =
    simp (h, l) (expire_at_iff r (date_parse now) (date_parse lease) h)

release-eq-ok :
    (s : CustodyState) (r r' : CustodyRecord) (v : Value)
    → release_from s r v ≡ ok r'
    → (h : HandoffRecord) × (admit_handoff_record v ≡ ok h) × (unhold r released (some h) ≡ r')
unfolding release_from
release-eq-ok held r r' v e = elim (Outcome-cases (admit_handoff_record v)) [
  | inl (h, admitted) ↦ (h, admitted, ground arith)
  | inr refused ↦ absurd (refused r' _ e)
]
release-eq-ok _ r r' v e = cc

-- The record of the last handoff stays with the worktree: an accepted event other than a release
-- leaves it as it was, and none changes which worktree the record is about.
pub transition_keeps :
    (date_parse : String → Option ℕ) (r r' : CustodyRecord) (e : CustodyEvent)
    → transition_custody date_parse r e ≡ ok r'
    → (r'.worktree ≡ r.worktree)
      × ((r'.handoff ≡ r.handoff)
          ⊎ ((v : Value) × (h : HandoffRecord) × (e ≡ release v)
              × (r'.handoff ≡ some h)
              × (admit_handoff_record v ≡ ok h)))
unfolding transition_custody
transition_keeps date_parse r r' (claim c lease acquired) e = ground arith
transition_keeps date_parse r r' (assume c lease inventory acquired) e = ground arith
transition_keeps date_parse r r' (expire now) e = ground arith
transition_keeps date_parse r r' (release v) e =
    let (h, admitted, same) = release-eq-ok r.state r r' v e in
    (ground arith, inr (v, h, refl, ground arith, admitted))
