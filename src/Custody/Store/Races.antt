-- ===== src/Custody/Store/Races.antt =====
-- What `lazyExpire` of src/core/custody-store.ts overwrites when the record changes between its read
-- and its write.
use gptqueue.Prelude.{
  ℕ, String, true, false, Bool-cases, inl, inr, Option, none, some, ◌≡◌, refl, ap, ◌∙◌, lookup, put,
  arith,
}
use gptqueue.Outcome.{ok}
use gptqueue.Json.{JsonCodec}
use gptqueue.Claims.Codec.{Clock}
use gptqueue.Custody.Model.{
  CustodyState, unowned, held, released, forfeited, CustodyRecord, expire, transition_custody,
  expire_from, expire_at, unhold,
}
use gptqueue.Custody.Store.Read.{custody_value}
use gptqueue.Custody.Store.Read.Laws.{custody_value-IsJson}
use gptqueue.Custody.Store.{
  Store, may_set, has_state, conditional_set, is_lapsed, lapsed_in, lapsed_lease, passed,
  lazy_expire,
}

module _ (json : JsonCodec) (clock : Clock) (others : ℕ → Store → Store) where
  pub lapsed-transition :
      (r : CustodyRecord) (now : String)
      → is_lapsed json clock others r now ≡ true
      → transition_custody clock.date_parse r (expire now) ≡ ok (unhold r forfeited r.handoff)
  unfolding transition_custody expire_from expire_at
  lapsed-transition r now h = by_state r.state h
    where
      by_instants :
          (a b : Option ℕ)
          → passed json clock others a b ≡ true
          → expire_at r b a ≡ ok (unhold r forfeited r.handoff)
      by_instants (some a) (some b) k = ground arith
      by_instants (some a) none k = absurd (ground arith)
      by_instants none b k = absurd (ground arith)

      by_lease :
          (l : Option String)
          → lapsed_lease json clock others l now ≡ true
          → expire_from clock.date_parse held r l now ≡ ok (unhold r forfeited r.handoff)
      by_lease none k = absurd (ground arith)
      by_lease (some l) k = by_instants (clock.date_parse l) (clock.date_parse now) k

      by_state :
          (s : CustodyState)
          → lapsed_in json clock others s r.lease_expires_at now ≡ true
          → expire_from clock.date_parse s r r.lease_expires_at now
            ≡ ok (unhold r forfeited r.handoff)
      by_state held k = by_lease r.lease_expires_at k
      by_state unowned k = absurd (ground arith)
      by_state released k = absurd (ground arith)
      by_state forfeited k = absurd (ground arith)

  -- A record that is still held afterwards was not forfeited, and nothing was written for it.
  pub lazy_expire-held :
      (n : ℕ) (r : CustodyRecord) (now : String) (st : Store)
      → (lazy_expire json clock others n r now st).1.state ≡ held
      → (is_lapsed json clock others r now ≡ false)
        × (lazy_expire json clock others n r now st ≡ (st, r))
  unfolding lazy_expire
  lazy_expire-held n r now st h = elim (Bool-cases (is_lapsed json clock others r now)) [
    | inl lapsed ↦ absurd (not_held (rw (lapsed, lapsed-transition r now lapsed) at h))
    | inr runs ↦ (runs, rw runs refl)
  ]
    where
      not_held : forfeited ≡ held → ⊥
      not_held e = ground arith

  held-has_state :
      (r : CustodyRecord)
      → r.state ≡ held
      → has_state json clock others (some (custody_value r)) "held" String.[] ≡ true
  unfolding custody_value
  held-has_state r h = rw h refl

  held-may_set :
      (r : CustodyRecord)
      → r.state ≡ held
      → may_set json clock others (some (json.encode (custody_value r))) "held" String.[] ≡ true
  held-may_set r h =
      ap (λ o. has_state json clock others o "held" String.[])
        (json.decode-encode (custody_value r) (custody_value-IsJson r))
      ∙ held-has_state r h

  -- A record that was read as held with a lease that has passed is written over whatever hold is
  -- stored by then, whoever has it and however long its lease runs: the write asks only that the
  -- stored state is "held".
  pub lazy_expire_overwrites :
      (n : ℕ) (r other : CustodyRecord) (now : String) (st : Store)
      → is_lapsed json clock others r now ≡ true
      → lookup r.worktree.worktree_path (others n st) ≡ some (json.encode (custody_value other))
      → other.state ≡ held
      → lazy_expire json clock others n r now st ≡ (
        put r.worktree.worktree_path
            (json.encode (custody_value (unhold r forfeited r.handoff)))
            (others n st),
        unhold r forfeited r.handoff,
      )
  unfolding lazy_expire conditional_set
  lazy_expire_overwrites n r other now st lapsed there is_held =
      rw (lapsed, lapsed-transition r now lapsed, there, held-may_set other is_held) refl
