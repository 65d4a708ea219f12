-- ===== src/Claims/Methods/Active.antt =====
-- The claim that `activeClaimFor` of src/core/task-claim-store.ts finds.
use gptqueue.Prelude.{
  ℕ, String, true, ◌&&◌, Option, none, some, List, [], ◌∷◌, ◌≡◌, refl, str_eq, str_eq_iff, and_iff,
  Bool-cases, inl, inr, arith, lookup, ap, subst, ◌⊎◌,
}
use gptqueue.Claims.Codec.{TaskClaim, Json, Clock}
use gptqueue.Claims.State.{State}
use gptqueue.Claims.Methods.{
  is_live, active_of, or_else, parsed_of, active_claim_in, active_claim_for,
}

module _ (json : Json) (clock : Clock) (actor session : String) where
  -- A claim of the session that has not expired at `now`, stored under an id that the index names.
  pub record IsActive (now : Option ℕ) (st : State) (c : TaskClaim) : Type 0 where
    pub by_actor : c.actor_id ≡ actor
    pub by_session : c.session_id ≡ session
    pub live : is_live json clock now (clock.date_parse c.expires_at) ≡ true
    pub id : String
    pub stored : parsed_of json clock (lookup id st.claims) ≡ some c

  active_of-some :
      (now : Option ℕ) (o : Option TaskClaim) (c : TaskClaim)
      → active_of json clock actor session now o ≡ some c
      → (o ≡ some c)
        × (c.actor_id ≡ actor)
        × (c.session_id ≡ session)
        × (is_live json clock now (clock.date_parse c.expires_at) ≡ true)
  active_of-some now none c e = absurd (ground arith)
  active_of-some now (some d) c e =
      elim (Bool-cases (
        str_eq d.actor_id actor
        && str_eq d.session_id session
        && is_live json clock now (clock.date_parse d.expires_at))) [
          | inl hit ↦
              let (own, live) =
                (and_iff (str_eq d.actor_id actor && str_eq d.session_id session)
                    (is_live json clock now (clock.date_parse d.expires_at))).0
                  hit in
              let (a, b) =
                (and_iff (str_eq d.actor_id actor) (str_eq d.session_id session)).0 own in
              let same = same_claim d (rw hit at e) in
              subst
                (λ x.
                  (some d ≡ some x)
                  × (x.actor_id ≡ actor)
                  × (x.session_id ≡ session)
                  × (is_live json clock now (clock.date_parse x.expires_at) ≡ true))
                same (refl, (str_eq_iff _ _).0 a, (str_eq_iff _ _).0 b, live)
          | inr miss ↦ absurd (nothing (rw miss at e))
        ]
    where
      same_claim : (d : TaskClaim) → ◌≡◌ {A = Option TaskClaim} (some d) (some c) → d ≡ c
      same_claim d h = ap claim_in h
        where
          claim_in : Option TaskClaim → TaskClaim
          claim_in none = d
          claim_in (some x) = x

      nothing : ◌≡◌ {A = Option TaskClaim} none (some c) → ⊥
      nothing h = ground arith

  or_else-some :
      (o p : Option TaskClaim) (c : TaskClaim)
      → or_else json clock o p ≡ some c
      → (o ≡ some c) ⊎ (p ≡ some c)
  or_else-some none p c e = inr e
  or_else-some (some d) p c e = inl e

  active_claim_in-IsActive :
      (now : Option ℕ) (st : State) (index : List (String × ℕ)) (c : TaskClaim)
      → active_claim_in json clock actor session now st index ≡ some c
      → IsActive now st c
  unfolding active_claim_in
  active_claim_in-IsActive now st [] c e = absurd (ground arith)
  active_claim_in-IsActive now st ((id, score) ∷ index) c e =
      elim (or_else-some
        (active_of json clock actor session now (parsed_of json clock (lookup id st.claims)))
        (active_claim_in json clock actor session now st index) c e) [
          | inl here ↦
              let (there, a, b, live) = active_of-some now _ c here in
              record { by_actor = a; by_session = b; live = live; id = id; stored = there }
          | inr later ↦ active_claim_in-IsActive now st index c later
        ]

  -- A claim that `activeClaimFor` returns is stored, belongs to the actor and the session that were
  -- asked for, and has not expired.
  pub active_claim_for-IsActive :
      (now : String) (st : State) (c : TaskClaim)
      → active_claim_for json clock actor session now st ≡ some c
      → IsActive (clock.date_parse now) st c
  unfolding active_claim_for
  active_claim_for-IsActive now st c e =
      active_claim_in-IsActive (clock.date_parse now) st st.index c e
