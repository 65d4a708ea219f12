-- ===== src/Wrapper/Laws.antt =====
-- That a wrapper's claim of a name, in src/experimental-wrapper/identity-claim.ts, is exclusive.
use gptqueue.Prelude.{
  ℕ, String, Bool, true, false, ◌&&◌, some, ◌≡◌, ◌⊎◌, inl, inr, refl, ap, sym, subst, ◌∙◌,
  if◌then◌else◌, str_eq, str_eq_refl, is_some, lookup, put, remove, lookup-put, arith, Bool-cases,
}
use gptqueue.Sessions.{resolve_registered}
use gptqueue.Wrapper.{
  State, Acquired, acquired, owned, pre_existing, active, has_active_session, has_heartbeat,
  acquire, release,
}

-- What holds of a name when its claim is acquired.
pub record IsFree (fresh : Bool) (time : ℕ) (agent : String) (st : State) : Type 0 where
  pub unclaimed : is_some (lookup agent st.claims) ≡ false
  pub unregistered : (fresh && resolve_registered agent st.sessions) ≡ false
  pub inactive : has_active_session time agent st ≡ false
  pub silent : has_heartbeat time agent st ≡ false

abbrev is_acquired : Acquired → Bool
is_acquired acquired = true
is_acquired _ = false

acquire-cases :
    (fresh : Bool) (time : ℕ) (agent token : String) (st : State)
    → (acquire fresh time agent token st
          ≡ (record st { claims = put agent token st.claims }, acquired))
        × IsFree fresh time agent st
      ⊎ ((a : Acquired) × (acquire fresh time agent token st ≡ (st, a)) × (is_acquired a ≡ false))
unfolding acquire
acquire-cases fresh time agent token st = elim (Bool-cases (is_some (lookup agent st.claims))) [
  | inl taken ↦ inr (owned, rw taken refl, refl)
  | inr free ↦ elim (Bool-cases (fresh && resolve_registered agent st.sessions)) [
    | inl there ↦ inr (pre_existing, rw (free, there) refl, refl)
    | inr new ↦ elim (Bool-cases (has_active_session time agent st)) [
      | inl live ↦ inr (active, rw (free, new, live) refl, refl)
      | inr idle ↦ elim (Bool-cases (has_heartbeat time agent st)) [
        | inl beats ↦ inr (active, rw (free, new, idle, beats) refl, refl)
        | inr still ↦ inl (
          rw (free, new, idle, still) refl,
          record { unclaimed = free; unregistered = new; inactive = idle; silent = still },
        )
      ]
    ]
  ]
]

claimed :
    (agent token : String) (st : State) → lookup agent (put agent token st.claims) ≡ some token
claimed agent token st =
    lookup-put agent agent token st.claims
    ∙ ap (λ b. if b then some token else lookup agent st.claims) (str_eq_refl agent)

-- A claim that is acquired is of a name that was free. Until it is released with its own token, nobody
-- acquires the name again, and a release with another token changes nothing; its own ends it.
pub acquire-exclusive :
    (fresh fresh' : Bool) (time time' : ℕ) (agent token token' : String) (st st' : State)
    → acquire fresh time agent token st ≡ (st', acquired)
    → str_eq token token' ≡ false
    → IsFree fresh time agent st
      × (acquire fresh' time' agent token' st' ≡ (st', owned))
      × (release agent token' st' ≡ (st', false))
      × (release agent token st' ≡ (record st' { claims = remove agent st'.claims }, true))
unfolding acquire release
acquire-exclusive fresh fresh' time time' agent token token' st st' h other =
    elim (acquire-cases fresh time agent token st) [
      | inr (a, refused, denied) ↦ absurd (clash a (sym refused ∙ h) denied)
      | inl (done, free) ↦
          subst
            (λ s.
              IsFree fresh time agent st
              × (acquire fresh' time' agent token' s ≡ (s, owned))
              × (release agent token' s ≡ (s, false))
              × (release agent token s ≡ (record s { claims = remove agent s.claims }, true)))
            (ap (λ p. p.0) (sym done ∙ h))
            (
              free,
              rw (claimed agent token st) refl,
              rw (claimed agent token st, other) refl,
              rw (claimed agent token st, str_eq_refl token) refl,
            )
    ]
  where
    absurd_bool : false ≡ true → ⊥
    absurd_bool e = ground arith

    clash :
        (a : Acquired)
        → ◌≡◌ {A = State × Acquired} (st, a) (st', acquired)
        → is_acquired a ≡ false
        → ⊥
    clash a e denied = absurd_bool (sym denied ∙ ap (λ p. is_acquired p.1) e)
