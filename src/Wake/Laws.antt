-- ===== src/Wake/Laws.antt =====
-- Leases that are issued and joined: src/core/wake-lease.ts.
use gptqueue.Prelude.{
  ℕ, ◌+◌, ◌*◌, ◌<◌, String, Bool, true, false, Option, none, some, ◌≡◌, refl, sym, ap, ltb_iff,
  str_eq_refl, Bool-cases, inl, inr, arith, put, lookup-put,
}
use gptqueue.Value.{undefined}
use gptqueue.Outcome.{Outcome, ok, err}
use gptqueue.Claims.Codec.{Clock}
use gptqueue.Claims.Methods.Guards.{in_range, value_of}
use gptqueue.Wake.{
  WakeLease, Spawn, lease_value, Json, Entry, Store, stored, AcquireInput, WakeCode,
  invalid_lease_duration, parse_lease, lease_of_value, acquire, acquire_until, acquire_script,
  answer, acquired, end_of_lease,
}

abbrev pub lifetime : AcquireInput → ℕ
lifetime input = value_of input.lease_seconds * 1000

-- The lease that a request makes.
abbrev pub lease_of : String → AcquireInput → String → WakeLease
lease_of uuid input expires = record {
  lease_id = uuid;
  actor_id = input.actor_id;
  issued_by_session = input.issued_by_session;
  issued_at = input.now;
  expires_at = expires;
  spawned_pid = undefined;
  spawned_at = undefined;
}

module _ (json : Json) where
  abbrev pub entry_of : ℕ → String → AcquireInput → String → Entry
  entry_of time uuid input expires = record {
    raw =
        json.encode
          (lease_value uuid input.actor_id input.issued_by_session input.now expires none);
    deadline = time + lifetime input;
  }

  -- How a request at `time` that was answered by a new lease has changed the store.
  pub record Issued (clock : Clock) (time : ℕ) (uuid : String) (input : AcquireInput)
      (st st' : Store) (lease : WakeLease) : Type 0 where
    pub expires : String
    pub valid : in_range 1 3600 input.lease_seconds ≡ true
    pub ends : end_of_lease json clock input (clock.date_parse input.now) ≡ some expires
    pub absent : stored time input.actor_id st ≡ none
    pub is_new : lease ≡ lease_of uuid input expires
    pub written : st' ≡ put input.actor_id (entry_of time uuid input expires) st

  pub parse-lease_value :
      (a b c d e : String) (spawn : Spawn)
      → parse_lease json (json.encode (lease_value a b c d e spawn))
        ≡ lease_of_value json (some (lease_value a b c d e spawn))
  unfolding parse_lease
  parse-lease_value a b c d e spawn = ap (lease_of_value json) (json.decode-encode a b c d e spawn)

  abbrev Reply : Type 0
  Reply = Store × Outcome WakeCode (WakeLease × Bool)

  joined :
      {st st' : Store} {lease : WakeLease} (o : Option WakeLease)
      → ◌≡◌ {A = Reply} (st, acquired json o true) (st', ok (lease, false))
      → ⊥
  joined none h = ground arith
  joined (some l) h = ground arith

  script_issued :
      (time : ℕ) (uuid expires : String) (input : AcquireInput) (o : Option Entry) (st st' : Store)
      (lease : WakeLease)
      → answer json (
          acquire_script json time input.actor_id
            (entry_of time uuid input expires).raw
            (value_of input.lease_seconds)
            o
            st)
        ≡ (st', ok (lease, false))
      → (o ≡ none)
        × (lease ≡ lease_of uuid input expires)
        × (st' ≡ put input.actor_id (entry_of time uuid input expires) st)
  script_issued time uuid expires input (some e) st st' lease h =
      absurd (joined (parse_lease json e.raw) h)
  script_issued time uuid expires input none st st' lease h =
      let h1 =
        rw (parse-lease_value uuid input.actor_id input.issued_by_session input.now expires none) at
          h in
      (refl, sym (ap (λ x. lease_in x.1) h1), sym (ap (λ x. x.0) h1))
    where
      lease_in : Outcome WakeCode (WakeLease × Bool) → WakeLease
      lease_in (ok (l, b)) = l
      lease_in _ = lease

  until_issued :
      (time : ℕ) (uuid : String) (input : AcquireInput) (expires : Option String) (st st' : Store)
      (lease : WakeLease)
      → acquire_until json time uuid input expires st ≡ (st', ok (lease, false))
      → (s : String) × (expires ≡ some s)
        × (stored time input.actor_id st ≡ none)
        × (lease ≡ lease_of uuid input s)
        × (st' ≡ put input.actor_id (entry_of time uuid input s) st)
  until_issued time uuid input none st st' lease h = absurd (ground arith)
  until_issued time uuid input (some s) st st' lease h =
      let (a, b, c) =
        script_issued time uuid s input (stored time input.actor_id st) st st' lease h in
      (s, refl, a, b, c)

  pub acquire-Issued :
      (clock : Clock) (time : ℕ) (uuid : String) (input : AcquireInput) (st st' : Store)
      (lease : WakeLease)
      → acquire json clock time uuid input st ≡ (st', ok (lease, false))
      → Issued clock time uuid input st st' lease
  unfolding acquire
  acquire-Issued clock time uuid input st st' lease h =
      elim (Bool-cases (in_range 1 3600 input.lease_seconds)) [
        | inl valid ↦
            let (s, ends, absent, is_new, written) =
              until_issued time uuid input
                (end_of_lease json clock input (clock.date_parse input.now)) st st' lease
                (rw valid at h) in
            record {
              expires = s;
              valid = valid;
              ends = ends;
              absent = absent;
              is_new = is_new;
              written = written;
            }
        | inr invalid ↦ absurd (refused (rw invalid at h))
      ]
    where
      refused : ◌≡◌ {A = Reply} (st, err invalid_lease_duration) (st', ok (lease, false)) → ⊥
      refused e = ground arith

  pub stored-put :
      (time : ℕ) (actor : String) (e : Entry) (st : Store)
      → time < e.deadline
      → stored time actor (put actor e st) ≡ some e
  unfolding stored
  stored-put time actor e st h =
      rw (lookup-put actor actor e st, str_eq_refl actor, (ltb_iff time e.deadline).1 h) refl

  -- Once a request has been answered by a new lease, every valid request for the same actor before
  -- the lease's deadline is answered by that same lease, as coalesced, and changes nothing.
  pub acquire_coalesces :
      (clock : Clock) (time later : ℕ) (uuid uuid' : String) (input input' : AcquireInput)
      (st st' : Store) (lease : WakeLease) (expires' : String)
      → acquire json clock time uuid input st ≡ (st', ok (lease, false))
      → later < time + lifetime input
      → input'.actor_id ≡ input.actor_id
      → in_range 1 3600 input'.lease_seconds ≡ true
      → end_of_lease json clock input' (clock.date_parse input'.now) ≡ some expires'
      → acquire json clock later uuid' input' st' ≡ (st', ok (lease, true))
  unfolding acquire
  acquire_coalesces clock time later uuid uuid' input input' st st' lease expires' h early same
        valid ends =
      let i = acquire-Issued clock time uuid input st st' lease h in
      rw
        (
          valid,
          ends,
          same,
          i.written,
          i.is_new,
          stored-put later input.actor_id (entry_of time uuid input i.expires) st early,
          parse-lease_value uuid input.actor_id input.issued_by_session input.now i.expires none,
        )
        refl
