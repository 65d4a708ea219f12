-- ===== src/Wake/Marks.antt =====
-- Leases that are cleared, and evidence of a spawn that is attached to one: src/core/wake-lease.ts.
use gptqueue.Prelude.{
  ℕ, ◌+◌, ◌<◌, String, Bool, true, false, Option, none, some, ◌≡◌, refl, ap, str_eq_refl,
  Bool-cases, inl, inr, arith, put, lookup-put, remove, if◌then◌else◌, lookup-remove, ◌⊎◌, ltb,
  str_eq, ◌∙◌, str_eq_iff,
}
use gptqueue.Value.{Value, as_str, prop, num, str}
use gptqueue.Outcome.{ok}
use gptqueue.Claims.Codec.{Clock}
use gptqueue.Wake.{
  WakeLease, lease_value, Json, Entry, Store, stored, AcquireInput, parse_lease, lease_of_value,
  lease_with, acquire, attach_spawn, clear, get, read,
}
use gptqueue.Wake.Laws.{lifetime, lease_of, entry_of, acquire-Issued, parse-lease_value, stored-put}

module _ (json : Json) where
  stored-remove :
      (time : ℕ) (actor : String) (st : Store) → stored time actor (remove actor st) ≡ none
  unfolding stored
  stored-remove time actor st = rw (lookup-remove actor actor st, str_eq_refl actor) refl

  lease_id_read :
      (o : Option Value) (lease : WakeLease)
      → lease_of_value json o ≡ some lease
      → (v : Value) × (o ≡ some v) × (as_str (prop "lease_id" v) ≡ some lease.lease_id)
  lease_id_read none lease h = absurd (ground arith)
  lease_id_read (some v) lease h = (
    v,
    refl,
    id_of (as_str (prop "lease_id" v)) (as_str (prop "actor_id" v))
        (as_str (prop "issued_by_session" v)) (as_str (prop "issued_at" v))
        (as_str (prop "expires_at" v)) h,
  )
    where
      id_of :
          (a b c d e : Option String)
          → lease_with json v a b c d e ≡ some lease
          → a ≡ some lease.lease_id
      id_of (some a) (some b) (some c) (some d) (some e) k = ap some (ap lease_id_in k)
        where
          lease_id_in : Option WakeLease → String
          lease_id_in none = a
          lease_id_in (some l) = l.lease_id
      id_of none b c d e k = absurd (ground arith)
      id_of (some a) none c d e k = absurd (ground arith)
      id_of (some a) (some b) none d e k = absurd (ground arith)
      id_of (some a) (some b) (some c) none e k = absurd (ground arith)
      id_of (some a) (some b) (some c) (some d) none k = absurd (ground arith)

  get-stored :
      (time : ℕ) (actor : String) (st : Store) (lease : WakeLease)
      → get json time actor st ≡ some lease
      → (e : Entry) × (stored time actor st ≡ some e) × (parse_lease json e.raw ≡ some lease)
  unfolding get
  get-stored time actor st lease h = found (stored time actor st) h
    where
      found :
          (o : Option Entry)
          → read json o ≡ some lease
          → (e : Entry) × (o ≡ some e) × (parse_lease json e.raw ≡ some lease)
      found none k = absurd (ground arith)
      found (some e) k = (e, refl, k)

  clear_found :
      (time : ℕ) (actor lease_id : String) (st : Store) (lease : WakeLease)
      → get json time actor st ≡ some lease
      → clear json time actor lease_id st
        ≡ (if str_eq lease.lease_id lease_id then (remove actor st, true) else (st, false))
  unfolding clear parse_lease
  clear_found time actor lease_id st lease h =
      let (e, there, parsed) = get-stored time actor st lease h in
      let (v, decoded, id) = lease_id_read (json.decode e.raw) lease parsed in
      rw (there, decoded, id) refl

  -- Clearing an actor's lease by an id takes the lease away just when the id is the lease's own;
  -- then no lease is left for the actor at any instant, and otherwise the store stays as it was.
  pub clear_own :
      (time : ℕ) (actor lease_id : String) (st : Store) (lease : WakeLease)
      → get json time actor st ≡ some lease
      → ((lease.lease_id ≡ lease_id)
          × ((clear json time actor lease_id st).1 ≡ true)
          × ((t : ℕ) → stored t actor (clear json time actor lease_id st).0 ≡ none))
        ⊎ ((lease.lease_id ≡ lease_id → ⊥) × (clear json time actor lease_id st ≡ (st, false)))
  clear_own time actor lease_id st lease h =
      let e = clear_found time actor lease_id st lease h in
      elim (Bool-cases (str_eq lease.lease_id lease_id)) [
        | inl same ↦
            let e1 = e ∙ rw same refl in
            inl (
              (str_eq_iff _ _).0 same,
              ap (λ x. x.1) e1,
              λ t. ap (λ x. stored t actor x.0) e1 ∙ stored-remove t actor st,
            )
        | inr other ↦ inr (
          λ k. ground (arith, other, (str_eq_iff lease.lease_id lease_id).1 k),
          e ∙ rw other refl,
        )
      ]

  abbrev marked_entry : ℕ → String → AcquireInput → String → ℕ → String → Entry
  marked_entry time uuid input expires pid at = record {
    raw = json.encode (
        lease_value uuid input.actor_id input.issued_by_session input.now expires (some (pid, at)));
    deadline = time + lifetime input;
  }

  attach_issued :
      (time later : ℕ) (uuid at expires : String) (pid : ℕ) (input : AcquireInput) (st : Store)
      → later < time + lifetime input
      → (attach_spawn json later input.actor_id uuid pid at
          (put input.actor_id (entry_of json time uuid input expires) st)).0
        ≡ put input.actor_id
            (marked_entry time uuid input expires pid at)
            (put input.actor_id (entry_of json time uuid input expires) st)
  unfolding attach_spawn
  attach_issued time later uuid at expires pid input st early =
      rw
        (
          stored-put json later input.actor_id (entry_of json time uuid input expires) st early,
          json.decode-encode uuid input.actor_id input.issued_by_session input.now expires none,
          str_eq_refl uuid,
        )
        refl

  get_marked :
      (time t : ℕ) (uuid at expires : String) (pid : ℕ) (input : AcquireInput) (st : Store)
      → get json t input.actor_id
          (put input.actor_id (marked_entry time uuid input expires pid at) st)
        ≡ (if ltb t (time + lifetime input)
            then some (record (lease_of uuid input expires) {
              spawned_pid = num pid;
              spawned_at = str at;
            })
            else none)
  unfolding get stored
  get_marked time t uuid at expires pid input st =
      rw
        (
          lookup-put input.actor_id input.actor_id (marked_entry time uuid input expires pid at) st,
          str_eq_refl input.actor_id,
        )
        (read_at (ltb t (time + lifetime input)))
    where
      read_at :
          (b : Bool)
          → read json (if b then some (marked_entry time uuid input expires pid at) else none) ≡ (
              if b
              then some (record (lease_of uuid input expires) {
                spawned_pid = num pid;
                spawned_at = str at;
              })
              else none)
      read_at true =
          parse-lease_value json uuid input.actor_id input.issued_by_session input.now expires
            (some (pid, at))
      read_at false = refl

  -- Evidence of a spawn that is attached to a lease that was just issued shows in the lease until
  -- the lease's deadline, which stays where it was; from then on there is no lease.
  pub attach_spawn_keeps :
      (clock : Clock) (time later t : ℕ) (uuid at : String) (pid : ℕ) (input : AcquireInput)
      (st st' : Store) (lease : WakeLease)
      → acquire json clock time uuid input st ≡ (st', ok (lease, false))
      → later < time + lifetime input
      → get json t input.actor_id
          (attach_spawn json later input.actor_id lease.lease_id pid at st').0
        ≡ (if ltb t (time + lifetime input)
            then some (record lease { spawned_pid = num pid; spawned_at = str at })
            else none)
  attach_spawn_keeps clock time later t uuid at pid input st st' lease h early =
      let i = acquire-Issued json clock time uuid input st st' lease h in
      rw (i.written, i.is_new, attach_issued time later uuid at i.expires pid input st early)
        (get_marked time t uuid at i.expires pid input
          (put input.actor_id (entry_of json time uuid input i.expires) st))
