-- ===== src/Wake.antt =====
-- src/core/wake-lease.ts and the scripts wake-lease-*.lua of src/mcp-server/lua that it runs: one
-- outstanding activation per actor. The Redis key of an actor, `WAKE_LEASE_KEYS.lease`, is the entry
-- of its id in a `Store`; an entry is gone from its deadline on, which stands for the TTL of the key.
pub mod Laws
pub mod Marks
use gptqueue.Prelude.{
  ℕ, ◌+◌, ◌*◌, String, Bool, true, false, ◌&&◌, Option, none, some, if◌then◌else◌, ltb, str_eq,
  Dict, lookup, put, remove, ◌≡◌,
}
use gptqueue.Value.{Value, str, num, obj, Fields, end, field, prop, as_str}
use gptqueue.Outcome.{Outcome, ok, err, throws}
use gptqueue.Claims.Codec.{Clock}
use gptqueue.Claims.Methods.Guards.{Number, in_range, value_of}
use gptqueue.Claims.Scripts.Renew.{set_prop}

pub record WakeLease : Type 0 where
  pub lease_id : String
  pub actor_id : String
  pub issued_by_session : String
  pub issued_at : String
  pub expires_at : String
  -- Read as they are stored: no type is checked.
  pub spawned_pid : Value
  pub spawned_at : Value

-- The evidence of a spawn that `attachSpawn` adds.
abbrev pub Spawn : Type 0
Spawn = Option (ℕ × String)

abbrev pub spawn_fields : Spawn → Fields
spawn_fields none = end
spawn_fields (some (pid, at)) = field "spawned_pid" (num pid) (field "spawned_at" (str at) end)

-- The table that wake-lease-acquire.lua encodes, with what wake-lease-attach-spawn.lua adds.
abbrev pub lease_value : String → String → String → String → String → Spawn → Value
lease_value lease_id actor_id session issued_at expires_at spawn = obj (
    field "lease_id" (str lease_id) (
      field "actor_id" (str actor_id) (
        field "issued_by_session" (str session) (
          field "issued_at" (str issued_at)
            (field "expires_at" (str expires_at) (spawn_fields spawn))))))

-- `JSON.parse` and `cjson`: `decode` is `none` where the text is no JSON. What a script encodes of a
-- lease decodes to it.
pub record Json : Type 0 where
  pub encode : Value → String
  pub decode : String → Option Value
  pub decode-encode :
      (lease_id actor_id session issued_at expires_at : String) (spawn : Spawn)
      → decode (encode (lease_value lease_id actor_id session issued_at expires_at spawn))
        ≡ some (lease_value lease_id actor_id session issued_at expires_at spawn)

pub record Entry : Type 0 where
  pub raw : String
  pub deadline : ℕ

abbrev pub Store : Type 0
Store = Dict Entry

abbrev pub unexpired : ℕ → Option Entry → Option Entry
unexpired time none = none
unexpired time (some e) = if ltb time e.deadline then some e else none

-- What GET finds at an instant of the Redis server's clock.
unfoldable pub stored : ℕ → String → Store → Option Entry
stored time actor st = unexpired time (lookup actor st)

pub record AcquireInput : Type 0 where
  pub actor_id : String
  pub issued_by_session : String
  pub lease_seconds : Number
  pub now : String

pub data WakeCode : Type 0 where
  invalid_lease_duration store_corrupt : WakeCode

module _ (json : Json) where
  abbrev pub lease_with :
      Value
      → Option String
      → Option String
      → Option String
      → Option String
      → Option String
      → Option WakeLease
  lease_with v (some a) (some b) (some c) (some d) (some e) = some (record {
    lease_id = a;
    actor_id = b;
    issued_by_session = c;
    issued_at = d;
    expires_at = e;
    spawned_pid = prop "spawned_pid" v;
    spawned_at = prop "spawned_at" v;
  })
  lease_with v _ _ _ _ _ = none

  abbrev pub lease_of_value : Option Value → Option WakeLease
  lease_of_value none = none
  lease_of_value (some v) =
      lease_with v (as_str (prop "lease_id" v)) (as_str (prop "actor_id" v))
        (as_str (prop "issued_by_session" v)) (as_str (prop "issued_at" v))
        (as_str (prop "expires_at" v))

  unfoldable pub parse_lease : String → Option WakeLease
  parse_lease raw = lease_of_value (json.decode raw)

  -- wake-lease-acquire.lua: the stored text, and whether it was there before.
  abbrev pub acquire_script :
      ℕ → String → String → ℕ → Option Entry → Store → Store × (String × Bool)
  acquire_script time actor new_lease ttl (some e) st = (st, (e.raw, true))
  acquire_script time actor new_lease ttl none st =
      (put actor (record { raw = new_lease; deadline = time + ttl * 1000 }) st, (new_lease, false))

  abbrev pub acquired : Option WakeLease → Bool → Outcome WakeCode (WakeLease × Bool)
  acquired none coalesced = err store_corrupt
  acquired (some lease) coalesced = ok (lease, coalesced)

  abbrev pub answer : Store × (String × Bool) → Store × Outcome WakeCode (WakeLease × Bool)
  answer (st, (raw, coalesced)) = (st, acquired (parse_lease raw) coalesced)

  -- `expires` is what `toISOString` makes of the end of the lease: `none` for a RangeError.
  abbrev pub acquire_until :
      ℕ
      → String
      → AcquireInput
      → Option String
      → Store
      → Store × Outcome WakeCode (WakeLease × Bool)
  acquire_until time uuid input none st = (st, throws)
  acquire_until time uuid input (some expires) st = answer (
      acquire_script time input.actor_id
        (json.encode
          (lease_value uuid input.actor_id input.issued_by_session input.now expires none))
        (value_of input.lease_seconds) (stored time input.actor_id st) st)

  abbrev pub end_of_lease : Clock → AcquireInput → Option ℕ → Option String
  end_of_lease clock input none = none
  end_of_lease clock input (some now) = clock.to_iso (now + value_of input.lease_seconds * 1000)

  -- `acquire`, with the answer of `randomUUID` as `uuid`.
  unfoldable pub acquire :
      Clock → ℕ → String → AcquireInput → Store → Store × Outcome WakeCode (WakeLease × Bool)
  unfolding stored parse_lease
  acquire clock time uuid input st =
      if in_range 1 3600 input.lease_seconds
      then acquire_until time uuid input (end_of_lease clock input (clock.date_parse input.now)) st
      else (st, err invalid_lease_duration)

  abbrev pub read : Option Entry → Option WakeLease
  read none = none
  read (some e) = parse_lease e.raw

  unfoldable pub get : ℕ → String → Store → Option WakeLease
  unfolding stored parse_lease
  get time actor st = read (stored time actor st)

  -- `type(lease) == 'table' and lease.lease_id == expected`
  abbrev pub names_lease : String → Option String → Bool
  names_lease lease_id none = false
  names_lease lease_id (some s) = str_eq s lease_id

  abbrev pub cleared : String → String → Option Value → Store → Store × Bool
  cleared actor lease_id none st = (st, false)
  cleared actor lease_id (some v) st =
      if names_lease lease_id (as_str (prop "lease_id" v))
      then (remove actor st, true)
      else (st, false)

  abbrev pub clear_script : String → String → Option Entry → Store → Store × Bool
  clear_script actor lease_id none st = (st, false)
  clear_script actor lease_id (some e) st = cleared actor lease_id (json.decode e.raw) st

  unfoldable pub clear : ℕ → String → String → Store → Store × Bool
  unfolding stored
  clear time actor lease_id st = clear_script actor lease_id (stored time actor st) st

  abbrev pub with_spawn : ℕ → String → Value → Value
  with_spawn pid at v = set_prop "spawned_at" (str at) (set_prop "spawned_pid" (num pid) v)

  -- SET … KEEPTTL
  abbrev pub attached : String → String → ℕ → String → Entry → Option Value → Store → Store × Bool
  attached actor lease_id pid at e none st = (st, false)
  attached actor lease_id pid at e (some v) st =
      if names_lease lease_id (as_str (prop "lease_id" v))
      then (put actor (record e { raw = json.encode (with_spawn pid at v) }) st, true)
      else (st, false)

  abbrev pub attach_script : String → String → ℕ → String → Option Entry → Store → Store × Bool
  attach_script actor lease_id pid at none st = (st, false)
  attach_script actor lease_id pid at (some e) st =
      attached actor lease_id pid at e (json.decode e.raw) st

  unfoldable pub attach_spawn : ℕ → String → String → ℕ → String → Store → Store × Bool
  unfolding stored
  attach_spawn time actor lease_id pid at st =
      attach_script actor lease_id pid at (stored time actor st) st
