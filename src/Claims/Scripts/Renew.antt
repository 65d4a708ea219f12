-- ===== src/Claims/Scripts/Renew.antt =====
-- src/mcp-server/lua/claims-renew.lua: the expiry of a claim is moved, never past its budget.
pub mod Laws
use gptqueue.Prelude.{
  ℕ, ◌+◌, ◌*◌, String, Bool, ◌&&◌, Option, none, some, if◌then◌else◌, ltb, leb, str_eq, lookup, put,
}
use gptqueue.Value.{Value, str, obj, Fields, end, field, prop, is_str, as_str}
use gptqueue.Claims.Codec.{Json}
use gptqueue.Claims.State.{State, zadd_xx}
use gptqueue.Claims.Scripts.{is_owner}
use gptqueue.Calendar.Text.{ms_from_iso, iso_from_ms}

pub data Renewal : Type 0 where
  renewed : (expires_at : String) → Renewal
  unknown not_owner expired_claim exhausted : Renewal

abbrev pub set_field : String → Value → Fields → Fields
set_field k v end = field k v end
set_field k v (field j w fs) = if str_eq j k then field j v fs else field j w (set_field k v fs)

-- `claim.k = v`, for a claim that has text fields, and so is an object.
abbrev pub set_prop : String → Value → Value → Value
set_prop k v (obj fs) = obj (set_field k v fs)
set_prop k v other = other

abbrev pub min_ms : ℕ → ℕ → ℕ
min_ms a b = if ltb b a then b else a

abbrev pub ms_of : Option String → Option ℕ
ms_of none = none
ms_of (some s) = ms_from_iso s

module _ (json : Json) (claim_id actor session : String) (now ttl_seconds budget_seconds : ℕ) where
  abbrev pub renewed_at : State → Value → ℕ → State × Renewal
  renewed_at st v new_expires = (
    record st {
      claims =
          put claim_id (json.encode (set_prop "expires_at" (str (iso_from_ms new_expires)) v))
            st.claims;
      index = zadd_xx claim_id new_expires st.index;
    },
    renewed (iso_from_ms new_expires),
  )

  abbrev pub extend : State → Value → ℕ → State × Renewal
  extend st v new_expires =
      if leb new_expires now then (st, exhausted) else renewed_at st v new_expires

  abbrev pub renew_timed : State → Value → Option ℕ → Option ℕ → State × Renewal
  renew_timed st v (some expires) (some claimed) =
      if leb expires now
      then (st, expired_claim)
      else extend st v (min_ms (now + ttl_seconds * 1000) (claimed + budget_seconds * 1000))
  renew_timed st v _ _ = (st, unknown)

  abbrev pub is_claim : Value → Bool
  is_claim v =
      is_str (prop "claim_id" v)
      && is_str (prop "actor_id" v)
      && is_str (prop "session_id" v)
      && is_str (prop "claimed_at" v)
      && is_str (prop "expires_at" v)

  abbrev pub renew_decoded : State → Option Value → State × Renewal
  renew_decoded st none = (st, unknown)
  renew_decoded st (some v) =
      if is_claim v
      then if is_owner v actor session
        then renew_timed st v (ms_of (as_str (prop "expires_at" v)))
            (ms_of (as_str (prop "claimed_at" v)))
        else (st, not_owner)
      else (st, unknown)

  abbrev pub renew_raw : State → Option String → State × Renewal
  renew_raw st none = (st, unknown)
  renew_raw st (some raw) = renew_decoded st (json.decode raw)

  unfoldable pub renew_script : State → State × Renewal
  renew_script st = renew_raw st (lookup claim_id st.claims)
