-- ===== src/Claims/Methods/Guards.antt =====
-- The inputs of `claim` and `renew` in src/core/task-claim-store.ts, and the guards on them.
use gptqueue.Prelude.{ℕ, String, Bool, true, false, ◌&&◌, not, Option, none, some, leb, is_blank}

-- A number that the caller passes: a non-negative integer, or any other number, which each guard
-- below refuses alike.
pub data Number : Type 0 where
  nat : ℕ → Number
  other : Number

abbrev pub value_of : Number → ℕ
value_of (nat n) = n
value_of other = 0

-- `Number.isInteger(x) && lo <= x && x <= hi`, for a `lo` of at least 0.
abbrev pub in_range : ℕ → ℕ → Number → Bool
in_range lo hi (nat n) = leb lo n && leb n hi
in_range lo hi other = false

-- `x === undefined || (Number.isInteger(x) && x >= 1)`
abbrev pub is_limit : Option Number → Bool
is_limit none = true
is_limit (some (nat n)) = leb 1 n
is_limit (some other) = false

-- `max_concurrent_claims ?? 0`
abbrev pub limit_of : Option Number → ℕ
limit_of none = 0
limit_of (some x) = value_of x

pub record ClaimInput : Type 0 where
  pub actor_id : String
  pub session_id : String
  pub max_batch : Number
  pub ttl_seconds : Number
  pub max_concurrent_claims : Option Number
  pub now : String

unfoldable pub is_claim_request : ClaimInput → Bool
is_claim_request input =
    not (is_blank input.actor_id)
    && not (is_blank input.session_id)
    && in_range 1 16 input.max_batch
    && in_range 1 3600 input.ttl_seconds
    && is_limit input.max_concurrent_claims

pub record RenewInput : Type 0 where
  pub claim_id : String
  pub actor_id : String
  pub session_id : String
  pub ttl_seconds : Number
  pub budget_seconds : ℕ
  pub now : String

unfoldable pub is_renew_request : RenewInput → Bool
is_renew_request input =
    not (is_blank input.claim_id)
    && not (is_blank input.actor_id)
    && not (is_blank input.session_id)
    && in_range 1 3600 input.ttl_seconds
