-- ===== src/Claims/State.antt =====
-- The Redis keys that src/core/task-claim-store.ts and the scripts claims-*.lua work on, for one
-- actor, and the commands on them. A key that another type may hold is a `Slot`. Expiry of recovery
-- counters by their TTL is not modelled.
pub mod Laws
use Prim.Native.Nat.{Ordering}
use Prim.Native.String.{compare}
use gptqueue.Prelude.{
  ℕ, String, Bool, true, false, ◌&&◌, ◌||◌, Option, none, some, List, [], ◌∷◌, if◌then◌else◌, ltb,
  ◌==◌, str_eq, Dict,
}

-- A Redis key that should hold a list: an absent key is the empty list.
pub data Slot : Type 0 where
  holds : List String → Slot
  wrong_type : Slot

-- A recovery counter that exists: an integer as INCR writes it, where `negative n` is -(n + 1), or
-- anything else.
pub data Counter : Type 0 where
  count negative : ℕ → Counter
  unusable : Counter

pub record State : Type 0 where
  -- gptq:claims, of all actors
  pub claims : Dict String
  -- gptq:claims-index:<actor>, a sorted set: members in the order of their scores
  pub index : List (String × ℕ)
  -- gptq:q:<actor>
  pub inbox : Slot
  -- gptq:dlq:<actor>
  pub dlq : Slot
  -- gptq:rc:<actor>:<message>, of all actors
  pub counters : Dict Counter

abbrev pub text_lt : String → String → Bool
text_lt s t = elim (compare s t) [ Ordering.lt ↦ true | _ ↦ false ]

-- A sorted set is ordered by score, and by member among equal scores.
abbrev pub comes_before : ℕ → String → ℕ → String → Bool
comes_before s m t n = ltb s t || ((s == t) && text_lt m n)

unfoldable pub zinsert : String → ℕ → List (String × ℕ) → List (String × ℕ)
zinsert m s [] = (m, s) ∷ []
zinsert m s ((n, t) ∷ z) =
    if comes_before s m t n then (m, s) ∷ (n, t) ∷ z else (n, t) ∷ zinsert m s z

unfoldable pub zrem : String → List (String × ℕ) → List (String × ℕ)
zrem m [] = []
zrem m ((n, t) ∷ z) = if str_eq n m then zrem m z else (n, t) ∷ zrem m z

unfoldable pub zadd : String → ℕ → List (String × ℕ) → List (String × ℕ)
unfolding zinsert zrem
zadd m s z = zinsert m s (zrem m z)

unfoldable pub zscore : String → List (String × ℕ) → Option ℕ
zscore m [] = none
zscore m ((n, t) ∷ z) = if str_eq n m then some t else zscore m z

abbrev pub has_score : Option ℕ → Bool
has_score none = false
has_score (some t) = true

-- `ZADD … XX`: only a member that is there gets the score.
unfoldable pub zadd_xx : String → ℕ → List (String × ℕ) → List (String × ℕ)
unfolding zadd zscore
zadd_xx m s z = if has_score (zscore m z) then zadd m s z else z

-- `ZRANGEBYSCORE index -inf now - 1`, for whole scores: the members with a score below `now`.
unfoldable pub expired : ℕ → List (String × ℕ) → List String
expired now [] = []
expired now ((m, s) ∷ z) = if ltb s now then m ∷ expired now z else expired now z

-- The key of a recovery counter, `recoverCount` in src/core/keys.ts.
abbrev pub recover_count : String → String → String
recover_count actor message =
    Prim.Native.String.◌++◌ "gptq:rc:"
      (Prim.Native.String.◌++◌ actor (Prim.Native.String.◌++◌ ":" message))
