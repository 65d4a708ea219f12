-- ===== src/Custody/Store/Grants.antt =====
-- What the answers of src/core/custody-store.ts promise, whatever other clients do meanwhile: there is
-- no condition on `others` here.
use gptqueue.Prelude.{
  ℕ, String, Bool, true, false, Option, some, ◌≡◌, refl, if◌then◌else◌, str_eq_refl, lookup, put,
  lookup-put,
}
use gptqueue.Outcome.{ok, err, throws}
use gptqueue.Json.{JsonCodec}
use gptqueue.Claims.Codec.{Clock}
use gptqueue.Custody.Model.{CustodyRecord, CustodyEvent, transition_custody, Transition}
use gptqueue.Custody.Store.Read.{custody_value}
use gptqueue.Custody.Store.{Store, Attempt, answered, may_set, conditional_set, persisted, persist}

-- The record that `path` has in the hash is the one that the model makes of `source` by `e`.
pub record IsWritten (json : JsonCodec) (date_parse : String → Option ℕ) (path : String)
    (source : CustodyRecord) (e : CustodyEvent) (r : CustodyRecord) (st : Store) : Type 0 where
  pub stored : lookup path st ≡ some (json.encode (custody_value r))
  pub step : transition_custody date_parse source e ≡ ok r

module _ (json : JsonCodec) (clock : Clock) (others : ℕ → Store → Store) where
  abbrev pub After : (CustodyRecord → CustodyEvent → Type 0) → String → Store × Attempt → Type 0
  After P path (st, answered (ok r)) =
      (source : CustodyRecord) × (e : CustodyEvent) × P source e
      × IsWritten json clock.date_parse path source e r st
  After P path _ = Unit

  pub persist-After :
      (P : CustodyRecord → CustodyEvent → Type 0) (n : ℕ) (path : String) (r : CustodyRecord)
      (e : CustodyEvent) (state session : String) (st : Store)
      → P r e
      → After P path (
          persist json clock others n path
            (transition_custody clock.date_parse r e)
            state
            session
            st)
  unfolding conditional_set
  persist-After P n path r e state session st p =
      by_result (transition_custody clock.date_parse r e) refl
    where
      by_test :
          (r' : CustodyRecord)
          → transition_custody clock.date_parse r e ≡ ok r'
          → (b : Bool)
          → After P path (
              persisted json clock others r' (
                if b
                then (put path (json.encode (custody_value r')) (others n st), true)
                else (others n st, false)))
      by_test r' h true = (
        r,
        e,
        p,
        record {
          stored =
              rw
                (
                  lookup-put path path (json.encode (custody_value r')) (others n st),
                  str_eq_refl path,
                )
                refl;
          step = h;
        },
      )
      by_test r' h false = tt

      by_result :
          (t : Transition)
          → transition_custody clock.date_parse r e ≡ t
          → After P path (persist json clock others n path t state session st)
      by_result (ok r') h =
          by_test r' h (may_set json clock others (lookup path (others n st)) state session)
      by_result (err c) h = tt
      by_result throws h = tt

  pub either-After :
      (P : CustodyRecord → CustodyEvent → Type 0) (path : String) (b : Bool) (x y : Store × Attempt)
      → (b ≡ true → After P path x)
      → After P path y
      → After P path (if b then x else y)
  either-After P path true x y f g = f refl
  either-After P path false x y f g = g
