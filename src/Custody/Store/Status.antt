-- ===== src/Custody/Store/Status.antt =====
-- `status` of src/core/custody-store.ts, of one worktree and of all.
pub mod Sound
use gptqueue.Prelude.{ℕ, ◌+◌, String, Option, none, some, List, [], ◌∷◌, remove}
use gptqueue.Outcome.{Outcome, ok, err}
use gptqueue.Json.{JsonCodec}
use gptqueue.Claims.Codec.{Clock}
use gptqueue.Custody.Model.{CustodyRecord}
use gptqueue.Custody.Store.Read.{parse_stored}
use gptqueue.Custody.Store.{
  Store, StoreCode, store_corrupt, conditional_set, read_record, lazy_expire,
}

module _ (json : JsonCodec) (clock : Clock) (others : ℕ → Store → Store) where
  abbrev pub shown : Store × CustodyRecord → Store × Outcome StoreCode (Option CustodyRecord)
  shown (st, r) = (st, ok (some r))

  abbrev pub status_read :
      String
      → Option (Option CustodyRecord)
      → Store
      → Store × Outcome StoreCode (Option CustodyRecord)
  status_read now none st = (st, err store_corrupt)
  status_read now (some none) st = (st, ok none)
  status_read now (some (some r)) st = shown (lazy_expire json clock others 1 r now st)

  -- `status` of one worktree.
  unfoldable pub status : String → String → Store → Store × Outcome StoreCode (Option CustodyRecord)
  unfolding read_record lazy_expire conditional_set
  status path now st =
      let then_st = others 0 st in
      status_read now (read_record json clock others path then_st) then_st

  -- HGETALL answers each field once.
  unfoldable pub hgetall : Store → List (String × String)
  hgetall [] = []
  hgetall ((path, raw) ∷ rest) = (path, raw) ∷ remove path (hgetall rest)

  abbrev pub listed :
      CustodyRecord
      → Store × Outcome StoreCode (List CustodyRecord)
      → Store × Outcome StoreCode (List CustodyRecord)
  listed r (st, ok rs) = (st, ok (r ∷ rs))
  listed r (st, e) = (st, e)

  -- The loop of `status` over the values that HGETALL has returned; `n` counts the calls.
  unfoldable pub status_all :
      ℕ → String → Store → Store → Store × Outcome StoreCode (List CustodyRecord)
  unfolding lazy_expire conditional_set
  status_all n now [] st = (st, ok [])
  status_all n now ((path, raw) ∷ rest) st = elim (parse_stored (json.decode raw)) [
    | none ↦ (st, err store_corrupt)
    | some r ↦
        let (st', r') = lazy_expire json clock others n r now st in
        listed r' (status_all (n + 1) now rest st')
  ]

  -- `status` of every worktree.
  unfoldable pub status_list : String → Store → Store × Outcome StoreCode (List CustodyRecord)
  unfolding status_all hgetall
  status_list now st = let then_st = others 0 st in status_all 1 now (hgetall then_st) then_st
