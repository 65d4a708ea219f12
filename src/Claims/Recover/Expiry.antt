-- ===== src/Claims/Recover/Expiry.antt =====
-- Which claims claims-recover.lua drops from the hash and the index, and what those claims hold.
use mathlib.Core.List.{Perm, append_assoc}
use gptqueue.Prelude.{
  perm_shift, ℕ, String, Bool, false, Option, none, some, List, [], ◌∷◌, ◌++◌, ◌≡◌, refl,
  if◌then◌else◌, ltb, str_eq, str_eq_iff, str_eq_refl, All, arith, Bool-cases, inl, inr, Dict,
  lookup, remove, lookup-remove, ◌∙◌, ap, ◌||◌,
}
use gptqueue.Claims.Codec.{Json, table_items, texts}
use gptqueue.Claims.State.{zrem, zscore, expired}
use gptqueue.Claims.State.Laws.{IsIndex, zrem_absent}
use gptqueue.Claims.Recover.{
  items_of, items_of_tasks, items_of_value, items_of_stored, plan, drop_claims, drop_index,
}
use gptqueue.Claims.Recover.Ledgers.{tasks_of, all_tasks}
use mathlib.Core.Path.{ap₂}
use gptqueue.Value.{Value, Items, as_str, prop}
use gptqueue.Claims.Scripts.Letters.{texts_of, tasks_of_value, tasks_of_stored, claimed_tasks}
use mathlib.Core.List.Perm

abbrev pub mem : String → List String → Bool
mem m [] = false
mem m (id ∷ ids) = str_eq id m || mem m ids

-- The entries of an index that have not expired.
abbrev pub live : ℕ → List (String × ℕ) → List (String × ℕ)
live now [] = []
live now ((m, s) ∷ z) = if ltb s now then live now z else (m, s) ∷ live now z

pub lookup-drop_claims :
    (j : String) (ids : List String) (claims : Dict String)
    → lookup j (drop_claims ids claims) ≡ (if mem j ids then none else lookup j claims)
unfolding drop_claims
lookup-drop_claims j [] claims = refl
lookup-drop_claims j (id ∷ ids) claims =
    ground (arith, lookup-drop_claims j ids (remove id claims), lookup-remove id j claims)

not-mem-expired :
    (m : String) (now : ℕ) (z : List (String × ℕ))
    → zscore m z ≡ none
    → mem m (expired now z) ≡ false
unfolding expired zscore
not-mem-expired m now [] h = refl
not-mem-expired m now ((n, t) ∷ z) h = ground (arith, not-mem-expired m now z)

drop_index-cons :
    (m : String) (s : ℕ) (ids : List String) (z : List (String × ℕ))
    → mem m ids ≡ false
    → drop_index ids ((m, s) ∷ z) ≡ (m, s) ∷ drop_index ids z
unfolding drop_index zrem
drop_index-cons m s [] z h = refl
drop_index-cons m s (id ∷ ids) z h =
    ground (arith, drop_index-cons m s ids (zrem id z), str_eq_iff m id, str_eq_iff id m)

drop_index-head :
    (m : String) (s : ℕ) (ids : List String) (z : List (String × ℕ))
    → zscore m z ≡ none
    → drop_index (m ∷ ids) ((m, s) ∷ z) ≡ drop_index ids z
unfolding drop_index zrem
drop_index-head m s ids z h = rw (str_eq_refl m) (rw (zrem_absent m z h) refl)

-- Dropping the expired members leaves the live ones, in their order.
pub drop_index-expired :
    (now : ℕ) (z : List (String × ℕ)) → IsIndex z → drop_index (expired now z) z ≡ live now z
unfolding expired
drop_index-expired now [] u = unfold drop_index in refl
drop_index-expired now ((m, s) ∷ z) (new, u) = elim (Bool-cases (ltb s now)) [
  | inl old ↦
      rw (old, expired) (drop_index-head m s (expired now z) z new ∙ drop_index-expired now z u)
  | inr young ↦
      rw (young, expired)
        (drop_index-cons m s (expired now z) z (not-mem-expired m now z new)
          ∙ ap (◌∷◌ (m, s)) (drop_index-expired now z u))
]

live_absent :
    (m : String) (now : ℕ) (z : List (String × ℕ))
    → zscore m z ≡ none
    → All (λ p. str_eq m p.0 ≡ false) (live now z)
unfolding zscore
live_absent m now [] h = tt
live_absent m now ((n, t) ∷ z) h =
    ground (arith, live_absent m now z, str_eq_iff m n, str_eq_iff n m)

live_out :
    (now : ℕ) (z : List (String × ℕ))
    → IsIndex z
    → All (λ p. mem p.0 (expired now z) ≡ false) (live now z)
unfolding expired
live_out now [] u = tt
live_out now ((m, s) ∷ z) (new, u) = elim (Bool-cases (ltb s now)) [
  | inl old ↦
      rw (old, expired)
        (out_of_cons m (expired now z) (live now z) (live_absent m now z new) (live_out now z u))
  | inr young ↦ rw (young, expired) (not-mem-expired m now z new, live_out now z u)
]
  where
    out_of_cons :
        (k : String) (ids : List String) (w : List (String × ℕ))
        → All (λ p. str_eq k p.0 ≡ false) w
        → All (λ p. mem p.0 ids ≡ false) w
        → All (λ p. mem p.0 (k ∷ ids) ≡ false) w
    out_of_cons k ids [] a b = tt
    out_of_cons k ids (p ∷ w) (a, a') (b, b') = (rw (a, b) refl, out_of_cons k ids w a' b')

module _ (json : Json) where
  claimed-drop_claims :
      (ids : List String) (claims : Dict String) (w : List (String × ℕ))
      → All (λ p. mem p.0 ids ≡ false) w
      → claimed_tasks json (drop_claims ids claims) w ≡ claimed_tasks json claims w
  unfolding claimed_tasks
  claimed-drop_claims ids claims [] a = refl
  claimed-drop_claims ids claims ((m, s) ∷ w) (out, rest) =
      rw (lookup-drop_claims m ids claims, out)
        (ap (◌++◌ (tasks_of_stored json (lookup m claims))) (claimed-drop_claims ids claims w rest))

  abbrev pub stored_tasks : Dict String → List String → List String
  stored_tasks claims [] = []
  stored_tasks claims (id ∷ ids) =
      tasks_of_stored json (lookup id claims) ++ stored_tasks claims ids

  split_claimed :
      (now : ℕ) (claims : Dict String) (z : List (String × ℕ))
      → Perm
          (stored_tasks claims (expired now z) ++ claimed_tasks json claims (live now z))
          (claimed_tasks json claims z)
  unfolding expired claimed_tasks
  split_claimed now claims [] = Perm.refl []
  split_claimed now claims ((m, s) ∷ z) = elim (Bool-cases (ltb s now)) [
    | inl old ↦
        rw (old, expired)
          (rw
            (append_assoc (tasks_of_stored json (lookup m claims))
              (stored_tasks claims (expired now z)) _)
            (Perm.append_left (tasks_of_stored json (lookup m claims))
              (split_claimed now claims z)))
    | inr young ↦
        rw (young, expired)
          (Perm.trans
            (perm_shift (stored_tasks claims (expired now z))
              (tasks_of_stored json (lookup m claims)) _)
            (Perm.append_left (tasks_of_stored json (lookup m claims))
              (split_claimed now claims z)))
  ]

  -- Of the tasks of all claims, those of the expired claims and those that the index still leads to
  -- once the expired claims are dropped are all there are.
  pub claimed-drop :
      (now : ℕ) (claims : Dict String) (z : List (String × ℕ))
      → IsIndex z
      → Perm
          (stored_tasks claims (expired now z)
            ++ claimed_tasks json
                (drop_claims (expired now z) claims)
                (drop_index (expired now z) z))
          (claimed_tasks json claims z)
  claimed-drop now claims z u =
      rw
        (
          drop_index-expired now z u,
          claimed-drop_claims (expired now z) claims (live now z) (live_out now z u),
        )
        (split_claimed now claims z)

  tasks_of-items_of :
      (actor : Option String) (ts : List String) → tasks_of (items_of json actor ts) ≡ ts
  unfolding items_of
  tasks_of-items_of actor [] = refl
  tasks_of-items_of actor (t ∷ ts) = ap (◌∷◌ t) (tasks_of-items_of actor ts)

  tasks_of-items_of_stored :
      (raw : Option String) → tasks_of (items_of_stored json raw) ≡ tasks_of_stored json raw
  tasks_of-items_of_stored none = refl
  tasks_of-items_of_stored (some raw) = of_value (json.decode raw)
    where
      of_items :
          (actor : Option String) (xs : Option Items)
          → tasks_of (items_of_tasks json actor xs) ≡ texts_of json xs
      of_items actor none = refl
      of_items actor (some xs) = tasks_of-items_of actor (texts xs)

      of_value : (v : Option Value) → tasks_of (items_of_value json v) ≡ tasks_of_value json v
      of_value none = refl
      of_value (some v) = of_items (as_str (prop "actor_id" v)) (table_items (prop "tasks" v))

  -- Pass 1 plans exactly the tasks that the expired claims hold.
  pub all_tasks-plan :
      (claims : Dict String) (ids : List String)
      → all_tasks (plan json claims ids) ≡ stored_tasks claims ids
  unfolding plan
  all_tasks-plan claims [] = refl
  all_tasks-plan claims (id ∷ ids) =
      ap₂ (◌++◌) (tasks_of-items_of_stored (lookup id claims)) (all_tasks-plan claims ids)
