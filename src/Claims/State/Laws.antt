-- ===== src/Claims/State/Laws.antt =====
-- The sorted set that indexes the claims of an actor, in src/core/task-claim-store.ts.
use mathlib.Core.List.{Perm}
use gptqueue.Prelude.{
  ℕ, suc, ◌≤◌, String, false, none, some, List, [], ◌∷◌, ◌≡◌, refl, if◌then◌else◌, str_eq,
  str_eq_iff, length, arith, Bool-cases, inl, inr, subst, str_eq_refl, ◌∙◌,
}
use gptqueue.Claims.State.{zinsert, zrem, zadd, zscore, comes_before}
use mathlib.Core.List.Perm

zscore-zinsert_self :
    (m : String) (s : ℕ) (z : List (String × ℕ))
    → zscore m z ≡ none
    → zscore m (zinsert m s z) ≡ some s
unfolding zscore zinsert
zscore-zinsert_self m s [] h = ground (arith, str_eq_iff m m)
zscore-zinsert_self m s ((n, t) ∷ z) h = ground (arith, str_eq_iff m m, zscore-zinsert_self m s z)

zscore-zinsert_ne :
    (m n : String) (s : ℕ) (z : List (String × ℕ))
    → str_eq m n ≡ false
    → zscore n (zinsert m s z) ≡ zscore n z
unfolding zscore zinsert
zscore-zinsert_ne m n s [] h = ground arith
zscore-zinsert_ne m n s ((k, t) ∷ z) h = ground (arith, zscore-zinsert_ne m n s z h)

zscore-zrem :
    (m n : String) (z : List (String × ℕ))
    → zscore n (zrem m z) ≡ (if str_eq m n then none else zscore n z)
unfolding zscore zrem
zscore-zrem m n [] = ground arith
zscore-zrem m n ((k, t) ∷ z) =
    ground (arith, str_eq_iff m n, str_eq_iff k m, str_eq_iff k n, zscore-zrem m n z)

pub zscore-zadd :
    (m n : String) (s : ℕ) (z : List (String × ℕ))
    → zscore n (zadd m s z) ≡ (if str_eq m n then some s else zscore n z)
unfolding zadd
zscore-zadd m n s z = elim (Bool-cases (str_eq m n)) [
  | inl same ↦
      subst (λ k. zscore k (zadd m s z) ≡ (if str_eq m k then some s else zscore k z))
        ((str_eq_iff m n).0 same)
        (rw (str_eq_refl m)
          (zscore-zinsert_self m s (zrem m z) (zscore-zrem m m z ∙ rw (str_eq_refl m) refl)))
  | inr other ↦
      rw other (zscore-zinsert_ne m n s (zrem m z) other ∙ zscore-zrem m n z ∙ rw other refl)
]

-- No member stands twice in a sorted set.
abbrev pub IsIndex : List (String × ℕ) → Type 0
IsIndex [] = Unit
IsIndex ((m, s) ∷ z) = (zscore m z ≡ none) × IsIndex z

zinsert-IsIndex :
    (m : String) (s : ℕ) (z : List (String × ℕ))
    → zscore m z ≡ none
    → IsIndex z
    → IsIndex (zinsert m s z)
unfolding zinsert zscore
zinsert-IsIndex m s [] h u = (refl, tt)
zinsert-IsIndex m s ((n, t) ∷ z) h (new, u) =
    ground (arith, zinsert-IsIndex m s z, zscore-zinsert_ne m n s z, str_eq_iff m n, str_eq_iff n m)

zrem-IsIndex : (m : String) (z : List (String × ℕ)) → IsIndex z → IsIndex (zrem m z)
unfolding zrem
zrem-IsIndex m [] u = tt
zrem-IsIndex m ((n, t) ∷ z) (new, u) = ground (arith, zrem-IsIndex m z u, zscore-zrem m n z)

pub zadd-IsIndex : (m : String) (s : ℕ) (z : List (String × ℕ)) → IsIndex z → IsIndex (zadd m s z)
unfolding zadd
zadd-IsIndex m s z u =
    zinsert-IsIndex m s (zrem m z) (zscore-zrem m m z ∙ rw (str_eq_refl m) refl)
      (zrem-IsIndex m z u)

pub zrem_absent : (m : String) (z : List (String × ℕ)) → zscore m z ≡ none → zrem m z ≡ z
unfolding zrem zscore
zrem_absent m [] h = refl
zrem_absent m ((n, t) ∷ z) h = ground (arith, zrem_absent m z)

length-zinsert :
    (m : String) (s : ℕ) (z : List (String × ℕ)) → length (zinsert m s z) ≡ suc (length z)
unfolding zinsert
length-zinsert m s [] = refl
length-zinsert m s ((n, t) ∷ z) = ground (arith, length-zinsert m s z)

length-zrem : (m : String) (z : List (String × ℕ)) → length (zrem m z) ≤ length z
unfolding zrem
length-zrem m [] = omega arith
length-zrem m ((n, t) ∷ z) = ground (arith, length-zrem m z)

pub length-zadd :
    (m : String) (s : ℕ) (z : List (String × ℕ)) → length (zadd m s z) ≤ suc (length z)
unfolding zadd
length-zadd m s z = omega (arith, length-zinsert m s (zrem m z), length-zrem m z)

pub zinsert-perm : (m : String) (s : ℕ) (z : List (String × ℕ)) → Perm (zinsert m s z) ((m, s) ∷ z)
unfolding zinsert
zinsert-perm m s [] = Perm.refl _
zinsert-perm m s ((n, t) ∷ z) = elim (Bool-cases (comes_before s m t n)) [
  | inl first ↦ rw first (Perm.refl _)
  | inr later ↦
      rw later (Perm.trans (Perm.cons (n, t) (zinsert-perm m s z)) (Perm.swap (m, s) (n, t) z))
]
