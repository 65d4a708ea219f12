-- ===== src/Prelude/Perms.antt =====
-- Rearrangements of appended lists.
use mathlib.Core.List.{List, ◌++◌, Perm, append_assoc, perm_append_comm}
use mathlib.Core.List.Perm
use mathlib.Core.Path.{subst}
use mathlib.Core.Path.{sym}

pub perm_shift {ℓ} : {A : Type ℓ} (xs ys zs : List A) → Perm (xs ++ (ys ++ zs)) (ys ++ (xs ++ zs))
perm_shift xs ys zs =
    subst (λ l. Perm l (ys ++ (xs ++ zs))) (append_assoc xs ys zs)
      (subst (λ l. Perm ((xs ++ ys) ++ zs) l) (append_assoc ys xs zs)
        (Perm.append_right zs (perm_append_comm xs ys)))

-- What `ts` brings to `fs` it takes from `cs`.
pub perm_exchange {ℓ} :
    {A : Type ℓ} (fs hs ts rs cs : List A)
    → Perm fs (ts ++ hs)
    → Perm (ts ++ rs) cs
    → Perm (fs ++ rs) (hs ++ cs)
perm_exchange fs hs ts rs cs p q = Perm.trans (Perm.append_right rs p) (
    subst (λ l. Perm l (hs ++ cs)) (sym (append_assoc ts hs rs))
      (Perm.trans (perm_shift ts hs rs) (Perm.append_left hs q)))
