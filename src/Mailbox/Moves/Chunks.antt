-- ===== src/Mailbox/Moves/Chunks.antt =====
-- Pushes in chunks, as migrate-messages.lua makes them, are pushes of the whole list.
use gptqueue.Prelude.{
  ℕ, zero, suc, ◌+◌, ◌≤◌, String, List, [], ◌∷◌, ◌++◌, ◌≡◌, refl, ap, sym, ◌∙◌, length, take, drop,
  take-append-drop, arith,
}
use mathlib.Core.List.{append-nil, append_assoc}
use gptqueue.Mailbox.Moves.{rpush_chunks, lpush, lpush_chunks, reverse}

length-drop : (n : ℕ) (x : String) (xs : List String) → length (drop (suc n) (x ∷ xs)) ≤ length xs
length-drop zero x xs = omega arith
length-drop (suc n) x [] = omega arith
length-drop (suc n) x (y ∷ ys) = omega (arith, length-drop n y ys)

-- Pushing in chunks is pushing the whole list, with as many chunks as there are messages.
pub rpush_chunks-append :
    (more : ℕ) (msgs dst : List String)
    → length msgs ≤ more
    → rpush_chunks more msgs dst ≡ dst ++ msgs
unfolding rpush_chunks
rpush_chunks-append zero [] dst h = sym (append-nil dst)
rpush_chunks-append zero (m ∷ ms) dst h = absurd (omega (arith, h))
rpush_chunks-append (suc more) [] dst h = sym (append-nil dst)
rpush_chunks-append (suc more) (m ∷ ms) dst h =
    rpush_chunks-append more (drop 256 (m ∷ ms)) (dst ++ take 256 (m ∷ ms))
      (omega (arith, h, length-drop 255 m ms))
    ∙ append_assoc dst (take 256 (m ∷ ms)) (drop 256 (m ∷ ms))
    ∙ ap (λ l. dst ++ l) (take-append-drop 256 (m ∷ ms))

lpush-append : (xs ys dst : List String) → lpush (xs ++ ys) dst ≡ lpush ys (lpush xs dst)
unfolding lpush
lpush-append [] ys dst = refl
lpush-append (x ∷ xs) ys dst = lpush-append xs ys (x ∷ dst)

lpush-reverse : (xs dst : List String) → lpush xs dst ≡ lpush xs [] ++ dst
unfolding lpush
lpush-reverse [] dst = refl
lpush-reverse (x ∷ xs) dst =
    lpush-reverse xs (x ∷ dst)
    ∙ sym (append_assoc (lpush xs []) (x ∷ []) dst)
    ∙ ap (λ l. l ++ dst) (sym (lpush-reverse xs (x ∷ [])))

lpush-lpush : (xs ys dst : List String) → lpush (lpush xs ys) dst ≡ lpush ys (xs ++ dst)
unfolding lpush
lpush-lpush [] ys dst = refl
lpush-lpush (x ∷ xs) ys dst = lpush-lpush xs (x ∷ ys) dst

lpush_chunks-lpush :
    (more : ℕ) (msgs dst : List String)
    → length msgs ≤ more
    → lpush_chunks more msgs dst ≡ lpush msgs dst
unfolding lpush_chunks lpush
lpush_chunks-lpush zero [] dst h = refl
lpush_chunks-lpush zero (m ∷ ms) dst h = absurd (omega (arith, h))
lpush_chunks-lpush (suc more) [] dst h = refl
lpush_chunks-lpush (suc more) (m ∷ ms) dst h =
    lpush_chunks-lpush more (drop 256 (m ∷ ms)) (lpush (take 256 (m ∷ ms)) dst)
      (omega (arith, h, length-drop 255 m ms))
    ∙ sym (lpush-append (take 256 (m ∷ ms)) (drop 256 (m ∷ ms)) dst)
    ∙ ap (λ l. lpush l dst) (take-append-drop 256 (m ∷ ms))

length-lpush : (xs ys : List String) → length (lpush xs ys) ≡ length xs + length ys
unfolding lpush
length-lpush [] ys = omega arith
length-lpush (x ∷ xs) ys = omega (arith, length-lpush xs (x ∷ ys))

-- The dead letters arrive at the head, in their order.
pub lpush_chunks-reverse :
    (dead dst : List String) → lpush_chunks (length dead) (reverse dead) dst ≡ dead ++ dst
unfolding reverse lpush
lpush_chunks-reverse dead dst =
    lpush_chunks-lpush (length dead) (lpush dead []) dst (omega (arith, length-lpush dead []))
    ∙ lpush-lpush dead [] dst
