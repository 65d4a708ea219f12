-- ===== src/Mailbox/Moves/Laws.antt =====
-- What `migrateMessages` of src/core/mailbox-store.ts moves.
use gptqueue.Prelude.{
  ◌⊎◌, ◌≢◌, ◌||◌, ◌<◌, inl, inr, Bool-cases, str_eq_iff, Dict, ℕ, String, Bool, true, false, Option,
  none, some, List, [], ◌∷◌, ◌++◌, ◌≡◌, refl, ap, sym, ◌∙◌, if◌then◌else◌, str_eq, length, lookup,
  lookup-put, lookup-remove, arith,
}
use mathlib.Core.List.{append-nil}
use gptqueue.Outcome.{ok, throws}
use gptqueue.Mailbox.{State, Key, holds, wrong_type, is_wrong, queue_of, or_empty, or_absent}
use gptqueue.Mailbox.Moves.Chunks.{rpush_chunks-append, lpush_chunks-reverse}
use gptqueue.Mailbox.Keys.{wrong_type_iff}
use gptqueue.Mailbox.Moves.{
  rpush_chunks, lpush_chunks, reverse, ltrim, list_of, moved_queues, moved_dead, has_wrong_dead,
  is_positive, migrate_messages, letters, moved_letters,
}

-- Where the messages of `name` are after a migration.
abbrev pub queue_after : String → String → State → String → List String
queue_after src dst st name =
    if str_eq src name
    then []
    else if str_eq dst name
    then queue_of dst st ++ queue_of src st
    else queue_of name st

abbrev trimmed_letters : ℕ → List String → List String → List String
trimmed_letters bound [] ys = ys
trimmed_letters bound xs ys = ltrim bound (xs ++ ys)

-- Where its dead letters are: those of the source come first, and what is over the bound is dropped.
abbrev pub letters_after : String → String → Option ℕ → State → String → List String
letters_after src dst none st name = letters name st.dead
letters_after src dst (some bound) st name =
    if str_eq src name
    then []
    else if str_eq dst name
    then trimmed_letters bound (letters src st.dead) (letters dst st.dead)
    else letters name st.dead

module _ (src dst name : String) where
  -- A source that is empty stays so, and nothing else changes.
  nothing_moved :
      (f : String → List String)
      → f src ≡ []
      → f name ≡ (if str_eq src name then [] else if str_eq dst name then f dst else f name)
  nothing_moved f e =
      either (str_eq src name) (str_eq dst name) (str_eq_iff src name).0 (str_eq_iff dst name).0
    where
      either :
          (a b : Bool)
          → (a ≡ true → src ≡ name)
          → (b ≡ true → dst ≡ name)
          → f name ≡ (if a then [] else if b then f dst else f name)
      either true b h k = ap f (sym (h refl)) ∙ e
      either false true h k = ap f (sym (k refl))
      either false false h k = refl

  queue-moved :
      (xs : List String) (st : State)
      → queue_of src st ≡ xs
      → or_empty (lookup name (moved_queues src dst xs st)) ≡ (
          if str_eq src name
          then []
          else if str_eq dst name
          then queue_of dst st ++ xs
          else queue_of name st)
  unfolding queue_of
  queue-moved [] st e =
      nothing_moved (λ j. queue_of j st) e
      ∙ ap (λ q. if str_eq src name then [] else if str_eq dst name then q else queue_of name st)
          (sym (append-nil (queue_of dst st)))
  queue-moved (m ∷ ms) st e =
      ap or_empty (
        lookup-remove src name _
        ∙ ap (λ o. if str_eq src name then none else o) (lookup-put dst name _ st.queues))
      ∙ either (str_eq src name) (str_eq dst name)
    where
      either :
          (a b : Bool)
          → or_empty (
              if a
              then none
              else if b
              then some (rpush_chunks (length (m ∷ ms)) (m ∷ ms) (queue_of dst st))
              else lookup name st.queues)
            ≡ (if a then [] else if b then queue_of dst st ++ (m ∷ ms) else queue_of name st)
      either true b = refl
      either false true =
          rpush_chunks-append (length (m ∷ ms)) (m ∷ ms) (queue_of dst st) (omega arith)
      either false false = refl

  letters-moved :
      (bound : ℕ) (xs : List String) (dead : Dict (Key (List String)))
      → letters src dead ≡ xs
      → letters name (moved_letters src dst bound xs dead) ≡ (
          if str_eq src name
          then []
          else if str_eq dst name
          then trimmed_letters bound xs (letters dst dead)
          else letters name dead)
  letters-moved bound [] dead e = nothing_moved (λ j. letters j dead) e
  letters-moved bound (m ∷ ms) dead e =
      ap (λ o. list_of (or_absent o))
        (lookup-remove src name _
          ∙ ap (λ o. if str_eq src name then none else o) (lookup-put dst name _ dead))
      ∙ either (str_eq src name) (str_eq dst name)
    where
      either :
          (a b : Bool)
          → list_of (
              or_absent (
                if a
                then none
                else if b
                then some (
                    holds (
                      ltrim bound
                        (lpush_chunks (length (m ∷ ms)) (reverse (m ∷ ms)) (letters dst dead))))
                else lookup name dead))
            ≡ (if a
                then []
                else if b
                then ltrim bound ((m ∷ ms) ++ letters dst dead)
                else letters name dead)
      either true b = refl
      either false true = ap (ltrim bound) (lpush_chunks-reverse (m ∷ ms) (letters dst dead))
      either false false = refl

  letters-moved_dead :
      (bound : Option ℕ) (st : State)
      → letters name (moved_dead src dst bound st.dead) ≡ letters_after src dst bound st name
  letters-moved_dead none st = refl
  letters-moved_dead (some bound) st = letters-moved bound (letters src st.dead) st.dead refl

-- Why a migration is refused: the source has claims, or the dead letters are to move and the key of
-- the source's or of the target's holds something else than a list.
abbrev pub IsBlocked : String → String → Option ℕ → Option ℕ → State → Type 0
IsBlocked src dst claims bound st =
    ((n : ℕ) × (claims ≡ some n) × (0 < n))
    ⊎ ((n : ℕ) × (bound ≡ some n)
        × ((lookup src st.dead ≡ some wrong_type) ⊎ (lookup dst st.dead ≡ some wrong_type)))

claimed-IsBlocked :
    (claims : Option ℕ) → is_positive claims ≡ true → (n : ℕ) × (claims ≡ some n) × (0 < n)
claimed-IsBlocked none e = absurd (ground arith)
claimed-IsBlocked (some n) e = (n, refl, ground arith)

wrong-IsBlocked :
    (src dst : String) (bound : Option ℕ) (st : State)
    → has_wrong_dead src dst bound st ≡ true
    → (n : ℕ) × (bound ≡ some n)
      × ((lookup src st.dead ≡ some wrong_type) ⊎ (lookup dst st.dead ≡ some wrong_type))
wrong-IsBlocked src dst none st e = absurd (ground arith)
wrong-IsBlocked src dst (some n) st e =
    (n, refl, either (is_wrong (or_absent (lookup src st.dead))) refl e)
  where
    either :
        (b : Bool)
        → is_wrong (or_absent (lookup src st.dead)) ≡ b
        → (b || is_wrong (or_absent (lookup dst st.dead))) ≡ true
        → (lookup src st.dead ≡ some wrong_type) ⊎ (lookup dst st.dead ≡ some wrong_type)
    either true h k = inl ((wrong_type_iff (lookup src st.dead)).0 h)
    either false h k = inr ((wrong_type_iff (lookup dst st.dead)).0 k)

-- What is refused is refused for a claim or for a wrong key.
not-IsBlocked :
    (src dst : String) (claims bound : Option ℕ) (st : State)
    → is_positive claims ≡ false
    → has_wrong_dead src dst bound st ≡ false
    → ¬ IsBlocked src dst claims bound st
not-IsBlocked src dst claims bound st free right (inl (n, there, more)) = ground arith
not-IsBlocked src dst claims bound st free right (inr (n, there, inl wrong)) =
    ground (arith, (wrong_type_iff (lookup src st.dead)).1 wrong)
not-IsBlocked src dst claims bound st free right (inr (n, there, inr wrong)) =
    ground (arith, (wrong_type_iff (lookup dst st.dead)).1 wrong)

-- A migration onto the same mailbox answers 0 and changes nothing. One between two mailboxes is
-- refused and changes nothing just where the source has claims or a key of dead letters that are to
-- move is no list. Any other leaves no message at the source, appends every message of it to the
-- target in order, answers their number, and puts the dead letters, if they move, before the target's,
-- of which the bound may drop the last; other mailboxes keep theirs.
pub migrate-cases :
    (src dst name : String) (claims bound : Option ℕ) (st : State)
    → (src ≡ dst) × (migrate_messages src dst claims bound st ≡ (st, ok 0))
      ⊎ (src ≢ dst)
        × IsBlocked src dst claims bound st
        × (migrate_messages src dst claims bound st ≡ (st, throws))
      ⊎ (src ≢ dst)
        × (¬ IsBlocked src dst claims bound st)
        × ((migrate_messages src dst claims bound st).1 ≡ ok (length (queue_of src st)))
        × (queue_of name (migrate_messages src dst claims bound st).0 ≡ queue_after src dst st name)
        × (letters name (migrate_messages src dst claims bound st).0.dead
            ≡ letters_after src dst bound st name)
unfolding migrate_messages
migrate-cases src dst name claims bound st = elim (Bool-cases (str_eq src dst)) [
  | inl same ↦ inl ((str_eq_iff src dst).0 same, rw same refl)
  | inr other ↦ elim (Bool-cases (is_positive claims)) [
    | inl some_claims ↦ inr (
        inl (apart other, inl (claimed-IsBlocked claims some_claims), rw (other, some_claims) refl))
    | inr no_claims ↦ elim (Bool-cases (has_wrong_dead src dst bound st)) [
      | inl wrong ↦ inr (
          inl (
            apart other,
            inr (wrong-IsBlocked src dst bound st wrong),
            rw (other, no_claims, wrong) refl,
          ))
      | inr fine ↦ inr (
          inr (
            apart other,
            not-IsBlocked src dst claims bound st no_claims fine,
            rw (other, no_claims, fine) refl,
            rw (other, no_claims, fine) (queue-moved src dst name (queue_of src st) st refl),
            rw (other, no_claims, fine) (letters-moved_dead src dst name bound st),
          ))
    ]
  ]
]
  where
    apart : str_eq src dst ≡ false → src ≢ dst
    apart e same = ground (arith, (str_eq_iff src dst).1 same)
