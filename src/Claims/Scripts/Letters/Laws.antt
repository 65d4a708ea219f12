-- ===== src/Claims/Scripts/Letters/Laws.antt =====
-- What claims-requeue.lua and claims-purge.lua of src/mcp-server/lua do to the keys of an actor.
use mathlib.Core.List.{Perm}
use gptqueue.Prelude.{
  String, true, Option, none, some, List, [], ◌∷◌, ◌++◌, ◌≡◌, refl, if◌then◌else◌, str_eq,
  str_eq_iff, str_eq_refl, arith, Bool-cases, inl, inr, lookup, lookup-remove, ◌∙◌, ap, subst, sym,
}
use gptqueue.Claims.Codec.{Json}
use gptqueue.Claims.State.{Slot, holds, wrong_type, State}
use gptqueue.Claims.Scripts.Letters.{
  Requeue, moved, is_message, lrem, id_of_value, find_letter, push_letter, move_letter,
  requeue_from, requeue_script,
}
use mathlib.Core.List.Perm

eq_of_some : {a b : String} → ◌≡◌ {A = Option String} (some a) (some b) → a ≡ b
eq_of_some e = ground arith

module _ (json : Json) (id : String) where
  -- A letter that is found is the first in the queue with the id, and LREM takes it out.
  find_letter-perm :
      (ps : List String) (p : String)
      → find_letter json id ps ≡ some p
      → (is_message (id_of_value json (json.decode p)) id ≡ true) × Perm ps (p ∷ lrem p ps)
  unfolding find_letter lrem
  find_letter-perm [] p e = absurd (ground arith)
  find_letter-perm (x ∷ ps) p e =
      elim (Bool-cases (is_message (id_of_value json (json.decode x)) id)) [
        | inl hit ↦
            subst
              (λ q.
                (is_message (id_of_value json (json.decode q)) id ≡ true)
                × Perm (x ∷ ps) (q ∷ (if str_eq x q then ps else x ∷ lrem q ps)))
              (eq_of_some (rw hit at e)) (hit, rw (str_eq_refl x) (Perm.refl (x ∷ ps)))
        | inr miss ↦
            let (found, perm) = find_letter-perm ps p (rw miss at e) in
            (
              found,
              elim (Bool-cases (str_eq x p)) [
                | inl same ↦ rw same (
                    subst (λ q. Perm (x ∷ ps) (q ∷ ps)) ((str_eq_iff x p).0 same)
                      (Perm.refl (x ∷ ps)))
                | inr other ↦ rw other (Perm.trans (Perm.cons x perm) (Perm.swap p x (lrem p ps)))
              ],
            )
      ]

  -- A requeue that moves a letter moves exactly one with the id that was asked for, from the
  -- dead-letter queue to the inbox's tail, and gives its message a fresh recovery budget; claims
  -- and index stay.
  pub requeue-moved :
      (key : String) (st st' : State) (inbox dlq : List String)
      → st.inbox ≡ holds inbox
      → st.dlq ≡ holds dlq
      → requeue_script json key id st ≡ (st', moved)
      → (p : String) × (is_message (id_of_value json (json.decode p)) id ≡ true)
        × (dlq' : List String) × (st'.inbox ≡ holds (inbox ++ p ∷ []))
        × (st'.dlq ≡ holds dlq')
        × Perm dlq (p ∷ dlq')
        × (lookup key st'.counters ≡ none)
        × (st'.claims ≡ st.claims)
        × (st'.index ≡ st.index)
  unfolding requeue_script
  requeue-moved key st st' inbox dlq hi hq e =
      let (p, found, e1) =
        letter_found (find_letter json id dlq) refl
          (ap (requeue_from json st key id) (sym hq) ∙ e) in
      let same = ap (push_letter json st key dlq p) (sym hi) ∙ e1 in
      let (matches, perm) = find_letter-perm dlq p found in
      (
        p,
        matches,
        lrem p dlq,
        ap (λ x. x.0.inbox) (sym same),
        ap (λ x. x.0.dlq) (sym same),
        perm,
        ap (λ x. lookup key x.0.counters) (sym same)
            ∙ lookup-remove key key st.counters
            ∙ rw (str_eq_refl key) refl,
        ap (λ x. x.0.claims) (sym same),
        ap (λ x. x.0.index) (sym same),
      )
    where
      letter_found :
          (o : Option String)
          → find_letter json id dlq ≡ o
          → move_letter json st key dlq o ≡ (st', moved)
          → (p : String) × (find_letter json id dlq ≡ some p)
            × (push_letter json st key dlq p st.inbox ≡ (st', moved))
      letter_found none h k = absurd (ground arith)
      letter_found (some p) h k = (p, h, k)

  -- A requeue that answers anything else has changed nothing.
  pub requeue_unmoved :
      (key : String) (st st' : State) (r : Requeue)
      → requeue_script json key id st ≡ (st', r)
      → (r ≡ moved → ⊥)
      → st' ≡ st
  unfolding requeue_script
  requeue_unmoved key st st' r e other = unmoved_queue st.dlq e
    where
      unmoved_push :
          (dlq : List String) (p : String) (inbox : Slot)
          → push_letter json st key dlq p inbox ≡ (st', r)
          → st' ≡ st
      unmoved_push dlq p wrong_type k = sym (ap (λ x. x.0) k)
      unmoved_push dlq p (holds inbox) k = absurd (other (sym (ap (λ x. x.1) k)))

      unmoved_letter :
          (dlq : List String) (o : Option String)
          → move_letter json st key dlq o ≡ (st', r)
          → st' ≡ st
      unmoved_letter dlq none k = sym (ap (λ x. x.0) k)
      unmoved_letter dlq (some p) k = unmoved_push dlq p st.inbox k

      unmoved_queue : (q : Slot) → requeue_from json st key id q ≡ (st', r) → st' ≡ st
      unmoved_queue wrong_type k = sym (ap (λ x. x.0) k)
      unmoved_queue (holds dlq) k = unmoved_letter dlq (find_letter json id dlq) k
