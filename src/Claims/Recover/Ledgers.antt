-- ===== src/Claims/Recover/Ledgers.antt =====
-- Where claims-recover.lua puts the tasks of expired claims: none is lost or made up.
use mathlib.Core.List.{Perm, perm_middle, append-nil, append_assoc, perm_append_comm}
use gptqueue.Prelude.{
  ℕ, zero, suc, ◌+◌, ◌≤◌, String, Option, none, some, List, [], ◌∷◌, ◌++◌, ◌≡◌, refl, length, take,
  arith, Bool-cases, inl, inr, Dict, lookup, put, ◌∙◌, ap, subst, sym, length-append, length-take,
}
use gptqueue.Claims.State.{Counter}
use gptqueue.Claims.Recover.{
  Item, Entry, Ledger, incr, is_over, requeued, quarantined, counted, recover_with, recover_item,
  recover_items, recover_entries,
}
use mathlib.Core.List.Perm

abbrev pub tasks_of : List Item → List String
tasks_of [] = []
tasks_of (item ∷ items) = item.task ∷ tasks_of items

abbrev pub all_tasks : List Entry → List String
all_tasks [] = []
all_tasks (entry ∷ entries) = tasks_of entry.tasks ++ all_tasks entries

abbrev pub held_by : Ledger → List String
held_by l = l.inbox ++ l.dlq

take_all : (n : ℕ) (xs : List String) → length xs ≤ n → take n xs ≡ xs
take_all zero [] h = refl
take_all zero (x ∷ xs) h = absurd (omega arith)
take_all (suc n) [] h = refl
take_all (suc n) (x ∷ xs) h = ap (◌∷◌ x) (take_all n xs (omega arith))

module _ (cap dlq_max : ℕ) where
  -- A step that adds the tasks `ts` and takes no more room in the dead-letter queue than they need.
  record Adds (ts : List String) (l l' : Ledger) : Type 0 where
    kept : length l.dlq + length ts ≤ dlq_max → Perm (held_by l') (ts ++ held_by l)
    room : length l'.dlq ≤ length l.dlq + length ts

  requeued-Adds :
      (task : String) (counters : Dict Counter) (l : Ledger)
      → Adds (task ∷ []) l (requeued task (record l { counters = counters }))
  requeued-Adds task counters l = record {
    kept = λ h.
        subst (λ xs. Perm xs (task ∷ held_by l)) (sym (append_assoc l.inbox (task ∷ []) l.dlq))
          (perm_middle l.inbox l.dlq);
    room = omega arith;
  }

  quarantined-Adds :
      (key task : String) (l : Ledger) → Adds (task ∷ []) l (quarantined cap dlq_max key task l)
  quarantined-Adds key task l = record {
    kept = λ h.
        subst (λ xs. Perm (l.inbox ++ xs) (task ∷ held_by l))
          (sym (take_all dlq_max (task ∷ l.dlq) (omega arith))) (perm_middle l.inbox l.dlq);
    room = omega (arith, length-take dlq_max (task ∷ l.dlq));
  }

  recover_item-Adds :
      (item : Item) (l : Ledger) → Adds (item.task ∷ []) l (recover_item cap dlq_max item l)
  unfolding recover_item
  recover_item-Adds item l = with_key item.counter_key
    where
      counted-Adds :
          (key : String) (c : Counter)
          → Adds (item.task ∷ []) l (counted cap dlq_max key item.task c l)
      counted-Adds key c = elim (Bool-cases (is_over cap c)) [
        | inl over ↦ rw over (quarantined-Adds key item.task l)
        | inr under ↦ rw under (requeued-Adds item.task (put key c l.counters) l)
      ]

      with_key :
          (key : Option String) → Adds (item.task ∷ []) l (recover_with cap dlq_max item.task key l)
      with_key none = requeued-Adds item.task l.counters l
      with_key (some key) = counted-Adds key (incr (lookup key l.counters))

  Adds-trans :
      {ts us : List String} {l l' l'' : Ledger}
      → Adds ts l l'
      → Adds us l' l''
      → Adds (ts ++ us) l l''
  Adds-trans {ts} {us} {l} {l'} {l''} a b = record {
    kept = λ h. Perm.trans (b.kept (omega (arith, length-append ts us, a.room))) (
        Perm.trans (Perm.append_left us (a.kept (omega (arith, length-append ts us)))) (
          subst (λ xs. Perm xs ((ts ++ us) ++ held_by l)) (append_assoc us ts (held_by l))
            (Perm.append_right (held_by l) (perm_append_comm us ts))));
    room = omega (arith, a.room, b.room, length-append ts us);
  }

  Adds-none : (l : Ledger) → Adds [] l l
  Adds-none l = record { kept = λ h. Perm.refl _; room = omega arith }

  recover_items-Adds :
      (items : List Item) (l : Ledger) → Adds (tasks_of items) l (recover_items cap dlq_max items l)
  unfolding recover_items
  recover_items-Adds [] l = Adds-none l
  recover_items-Adds (item ∷ items) l =
      Adds-trans (recover_item-Adds item l)
        (recover_items-Adds items (recover_item cap dlq_max item l))

  recover_entries-Adds :
      (entries : List Entry) (l : Ledger)
      → Adds (all_tasks entries) l (recover_entries cap dlq_max entries l)
  unfolding recover_entries
  recover_entries-Adds [] l = Adds-none l
  recover_entries-Adds (entry ∷ entries) l =
      Adds-trans (recover_items-Adds entry.tasks l)
        (recover_entries-Adds entries (recover_items cap dlq_max entry.tasks l))

  -- If the dead-letter queue has room, pass 2 keeps every message that was in the inbox, in the
  -- dead-letter queue or in an expired claim, as often as it was there.
  pub recover_entries-perm :
      (entries : List Entry) (l : Ledger)
      → length l.dlq + length (all_tasks entries) ≤ dlq_max
      → Perm (held_by (recover_entries cap dlq_max entries l)) (all_tasks entries ++ held_by l)
  recover_entries-perm entries l h = Adds.kept (recover_entries-Adds entries l) h

  -- The tasks that come back in order when none is quarantined.
  record Appends (ts : List String) (l l' : Ledger) : Type 0 where
    grows : l.deadlettered ≤ l'.deadlettered
    order : l'.deadlettered ≡ l.deadlettered → (l'.inbox ≡ l.inbox ++ ts) × (l'.dlq ≡ l.dlq)

  recover_item-Appends :
      (item : Item) (l : Ledger) → Appends (item.task ∷ []) l (recover_item cap dlq_max item l)
  unfolding recover_item
  recover_item-Appends item l = with_key item.counter_key
    where
      counted-Appends :
          (key : String) (c : Counter)
          → Appends (item.task ∷ []) l (counted cap dlq_max key item.task c l)
      counted-Appends key c = elim (Bool-cases (is_over cap c)) [
        | inl over ↦ rw over (record { grows = omega arith; order = λ e. absurd (omega arith) })
        | inr under ↦ rw under (record { grows = omega arith; order = λ e. (refl, refl) })
      ]

      with_key :
          (key : Option String)
          → Appends (item.task ∷ []) l (recover_with cap dlq_max item.task key l)
      with_key none = record { grows = omega arith; order = λ e. (refl, refl) }
      with_key (some key) = counted-Appends key (incr (lookup key l.counters))

  Appends-trans :
      {ts us : List String} {l l' l'' : Ledger}
      → Appends ts l l'
      → Appends us l' l''
      → Appends (ts ++ us) l l''
  Appends-trans {ts} {us} {l} {l'} {l''} a b = record {
    grows = omega (arith, a.grows, b.grows);
    order = λ e.
        let (inbox, dlq) = a.order (omega (arith, a.grows, b.grows)) in
        let (inbox', dlq') = b.order (omega (arith, a.grows, b.grows)) in
        (inbox' ∙ ap (λ xs. xs ++ us) inbox ∙ append_assoc l.inbox ts us, dlq' ∙ dlq);
  }

  Appends-none : (l : Ledger) → Appends [] l l
  Appends-none l = record { grows = omega arith; order = λ e. (sym (append-nil l.inbox), refl) }

  recover_items-Appends :
      (items : List Item) (l : Ledger)
      → Appends (tasks_of items) l (recover_items cap dlq_max items l)
  unfolding recover_items
  recover_items-Appends [] l = Appends-none l
  recover_items-Appends (item ∷ items) l =
      Appends-trans (recover_item-Appends item l)
        (recover_items-Appends items (recover_item cap dlq_max item l))

  recover_entries-Appends :
      (entries : List Entry) (l : Ledger)
      → Appends (all_tasks entries) l (recover_entries cap dlq_max entries l)
  unfolding recover_entries
  recover_entries-Appends [] l = Appends-none l
  recover_entries-Appends (entry ∷ entries) l =
      Appends-trans (recover_items-Appends entry.tasks l)
        (recover_entries-Appends entries (recover_items cap dlq_max entry.tasks l))

  -- If pass 2 quarantines nothing, the tasks stand at the inbox's tail in the order of the claims
  -- and of each claim's tasks, and the dead-letter queue is as it was.
  pub recover_entries-append :
      (entries : List Entry) (l : Ledger)
      → (recover_entries cap dlq_max entries l).deadlettered ≡ l.deadlettered
      → ((recover_entries cap dlq_max entries l).inbox ≡ l.inbox ++ all_tasks entries)
        × ((recover_entries cap dlq_max entries l).dlq ≡ l.dlq)
  recover_entries-append entries l e = Appends.order (recover_entries-Appends entries l) e
