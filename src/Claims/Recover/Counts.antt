-- ===== src/Claims/Recover/Counts.antt =====
-- The numbers that claims-recover.lua returns and the bounds that it keeps.
use gptqueue.Prelude.{
  ℕ, ◌+◌, ◌≤◌, String, Option, none, some, List, [], ◌∷◌, ◌≡◌, length, length-take, length-append,
  arith, Bool-cases, inl, inr, Dict, lookup, lookup-put, lookup-remove, put, subst,
}
use gptqueue.Claims.State.{Counter, count, negative, unusable}
use gptqueue.Claims.Recover.{
  Item, Entry, Ledger, incr, is_over, requeued, counted, recover_with, recover_item, recover_items,
  recover_entries,
}

abbrev pub total_tasks : List Entry → ℕ
total_tasks [] = 0
total_tasks (entry ∷ entries) = length entry.tasks + total_tasks entries

-- What a step of pass 2 does to its ledger, whichever way the task goes.
pub record Counts (cap dlq_max n : ℕ) (l l' : Ledger) : Type 0 where
  pub total : l'.recovered + l'.deadlettered ≡ l.recovered + l.deadlettered + n
  pub inbox : length l'.inbox + l.recovered ≡ length l.inbox + l'.recovered
  pub bounded : length l.dlq ≤ dlq_max → length l'.dlq ≤ dlq_max

module _ (cap dlq_max : ℕ) where
  requeued-Counts :
      (task : String) (counters : Dict Counter) (l : Ledger)
      → Counts cap dlq_max 1 l (requeued task (record l { counters = counters }))
  requeued-Counts task counters l = record {
    total = omega arith;
    inbox = omega (arith, length-append l.inbox (task ∷ []));
    bounded = λ h. h;
  }

  counted-Counts :
      (key task : String) (c : Counter) (l : Ledger)
      → Counts cap dlq_max 1 l (counted cap dlq_max key task c l)
  counted-Counts key task c l = elim (Bool-cases (is_over cap c)) [
    | inl over ↦ rw over (record {
      total = omega arith;
      inbox = omega arith;
      bounded = λ h. omega (arith, length-take dlq_max (task ∷ l.dlq));
    })
    | inr under ↦ rw under (requeued-Counts task (put key c l.counters) l)
  ]

  recover_item-Counts :
      (item : Item) (l : Ledger) → Counts cap dlq_max 1 l (recover_item cap dlq_max item l)
  unfolding recover_item
  recover_item-Counts item l = with_key item.counter_key
    where
      with_key :
          (key : Option String) → Counts cap dlq_max 1 l (recover_with cap dlq_max item.task key l)
      with_key none = requeued-Counts item.task l.counters l
      with_key (some key) = counted-Counts key item.task (incr (lookup key l.counters)) l

  Counts-trans :
      {m n : ℕ} {l l' l'' : Ledger}
      → Counts cap dlq_max m l l'
      → Counts cap dlq_max n l' l''
      → Counts cap dlq_max (m + n) l l''
  Counts-trans c d = record {
    total = omega (arith, c.total, d.total);
    inbox = omega (arith, c.inbox, d.inbox);
    bounded = λ h. d.bounded (c.bounded h);
  }

  recover_items-Counts :
      (items : List Item) (l : Ledger)
      → Counts cap dlq_max (length items) l (recover_items cap dlq_max items l)
  unfolding recover_items
  recover_items-Counts [] l = record { total = omega arith; inbox = omega arith; bounded = λ h. h }
  recover_items-Counts (item ∷ items) l =
      subst (λ n. Counts cap dlq_max n l (recover_items cap dlq_max (item ∷ items) l)) (omega arith)
        (Counts-trans (recover_item-Counts item l)
          (recover_items-Counts items (recover_item cap dlq_max item l)))

  pub recover_entries-Counts :
      (entries : List Entry) (l : Ledger)
      → Counts cap dlq_max (total_tasks entries) l (recover_entries cap dlq_max entries l)
  unfolding recover_entries
  recover_entries-Counts [] l = record {
    total = omega arith;
    inbox = omega arith;
    bounded = λ h. h;
  }
  recover_entries-Counts (entry ∷ entries) l =
      Counts-trans (recover_items-Counts entry.tasks l)
        (recover_entries-Counts entries (recover_items cap dlq_max entry.tasks l))

-- Every counter stands at `cap` or below.
abbrev pub WithinCap : ℕ → Option Counter → Type 0
WithinCap cap (some (count n)) = n ≤ cap
WithinCap cap _ = Unit

abbrev pub AllWithin : ℕ → Dict Counter → Type 0
AllWithin cap counters = (key : String) → WithinCap cap (lookup key counters)

module _ (cap dlq_max : ℕ) where
  counted-AllWithin :
      (key task : String) (c : Counter) (l : Ledger)
      → AllWithin cap l.counters
      → AllWithin cap (counted cap dlq_max key task c l).counters
  counted-AllWithin key task (count n) l w j =
      ground (arith, w j, lookup-put key j (count n) l.counters, lookup-remove key j l.counters)
  counted-AllWithin key task (negative n) l w j =
      ground (arith, w j, lookup-put key j (negative n) l.counters)
  counted-AllWithin key task unusable l w j =
      ground (arith, w j, lookup-put key j unusable l.counters)

  recover_item-AllWithin :
      (item : Item) (l : Ledger)
      → AllWithin cap l.counters
      → AllWithin cap (recover_item cap dlq_max item l).counters
  unfolding recover_item
  recover_item-AllWithin item l w = with_key item.counter_key
    where
      with_key :
          (key : Option String) → AllWithin cap (recover_with cap dlq_max item.task key l).counters
      with_key none = w
      with_key (some key) = counted-AllWithin key item.task (incr (lookup key l.counters)) l w

  recover_items-AllWithin :
      (items : List Item) (l : Ledger)
      → AllWithin cap l.counters
      → AllWithin cap (recover_items cap dlq_max items l).counters
  unfolding recover_items
  recover_items-AllWithin [] l w = w
  recover_items-AllWithin (item ∷ items) l w =
      recover_items-AllWithin items (recover_item cap dlq_max item l)
        (recover_item-AllWithin item l w)

  pub recover_entries-AllWithin :
      (entries : List Entry) (l : Ledger)
      → AllWithin cap l.counters
      → AllWithin cap (recover_entries cap dlq_max entries l).counters
  unfolding recover_entries
  recover_entries-AllWithin [] l w = w
  recover_entries-AllWithin (entry ∷ entries) l w =
      recover_entries-AllWithin entries (recover_items cap dlq_max entry.tasks l)
        (recover_items-AllWithin entry.tasks l w)
