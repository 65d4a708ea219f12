-- ===== src/Claims/Recover/Laws.antt =====
-- What claims-recover.lua does to the keys of an actor.
use mathlib.Core.List.{Perm}
use gptqueue.Prelude.{
  ℕ, ◌+◌, ◌≤◌, String, none, List, [], ◌∷◌, ◌++◌, ◌≡◌, if◌then◌else◌, length, arith, lookup, ◌∙◌,
  ap, subst, sym, perm_exchange,
}
use gptqueue.Claims.Codec.{Json}
use gptqueue.Claims.State.{Slot, holds, wrong_type, State, expired}
use gptqueue.Claims.State.Laws.{IsIndex}
use gptqueue.Claims.Recover.{
  Entry, Ledger, opened, Recovery, done, corrupt, drop_claims, drop_index, plan, passes, pass_2,
  written, recover_entries, recover_script,
}
use gptqueue.Claims.Recover.Counts.{
  Counts, total_tasks, AllWithin, recover_entries-Counts, recover_entries-AllWithin,
}
use gptqueue.Claims.Recover.Expiry.{
  live, mem, drop_index-expired, lookup-drop_claims, stored_tasks, claimed-drop, all_tasks-plan,
}
use gptqueue.Claims.Scripts.Letters.{claimed_tasks}
use gptqueue.Claims.Recover.Ledgers.{recover_entries-perm, recover_entries-append}

-- The tasks of the claims that have expired, as pass 1 decodes them.
abbrev pub expired_entries : Json → ℕ → State → List Entry
expired_entries json now st = plan json st.claims (expired now st.index)

module _ (cap dlq_max : ℕ) (json : Json) (st : State) where
  pass_2-corrupt :
      (ids : List String) (entries : List Entry) (i q : Slot) (st' : State)
      → pass_2 cap dlq_max st ids entries i q ≡ (st', corrupt)
      → st' ≡ st
  pass_2-corrupt ids entries (holds inbox) (holds dlq) st' e = ground arith
  pass_2-corrupt ids entries wrong_type q st' e = ground arith
  pass_2-corrupt ids entries _ wrong_type st' e = ground arith

  passes-corrupt :
      (ids : List String) (st' : State) → passes cap dlq_max json st ids ≡ (st', corrupt) → st' ≡ st
  passes-corrupt [] st' e = ground arith
  passes-corrupt (id ∷ ids) st' e =
      pass_2-corrupt (id ∷ ids) (plan json st.claims (id ∷ ids)) st.inbox st.dlq st' e

  pass_2-done :
      (ids : List String) (entries : List Entry) (i q : Slot) (inbox dlq : List String)
      (st' : State) (r d : ℕ)
      → i ≡ holds inbox
      → q ≡ holds dlq
      → pass_2 cap dlq_max st ids entries i q ≡ (st', done r d)
      → written st ids (recover_entries cap dlq_max entries (opened st.counters inbox dlq))
        ≡ (st', done r d)
  pass_2-done ids entries (holds i) (holds q) inbox dlq st' r d hi hq e = ground arith
  pass_2-done ids entries wrong_type q inbox dlq st' r d hi hq e = cc
  pass_2-done ids entries _ wrong_type inbox dlq st' r d hi hq e = cc

  passes_none :
      (inbox dlq : List String) (st' : State) (r d : ℕ)
      → st.inbox ≡ holds inbox
      → st.dlq ≡ holds dlq
      → passes cap dlq_max json st [] ≡ (st', done r d)
      → written st []
          (recover_entries cap dlq_max (plan json st.claims []) (opened st.counters inbox dlq))
        ≡ (st', done r d)
  unfolding plan recover_entries drop_claims drop_index
  passes_none inbox dlq st' r d hi hq e = ground arith

  passes-done :
      (ids : List String) (inbox dlq : List String) (st' : State) (r d : ℕ)
      → st.inbox ≡ holds inbox
      → st.dlq ≡ holds dlq
      → passes cap dlq_max json st ids ≡ (st', done r d)
      → written st ids
          (recover_entries cap dlq_max (plan json st.claims ids) (opened st.counters inbox dlq))
        ≡ (st', done r d)
  passes-done [] inbox dlq st' r d hi hq e = passes_none inbox dlq st' r d hi hq e
  passes-done (id ∷ ids) inbox dlq st' r d hi hq e =
      pass_2-done (id ∷ ids) (plan json st.claims (id ∷ ids)) st.inbox st.dlq inbox dlq st' r d hi
        hq e

-- A recovery that finds a key of the wrong type changes nothing at all: no claim, message or counter.
pub recover_corrupt :
    (cap dlq_max : ℕ) (json : Json) (now : ℕ) (st st' : State)
    → recover_script cap dlq_max json now st ≡ (st', corrupt)
    → st' ≡ st
unfolding recover_script
recover_corrupt cap dlq_max json now st st' e =
    passes-corrupt cap dlq_max json st (expired now st.index) st' e

-- A recovery that is done keeps every message: with room in the dead-letter queue, the inbox, the
-- dead-letter queue and the outstanding claims hold together what they held before, as often.
pub recover_conserves :
    (cap dlq_max : ℕ) (json : Json) (now : ℕ) (st st' : State) (inbox dlq : List String) (r d : ℕ)
    → recover_script cap dlq_max json now st ≡ (st', done r d)
    → st.inbox ≡ holds inbox
    → st.dlq ≡ holds dlq
    → IsIndex st.index
    → length dlq + length (stored_tasks json st.claims (expired now st.index)) ≤ dlq_max
    → (inbox' : List String) × (dlq' : List String) × (st'.inbox ≡ holds inbox')
      × (st'.dlq ≡ holds dlq')
      × Perm
          ((inbox' ++ dlq') ++ claimed_tasks json st'.claims st'.index)
          ((inbox ++ dlq) ++ claimed_tasks json st.claims st.index)
unfolding recover_script
recover_conserves cap dlq_max json now st st' inbox dlq r d e hi hq u room =
    (final.inbox, final.dlq, ap (λ x. x.0.inbox) (sym same), ap (λ x. x.0.dlq) (sym same), perm)
  where
    ids : List String
    ids = expired now st.index

    entries : List Entry
    entries = plan json st.claims ids

    final : Ledger
    final = recover_entries cap dlq_max entries (opened st.counters inbox dlq)

    same : written st ids final ≡ (st', done r d)
    same = passes-done cap dlq_max json st ids inbox dlq st' r d hi hq e

    moved : Perm (final.inbox ++ final.dlq) (stored_tasks json st.claims ids ++ (inbox ++ dlq))
    moved =
        subst (λ ts. Perm (final.inbox ++ final.dlq) (ts ++ (inbox ++ dlq)))
          (all_tasks-plan json st.claims ids)
          (recover_entries-perm cap dlq_max entries (opened st.counters inbox dlq)
            (rw (all_tasks-plan json st.claims ids) room))

    left :
        claimed_tasks json (drop_claims ids st.claims) (drop_index ids st.index)
        ≡ claimed_tasks json st'.claims st'.index
    left = ap (λ x. claimed_tasks json x.0.claims x.0.index) same

    perm :
        Perm
          ((final.inbox ++ final.dlq) ++ claimed_tasks json st'.claims st'.index)
          ((inbox ++ dlq) ++ claimed_tasks json st.claims st.index)
    perm =
        perm_exchange (final.inbox ++ final.dlq) (inbox ++ dlq) (stored_tasks json st.claims ids)
          (claimed_tasks json st'.claims st'.index) (claimed_tasks json st.claims st.index) moved
          (subst
            (λ rs.
              Perm (stored_tasks json st.claims ids ++ rs) (claimed_tasks json st.claims st.index))
            left (claimed-drop json now st.claims st.index u))

-- A recovery that is done counts every task of an expired claim once, as recovered or as
-- dead-lettered; as many messages enter the inbox as it calls recovered; a dead-letter queue within
-- its bound stays within it; and no counter passes the cap if none was past it.
pub recover_counts :
    (cap dlq_max : ℕ) (json : Json) (now : ℕ) (st st' : State) (inbox dlq : List String) (r d : ℕ)
    → recover_script cap dlq_max json now st ≡ (st', done r d)
    → st.inbox ≡ holds inbox
    → st.dlq ≡ holds dlq
    → length dlq ≤ dlq_max
    → AllWithin cap st.counters
    → (r + d ≡ total_tasks (plan json st.claims (expired now st.index)))
      × ((inbox' : List String) × (dlq' : List String) × (st'.inbox ≡ holds inbox')
          × (st'.dlq ≡ holds dlq')
          × (length inbox' ≡ length inbox + r)
          × (length dlq' ≤ dlq_max))
      × AllWithin cap st'.counters
unfolding recover_script
recover_counts cap dlq_max json now st st' inbox dlq r d e hi hq bound within = (
  omega (arith, counts.total, ap (λ x. recovered_of x.1) same, ap (λ x. dead_of x.1) same),
  (
    final.inbox,
    final.dlq,
    ap (λ x. x.0.inbox) (sym same),
    ap (λ x. x.0.dlq) (sym same),
    omega (arith, counts.inbox, ap (λ x. recovered_of x.1) same),
    counts.bounded bound,
  ),
  subst (λ x. AllWithin cap x.0.counters) same
      (recover_entries-AllWithin cap dlq_max entries (opened st.counters inbox dlq) within),
)
  where
    entries : List Entry
    entries = plan json st.claims (expired now st.index)

    final : Ledger
    final = recover_entries cap dlq_max entries (opened st.counters inbox dlq)

    same : written st (expired now st.index) final ≡ (st', done r d)
    same = passes-done cap dlq_max json st (expired now st.index) inbox dlq st' r d hi hq e

    counts : Counts cap dlq_max (total_tasks entries) (opened st.counters inbox dlq) final
    counts = recover_entries-Counts cap dlq_max entries (opened st.counters inbox dlq)

    recovered_of : Recovery → ℕ
    recovered_of (done m n) = m
    recovered_of corrupt = 0

    dead_of : Recovery → ℕ
    dead_of (done m n) = n
    dead_of corrupt = 0

-- After a recovery that is done, the index and the hash are free of the expired claims, and the
-- other claims are as they were, in their order.
pub recover_expires :
    (cap dlq_max : ℕ) (json : Json) (now : ℕ) (st st' : State) (inbox dlq : List String) (r d : ℕ)
    → recover_script cap dlq_max json now st ≡ (st', done r d)
    → st.inbox ≡ holds inbox
    → st.dlq ≡ holds dlq
    → IsIndex st.index
    → (st'.index ≡ live now st.index)
      × ((id : String)
          → lookup id st'.claims
            ≡ (if mem id (expired now st.index) then none else lookup id st.claims))
unfolding recover_script
recover_expires cap dlq_max json now st st' inbox dlq r d e hi hq u = (
  ap (λ x. x.0.index) (sym same) ∙ drop_index-expired now st.index u,
  λ id.
      ap (λ x. lookup id x.0.claims) (sym same)
      ∙ lookup-drop_claims id (expired now st.index) st.claims,
)
  where
    same :
        written st (expired now st.index) (
          recover_entries cap dlq_max
            (plan json st.claims (expired now st.index))
            (opened st.counters inbox dlq))
        ≡ (st', done r d)
    same = passes-done cap dlq_max json st (expired now st.index) inbox dlq st' r d hi hq e

-- A recovery that dead-letters nothing appends the tasks of the expired claims to the inbox, in the
-- order of the claims' expiry and of each claim's tasks, and leaves the dead-letter queue alone.
pub recover_in_order :
    (cap dlq_max : ℕ) (json : Json) (now : ℕ) (st st' : State) (inbox dlq : List String) (r : ℕ)
    → recover_script cap dlq_max json now st ≡ (st', done r 0)
    → st.inbox ≡ holds inbox
    → st.dlq ≡ holds dlq
    → (st'.inbox ≡ holds (inbox ++ stored_tasks json st.claims (expired now st.index)))
      × (st'.dlq ≡ st.dlq)
unfolding recover_script
recover_in_order cap dlq_max json now st st' inbox dlq r e hi hq =
    let (to_inbox, to_dlq) =
      recover_entries-append cap dlq_max (plan json st.claims (expired now st.index))
        (opened st.counters inbox dlq) (ap (λ x. dead_of x.1) same) in
    (
      ap (λ x. x.0.inbox) (sym same)
          ∙ ap holds (
              to_inbox
              ∙ ap (λ ts. inbox ++ ts) (all_tasks-plan json st.claims (expired now st.index))),
      ap (λ x. x.0.dlq) (sym same) ∙ ap holds to_dlq ∙ sym hq,
    )
  where
    dead_of : Recovery → ℕ
    dead_of (done m n) = n
    dead_of corrupt = 0

    same :
        written st (expired now st.index) (
          recover_entries cap dlq_max
            (plan json st.claims (expired now st.index))
            (opened st.counters inbox dlq))
        ≡ (st', done r 0)
    same = passes-done cap dlq_max json st (expired now st.index) inbox dlq st' r 0 hi hq e
