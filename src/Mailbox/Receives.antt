-- ===== src/Mailbox/Receives.antt =====
-- The connections of blocked receives in src/core/mailbox-store.ts, `closeReceives`, and `status`. A
-- connection is a number of its own.
use gptqueue.Prelude.{
  ℕ, String, Bool, true, false, not, ◌&&◌, ◌||◌, Option, none, some, List, [], ◌∷◌, ◌≡◌, refl, ap,
  if◌then◌else◌, ◌==◌, any, length, lookup, arith, ◌∙◌,
}
use gptqueue.Value.{Value}
use gptqueue.Outcome.{Outcome, throws, ok}
use gptqueue.Json.{JsonCodec}
use gptqueue.Mailbox.{wrong_type, State, queue_of, or_absent, meta_of, Key, Meta}
use gptqueue.Mailbox.Moves.{receive}

pub record Receives : Type 0 where
  pub is_closed : Bool
  pub connections : List ℕ

-- `closeReceives`
unfoldable pub close_receives : Receives → Receives
close_receives r = record { is_closed = true; connections = [] }

abbrev pub without : ℕ → List ℕ → List ℕ
without c [] = []
without c (d ∷ ds) = let rest = without c ds in if d == c then rest else d ∷ rest

abbrev pub opened : ℕ → Receives → Receives
opened c r = record { is_closed = r.is_closed; connections = c ∷ r.connections }

-- The `finally` of `cancellablePop`.
abbrev pub ended : ℕ → Receives → Receives
ended c r = record { is_closed = r.is_closed; connections = without c r.connections }

-- `cancellablePop` up to its BLPOP: whether it comes to that. The caller may abort before the
-- connection is made, or while it is; `meanwhile` is what else happens then, and `connects` whether
-- the connection succeeds.
unfoldable pub cancellable_pop :
    (aborted_before aborted_then connects : Bool) (meanwhile : Receives → Receives)
    → ℕ
    → Receives
    → Receives × Bool
cancellable_pop aborted_before aborted_then connects meanwhile c r =
    if aborted_before || r.is_closed
    then (r, false)
    else let then_r = meanwhile (opened c r) in
      (ended c then_r, connects && not (aborted_then || then_r.is_closed))

-- `receive`, after its `cancellablePop` has come to BLPOP or thrown.
unfoldable pub receive_unless :
    JsonCodec
    → (ℕ → State → State)
    → Bool
    → String
    → State
    → State × Outcome (Unit {0}) (Option Value)
unfolding receive
receive_unless json others true name st = receive json others name st
receive_unless json others false name st = (st, throws)

pub record MailboxStatus : Type 0 where
  pub agent : String
  pub depth : ℕ
  pub max_size : ℕ

abbrev pub default_queue_bound : ℕ
default_queue_bound = 10

abbrev pub or_default : Option ℕ → ℕ
or_default none = default_queue_bound
or_default (some n) = n

-- An entry of `status`; the bound that is stored is a number.
abbrev pub status_of : String → ℕ → Key Meta → Outcome (Unit {0}) MailboxStatus
status_of name size wrong_type = throws
status_of name size k =
    ok (record { agent = name; depth = size; max_size = or_default (meta_of k).max_size })

abbrev pub status_listed :
    Outcome (Unit {0}) MailboxStatus
    → Outcome (Unit {0}) (List MailboxStatus)
    → Outcome (Unit {0}) (List MailboxStatus)
status_listed (ok s) (ok ss) = ok (s ∷ ss)
status_listed _ _ = throws

-- `targets` are the name that is asked for, or all names of the registry.
unfoldable pub status : List String → State → Outcome (Unit {0}) (List MailboxStatus)
unfolding queue_of
status [] st = ok []
status (name ∷ names) st =
    status_listed (status_of name (length (queue_of name st)) (or_absent (lookup name st.metas)))
      (status names st)

abbrev pub holds_connection : ℕ → Receives → Bool
holds_connection c r = any (λ d. d == c) r.connections

without-any : (c : ℕ) (cs : List ℕ) → any (λ d. d == c) (without c cs) ≡ false
without-any c [] = refl
without-any c (d ∷ ds) = either (d == c) refl (without-any c ds)
  where
    either :
        (b : Bool)
        → (d == c) ≡ b
        → any (λ e. e == c) (without c ds) ≡ false
        → any (λ e. e == c) (if b then without c ds else d ∷ without c ds) ≡ false
    either true e h = h
    either false e h = ap (λ b. b || any (λ x. x == c) (without c ds)) e ∙ h

shut : (a b c : Bool) → c ≡ true → (a && not (b || c)) ≡ false
shut a b c h = ground arith

-- A receive that has not come to its pop when the client shuts down pops nothing: its mailboxes stay
-- as they are, it is answered by an exception, and no connection of it is left.
pub close-receive :
    (json : JsonCodec) (others : ℕ → State → State) (aborted_before aborted_then connects : Bool)
    (before after : Receives → Receives) (c : ℕ) (r : Receives) (name : String) (st : State)
    → ((s : Receives) → s.is_closed ≡ true → (after s).is_closed ≡ true)
    → r.is_closed ≡ false
    → aborted_before ≡ false
    → (receive_unless json others
          (cancellable_pop aborted_before aborted_then connects
            (λ s. after (close_receives (before s)))
            c
            r).1
          name
          st
        ≡ (st, throws))
      × (holds_connection c
            (cancellable_pop aborted_before aborted_then connects
              (λ s. after (close_receives (before s)))
              c
              r).0
          ≡ false)
unfolding cancellable_pop receive_unless close_receives
close-receive json others aborted_before aborted_then connects before after c r name st kept running
      calm =
    rw (calm, running)
      (
        ap (λ b. receive_unless json others b name st)
            (shut connects aborted_then _ (kept (close_receives (before (opened c r))) refl)),
        without-any c _,
      )
