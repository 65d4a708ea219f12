-- ===== src/Tests/Mailbox.antt =====
-- Runs of src/core/mailbox-store.ts.
use gptqueue.Prelude.{
  put, ℕ, String, true, false, none, some, List, [], ◌∷◌, ◌≡◌, ◌≢◌, ◌⊎◌, refl, arith, lookup,
}
use Prim.Native.String.{◌++◌}
use gptqueue.Outcome.{ok, throws}
use gptqueue.Mailbox.{QueueMessage, task, Header, State, holds, queue_of, message_value}
use gptqueue.Mailbox.Push.{send, sent, duplicate, send_idempotent}
use gptqueue.Mailbox.Push.Laws.{IsBounded, send-IsBounded}
use gptqueue.Mailbox.Push.Attempts.{Ends, send-appends}
use gptqueue.Mailbox.Push.Once.{send_idempotent-once}
use gptqueue.Mailbox.Moves.{letters, migrate_messages, receive}
use gptqueue.Mailbox.Moves.Laws.{IsBlocked, migrate-cases}
use gptqueue.Mailbox.Receives.{
  Receives, receive_unless, cancellable_pop, close_receives, holds_connection, close-receive,
}
use gptqueue.Tests.Codec.{json}
use gptqueue.Prelude.{if◌then◌else◌}
use gptqueue.Prelude.{◌==◌}

abbrev quiet : ℕ → State → State
quiet n st = st

abbrev every : List Header → List Header
every hs = hs

abbrev hour : ℕ → ℕ
hour n = 3600000

abbrev later : ℕ → ℕ
later n = 7200000

abbrev dedupe : String → String → String
dedupe sender key = sender ++ (":" ++ key)

abbrev nobody : State
nobody = record { queues = []; metas = []; dead = []; events = []; outstanding = []; sent = [] }

abbrev question : QueueMessage
question = record {
  id = "m1";
  from = "lead";
  to = "worker";
  timestamp = "2024-02-29T12:00:00.000Z";
  kind = task;
  content = "build";
  metadata = none;
  in_reply_to = none;
}

abbrev retry : QueueMessage
retry = record {
  id = "m2";
  from = "lead";
  to = "worker";
  timestamp = "2024-02-29T13:00:00.000Z";
  kind = task;
  content = "build";
  metadata = none;
  in_reply_to = none;
}

abbrev after_question : State
after_question = (send_idempotent json every 1 dedupe quiet hour question "lead" "k1" nobody).0

-- The mailbox is full until another client takes its message away before the third attempt.
abbrev draining : ℕ → State → State
draining n st = if n == 2 then nobody else st

send-appends_example :
    Ends json every 1 draining 10 0 retry after_question "worker"
      (send json every 1 draining hour retry after_question)
send-appends_example = send-appends json every 1 draining hour retry after_question "worker"

-- The message is there.
drained :
    (queue_of "worker" (send json every 1 draining hour retry after_question).0
      ≡ json.encode (message_value retry) ∷ [])
    × ((send json every 1 draining hour retry after_question).1 ≡ ok true)
unfolding queue_of lookup send put message_value send_idempotent
drained = (refl, refl)

empty-IsBounded : IsBounded 1 nobody
unfolding queue_of lookup
empty-IsBounded = record { entry = λ name. omega arith }

send-IsBounded_example : IsBounded 1 (send json every 1 quiet hour question nobody).0
send-IsBounded_example =
    send-IsBounded json every 1 quiet hour question nobody (λ k s b. b) empty-IsBounded

first_sent :
    send_idempotent json every 1 dedupe quiet hour question "lead" "k1" nobody
    ≡ (after_question, ok (sent, "m1"))
unfolding send_idempotent lookup
first_sent = refl

send_idempotent-once_example :
    send_idempotent json every 1 dedupe quiet later retry "lead" "k1" after_question
    ≡ (after_question, ok (duplicate, "m1"))
send_idempotent-once_example =
    send_idempotent-once json every 1 dedupe quiet quiet hour later question retry "lead" "k1" "m1"
      nobody after_question first_sent (λ n. omega arith) (omega arith) refl

abbrev two_actors : State
two_actors = record {
  queues = ("old", "a" ∷ "b" ∷ []) ∷ ("new", "c" ∷ []) ∷ [];
  metas = [];
  dead = ("old", holds ("d" ∷ [])) ∷ [];
  events = [];
  outstanding = [];
  sent = [];
}

migrate-cases_example :
    (◌≡◌ {A = String} "old" "new")
      × (migrate_messages "old" "new" (some 0) (some 1000) two_actors ≡ (two_actors, ok 0))
    ⊎ (◌≢◌ {A = String} "old" "new")
      × IsBlocked "old" "new" (some 0) (some 1000) two_actors
      × (migrate_messages "old" "new" (some 0) (some 1000) two_actors ≡ (two_actors, throws))
    ⊎ (◌≢◌ {A = String} "old" "new")
      × (¬ IsBlocked "old" "new" (some 0) (some 1000) two_actors)
      × ((migrate_messages "old" "new" (some 0) (some 1000) two_actors).1 ≡ ok 2)
      × (queue_of "new" (migrate_messages "old" "new" (some 0) (some 1000) two_actors).0
          ≡ "c" ∷ "a" ∷ "b" ∷ [])
      × (letters "new" (migrate_messages "old" "new" (some 0) (some 1000) two_actors).0.dead
          ≡ "d" ∷ [])
unfolding queue_of lookup
migrate-cases_example = migrate-cases "old" "new" "new" (some 0) (some 1000) two_actors

abbrev no_receives : Receives
no_receives = record { is_closed = false; connections = [] }

close-receive_example :
    (receive_unless json quiet
        (cancellable_pop false false true (λ s. close_receives s) 1 no_receives).1
        "new"
        two_actors
      ≡ (two_actors, throws))
    × (holds_connection 1 (cancellable_pop false false true (λ s. close_receives s) 1 no_receives).0
        ≡ false)
close-receive_example =
    close-receive json quiet false false true (λ s. s) (λ s. s) 1 no_receives "new" two_actors
      (λ s h. h) refl refl

-- A message that was sent is received, and the mailbox is then empty.
abbrev asked : State
asked = (send json every 1 quiet hour question nobody).0

answered : (receive json quiet "worker" asked).1 ≡ ok (some (message_value question))
unfolding receive lookup send put message_value
answered = refl
