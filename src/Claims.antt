-- ===== src/Claims.antt =====
-- src/core/task-claim-store.ts and the Lua scripts that it runs: durable claims on the messages of
-- an actor's inbox, with acknowledgement, renewal, recovery and a dead-letter queue.
pub mod Codec
pub mod State
pub mod Recover
pub mod Scripts
pub mod Methods
