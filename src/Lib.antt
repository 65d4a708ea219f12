-- ===== src/Lib.antt =====
-- gptqueue is a message queue for coding agents: an MCP server whose tools keep their state in
-- Redis and change it through Lua scripts. This library models the core of it and proves what it
-- promises.
--
-- The parts and their files (paths from the repository's root):
--
-- Prelude, Value, Outcome, Json: what the parts share. Value is a value of type `unknown` in the
-- TypeScript sources, or what JSON.parse returns; Outcome is a result `{ ok: true }`, an error
-- code, or an exception. Json is JSON.parse and JSON.stringify, with cjson in the scripts, as a
-- parameter of the stores.
--
-- Custody: src/core/custody-model.ts. Custody/Handoff is admitHandoffRecord, Custody/Model is
-- createCustody and transitionCustody, with one function for each kind of event (claim_from,
-- assume_from, release_from, expire_from). Which event comes when is up to the callers, so `run`
-- applies any list of events. Custody/Store is src/core/custody-store.ts with
-- custody-conditional-set.lua: claim, release, status and the lazy expiry over the hash of
-- records. Between two calls of Redis other clients may run, so each operation takes `others`, and
-- `others n` is what they do to the hash before the operation's call number n. Custody/Store/Read
-- is how a record is read and written, Custody/Store/Calls sequences of calls,
-- Custody/Store/Claim, Custody/Store/Release and Custody/Store/Status are the three methods, each
-- with a child Sound on the texts in the hash, and Custody/Store/Grants what an answer of them
-- promises, Custody/Store/Races what the lazy expiry overwrites, Custody/Store/Release/Attempts
-- what an attempt of a release has read and written.
--
-- Directory: src/core/actor-directory.ts with actor-conditional-set.lua, in the same manner. Its
-- operations call the admission of Presence and the policy of Launch. Directory/Stored is the
-- admission of stored values, Directory/Owners who may write a record.
--
-- Mailbox: src/core/mailbox-store.ts with bounded-push.lua, bounded-push-idempotent.lua and
-- migrate-messages.lua, and the messages of src/core/types.ts. Mailbox has the keys and the
-- messages, Mailbox/Push send and sendIdempotent, its child Attempts how the attempts of a send
-- end, Mailbox/Moves receive, ensureMailbox, deleteMailbox and migrateMessages, Mailbox/Receives
-- the connections of blocked receives, closeReceives and status. Beside `others`, a send takes the
-- clock of Redis at each attempt, and what XADD keeps of a stream that it trims.
--
-- Sessions: src/core/session-store.ts. Sessions has the sessions, their leases and the sets of an
-- agent's sessions, Sessions/Registry the three scripts that write, undo and publish a name's
-- registry value, Sessions/Presence getPresenceMany and getLeaseState, Sessions/Timer the timer
-- that refreshes a lease, Sessions/Created what createSession leaves behind.
--
-- Wrapper: src/experimental-wrapper/identity-claim.ts, the scripts that acquire, verify and
-- release a wrapper's claim of an agent's name, over the state of Sessions.
--
-- Claims: src/core/task-claim-store.ts and the scripts src/mcp-server/lua/claims-*.lua that it
-- runs. Claims/State holds the Redis keys of an actor and the commands on a sorted set;
-- Claims/Codec how claims are read from JSON; Claims/Recover is claims-recover.lua; Claims/Scripts
-- is claims-batch-claim.lua and claims-ack.lua, its child Renew claims-renew.lua, its child
-- Letters claims-requeue.lua and claims-purge.lua; Claims/Methods is the class TaskClaimStore,
-- whose methods run the scripts one after another on the state, as the source does, with the
-- guards of Claims/Methods/Guards. A script of Redis runs without interruption, so each is one
-- function on the state.
--
-- Calendar: days_from_civil, ms_from_iso and iso_from_ms of claims-renew.lua. Calendar has the
-- numbers, Calendar/Text the texts.
--
-- Wake: src/core/wake-lease.ts with wake-lease-acquire.lua, wake-lease-clear.lua and
-- wake-lease-attach-spawn.lua. The TTL of a key is a deadline on the clock of Redis, an argument
-- of each operation.
--
-- Launch: src/core/launch-policy.ts. Launch/Paths has the POSIX functions of Node's path module
-- that it calls, Launch/Commands the tests on commands and arguments, its child Dangers a
-- description of the commands and arguments that they refuse, Launch/Policy the allowlist's
-- document, its file and the decision.
--
-- Presence: src/core/actor-presence.ts, classifyPresence and admitActorProfile.
--
-- Tests: runs at concrete inputs, with a concrete JSON format and clock in Tests/Fixtures and
-- Tests/Codec.
--
-- Parameters: the JSON codecs (JsonCodec of Json, the records Json of Claims/Codec and of Wake),
-- Date.parse and toISOString (Clock; date_parse), randomUUID (an argument), String(value) of a
-- value that is no text (coerce), and the process, its file system, homedir and path.join of Host
-- in Launch/Policy. What is asked of a codec is that what is encoded of a claim, a lease or a
-- value that JSON can hold decodes to it; of a clock, that a text it writes parses back.
--
-- Bounds and fuel: numbers are natural numbers; instants count milliseconds from 1970. The one
-- loop on fuel, widen in Calendar/Text, has a number's own value plus one as fuel, which exceeds
-- its count of digits. The retries are bounded by the source: two attempts in the custody store
-- and the directory, ten in the mailboxes. A push in chunks has as many chunks allowed as there
-- are messages.
--
-- Not modelled: the waits between attempts; calls of Redis that fail, except those of a
-- registration's registry write and its rollback; the inputs of admitActorProfile whose fields do
-- not have their declared types, and fields beyond those, which it keeps; instants before 1970;
-- the expiry of recovery counters by their TTL; event and trace streams of the claims; messages of
-- errors; Object.freeze, since values cannot change here; stored tasks that are no strings; the
-- fields of a stored custody record that its schema does not name, which the source keeps; keys of
-- the wrong type where a Slot does not stand; deadLetterEntries. A number of a caller that is
-- negative or no integer is one value, since every guard refuses these alike. The other
-- components, such as the continuity of mailboxes, diagnostics, discovery and the adapters, are
-- not modelled.
pub mod Prelude
pub mod Value
pub mod Outcome
pub mod Json
pub mod Custody
pub mod Directory
pub mod Mailbox
pub mod Sessions
pub mod Wrapper
pub mod Calendar
pub mod Claims
pub mod Wake
pub mod Launch
pub mod Presence
pub mod Tests
