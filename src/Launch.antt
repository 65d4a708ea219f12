-- ===== src/Launch.antt =====
-- src/core/launch-policy.ts: which commands the wake launcher may spawn. `Paths` models what the
-- source uses of Node's `path` module on POSIX, `Commands` the tests on commands and arguments, and
-- `Policy` the operator's document and the decision.
pub mod Paths
pub mod Commands
pub mod Policy
