-- ===== src/Custody.antt =====
-- src/core/custody-model.ts: who may act on a worktree, and how that right is handed on.
pub mod Handoff
pub mod Model
pub mod Store
