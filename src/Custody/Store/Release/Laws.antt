-- ===== src/Custody/Store/Release/Laws.antt =====
-- What a release of src/core/custody-store.ts that succeeds promises, whatever other clients do.
use gptqueue.Outcome.{Outcome}
use gptqueue.Custody.Store.{Store}
