-- ===== src/Custody/Store/Release/Sound.antt =====
-- `release` of src/core/custody-store.ts and the texts in the hash.
use gptqueue.Prelude.{ℕ, zero, suc, ◌+◌, Option, none, some, ◌≡◌, refl, ap, ◌∙◌}
use gptqueue.Outcome.{Outcome, ok, err, throws}
use gptqueue.Json.{JsonCodec}
use gptqueue.Claims.Codec.{Clock}
use gptqueue.Custody.Handoff.{HandoffRecord, CustodyErrorCode}
use gptqueue.Custody.Handoff.Laws.{to_value}
use gptqueue.Custody.Model.{
  CustodyState, unowned, held, released, forfeited, CustodyRecord, release,
}
use gptqueue.Custody.Store.Laws.{
  IsSound, AreHonest, read-IsStored, transition_set, lazy_expire-IsExpired,
}
use gptqueue.Custody.Store.Read.Laws.{IsStored}
use gptqueue.Custody.Store.{Store, Attempt, answered, raced, read_record}
use gptqueue.Custody.Store.Release.{
  CustodyReleaseInput, is_custodian, release_in, release_read, release_again, release_admitted,
}
use gptqueue.Custody.Store.Laws.{either-IsSound}

module _ (json : JsonCodec) (clock : Clock) (others : ℕ → Store → Store)
    (honest : AreHonest json others) where
  release_in-IsSound :
      (c : CustodyState) (n : ℕ) (input : CustodyReleaseInput) (handoff : HandoffRecord)
      (r : CustodyRecord) (st : Store)
      → IsSound json st
      → IsStored r
      → r.worktree.worktree_path ≡ input.worktree_path
      → IsSound json (release_in json clock others c n input handoff r st).0
  release_in-IsSound held n input handoff r st s stored same =
      either-IsSound json (is_custodian json clock others r.custodian input.session_id) _ _
        (transition_set json clock others honest n input.worktree_path r
          (release (to_value handoff)) "held" input.session_id st s stored same)
        s
  release_in-IsSound unowned n input handoff r st s stored same = s
  release_in-IsSound released n input handoff r st s stored same = s
  release_in-IsSound forfeited n input handoff r st s stored same = s

  release_read-IsSound :
      (n : ℕ) (input : CustodyReleaseInput) (handoff : HandoffRecord)
      (o : Option (Option CustodyRecord)) (st : Store)
      → IsSound json st
      → read_record json clock others input.worktree_path st ≡ o
      → IsSound json (release_read json clock others n input handoff o st).0
  release_read-IsSound n input handoff none st s e = s
  release_read-IsSound n input handoff (some none) st s e = s
  release_read-IsSound n input handoff (some (some r)) st s e =
      let (stored, at_path, there) =
        read-IsStored json clock others honest input.worktree_path st r s e in
      let (sound, good, same) =
        lazy_expire-IsExpired json clock others honest n r input.now st s stored in
      release_in-IsSound _ (n + 1) input handoff _ _ sound good
        (ap (λ w. w.worktree_path) same ∙ at_path)

  release_again-IsSound :
      (more : ℕ) (input : CustodyReleaseInput) (handoff : HandoffRecord) (p : Store × Attempt)
      → IsSound json p.0
      → IsSound json (release_again json clock others more input handoff p).0
  release_again-IsSound zero input handoff (st, raced) s = honest 6 st s
  release_again-IsSound (suc more) input handoff (st, raced) s =
      release_again-IsSound more input handoff _
        (release_read-IsSound 4 input handoff _ (others 3 st) (honest 3 st s) refl)
  release_again-IsSound zero input handoff (st, answered a) s = s
  release_again-IsSound (suc more) input handoff (st, answered a) s = s

  pub release-IsSound :
      (input : CustodyReleaseInput) (o : Outcome CustodyErrorCode HandoffRecord) (st : Store)
      → IsSound json st
      → IsSound json (release_admitted json clock others input o st).0
  release-IsSound input (ok handoff) st s =
      release_again-IsSound 1 input handoff _
        (release_read-IsSound 1 input handoff _ (others 0 st) (honest 0 st s) refl)
  release-IsSound input (err e) st s = s
  release-IsSound input throws st s = s
