-- ===== src/Custody/Store/Calls.antt =====
-- Whole calls of src/core/custody-store.ts: what the hash holds after any of them.
use gptqueue.Prelude.{
  ℕ, String, false, Option, none, some, List, [], ◌∷◌, ◌≡◌, refl, is_empty_text, lookup, arith,
}
use gptqueue.Json.{JsonCodec}
use gptqueue.Claims.Codec.{Clock}
use gptqueue.Custody.Store.Laws.{IsSound, AreHonest}
use gptqueue.Custody.Store.{Store}
use gptqueue.Custody.Store.Claim.{CustodyClaimInput, claim_worktree}
use gptqueue.Custody.Store.Release.{CustodyReleaseInput, release_worktree}
use gptqueue.Custody.Store.Status.{status}
use gptqueue.Custody.Store.Status.{status_list}
use gptqueue.Custody.Store.Claim.Sound.{claim-IsSound}
use gptqueue.Custody.Store.Release.Sound.{release-IsSound}
use gptqueue.Custody.Store.Status.Sound.{status-IsSound, status_all-IsSound, entries-IsSound}
use gptqueue.Custody.Store.Status.{hgetall}

-- A call of the store, with what the other clients do while it runs.
pub data Call : Type 0 where
  claim_call : (ℕ → Store → Store) → CustodyClaimInput → Call
  release_call : (ℕ → Store → Store) → CustodyReleaseInput → Call
  status_call : (ℕ → Store → Store) → (path now : String) → Call
  list_call : (ℕ → Store → Store) → (now : String) → Call

module _ (json : JsonCodec) (clock : Clock) where
  unfoldable pub after_call : Call → Store → Store
  unfolding claim_worktree release_worktree status status_list
  after_call (claim_call others input) st = (claim_worktree json clock others input st).0
  after_call (release_call others input) st = (release_worktree json clock others input st).0
  after_call (status_call others path now) st = (status json clock others path now st).0
  after_call (list_call others now) st = (status_list json clock others now st).0

  unfoldable pub after_calls : List Call → Store → Store
  unfolding after_call
  after_calls [] st = st
  after_calls (c ∷ cs) st = after_calls cs (after_call c st)

-- The other clients are honest, and a claim names a path, as the caller makes sure.
abbrev pub IsFair : JsonCodec → Call → Type 0
IsFair json (claim_call others input) =
    AreHonest json others × (is_empty_text input.worktree.worktree_path ≡ false)
IsFair json (release_call others input) = AreHonest json others
IsFair json (status_call others path now) = AreHonest json others
IsFair json (list_call others now) = AreHonest json others

abbrev pub AreFair : JsonCodec → List Call → Type 0
AreFair json [] = Unit
AreFair json (c ∷ cs) = IsFair json c × AreFair json cs

call-IsSound :
    (json : JsonCodec) (clock : Clock) (c : Call) (st : Store)
    → IsFair json c
    → IsSound json st
    → IsSound json (after_call json clock c st)
unfolding after_call claim_worktree release_worktree status status_list
call-IsSound json clock (claim_call others input) st (honest, path) s =
    claim-IsSound json clock others honest input _ st path s
call-IsSound json clock (release_call others input) st honest s =
    release-IsSound json clock others honest input _ st s
call-IsSound json clock (status_call others path now) st honest s =
    status-IsSound json clock others honest path now _ (others 0 st) (honest 0 st s) refl
call-IsSound json clock (list_call others now) st honest s =
    status_all-IsSound json clock others honest 1 now (hgetall json clock others (others 0 st))
      (others 0 st) (entries-IsSound json clock others (others 0 st) (honest 0 st s))
      (honest 0 st s)

nothing_there : (raw : String) → ◌≡◌ {A = Option String} none (some raw) → ⊥
nothing_there raw h = ground arith

-- After any calls of claim, release and status, of one worktree and of all, each interleaved with other
-- clients that keep the hash sound, every text in the hash is that of a well-formed record, under the
-- path of its own worktree; a claim names a path that is not empty.
pub calls-IsSound :
    (json : JsonCodec) (clock : Clock) (cs : List Call)
    → AreFair json cs
    → IsSound json (after_calls json clock cs [])
unfolding after_calls lookup
calls-IsSound json clock cs fair =
    from cs [] fair (record { entry = λ path raw there. absurd (nothing_there raw there) })
  where
    from :
        (cs : List Call) (st : Store)
        → AreFair json cs
        → IsSound json st
        → IsSound json (after_calls json clock cs st)
    from [] st f s = s
    from (c ∷ cs) st (f, fs) s =
        from cs (after_call json clock c st) fs (call-IsSound json clock c st f s)
