-- ===== src/Tests/Stores.antt =====
-- Runs of src/core/custody-store.ts.
use gptqueue.Calendar.{civil_from_days, days_from_civil}
use gptqueue.Calendar.Text.{padded, format_iso, iso_from_ms, number, ms_from_iso}
use gptqueue.Prelude.{ℕ, String, true, none, some, List, [], ◌∷◌, ◌≡◌, refl, lookup, put}
use gptqueue.Outcome.{ok}
use gptqueue.Custody.Model.{
  CustodyRecord, CustodyEvent, held, released, forfeited, initial, successor_takeover,
  create_custody, hold, unhold, transition_custody,
}
use gptqueue.Custody.Store.{Store, conditional_set, read_record, lazy_expire, is_lapsed}
use gptqueue.Custody.Store.Claim.{CustodyClaimInput, claim_worktree, lease_end}
use gptqueue.Custody.Store.Release.{CustodyReleaseInput}
use gptqueue.Custody.Store.Read.{custody_value, parse_stored}
use gptqueue.Custody.Store.Laws.{IsSound}
use gptqueue.Custody.Store.Calls.{
  Call, claim_call, release_call, status_call, list_call, after_calls, calls-IsSound,
}
use gptqueue.Custody.Store.Grants.{IsWritten}
use gptqueue.Custody.Store.Claim.Laws.{IsTaking, claim-IsWritten}
use gptqueue.Custody.Store.Races.{lazy_expire_overwrites}
use gptqueue.Tests.Fixtures.{clock}
use gptqueue.Tests.Codec.{json}
use gptqueue.Tests.Custody.{handoff, handoff_value, worktree, worker}

abbrev quiet : ℕ → Store → Store
quiet n st = st

abbrev claim_input : CustodyClaimInput
claim_input = record {
  worktree = worktree;
  lease_seconds = 60;
  inventory = none;
  custodian = worker;
  now = "2024-02-29T12:00:00.000Z";
}

abbrev release_input : CustodyReleaseInput
release_input = record {
  worktree_path = "/w";
  actor_name = "worker";
  session_id = "s1";
  handoff = handoff_value;
  now = "2024-02-29T12:00:30.000Z";
}

abbrev held_for_a_minute : CustodyRecord
held_for_a_minute =
    hold (create_custody worktree) worker initial "2024-02-29T12:01:00.000Z"
      (some "2024-02-29T12:00:00.000Z")

abbrev store_held : Store
store_held = ("/w", json.encode (custody_value held_for_a_minute)) ∷ []

claimed : claim_worktree json clock quiet claim_input [] ≡ (store_held, ok held_for_a_minute)
unfolding claim_worktree conditional_set read_record transition_custody create_custody custody_value
    lookup put ms_from_iso number days_from_civil iso_from_ms format_iso padded civil_from_days
claimed = refl

claim-IsWritten_example :
    (lease : String) × (source : CustodyRecord) × (e : CustodyEvent) × (lease_end json clock quiet
        claim_input
        (clock.date_parse "2024-02-29T12:00:00.000Z")
      ≡ some lease)
    × IsTaking claim_input lease source e
    × IsWritten json clock.date_parse "/w" source e held_for_a_minute store_held
    × (held ≡ held)
    × (some worker ≡ some worker)
    × (some "2024-02-29T12:01:00.000Z" ≡ some lease)
claim-IsWritten_example =
    claim-IsWritten json clock quiet claim_input [] store_held held_for_a_minute claimed

abbrev left : CustodyRecord
left = unhold held_for_a_minute released (some handoff)

abbrev store_left : Store
store_left = ("/w", json.encode (custody_value left)) ∷ []

-- The lease has ended, and another actor takes the worktree over, for a quarter of an hour.
abbrev successor : CustodyClaimInput
successor = record {
  worktree = worktree;
  lease_seconds = 900;
  inventory = some ("notes.txt" ∷ []);
  custodian = record { actor_name = "heir"; session_id = "s2" };
  now = "2024-02-29T12:02:00.000Z";
}

abbrev takeover : ℕ → Store → Store
takeover n st = (claim_worktree json clock quiet successor st).0

abbrev taken : CustodyRecord
taken =
    hold (unhold held_for_a_minute forfeited none)
      (record { actor_name = "heir"; session_id = "s2" }) successor_takeover
      "2024-02-29T12:17:00.000Z" (some "2024-02-29T12:02:00.000Z")

taken_over : lookup "/w" (takeover 0 store_held) ≡ some (json.encode (custody_value taken))
unfolding lookup claim_worktree ms_from_iso number days_from_civil parse_stored custody_value
    create_custody transition_custody iso_from_ms format_iso padded civil_from_days put
taken_over = refl

lapsed : is_lapsed json clock takeover held_for_a_minute "2024-02-29T12:02:00.000Z" ≡ true
unfolding ms_from_iso number days_from_civil
lapsed = refl

lazy_expire_overwrites_example :
    lazy_expire json clock takeover 0 held_for_a_minute "2024-02-29T12:02:00.000Z" store_held ≡ (
      put "/w"
          (json.encode (custody_value (unhold held_for_a_minute forfeited none)))
          (takeover 0 store_held),
      unhold held_for_a_minute forfeited none,
    )
unfolding create_custody
lazy_expire_overwrites_example =
    lazy_expire_overwrites json clock takeover 0 held_for_a_minute taken "2024-02-29T12:02:00.000Z"
      store_held lapsed taken_over refl

abbrev calls : List Call
calls =
    claim_call quiet claim_input
    ∷ release_call quiet release_input
    ∷ status_call quiet "/w" "2024-02-29T12:03:00.000Z"
    ∷ list_call quiet "2024-02-29T12:04:00.000Z"
    ∷ []

calls-IsSound_example : IsSound json (after_calls json clock calls [])
calls-IsSound_example =
    calls-IsSound json clock calls
      (((λ n st s. s), refl), ((λ n st s. s), ((λ n st s. s), ((λ n st s. s), tt))))
