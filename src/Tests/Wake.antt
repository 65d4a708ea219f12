-- ===== src/Tests/Wake.antt =====
-- Runs of src/core/wake-lease.ts: a second request joins a lease, which is then marked and cleared.
use gptqueue.Prelude.{true, false, none, some, [], ◌∷◌, ◌≡◌, refl, arith, lookup, put}
use gptqueue.Calendar.Text.{ms_from_iso, number, iso_from_ms, format_iso, padded}
use gptqueue.Calendar.{days_from_civil, civil_from_days}
use gptqueue.Value.{undefined}
use gptqueue.Outcome.{ok}
use gptqueue.Claims.Methods.Guards.{nat}
use gptqueue.Wake.{WakeLease, lease_value, Store, AcquireInput, acquire, get, end_of_lease}
use gptqueue.Wake.Laws.{acquire_coalesces}
use gptqueue.Tests.Fixtures.{leases_json, clock}

abbrev request : AcquireInput
request = record {
  actor_id = "worker";
  issued_by_session = "s1";
  lease_seconds = nat 60;
  now = "2024-02-29T12:00:00.000Z";
}

abbrev later_request : AcquireInput
later_request = record request { issued_by_session = "s2"; now = "2024-02-29T12:00:30.000Z" }

abbrev lease : WakeLease
lease = record {
  lease_id = "u1";
  actor_id = "worker";
  issued_by_session = "s1";
  issued_at = "2024-02-29T12:00:00.000Z";
  expires_at = "2024-02-29T12:01:00.000Z";
  spawned_pid = undefined;
  spawned_at = undefined;
}

abbrev leased : Store
leased =
    (
      "worker",
      record {
        raw = leases_json.encode (
            lease_value "u1" "worker" "s1" "2024-02-29T12:00:00.000Z" "2024-02-29T12:01:00.000Z"
              none);
        deadline = 60100;
      },
    )
    ∷ []

issue : acquire leases_json clock 100 "u1" request [] ≡ (leased, ok (lease, false))
unfolding acquire ms_from_iso number days_from_civil iso_from_ms format_iso padded civil_from_days
    put lookup
issue = refl

later_end :
    end_of_lease leases_json clock later_request (clock.date_parse later_request.now)
    ≡ some "2024-02-29T12:01:30.000Z"
unfolding ms_from_iso number days_from_civil iso_from_ms format_iso padded civil_from_days
later_end = refl

acquire_coalesces_example :
    acquire leases_json clock 30100 "u2" later_request leased ≡ (leased, ok (lease, true))
acquire_coalesces_example =
    acquire_coalesces leases_json clock 100 30100 "u1" "u2" request later_request [] leased lease
      "2024-02-29T12:01:30.000Z" issue (omega arith) refl refl later_end

present : get leases_json 200 "worker" leased ≡ some lease
unfolding get lookup
present = refl
