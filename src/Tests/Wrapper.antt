-- ===== src/Tests/Wrapper.antt =====
-- Runs of src/experimental-wrapper/identity-claim.ts.
use gptqueue.Prelude.{put, lookup, true, false, [], ◌∷◌, ◌≡◌, refl, remove}
use gptqueue.Sessions.Registry.Published.{no_names}
use gptqueue.Wrapper.{State, acquire, acquired, owned, release, lost, shared, verify_session}
use gptqueue.Wrapper.Laws.{IsFree, acquire-exclusive}

-- A name whose session has lost its lease.
abbrev idle : State
idle = record {
  sessions = record {
    sessions = [];
    leases = ("s1", 1000) ∷ [];
    members = ("worker", "s1" ∷ []) ∷ [];
    names = no_names;
  };
  claims = [];
  heartbeats = [];
}

abbrev owned_by_a : State
owned_by_a = record {
  sessions = record {
    sessions = [];
    leases = ("s1", 1000) ∷ [];
    members = ("worker", "s1" ∷ []) ∷ [];
    names = no_names;
  };
  claims = ("worker", "a") ∷ [];
  heartbeats = [];
}

acquires : acquire true 2000 "worker" "a" idle ≡ (owned_by_a, acquired)
unfolding acquire lookup put
acquires = refl

acquire-exclusive_example :
    IsFree true 2000 "worker" idle
    × (acquire false 3000 "worker" "b" owned_by_a ≡ (owned_by_a, owned))
    × (release "worker" "b" owned_by_a ≡ (owned_by_a, false))
    × (release "worker" "a" owned_by_a
        ≡ (record owned_by_a { claims = remove "worker" owned_by_a.claims }, true))
acquire-exclusive_example =
    acquire-exclusive true false 2000 3000 "worker" "a" "b" idle owned_by_a acquires refl

not_verified : verify_session "worker" "b" "s1" owned_by_a ≡ lost
unfolding verify_session lookup
not_verified = refl

other_session : verify_session "worker" "a" "s2" owned_by_a ≡ shared
unfolding verify_session lookup
other_session = refl
