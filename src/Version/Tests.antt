-- ===== src/Version/Tests.antt =====
-- The theorems on versions and clocks, applied to concrete stamps.
use wave_span.Base.{ℕ, ◌+◌, ◌≤◌, ◌≡◌, ◌≢◌, ◌↔◌, refl, arith, lt, eq, true, List, [], ◌∷◌}
use wave_span.Version.{
  Timestamp, Version, compare_timestamp, compare_version, equal, timestamp, mutation_id,
}
use wave_span.Version.Clock.{Clock, UpdateResult, normalize, now, update, max_uint}
use wave_span.Version.Order.{equal-iff-compare_version}
use wave_span.Version.Monotone.{
  IsNormalOf, IsLater, UpdateSpec, normalize-IsNormalOf, now-IsLater, update_lem, update_regresses,
}
use wave_span.Version.Trace.{Event, stamps, IsAscending, stamps-IsAscending}
use wave_span.Version.Identity.{mutation_id_iff}

abbrev stamp : ℕ → ℕ → Timestamp
stamp physical_ms logical = record { physical_ms = physical_ms; logical = logical }

abbrev sample_clock : Clock
sample_clock = record { last = stamp 1000 7; max_skew_ms = 500; skew_rejects = 0 }

normalize-IsNormalOf_example : IsNormalOf 1000 65540 (normalize 1000 65540)
normalize-IsNormalOf_example = normalize-IsNormalOf 1000 65540 (omega arith)

now-IsLater_example :
    IsLater (stamp 1000 7) (now sample_clock 990).1
    × (990 ≤ (now sample_clock 990).1.physical_ms)
    × ((now sample_clock 990).0.last ≡ (now sample_clock 990).1)
    × ((now sample_clock 990).1.physical_ms ≤ max_uint 1000 990 + 1)
now-IsLater_example = now-IsLater sample_clock 990 (omega arith) (omega arith) (omega arith)

update_lem_example :
    UpdateSpec sample_clock
      (stamp 1200 3)
      1100
      (update sample_clock (stamp 1200 3) 1100).0
      (update sample_clock (stamp 1200 3) 1100).1
update_lem_example =
    update_lem sample_clock (stamp 1200 3) 1100 (omega arith) (omega arith) (omega arith)
      (omega arith)

-- The remote stamp has the clock's millisecond and the largest uint32.
update_regresses_example :
    (compare_timestamp (update sample_clock (stamp 1000 4294967295) 1000).0.last (stamp 1000 7)
      ≡ lt)
    × ((update sample_clock (stamp 1000 4294967295) 1000).1 ≡ UpdateResult.accepted (stamp 1000 0))
update_regresses_example =
    update_regresses sample_clock (stamp 1000 4294967295) 1000 (omega arith) (omega arith)
      (omega arith) (omega arith) (omega arith) refl

abbrev sample_events : List Event
sample_events =
    Event.send 990
    ∷ Event.receive (stamp 1200 3) 1100
    ∷ Event.receive (stamp 9000 0) 1100
    ∷ Event.send 1100
    ∷ []

stamps-IsAscending_example : IsAscending (stamp 1000 7) (stamps sample_clock sample_events)
stamps-IsAscending_example =
    stamps-IsAscending sample_clock sample_events 2000 (omega arith) (omega arith) (omega arith)
      (omega arith, ((omega arith, omega arith), ((omega arith, omega arith), (omega arith, tt))))

abbrev sample_version : Version
sample_version = record {
  hlc_physical_ms = 1000;
  hlc_logical = 1;
  writer_cluster_id = 65 ∷ [];
  writer_member_id = 66 ∷ [];
  writer_sequence = 12;
}

abbrev later_version : Version
later_version = record sample_version { hlc_logical = 2; writer_sequence = 11 }

equal-iff-compare_version_example :
    (equal sample_version later_version ≡ true)
    ↔ (compare_version sample_version later_version ≡ eq)
equal-iff-compare_version_example = equal-iff-compare_version sample_version later_version

stamps_differ : compare_timestamp (timestamp sample_version) (timestamp later_version) ≢ eq
unfolding compare_timestamp timestamp
stamps_differ e = ground arith

mutation_id_iff_example : (mutation_id sample_version ≡ mutation_id later_version) ↔ (
    (sample_version.writer_cluster_id ≡ later_version.writer_cluster_id)
    × (sample_version.writer_member_id ≡ later_version.writer_member_id)
    × (sample_version.writer_sequence ≡ later_version.writer_sequence))
mutation_id_iff_example =
    mutation_id_iff sample_version later_version (omega arith, tt) (omega arith, tt)
      (omega arith, tt) (omega arith, tt) (omega arith) (omega arith)
