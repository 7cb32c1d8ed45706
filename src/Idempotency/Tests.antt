-- ===== src/Idempotency/Tests.antt =====
-- The theorems on the idempotency cache, applied to a full cache of two ids.
use wave_span.Base.{◌≡◌, some, [], ◌∷◌}
use wave_span.Version.{Version, zero_version}
use wave_span.Idempotency.{Idempotency, check, record_id, resolved, check-record_id}

abbrev one : Version
one = record zero_version { writer_sequence = 1 }

abbrev two : Version
two = record zero_version { writer_sequence = 2 }

abbrev full_cache : Idempotency
full_cache = record {
  seen = (65 ∷ [], one) ∷ (66 ∷ [], two) ∷ [];
  order = (65 ∷ []) ∷ (66 ∷ []) ∷ [];
  cap = 2;
}

check-record_id_example :
    check (record_id full_cache (67 ∷ []) two) (67 ∷ [])
    ≡ some (resolved (check full_cache (67 ∷ [])) two)
check-record_id_example = check-record_id full_cache (67 ∷ []) two
