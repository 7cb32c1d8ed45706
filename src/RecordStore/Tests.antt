-- ===== src/RecordStore/Tests.antt =====
-- The theorems on the record store, applied to a store that holds one record.
use wave_span.Base.{
  IsIn, ◌↔◌, ◌≢◌, ℕ, ◌≡◌, refl, arith, Bool, true, false, none, some, [], ◌∷◌, lookup, insert,
}
use wave_span.Base.Int.{pos}
use wave_span.Version.{Version}
use wave_span.Records.{StoredRecord, ValueBody, version_of}
use wave_span.RecordStore.{Store, LatestPointer}
use wave_span.RecordStore.Apply.{
  apply, choose, by_pointer, by_cache, get_cached, get_pointer, stored_pointer, write, pointer_of,
  take_incoming,
}
use wave_span.Conflict.Highest.{IsHighest}
use wave_span.RecordStore.Keys.{latest_key, data_key, ttl_key}
use wave_span.RecordStore.Namespace.{namespace_of_key, namespace_of_key-keys}
use wave_span.RecordStore.Siblings.{apply_siblings, IsVersionIn, apply_siblings-IsHighest}
use wave_span.RecordStore.Forget.{prefix_end}
use wave_span.RecordStore.Timeless.{IsTimeless, apply-IsTimeless}
use wave_span.RecordStore.Cache.{IsCoherent, IsName, choose-by_pointer, apply-IsCoherent}
use wave_span.RecordStore.Live.{IsWinner, IsCounted, apply-IsWinner, apply-IsCounted, live_count}
use wave_span.RecordStore.Read.{get, served, get-apply}

abbrev sample_version : ℕ → Version
sample_version physical_ms = record {
  hlc_physical_ms = physical_ms;
  hlc_logical = 0;
  writer_cluster_id = 65 ∷ [];
  writer_member_id = 77 ∷ [];
  writer_sequence = 1;
}

abbrev sample_record : ℕ → Bool → StoredRecord
sample_record physical_ms tombstone = record {
  logical_key = 107 ∷ [];
  value = some (ValueBody.inline (some (1 ∷ 2 ∷ [])));
  version = some (sample_version physical_ms);
  expires_at_unix_ms = none;
  tombstone = tombstone;
  namespace = 110 ∷ [];
  origin_cluster_id = 65 ∷ [];
  origin_member_id = 77 ∷ [];
}

abbrev empty_store : Store
empty_store = record {
  meta = [];
  ttl = [];
  records = [];
  log = [];
  log_seq = 0;
  latest_ver = λ i. [];
  live_keys = pos 0;
  engine_ms = pos 5000;
}

empty_store-IsCoherent : IsCoherent empty_store
unfolding get_cached lookup
empty_store-IsCoherent = record { agrees = λ namespace key n. tt }

sample-IsName : IsName (110 ∷ [])
sample-IsName = record { no_zero = (omega arith, tt); short = omega arith }

-- The store after a first write.
abbrev sample_store : Store
sample_store = (apply empty_store (sample_record 1000 false) 1).0

empty_store-IsTimeless : IsTimeless empty_store
empty_store-IsTimeless = record { pointers = tt; records = tt; index = refl }

apply-IsCoherent_example : IsCoherent sample_store × IsTimeless sample_store
apply-IsCoherent_example =
    apply-IsCoherent empty_store (sample_record 1000 false) 1 empty_store-IsCoherent
      empty_store-IsTimeless sample-IsName refl

sample_store-IsTimeless : IsTimeless sample_store
sample_store-IsTimeless =
    apply-IsTimeless empty_store (sample_record 1000 false) 1 empty_store-IsTimeless refl

sample_store-IsCoherent : IsCoherent sample_store
sample_store-IsCoherent =
    (apply-IsCoherent empty_store (sample_record 1000 false) 1 empty_store-IsCoherent
      empty_store-IsTimeless sample-IsName refl).0

choose-by_pointer_example :
    choose sample_store (sample_record 2000 true)
    ≡ by_pointer (sample_record 2000 true) (get_pointer sample_store (110 ∷ []) (107 ∷ []))
choose-by_pointer_example =
    choose-by_pointer sample_store (sample_record 2000 true) sample_store-IsCoherent sample-IsName

apply-IsWinner_example :
    IsWinner
      (sample_record 500 true)
      (get_pointer sample_store (110 ∷ []) (107 ∷ []))
      (apply sample_store (sample_record 500 true) 1).1
    × ((lp : LatestPointer) × (stored_pointer
            (apply sample_store (sample_record 500 true) 1).0
            (110 ∷ [])
            (107 ∷ [])
          ≡ some lp)
        × (lp.winner ≡ (apply sample_store (sample_record 500 true) 1).1))
apply-IsWinner_example =
    apply-IsWinner sample_store (sample_record 500 true) 1 sample_store-IsCoherent sample-IsName

sample_store-IsCounted : IsCounted sample_store
sample_store-IsCounted =
    (apply-IsCounted empty_store (sample_record 1000 false) 1 empty_store-IsCoherent
      empty_store-IsTimeless sample-IsName refl (record { counted = refl }) (omega arith)).0

one_key : live_count sample_store ≡ 1
unfolding apply write insert pointer_of choose by_cache get_cached get_pointer by_pointer
    take_incoming lookup
one_key = refl

apply-IsCounted_example :
    IsCounted (apply sample_store (sample_record 2000 true) 1).0
    × IsTimeless (apply sample_store (sample_record 2000 true) 1).0
apply-IsCounted_example =
    apply-IsCounted sample_store (sample_record 2000 true) 1 sample_store-IsCoherent
      sample_store-IsTimeless sample-IsName refl sample_store-IsCounted (omega (arith, one_key))

get-apply_example :
    (get (apply empty_store (sample_record 1000 false) 1).0 (110 ∷ []) (107 ∷ [])
      ≡ served (sample_record 1000 false))
    × IsTimeless (apply empty_store (sample_record 1000 false) 1).0
unfolding get_pointer lookup
get-apply_example =
    get-apply empty_store (sample_record 1000 false) 1 empty_store-IsCoherent empty_store-IsTimeless
      sample-IsName refl tt

namespace_of_key-keys_example :
    (namespace_of_key (latest_key (110 ∷ []) (107 ∷ [])) ≡ some (110 ∷ []))
    × (namespace_of_key (data_key (110 ∷ []) (107 ∷ []) (sample_version 1000)) ≡ some (110 ∷ []))
    × (namespace_of_key (ttl_key (pos 90000) (110 ∷ []) (107 ∷ [])) ≡ some (110 ∷ []))
namespace_of_key-keys_example =
    namespace_of_key-keys (110 ∷ []) (107 ∷ []) (sample_version 1000) (pos 90000) (omega arith)

apply_siblings-IsHighest_example :
    (w : StoredRecord) × IsHighest w (sample_record 1000 false ∷ sample_record 2000 true ∷ [])
    × ((lp : LatestPointer) × (get_pointer
            (apply_siblings empty_store
              (110 ∷ [])
              (107 ∷ [])
              (sample_record 1000 false ∷ sample_record 2000 true ∷ []))
            (110 ∷ [])
            (107 ∷ [])
          ≡ some lp)
        × (lp.winner ≡ version_of w)
        × (lp.tombstone ≡ w.tombstone)
        × ((v : Version)
            → IsIn v lp.sibling_versions ↔ (
                IsVersionIn v (sample_record 1000 false ∷ sample_record 2000 true ∷ [])
                × (v ≢ version_of w))))
apply_siblings-IsHighest_example =
    apply_siblings-IsHighest empty_store (110 ∷ []) (107 ∷ []) (sample_record 1000 false)
      (sample_record 2000 true ∷ [])

-- A prefix whose last byte is 0xff.
prefix_end_found : prefix_end (1 ∷ 255 ∷ []) ≡ some (2 ∷ [])
unfolding prefix_end
prefix_end_found = refl
