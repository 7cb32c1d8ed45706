-- ===== src/Conflict/Tests.antt =====
-- The theorems on conflict resolution, applied to concrete records.
use wave_span.Base.{
  ℕ, ◌≡◌, ◌≢◌, ◌↔◌, sym, ap, arith, Bool, true, false, none, some, [], ◌∷◌, inl, inr, IsIn, ◌∙◌,
  Bytes, bytes_eq, codes, if◌then◌else◌,
}
use wave_span.Version.{Version, from_proto}
use wave_span.Records.{StoredRecord, version_of}
use wave_span.Conflict.{
  last_write_wins, keep_siblings, new_registry, resolver, policy_keep_siblings,
}
use wave_span.Conflict.Highest.{
  inputs, IsLastWrite, HasUniqueVersions, SameRecords, last_write_wins-IsLastWrite,
  last_write_wins_converges,
}
use wave_span.Conflict.Sort.{IsSorted, HasNoRepeat}
use wave_span.Conflict.Siblings.{
  IsRange, IsKept, records_of, keep_siblings_lem, keep_siblings_converges,
}
use wave_span.Conflict.Policies.{resolver-new_registry}

abbrev sample_version : ℕ → ℕ → Version
sample_version physical_ms writer = record {
  hlc_physical_ms = physical_ms;
  hlc_logical = 0;
  writer_cluster_id = writer ∷ [];
  writer_member_id = 77 ∷ [];
  writer_sequence = 1;
}

abbrev sample_record : ℕ → ℕ → Bool → StoredRecord
sample_record physical_ms writer tombstone = record {
  logical_key = 107 ∷ [];
  value = none;
  version = some (sample_version physical_ms writer);
  expires_at_unix_ms = none;
  tombstone = tombstone;
  namespace = 110 ∷ [];
  origin_cluster_id = writer ∷ [];
  origin_member_id = 77 ∷ [];
}

-- A write of writer A, a later tombstone of writer B.
abbrev first : StoredRecord
first = sample_record 1000 65 false

abbrev second : StoredRecord
second = sample_record 2000 66 true

thousands_differ : ¬ (◌≡◌ {A = ℕ} 1000 2000)
thousands_differ e = omega arith

first-neq-second : version_of first ≢ version_of second
unfolding from_proto
first-neq-second e = thousands_differ (ap (λ (v : Version). v.hlc_physical_ms) e)

samples_unique : HasUniqueVersions (inputs (some first ∷ none ∷ []) (some second))
samples_unique r s (inl p) (inl q) e = p ∙ sym q
samples_unique r s (inl p) (inr (inl q)) e =
    absurd (first-neq-second (sym (sym (ap version_of p) ∙ (e ∙ ap version_of q))))
samples_unique r s (inr (inl p)) (inl q) e =
    absurd (first-neq-second (sym (ap version_of p) ∙ (e ∙ ap version_of q)))
samples_unique r s (inr (inl p)) (inr (inl q)) e = p ∙ sym q
samples_unique r s (inl p) (inr (inr h)) e = elim h [ ]
samples_unique r s (inr (inl p)) (inr (inr h)) e = elim h [ ]
samples_unique r s (inr (inr h)) _ e = elim h [ ]

swap_two : (r x y : StoredRecord) → IsIn r (x ∷ y ∷ []) → IsIn r (y ∷ x ∷ [])
swap_two r x y (inl p) = inr (inl p)
swap_two r x y (inr (inl q)) = inl q
swap_two r x y (inr (inr h)) = elim h [ ]

samples_same :
    SameRecords
      (inputs (some first ∷ none ∷ []) (some second))
      (inputs (some second ∷ []) (some first))
samples_same r = (swap_two r second first, swap_two r first second)

last_write_wins-IsLastWrite_example :
    IsLastWrite
      (inputs (some first ∷ none ∷ []) (some second))
      (last_write_wins (some first ∷ none ∷ []) (some second))
last_write_wins-IsLastWrite_example =
    last_write_wins-IsLastWrite (some first ∷ none ∷ []) (some second)

last_write_wins_converges_example :
    last_write_wins (some first ∷ none ∷ []) (some second)
    ≡ last_write_wins (some second ∷ []) (some first)
last_write_wins_converges_example =
    last_write_wins_converges (some first ∷ none ∷ []) (some second ∷ []) (some second) (some first)
      samples_unique samples_same

-- A map that is walked in insertion order.
in_order : IsRange (λ m. m)
in_order = record { same = λ m r. (λ i. i, λ i. i); once = λ m h. h }

keep_siblings_lem_example :
    ((s : StoredRecord)
      → IsIn s (records_of (keep_siblings (λ m. m) (some first ∷ none ∷ []) (some second)))
        ↔ IsKept (inputs (some first ∷ none ∷ []) (some second)) s)
    × IsSorted (records_of (keep_siblings (λ m. m) (some first ∷ none ∷ []) (some second)))
    × HasNoRepeat (records_of (keep_siblings (λ m. m) (some first ∷ none ∷ []) (some second)))
unfolding from_proto
keep_siblings_lem_example =
    keep_siblings_lem (λ m. m) (some first ∷ none ∷ []) (some second) in_order samples_unique
      ((omega arith, tt), ((omega arith, tt), tt))

keep_siblings_converges_example :
    keep_siblings (λ m. m) (some first ∷ none ∷ []) (some second)
    ≡ keep_siblings (λ m. m) (some second ∷ []) (some first)
keep_siblings_converges_example =
    keep_siblings_converges (λ m. m) (λ m. m) (some first ∷ none ∷ []) (some second ∷ [])
      (some second) (some first) in_order in_order samples_unique samples_same

-- A deferred policy.
abbrev crdt_or_set : Bytes
crdt_or_set = codes "crdt-or-set"

resolver-new_registry_example : resolver (new_registry (λ m. m)) crdt_or_set ≡ (
    if bytes_eq policy_keep_siblings crdt_or_set then keep_siblings (λ m. m) else last_write_wins)
resolver-new_registry_example = resolver-new_registry (λ m. m) crdt_or_set
