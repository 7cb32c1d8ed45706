-- ===== src/RecordStore/Timeless.antt =====
-- Stores whose rows have no expiry: `Apply` of internal/recordstore/store.go on records without one. The
-- engine hides a row whose expiry is past, and the entries of the time-to-live index share the column
-- family of the pointers; neither matters here.
use wave_span.Base.{
  ℕ, ◌≡◌, refl, sym, subst, Bool-cases, Option-cases, inl, inr, Option, none, some, Bytes, List, [],
  lookup, Values, insert-Values, Values-lookup, Bool,
}
use wave_span.Base.Int.{ℤ, pos}
use wave_span.Records.{StoredRecord, version_of}
use wave_span.RecordStore.{Store, LatestPointer, LatestEntry}
use wave_span.RecordStore.Keys.{latest_key}
use wave_span.RecordStore.Apply.{
  by_pointer, by_cache, choose, take_incoming, get_pointer, stored_pointer, shown, get_cached,
  first_of, write, apply, pointer_of, engine_expiry, index_ttl, is_after, is_not_before,
}

-- No row has an expiry, and the index is empty.
pub record IsTimeless (s : Store) : Type 0 where
  pub pointers :
      Values
        (λ (row : LatestPointer × ℤ). (row.0.expires_at_unix_ms ≡ none) × (row.1 ≡ pos 0))
        s.meta
  pub records : Values (λ (row : StoredRecord × ℤ). row.1 ≡ pos 0) s.records
  pub index : s.ttl ≡ []

-- The pointer of the key, if there is one, has no expiry.
abbrev LastsOr : Option LatestPointer → Type 0
LastsOr none = Unit
LastsOr (some lp) = lp.expires_at_unix_ms ≡ none

-- A row without an expiry is shown.
pub shown-first_of :
    (now : ℤ) (a : LatestPointer) (e : ℤ) → e ≡ pos 0 → shown now (some (a, e)) ≡ some a
unfolding shown
shown-first_of now a e h = rw h refl

pub timeless_pointer :
    (s : Store) (namespace key : Bytes)
    → IsTimeless s
    → get_pointer s namespace key ≡ stored_pointer s namespace key
unfolding get_pointer
timeless_pointer s namespace key t =
    elim (Option-cases (lookup (latest_key namespace key) s.meta)) [
      | inl absent ↦ rw absent refl
      | inr ((lp, e), here) ↦
          let row =
            Values-lookup
              (λ (row : LatestPointer × ℤ). (row.0.expires_at_unix_ms ≡ none) × (row.1 ≡ pos 0))
              (latest_key namespace key) s.meta t.pointers here in
          rw here (shown-first_of s.engine_ms lp e row.1)
    ]

LastsOr-lookup :
    (key : Bytes) (meta : List (Bytes × (LatestPointer × ℤ)))
    → Values (λ (row : LatestPointer × ℤ). (row.0.expires_at_unix_ms ≡ none) × (row.1 ≡ pos 0)) meta
    → LastsOr (first_of (lookup key meta))
LastsOr-lookup key meta h = elim (Option-cases (lookup key meta)) [
  | inl absent ↦ rw absent tt
  | inr ((lp, e), here) ↦
      rw here
        (Values-lookup
          (λ (row : LatestPointer × ℤ). (row.0.expires_at_unix_ms ≡ none) × (row.1 ≡ pos 0)) key
          meta h here).0
]

by_pointer_expiry :
    (r : StoredRecord) (lp : Option LatestPointer)
    → r.expires_at_unix_ms ≡ none
    → LastsOr lp
    → (by_pointer r lp).expiry ≡ none
unfolding by_pointer take_incoming
by_pointer_expiry r none h k = h
by_pointer_expiry r (some lp) h k = elim (Bool-cases (is_not_before lp.winner (version_of r))) [
  | inl stays ↦ rw stays k
  | inr goes ↦ rw goes h
]

by_cache_expiry :
    (r : StoredRecord) (e : Option LatestEntry) (lp : Option LatestPointer)
    → r.expires_at_unix_ms ≡ none
    → LastsOr lp
    → (by_cache r e lp).expiry ≡ none
unfolding by_cache take_incoming
by_cache_expiry r none lp h k = by_pointer_expiry r lp h k
by_cache_expiry r (some e) lp h k = elim (Bool-cases (is_after (version_of r) e.ver)) [
  | inl fast ↦ rw fast h
  | inr slow ↦ rw slow (by_pointer_expiry r lp h k)
]

pub engine_expiry-none : (o : Option ℤ) (dead : Bool) → o ≡ none → engine_expiry o dead ≡ pos 0
unfolding engine_expiry
engine_expiry-none o dead h = rw h refl

choose_expiry :
    (s : Store) (r : StoredRecord)
    → IsTimeless s
    → r.expires_at_unix_ms ≡ none
    → (choose s r).expiry ≡ none
unfolding choose
choose_expiry s r t h = by_cache_expiry r (get_cached s r.namespace r.logical_key) _ h (
    subst LastsOr (sym (timeless_pointer s r.namespace r.logical_key t))
      (LastsOr-lookup (latest_key r.namespace r.logical_key) s.meta t.pointers))

pub engine_lasts :
    (s : Store) (r : StoredRecord)
    → IsTimeless s
    → r.expires_at_unix_ms ≡ none
    → engine_expiry (choose s r).expiry (choose s r).tombstone ≡ pos 0
engine_lasts s r t h = engine_expiry-none _ (choose s r).tombstone (choose_expiry s r t h)

-- A record without an expiry adds no row with one.
pub apply-IsTimeless :
    (s : Store) (r : StoredRecord) (kind : ℕ)
    → IsTimeless s
    → r.expires_at_unix_ms ≡ none
    → IsTimeless (apply s r kind).0
unfolding apply write pointer_of index_ttl
apply-IsTimeless s r kind t h =
    let c = choose s r in
    let lasts = choose_expiry s r t h in
    record {
      pointers =
          insert-Values
            (λ (row : LatestPointer × ℤ). (row.0.expires_at_unix_ms ≡ none) × (row.1 ≡ pos 0)) _ _
            s.meta (lasts, engine_expiry-none c.expiry c.tombstone lasts) t.pointers;
      records =
          insert-Values (λ (row : StoredRecord × ℤ). row.1 ≡ pos 0) _ _ s.records
            (engine_expiry-none r.expires_at_unix_ms r.tombstone h) t.records;
      index = rw h t.index;
    }
