-- ===== src/RecordStore/Read.antt =====
-- `Get`, `GetRecord` and `ExpiresAt` of internal/recordstore, and what they see after `Apply`.
use wave_span.Base.{
  ℕ, ◌≡◌, refl, sym, ap, ◌∙◌, subst, Bool, true, false, not, Bool-cases, Option-cases, inl, inr,
  Bytes, bytes_eq_refl, Option, none, some, is_empty, lookup, lookup-insert, if◌then◌else◌,
}
use wave_span.Base.Int.{ℤ, pos}
use wave_span.Version.{Version, zero_version, equal}
use wave_span.Version.Order.{equal_iff_same}
use wave_span.Records.{StoredRecord, ValueBody, version_of}
use wave_span.RecordStore.{Store, LatestPointer}
use wave_span.RecordStore.Keys.{data_key}
use wave_span.RecordStore.Timeless.{IsTimeless, apply-IsTimeless, engine_expiry-none}
use wave_span.RecordStore.Apply.{
  by_pointer, get_pointer, shown, write, apply, take_incoming, is_not_before, pointer_of, Choice,
  inline_value, small_of, engine_expiry,
}
use wave_span.RecordStore.Cache.{IsCoherent, IsName, choose-by_pointer, own_pointer}

pub record GetOutcome : Type 0 where
  pub found : Bool
  pub value : Option Bytes
  pub version : Version
  pub tombstone : Bool
  pub conflict_none : Bool
  pub expires_at_ms : Option ℤ

abbrev pub absent : GetOutcome
absent = record {
  found = false;
  value = none;
  version = zero_version;
  tombstone = false;
  conflict_none = false;
  expires_at_ms = none;
}

-- `rec.GetValue().GetInline()`.
abbrev pub inline_bytes : Option ValueBody → Option Bytes
inline_bytes none = none
inline_bytes (some (ValueBody.inline b)) = b
inline_bytes (some (ValueBody.external _)) = none

unfoldable pub stored_record : Store → Bytes → Bytes → Version → Option StoredRecord
unfolding shown
stored_record s namespace key v = shown s.engine_ms (lookup (data_key namespace key v) s.records)

-- The outcome of a pointer, before its value is read.
unfoldable pub outcome : LatestPointer → GetOutcome
outcome lp = record {
  found = false;
  value = none;
  version = lp.winner;
  tombstone = lp.tombstone;
  conflict_none = is_empty lp.sibling_versions;
  expires_at_ms = lp.expires_at_unix_ms;
}

abbrev pub with_record : GetOutcome → Option StoredRecord → GetOutcome
with_record out none = out
with_record out (some r) = record out { found = true; value = inline_bytes r.value }

-- A small value is in the pointer; the others are read from the record.
abbrev pub with_value : GetOutcome → Option Bytes → Option StoredRecord → GetOutcome
with_value out none r = with_record out r
with_value out (some b) r = record out { found = true; value = some b }

unfoldable pub read_pointer : LatestPointer → Option StoredRecord → GetOutcome
unfolding outcome
read_pointer lp r = if lp.tombstone then outcome lp else with_value (outcome lp) lp.inline_value r

unfoldable pub get_at : Store → Bytes → Bytes → Option LatestPointer → GetOutcome
unfolding read_pointer stored_record
get_at s namespace key none = absent
get_at s namespace key (some lp) = read_pointer lp (stored_record s namespace key lp.winner)

unfoldable pub get : Store → Bytes → Bytes → GetOutcome
unfolding get_at get_pointer
get s namespace key = get_at s namespace key (get_pointer s namespace key)

unfoldable pub get_record : Store → Bytes → Bytes → Option StoredRecord
unfolding get_pointer stored_record
get_record s namespace key = elim (get_pointer s namespace key) [
  | none ↦ none
  | some lp ↦ stored_record s namespace key lp.winner
]

unfoldable pub expires_at : Store → Bytes → Bytes → Option ℤ
unfolding get_pointer
expires_at s namespace key = elim (get_pointer s namespace key) [
  | none ↦ none
  | some lp ↦ lp.expires_at_unix_ms
]

-- The record is newer than the stored winner, if there is one.
abbrev pub Advances : StoredRecord → Option LatestPointer → Type 0
Advances r none = Unit
Advances r (some lp) = is_not_before lp.winner (version_of r) ≡ false

-- What a reader of the record gets.
abbrev pub served : StoredRecord → GetOutcome
unfolding inline_value
served r = record {
  found = not r.tombstone;
  value =
      if r.tombstone
      then none
      else elim (inline_value r) [ some b ↦ some b | none ↦ inline_bytes r.value ];
  version = version_of r;
  tombstone = r.tombstone;
  conflict_none = true;
  expires_at_ms = r.expires_at_unix_ms;
}

advancing :
    (r : StoredRecord) (lp : Option LatestPointer)
    → Advances r lp
    → (live : Bool) × (by_pointer r lp ≡ take_incoming r live)
unfolding by_pointer
advancing r none h = (false, refl)
advancing r (some lp) h = (not lp.tombstone, rw h refl)

own_record :
    (s : Store) (r : StoredRecord) (kind : ℕ) (c : Choice)
    → r.expires_at_unix_ms ≡ none
    → stored_record (write r kind c s) r.namespace r.logical_key (version_of r) ≡ some r
unfolding stored_record write shown
own_record s r kind c h =
    let key = data_key r.namespace r.logical_key (version_of r) in
    rw
      (
        lookup-insert key key (r, engine_expiry r.expires_at_unix_ms r.tombstone) s.records,
        bytes_eq_refl key,
        engine_expiry-none r.expires_at_unix_ms r.tombstone h,
      )
      refl

read_served :
    (r : StoredRecord) (live : Bool)
    → read_pointer (pointer_of r (take_incoming r live)) (some r) ≡ served r
unfolding read_pointer pointer_of take_incoming inline_value served outcome
read_served r live =
    let same : equal (version_of r) (version_of r) ≡ true =
      (equal_iff_same (version_of r) (version_of r)).1 refl in
    rw same (elim (Bool-cases r.tombstone) [
      | inl dead ↦ simp dead refl
      | inr there ↦ elim (Option-cases (small_of r.value)) [
        | inl large ↦ simp (there, large) refl
        | inr (b, fits) ↦ simp (there, fits) refl
      ]
    ])

taken_lasts :
    (r : StoredRecord) (live : Bool)
    → r.expires_at_unix_ms ≡ none
    → engine_expiry (take_incoming r live).expiry (take_incoming r live).tombstone ≡ pos 0
unfolding take_incoming
taken_lasts r live h = engine_expiry-none r.expires_at_unix_ms r.tombstone h

get_written :
    (s : Store) (r : StoredRecord) (kind : ℕ)
    → IsCoherent s
    → IsName r.namespace
    → r.expires_at_unix_ms ≡ none
    → Advances r (get_pointer s r.namespace r.logical_key)
    → get (apply s r kind).0 r.namespace r.logical_key ≡ served r
unfolding apply get get_at
get_written s r kind k n lasts h =
    let (live, taken) = advancing r (get_pointer s r.namespace r.logical_key) h in
    let same = choose-by_pointer s r k n ∙ taken in
    let after : get (write r kind (take_incoming r live) s) r.namespace r.logical_key ≡ served r =
      rw (own_pointer s r kind (take_incoming r live) (taken_lasts r live lasts)) (
        ap (read_pointer (pointer_of r (take_incoming r live)))
          (own_record s r kind (take_incoming r live) lasts)
        ∙ read_served r live) in
    subst (λ c. get (write r kind c s) r.namespace r.logical_key ≡ served r) (sym same) after

-- After a record that is newer than the stored winner, or the first of its key, is applied, `Get`
-- answers with it: its version and tombstone bit, no expiry and no conflict, found unless it is a
-- tombstone, and its inline value whether that stands in the pointer or in the record; and no row has an
-- expiry. Neither the record nor a row of the store has an expiry, the cache is coherent, and the
-- namespace has no zero byte.
pub get-apply :
    (s : Store) (r : StoredRecord) (kind : ℕ)
    → IsCoherent s
    → IsTimeless s
    → IsName r.namespace
    → r.expires_at_unix_ms ≡ none
    → Advances r (get_pointer s r.namespace r.logical_key)
    → (get (apply s r kind).0 r.namespace r.logical_key ≡ served r) × IsTimeless (apply s r kind).0
get-apply s r kind k t n lasts h =
    (get_written s r kind k n lasts h, apply-IsTimeless s r kind t lasts)
