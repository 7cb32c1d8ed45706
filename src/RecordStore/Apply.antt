-- ===== src/RecordStore/Apply.antt =====
-- `NextVersion`, `BuildRecord`, `Apply` and `ApplySiblings` of internal/recordstore/store.go.
use wave_span.Base.{
  ℕ, ◌+◌, ◌%◌, ◌^◌, ◌==◌, ltb, not, ◌&&◌, Bool, true, false, lt, eq, gt, Bytes, Option, none, some,
  List, [], ◌∷◌, length, lookup, insert, if◌then◌else◌,
}
use wave_span.Base.Int.{ℤ, pos, ltb_ℤ}
use wave_span.Base.Int64.{add64, sub64, from_u64, to_u64}
use wave_span.Version.{Version, Sequencer, compare_version, equal, mutation_id, next, to_proto}
use wave_span.Version.Clock.{Clock, now}
use wave_span.Records.{StoredRecord, ValueBody, version_of}
use wave_span.RecordStore.{Store, LatestPointer, LatestEntry, MutationEnvelope}
use wave_span.RecordStore.Keys.{
  latest_key, data_key, cache_key, ttl_key, stripe_idx, encode_version,
}

-- The clock and the sequencer that the store is wired to, with the identity of the member.
pub record Origin : Type 0 where
  pub clock : Clock
  pub seq : Sequencer
  pub cluster_id : Bytes
  pub member_id : Bytes

unfoldable pub next_version : Origin → ℕ → Origin × Version
next_version o wall =
    let (c, ts) = now o.clock wall in
    let (q, n) = next o.seq in
    (
      record o { clock = c; seq = q },
      record {
        hlc_physical_ms = ts.physical_ms;
        hlc_logical = ts.logical;
        writer_cluster_id = o.cluster_id;
        writer_member_id = o.member_id;
        writer_sequence = n;
      },
    )

-- The expiry is read off the clock, which is a further stamp.
abbrev pub expiry_of : Origin → ℕ → Option ℤ → Origin × Option ℤ
expiry_of o wall none = (o, none)
expiry_of o wall (some ttl_ms) =
    let (c, ts) = now o.clock wall in
    (record o { clock = c }, some (from_u64 ((ts.physical_ms + to_u64 ttl_ms) % 2 ^ 64)))

unfoldable pub build_record :
    Origin → ℕ → Bytes → Bytes → Option Bytes → Version → Bool → Option ℤ → Origin × StoredRecord
build_record o wall namespace key value v tombstone ttl_ms =
    let (o', expires) = expiry_of o wall ttl_ms in
    (
      o',
      record {
        logical_key = key;
        value = if tombstone then none else some (ValueBody.inline value);
        version = to_proto v;
        expires_at_unix_ms = expires;
        tombstone = tombstone;
        namespace = namespace;
        origin_cluster_id = v.writer_cluster_id;
        origin_member_id = v.writer_member_id;
      },
    )

abbrev pub inline_value_max : ℕ
inline_value_max = 512

-- `storage.InlineValue`: a small inline value of a live record.
abbrev pub small : ValueBody → Option Bytes
small (ValueBody.inline none) = some []
small (ValueBody.inline (some b)) = if ltb inline_value_max (length b) then none else some b
small (ValueBody.external _) = none

abbrev pub small_of : Option ValueBody → Option Bytes
small_of none = none
small_of (some v) = small v

unfoldable pub inline_value : StoredRecord → Option Bytes
inline_value r = if r.tombstone then none else small_of r.value

-- The winner of one application, and whether the key was live before it.
pub record Choice : Type 0 where
  pub winner : Version
  pub tombstone : Bool
  pub expiry : Option ℤ
  pub inline : Option Bytes
  pub before_live : Bool

-- `a.Compare(b) > 0`.
abbrev pub is_after : Version → Version → Bool
is_after a b = elim (compare_version a b) [ gt ↦ true | eq ↦ false | lt ↦ false ]

-- `a.Compare(b) >= 0`.
abbrev pub is_not_before : Version → Version → Bool
is_not_before a b = elim (compare_version a b) [ gt ↦ true | eq ↦ true | lt ↦ false ]

-- The incoming record wins.
unfoldable pub take_incoming : StoredRecord → Bool → Choice
take_incoming r before_live = record {
  winner = version_of r;
  tombstone = r.tombstone;
  expiry = r.expires_at_unix_ms;
  inline = none;
  before_live = before_live;
}

-- The slow path: the stored pointer decides.
unfoldable pub by_pointer : StoredRecord → Option LatestPointer → Choice
unfolding take_incoming
by_pointer r none = take_incoming r false
by_pointer r (some lp) =
    if is_not_before lp.winner (version_of r)
    then record {
      winner = lp.winner;
      tombstone = lp.tombstone;
      expiry = lp.expires_at_unix_ms;
      inline = lp.inline_value;
      before_live = not lp.tombstone;
    }
    else take_incoming r (not lp.tombstone)

abbrev pub first_of {ℓ κ} : {A : Type ℓ} {B : Type κ} → Option (A × B) → Option A
first_of none = none
first_of (some (a, b)) = some a

-- The pointer row of the key, whether the engine still shows it or not.
abbrev pub stored_pointer : Store → Bytes → Bytes → Option LatestPointer
stored_pointer s namespace key = first_of (lookup (latest_key namespace key) s.meta)

-- A row that the engine still shows: one without an expiry, or whose expiry is to come.
unfoldable pub shown {ℓ} : {A : Type ℓ} → ℤ → Option (A × ℤ) → Option A
shown now none = none
shown now (some (a, e)) = if ltb_ℤ (pos 0) e && not (ltb_ℤ now e) then none else some a

unfoldable pub get_pointer : Store → Bytes → Bytes → Option LatestPointer
unfolding shown
get_pointer s namespace key = shown s.engine_ms (lookup (latest_key namespace key) s.meta)

unfoldable pub get_cached : Store → Bytes → Bytes → Option LatestEntry
get_cached s namespace key =
    lookup (cache_key namespace key) (s.latest_ver (stripe_idx namespace key))

-- The fast path: a cached winner that is older than the incoming version.
unfoldable pub by_cache : StoredRecord → Option LatestEntry → Option LatestPointer → Choice
unfolding take_incoming by_pointer
by_cache r none lp = by_pointer r lp
by_cache r (some e) lp =
    if is_after (version_of r) e.ver then take_incoming r (not e.tombstone) else by_pointer r lp

unfoldable pub choose : Store → StoredRecord → Choice
unfolding by_cache get_cached get_pointer
choose s r =
    by_cache r (get_cached s r.namespace r.logical_key) (get_pointer s r.namespace r.logical_key)

-- The new pointer: the incoming record's small value where its version is the winner's.
unfoldable pub pointer_of : StoredRecord → Choice → LatestPointer
unfolding inline_value
pointer_of r c = record {
  winner = c.winner;
  sibling_versions = [];
  expires_at_unix_ms = c.expiry;
  tombstone = c.tombstone;
  inline_value = if equal c.winner (version_of r) then inline_value r else c.inline;
}

unfoldable pub envelope_of : StoredRecord → ℕ → MutationEnvelope
envelope_of r kind = record {
  mutation_id = mutation_id (version_of r);
  kind = kind;
  logical_key = r.logical_key;
  value = r.value;
  version = r.version;
  expires_at_unix_ms = r.expires_at_unix_ms;
  tombstone = r.tombstone;
  namespace = r.namespace;
  origin_cluster_id = r.origin_cluster_id;
  origin_member_id = r.origin_member_id;
  origin_sequence = (version_of r).writer_sequence;
}

-- The expiry that the engine is given: 0 is none, and tombstones have none.
unfoldable pub engine_expiry : Option ℤ → Bool → ℤ
engine_expiry none tombstone = pos 0
engine_expiry (some e) tombstone = if tombstone then pos 0 else e

unfoldable pub index_ttl : StoredRecord → List (Bytes × Bytes) → List (Bytes × Bytes)
index_ttl r ttl = elim r.expires_at_unix_ms [
  | none ↦ ttl
  | some e ↦
      if r.tombstone
      then ttl
      else insert (ttl_key e r.namespace r.logical_key) (encode_version (version_of r)) ttl
]

-- The counter after a transition of the winner's liveness.
unfoldable pub adjust_live : Bool → Bool → ℤ → ℤ
adjust_live before after n =
    if after && not before
    then add64 n (pos 1)
    else if before && not after
    then sub64 n (pos 1)
    else n

abbrev pub max_ver_cache_per : ℕ
max_ver_cache_per = 8192

-- The bounded reset of a stripe's map.
unfoldable pub put_cached :
    Bytes → LatestEntry → List (Bytes × LatestEntry) → List (Bytes × LatestEntry)
put_cached key e m = if ltb (length m) max_ver_cache_per then insert key e m else (key, e) ∷ []

abbrev pub set_stripe :
    ℕ
    → List (Bytes × LatestEntry)
    → (ℕ → List (Bytes × LatestEntry))
    → ℕ
    → List (Bytes × LatestEntry)
set_stripe i m latest_ver j = if i == j then m else latest_ver j

unfoldable pub write : StoredRecord → ℕ → Choice → Store → Store
unfolding pointer_of envelope_of engine_expiry index_ttl adjust_live put_cached
write r kind c s =
    let i = stripe_idx r.namespace r.logical_key in
    let entry : LatestEntry = record { ver = c.winner; tombstone = c.tombstone } in
    let n = (s.log_seq + 1) % 2 ^ 64 in
    record {
      meta =
          insert (latest_key r.namespace r.logical_key)
            (pointer_of r c, engine_expiry c.expiry c.tombstone) s.meta;
      ttl = index_ttl r s.ttl;
      records =
          insert (data_key r.namespace r.logical_key (version_of r))
            (r, engine_expiry r.expires_at_unix_ms r.tombstone) s.records;
      log = (r.namespace, (n, envelope_of r kind)) ∷ s.log;
      log_seq = n;
      latest_ver =
          set_stripe i (put_cached (cache_key r.namespace r.logical_key) entry (s.latest_ver i))
            s.latest_ver;
      live_keys = adjust_live c.before_live (not c.tombstone) s.live_keys;
      engine_ms = s.engine_ms;
    }

-- `a.Compare(b) == 0`.
abbrev pub is_level : Version → Version → Bool
is_level a b = elim (compare_version a b) [ eq ↦ true | gt ↦ false | lt ↦ false ]

-- The store after it, the winner, and what the observer is told: whether the record won.
unfoldable pub apply : Store → StoredRecord → ℕ → Store × Version × Bool
unfolding choose write
apply s r kind =
    let c = choose s r in (write r kind c s, c.winner, is_level c.winner (version_of r))
