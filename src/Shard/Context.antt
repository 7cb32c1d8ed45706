-- ===== src/Shard/Context.antt =====
-- The reads of an update through its overlays, and the writes that keep batch and overlays together:
-- updateCtx of internal/collections/statemachine.go, ttl.go, dedup.go and hincr.go.
use wave_span.Base.{
  ℕ, ◌+◌, ◌%◌, ◌^◌, ◌==◌, ltb, Bool, true, false, Option, none, some, Bytes, List, [], ◌∷◌, ◌++◌,
  length, drop, lookup, insert, if◌then◌else◌,
}
use wave_span.Base.Int.{ℤ, pos}
use wave_span.Base.Int64.{add64}
use wave_span.Budget.Wire.{get_u64, put_u64}
use wave_span.Shard.{UpdateCtx, ShardSm, StoreOp, Fault, ProposeResult}
use wave_span.Shard.Exec.{Exec, Res, reads, modify, ◌>>=◌}
use wave_span.Shard.Keys.{
  coll_scope, type_key, ttl_index_key, ttl_ptr_key, zptr_key, dedup_key, dedup_ring_key,
}

unfoldable pub get_data : UpdateCtx → Bytes → Option Bytes
get_data u key = lookup key u.s.store

abbrev pub is_some {ℓ} : {A : Type ℓ} → Option A → Bool
is_some none = false
is_some (some a) = true

-- A value that an overlay may hold, or else the one of the store.
abbrev pub or_else {ℓ} : {A : Type ℓ} → Option A → A → A
or_else none a = a
or_else (some b) a = b

unfoldable pub elem_exists : UpdateCtx → Bytes → Bool
unfolding get_data
elem_exists u k = or_else (lookup k u.exists) (is_some (get_data u k))

-- `u.ops = append(u.ops, …)`.
unfoldable pub emit : List StoreOp → UpdateCtx → UpdateCtx
emit ops u = record u { ops = u.ops ++ ops }

-- `u.cardDelta[ck] += d`.
unfoldable pub bump : Bytes → ℤ → UpdateCtx → UpdateCtx
bump ck d u = record u {
  card_delta = insert ck (add64 (or_else (lookup ck u.card_delta) (pos 0)) d) u.card_delta;
}

-- A uint64 row, of which too short a value makes `binary.BigEndian.Uint64` panic.
unfoldable pub read_u64 : Option Bytes → Res (Option ℕ)
read_u64 none = Res.ok none
read_u64 (some v) = if ltb (length v) 8 then Res.fail Fault.panic else Res.ok (some (get_u64 v))

-- The score of a sorted set's member, through the overlay.
unfoldable pub z_score : Bytes → Bytes → Bytes → UpdateCtx → Res (Option ℕ)
unfolding get_data read_u64
z_score ns coll member u =
    let pk = zptr_key u.s ns coll member in
    elim (lookup pk u.zscore) [ some v ↦ Res.ok v | none ↦ read_u64 (get_data u pk) ]

-- A type that the overlay may hold, or else the one of the header row: none is no entry and no type.
abbrev pub type_from : Option ℕ → Option Bytes → Option ℕ
type_from (some t) row = some t
type_from none none = none
type_from none (some []) = none
type_from none (some (t ∷ v)) = some t

unfoldable pub known_type : UpdateCtx → Bytes → Bytes → Option ℕ
unfolding get_data
known_type u ns coll =
    type_from (lookup (coll_scope u.s ns coll) u.htype) (get_data u (type_key u.s ns coll))

unfoldable pub note_type : Bytes → Bytes → ℕ → UpdateCtx → UpdateCtx
note_type ns coll t u = record u { htype = insert (coll_scope u.s ns coll) t u.htype }

unfoldable pub note_known : Bytes → Bytes → Option ℕ → UpdateCtx → UpdateCtx
unfolding note_type
note_known ns coll none u = u
note_known ns coll (some t) u = note_type ns coll t u

unfoldable pub type_of : Bytes → Bytes → Exec UpdateCtx ℕ
unfolding known_type note_known
type_of ns coll u = let t = known_type u ns coll in (note_known ns coll t u, Res.ok (or_else t 0))

-- The header of a new collection.
unfoldable pub create_type : Bytes → Bytes → ℕ → UpdateCtx → UpdateCtx
unfolding emit note_type
create_type ns coll want u =
    note_type ns coll want (emit (StoreOp.put (type_key u.s ns coll) (want ∷ []) ∷ []) u)

unfoldable pub ensure_with : Bytes → Bytes → ℕ → Option ℕ → UpdateCtx → UpdateCtx × Res Bool
unfolding note_type create_type
ensure_with ns coll want (some t) u = (note_type ns coll t u, Res.ok (t == want))
ensure_with ns coll want none u = (create_type ns coll want u, Res.ok true)

unfoldable pub ensure_type : Bytes → Bytes → ℕ → Exec UpdateCtx Bool
unfolding known_type ensure_with
ensure_type ns coll want u = ensure_with ns coll want (known_type u ns coll) u

-- The expiry in the store, which is not looked for in the batch.
unfoldable pub ttl_expiry_of : Bytes → Bytes → Bytes → UpdateCtx → Res (Option ℕ)
unfolding get_data read_u64
ttl_expiry_of ns coll member u = read_u64 (get_data u (ttl_ptr_key u.s ns coll member))

abbrev pub drop_index : ShardSm → Bytes → Bytes → Bytes → Option ℕ → List StoreOp
drop_index s ns coll member none = []
drop_index s ns coll member (some old) = StoreOp.delete (ttl_index_key s old ns coll member) ∷ []

unfoldable pub write_ttl : Bytes → Bytes → Bytes → ℕ → Option ℕ → UpdateCtx → UpdateCtx
unfolding emit
write_ttl ns coll member expiry old u =
    emit
      (drop_index u.s ns coll member old
        ++ StoreOp.put (ttl_index_key u.s expiry ns coll member) []
          ∷ StoreOp.put (ttl_ptr_key u.s ns coll member) (put_u64 expiry)
          ∷ [])
      u

unfoldable pub set_ttl : Bytes → Bytes → Bytes → ℕ → Exec UpdateCtx (Unit {0})
unfolding ttl_expiry_of write_ttl reads modify ◌>>=◌
set_ttl ns coll member expiry = do
  old ← reads (ttl_expiry_of ns coll member)
  modify (write_ttl ns coll member expiry old)

unfoldable pub erase_ttl : Bytes → Bytes → Bytes → Option ℕ → UpdateCtx → UpdateCtx
unfolding emit
erase_ttl ns coll member none u = u
erase_ttl ns coll member (some old) u =
    emit
      (StoreOp.delete (ttl_index_key u.s old ns coll member)
        ∷ StoreOp.delete (ttl_ptr_key u.s ns coll member)
        ∷ [])
      u

unfoldable pub clear_ttl : Bytes → Bytes → Bytes → Exec UpdateCtx (Unit {0})
unfolding ttl_expiry_of erase_ttl reads modify ◌>>=◌
clear_ttl ns coll member = do
  old ← reads (ttl_expiry_of ns coll member)
  modify (erase_ttl ns coll member old)

abbrev pub dedup_ring_size : ℕ
dedup_ring_size = 4096

abbrev pub cached_result : Option Bytes → Option ProposeResult
cached_result none = none
cached_result (some v) =
    if ltb (length v) 8 then none else some (record { value = get_u64 v; reply = drop 8 v })

-- The cached result of an idempotency key, in the store.
unfoldable pub dedup_get : UpdateCtx → Bytes → Option ProposeResult
unfolding get_data
dedup_get u key = cached_result (get_data u (dedup_key u.s key))

-- The row that the ring's slot points at, unless the slot is new or empty.
abbrev pub evict : ShardSm → Option Bytes → List StoreOp
evict s none = []
evict s (some []) = []
evict s (some (b ∷ bs)) = StoreOp.delete (dedup_key s (b ∷ bs)) ∷ []

unfoldable pub dedup_record : Bytes → ProposeResult → UpdateCtx → UpdateCtx
unfolding get_data emit
dedup_record key r u =
    let slot = u.dedup_seq % dedup_ring_size in
    let u' =
      emit
        (evict u.s (get_data u (dedup_ring_key u.s slot))
          ++ StoreOp.put (dedup_ring_key u.s slot) key
            ∷ StoreOp.put (dedup_key u.s key) (put_u64 r.value ++ r.reply)
            ∷ [])
        u in
    record u' { dedup_seq = (u.dedup_seq + 1) % 2 ^ 64 }

-- A field's value, through the overlay; a deleted field is none.
unfoldable pub field_val : UpdateCtx → Bytes → Option Bytes
unfolding get_data
field_val u ek = elim (lookup ek u.vals) [ some v ↦ v | none ↦ get_data u ek ]

unfoldable pub set_field_val : Bytes → Bytes → UpdateCtx → UpdateCtx
unfolding emit
set_field_val ek val u =
    let u' = record u { vals = insert ek (some val) u.vals } in emit (StoreOp.put ek val ∷ []) u'
