-- ===== src/Shard/Leases.antt =====
-- The rows of a budget in the shard: the keys of internal/collections/budget.go, and the helpers that
-- read and write its rows through the overlay of values (getPool to delBudTombGC).
use wave_span.Base.{ℕ, Bytes, Option, none, some, [], ◌∷◌, ◌++◌, insert}
use wave_span.Base.Int.{ℤ}
use wave_span.Budget.{PoolRec, LeaseRec, TombRec}
use wave_span.Budget.Wire.{put_i64}
use wave_span.Budget.Codec.{
  append_chunk, encode_pool, decode_pool, encode_lease, decode_lease, encode_tomb, decode_tomb,
}
use wave_span.Shard.{UpdateCtx, ShardSm, StoreOp, Fault}
use wave_span.Shard.Exec.{Res}
use wave_span.Shard.Keys.{coll_scope}
use wave_span.Shard.Context.{emit, field_val, set_field_val}

abbrev pub sub_bud_exp : ℕ
sub_bud_exp = 5

abbrev pub sub_bud_tomb_gc : ℕ
sub_bud_tomb_gc = 6

abbrev pub scope_bud_pool : ℕ
scope_bud_pool = 5

abbrev pub scope_bud_lease : ℕ
scope_bud_lease = 6

abbrev pub scope_bud_tomb : ℕ
scope_bud_tomb = 7

unfoldable pub bud_pool_key : ShardSm → Bytes → Bytes → Bytes
bud_pool_key s ns coll = coll_scope s ns coll ++ scope_bud_pool ∷ []

unfoldable pub bud_lease_key : ShardSm → Bytes → Bytes → Bytes → Bytes
bud_lease_key s ns coll id = (coll_scope s ns coll ++ scope_bud_lease ∷ []) ++ id

unfoldable pub bud_tomb_key : ShardSm → Bytes → Bytes → Bytes → Bytes
bud_tomb_key s ns coll id = (coll_scope s ns coll ++ scope_bud_tomb ∷ []) ++ id

-- A key of a due index: its space, the time, the names in chunks, and the lease.
unfoldable pub due_key : ShardSm → ℕ → ℤ → Bytes → Bytes → Bytes → Bytes
unfolding append_chunk
due_key s sub ms ns coll id =
    ((((s.prefix ++ sub ∷ []) ++ put_i64 ms) ++ append_chunk ns) ++ append_chunk coll) ++ id

unfoldable pub bud_exp_key : ShardSm → ℤ → Bytes → Bytes → Bytes → Bytes
unfolding due_key
bud_exp_key s reclaim_ms ns coll id = due_key s sub_bud_exp reclaim_ms ns coll id

unfoldable pub bud_tomb_gc_key : ShardSm → ℤ → Bytes → Bytes → Bytes → Bytes
unfolding due_key
bud_tomb_gc_key s gc_due_ms ns coll id = due_key s sub_bud_tomb_gc gc_due_ms ns coll id

-- A record that is read: a row that is too short is an error.
abbrev pub found_record {ℓ} : {A : Type ℓ} → Option A → Res (Option A)
found_record none = Res.fail Fault.short_row
found_record (some a) = Res.ok (some a)

abbrev pub decoded {ℓ} : {A : Type ℓ} → (Bytes → Option A) → Option Bytes → Res (Option A)
decoded decode none = Res.ok none
decoded decode (some v) = found_record (decode v)

-- The delete of a row, in the batch and in the overlay.
unfoldable pub del_field_val : Bytes → UpdateCtx → UpdateCtx
unfolding emit
del_field_val key u = emit (StoreOp.delete key ∷ []) (record u { vals = insert key none u.vals })

module _ (ns coll : Bytes) where
  unfoldable pub get_pool : UpdateCtx → Res (Option PoolRec)
  unfolding bud_pool_key field_val decode_pool
  get_pool u = decoded decode_pool (field_val u (bud_pool_key u.s ns coll))

  unfoldable pub set_pool : PoolRec → UpdateCtx → UpdateCtx
  unfolding bud_pool_key set_field_val encode_pool
  set_pool p u = set_field_val (bud_pool_key u.s ns coll) (encode_pool p) u

  unfoldable pub get_lease : Bytes → UpdateCtx → Res (Option LeaseRec)
  unfolding bud_lease_key field_val decode_lease
  get_lease id u = decoded decode_lease (field_val u (bud_lease_key u.s ns coll id))

  unfoldable pub set_lease : Bytes → LeaseRec → UpdateCtx → UpdateCtx
  unfolding bud_lease_key set_field_val encode_lease
  set_lease id l u = set_field_val (bud_lease_key u.s ns coll id) (encode_lease l) u

  unfoldable pub del_lease : Bytes → UpdateCtx → UpdateCtx
  unfolding bud_lease_key del_field_val
  del_lease id u = del_field_val (bud_lease_key u.s ns coll id) u

  unfoldable pub get_tomb : Bytes → UpdateCtx → Res (Option TombRec)
  unfolding bud_tomb_key field_val decode_tomb
  get_tomb id u = decoded decode_tomb (field_val u (bud_tomb_key u.s ns coll id))

  unfoldable pub set_tomb : Bytes → TombRec → UpdateCtx → UpdateCtx
  unfolding bud_tomb_key set_field_val encode_tomb
  set_tomb id t u = set_field_val (bud_tomb_key u.s ns coll id) (encode_tomb t) u

  unfoldable pub del_tomb : Bytes → UpdateCtx → UpdateCtx
  unfolding bud_tomb_key del_field_val
  del_tomb id u = del_field_val (bud_tomb_key u.s ns coll id) u

  unfoldable pub set_bud_exp : Bytes → ℤ → UpdateCtx → UpdateCtx
  unfolding emit bud_exp_key
  set_bud_exp id ms u = emit (StoreOp.put (bud_exp_key u.s ms ns coll id) [] ∷ []) u

  unfoldable pub del_bud_exp : Bytes → ℤ → UpdateCtx → UpdateCtx
  unfolding emit bud_exp_key
  del_bud_exp id ms u = emit (StoreOp.delete (bud_exp_key u.s ms ns coll id) ∷ []) u

  unfoldable pub set_bud_tomb_gc : Bytes → ℤ → UpdateCtx → UpdateCtx
  unfolding emit bud_tomb_gc_key
  set_bud_tomb_gc id ms u = emit (StoreOp.put (bud_tomb_gc_key u.s ms ns coll id) [] ∷ []) u

  unfoldable pub del_bud_tomb_gc : Bytes → ℤ → UpdateCtx → UpdateCtx
  unfolding emit bud_tomb_gc_key
  del_bud_tomb_gc id ms u = emit (StoreOp.delete (bud_tomb_gc_key u.s ms ns coll id) ∷ []) u
