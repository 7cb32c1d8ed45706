-- ===== src/Shard/Update.antt =====
-- `applyEntry` (internal/collections/sm_fatal.go) and `Update` (statemachine.go): a batch of committed
-- entries, of which each that fails is rolled back and skipped, and then one write of all that was
-- collected.
use wave_span.Base.{
  ℕ, ◌==◌, true, false, Option, none, some, Bytes, List, [], ◌∷◌, ◌++◌, length, take, lookup,
  if◌then◌else◌,
}
use wave_span.Base.Int.{ℤ, pos, ltb_ℤ}
use wave_span.Base.Int64.{add64, to_u64, from_u64, eq_ℤ}
use wave_span.Budget.Wire.{get_u64, put_u64}
use wave_span.Shard.{
  UpdateCtx, ShardSm, Rows, StoreOp, apply_ops, ProposeResult, FrozenRange, op_batch, op_ingest,
  op_purge, op_freeze, op_unfreeze,
}
use wave_span.Shard.Exec.{Exec, Res, pure, lift, ◌>>=◌}
use wave_span.Shard.Keys.{dedup_seq_key, applied_key}
use wave_span.Shard.Codec.{decode_batch, encode_batch_result}
use wave_span.Shard.Counter.{Strconv}
use wave_span.Shard.One.{apply_one}
use wave_span.Shard.Migrate.{ingest, purge, freeze, load_frozen}

pub record Entry : Type 0 where
  pub index : ℕ  -- uint64
  pub cmd : Bytes

-- A sequence that is stored in eight bytes, or else 0.
abbrev pub seq_of : Option Bytes → ℕ
seq_of none = 0
seq_of (some v) = if length v == 8 then get_u64 v else 0

unfoldable pub read_dedup_seq : ShardSm → ℕ
read_dedup_seq s = seq_of (lookup (dedup_seq_key s) s.store)

-- The overlays at the start of an update.
unfoldable pub fresh : ShardSm → UpdateCtx
unfolding read_dedup_seq
fresh s = record {
  s = s;
  ops = [];
  exists = [];
  zscore = [];
  card_delta = [];
  htype = [];
  vals = [];
  dedup_seq = read_dedup_seq s;
  in_batch_dedup = [];
}

-- `snapshot` and `restore`: the operations are cut back to their number, the overlays put back.
unfoldable pub restore : UpdateCtx → UpdateCtx → UpdateCtx
restore snap u = record snap { s = u.s; ops = take (length snap.ops) u.ops }

-- A cardinality row: none is a row of a wrong length, which is fatal.
abbrev pub card_of : Option Bytes → Option ℕ
card_of none = some 0
card_of (some v) = if length v == 8 then some (get_u64 v) else none

unfoldable pub read_card : Rows → Bytes → Option ℕ
read_card rows ck = card_of (lookup ck rows)

unfoldable pub new_card : ℕ → ℤ → ℕ
new_card cur delta =
    let nv = add64 (from_u64 cur) delta in if ltb_ℤ nv (pos 0) then 0 else to_u64 nv

abbrev pub and_then {ℓ κ} : {A : Type ℓ} {B : Type κ} → Option A → (A → Option B) → Option B
and_then none f = none
and_then (some a) f = f a

unfoldable pub card_op : Bytes → ℤ → ℕ → Option (List StoreOp) → Option (List StoreOp)
unfolding new_card
card_op ck delta cur none = none
card_op ck delta cur (some ops) = some (StoreOp.put ck (put_u64 (new_card cur delta)) ∷ ops)

-- The cardinality rows that changed; none is a fatal one.
unfoldable pub card_ops : Rows → List (Bytes × ℤ) → Option (List StoreOp)
unfolding read_card card_op
card_ops rows [] = some []
card_ops rows ((ck, delta) ∷ deltas) =
    let rest = card_ops rows deltas in
    if eq_ℤ delta (pos 0)
    then rest
    else and_then (read_card rows ck) (λ cur. card_op ck delta cur rest)

abbrev pub seq_op : ShardSm → ℕ → ℕ → List StoreOp
seq_op s before now = if now == before then [] else StoreOp.put (dedup_seq_key s) (put_u64 now) ∷ []

-- The batch that is written: what the entries collected, the sequence of the ring if it moved, the
-- cardinalities, and the applied index.
unfoldable pub batch_of : UpdateCtx → ℕ → Option (List StoreOp) → Option (List StoreOp)
batch_of u index none = none
batch_of u index (some cards) = some (
    u.ops
    ++ (seq_op u.s (read_dedup_seq u.s) u.dedup_seq
        ++ (cards ++ StoreOp.put (applied_key u.s) (put_u64 index) ∷ [])))

abbrev pub written : ShardSm → Option (List StoreOp) → Option ShardSm
written s none = none
written s (some ops) = some (record s { store = apply_ops ops s.store })

unfoldable pub flush : UpdateCtx → ℕ → Option ShardSm
unfolding card_ops batch_of
flush u index = written u.s (batch_of u index (card_ops u.s.store u.card_delta))

abbrev pub with_results {ℓ} : {A : Type ℓ} → Option ShardSm → A → Option (ShardSm × A)
with_results none rs = none
with_results (some s) rs = some (s, rs)

unfoldable pub last_index : Entry → List Entry → ℕ
last_index e [] = e.index
last_index e (f ∷ es) = last_index f es

-- An entry that was skipped has the empty result.
abbrev pub no_result : ProposeResult
no_result = record { value = 0; reply = [] }

-- After an entry: its overlays and its result, or the ones before it.
unfoldable pub settle : UpdateCtx → UpdateCtx × Res ProposeResult → UpdateCtx × ProposeResult
unfolding restore
settle snap (u, Res.ok r) = (u, r)
settle snap (u, Res.fail e) = (restore snap u, no_result)

module _ (conv : Strconv) where
  unfoldable pub apply_subs : List FrozenRange → List Bytes → Exec UpdateCtx (List ProposeResult)
  unfolding apply_one pure ◌>>=◌
  apply_subs frozen [] = pure []
  apply_subs frozen (cmd ∷ cmds) = do
    r ← apply_one conv cmd frozen
    rs ← apply_subs frozen cmds
    pure (r ∷ rs)

  unfoldable pub apply_batch : List FrozenRange → Bytes → Exec UpdateCtx ProposeResult
  unfolding apply_subs pure lift ◌>>=◌
  apply_batch frozen cmd = do
    subs ← lift (decode_batch cmd)
    rs ← apply_subs frozen subs
    pure (record { value = 0; reply = encode_batch_result rs })

  unfoldable pub apply_entry : List FrozenRange → Bytes → Exec UpdateCtx ProposeResult
  unfolding ingest purge freeze apply_batch apply_one lift
  apply_entry frozen [] = apply_one conv [] frozen
  apply_entry frozen (op ∷ rest) =
      if op == op_ingest
      then ingest rest
      else if op == op_purge
      then purge rest
      else if op == op_freeze
      then freeze true rest
      else if op == op_unfreeze
      then freeze false rest
      else if op == op_batch
      then apply_batch frozen (op ∷ rest)
      else apply_one conv (op ∷ rest) frozen

  unfoldable pub run_entry : List FrozenRange → Entry → UpdateCtx → UpdateCtx × ProposeResult
  unfolding apply_entry settle
  run_entry frozen e u = settle u (apply_entry frozen e.cmd u)

  unfoldable pub run_entries :
      List FrozenRange → List Entry → UpdateCtx → UpdateCtx × List ProposeResult
  unfolding run_entry
  run_entries frozen [] u = (u, [])
  run_entries frozen (e ∷ es) u =
      let (u', r) = run_entry frozen e u in
      let (u'', rs) = run_entries frozen es u' in (u'', r ∷ rs)

  -- None is a fatal fault, which stops the replica.
  unfoldable pub update : ShardSm → List Entry → Option (ShardSm × List ProposeResult)
  unfolding fresh load_frozen run_entries flush
  update s [] = some (s, [])
  update s (e ∷ es) =
      let (u, rs) = run_entries (load_frozen s) (e ∷ es) (fresh s) in
      with_results (flush u (last_index e es)) rs
