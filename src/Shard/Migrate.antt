-- ===== src/Shard/Migrate.antt =====
-- The entries that move and freeze ranges: internal/collections/migrate.go and freeze.go. A scan of the
-- rows with a prefix is a filter: the order of the rows, which the engine gives, changes nothing here.
use wave_span.Base.{
  ℕ, zero, suc, ◌==◌, ltb, Bool, true, false, Option, none, some, Bytes, List, [], ◌∷◌, ◌++◌,
  length, drop, if◌then◌else◌,
}
use wave_span.Budget.Wire.{be_read}
use wave_span.Budget.Codec.{append_chunk, take_chunk}
use wave_span.Shard.{Fault, UpdateCtx, ShardSm, Rows, StoreOp, ProposeResult, FrozenRange}
use wave_span.Shard.Exec.{Exec, Res, pure, lift, reads, modify, ◌>>=◌, ◌>>◌}
use wave_span.Shard.Keys.{sub_data, sub_ttl, frozen_space, frozen_key}
use wave_span.Shard.Codec.{with_chunk, prepend}
use wave_span.Shard.Context.{emit}
use wave_span.Shard.One.{in_route}

-- What follows the prefix in a key that starts with it.
unfoldable pub suffix_of : Bytes → Bytes → Option Bytes
suffix_of [] key = some key
suffix_of (p ∷ ps) [] = none
suffix_of (p ∷ ps) (k ∷ ks) = let rest = suffix_of ps ks in if p == k then rest else none

abbrev pub keep_some {ℓ} : {A : Type ℓ} → Option A → List A → List A
keep_some none xs = xs
keep_some (some x) xs = x ∷ xs

abbrev pub with_suffix : Option Bytes → Bytes → Option (Bytes × Bytes)
with_suffix none v = none
with_suffix (some k) v = some (k, v)

-- The rows under a prefix, without it.
unfoldable pub scan : Bytes → Rows → Rows
unfolding suffix_of
scan prefix [] = []
scan prefix ((k, v) ∷ rows) = keep_some (with_suffix (suffix_of prefix k) v) (scan prefix rows)

abbrev pub frozen_ranges : Rows → List FrozenRange
frozen_ranges [] = []
frozen_ranges ((start, end) ∷ rows) = record { start = start; end = end } ∷ frozen_ranges rows

unfoldable pub load_frozen : ShardSm → List FrozenRange
unfolding scan frozen_space
load_frozen s = frozen_ranges (scan (frozen_space s) s.store)

-- The routing key of a row of the data or of the expiry index.
abbrev pub route_of : Option (Bytes × Bytes) → Option Bytes
route_of none = none
route_of (some (ns, rest)) = elim (take_chunk rest) [
  | none ↦ none
  | some (coll, _) ↦ some (append_chunk ns ++ append_chunk coll)
]

unfoldable pub route_key_of : Bytes → Option Bytes
route_key_of [] = none
route_key_of (tag ∷ body) =
    if tag == sub_data
    then route_of (take_chunk body)
    else if tag == sub_ttl
    then if ltb (length body) 8 then none else route_of (take_chunk (drop 8 body))
    else none

abbrev pub is_routed : Bytes → Bytes → Option Bytes → Bool
is_routed start end none = false
is_routed start end (some rk) = in_route rk start end

-- `scanRange` over the rows without their prefix, with no limit.
unfoldable pub scan_range : Bytes → Bytes → Rows → Rows
unfolding route_key_of in_route
scan_range start end [] = []
scan_range start end ((k, v) ∷ rows) =
    let rest = scan_range start end rows in
    if is_routed start end (route_key_of k) then (k, v) ∷ rest else rest

unfoldable pub take_pairs : ℕ → Bytes → Res Rows
take_pairs zero rest = Res.ok []
take_pairs (suc n) rest = with_chunk (take_chunk rest) λ suffix rest₁.
    with_chunk (take_chunk rest₁) λ val rest₂. prepend (suffix, val) (take_pairs n rest₂)

-- The payload of an ingest, behind its opcode.
unfoldable pub decode_ingest : Bytes → Res Rows
unfolding take_pairs
decode_ingest rest =
    if ltb (length rest) 4
    then Res.fail Fault.short_command
    else take_pairs (be_read 4 0 rest) (drop 4 rest)

-- The bounds of a purge, a freeze or an unfreeze, behind its opcode.
unfoldable pub decode_purge : Bytes → Res (Bytes × Bytes)
decode_purge rest =
    with_chunk (take_chunk rest)
      λ start rest₁. with_chunk (take_chunk rest₁) λ end _. Res.ok (start, end)

abbrev pub puts : ShardSm → Rows → List StoreOp
puts s [] = []
puts s ((suffix, val) ∷ rows) = StoreOp.put (s.prefix ++ suffix) val ∷ puts s rows

abbrev pub deletes : ShardSm → Rows → List StoreOp
deletes s [] = []
deletes s ((suffix, val) ∷ rows) = StoreOp.delete (s.prefix ++ suffix) ∷ deletes s rows

unfoldable pub ingest : Bytes → Exec UpdateCtx ProposeResult
unfolding decode_ingest emit pure lift modify ◌>>=◌
ingest rest = do
  rows ← lift (decode_ingest rest)
  modify (λ u. emit (puts u.s rows) u)
  pure (record { value = length rows; reply = [] })

unfoldable pub routed_rows : Bytes → Bytes → UpdateCtx → Rows
unfolding scan scan_range
routed_rows start end u = scan_range start end (scan u.s.prefix u.s.store)

unfoldable pub purge : Bytes → Exec UpdateCtx ProposeResult
unfolding decode_purge routed_rows emit pure lift reads modify ◌>>=◌
purge rest = do
  range ← lift (decode_purge rest)
  rows ← reads (λ u. Res.ok (routed_rows range.0 range.1 u))
  modify (λ u. emit (deletes u.s rows) u)
  pure (record { value = length rows; reply = [] })

-- The row of a frozen range, put or deleted.
unfoldable pub freeze_op : Bool → Bytes × Bytes → ShardSm → StoreOp
unfolding frozen_key
freeze_op true range s = StoreOp.put (frozen_key s range.0) range.1
freeze_op false range s = StoreOp.delete (frozen_key s range.0)

-- `applyFreeze`.
unfoldable pub freeze : Bool → Bytes → Exec UpdateCtx ProposeResult
unfolding decode_purge emit freeze_op pure lift modify ◌>>=◌
freeze on rest = do
  range ← lift (decode_purge rest)
  modify (λ u. emit (freeze_op on range u.s ∷ []) u)
  pure (record { value = 1; reply = [] })
