-- ===== src/Shard/Frozen.antt =====
-- Frozen ranges: `applyFreeze` and `loadFrozen` of internal/collections/freeze.go, through `Update`.
use wave_span.Base.{
  ℕ, ◌^◌, ◌<◌, ==_refl, ◌≡◌, refl, sym, ap, subst, ◌∙◌, arith, Bool, true, false, ◌||◌, Bool-cases,
  Option-cases, inl, inr, Option, some, Bytes, bytes_eq, bytes_eq_iff, bytes_eq_refl, List, [], ◌∷◌,
  ◌++◌, length, length-append, append_assoc, lookup, insert, lookup-insert, codes,
}
use wave_span.Budget.Wire.{put_u64}
use wave_span.Budget.Codec.{append_chunk, take_chunk}
use wave_span.Shard.{
  Command, UpdateCtx, ShardSm, Rows, ProposeResult, FrozenRange, op_freeze, apply_ops,
}
use wave_span.Shard.Exec.{Res, pure, lift, modify, ◌>>=◌, after}
use wave_span.Shard.Keys.{frozen_space, frozen_key, applied_key, route_key, sub_meta}
use wave_span.Shard.Codec.{with_chunk}
use wave_span.Shard.Context.{emit}
use wave_span.Shard.Counter.{Strconv}
use wave_span.Shard.One.{in_route, mutates, frozen_covers, frozen_mark, sentinel, apply_decoded}
use wave_span.Shard.Migrate.{
  suffix_of, scan, frozen_ranges, load_frozen, decode_purge, freeze, freeze_op,
}
use wave_span.Shard.Update.{
  Entry, update, run_entries, run_entry, apply_entry, settle, fresh, flush, batch_of, card_ops,
  read_dedup_seq, last_index, with_results,
}
use wave_span.Shard.RoundTrip.{with_chunk-append_chunk}
use wave_span.Shard.Disjoint.{append-cancel, head_of}
use wave_span.Shard.Growth.{append_nil}
use wave_span.Shard.Outside.{suffix_of-append, bytes_neq}

or_true : (b : Bool) → (b || true) ≡ true
or_true true = refl
or_true false = refl

not_one : ◌≡◌ {A = ℕ} 97 1 → ⊥
not_one e = ground arith

-- A row under the prefix is among the ranges.
covered :
    (p k v r key : Bytes) (rows : Rows)
    → lookup k rows ≡ some v
    → suffix_of p k ≡ some r
    → in_route key r v ≡ true
    → frozen_covers (frozen_ranges (scan p rows)) key ≡ true
unfolding lookup scan frozen_covers
covered p k v r key [] h q i = ground arith
covered p k v r key ((j, w) ∷ rows) h q i = elim (Bool-cases (bytes_eq j k)) [
  | inl same ↦
      let e : k ≡ j = sym ((bytes_eq_iff j k).0 same) in
      let found : suffix_of p j ≡ some r = subst (λ x. suffix_of p x ≡ some r) e q in
      let value : ◌≡◌ {A = Option Bytes} (some w) (some v) = rw same at h in
      let value' : v ≡ w = cc in
      let i' : in_route key r w ≡ true = subst (λ x. in_route key r x ≡ true) value' i in
      rw (found, i') refl
  | inr other ↦
      let rest = covered p k v r key rows (rw other at h) q i in
      elim (Option-cases (suffix_of p j)) [
        | inl e ↦ rw e rest
        | inr (x, e) ↦ rw (e, rest) (or_true (in_route key x w))
      ]
]

applied_apart :
    (s : ShardSm) (start : Bytes) → bytes_eq (applied_key s) (frozen_key s start) ≡ false
unfolding applied_key frozen_key frozen_space
applied_apart s start = bytes_neq _ _ λ e.
    let rest =
      append-cancel (s.prefix ++ sub_meta ∷ []) (codes "applied") (1 ∷ start)
        (e ∙ append_assoc (s.prefix ++ sub_meta ∷ []) (1 ∷ []) start) in
    not_one (head_of rest)

-- The entry that freezes a range.
unfoldable pub freeze_entry : ℕ → Bytes → Bytes → Entry
unfolding append_chunk
freeze_entry index start end = record {
  index = index;
  cmd = op_freeze ∷ (append_chunk start ++ append_chunk end);
}

-- The shard after a freeze.
unfoldable pub frozen_sm : ShardSm → ℕ → Bytes → Bytes → ShardSm
unfolding applied_key frozen_key
frozen_sm s index start end = record s {
  store = insert (applied_key s) (put_u64 index) (insert (frozen_key s start) end s.store);
}

decode_purge-chunks :
    (start end : Bytes)
    → length (append_chunk start ++ append_chunk end) < 2 ^ 32
    → decode_purge (append_chunk start ++ append_chunk end) ≡ Res.ok (start, end)
unfolding decode_purge
decode_purge-chunks start end h =
    let nil = append_nil (append_chunk end) in
    let h₁ : length (append_chunk end ++ []) < 2 ^ 32 =
      subst (λ b. length b < 2 ^ 32) (sym nil)
        (omega (arith, length-append (append_chunk start) (append_chunk end), h)) in
    with_chunk-append_chunk start (append_chunk end) _ h
    ∙ (ap (λ b. with_chunk (take_chunk b) (λ end' _. Res.ok (start, end'))) (sym nil)
        ∙ with_chunk-append_chunk end [] _ h₁)

module _ (conv : Strconv) where
  freeze_run :
      (s : ShardSm) (frozen : List FrozenRange) (index : ℕ) (start end : Bytes)
      → length (append_chunk start ++ append_chunk end) < 2 ^ 32
      → run_entry conv frozen (freeze_entry index start end) (fresh s)
        ≡ (emit (freeze_op true (start, end) s ∷ []) (fresh s), record { value = 1; reply = [] })
  unfolding run_entry apply_entry freeze_entry freeze settle lift modify pure ◌>>=◌ after
  freeze_run s frozen index start end h =
      rw (decode_purge-chunks start end h) (unfold fresh in refl)

  flush_freeze :
      (s : ShardSm) (index : ℕ) (start end : Bytes)
      → flush (emit (freeze_op true (start, end) s ∷ []) (fresh s)) index
        ≡ some (frozen_sm s index start end)
  unfolding flush batch_of card_ops emit freeze_op fresh frozen_sm apply_ops
  flush_freeze s index start end = rw (==_refl (read_dedup_seq s)) refl

  freeze_lem :
      (s : ShardSm) (index : ℕ) (start end : Bytes)
      → length (append_chunk start ++ append_chunk end) < 2 ^ 32
      → update conv s (freeze_entry index start end ∷ [])
        ≡ some (frozen_sm s index start end, record { value = 1; reply = [] } ∷ [])
  unfolding update run_entries freeze_entry last_index
  freeze_lem s index start end h =
      ap (λ (p : UpdateCtx × ProposeResult). with_results (flush p.0 index) (p.1 ∷ []))
        (freeze_run s (load_frozen s) index start end h)
      ∙ ap (λ o. with_results o (record { value = 1; reply = [] } ∷ []))
          (flush_freeze s index start end)

  frozen_sm_covers :
      (s : ShardSm) (index : ℕ) (start end key : Bytes)
      → in_route key start end ≡ true
      → frozen_covers (load_frozen (frozen_sm s index start end)) key ≡ true
  unfolding load_frozen frozen_sm frozen_space frozen_key
  frozen_sm_covers s index start end key i =
      let rows = insert (frozen_key s start) end s.store in
      let found : lookup (frozen_key s start) (insert (applied_key s) (put_u64 index) rows)
          ≡ some end =
        rw
          (
            lookup-insert (frozen_key s start) (applied_key s) (put_u64 index) rows,
            applied_apart s start,
            lookup-insert (frozen_key s start) (frozen_key s start) end s.store,
            bytes_eq_refl (frozen_key s start),
          )
          refl in
      covered (frozen_space s) (frozen_key s start) end start key
        (insert (applied_key s) (put_u64 index) rows) found
        (suffix_of-append (frozen_space s) start) i

  freeze_refuses :
      (s : ShardSm) (index : ℕ) (start end : Bytes) (c : Command) (u : UpdateCtx)
      → mutates c.op ≡ true
      → in_route (route_key c.ns c.coll) start end ≡ true
      → apply_decoded conv (load_frozen (frozen_sm s index start end)) c u
        ≡ (u, Res.ok (sentinel frozen_mark))
  unfolding apply_decoded pure
  freeze_refuses s index start end c u m i =
      rw (m, frozen_sm_covers s index start end (route_key c.ns c.coll) i) refl

  -- An update with a freeze succeeds, and a command that changes elements of a collection in the range
  -- gets the answer FROZEN from the new state and changes nothing, whatever the overlays of its batch;
  -- the bounds fit in chunks.
  pub update-freeze :
      (s : ShardSm) (index : ℕ) (start end : Bytes) (c : Command) (u : UpdateCtx)
      → length (append_chunk start ++ append_chunk end) < 2 ^ 32
      → mutates c.op ≡ true
      → in_route (route_key c.ns c.coll) start end ≡ true
      → (s' : ShardSm) × (update conv s (freeze_entry index start end ∷ [])
          ≡ some (s', record { value = 1; reply = [] } ∷ []))
        × (apply_decoded conv (load_frozen s') c u ≡ (u, Res.ok (sentinel frozen_mark)))
  update-freeze s index start end c u h m i = (
    frozen_sm s index start end,
    freeze_lem s index start end h,
    freeze_refuses s index start end c u m i,
  )
