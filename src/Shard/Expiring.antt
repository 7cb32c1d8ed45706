-- ===== src/Shard/Expiring.antt =====
-- Expiries (ttl.go) and remembered answers (dedup.go) beside the count of a set.
use wave_span.Base.{
  ℕ, ◌%◌, ◌≡◌, refl, Bool, Option, none, some, Bytes, List, [], ◌∷◌, ◌++◌, lookup, All,
}
use wave_span.Budget.Wire.{put_u64}
use wave_span.Shard.{UpdateCtx, StoreOp, ProposeResult}
use wave_span.Shard.Keys.{elem_key, dedup_key, dedup_ring_key}
use wave_span.Shard.Exec.{modify, Keeps, Keeps-modify, keeps_rules}
use wave_span.Shard.Context.{
  emit, write_ttl, set_ttl, erase_ttl, clear_ttl, dedup_record, get_data, evict, drop_index,
  dedup_ring_size,
}
use wave_span.Shard.One.{remember}
use wave_span.Shard.Count.{key_of}
use wave_span.Shard.Disjoint.{IsShort}
use wave_span.Shard.Outside.{IsOutside}
use wave_span.Shard.Families.{
  ttl_index_key-IsOutside, ttl_ptr_key-IsOutside, dedup_key-IsOutside, dedup_ring_key-IsOutside,
}
use wave_span.Shard.Counted.{IsCounted, frame_lem}

-- Operations outside, with overlays of which only the members' may change.
pub quiet_write :
    (ns coll : Bytes) (u : UpdateCtx) (ops : List StoreOp) (exists : List (Bytes × Bool))
    (zscore : List (Bytes × Option ℕ)) (vals : List (Bytes × Option Bytes)) (seq : ℕ)
    (dedup : List (Bytes × ProposeResult))
    → IsCounted ns coll u
    → All (λ (op : StoreOp). IsOutside u.s ns coll (key_of op)) ops
    → ((m : Bytes)
        → lookup (elem_key u.s ns coll m) exists ≡ lookup (elem_key u.s ns coll m) u.exists)
    → IsCounted ns coll (record u {
      ops = u.ops ++ ops;
      exists = exists;
      zscore = zscore;
      vals = vals;
      dedup_seq = seq;
      in_batch_dedup = dedup;
    })
quiet_write ns coll u ops exists zscore vals seq dedup h out ex =
    frame_lem ns coll u ops exists zscore u.card_delta u.htype vals seq dedup h out ex h.deltas
      h.aside refl refl

drop_index-IsOutside :
    (ns coll : Bytes) (short : IsShort ns × IsShort coll) (u : UpdateCtx) (ns' coll' member : Bytes)
    (old : Option ℕ) (ops : List StoreOp)
    → All (λ (op : StoreOp). IsOutside u.s ns coll (key_of op)) ops
    → All
        (λ (op : StoreOp). IsOutside u.s ns coll (key_of op))
        (drop_index u.s ns' coll' member old ++ ops)
drop_index-IsOutside ns coll short u ns' coll' member none ops h = h
drop_index-IsOutside ns coll short u ns' coll' member (some old) ops h =
    (ttl_index_key-IsOutside u.s ns coll short old ns' coll' member, h)

evict-IsOutside :
    (ns coll : Bytes) (short : IsShort ns × IsShort coll) (u : UpdateCtx) (old : Option Bytes)
    (ops : List StoreOp)
    → All (λ (op : StoreOp). IsOutside u.s ns coll (key_of op)) ops
    → All (λ (op : StoreOp). IsOutside u.s ns coll (key_of op)) (evict u.s old ++ ops)
evict-IsOutside ns coll short u none ops h = h
evict-IsOutside ns coll short u (some []) ops h = h
evict-IsOutside ns coll short u (some (b ∷ bs)) ops h =
    (dedup_key-IsOutside u.s ns coll short (b ∷ bs), h)

module _ (ns coll : Bytes) (short : IsShort ns × IsShort coll) where
  -- Expiries are kept apart from the members, of whatever collection they are.
  write_ttl-Keeps :
      (ns' coll' member : Bytes) (short' : IsShort ns' × IsShort coll') (expiry : ℕ)
      (old : Option ℕ)
      → Keeps (IsCounted ns coll) (modify (write_ttl ns' coll' member expiry old))
  unfolding write_ttl emit
  write_ttl-Keeps ns' coll' member short' expiry old = Keeps-modify _ λ u h.
      quiet_write ns coll u _ u.exists u.zscore u.vals u.dedup_seq u.in_batch_dedup h
        (drop_index-IsOutside ns coll short u ns' coll' member old _ (
          ttl_index_key-IsOutside u.s ns coll short expiry ns' coll' member,
          (ttl_ptr_key-IsOutside u.s ns coll short ns' coll' member short', tt),
        ))
        (λ m. refl)

  erase_ttl-Keeps :
      (ns' coll' member : Bytes) (short' : IsShort ns' × IsShort coll') (old : Option ℕ)
      → Keeps (IsCounted ns coll) (modify (erase_ttl ns' coll' member old))
  unfolding erase_ttl emit
  erase_ttl-Keeps ns' coll' member short' none = Keeps-modify _ (λ u h. h)
  erase_ttl-Keeps ns' coll' member short' (some old) = Keeps-modify _ λ u h.
      quiet_write ns coll u _ u.exists u.zscore u.vals u.dedup_seq u.in_batch_dedup h
        (
          ttl_index_key-IsOutside u.s ns coll short old ns' coll' member,
          (ttl_ptr_key-IsOutside u.s ns coll short ns' coll' member short', tt),
        )
        (λ m. refl)

  pub set_ttl-Keeps :
      (ns' coll' member : Bytes) (expiry : ℕ)
      → IsShort ns' × IsShort coll'
      → Keeps (IsCounted ns coll) (set_ttl ns' coll' member expiry)
  unfolding set_ttl
  set_ttl-Keeps ns' coll' member expiry short' = search (keeps_rules, write_ttl-Keeps)

  pub clear_ttl-Keeps :
      (ns' coll' member : Bytes)
      → IsShort ns' × IsShort coll'
      → Keeps (IsCounted ns coll) (clear_ttl ns' coll' member)
  unfolding clear_ttl
  clear_ttl-Keeps ns' coll' member short' = search (keeps_rules, erase_ttl-Keeps)

  pub remember-Keeps :
      (key : Bytes) (r : ProposeResult) → Keeps (IsCounted ns coll) (modify (remember key r))
  unfolding remember dedup_record emit
  remember-Keeps key r = Keeps-modify _ λ u h.
      quiet_write ns coll u _ u.exists u.zscore u.vals _ _ h
        (evict-IsOutside ns coll short u
          (get_data u (dedup_ring_key u.s (u.dedup_seq % dedup_ring_size)))
          (StoreOp.put (dedup_ring_key u.s (u.dedup_seq % dedup_ring_size)) key
            ∷ StoreOp.put (dedup_key u.s key) (put_u64 r.value ++ r.reply)
            ∷ [])
          (
            dedup_ring_key-IsOutside u.s ns coll short (u.dedup_seq % dedup_ring_size),
            (dedup_key-IsOutside u.s ns coll short key, tt),
          ))
        (λ m. refl)
