-- ===== src/Shard/Families.antt =====
-- Which of the state machine's keys are outside the rows of a given collection.
use wave_span.Base.{
  ℕ, ◌≡◌, ◌≢◌, refl, sym, ap, subst, ◌∙◌, arith, Bytes, bytes_eq, false, codes, [], ◌∷◌, ◌++◌,
  append_assoc,
}
use wave_span.Budget.Wire.{put_u64}
use wave_span.Budget.Codec.{append_chunk}
use wave_span.Shard.{ShardSm}
use wave_span.Shard.Scores.{sortable_score}
use wave_span.Shard.Keys.{
  coll_scope, card_key, type_key, elem_prefix, elem_key, zscore_key, zptr_key, ttl_space,
  ttl_index_key, ttl_ptr_key, dedup_seq_key, dedup_key, dedup_ring_key, applied_key, frozen_space,
  frozen_key, sub_data, sub_meta, sub_ttl, sub_dedup, sub_dedup_ring, scope_ttl_ptr,
}
use wave_span.Shard.Disjoint.{IsShort, coll_scope_split}
use wave_span.Shard.Outside.{IsOutside, tag-IsOutside, scope-IsOutside, coll-IsOutside, bytes_neq}

-- The key starts with the text.
pub record Starts (p k : Bytes) : Type 0 where
  rest : Bytes
  form : k ≡ p ++ rest

pub starts : (p r : Bytes) → Starts p (p ++ r)
starts p r = record { rest = r; form = refl }

pub Starts-append : (p k x : Bytes) → Starts p k → Starts p (k ++ x)
Starts-append p k x h = record {
  rest = h.rest ++ x;
  form = ap (λ y. y ++ x) h.form ∙ append_assoc p h.rest x;
}

module _ (s : ShardSm) (ns coll : Bytes) (short : IsShort ns × IsShort coll) where
  pub by_tag :
      (tag : ℕ) (k : Bytes)
      → tag ≢ sub_data
      → Starts (s.prefix ++ tag ∷ []) k
      → IsOutside s ns coll k
  by_tag tag k h start =
      let form : s.prefix ++ tag ∷ start.rest ≡ k =
        sym (start.form ∙ append_assoc s.prefix (tag ∷ []) start.rest) in
      subst (IsOutside s ns coll) form (tag-IsOutside s ns coll short tag start.rest h)

  pub ttl_index_key-IsOutside :
      (expiry : ℕ) (ns' coll' member : Bytes)
      → IsOutside s ns coll (ttl_index_key s expiry ns' coll' member)
  unfolding ttl_index_key ttl_space
  ttl_index_key-IsOutside expiry ns' coll' member = by_tag sub_ttl _ (ground arith) (
      Starts-append _ _ member (
        Starts-append _ _ (append_chunk coll') (
          Starts-append _ _ (append_chunk ns')
            (starts (s.prefix ++ sub_ttl ∷ []) (put_u64 expiry)))))

  pub ttl_ptr_key-IsOutside :
      (ns' coll' member : Bytes)
      → IsShort ns' × IsShort coll'
      → IsOutside s ns coll (ttl_ptr_key s ns' coll' member)
  unfolding ttl_ptr_key
  ttl_ptr_key-IsOutside ns' coll' member short' =
      subst (IsOutside s ns coll)
        (sym (append_assoc (coll_scope s ns' coll') (scope_ttl_ptr ∷ []) member))
        (scope-IsOutside s ns coll short ns' coll' scope_ttl_ptr member short'
          (ground arith, ground arith, ground arith))

  pub dedup_key-IsOutside : (key : Bytes) → IsOutside s ns coll (dedup_key s key)
  unfolding dedup_key
  dedup_key-IsOutside key = by_tag sub_dedup _ (ground arith) (starts _ key)

  pub dedup_ring_key-IsOutside : (slot : ℕ) → IsOutside s ns coll (dedup_ring_key s slot)
  unfolding dedup_ring_key
  dedup_ring_key-IsOutside slot = by_tag sub_dedup_ring _ (ground arith) (starts _ (put_u64 slot))

  pub dedup_seq_key-IsOutside : IsOutside s ns coll (dedup_seq_key s)
  unfolding dedup_seq_key
  dedup_seq_key-IsOutside = by_tag sub_meta _ (ground arith) (starts _ (codes "dedupseq"))

  pub applied_key-IsOutside : IsOutside s ns coll (applied_key s)
  unfolding applied_key
  applied_key-IsOutside = by_tag sub_meta _ (ground arith) (starts _ (codes "applied"))

  pub frozen_key-IsOutside : (start : Bytes) → IsOutside s ns coll (frozen_key s start)
  unfolding frozen_key frozen_space
  frozen_key-IsOutside start =
      by_tag sub_meta _ (ground arith) (Starts-append _ _ start (starts _ (1 ∷ [])))

  -- The rows of another collection.
  module _ (ns' coll' : Bytes) (short' : IsShort ns' × IsShort coll')
      (other : (ns' ≡ ns) × (coll' ≡ coll) → ⊥) where
    by_scope : (k : Bytes) → Starts (coll_scope s ns' coll') k → IsOutside s ns coll k
    by_scope k start =
        subst (IsOutside s ns coll) (sym start.form)
          (coll-IsOutside s ns coll short ns' coll' start.rest short' other)

    pub elem_key-IsOutside : (member : Bytes) → IsOutside s ns coll (elem_key s ns' coll' member)
    unfolding elem_key elem_prefix
    elem_key-IsOutside member = by_scope _ (Starts-append _ _ member (starts _ (1 ∷ [])))

    pub zscore_key-IsOutside :
        (score : ℕ) (member : Bytes) → IsOutside s ns coll (zscore_key s ns' coll' score member)
    unfolding zscore_key elem_prefix
    zscore_key-IsOutside score member =
        by_scope _
          (Starts-append _ _ member (Starts-append _ _ (sortable_score score) (starts _ (1 ∷ []))))

    pub zptr_key-IsOutside : (member : Bytes) → IsOutside s ns coll (zptr_key s ns' coll' member)
    unfolding zptr_key
    zptr_key-IsOutside member = by_scope _ (Starts-append _ _ member (starts _ (2 ∷ [])))

    pub type_key-IsOutside : IsOutside s ns coll (type_key s ns' coll')
    unfolding type_key
    type_key-IsOutside = by_scope _ (starts _ (3 ∷ []))

    pub card_key-IsOutside : IsOutside s ns coll (card_key s ns' coll')
    unfolding card_key
    card_key-IsOutside = by_scope _ (starts _ (0 ∷ []))

    pub coll_scope_apart : bytes_eq (coll_scope s ns' coll') (coll_scope s ns coll) ≡ false
    coll_scope_apart = bytes_neq _ _ λ e.
        let parts =
          coll_scope_split s ns' coll' ns coll [] [] short'.0 short'.1 short.0 short.1
            (ap (λ k. k ++ []) e) in
        other (parts.0, parts.1)
