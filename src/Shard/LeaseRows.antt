-- ===== src/Shard/LeaseRows.antt =====
-- The rows of a budget (internal/collections/budget.go) beside the count of a set.
use wave_span.Base.{ℕ, ◌≢◌, refl, sym, subst, arith, Bytes, [], ◌∷◌, ◌++◌, append_assoc}
use wave_span.Base.Int.{ℤ}
use wave_span.Budget.Wire.{put_i64}
use wave_span.Budget.Codec.{append_chunk}
use wave_span.Shard.{ShardSm}
use wave_span.Shard.Keys.{coll_scope}
use wave_span.Shard.Exec.{Keeps-modify}
use wave_span.Shard.Context.{emit, set_field_val}
use wave_span.Shard.Leases.{
  set_pool, set_lease, del_lease, set_tomb, del_tomb, set_bud_exp, del_bud_exp, set_bud_tomb_gc,
  del_bud_tomb_gc, del_field_val, bud_pool_key, bud_lease_key, bud_tomb_key, bud_exp_key,
  bud_tomb_gc_key, due_key, scope_bud_pool, scope_bud_lease, scope_bud_tomb, sub_bud_exp,
  sub_bud_tomb_gc,
}
use wave_span.Shard.BudgetSteps.{BudgetAtoms}
use wave_span.Shard.Disjoint.{IsShort}
use wave_span.Shard.Outside.{IsOutside, scope-IsOutside}
use wave_span.Shard.Families.{by_tag, starts, Starts-append}
use wave_span.Shard.Counted.{IsCounted}
use wave_span.Shard.Expiring.{quiet_write}

module _ (s : ShardSm) (ns coll : Bytes) (short : IsShort ns × IsShort coll) (ns' coll' : Bytes)
    (short' : IsShort ns' × IsShort coll') where
  bud_pool_key-IsOutside : IsOutside s ns coll (bud_pool_key s ns' coll')
  unfolding bud_pool_key
  bud_pool_key-IsOutside =
      scope-IsOutside s ns coll short ns' coll' scope_bud_pool [] short'
        (ground arith, ground arith, ground arith)

  scoped-IsOutside :
      (scope : ℕ) (id : Bytes)
      → (scope ≢ 1) × (scope ≢ 3) × (scope ≢ 0)
      → IsOutside s ns coll ((coll_scope s ns' coll' ++ scope ∷ []) ++ id)
  scoped-IsOutside scope id apart =
      subst (IsOutside s ns coll) (sym (append_assoc (coll_scope s ns' coll') (scope ∷ []) id))
        (scope-IsOutside s ns coll short ns' coll' scope id short' apart)

  bud_lease_key-IsOutside : (id : Bytes) → IsOutside s ns coll (bud_lease_key s ns' coll' id)
  unfolding bud_lease_key
  bud_lease_key-IsOutside id =
      scoped-IsOutside scope_bud_lease id (ground arith, ground arith, ground arith)

  bud_tomb_key-IsOutside : (id : Bytes) → IsOutside s ns coll (bud_tomb_key s ns' coll' id)
  unfolding bud_tomb_key
  bud_tomb_key-IsOutside id =
      scoped-IsOutside scope_bud_tomb id (ground arith, ground arith, ground arith)

  due_key-IsOutside :
      (sub : ℕ) (ms : ℤ) (id : Bytes)
      → sub ≢ 1
      → IsOutside s ns coll (due_key s sub ms ns' coll' id)
  unfolding due_key
  due_key-IsOutside sub ms id apart = by_tag s ns coll short sub _ apart (
      Starts-append _ _ id (
        Starts-append _ _ (append_chunk coll')
          (Starts-append _ _ (append_chunk ns') (starts (s.prefix ++ sub ∷ []) (put_i64 ms)))))

  bud_exp_key-IsOutside :
      (id : Bytes) (ms : ℤ) → IsOutside s ns coll (bud_exp_key s ms ns' coll' id)
  unfolding bud_exp_key
  bud_exp_key-IsOutside id ms = due_key-IsOutside sub_bud_exp ms id (ground arith)

  bud_tomb_gc_key-IsOutside :
      (id : Bytes) (ms : ℤ) → IsOutside s ns coll (bud_tomb_gc_key s ms ns' coll' id)
  unfolding bud_tomb_gc_key
  bud_tomb_gc_key-IsOutside id ms = due_key-IsOutside sub_bud_tomb_gc ms id (ground arith)

module _ (ns coll : Bytes) (short : IsShort ns × IsShort coll) (ns' coll' : Bytes)
    (short' : IsShort ns' × IsShort coll') where
  -- Budget rows are kept apart from the members, of whatever collection they are.
  pub leases-Atoms : BudgetAtoms (IsCounted ns coll) ns' coll'
  unfolding set_pool set_lease del_lease set_tomb del_tomb set_bud_exp del_bud_exp set_bud_tomb_gc
      del_bud_tomb_gc set_field_val del_field_val emit
  leases-Atoms = record {
    pooled = λ p. Keeps-modify _ λ u h.
        quiet_write ns coll u _ u.exists u.zscore _ u.dedup_seq u.in_batch_dedup h
          (bud_pool_key-IsOutside u.s ns coll short ns' coll' short', tt) (λ m. refl);
    leased = λ id l. Keeps-modify _ λ u h.
        quiet_write ns coll u _ u.exists u.zscore _ u.dedup_seq u.in_batch_dedup h
          (bud_lease_key-IsOutside u.s ns coll short ns' coll' short' id, tt) (λ m. refl);
    unleased = λ id. Keeps-modify _ λ u h.
        quiet_write ns coll u _ u.exists u.zscore _ u.dedup_seq u.in_batch_dedup h
          (bud_lease_key-IsOutside u.s ns coll short ns' coll' short' id, tt) (λ m. refl);
    buried = λ id t. Keeps-modify _ λ u h.
        quiet_write ns coll u _ u.exists u.zscore _ u.dedup_seq u.in_batch_dedup h
          (bud_tomb_key-IsOutside u.s ns coll short ns' coll' short' id, tt) (λ m. refl);
    unburied = λ id. Keeps-modify _ λ u h.
        quiet_write ns coll u _ u.exists u.zscore _ u.dedup_seq u.in_batch_dedup h
          (bud_tomb_key-IsOutside u.s ns coll short ns' coll' short' id, tt) (λ m. refl);
    due = λ id ms. Keeps-modify _ λ u h.
        quiet_write ns coll u _ u.exists u.zscore u.vals u.dedup_seq u.in_batch_dedup h
          (bud_exp_key-IsOutside u.s ns coll short ns' coll' short' id ms, tt) (λ m. refl);
    undue = λ id ms. Keeps-modify _ λ u h.
        quiet_write ns coll u _ u.exists u.zscore u.vals u.dedup_seq u.in_batch_dedup h
          (bud_exp_key-IsOutside u.s ns coll short ns' coll' short' id ms, tt) (λ m. refl);
    gc_due = λ id ms. Keeps-modify _ λ u h.
        quiet_write ns coll u _ u.exists u.zscore u.vals u.dedup_seq u.in_batch_dedup h
          (bud_tomb_gc_key-IsOutside u.s ns coll short ns' coll' short' id ms, tt) (λ m. refl);
    gc_undue = λ id ms. Keeps-modify _ λ u h.
        quiet_write ns coll u _ u.exists u.zscore u.vals u.dedup_seq u.in_batch_dedup h
          (bud_tomb_gc_key-IsOutside u.s ns coll short ns' coll' short' id ms, tt) (λ m. refl);
  }
