-- ===== src/Shard/BudgetSteps.antt =====
-- The apply functions of the budget (internal/collections/budget.go), taken apart into single writes.
use wave_span.Base.{ℕ, Bool, true, false, Bytes, Option, none, some, List, [], ◌∷◌}
use wave_span.Base.Int.{ℤ}
use wave_span.Budget.{PoolRec, LeaseRec, TombRec, Reply}
use wave_span.Budget.Grant.{Definition}
use wave_span.Shard.{Item, UpdateCtx}
use wave_span.Shard.Exec.{modify, Keeps, keeps_rules}
use wave_span.Shard.Context.{ensure_type}
use wave_span.Shard.Leases.{
  set_pool, set_lease, del_lease, set_tomb, del_tomb, set_bud_exp, del_bud_exp, set_bud_tomb_gc,
  del_bud_tomb_gc,
}
use wave_span.Shard.Budgets.{
  replies, open_pool, define_new, define, write_grant, grant_from, grant_unless_live,
  grant_unless_settled, grant, fold_report, report_on, bury, bury_timed, settle_return, return_live,
  return_lease, bury_absent, settle_expire, expire_live, expire_lease, reconcile, bud_init,
  bud_grant, bud_report, bud_return, bud_expire, collect_tomb, bud_tomb_gc, bud_reconcile,
  apply_budget,
}

-- The single writes of a budget's command keep `P`.
pub record BudgetAtoms (P : UpdateCtx → Type 0) (ns coll : Bytes) : Type 0 where
  pub pooled : (p : PoolRec) → Keeps P (modify (set_pool ns coll p))
  pub leased : (id : Bytes) (l : LeaseRec) → Keeps P (modify (set_lease ns coll id l))
  pub unleased : (id : Bytes) → Keeps P (modify (del_lease ns coll id))
  pub buried : (id : Bytes) (t : TombRec) → Keeps P (modify (set_tomb ns coll id t))
  pub unburied : (id : Bytes) → Keeps P (modify (del_tomb ns coll id))
  pub due : (id : Bytes) (ms : ℤ) → Keeps P (modify (set_bud_exp ns coll id ms))
  pub undue : (id : Bytes) (ms : ℤ) → Keeps P (modify (del_bud_exp ns coll id ms))
  pub gc_due : (id : Bytes) (ms : ℤ) → Keeps P (modify (set_bud_tomb_gc ns coll id ms))
  pub gc_undue : (id : Bytes) (ms : ℤ) → Keeps P (modify (del_bud_tomb_gc ns coll id ms))

module _ (P : UpdateCtx → Type 0) (ns coll : Bytes)
    (ensured : (want : ℕ) → Keeps P (ensure_type ns coll want)) (a : BudgetAtoms P ns coll) where
  replies-Keeps : (r : Reply) → Keeps P (replies r)
  unfolding replies
  replies-Keeps r = search keeps_rules

  open_pool-Keeps : (d : Definition) (fits : Bool) → Keeps P (open_pool ns coll d fits)
  unfolding open_pool
  open_pool-Keeps d true = search (keeps_rules, a.pooled)
  open_pool-Keeps d false = search keeps_rules

  define_new-Keeps : (d : Definition) (p : Option PoolRec) → Keeps P (define_new ns coll d p)
  unfolding define_new
  define_new-Keeps d none = search (keeps_rules, ensured, open_pool-Keeps)
  define_new-Keeps d (some p) = search keeps_rules

  define-Keeps : (d : Definition) → Keeps P (define ns coll d)
  unfolding define
  define-Keeps d = search (keeps_rules, define_new-Keeps)

  write_grant-Keeps :
      (id : Bytes) (granted granted_ms ttl : ℤ) (holder : Bytes) (p : PoolRec)
      → Keeps P (write_grant ns coll id granted granted_ms ttl holder p)
  unfolding write_grant
  write_grant-Keeps id granted granted_ms ttl holder p =
      search (keeps_rules, a.pooled, a.leased, a.due) depth 14

  grant_from-Keeps :
      (id : Bytes) (amount granted_ms ttl : ℤ) (holder : Bytes) (p : Option PoolRec)
      → Keeps P (grant_from ns coll id amount granted_ms ttl holder p)
  unfolding grant_from
  grant_from-Keeps id amount granted_ms ttl holder none = search keeps_rules
  grant_from-Keeps id amount granted_ms ttl holder (some p) =
      search (keeps_rules, write_grant-Keeps)

  grant_unless_live-Keeps :
      (id : Bytes) (amount granted_ms ttl : ℤ) (holder : Bytes) (l : Option LeaseRec)
      → Keeps P (grant_unless_live ns coll id amount granted_ms ttl holder l)
  unfolding grant_unless_live
  grant_unless_live-Keeps id amount granted_ms ttl holder none =
      search (keeps_rules, grant_from-Keeps)
  grant_unless_live-Keeps id amount granted_ms ttl holder (some l) = search keeps_rules

  grant_unless_settled-Keeps :
      (id : Bytes) (amount granted_ms ttl : ℤ) (holder : Bytes) (t : Option TombRec)
      → Keeps P (grant_unless_settled ns coll id amount granted_ms ttl holder t)
  unfolding grant_unless_settled
  grant_unless_settled-Keeps id amount granted_ms ttl holder none =
      search (keeps_rules, grant_unless_live-Keeps)
  grant_unless_settled-Keeps id amount granted_ms ttl holder (some t) = search keeps_rules

  grant-Keeps :
      (id : Bytes) (amount granted_ms ttl : ℤ) (holder : Bytes)
      → Keeps P (grant ns coll id amount granted_ms ttl holder)
  unfolding grant
  grant-Keeps id amount granted_ms ttl holder = search (keeps_rules, grant_unless_settled-Keeps)

  fold_report-Keeps :
      (id : Bytes) (reported : ℤ) (l : LeaseRec) (p : Option PoolRec)
      → Keeps P (fold_report ns coll id reported l p)
  unfolding fold_report
  fold_report-Keeps id reported l none = search keeps_rules
  fold_report-Keeps id reported l (some p) = search (keeps_rules, a.pooled, a.leased)

  report_on-Keeps :
      (id : Bytes) (total : ℤ) (caller : Bytes) (l : Option LeaseRec)
      → Keeps P (report_on ns coll id total caller l)
  unfolding report_on
  report_on-Keeps id total caller none = search keeps_rules
  report_on-Keeps id total caller (some l) = search (keeps_rules, fold_report-Keeps)

  bury_timed-Keeps :
      (id : Bytes) (l : LeaseRec) (spent : ℤ) (p : PoolRec)
      → Keeps P (bury_timed ns coll id l spent p)
  unfolding bury_timed bury
  bury_timed-Keeps id l spent p = search (keeps_rules, a.undue, a.buried, a.gc_due)

  settle_return-Keeps :
      (id : Bytes) (reported : Option ℤ) (l : LeaseRec) (p : Option PoolRec)
      → Keeps P (settle_return ns coll id reported l p)
  unfolding settle_return
  settle_return-Keeps id reported l none = search keeps_rules
  settle_return-Keeps id reported l (some p) =
      search (keeps_rules, a.pooled, a.unleased, bury_timed-Keeps) depth 14

  return_live-Keeps :
      (id : Bytes) (reported : Option ℤ) (caller : Bytes) (l : Option LeaseRec)
      → Keeps P (return_live ns coll id reported caller l)
  unfolding return_live
  return_live-Keeps id reported caller none = search keeps_rules
  return_live-Keeps id reported caller (some l) = search (keeps_rules, settle_return-Keeps)

  return_lease-Keeps :
      (id : Bytes) (reported : Option ℤ) (caller : Bytes) (t : Option TombRec)
      → Keeps P (return_lease ns coll id reported caller t)
  unfolding return_lease
  return_lease-Keeps id reported caller none = search (keeps_rules, return_live-Keeps)
  return_lease-Keeps id reported caller (some t) = search keeps_rules

  settle_expire-Keeps :
      (id : Bytes) (l : LeaseRec) (p : Option PoolRec) → Keeps P (settle_expire ns coll id l p)
  unfolding settle_expire
  settle_expire-Keeps id l none = search keeps_rules
  settle_expire-Keeps id l (some p) =
      search (keeps_rules, a.pooled, a.unleased, a.undue, a.buried, a.gc_due) depth 20

  bury_absent-Keeps :
      (id : Bytes) (now : ℤ) (p : Option PoolRec) → Keeps P (bury_absent ns coll id now p)
  unfolding bury_absent
  bury_absent-Keeps id now none = search (keeps_rules, a.buried)
  bury_absent-Keeps id now (some p) = search (keeps_rules, a.buried, a.gc_due)

  expire_live-Keeps :
      (id : Bytes) (now : ℤ) (l : Option LeaseRec) (p : Option PoolRec)
      → Keeps P (expire_live ns coll id now l p)
  unfolding expire_live
  expire_live-Keeps id now none p = bury_absent-Keeps id now p
  expire_live-Keeps id now (some l) p = search (keeps_rules, settle_expire-Keeps)

  expire_lease-Keeps :
      (id : Bytes) (now : ℤ) (t : Option TombRec) → Keeps P (expire_lease ns coll id now t)
  unfolding expire_lease
  expire_lease-Keeps id now none = search (keeps_rules, expire_live-Keeps)
  expire_lease-Keeps id now (some t) = search keeps_rules

  reconcile-Keeps : (true_acked : ℤ) (p : Option PoolRec) → Keeps P (reconcile ns coll true_acked p)
  unfolding reconcile
  reconcile-Keeps true_acked none = search keeps_rules
  reconcile-Keeps true_acked (some p) = search (keeps_rules, a.pooled)

  collect_tomb-Keeps : (id : Bytes) (ms : ℤ) → Keeps P (collect_tomb ns coll id ms)
  unfolding collect_tomb
  collect_tomb-Keeps id ms = search (keeps_rules, a.unburied, a.gc_undue)

  bud_init-Keeps : (it : Item) → Keeps P (bud_init ns coll it)
  unfolding bud_init
  bud_init-Keeps it = search (keeps_rules, define-Keeps)

  bud_grant-Keeps : (it : Item) → Keeps P (bud_grant ns coll it)
  unfolding bud_grant
  bud_grant-Keeps it = search (keeps_rules, grant-Keeps)

  bud_report-Keeps : (it : Item) → Keeps P (bud_report ns coll it)
  unfolding bud_report
  bud_report-Keeps it = search (keeps_rules, report_on-Keeps)

  bud_return-Keeps : (it : Item) → Keeps P (bud_return ns coll it)
  unfolding bud_return
  bud_return-Keeps it = search (keeps_rules, return_lease-Keeps)

  bud_expire-Keeps : (it : Item) → Keeps P (bud_expire ns coll it)
  unfolding bud_expire
  bud_expire-Keeps it = search (keeps_rules, expire_lease-Keeps)

  bud_tomb_gc-Keeps : (it : Item) → Keeps P (bud_tomb_gc ns coll it)
  unfolding bud_tomb_gc
  bud_tomb_gc-Keeps it = search (keeps_rules, collect_tomb-Keeps)

  bud_reconcile-Keeps : (it : Item) → Keeps P (bud_reconcile ns coll it)
  unfolding bud_reconcile
  bud_reconcile-Keeps it = search (keeps_rules, reconcile-Keeps)

  pub apply_budget-Keeps : (op : ℕ) (its : List Item) → Keeps P (apply_budget ns coll op its)
  unfolding apply_budget
  apply_budget-Keeps op [] = search keeps_rules
  apply_budget-Keeps op (it ∷ its) =
      search
        (
          keeps_rules, bud_init-Keeps, bud_grant-Keeps, bud_report-Keeps, bud_return-Keeps,
          bud_expire-Keeps, bud_tomb_gc-Keeps, bud_reconcile-Keeps,
        )
        depth 20
