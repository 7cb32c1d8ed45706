-- ===== src/Budget/Settled.antt =====
-- Tombstones beside lease rows: the settlements of internal/collections/budget.go.
use wave_span.Base.{
  ◌≡◌, arith, Bool-cases, inl, inr, Option, none, some, Bytes, lookup, by_if, by_option, not, ltb,
  is_empty, length, drop, ◌||◌, ◌&&◌, ◌==◌,
}
use wave_span.Base.Int.{ℤ, pos, ltb_ℤ}
use wave_span.Budget.{
  Budget, PoolRec, LeaseRec, reason_return, reason_expire, Reply, Item, type_budget, set_pool,
  set_lease,
}
use wave_span.Budget.Grant.{
  Definition, new_lease, grant, grant_new, write_grant, apply_bud_grant, init, apply_bud_init, pace,
  grantable, effective_ttl, is_unguarded, is_bad_mode, is_bad_param, read_definition,
}
use wave_span.Budget.Settle.{
  report, fold_report, apply_bud_report, return_lease, settle_return, bury_timed, apply_bud_return,
  expire, settle_expire, bury_absent, apply_bud_expire, apply_bud_tomb_gc, reconcile,
  apply_bud_reconcile, holder_conflict, conflict, reported, folded, final_spent,
}
use wave_span.Budget.Machine.{
  Op, dispatch, apply_one, bud_init, bud_grant, bud_report, bud_return, bud_expire, bud_tomb_gc,
  bud_reconcile,
}
use wave_span.Budget.Rows.{
  IsSettledOnce, lease_put, lease_gone, lease_buried, absent_buried, tomb_gone,
}

pub record SettledAfter (r : Budget × Reply) : Type 0 where
  pub settled : IsSettledOnce r.0.tombs r.0.leases

-- Each handler, on the rows that it leaves.
abbrev Rows : Budget → Type 0
Rows b = IsSettledOnce b.tombs b.leases

init_settled : (d : Definition) (b : Budget) → Rows b → SettledAfter (init d b)
unfolding init set_pool
init_settled d b s =
    let same : (a : Reply) → SettledAfter (b, a) = λ a. record { settled = s } in
    by_if SettledAfter (is_bad_mode d) (λ _. same _)
      (λ _.
        by_if SettledAfter (is_bad_param d) (λ _. same _)
          (λ _.
            by_option SettledAfter b.pool
              (λ _.
                by_if SettledAfter (b.type == 0 || b.type == type_budget)
                  (λ _. record { settled = s }) (λ _. same _))
              (λ p _. same _)))

write_grant_settled :
    (id : Bytes) (g t ttl : ℤ) (holder : Bytes) (p : PoolRec) (b : Budget)
    → Rows b
    → lookup id b.tombs ≡ none
    → SettledAfter (write_grant id g t ttl holder p b)
unfolding write_grant
write_grant_settled id g t ttl holder p b s free =
    let l = new_lease g t ttl holder p in
    let rows = lease_put id b.tombs b.leases s l free in
    record {
      settled = by_if (λ c. Rows (set_lease id l c)) (ltb_ℤ (pos 0) ttl) (λ _. rows) (λ _. rows);
    }

grant_settled :
    (id : Bytes) (amount t o : ℤ) (holder : Bytes) (b : Budget)
    → Rows b
    → SettledAfter (grant id amount t o holder b)
unfolding grant grant_new
grant_settled id amount t o holder b s =
    let same : (a : Reply) → SettledAfter (b, a) = λ a. record { settled = s } in
    by_if SettledAfter (ltb_ℤ amount (pos 0)) (λ _. same _)
      (λ _.
        by_option SettledAfter (lookup id b.tombs)
          (λ free.
            by_option SettledAfter (lookup id b.leases)
              (λ _.
                by_option SettledAfter b.pool (λ _. same _)
                  (λ p _.
                    by_if SettledAfter (is_unguarded (effective_ttl o p) p) (λ _. same _)
                      (λ _.
                        by_if SettledAfter (ltb_ℤ (pos 0) (grantable amount (pace t p)))
                          (λ _.
                            write_grant_settled id (grantable amount (pace t p)) t
                              (effective_ttl o p) holder (pace t p) b s free)
                          (λ _. same _))))
              (λ l _. same _))
          (λ _ _. same _))

report_settled :
    (id : Bytes) (r : ℤ) (caller : Bytes) (b : Budget)
    → Rows b
    → SettledAfter (report id r caller b)
unfolding report fold_report
report_settled id r caller b s =
    let same : (a : Reply) → SettledAfter (b, a) = λ a. record { settled = s } in
    by_option SettledAfter (lookup id b.leases) (λ _. same _)
      (λ l live.
        by_if SettledAfter (holder_conflict caller l) (λ _. same _)
          (λ _.
            by_if SettledAfter (not (ltb_ℤ l.spent r)) (λ _. same _)
              (λ _.
                by_option SettledAfter b.pool (λ _. same _)
                  (λ p _. record {
                    settled =
                        lease_put id b.tombs b.leases s (record l { spent = folded r l })
                          (ground (arith, s.apart id));
                  }))))

settle_return_settled :
    (id : Bytes) (r : Option ℤ) (l : LeaseRec) (p : PoolRec) (b : Budget)
    → Rows b
    → SettledAfter (settle_return id r l p b)
unfolding settle_return bury_timed
settle_return_settled id r l p b s = elim (Bool-cases (ltb_ℤ (pos 0) l.reclaim_not_before_ms)) [
  | inl timed ↦ record {
    settled = rw timed (
        lease_buried id b.tombs b.leases s
          (record { final_spent = final_spent r l; reason = reason_return }));
  }
  | inr plain ↦ record { settled = rw plain (lease_gone id b.tombs b.leases s) }
]

return_lease_settled :
    (id : Bytes) (final : Option (ℤ × Bytes)) (b : Budget)
    → Rows b
    → SettledAfter (return_lease id final b)
unfolding return_lease
return_lease_settled id final b s =
    let same : (a : Reply) → SettledAfter (b, a) = λ a. record { settled = s } in
    by_option SettledAfter (lookup id b.tombs)
      (λ _.
        by_option SettledAfter (lookup id b.leases) (λ _. same _)
          (λ l _.
            by_if SettledAfter (conflict final l) (λ _. same _)
              (λ _.
                by_option SettledAfter b.pool (λ _. same _)
                  (λ p _. settle_return_settled id (reported final) l p b s))))
      (λ _ _. same _)

settle_expire_settled :
    (id : Bytes) (l : LeaseRec) (p : PoolRec) (b : Budget)
    → Rows b
    → SettledAfter (settle_expire id l p b)
unfolding settle_expire
settle_expire_settled id l p b s =
    let buried =
      lease_buried id b.tombs b.leases s
        (record { final_spent = l.spent; reason = reason_expire }) in
    elim (Bool-cases (ltb_ℤ (pos 0) l.reclaim_not_before_ms)) [
      | inl timed ↦ record { settled = rw timed buried }
      | inr plain ↦ record { settled = rw plain buried }
    ]

bury_absent_settled :
    (id : Bytes) (t : ℤ) (b : Budget)
    → Rows b
    → lookup id b.leases ≡ none
    → SettledAfter (bury_absent id t b, Reply.value (pos 0))
unfolding bury_absent
bury_absent_settled id t b s free =
    let buried =
      absent_buried id b.tombs b.leases s (record { final_spent = pos 0; reason = reason_expire })
        free in
    by_option (λ (c : Budget). SettledAfter (c, Reply.value (pos 0))) b.pool
      (λ _. record { settled = buried }) (λ p _. record { settled = buried })

expire_settled : (id : Bytes) (t : ℤ) (b : Budget) → Rows b → SettledAfter (expire id t b)
unfolding expire
expire_settled id t b s =
    let same : (a : Reply) → SettledAfter (b, a) = λ a. record { settled = s } in
    by_option SettledAfter (lookup id b.tombs)
      (λ _.
        by_option SettledAfter (lookup id b.leases) (λ gone. bury_absent_settled id t b s gone)
          (λ l _.
            by_if SettledAfter (ltb_ℤ t l.reclaim_not_before_ms) (λ _. same _)
              (λ _.
                by_option SettledAfter b.pool (λ _. same _)
                  (λ p _. settle_expire_settled id l p b s))))
      (λ _ _. same _)

reconcile_settled : (acked : ℤ) (b : Budget) → Rows b → SettledAfter (reconcile acked b)
unfolding reconcile set_pool
reconcile_settled acked b s =
    by_option SettledAfter b.pool (λ _. record { settled = s }) (λ p _. record { settled = s })

dispatch_settled :
    (op : Op) (c : Option Item) (b : Budget) → Rows b → SettledAfter (dispatch op c b)
unfolding dispatch apply_bud_init apply_bud_grant apply_bud_report apply_bud_return apply_bud_expire
    apply_bud_tomb_gc apply_bud_reconcile
dispatch_settled bud_init none b s = record { settled = s }
dispatch_settled bud_grant none b s = record { settled = s }
dispatch_settled bud_report none b s = record { settled = s }
dispatch_settled bud_return none b s = record { settled = s }
dispatch_settled bud_expire none b s = record { settled = s }
dispatch_settled bud_tomb_gc none b s = record { settled = s }
dispatch_settled bud_reconcile none b s = record { settled = s }
dispatch_settled bud_init (some c) b s =
    by_if SettledAfter (ltb (length c.key) 25) (λ _. record { settled = s })
      (λ _. init_settled (read_definition c.key) b s)
dispatch_settled bud_grant (some c) b s =
    by_if SettledAfter (is_empty c.key || ltb (length c.val) 24) (λ _. record { settled = s })
      (λ _. grant_settled c.key _ _ _ (drop 24 c.val) b s)
dispatch_settled bud_report (some c) b s =
    by_if SettledAfter (is_empty c.key || ltb (length c.val) 8) (λ _. record { settled = s })
      (λ _. report_settled c.key _ (drop 8 c.val) b s)
dispatch_settled bud_return (some c) b s =
    by_if SettledAfter (is_empty c.key) (λ _. record { settled = s })
      (λ _. return_lease_settled c.key _ b s)
dispatch_settled bud_expire (some c) b s =
    by_if SettledAfter (is_empty c.key || ltb (length c.val) 8) (λ _. record { settled = s })
      (λ _. expire_settled c.key _ b s)
dispatch_settled bud_tomb_gc (some c) b s =
    by_if SettledAfter (is_empty c.key || ltb (length c.val) 8) (λ _. record { settled = s })
      (λ _. record { settled = tomb_gone c.key b.tombs b.leases s })
dispatch_settled bud_reconcile (some c) b s =
    by_if SettledAfter (ltb (length c.val) 8) (λ _. record { settled = s })
      (λ _. reconcile_settled _ b s)

-- Every command, with any bytes, keeps the tombstones apart from the leases: no id has both.
pub apply_one-IsSettledOnce :
    (op : Op) (c : Option Item) (b : Budget)
    → IsSettledOnce b.tombs b.leases
    → IsSettledOnce (apply_one op c b).0.tombs (apply_one op c b).0.leases
unfolding apply_one
apply_one-IsSettledOnce op c b s =
    let after : SettledAfter (apply_one op c b) =
      by_if SettledAfter (not (b.type == 0) && not (b.type == type_budget))
        (λ _. record { settled = s }) (λ _. dispatch_settled op c b s) in
    after.settled
