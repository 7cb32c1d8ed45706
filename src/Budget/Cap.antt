-- ===== src/Budget/Cap.antt =====
-- The cap of a budget under the apply functions of internal/collections/budget.go.
use wave_span.Base.{
  ◌≡◌, ◌⊎◌, refl, sym, ap, ◌∙◌, Bool-cases, inl, inr, Option, none, some, Bytes, lookup, by_if,
  by_option, not, ltb, is_empty, length, drop, ◌||◌, ◌&&◌, ◌==◌,
}
use wave_span.Base.Int.{ℤ, pos, ltb_ℤ}
use wave_span.Base.Int64.{sub64}
use wave_span.Budget.{
  Budget, PoolRec, LeaseRec, Reply, Item, type_budget, set_lease, set_pool, set_bud_exp, del_lease,
  del_bud_exp, set_tomb, set_bud_tomb_gc, del_tomb, del_bud_tomb_gc,
}
use wave_span.Budget.Grant.{
  Definition, lease_out, grant, grant_new, write_grant, apply_bud_grant, init, apply_bud_init, pace,
  grantable, effective_ttl, is_unguarded, is_bad_mode, is_bad_param, read_definition,
}
use wave_span.Budget.Settle.{
  report, fold_report, apply_bud_report, return_lease, settle_return, bury_timed, final_pool,
  apply_bud_return, expire, settle_expire, bury_absent, apply_bud_expire, apply_bud_tomb_gc,
  reconcile, apply_bud_reconcile, holder_conflict, final_spent, conflict, reported, book, credit,
  debit, reconcile_pool,
}
use wave_span.Budget.Machine.{
  Op, dispatch, apply_one, bud_init, bud_grant, bud_report, bud_return, bud_expire, bud_tomb_gc,
  bud_reconcile,
}

abbrev pub cap_of : Option PoolRec → Option ℤ
cap_of none = none
cap_of (some p) = some p.cap

-- Where there was a pool, there is one with its cap.
record CapAfter (b : Budget) (r : Budget × Reply) : Type 0 where
  cap : (b.pool ≡ none) ⊎ (cap_of r.0.pool ≡ cap_of b.pool)

-- The new pool row has the cap of the old one.
row :
    (b b' : Budget) (p q : PoolRec) (a : Reply)
    → b.pool ≡ some p
    → b'.pool ≡ some q
    → q.cap ≡ p.cap
    → CapAfter b (b', a)
row b b' p q a h k e = record { cap = inr (ap cap_of k ∙ (ap (λ c. some c) e ∙ sym (ap cap_of h))) }

same : (b : Budget) (a : Reply) → CapAfter b (b, a)
same b a = record { cap = inr refl }

init_cap : (d : Definition) (b : Budget) → CapAfter b (init d b)
unfolding init
init_cap d b =
    by_if (CapAfter b) (is_bad_mode d) (λ _. same b _)
      (λ _.
        by_if (CapAfter b) (is_bad_param d) (λ _. same b _)
          (λ _.
            by_option (CapAfter b) b.pool
              (λ fresh.
                by_if (CapAfter b) (b.type == 0 || b.type == type_budget)
                  (λ _. record { cap = inl fresh }) (λ _. same b _))
              (λ p _. same b _)))

pace_cap : (t : ℤ) (p : PoolRec) → (pace t p).cap ≡ p.cap
unfolding pace
pace_cap t p = by_if (λ (q : PoolRec). q.cap ≡ p.cap) (ltb_ℤ (pos 0) p.rate) (λ _. refl) (λ _. refl)

write_grant_cap :
    (id : Bytes) (g t ttl : ℤ) (holder : Bytes) (p q : PoolRec) (b : Budget)
    → b.pool ≡ some p
    → q.cap ≡ p.cap
    → CapAfter b (write_grant id g t ttl holder q b)
unfolding write_grant lease_out set_pool set_lease set_bud_exp
write_grant_cap id g t ttl holder p q b h e = elim (Bool-cases (ltb_ℤ (pos 0) ttl)) [
  | inl timed ↦ row b _ p (lease_out g q) _ h (rw timed refl) e
  | inr plain ↦ row b _ p (lease_out g q) _ h (rw plain refl) e
]

grant_cap :
    (id : Bytes) (amount t o : ℤ) (holder : Bytes) (b : Budget)
    → CapAfter b (grant id amount t o holder b)
unfolding grant grant_new
grant_cap id amount t o holder b =
    by_if (CapAfter b) (ltb_ℤ amount (pos 0)) (λ _. same b _)
      (λ _.
        by_option (CapAfter b) (lookup id b.tombs)
          (λ _.
            by_option (CapAfter b) (lookup id b.leases)
              (λ _.
                by_option (CapAfter b) b.pool (λ _. same b _)
                  (λ p h.
                    by_if (CapAfter b) (is_unguarded (effective_ttl o p) p) (λ _. same b _)
                      (λ _.
                        by_if (CapAfter b) (ltb_ℤ (pos 0) (grantable amount (pace t p)))
                          (λ _.
                            write_grant_cap id (grantable amount (pace t p)) t (effective_ttl o p)
                              holder p (pace t p) b h (pace_cap t p))
                          (λ _. same b _))))
              (λ l _. same b _))
          (λ _ _. same b _))

report_cap : (id : Bytes) (r : ℤ) (caller : Bytes) (b : Budget) → CapAfter b (report id r caller b)
unfolding report fold_report book set_pool set_lease
report_cap id r caller b =
    by_option (CapAfter b) (lookup id b.leases) (λ _. same b _)
      (λ l _.
        by_if (CapAfter b) (holder_conflict caller l) (λ _. same b _)
          (λ _.
            by_if (CapAfter b) (not (ltb_ℤ l.spent r)) (λ _. same b _)
              (λ _.
                by_option (CapAfter b) b.pool (λ _. same b _) (λ p h. row b _ p _ _ h refl refl))))

final_pool_cap : (r : Option ℤ) (l : LeaseRec) (p : PoolRec) → (final_pool r l p).cap ≡ p.cap
unfolding final_pool book
final_pool_cap none l p = refl
final_pool_cap (some r) l p =
    by_if (λ (q : PoolRec). q.cap ≡ p.cap) (ltb_ℤ l.spent r) (λ _. refl) (λ _. refl)

settle_return_cap :
    (id : Bytes) (r : Option ℤ) (l : LeaseRec) (p : PoolRec) (b : Budget)
    → b.pool ≡ some p
    → CapAfter b (settle_return id r l p b)
unfolding settle_return bury_timed credit set_pool del_lease del_bud_exp set_tomb set_bud_tomb_gc
settle_return_cap id r l p b h = elim (Bool-cases (ltb_ℤ (pos 0) l.reclaim_not_before_ms)) [
  | inl timed ↦
      row b _ p (credit (sub64 l.amount (final_spent r l)) (final_pool r l p)) _ h (rw timed refl)
        (final_pool_cap r l p)
  | inr plain ↦
      row b _ p (credit (sub64 l.amount (final_spent r l)) (final_pool r l p)) _ h (rw plain refl)
        (final_pool_cap r l p)
]

return_lease_cap :
    (id : Bytes) (final : Option (ℤ × Bytes)) (b : Budget) → CapAfter b (return_lease id final b)
unfolding return_lease
return_lease_cap id final b =
    by_option (CapAfter b) (lookup id b.tombs)
      (λ _.
        by_option (CapAfter b) (lookup id b.leases) (λ _. same b _)
          (λ l _.
            by_if (CapAfter b) (conflict final l) (λ _. same b _)
              (λ _.
                by_option (CapAfter b) b.pool (λ _. same b _)
                  (λ p h. settle_return_cap id (reported final) l p b h))))
      (λ _ _. same b _)

settle_expire_cap :
    (id : Bytes) (l : LeaseRec) (p : PoolRec) (b : Budget)
    → b.pool ≡ some p
    → CapAfter b (settle_expire id l p b)
unfolding settle_expire debit set_pool del_lease del_bud_exp set_tomb set_bud_tomb_gc
settle_expire_cap id l p b h = elim (Bool-cases (ltb_ℤ (pos 0) l.reclaim_not_before_ms)) [
  | inl timed ↦ row b _ p (debit (sub64 l.amount l.spent) p) _ h (rw timed refl) refl
  | inr plain ↦ row b _ p (debit (sub64 l.amount l.spent) p) _ h (rw plain refl) refl
]

expire_cap : (id : Bytes) (t : ℤ) (b : Budget) → CapAfter b (expire id t b)
unfolding expire bury_absent set_tomb set_bud_tomb_gc
expire_cap id t b =
    by_option (CapAfter b) (lookup id b.tombs)
      (λ _.
        by_option (CapAfter b) (lookup id b.leases)
          (λ _.
            by_option (λ (c : Budget). CapAfter b (c, Reply.value (pos 0))) b.pool
              (λ _. record { cap = inr refl }) (λ p _. record { cap = inr refl }))
          (λ l _.
            by_if (CapAfter b) (ltb_ℤ t l.reclaim_not_before_ms) (λ _. same b _)
              (λ _.
                by_option (CapAfter b) b.pool (λ _. same b _)
                  (λ p h. settle_expire_cap id l p b h))))
      (λ _ _. same b _)

reconcile_cap : (acked : ℤ) (b : Budget) → CapAfter b (reconcile acked b)
unfolding reconcile reconcile_pool set_pool
reconcile_cap acked b =
    by_option (CapAfter b) b.pool (λ _. same b _) (λ p h. row b _ p _ _ h refl refl)

dispatch_cap : (op : Op) (c : Option Item) (b : Budget) → CapAfter b (dispatch op c b)
unfolding dispatch apply_bud_init apply_bud_grant apply_bud_report apply_bud_return apply_bud_expire
    apply_bud_tomb_gc apply_bud_reconcile del_tomb del_bud_tomb_gc
dispatch_cap bud_init none b = same b _
dispatch_cap bud_grant none b = same b _
dispatch_cap bud_report none b = same b _
dispatch_cap bud_return none b = same b _
dispatch_cap bud_expire none b = same b _
dispatch_cap bud_tomb_gc none b = same b _
dispatch_cap bud_reconcile none b = same b _
dispatch_cap bud_init (some c) b =
    by_if (CapAfter b) (ltb (length c.key) 25) (λ _. same b _)
      (λ _. init_cap (read_definition c.key) b)
dispatch_cap bud_grant (some c) b =
    by_if (CapAfter b) (is_empty c.key || ltb (length c.val) 24) (λ _. same b _)
      (λ _. grant_cap c.key _ _ _ (drop 24 c.val) b)
dispatch_cap bud_report (some c) b =
    by_if (CapAfter b) (is_empty c.key || ltb (length c.val) 8) (λ _. same b _)
      (λ _. report_cap c.key _ (drop 8 c.val) b)
dispatch_cap bud_return (some c) b =
    by_if (CapAfter b) (is_empty c.key) (λ _. same b _) (λ _. return_lease_cap c.key _ b)
dispatch_cap bud_expire (some c) b =
    by_if (CapAfter b) (is_empty c.key || ltb (length c.val) 8) (λ _. same b _)
      (λ _. expire_cap c.key _ b)
dispatch_cap bud_tomb_gc (some c) b =
    by_if (CapAfter b) (is_empty c.key || ltb (length c.val) 8) (λ _. same b _)
      (λ _. record { cap = inr refl })
dispatch_cap bud_reconcile (some c) b =
    by_if (CapAfter b) (ltb (length c.val) 8) (λ _. same b _) (λ _. reconcile_cap _ b)

-- No command changes the cap of a pool.
pub apply_one_cap :
    (op : Op) (c : Option Item) (b : Budget)
    → (b.pool ≡ none) ⊎ (cap_of (apply_one op c b).0.pool ≡ cap_of b.pool)
unfolding apply_one
apply_one_cap op c b =
    let after : CapAfter b (apply_one op c b) =
      by_if (CapAfter b) (not (b.type == 0) && not (b.type == type_budget)) (λ _. same b _)
        (λ _. dispatch_cap op c b) in
    after.cap
