-- ===== src/Budget/Conserve.antt =====
-- The settlements and the books: report, return, expiry, tombstone collection and reconciliation.
use wave_span.Base.{
  ℕ, ◌+◌, ◌-◌, ◌≤◌, ◌≡◌, true, arith, Bool-cases, inl, inr, Option, none, some, Bytes, lookup,
  erase, total, Values-lookup, by_if, by_option, subst, not,
}
use wave_span.Base.Int.{ℤ, pos, pos_part, neg_part, ltb_ℤ}
use wave_span.Base.Int64.{sub64, sub64_parts}
use wave_span.Budget.{Budget, PoolRec, LeaseRec, Reply}
use wave_span.Budget.Settle.{
  fold_report, report, folded, holder_conflict, book, credit, debit, final_spent, final_pool,
  bury_timed, settle_return, return_lease, conflict, reported, settle_expire, bury_absent, expire,
}
use wave_span.Budget.Pool.{IsPool, IsLease, held, book-IsPool, credit-IsPool, debit-IsPool}
use wave_span.Budget.Invariant.{
  IsSound, IsSoundRows, SoundAfter, pool_of, written, deleted, held-le-total,
}

-- A larger report is clamped between what was spent and the amount.
folded_bounds :
    (r : ℤ) (l : LeaseRec)
    → IsLease l
    → ltb_ℤ l.spent r ≡ true
    → (neg_part (folded r l) ≡ 0)
      × (pos_part l.spent ≤ pos_part (folded r l))
      × (pos_part (folded r l) ≤ pos_part l.amount)
unfolding folded
folded_bounds r l k h = (ground arith, ground arith, ground arith)

-- What a larger report moves.
folded_delta :
    (r : ℤ) (l : LeaseRec)
    → IsLease l
    → ltb_ℤ l.spent r ≡ true
    → (neg_part (sub64 (folded r l) l.spent) ≡ 0)
      × (pos_part (sub64 (folded r l) l.spent) + pos_part l.spent ≡ pos_part (folded r l))
folded_delta r l k h =
    let b = folded_bounds r l k h in
    sub64_parts (folded r l) l.spent b.0 k.spent_nonneg (omega (arith, k.amount_range)) b.1

fold_report-IsSound :
    (e : ℕ) (id : Bytes) (r : ℤ) (l : LeaseRec) (p : PoolRec) (b : Budget)
    → IsSound e b
    → b.pool ≡ some p
    → lookup id b.leases ≡ some l
    → ltb_ℤ l.spent r ≡ true
    → IsSound e (fold_report id r l p b)
unfolding fold_report
fold_report-IsSound e id r l p b s have live more =
    let k = Values-lookup IsLease id b.leases s.values live in
    let bounds = folded_bounds r l k more in
    let d = folded_delta r l k more in
    let le = held-le-total id l b.leases live in
    let delta : ℤ = sub64 (folded r l) l.spent in
    written e (total held b.leases - pos_part delta) id (book delta p)
      (record l { spent = folded r l }) b.leases s.keys s.values
      (book-IsPool delta e (total held b.leases) p (pool_of e b p s have) d.0 (omega arith))
      (omega arith) (rw live (omega arith))

-- A report keeps the books.
pub report-IsSound :
    (e : ℕ) (id : Bytes) (r : ℤ) (caller : Bytes) (b : Budget)
    → IsSound e b
    → SoundAfter e (report id r caller b)
unfolding report
report-IsSound e id r caller b s =
    let same : (a : Reply) → SoundAfter e (b, a) = λ a. record { sound = s } in
    by_option (SoundAfter e) (lookup id b.leases) (λ _. same _)
      (λ l live.
        by_if (SoundAfter e) (holder_conflict caller l) (λ _. same _)
          (λ _.
            by_if (SoundAfter e) (not (ltb_ℤ l.spent r)) (λ _. same _)
              (λ more.
                by_option (SoundAfter e) b.pool (λ _. same _)
                  (λ p have. record {
                    sound = fold_report-IsSound e id r l p b s have live (ground arith);
                  }))))

-- The pool after the final report of a return, and the final total.
record IsFinal (e h : ℕ) (l : LeaseRec) (spent : ℤ) (p : PoolRec) : Type 0 where
  nonneg : neg_part spent ≡ 0
  lower : pos_part l.spent ≤ pos_part spent
  upper : pos_part spent ≤ pos_part l.amount
  pool : IsPool e (h - (pos_part spent - pos_part l.spent)) p

unreported :
    (e h : ℕ) (l : LeaseRec) (p : PoolRec) → IsLease l → IsPool e h p → IsFinal e h l l.spent p
unreported e h l p k i = record {
  nonneg = k.spent_nonneg;
  lower = omega arith;
  upper = k.spent-le-amount;
  pool = subst (λ n. IsPool e n p) (omega arith) i;
}

final_lem :
    (e h : ℕ) (r : Option ℤ) (l : LeaseRec) (p : PoolRec)
    → IsLease l
    → held l ≤ h
    → IsPool e h p
    → IsFinal e h l (final_spent r l) (final_pool r l p)
unfolding final_spent final_pool
final_lem e h none l p k le i = unreported e h l p k i
final_lem e h (some r) l p k le i = elim (Bool-cases (ltb_ℤ l.spent r)) [
  | inl more ↦ simp more (
      let b = folded_bounds r l k more in
      let d = folded_delta r l k more in
      let delta : ℤ = sub64 (folded r l) l.spent in
      record {
        nonneg = b.0;
        lower = b.1;
        upper = b.2;
        pool =
            subst (λ n. IsPool e n (book delta p)) (omega arith)
              (book-IsPool delta e h p i d.0 (omega arith));
      })
  | inr stale ↦ simp stale (unreported e h l p k i)
]

settle_return-IsSound :
    (e : ℕ) (id : Bytes) (r : Option ℤ) (l : LeaseRec) (p : PoolRec) (b : Budget)
    → IsSound e b
    → b.pool ≡ some p
    → lookup id b.leases ≡ some l
    → IsSound e (settle_return id r l p b).0
unfolding settle_return bury_timed
settle_return-IsSound e id r l p b s have live =
    let k = Values-lookup IsLease id b.leases s.values live in
    let le = held-le-total id l b.leases live in
    let f = final_lem e (total held b.leases) r l p k le (pool_of e b p s have) in
    let spent = final_spent r l in
    let rem = sub64 l.amount spent in
    let q = credit rem (final_pool r l p) in
    let parts = sub64_parts l.amount spent k.amount_nonneg f.nonneg k.amount_range f.upper in
    let h : ℕ = total held b.leases - (pos_part spent - pos_part l.spent) in
    let rows : IsSoundRows e (some q) (erase id b.leases) =
      deleted e (h - pos_part rem) id q b.leases s.keys s.values
        (credit-IsPool rem e h (final_pool r l p) f.pool parts.0 (omega arith))
        (rw live (omega arith)) in
    elim (Bool-cases (ltb_ℤ (pos 0) l.reclaim_not_before_ms)) [
      | inl timed ↦ simp timed rows
      | inr free ↦ simp free rows
    ]

-- A return keeps the books.
pub return_lease-IsSound :
    (e : ℕ) (id : Bytes) (final : Option (ℤ × Bytes)) (b : Budget)
    → IsSound e b
    → SoundAfter e (return_lease id final b)
unfolding return_lease
return_lease-IsSound e id final b s =
    let same : (a : Reply) → SoundAfter e (b, a) = λ a. record { sound = s } in
    by_option (SoundAfter e) (lookup id b.tombs)
      (λ _.
        by_option (SoundAfter e) (lookup id b.leases) (λ _. same _)
          (λ l live.
            by_if (SoundAfter e) (conflict final l) (λ _. same _)
              (λ _.
                by_option (SoundAfter e) b.pool (λ _. same _)
                  (λ p have. record {
                    sound = settle_return-IsSound e id (reported final) l p b s have live;
                  }))))
      (λ t _. same _)

settle_expire-IsSound :
    (e : ℕ) (id : Bytes) (l : LeaseRec) (p : PoolRec) (b : Budget)
    → IsSound e b
    → b.pool ≡ some p
    → lookup id b.leases ≡ some l
    → IsSound e (settle_expire id l p b).0
unfolding settle_expire
settle_expire-IsSound e id l p b s have live =
    let k = Values-lookup IsLease id b.leases s.values live in
    let le = held-le-total id l b.leases live in
    let rem = sub64 l.amount l.spent in
    let parts =
      sub64_parts l.amount l.spent k.amount_nonneg k.spent_nonneg k.amount_range
        k.spent-le-amount in
    let rows : IsSoundRows e (some (debit rem p)) (erase id b.leases) =
      deleted e (total held b.leases - pos_part rem) id (debit rem p) b.leases s.keys s.values
        (debit-IsPool rem e (total held b.leases) p (pool_of e b p s have) parts.0 (omega arith))
        (rw live (omega arith)) in
    elim (Bool-cases (ltb_ℤ (pos 0) l.reclaim_not_before_ms)) [
      | inl timed ↦ simp timed rows
      | inr free ↦ simp free rows
    ]

bury_absent-IsSound :
    (e : ℕ) (id : Bytes) (t : ℤ) (b : Budget) → IsSound e b → IsSound e (bury_absent id t b)
unfolding bury_absent
bury_absent-IsSound e id t b s =
    let kept : SoundAfter e (bury_absent id t b, Reply.value (pos 0)) =
      by_option (λ (c : Budget). SoundAfter e (c, Reply.value (pos 0))) b.pool
        (λ _. record { sound = s }) (λ p _. record { sound = s }) in
    kept.sound

-- An expiry keeps the books.
pub expire-IsSound :
    (e : ℕ) (id : Bytes) (t : ℤ) (b : Budget) → IsSound e b → SoundAfter e (expire id t b)
unfolding expire
expire-IsSound e id t b s =
    let same : (a : Reply) → SoundAfter e (b, a) = λ a. record { sound = s } in
    by_option (SoundAfter e) (lookup id b.tombs)
      (λ _.
        by_option (SoundAfter e) (lookup id b.leases)
          (λ _. record { sound = bury_absent-IsSound e id t b s })
          (λ l live.
            by_if (SoundAfter e) (ltb_ℤ t l.reclaim_not_before_ms) (λ _. same _)
              (λ _.
                by_option (SoundAfter e) b.pool (λ _. same _)
                  (λ p have. record { sound = settle_expire-IsSound e id l p b s have live }))))
      (λ t _. same _)
