-- ===== src/Budget/Reconcile.antt =====
-- `applyBudReconcile`: what it sets spent to, and what becomes of an over-commitment.
use wave_span.Base.{
  ℕ, ◌+◌, ◌-◌, ◌^◌, ◌≤◌, ◌<◌, ◌≡◌, refl, ap, ◌∙◌, arith, Option, some, List, [], All, total,
}
use wave_span.Base.Int.{ℤ, pos_part, neg_part, ◌-ℤ◌}
use wave_span.Base.Int64.{sub64, wrap64, sub64_parts, clamp_i64}
use wave_span.Budget.{Budget, PoolRec, Item, set_pool}
use wave_span.Budget.Settle.{reconcile_pool, reconcile}
use wave_span.Budget.Machine.{Op, apply_all}
use wave_span.Budget.Pool.{IsPool, held}
use wave_span.Budget.Invariant.{IsSound, pool_of}
use wave_span.Budget.Ledger.{IsReconcile, apply_all-IsSound}

-- A difference of non-negative values, of any sign.
sub64_signed :
    (a b : ℤ)
    → neg_part a ≡ 0
    → neg_part b ≡ 0
    → pos_part a < 2 ^ 63
    → pos_part b < 2 ^ 63
    → (pos_part (sub64 a b) ≡ pos_part a - pos_part b)
      × (neg_part (sub64 a b) ≡ pos_part b - pos_part a)
unfolding sub64 ◌-ℤ◌ wrap64
sub64_signed a b ha hb h k = ground arith

-- The total that a reconciliation books.
abbrev pub target : ℤ → PoolRec → ℕ
target acked p = pos_part (clamp_i64 acked p.spent_reported p.cap)

-- How far the total and the outstanding leases exceed the cap.
abbrev pub overcommit : ℤ → PoolRec → ℕ
overcommit acked p = target acked p + pos_part p.leased_out - pos_part p.cap

pub record IsReconciled (acked : ℤ) (p q : PoolRec) : Type 0 where
  pub booked : pos_part q.spent ≡ target acked p
  pub floor : pos_part p.spent_reported ≤ target acked p
  pub ceiling : target acked p ≤ pos_part p.cap
  pub kept_leases : q.leased_out ≡ p.leased_out
  pub kept_cap : q.cap ≡ p.cap
  pub headroom : pos_part q.available ≡ pos_part p.cap - (target acked p + pos_part p.leased_out)

target_within :
    (acked : ℤ) (h : ℕ) (p : PoolRec)
    → IsPool 0 h p
    → (neg_part (clamp_i64 acked p.spent_reported p.cap) ≡ 0)
      × (target acked p ≤ pos_part p.cap)
      × (pos_part p.spent_reported ≤ target acked p)
unfolding clamp_i64
target_within acked h p i = (ground arith, ground arith, ground arith)

reconcile_pool_lem :
    (acked : ℤ) (h : ℕ) (p : PoolRec)
    → IsPool 0 h p
    → pos_part p.cap < 2 ^ 62
    → IsReconciled acked p (reconcile_pool acked p)
      × IsPool (overcommit acked p) h (reconcile_pool acked p)
unfolding reconcile_pool
reconcile_pool_lem acked h p i k =
    let t : ℤ = clamp_i64 acked p.spent_reported p.cap in
    let within = target_within acked h p i in
    let room = sub64_parts p.cap t i.cap_nonneg within.0 (omega arith) within.1 in
    let left =
      sub64_signed (sub64 p.cap t) p.leased_out room.0 i.leased_nonneg (omega arith)
        (omega arith) in
    (ground arith, ground arith)

-- A reconciliation of balanced books below 2^62 sets spent to the acknowledged total, raised to what
-- the holders reported and lowered to the cap; available is what cap, spent and outstanding leases
-- leave, or 0; leases and cap stay. The books are over-committed by what total and leases exceed the
-- cap by, and balanced where they do not exceed it.
pub reconcile_lem :
    (acked : ℤ) (b : Budget) (p : PoolRec)
    → IsSound 0 b
    → b.pool ≡ some p
    → pos_part p.cap < 2 ^ 62
    → (q : PoolRec) × ((reconcile acked b).0.pool ≡ some q)
      × IsReconciled acked p q
      × IsSound (overcommit acked p) (reconcile acked b).0
unfolding reconcile set_pool
reconcile_lem acked b p s have k =
    let l = reconcile_pool_lem acked (total held b.leases) p (pool_of 0 b p s have) k in
    rw have (
      reconcile_pool acked p,
      refl,
      l.0,
      record { matches = l.1; keys = s.keys; values = s.values },
    )

settled_pool :
    (e : ℕ) (b : Budget) (q : PoolRec)
    → IsSound e b
    → b.pool ≡ some q
    → b.leases ≡ []
    → pos_part q.available + pos_part q.spent ≡ pos_part q.cap + e
settled_pool e b q s have none_left =
    let i = pool_of e b q s have in
    let z = i.leases_held ∙ ap (total held) none_left in omega (arith, i.adds_up)

-- An over-commitment does not drain: after a reconciliation of balanced books with a cap below 2^62
-- and any commands that are not reconciliations, once no lease is outstanding, available and spent together still exceed the cap by
-- the whole over-commitment.
pub overcommit_persists :
    (acked : ℤ) (b : Budget) (p q : PoolRec) (cs : List (Op × Option Item))
    → IsSound 0 b
    → b.pool ≡ some p
    → pos_part p.cap < 2 ^ 62
    → All (λ c. ¬ (IsReconcile c.0)) cs
    → (apply_all cs (reconcile acked b).0).pool ≡ some q
    → (apply_all cs (reconcile acked b).0).leases ≡ []
    → pos_part q.available + pos_part q.spent ≡ pos_part q.cap + overcommit acked p
overcommit_persists acked b p q cs s have k plain last settled =
    let (_, _, _, after) = reconcile_lem acked b p s have k in
    settled_pool (overcommit acked p) (apply_all cs (reconcile acked b).0) q
      (apply_all-IsSound (overcommit acked p) cs (reconcile acked b).0 plain after) last settled
