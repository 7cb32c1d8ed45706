-- ===== src/Budget/Check.antt =====
-- The read path of a budget: `lookupBudStat`, and the conservation probe `lookupBudCheck`.
use wave_span.Base.{
  ℕ, ◌≡◌, refl, arith, Bool, true, false, not, ◌&&◌, Option, none, some, List, All, total,
}
use wave_span.Base.Int.{ℤ, pos, ltb_ℤ}
use wave_span.Base.Int64.{add64, add64_parts, eq_ℤ, eq_ℤ_iff}
use wave_span.Budget.{PoolRec, Item, empty_budget}
use wave_span.Budget.Machine.{Op, apply_all}
use wave_span.Budget.Pool.{IsPool, held}
use wave_span.Budget.Invariant.{pool_of}
use wave_span.Budget.Ledger.{IsReconcile, apply_all_conserves}

pub record BudStat : Type 0 where
  pub exists : Bool
  pub cap : ℤ
  pub available : ℤ
  pub leased_out : ℤ
  pub spent : ℤ
  pub spent_reported : ℤ
  pub epoch : ℕ
  pub mode : ℕ

unfoldable pub lookup_bud_stat : Option PoolRec → BudStat
lookup_bud_stat none = record {
  exists = false;
  cap = pos 0;
  available = pos 0;
  leased_out = pos 0;
  spent = pos 0;
  spent_reported = pos 0;
  epoch = 0;
  mode = 0;
}
lookup_bud_stat (some p) = record {
  exists = true;
  cap = p.cap;
  available = p.available;
  leased_out = p.leased_out;
  spent = p.spent;
  spent_reported = p.spent_reported;
  epoch = p.epoch;
  mode = p.mode;
}

pub record BudCheck : Type 0 where
  pub exists : Bool
  pub ok : Bool
  pub cap : ℤ
  pub available : ℤ
  pub leased_out : ℤ
  pub spent : ℤ
  pub spent_reported : ℤ

-- The equation of the probe, in int64 arithmetic.
unfoldable pub is_conserved : PoolRec → Bool
is_conserved p =
    eq_ℤ (add64 (add64 p.available p.leased_out) p.spent) p.cap
    && (not (ltb_ℤ p.cap p.spent)
        && (not (ltb_ℤ p.available (pos 0))
            && (not (ltb_ℤ p.leased_out (pos 0)) && not (ltb_ℤ p.spent (pos 0)))))

unfoldable pub lookup_bud_check : Option PoolRec → BudCheck
unfolding is_conserved
lookup_bud_check none = record {
  exists = false;
  ok = false;
  cap = pos 0;
  available = pos 0;
  leased_out = pos 0;
  spent = pos 0;
  spent_reported = pos 0;
}
lookup_bud_check (some p) = record {
  exists = true;
  ok = is_conserved p;
  cap = p.cap;
  available = p.available;
  leased_out = p.leased_out;
  spent = p.spent;
  spent_reported = p.spent_reported;
}

IsPool-is_conserved : (h : ℕ) (p : PoolRec) → IsPool 0 h p → is_conserved p ≡ true
unfolding is_conserved
IsPool-is_conserved h p i =
    let a =
      add64_parts p.available p.leased_out i.available_nonneg i.leased_nonneg
        (omega (arith, i.adds_up, i.in_range)) in
    let b =
      add64_parts (add64 p.available p.leased_out) p.spent a.0 i.spent_nonneg
        (omega (arith, i.adds_up, i.in_range)) in
    ground (arith, eq_ℤ_iff (add64 (add64 p.available p.leased_out) p.spent) p.cap)

-- The probe never fires: after any sequence of commands without a reconciliation, from a collection
-- without a budget, the check of the pool answers that it exists and is conserved, in int64 arithmetic.
pub lookup_bud_check-apply_all :
    (cs : List (Op × Option Item)) (p : PoolRec)
    → All (λ c. ¬ (IsReconcile c.0)) cs
    → (apply_all cs empty_budget).pool ≡ some p
    → ((lookup_bud_check (some p)).exists ≡ true) × ((lookup_bud_check (some p)).ok ≡ true)
unfolding lookup_bud_check
lookup_bud_check-apply_all cs p plain have =
    let i = pool_of 0 (apply_all cs empty_budget) p (apply_all_conserves cs plain) have in
    (refl, IsPool-is_conserved (total held (apply_all cs empty_budget).leases) p i)
