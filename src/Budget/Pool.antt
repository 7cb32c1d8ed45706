-- ===== src/Budget/Pool.antt =====
-- The money of one pool row: the movements of internal/collections/budget.go without wrap-around.
use wave_span.Base.{
  ℕ, ◌+◌, ◌-◌, ◌^◌, ◌≤◌, ◌<◌, ◌≡◌, true, arith, Bool-cases, inl, inr, if◌then◌else◌,
}
use wave_span.Base.Int.{ℤ, pos, pos_part, neg_part, ltb_ℤ}
use wave_span.Base.Int64.{add64_parts, sub64_parts, min64}
use wave_span.Budget.{PoolRec, LeaseRec}
use wave_span.Budget.Grant.{pace, grantable, lease_out}
use wave_span.Budget.Settle.{book, credit, debit}

-- The buckets of a pool whose outstanding leases hold `held` units, adding up to `cap + excess`.
pub record IsPool (excess held : ℕ) (p : PoolRec) : Type 0 where
  pub available_nonneg : neg_part p.available ≡ 0
  pub leased_nonneg : neg_part p.leased_out ≡ 0
  pub spent_nonneg : neg_part p.spent ≡ 0
  pub reported_nonneg : neg_part p.spent_reported ≡ 0
  pub cap_nonneg : neg_part p.cap ≡ 0
  pub leases_held : pos_part p.leased_out ≡ held
  pub reported_spent : pos_part p.spent_reported ≤ pos_part p.spent
  pub adds_up :
      pos_part p.available + pos_part p.leased_out + pos_part p.spent ≡ pos_part p.cap + excess
  pub in_range : pos_part p.cap + excess < 2 ^ 63

-- What a lease still holds.
abbrev pub held : LeaseRec → ℕ
held l = pos_part l.amount - pos_part l.spent

pub record IsLease (l : LeaseRec) : Type 0 where
  pub amount_nonneg : neg_part l.amount ≡ 0
  pub spent_nonneg : neg_part l.spent ≡ 0
  pub spent-le-amount : pos_part l.spent ≤ pos_part l.amount
  pub amount_range : pos_part l.amount < 2 ^ 63

pub pace-IsPool : (t : ℤ) (e h : ℕ) (p : PoolRec) → IsPool e h p → IsPool e h (pace t p)
unfolding pace
pace-IsPool t e h p i = elim (Bool-cases (ltb_ℤ (pos 0) p.rate)) [
  | inl paced ↦ simp paced (ground arith)
  | inr free ↦ simp free i
]

pub lease_out-IsPool :
    (g : ℤ) (e h : ℕ) (p : PoolRec)
    → IsPool e h p
    → neg_part g ≡ 0
    → pos_part g ≤ pos_part p.available
    → IsPool e (h + pos_part g) (lease_out g p)
unfolding lease_out
lease_out-IsPool g e h p i n k =
    ground (arith, sub64_parts p.available g, add64_parts p.leased_out g)

pub book-IsPool :
    (d : ℤ) (e h : ℕ) (p : PoolRec)
    → IsPool e h p
    → neg_part d ≡ 0
    → pos_part d ≤ h
    → IsPool e (h - pos_part d) (book d p)
unfolding book
book-IsPool d e h p i n k =
    ground
      (arith, sub64_parts p.leased_out d, add64_parts p.spent d, add64_parts p.spent_reported d)

pub credit-IsPool :
    (d : ℤ) (e h : ℕ) (p : PoolRec)
    → IsPool e h p
    → neg_part d ≡ 0
    → pos_part d ≤ h
    → IsPool e (h - pos_part d) (credit d p)
unfolding credit
credit-IsPool d e h p i n k = ground (arith, sub64_parts p.leased_out d, add64_parts p.available d)

pub debit-IsPool :
    (d : ℤ) (e h : ℕ) (p : PoolRec)
    → IsPool e h p
    → neg_part d ≡ 0
    → pos_part d ≤ h
    → IsPool e (h - pos_part d) (debit d p)
unfolding debit
debit-IsPool d e h p i n k = ground (arith, sub64_parts p.leased_out d, add64_parts p.spent d)

-- What a grant takes, where it is positive, is at most what was asked, at most what is available, and
-- on a paced pool at most the tokens.
pub grantable_bounds :
    (amount : ℤ) (p : PoolRec)
    → ltb_ℤ (pos 0) (grantable amount p) ≡ true
    → neg_part p.available ≡ 0
    → (neg_part (grantable amount p) ≡ 0)
      × (pos_part (grantable amount p) ≤ pos_part p.available)
      × (pos_part (grantable amount p) ≤ pos_part amount)
      × (pos_part (grantable amount p)
          ≤ (if ltb_ℤ (pos 0) p.rate then pos_part p.tokens else pos_part amount))
unfolding grantable min64
grantable_bounds amount p h n = (ground arith, ground arith, ground arith, ground arith)
