-- ===== src/Budget/Pacing.antt =====
-- The token bucket of a paced budget, without wrap-around.
use wave_span.Base.{
  ℕ, ◌+◌, ◌-◌, ◌*◌, ◌/◌, ◌^◌, ◌≤◌, ◌<◌, ◌≡◌, refl, ap, ◌∙◌, arith, Bool, true, false, if◌then◌else◌,
}
use Prim.Native.Nat.{min}
use native.Mathlib.Nat.{div-add-mod, mul-le-mul_left}
use wave_span.Base.Int.{ℤ, pos, pos_part, neg_part, ltb_ℤ, negsuc, ◌-ℤ◌, ◌*ℤ◌}
use wave_span.Base.Int64.{
  add64, sub64, mul64, div64, min64, clamp_i64, eq_ℤ, wrap64, add64_parts, sub64_parts,
}
use wave_span.Budget.{PoolRec, pacing_max_elapsed_ms}
use wave_span.Budget.Grant.{pace}
use wave_span.Budget.Pool.{IsPool}

-- What the guards of `applyBudInit` and the grants keep of a paced pool.
pub record IsPaced (p : PoolRec) : Type 0 where
  pub rate_positive : ltb_ℤ (pos 0) p.rate ≡ true
  pub rate_range : pos_part p.rate < 2 ^ 63
  pub burst_nonneg : neg_part p.burst ≡ 0
  pub burst_range : pos_part p.burst ≤ 2 ^ 50
  pub tokens_nonneg : neg_part p.tokens ≡ 0
  pub tokens_range : pos_part p.tokens ≤ pos_part p.burst

mul64_parts :
    (a b : ℤ)
    → neg_part a ≡ 0
    → neg_part b ≡ 0
    → pos_part a * pos_part b < 2 ^ 63
    → (neg_part (mul64 a b) ≡ 0) × (pos_part (mul64 a b) ≡ pos_part a * pos_part b)
unfolding mul64 ◌*ℤ◌ wrap64
mul64_parts (pos a) (pos b) ha hb h = ground arith
mul64_parts (pos a) (negsuc b) ha hb h = ground arith
mul64_parts (negsuc a) b ha hb h = ground arith

div64_parts :
    (a b : ℤ)
    → neg_part a ≡ 0
    → neg_part b ≡ 0
    → (neg_part (div64 a b) ≡ 0) × (pos_part (div64 a b) ≡ pos_part a / pos_part b)
unfolding div64
div64_parts (pos a) (pos b) ha hb = (refl, refl)
div64_parts (pos a) (negsuc b) ha hb = ground arith
div64_parts (negsuc a) b ha hb = ground arith

sub64_signed :
    (a b : ℤ)
    → neg_part a ≡ 0
    → neg_part b ≡ 0
    → pos_part a < 2 ^ 63
    → pos_part b < 2 ^ 63
    → pos_part (sub64 a b) ≡ pos_part a - pos_part b
unfolding sub64 ◌-ℤ◌ wrap64
sub64_signed a b ha hb h k = ground arith

max_elapsed_parts :
    (p : PoolRec)
    → IsPaced p
    → (neg_part (pacing_max_elapsed_ms p.rate p.burst) ≡ 0)
      × (pos_part (pacing_max_elapsed_ms p.rate p.burst)
          ≡ 4 * pos_part p.burst * 1000 / pos_part p.rate)
unfolding pacing_max_elapsed_ms
max_elapsed_parts p i =
    let four = mul64_parts (pos 4) p.burst refl i.burst_nonneg (omega (arith, i.burst_range)) in
    let milli =
      mul64_parts (mul64 (pos 4) p.burst) (pos 1000) four.0 refl (omega (arith, i.burst_range)) in
    let rate_nonneg : neg_part p.rate ≡ 0 = ground (arith, i.rate_positive) in
    let d = div64_parts (mul64 (mul64 (pos 4) p.burst) (pos 1000)) p.rate milli.0 rate_nonneg in
    rw i.rate_positive
      (d.0, d.1 ∙ ap (λ n. n / pos_part p.rate) (milli.1 ∙ ap (λ n. n * 1000) four.1))

clamp_parts :
    (v hi : ℤ)
    → neg_part hi ≡ 0
    → (neg_part (clamp_i64 v (pos 0) hi) ≡ 0)
      × (pos_part (clamp_i64 v (pos 0) hi) ≡ min (pos_part v) (pos_part hi))
unfolding clamp_i64
clamp_parts v hi h = ground arith

div_bound : (n k : ℕ) → k * (n / k) ≤ n
div_bound n k = omega (arith, div-add-mod n k)

mul_le : (k a b : ℕ) → a ≤ b → k * a ≤ k * b
mul_le k a b h = mul-le-mul_left k h

-- When the last refill was: at this grant, for a pool that has seen none.
abbrev pub refill_start : ℤ → PoolRec → ℤ
refill_start now p = if eq_ℤ p.last_refill_ms (pos 0) then now else p.last_refill_ms

-- The idle time that counts, in milliseconds.
abbrev pub counted_ms : ℤ → PoolRec → ℕ
counted_ms now p =
    min (pos_part now - pos_part (refill_start now p))
      (4 * pos_part p.burst * 1000 / pos_part p.rate)

product_bound : (now : ℤ) (p : PoolRec) → IsPaced p → pos_part p.rate * counted_ms now p ≤ 2 ^ 62
product_bound now p i =
    let m = 4 * pos_part p.burst * 1000 / pos_part p.rate in
    let a = mul_le (pos_part p.rate) (counted_ms now p) m (omega arith) in
    let b = div_bound (4 * pos_part p.burst * 1000) (pos_part p.rate) in
    omega (arith, i.burst_range)

-- `elapsed` and `accrued` of `pace`.
abbrev elapsed : ℤ → PoolRec → ℤ
elapsed now p =
    clamp_i64 (sub64 now (refill_start now p)) (pos 0) (pacing_max_elapsed_ms p.rate p.burst)

abbrev accrued : ℤ → PoolRec → ℤ
accrued now p = div64 (mul64 p.rate (elapsed now p)) (pos 1000)

-- What accrues in the idle time, as `pace` computes it and as it is.
accrued_parts :
    (now : ℤ) (p : PoolRec)
    → IsPaced p
    → neg_part now ≡ 0
    → pos_part now < 2 ^ 63
    → neg_part p.last_refill_ms ≡ 0
    → pos_part p.last_refill_ms < 2 ^ 63
    → (neg_part (accrued now p) ≡ 0)
      × (pos_part (accrued now p) ≡ pos_part p.rate * counted_ms now p / 1000)
accrued_parts now p i a b c d =
    let start = refill_start now p in
    let s : (neg_part start ≡ 0) × (pos_part start < 2 ^ 63) = ground arith in
    let idle = sub64_signed now start a s.0 b s.1 in
    let most = max_elapsed_parts p i in
    let e = clamp_parts (sub64 now start) (pacing_max_elapsed_ms p.rate p.burst) most.0 in
    let counted : pos_part (elapsed now p) ≡ counted_ms now p =
      e.1
      ∙ (ap (λ n. min n (pos_part (pacing_max_elapsed_ms p.rate p.burst))) idle
          ∙ ap (min (pos_part now - pos_part start)) most.1) in
    let bound = product_bound now p i in
    let product = ap (λ n. pos_part p.rate * n) counted in
    let m =
      mul64_parts p.rate (elapsed now p) (ground (arith, i.rate_positive)) e.0 (omega arith) in
    let q = div64_parts (mul64 p.rate (elapsed now p)) (pos 1000) m.0 refl in
    (q.0, q.1 ∙ ap (λ n. n / 1000) (m.1 ∙ product))

min64_parts :
    (a b : ℤ)
    → neg_part a ≡ 0
    → neg_part b ≡ 0
    → (neg_part (min64 a b) ≡ 0) × (pos_part (min64 a b) ≡ min (pos_part a) (pos_part b))
unfolding min64
min64_parts a b h k = ground arith

-- The floor at 0 does not act on what is not negative.
floor_parts :
    (a : ℤ)
    → neg_part a ≡ 0
    → (neg_part (if ltb_ℤ a (pos 0) then pos 0 else a) ≡ 0)
      × (pos_part (if ltb_ℤ a (pos 0) then pos 0 else a) ≡ pos_part a)
floor_parts a h = ground arith

abbrev refilled : ℤ → PoolRec → PoolRec
refilled now p =
    let tokens = min64 (min64 p.burst (sub64 p.cap p.spent)) (add64 p.tokens (accrued now p)) in
    record p {
      tokens = if ltb_ℤ tokens (pos 0) then pos 0 else tokens;
      last_refill_ms = if ltb_ℤ (refill_start now p) now then now else refill_start now p;
    }

if_true : {A : Type 0} (b : Bool) (x y : A) → b ≡ true → (if b then x else y) ≡ x
if_true true x y h = refl
if_true false x y h = ground arith

pace-refilled : (now : ℤ) (p : PoolRec) → ltb_ℤ (pos 0) p.rate ≡ true → pace now p ≡ refilled now p
unfolding pace pacing_max_elapsed_ms
pace-refilled now p h = if_true (ltb_ℤ (pos 0) p.rate) (refilled now p) p h

-- A paced pool with balanced books, burst at most 2^50, and times that are not negative: one refill
-- brings the tokens to what they were plus rate times the counted idle milliseconds over 1000, cut to
-- the burst and to the unspent cap, without overflow in the product; nothing but the tokens and the time
-- of the last refill changes, and the last refill never goes back.
pub pace_lem :
    (now : ℤ) (h : ℕ) (p : PoolRec)
    → IsPool 0 h p
    → IsPaced p
    → neg_part now ≡ 0
    → pos_part now < 2 ^ 63
    → neg_part p.last_refill_ms ≡ 0
    → pos_part p.last_refill_ms < 2 ^ 63
    → (neg_part (pace now p).tokens ≡ 0)
      × (pos_part (pace now p).tokens
          ≡ min
              (min (pos_part p.burst) (pos_part p.cap - pos_part p.spent))
              (pos_part p.tokens + pos_part p.rate * counted_ms now p / 1000))
      × (pos_part p.last_refill_ms ≤ pos_part (pace now p).last_refill_ms)
      × (pos_part now ≤ pos_part (pace now p).last_refill_ms)
      × IsPaced (pace now p)
      × (pace now p
          ≡ record p { tokens = (pace now p).tokens; last_refill_ms = (pace now p).last_refill_ms })
pace_lem now h p k i a b c d =
    let acc = accrued_parts now p i a b c d in
    let bound = product_bound now p i in
    let sum =
      add64_parts p.tokens (accrued now p) i.tokens_nonneg acc.0
        (omega (arith, i.tokens_range, i.burst_range)) in
    let room = sub64_parts p.cap p.spent k.cap_nonneg k.spent_nonneg (omega arith) (omega arith) in
    let ceil = min64_parts p.burst (sub64 p.cap p.spent) i.burst_nonneg room.0 in
    let new =
      min64_parts (min64 p.burst (sub64 p.cap p.spent)) (add64 p.tokens (accrued now p)) ceil.0
        sum.0 in
    let fits =
      floor_parts (min64 (min64 p.burst (sub64 p.cap p.spent)) (add64 p.tokens (accrued now p)))
        new.0 in
    let money : pos_part (refilled now p).tokens
        ≡ min (min (pos_part p.burst) (pos_part p.cap - pos_part p.spent))
            (pos_part p.tokens + pos_part p.rate * counted_ms now p / 1000) =
      omega (arith, fits.1, new.1, ceil.1, room.1, sum.1, acc.1) in
    rw (pace-refilled now p i.rate_positive) (
      fits.0,
      money,
      ground arith,
      ground arith,
      record {
        rate_positive = i.rate_positive;
        rate_range = i.rate_range;
        burst_nonneg = i.burst_nonneg;
        burst_range = i.burst_range;
        tokens_nonneg = fits.0;
        tokens_range = omega (arith, money);
      },
      refl,
    )
