-- ===== src/Base/Order.antt =====
-- Three-way comparison (Go's -1, 0, 1 as `Ordering`) and the laws of a total order.
use Prim.Native.Nat.{compare, Ordering}
use Prim.Native.Nat.Ordering.{lt, eq, gt}
use mathlib.Core.Path.{◌≡◌, refl}
use mathlib.Core.Logic.{◌⊎◌, ◌≢◌, inl, inr}
use native.Mathlib.Omega.{arith}

abbrev pub swap_ordering : Ordering → Ordering
swap_ordering lt = gt
swap_ordering eq = eq
swap_ordering gt = lt

-- The first difference decides.
abbrev pub first_difference : Ordering → Ordering → Ordering
first_difference lt second = lt
first_difference eq second = second
first_difference gt second = gt

pub record IsTotal {ℓ} {A : Type ℓ} (cmp : A → A → Ordering) : Type ℓ where
  pub cmp_refl : (a : A) → cmp a a ≡ eq
  pub eq_of_cmp : (a b : A) → cmp a b ≡ eq → a ≡ b
  pub cmp_swap : (a b : A) → cmp b a ≡ swap_ordering (cmp a b)
  pub cmp_trans : (a b c : A) → cmp a b ≡ lt → cmp b c ≡ lt → cmp a c ≡ lt

pub Ordering-cases : (o : Ordering) → (o ≡ lt) ⊎ (o ≡ eq) ⊎ (o ≡ gt)
Ordering-cases lt = inl refl
Ordering-cases eq = inr (inl refl)
Ordering-cases gt = inr (inr refl)

pub compare-IsTotal : IsTotal compare
compare-IsTotal = ground arith

module _ {ℓ κ} {A : Type ℓ} {B : Type κ} (f : A → A → Ordering) (g : B → B → Ordering) where
  abbrev pub lex : A × B → A × B → Ordering
  lex x y = first_difference (f x.0 y.0) (g x.1 y.1)

  pub lex-IsTotal : IsTotal f → IsTotal g → IsTotal {A = A × B} lex
  lex-IsTotal p q = record {
    cmp_refl = λ x. ground (arith, p.cmp_refl x.0, q.cmp_refl x.1);
    eq_of_cmp = λ x y. ground (arith, p.eq_of_cmp x.0 y.0, q.eq_of_cmp x.1 y.1);
    cmp_swap = λ x y. ground (arith, p.cmp_swap x.0 y.0, q.cmp_swap x.1 y.1);
    cmp_trans = λ x y z. ground (
      arith,
      p.eq_of_cmp x.0 y.0,
      p.eq_of_cmp y.0 z.0,
      p.cmp_trans x.0 y.0 z.0,
      q.cmp_trans x.1 y.1 z.1,
    );
  }

-- `a` is not after `b`.
abbrev pub NotAfter {ℓ} : {A : Type ℓ} → (A → A → Ordering) → A → A → Type 0
NotAfter cmp a b = cmp a b ≢ gt

module _ {ℓ} {A : Type ℓ} (cmp : A → A → Ordering) (total : IsTotal cmp) where
  pub NotAfter-refl : (a : A) → NotAfter cmp a a
  NotAfter-refl a = ground (arith, total.cmp_refl a)

  pub NotAfter-trans : (a b c : A) → NotAfter cmp a b → NotAfter cmp b c → NotAfter cmp a c
  NotAfter-trans a b c h k = ground (
    arith,
    total.cmp_swap a b,
    total.cmp_swap b c,
    total.cmp_swap a c,
    total.eq_of_cmp a b,
    total.eq_of_cmp b c,
    total.cmp_refl a,
    total.cmp_trans a b c,
  )

  pub NotAfter-antisymm : (a b : A) → NotAfter cmp a b → NotAfter cmp b a → a ≡ b
  NotAfter-antisymm a b h k = total.eq_of_cmp a b (ground (arith, total.cmp_swap a b))

  pub NotAfter-of_gt : (a b : A) → cmp a b ≡ gt → NotAfter cmp b a
  NotAfter-of_gt a b h = ground (arith, total.cmp_swap a b)
