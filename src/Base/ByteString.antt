-- ===== src/Base/ByteString.antt =====
-- Go strings and byte slices as lists of bytes, with `strings.Compare` / `bytes.Compare`.
use Prim.Native.Nat.{ℕ, compare, Ordering}
use Prim.Native.Nat.Ordering.{lt, eq, gt}
use Prim.Native.Char.{code}
use Prim.Native.String.{String}
use mathlib.Core.Path.{◌≡◌, refl}
use mathlib.Core.Logic.{◌↔◌, ◌≢◌}
use mathlib.Core.Bool.{Bool, true, false}
use mathlib.Core.List.{List, [], ◌∷◌, ◌++◌}
use native.Mathlib.Omega.{arith}
use wave_span.Base.Lists.{All}
use wave_span.Base.Order.{IsTotal, swap_ordering}

abbrev pub Bytes : Type 0
Bytes = List ℕ

-- The bytes of an ASCII text.
abbrev pub codes : String → Bytes
codes String.[] = []
codes (String.◌∷◌ c s) = code c ∷ codes s

unfoldable pub compare_bytes : Bytes → Bytes → Ordering
compare_bytes [] [] = eq
compare_bytes [] (y ∷ ys) = lt
compare_bytes (x ∷ xs) [] = gt
compare_bytes (x ∷ xs) (y ∷ ys) = elim (compare x y) [
  | lt ↦ lt
  | gt ↦ gt
  | eq ↦ compare_bytes xs ys
]

pub compare_bytes_refl : (a : Bytes) → compare_bytes a a ≡ eq
unfolding compare_bytes
compare_bytes_refl [] = refl
compare_bytes_refl (x ∷ xs) = ground (arith, compare_bytes_refl xs)

compare_bytes-eq : (a b : Bytes) → compare_bytes a b ≡ eq → a ≡ b
unfolding compare_bytes
compare_bytes-eq [] [] h = refl
compare_bytes-eq [] (y ∷ ys) h = ground arith
compare_bytes-eq (x ∷ xs) [] h = ground arith
compare_bytes-eq (x ∷ xs) (y ∷ ys) h = ground (arith, compare_bytes-eq xs ys)

compare_bytes_swap : (a b : Bytes) → compare_bytes b a ≡ swap_ordering (compare_bytes a b)
unfolding compare_bytes
compare_bytes_swap [] [] = refl
compare_bytes_swap [] (y ∷ ys) = refl
compare_bytes_swap (x ∷ xs) [] = refl
compare_bytes_swap (x ∷ xs) (y ∷ ys) = ground (arith, compare_bytes_swap xs ys)

compare_bytes_trans :
    (a b c : Bytes) → compare_bytes a b ≡ lt → compare_bytes b c ≡ lt → compare_bytes a c ≡ lt
unfolding compare_bytes
compare_bytes_trans [] [] c h k = ground arith
compare_bytes_trans [] (y ∷ ys) [] h k = ground arith
compare_bytes_trans [] (y ∷ ys) (z ∷ zs) h k = refl
compare_bytes_trans (x ∷ xs) [] c h k = ground arith
compare_bytes_trans (x ∷ xs) (y ∷ ys) [] h k = ground arith
compare_bytes_trans (x ∷ xs) (y ∷ ys) (z ∷ zs) h k = ground (arith, compare_bytes_trans xs ys zs)

pub compare_bytes-IsTotal : IsTotal compare_bytes
compare_bytes-IsTotal = record {
  cmp_refl = compare_bytes_refl;
  eq_of_cmp = compare_bytes-eq;
  cmp_swap = compare_bytes_swap;
  cmp_trans = compare_bytes_trans;
}

-- `==` on Go strings.
unfoldable pub bytes_eq : Bytes → Bytes → Bool
unfolding compare_bytes
bytes_eq a b = elim (compare_bytes a b) [ eq ↦ true | lt ↦ false | gt ↦ false ]

pub bytes_eq_iff : (a b : Bytes) → (bytes_eq a b ≡ true) ↔ (a ≡ b)
unfolding bytes_eq
bytes_eq_iff a b = ground (arith, compare_bytes-eq a b, compare_bytes_refl a)

pub bytes_eq_refl : (a : Bytes) → bytes_eq a a ≡ true
bytes_eq_refl a = (bytes_eq_iff a a).1 refl

-- No byte of the text is the separator.
abbrev pub IsWithout : ℕ → Bytes → Type 0
IsWithout sep xs = All (λ b. b ≢ sep) xs

-- Two texts that agree up to a first separator.
pub split_sep :
    (sep : ℕ) (xs ys us vs : Bytes)
    → IsWithout sep xs
    → IsWithout sep ys
    → xs ++ sep ∷ us ≡ ys ++ sep ∷ vs
    → (xs ≡ ys) × (us ≡ vs)
split_sep sep [] [] us vs h k e = ground arith
split_sep sep [] (y ∷ ys) us vs h k e = ground arith
split_sep sep (x ∷ xs) [] us vs h k e = ground arith
split_sep sep (x ∷ xs) (y ∷ ys) us vs h k e = ground (arith, split_sep sep xs ys us vs h.1 k.1)
