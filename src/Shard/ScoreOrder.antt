-- ===== src/Shard/ScoreOrder.antt =====
-- The order of the sorted sets' index: `sortableScore` of internal/collections/command.go.
use wave_span.Base.{
  ◌/◌, ◌≤◌, ◌⊎◌, inl, inr, zero, suc, subst, true, false, Bool-cases, eq, ℕ, ◌+◌, ◌-◌, ◌*◌, ◌%◌,
  ◌^◌, ◌<◌, ◌≡◌, refl, sym, ◌∙◌, arith, compare, Ordering, lt, gt, Bytes, compare_bytes, [], ◌∷◌,
  ◌++◌, length, All, ltb, if◌then◌else◌,
}
use wave_span.Base.Int.{ℤ, pos, pos_part, neg_part, ltb_ℤ, ◌-ℤ◌}
use wave_span.Budget.Wire.{be_read, get_u64, put_u64}
use wave_span.Budget.RoundTrip.{get_u64-put_u64}
use wave_span.Shard.Scores.{sortable_score, unsortable_score}

-- The order of the index keys, on the bit patterns.
abbrev compare_scores : ℕ → ℕ → Ordering
compare_scores a b =
    if ltb a (2 ^ 63)
    then if ltb b (2 ^ 63) then compare a b else gt
    else if ltb b (2 ^ 63)
    then lt
    else compare b a

-- `n` doubled `k` times.
abbrev pub doubled : ℕ → ℕ → ℕ
doubled zero n = n
doubled (suc k) n = 2 * doubled k n

-- The absolute value of a float64, in units of 2^-1074, from its exponent and its fraction. An infinity
-- is the value above all finite ones, and a NaN is put above that.
abbrev pub magnitude_of : ℕ → ℕ → ℕ
magnitude_of zero fraction = fraction
magnitude_of (suc e) fraction = doubled e (2 ^ 52 + fraction)

unfoldable pub magnitude : ℕ → ℕ
magnitude bits = magnitude_of (bits / 2 ^ 52) (bits % 2 ^ 52)

-- The value of a float64: the sign bit is the highest one, and both zeros are 0.
unfoldable pub score_value : ℕ → ℤ
unfolding magnitude
score_value bits =
    if ltb bits (2 ^ 63) then pos (magnitude bits) else pos 0 -ℤ pos (magnitude (bits - 2 ^ 63))

doubled-lt : (k a b : ℕ) → a < b → doubled k a < doubled k b
doubled-lt zero a b h = h
doubled-lt (suc k) a b h = omega (arith, doubled-lt k a b h)

doubled-le : (k a : ℕ) → a ≤ doubled k a
doubled-le zero a = omega arith
doubled-le (suc k) a = omega (arith, doubled-le k a)

-- A greater exponent counts more than the fraction.
doubled-gap : (k d a b : ℕ) → k < d → a < 2 ^ 53 → 2 ^ 52 ≤ b → doubled k a < doubled d b
doubled-gap zero zero a b e h g = omega arith
doubled-gap zero (suc d) a b e h g = omega (arith, doubled-le d b)
doubled-gap (suc k) zero a b e h g = omega arith
doubled-gap (suc k) (suc d) a b e h g = omega (arith, doubled-gap k d a b (omega arith) h g)

magnitude_of-lt :
    (e d f g : ℕ)
    → f < 2 ^ 52
    → g < 2 ^ 52
    → (e < d) ⊎ ((e ≡ d) × (f < g))
    → magnitude_of e f < magnitude_of d g
magnitude_of-lt zero zero f g hf hg (inl h) = omega arith
magnitude_of-lt zero (suc d) f g hf hg (inl h) = omega (arith, doubled-le d (2 ^ 52 + g))
magnitude_of-lt (suc e) zero f g hf hg (inl h) = omega arith
magnitude_of-lt (suc e) (suc d) f g hf hg (inl h) =
    doubled-gap e d (2 ^ 52 + f) (2 ^ 52 + g) (omega arith) (omega arith) (omega arith)
magnitude_of-lt zero d f g hf hg (inr (p, h)) = subst (λ x. f < magnitude_of x g) p h
magnitude_of-lt (suc e) d f g hf hg (inr (p, h)) =
    subst (λ x. doubled e (2 ^ 52 + f) < magnitude_of x g) p
      (doubled-lt e (2 ^ 52 + f) (2 ^ 52 + g) (omega arith))

-- Patterns without a sign are in the order of their magnitudes.
magnitude-lt : (a b : ℕ) → a < b → magnitude a < magnitude b
unfolding magnitude
magnitude-lt a b h =
    magnitude_of-lt (a / 2 ^ 52) (b / 2 ^ 52) (a % 2 ^ 52) (b % 2 ^ 52) (omega arith) (omega arith)
      (ground arith)

be_read-lt :
    (xs ys : Bytes) (a b : ℕ)
    → length xs ≡ length ys
    → a < b
    → be_read (length xs) a xs < be_read (length ys) b ys
be_read-lt [] [] a b e h = h
be_read-lt [] (y ∷ ys) a b e h = ground arith
be_read-lt (x ∷ xs) [] a b e h = ground arith
be_read-lt (x ∷ xs) (y ∷ ys) a b e h =
    be_read-lt xs ys (a * 256 + x % 256) (b * 256 + y % 256) (omega (arith, e)) (omega arith)

compare-lt : (a b : ℕ) → a < b → compare a b ≡ lt
compare-lt a b h = ground arith

compare-gt : (a b : ℕ) → b < a → compare a b ≡ gt
compare-gt a b h = ground arith

-- Bytes of one length are in the order of the numbers that they write.
compare_bytes-be_read :
    (xs ys : Bytes) (a : ℕ)
    → length xs ≡ length ys
    → All (λ x. x < 256) xs
    → All (λ y. y < 256) ys
    → compare_bytes xs ys ≡ compare (be_read (length xs) a xs) (be_read (length ys) a ys)
unfolding compare_bytes
compare_bytes-be_read [] [] a e h k = ground arith
compare_bytes-be_read [] (y ∷ ys) a e h k = ground arith
compare_bytes-be_read (x ∷ xs) [] a e h k = ground arith
compare_bytes-be_read (x ∷ xs) (y ∷ ys) a e h k =
    let rest : length xs ≡ length ys = omega (arith, e) in
    let left = a * 256 + x % 256 in
    let right = a * 256 + y % 256 in
    ground (
      arith,
      h.0,
      k.0,
      be_read-lt xs ys left right rest,
      be_read-lt ys xs right left (sym rest),
      compare_bytes-be_read xs ys left rest h.1 k.1,
    )

compare_bytes-put_u64 :
    (m n : ℕ) → m < 2 ^ 64 → n < 2 ^ 64 → compare_bytes (put_u64 m) (put_u64 n) ≡ compare m n
unfolding put_u64 get_u64
compare_bytes-put_u64 m n h k =
    let left : be_read 8 0 (put_u64 m) ≡ m = omega (arith, get_u64-put_u64 m [] h) in
    let right : be_read 8 0 (put_u64 n) ≡ n = omega (arith, get_u64-put_u64 n [] k) in
    compare_bytes-be_read (put_u64 m) (put_u64 n) 0 refl (omega arith) (omega arith)
    ∙ (λ i. compare (left i) (right i))

by_pattern :
    (a b : ℕ)
    → a < 2 ^ 64
    → b < 2 ^ 64
    → compare_bytes (sortable_score a) (sortable_score b) ≡ compare_scores a b
unfolding sortable_score
by_pattern a b h k = compare_bytes-put_u64 _ _ (ground arith) (ground arith) ∙ (ground arith)

-- The value orders of two patterns, and what the index makes of them.
abbrev pub IsScoreOrder : ℕ → ℕ → Ordering → Type 0
IsScoreOrder a b o =
    ((ltb_ℤ (score_value a) (score_value b) ≡ true) × (o ≡ lt))
    ⊎ (((ltb_ℤ (score_value b) (score_value a) ≡ true) × (o ≡ gt))
        ⊎ (((a ≡ b) × (o ≡ eq)) ⊎ ((score_value a ≡ pos 0) × (score_value b ≡ pos 0))))

-- The two parts of a value with a sign, and without.
minus_parts : (m : ℕ) → (pos_part (pos 0 -ℤ pos m) ≡ 0) × (neg_part (pos 0 -ℤ pos m) ≡ m)
unfolding ◌-ℤ◌
minus_parts m = ground arith

plus_value :
    (a : ℕ)
    → ltb a (2 ^ 63) ≡ true
    → (pos_part (score_value a) ≡ magnitude a) × (neg_part (score_value a) ≡ 0)
unfolding score_value
plus_value a h = rw h (refl, refl)

minus_value :
    (a : ℕ)
    → ltb a (2 ^ 63) ≡ false
    → (pos_part (score_value a) ≡ 0) × (neg_part (score_value a) ≡ magnitude (a - 2 ^ 63))
unfolding score_value
minus_value a h = rw h (minus_parts (magnitude (a - 2 ^ 63)))

zero_of_parts : (v : ℤ) → pos_part v ≡ 0 → neg_part v ≡ 0 → v ≡ pos 0
zero_of_parts v h k = ground arith

lt-cases : (a b : ℕ) → (a < b) ⊎ ((b < a) ⊎ (a ≡ b))
lt-cases a b = ground arith

-- Patterns of one sign, from the order of their values.
plus_order :
    (a b : ℕ) → ltb a (2 ^ 63) ≡ true → ltb b (2 ^ 63) ≡ true → IsScoreOrder a b (compare a b)
plus_order a b h k =
    let (p, p') = plus_value a h in
    let (q, q') = plus_value b k in
    elim (lt-cases a b) [
      | inl less ↦ inl (ground (arith, magnitude-lt a b less), compare-lt a b less)
      | inr (inl more) ↦ inr (inl (ground (arith, magnitude-lt b a more), compare-gt a b more))
      | inr (inr same) ↦ inr (inr (inl (same, ground arith)))
    ]

minus_order :
    (a b : ℕ) → ltb a (2 ^ 63) ≡ false → ltb b (2 ^ 63) ≡ false → IsScoreOrder a b (compare b a)
minus_order a b h k =
    let (p, p') = minus_value a h in
    let (q, q') = minus_value b k in
    elim (lt-cases a b) [
      | inl less ↦
          let m = magnitude-lt (a - 2 ^ 63) (b - 2 ^ 63) (ground arith) in
          inr (inl (ground arith, compare-gt b a less))
      | inr (inl more) ↦
          let m = magnitude-lt (b - 2 ^ 63) (a - 2 ^ 63) (ground arith) in
          inl (ground arith, compare-lt b a more)
      | inr (inr same) ↦ inr (inr (inl (same, ground arith)))
    ]

plus_minus : (a b : ℕ) → ltb a (2 ^ 63) ≡ true → ltb b (2 ^ 63) ≡ false → IsScoreOrder a b gt
plus_minus a b h k =
    let (p, p') = plus_value a h in
    let (q, q') = minus_value b k in
    elim (Bool-cases (ltb_ℤ (score_value b) (score_value a))) [
      | inl below ↦ inr (inl (below, refl))
      | inr level ↦ inr (
          inr (
            inr (
              zero_of_parts (score_value a) (ground arith) p',
              zero_of_parts (score_value b) q (ground arith),
            )))
    ]

minus_plus : (a b : ℕ) → ltb a (2 ^ 63) ≡ false → ltb b (2 ^ 63) ≡ true → IsScoreOrder a b lt
minus_plus a b h k =
    let (p, p') = minus_value a h in
    let (q, q') = plus_value b k in
    elim (Bool-cases (ltb_ℤ (score_value a) (score_value b))) [
      | inl below ↦ inl (below, refl)
      | inr level ↦ inr (
          inr (
            inr (
              zero_of_parts (score_value a) p (ground arith),
              zero_of_parts (score_value b) (ground arith) q',
            )))
    ]

by_value : (a b : ℕ) → IsScoreOrder a b (compare_scores a b)
by_value a b = elim (Bool-cases (ltb a (2 ^ 63))) [
  | inl h ↦ elim (Bool-cases (ltb b (2 ^ 63))) [
    | inl k ↦ rw (h, k) (plus_order a b h k)
    | inr k ↦ rw (h, k) (plus_minus a b h k)
  ]
  | inr h ↦ elim (Bool-cases (ltb b (2 ^ 63))) [
    | inl k ↦ rw (h, k) (minus_plus a b h k)
    | inr k ↦ rw (h, k) (minus_order a b h k)
  ]
]

-- The byte order of the index is the order of the float64 values of the scores: a lower score has a
-- lower key and a higher score a higher one, and one pattern has one key; only the two zeros, which are
-- equal scores, have two keys. A NaN counts as the number above infinity that its bits would write.
pub compare_bytes-sortable_score :
    (a b : ℕ)
    → a < 2 ^ 64
    → b < 2 ^ 64
    → IsScoreOrder a b (compare_bytes (sortable_score a) (sortable_score b))
compare_bytes-sortable_score a b h k =
    subst (IsScoreOrder a b) (sym (by_pattern a b h k)) (by_value a b)

-- A score is read back from the index as it was written, whatever member follows it.
pub unsortable_score-sortable_score :
    (bits : ℕ) (member : Bytes)
    → bits < 2 ^ 64
    → unsortable_score (sortable_score bits ++ member) ≡ bits
unfolding unsortable_score sortable_score
unsortable_score-sortable_score bits member h =
    let key = if ltb bits (2 ^ 63) then bits + 2 ^ 63 else 2 ^ 64 - 1 - bits in
    let e : get_u64 (put_u64 key ++ member) ≡ key = get_u64-put_u64 key member (ground arith) in
    rw e (ground arith)
