-- ===== src/Conflict/Writers.antt =====
-- The map `byWriter` of keep-siblings: one record for each writer, its highest version.
use wave_span.Base.{
  ◌≡◌, ◌≢◌, ◌⊎◌, ◌∙◌, refl, sym, ap, arith, true, false, Option, none, some, List, [], ◌∷◌, inl,
  inr, IsIn, All, Bool-cases, bytes_eq, bytes_eq_iff, subst, if◌then◌else◌,
}
use wave_span.Records.{StoredRecord}
use wave_span.Conflict.{is_newer, writer_key, consider, consider_all}
use wave_span.Conflict.Highest.{
  NotNewer, NotNewer-refl, NotNewer-trans, newer_lem, not_newer_lem, present,
}

-- The writers of the map are different.
abbrev pub HasOneEach : List StoredRecord → Type 0
HasOneEach [] = Unit
HasOneEach (s ∷ ss) = All (λ t. writer_key s ≢ writer_key t) ss × HasOneEach ss

-- The map holds a record of the writer of `x` that is not older.
abbrev pub Covers : List StoredRecord → StoredRecord → Type 0
Covers m x = (s : StoredRecord) × IsIn s m × (writer_key x ≡ writer_key s) × NotNewer x s

same_writer :
    (r s : StoredRecord)
    → bytes_eq (writer_key r) (writer_key s) ≡ true
    → writer_key r ≡ writer_key s
same_writer r s h = (bytes_eq_iff (writer_key r) (writer_key s)).0 h

other_writer :
    (r s : StoredRecord)
    → bytes_eq (writer_key r) (writer_key s) ≡ false
    → writer_key r ≢ writer_key s
other_writer r s h e = ground (arith, bytes_eq_iff (writer_key r) (writer_key s))

-- What one look at an entry `x` of the map does.
data Looked (r x : StoredRecord) (xs : List StoredRecord) : List StoredRecord → Type 0 where
  replaced : writer_key r ≡ writer_key x → NotNewer x r → Looked r x xs (r ∷ xs)
  kept : writer_key r ≡ writer_key x → NotNewer r x → Looked r x xs (x ∷ xs)
  passed : writer_key r ≢ writer_key x → Looked r x xs (x ∷ consider r xs)

looked : (r x : StoredRecord) (xs : List StoredRecord) → Looked r x xs (consider r (x ∷ xs))
unfolding consider
looked r x xs = elim (Bool-cases (bytes_eq (writer_key r) (writer_key x))) [
  | inl same ↦ rw same (at_same (same_writer r x same))
  | inr other ↦ rw other (Looked.passed (other_writer r x other))
]
  where
    at_same : writer_key r ≡ writer_key x → Looked r x xs ((if is_newer r x then r else x) ∷ xs)
    at_same e = elim (Bool-cases (is_newer r x)) [
      | inl newer ↦ rw newer (Looked.replaced e (newer_lem r x newer))
      | inr older ↦ rw older (Looked.kept e (not_newer_lem r x older))
    ]

sound_at :
    {r x : StoredRecord} {xs ys : List StoredRecord} (s : StoredRecord)
    → Looked r x xs ys
    → (IsIn s (consider r xs) → (s ≡ r) ⊎ IsIn s xs)
    → IsIn s ys
    → (s ≡ r) ⊎ IsIn s (x ∷ xs)
sound_at s (Looked.replaced e n) ih (inl p) = inl p
sound_at s (Looked.replaced e n) ih (inr i) = inr (inr i)
sound_at s (Looked.kept e n) ih i = inr i
sound_at s (Looked.passed n) ih (inl p) = inr (inl p)
sound_at s (Looked.passed n) ih (inr i) = elim (ih i) [ inl p ↦ inl p | inr j ↦ inr (inr j) ]

consider_sound :
    (r : StoredRecord) (m : List StoredRecord) (s : StoredRecord)
    → IsIn s (consider r m)
    → (s ≡ r) ⊎ IsIn s m
unfolding consider
consider_sound r [] s i = i
consider_sound r (x ∷ xs) s i = sound_at s (looked r x xs) (consider_sound r xs s) i

Looked-All :
    {r x : StoredRecord} {xs ys : List StoredRecord} (P : StoredRecord → Type 0)
    → Looked r x xs ys
    → P r
    → All P (x ∷ xs)
    → (All P xs → All P (consider r xs))
    → All P ys
Looked-All P (Looked.replaced e n) p h ih = (p, h.1)
Looked-All P (Looked.kept e n) p h ih = h
Looked-All P (Looked.passed n) p h ih = (h.0, ih h.1)

consider-All :
    (P : StoredRecord → Type 0) (r : StoredRecord) (m : List StoredRecord)
    → P r
    → All P m
    → All P (consider r m)
unfolding consider
consider-All P r [] p h = (p, tt)
consider-All P r (x ∷ xs) p h = Looked-All P (looked r x xs) p h (consider-All P r xs p)

one_each_at :
    {r x : StoredRecord} {xs ys : List StoredRecord}
    → Looked r x xs ys
    → HasOneEach (x ∷ xs)
    → HasOneEach (consider r xs)
    → HasOneEach ys
one_each_at {r = r} {xs = xs} (Looked.replaced e n) h ih =
    (subst (λ k. All (λ t. k ≢ writer_key t) xs) (sym e) h.0, h.1)
one_each_at (Looked.kept e n) h ih = h
one_each_at {r = r} {x = x} {xs = xs} (Looked.passed n) h ih =
    (consider-All (λ t. writer_key x ≢ writer_key t) r xs (λ e. n (sym e)) h.0, ih)

consider-HasOneEach :
    (r : StoredRecord) (m : List StoredRecord) → HasOneEach m → HasOneEach (consider r m)
unfolding consider
consider-HasOneEach r [] h = (tt, tt)
consider-HasOneEach r (x ∷ xs) h = one_each_at (looked r x xs) h (consider-HasOneEach r xs h.1)

shift : (x y : StoredRecord) (m : List StoredRecord) → Covers m y → Covers (x ∷ m) y
shift x y m (s, i, e, n) = (s, inr i, e, n)

-- A covered record stays covered, and the record considered is covered.
Covers-at :
    {r x : StoredRecord} {xs ys : List StoredRecord} (y : StoredRecord)
    → Looked r x xs ys
    → (Covers xs y → Covers (consider r xs) y)
    → Covers (x ∷ xs) y
    → Covers ys y
Covers-at {r = r} {x = x} y (Looked.replaced e n) ih (s, inl p, k, o) =
    (r, inl refl, k ∙ (ap writer_key p ∙ sym e), NotNewer-trans y x r (subst (NotNewer y) p o) n)
Covers-at y (Looked.replaced e n) ih (s, inr i, k, o) = (s, inr i, k, o)
Covers-at y (Looked.kept e n) ih c = c
Covers-at y (Looked.passed n) ih (s, inl p, k, o) = (s, inl p, k, o)
Covers-at {r = r} {x = x} {xs = xs} y (Looked.passed n) ih (s, inr i, k, o) =
    shift x y (consider r xs) (ih (s, i, k, o))

consider-Covers :
    (r : StoredRecord) (m : List StoredRecord) (y : StoredRecord)
    → Covers m y
    → Covers (consider r m) y
consider-Covers r [] y (s, i, k, o) = elim i [ ]
consider-Covers r (x ∷ xs) y c = Covers-at y (looked r x xs) (consider-Covers r xs y) c

Covers-self_at :
    {r x : StoredRecord} {xs ys : List StoredRecord}
    → Looked r x xs ys
    → Covers (consider r xs) r
    → Covers ys r
Covers-self_at {r = r} (Looked.replaced e n) ih = (r, inl refl, refl, NotNewer-refl r)
Covers-self_at {x = x} (Looked.kept e n) ih = (x, inl refl, e, n)
Covers-self_at {r = r} {x = x} {xs = xs} (Looked.passed n) ih = shift x r (consider r xs) ih

consider-Covers_self : (r : StoredRecord) (m : List StoredRecord) → Covers (consider r m) r
unfolding consider
consider-Covers_self r [] = (r, inl refl, refl, NotNewer-refl r)
consider-Covers_self r (x ∷ xs) = Covers-self_at (looked r x xs) (consider-Covers_self r xs)

-- The map after all the records: the writers differ, every entry is one of the records (or was in the
-- map), and every record is covered.
pub consider_all-HasOneEach :
    (rs : List (Option StoredRecord)) (m : List StoredRecord)
    → HasOneEach m
    → HasOneEach (consider_all rs m)
unfolding consider_all
consider_all-HasOneEach [] m h = h
consider_all-HasOneEach (none ∷ rs) m h = consider_all-HasOneEach rs m h
consider_all-HasOneEach (some r ∷ rs) m h =
    consider_all-HasOneEach rs (consider r m) (consider-HasOneEach r m h)

pub consider_all_sound :
    (rs : List (Option StoredRecord)) (m : List StoredRecord) (s : StoredRecord)
    → IsIn s (consider_all rs m)
    → IsIn s (present rs) ⊎ IsIn s m
unfolding consider_all
consider_all_sound [] m s i = inr i
consider_all_sound (none ∷ rs) m s i = consider_all_sound rs m s i
consider_all_sound (some r ∷ rs) m s i = elim (consider_all_sound rs (consider r m) s i) [
  | inl j ↦ inl (inr j)
  | inr j ↦ elim (consider_sound r m s j) [ inl p ↦ inl (inl p) | inr k ↦ inr k ]
]

consider_all-Covers_old :
    (rs : List (Option StoredRecord)) (m : List StoredRecord) (y : StoredRecord)
    → Covers m y
    → Covers (consider_all rs m) y
unfolding consider_all
consider_all-Covers_old [] m y c = c
consider_all-Covers_old (none ∷ rs) m y c = consider_all-Covers_old rs m y c
consider_all-Covers_old (some r ∷ rs) m y c =
    consider_all-Covers_old rs (consider r m) y (consider-Covers r m y c)

pub consider_all-Covers :
    (rs : List (Option StoredRecord)) (m : List StoredRecord) (y : StoredRecord)
    → IsIn y (present rs)
    → Covers (consider_all rs m) y
unfolding consider_all
consider_all-Covers [] m y i = elim i [ ]
consider_all-Covers (none ∷ rs) m y i = consider_all-Covers rs m y i
consider_all-Covers (some r ∷ rs) m y (inl p) =
    subst (Covers (consider_all rs (consider r m))) (sym p)
      (consider_all-Covers_old rs (consider r m) r (consider-Covers_self r m))
consider_all-Covers (some r ∷ rs) m y (inr i) = consider_all-Covers rs (consider r m) y i
