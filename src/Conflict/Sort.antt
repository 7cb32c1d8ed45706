-- ===== src/Conflict/Sort.antt =====
-- Sorting records by version, and that a sorted list is determined by its members.
use wave_span.Base.{
  ◌≡◌, ◌↔◌, ◌∙◌, refl, sym, arith, true, false, List, [], ◌∷◌, inl, inr, IsIn, All, All-at, All-imp,
  All-tabulate, NotAfter-antisymm, Bool-cases, subst,
}
use wave_span.Version.{compare_version}
use wave_span.Version.Order.{compare_version-IsTotal}
use wave_span.Records.{StoredRecord, version_of}
use wave_span.Conflict.{is_older, insert_sorted, sort_versions}
use wave_span.Conflict.Highest.{NotNewer, NotNewer-trans, HasUniqueVersions, SameRecords}

-- Oldest version first.
abbrev pub IsSorted : List StoredRecord → Type 0
IsSorted [] = Unit
IsSorted (r ∷ rs) = All (NotNewer r) rs × IsSorted rs

abbrev pub HasNoRepeat : List StoredRecord → Type 0
HasNoRepeat [] = Unit
HasNoRepeat (r ∷ rs) = ¬ (IsIn r rs) × HasNoRepeat rs

swap-IsIn :
    (r x s : StoredRecord) (xs ys : List StoredRecord)
    → IsIn s ys ↔ IsIn s (r ∷ xs)
    → IsIn s (x ∷ ys) ↔ IsIn s (r ∷ x ∷ xs)
swap-IsIn r x s xs ys h = (there, back)
  where
    there : IsIn s (x ∷ ys) → IsIn s (r ∷ x ∷ xs)
    there (inl p) = inr (inl p)
    there (inr q) = elim (h.0 q) [ inl p ↦ inl p | inr i ↦ inr (inr i) ]

    back : IsIn s (r ∷ x ∷ xs) → IsIn s (x ∷ ys)
    back (inl p) = inr (h.1 (inl p))
    back (inr (inl p)) = inl p
    back (inr (inr i)) = inr (h.1 (inr i))

insert_sorted_mem :
    (r : StoredRecord) (rs : List StoredRecord) (s : StoredRecord)
    → IsIn s (insert_sorted r rs) ↔ IsIn s (r ∷ rs)
unfolding insert_sorted
insert_sorted_mem r [] s = (λ h. h, λ h. h)
insert_sorted_mem r (x ∷ xs) s = elim (Bool-cases (is_older x r)) [
  | inl older ↦ rw older (swap-IsIn r x s xs (insert_sorted r xs) (insert_sorted_mem r xs s))
  | inr newer ↦ rw newer (λ h. h, λ h. h)
]

pub sort_versions_mem :
    (rs : List StoredRecord) (s : StoredRecord) → IsIn s (sort_versions rs) ↔ IsIn s rs
unfolding sort_versions
sort_versions_mem [] s = (λ h. h, λ h. h)
sort_versions_mem (r ∷ rs) s =
    let ih = sort_versions_mem rs s in
    let step = insert_sorted_mem r (sort_versions rs) s in
    (
      λ h. under r s (sort_versions rs) rs ih.0 (step.0 h),
      λ h. step.1 (under r s rs (sort_versions rs) ih.1 h),
    )
  where
    under :
        (r s : StoredRecord) (xs ys : List StoredRecord)
        → (IsIn s xs → IsIn s ys)
        → IsIn s (r ∷ xs)
        → IsIn s (r ∷ ys)
    under r s xs ys f (inl p) = inl p
    under r s xs ys f (inr q) = inr (f q)

older_lem : (x r : StoredRecord) → is_older x r ≡ true → NotNewer x r
older_lem x r h = ground arith

not_older_lem : (x r : StoredRecord) → is_older x r ≡ false → NotNewer r x
not_older_lem x r h = ground (arith, compare_version-IsTotal.cmp_swap (version_of x) (version_of r))

insert_sorted-All :
    (P : StoredRecord → Type 0) (r : StoredRecord) (rs : List StoredRecord)
    → P r
    → All P rs
    → All P (insert_sorted r rs)
insert_sorted-All P r rs h k =
    All-tabulate P (insert_sorted r rs)
      (λ a i. All-at P a (r ∷ rs) ((insert_sorted_mem r rs a).0 i) (h, k))

insert_sorted-IsSorted :
    (r : StoredRecord) (rs : List StoredRecord) → IsSorted rs → IsSorted (insert_sorted r rs)
unfolding insert_sorted
insert_sorted-IsSorted r [] h = (tt, tt)
insert_sorted-IsSorted r (x ∷ xs) h = elim (Bool-cases (is_older x r)) [
  | inl older ↦ rw older (
    insert_sorted-All (NotNewer x) r xs (older_lem x r older) h.0,
    insert_sorted-IsSorted r xs h.1,
  )
  | inr newer ↦ rw newer (
      let first = not_older_lem x r newer in
      ((first, All-imp (λ a. NotNewer-trans r x a first) xs h.0), h))
]

pub sort_versions-IsSorted : (rs : List StoredRecord) → IsSorted (sort_versions rs)
unfolding sort_versions
sort_versions-IsSorted [] = tt
sort_versions-IsSorted (r ∷ rs) =
    insert_sorted-IsSorted r (sort_versions rs) (sort_versions-IsSorted rs)

insert_sorted-HasNoRepeat :
    (r : StoredRecord) (rs : List StoredRecord)
    → ¬ (IsIn r rs)
    → HasNoRepeat rs
    → HasNoRepeat (insert_sorted r rs)
unfolding insert_sorted
insert_sorted-HasNoRepeat r [] n h = (λ i. i, tt)
insert_sorted-HasNoRepeat r (x ∷ xs) n h = elim (Bool-cases (is_older x r)) [
  | inl older ↦ rw older (
    λ i. elim ((insert_sorted_mem r xs x).0 i) [ inl p ↦ n (inl (sym p)) | inr q ↦ h.0 q ],
    insert_sorted-HasNoRepeat r xs (λ i. n (inr i)) h.1,
  )
  | inr newer ↦ rw newer (n, h)
]

pub sort_versions-HasNoRepeat :
    (rs : List StoredRecord) → HasNoRepeat rs → HasNoRepeat (sort_versions rs)
unfolding sort_versions
sort_versions-HasNoRepeat [] h = tt
sort_versions-HasNoRepeat (r ∷ rs) h =
    insert_sorted-HasNoRepeat r (sort_versions rs) (λ i. h.0 ((sort_versions_mem rs r).0 i))
      (sort_versions-HasNoRepeat rs h.1)

same_head :
    (x y : StoredRecord) (xs ys : List StoredRecord)
    → HasUniqueVersions (x ∷ xs)
    → IsSorted (x ∷ xs)
    → IsSorted (y ∷ ys)
    → SameRecords (x ∷ xs) (y ∷ ys)
    → x ≡ y
same_head x y xs ys u h k same = go ((same x).0 (inl refl)) ((same y).1 (inl refl))
  where
    go : IsIn x (y ∷ ys) → IsIn y (x ∷ xs) → x ≡ y
    go (inl p) j = p
    go (inr i) (inl q) = sym q
    go (inr i) (inr j) = u x y (inl refl) (inr j) (
        NotAfter-antisymm compare_version compare_version-IsTotal (version_of x) (version_of y)
          (All-at (NotNewer x) y xs j h.0) (All-at (NotNewer y) x ys i k.0))

same_tail :
    (x y : StoredRecord) (xs ys : List StoredRecord)
    → x ≡ y
    → ¬ (IsIn x xs)
    → ((r : StoredRecord) → IsIn r (x ∷ xs) → IsIn r (y ∷ ys))
    → (r : StoredRecord) → IsIn r xs
    → IsIn r ys
same_tail x y xs ys e n f r i = elim (f r (inr i)) [
  | inl p ↦ absurd (n (subst (λ z. IsIn z xs) (p ∙ sym e) i))
  | inr j ↦ j
]

-- A sorted list without repetition is determined by its members, if a version names one record.
pub sorted_unique :
    (xs ys : List StoredRecord)
    → HasUniqueVersions xs
    → IsSorted xs
    → HasNoRepeat xs
    → IsSorted ys
    → HasNoRepeat ys
    → SameRecords xs ys
    → xs ≡ ys
sorted_unique [] [] u h m k n same = refl
sorted_unique [] (y ∷ ys) u h m k n same = absurd ((same y).1 (inl refl))
sorted_unique (x ∷ xs) [] u h m k n same = absurd ((same x).0 (inl refl))
sorted_unique (x ∷ xs) (y ∷ ys) u h m k n same =
    let e = same_head x y xs ys u h k same in
    let there = same_tail x y xs ys e m.0 (λ r. (same r).0) in
    let back = same_tail y x ys xs (sym e) n.0 (λ r. (same r).1) in
    cons_eq x y xs ys e (
      sorted_unique xs ys (λ r s i j. u r s (inr i) (inr j)) h.1 m.1 k.1 n.1
        (λ r. (there r, back r)))
  where
    cons_eq :
        (x y : StoredRecord) (xs ys : List StoredRecord) → x ≡ y → xs ≡ ys → (x ∷ xs) ≡ (y ∷ ys)
    cons_eq x y xs ys p q = cc
