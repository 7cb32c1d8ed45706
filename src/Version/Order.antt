-- ===== src/Version/Order.antt =====
-- The last-write-wins order is a total order, and agrees with `Equal`.
use wave_span.Base.{
  ℕ, Bytes, compare_bytes, compare_bytes-IsTotal, bytes_eq_iff, bytes_eq_refl, subst, ◌≡◌, sym, ap,
  ◌↔◌, ◌≢◌, ◌∙◌, true, arith, Ordering, eq, compare, lex, lex-IsTotal, IsTotal, compare-IsTotal,
}
use wave_span.Version.{compare_timestamp, cmp_uint, Version, compare_version, equal, timestamp}

-- The fields in the order of comparison.
abbrev key : Version → ℕ × (ℕ × (Bytes × (Bytes × ℕ)))
key v = (
  v.hlc_physical_ms,
  (v.hlc_logical, (v.writer_cluster_id, (v.writer_member_id, v.writer_sequence))),
)

abbrev of_key : ℕ × (ℕ × (Bytes × (Bytes × ℕ))) → Version
of_key k = record {
  hlc_physical_ms = k.0;
  hlc_logical = k.1.0;
  writer_cluster_id = k.1.1.0;
  writer_member_id = k.1.1.1.0;
  writer_sequence = k.1.1.1.1;
}

abbrev compare_key : ℕ × (ℕ × (Bytes × (Bytes × ℕ))) → ℕ × (ℕ × (Bytes × (Bytes × ℕ))) → Ordering
compare_key = lex compare (lex compare (lex compare_bytes (lex compare_bytes compare)))

compare_key-IsTotal : IsTotal compare_key
compare_key-IsTotal = lex-IsTotal _ _ compare-IsTotal (
    lex-IsTotal _ _ compare-IsTotal (
      lex-IsTotal _ _ compare_bytes-IsTotal
        (lex-IsTotal _ _ compare_bytes-IsTotal compare-IsTotal)))

cmp_uint-eq-compare : (a b : ℕ) → cmp_uint a b ≡ compare a b
unfolding cmp_uint
cmp_uint-eq-compare a b = ground arith

compare_version-key : (a b : Version) → compare_version a b ≡ compare_key (key a) (key b)
unfolding compare_version
compare_version-key a b = ground arith

-- The comparison of versions is a total order: it is reflexive, two versions that compare equal are
-- the same in all five fields, swapping the sides swaps the outcome, and "older" is transitive.
pub compare_version-IsTotal : IsTotal compare_version
compare_version-IsTotal = record {
  cmp_refl = λ a. compare_version-key a a ∙ compare_key-IsTotal.cmp_refl (key a);
  eq_of_cmp = λ a b h.
      ap of_key (compare_key-IsTotal.eq_of_cmp (key a) (key b) (sym (compare_version-key a b) ∙ h));
  cmp_swap = λ a b.
      rw (compare_version-key b a, compare_version-key a b)
        (compare_key-IsTotal.cmp_swap (key a) (key b));
  cmp_trans = λ a b c h k.
      compare_version-key a c
      ∙ compare_key-IsTotal.cmp_trans (key a) (key b) (key c) (sym (compare_version-key a b) ∙ h)
          (sym (compare_version-key b c) ∙ k);
}

equal_same : (a b : Version) → equal a b ≡ true → a ≡ b
unfolding equal
equal_same a b h = ground (
  arith,
  bytes_eq_iff a.writer_cluster_id b.writer_cluster_id,
  bytes_eq_iff a.writer_member_id b.writer_member_id,
)

equal_refl : (a : Version) → equal a a ≡ true
unfolding equal
equal_refl a = ground (arith, bytes_eq_refl a.writer_cluster_id, bytes_eq_refl a.writer_member_id)

pub equal_iff_same : (a b : Version) → (equal a b ≡ true) ↔ (a ≡ b)
equal_iff_same a b = (equal_same a b, λ p. subst (λ v. equal a v ≡ true) p (equal_refl a))

-- `Equal` holds exactly when the comparison says 0.
pub equal-iff-compare_version : (a b : Version) → (equal a b ≡ true) ↔ (compare_version a b ≡ eq)
equal-iff-compare_version a b = (
  λ h.
      subst (λ v. compare_version a v ≡ eq) (equal_same a b h) (compare_version-IsTotal.cmp_refl a),
  λ h. (equal_iff_same a b).1 (compare_version-IsTotal.eq_of_cmp a b h),
)

-- A later timestamp decides, whatever the writer fields are.
pub compare_version-timestamp :
    (a b : Version)
    → compare_timestamp (timestamp a) (timestamp b) ≢ eq
    → compare_version a b ≡ compare_timestamp (timestamp a) (timestamp b)
unfolding compare_version compare_timestamp timestamp cmp_uint
compare_version-timestamp a b h = ground arith
