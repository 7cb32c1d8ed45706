-- ===== src/RecordStore/Forget.antt =====
-- `Forget` of internal/recordstore/store.go, with the key ranges that it deletes.
use wave_span.Base.{
  ℕ, ◌+◌, ◌==◌, ◌≡◌, sym, ap, subst, ◌∙◌, arith, Bool, true, false, not, ◌&&◌, lt, eq, gt, Bytes,
  compare_bytes, Option, none, some, List, [], ◌∷◌, ◌++◌, erase, Bool-cases, Option-cases, inl, inr,
  if◌then◌else◌,
}
use wave_span.Base.Int.{ℤ}
use wave_span.Records.{StoredRecord}
use wave_span.RecordStore.{Store}
use wave_span.RecordStore.Keys.{len_prefix, latest_key}

unfoldable pub data_key_prefix : Bytes → Bytes → Bytes
unfolding len_prefix
data_key_prefix namespace user_key = len_prefix namespace ++ len_prefix user_key

-- The last byte below 0xff goes up by one, and what follows it is cut; none if there is no such byte.
abbrev pub end_with : ℕ → Option Bytes → Option Bytes
end_with b (some e) = some (b ∷ e)
end_with b none = if b == 255 then none else some ((b + 1) ∷ [])

unfoldable pub prefix_end : Bytes → Option Bytes
prefix_end [] = none
prefix_end (b ∷ bs) = end_with b (prefix_end bs)

abbrev pub is_before : Bytes → Bytes → Bool
is_before a b = elim (compare_bytes a b) [ lt ↦ true | eq ↦ false | gt ↦ false ]

abbrev pub is_below : Bytes → Option Bytes → Bool
is_below key none = true
is_below key (some hi) = is_before key hi

-- The rows outside the range [lo, hi).
unfoldable pub drop_range :
    Bytes → Option Bytes → List (Bytes × (StoredRecord × ℤ)) → List (Bytes × (StoredRecord × ℤ))
drop_range lo hi [] = []
drop_range lo hi ((key, row) ∷ rows) =
    let rest = drop_range lo hi rows in
    if not (is_before key lo) && is_below key hi then rest else (key, row) ∷ rest

-- The version cache and the live-key counter are not adjusted.
unfoldable pub forget : Store → Bytes → Bytes → Store
unfolding data_key_prefix prefix_end drop_range
forget s namespace key =
    let prefix = data_key_prefix namespace key in
    record s {
      meta = erase (latest_key namespace key) s.meta;
      records = drop_range prefix (prefix_end prefix) s.records;
    }

some_of : {x y : Bytes} → ◌≡◌ {A = Option Bytes} (some x) (some y) → x ≡ y
some_of h = ground arith

below_end :
    (b : ℕ) (text f : Bytes) → compare_bytes text f ≡ lt → compare_bytes (b ∷ text) (b ∷ f) ≡ lt
unfolding compare_bytes
below_end b text f h = ground arith

below_next : (b : ℕ) (text : Bytes) → compare_bytes (b ∷ text) ((b + 1) ∷ []) ≡ lt
unfolding compare_bytes
below_next b text = ground arith

next_end : (b : ℕ) (e : Bytes) → end_with b none ≡ some e → (b + 1) ∷ [] ≡ e
next_end b e h = elim (Bool-cases (b == 255)) [
  | inl last ↦ ground arith
  | inr room ↦ some_of (rw room at h)
]

-- Every key that starts with the prefix is below the end of the prefix, where there is one.
pub prefix_end_lem :
    (prefix rest e : Bytes) → prefix_end prefix ≡ some e → compare_bytes (prefix ++ rest) e ≡ lt
unfolding prefix_end
prefix_end_lem [] rest e h = ground arith
prefix_end_lem (b ∷ bs) rest e h = elim (Option-cases (prefix_end bs)) [
  | inr (f, more) ↦
      let found : b ∷ f ≡ e = some_of (sym (ap (end_with b) more) ∙ h) in
      subst (λ x. compare_bytes (b ∷ (bs ++ rest)) x ≡ lt) found
        (below_end b (bs ++ rest) f (prefix_end_lem bs rest f more))
  | inl last ↦
      let found : (b + 1) ∷ [] ≡ e = next_end b e (sym (ap (end_with b) last) ∙ h) in
      subst (λ x. compare_bytes (b ∷ (bs ++ rest)) x ≡ lt) found (below_next b (bs ++ rest))
]
