-- ===== src/RecordStore/Siblings.antt =====
-- `ApplySiblings` of internal/recordstore/store.go.
use wave_span.Base.{
  ◌⊎◌, ◌↔◌, ◌≢◌, ◌∙◌, sym, subst, true, false, Bool, eq, Bool-cases, ◌≡◌, refl, by_if, inl, inr,
  Bytes, bytes_eq_refl, none, some, List, [], ◌∷◌, IsIn, insert, erase, lookup-insert,
  if◌then◌else◌,
}
use wave_span.Base.Int.{ℤ, pos}
use wave_span.Version.{Version, equal, compare_version}
use wave_span.Version.Order.{equal-iff-compare_version, compare_version-IsTotal}
use wave_span.Records.{StoredRecord, version_of}
use wave_span.Conflict.{is_newer}
use wave_span.Conflict.Highest.{IsHighest, NotNewer-refl, NotNewer-trans, newer_lem, not_newer_lem}
use wave_span.RecordStore.{Store, LatestPointer}
use wave_span.RecordStore.Keys.{latest_key, data_key, cache_key, stripe_idx}
use wave_span.RecordStore.Apply.{get_pointer, set_stripe, inline_value}

-- The loop over `siblings[1:]`.
unfoldable pub highest_of : StoredRecord → List StoredRecord → StoredRecord
highest_of w [] = w
highest_of w (r ∷ rs) = highest_of (if is_newer r w then r else w) rs

-- The versions of the siblings that are not the winner.
unfoldable pub other_versions : StoredRecord → List StoredRecord → List Version
other_versions w [] = []
other_versions w (r ∷ rs) =
    let rest = other_versions w rs in
    if equal (version_of r) (version_of w) then rest else version_of r ∷ rest

unfoldable pub put_records :
    Bytes
    → Bytes
    → List StoredRecord
    → List (Bytes × (StoredRecord × ℤ))
    → List (Bytes × (StoredRecord × ℤ))
put_records namespace key [] records = records
put_records namespace key (r ∷ rs) records =
    put_records namespace key rs (insert (data_key namespace key (version_of r)) (r, pos 0) records)

unfoldable pub sibling_pointer : StoredRecord → List StoredRecord → LatestPointer
unfolding other_versions inline_value
sibling_pointer w siblings = record {
  winner = version_of w;
  sibling_versions = other_versions w siblings;
  expires_at_unix_ms = none;
  tombstone = w.tombstone;
  inline_value = inline_value w;
}

-- The cached winner of the key is dropped; the live-key counter is not adjusted.
unfoldable pub apply_siblings : Store → Bytes → Bytes → List StoredRecord → Store
unfolding highest_of put_records sibling_pointer
apply_siblings s namespace key [] = s
apply_siblings s namespace key (r ∷ rs) =
    let i = stripe_idx namespace key in
    let w = highest_of r rs in
    record s {
      meta = insert (latest_key namespace key) (sibling_pointer w (r ∷ rs), pos 0) s.meta;
      records = put_records namespace key (r ∷ rs) s.records;
      latest_ver = set_stripe i (erase (cache_key namespace key) (s.latest_ver i)) s.latest_ver;
    }

skip : (w r x : StoredRecord) (rs : List StoredRecord) → IsIn x (w ∷ rs) → IsIn x (w ∷ r ∷ rs)
skip w r x rs (inl p) = inl p
skip w r x rs (inr q) = inr (inr q)

highest_of-IsHighest :
    (w : StoredRecord) (rs : List StoredRecord) → IsHighest (highest_of w rs) (w ∷ rs)
unfolding highest_of
highest_of-IsHighest w [] = (inl refl, (NotNewer-refl w, tt))
highest_of-IsHighest w (r ∷ rs) =
    by_if (λ x. IsHighest (highest_of x rs) (w ∷ r ∷ rs)) (is_newer r w)
      (λ newer.
        let (at, top) = highest_of-IsHighest r rs in
        (inr at, (NotNewer-trans w r (highest_of r rs) (newer_lem r w newer) top.0, top)))
      (λ older.
        let (at, top) = highest_of-IsHighest w rs in
        (
          skip w r (highest_of w rs) rs at,
          (top.0, (NotNewer-trans r w (highest_of w rs) (not_newer_lem r w older) top.0, top.1)),
        ))

true-false : ◌≡◌ {A = Bool} true false → ⊥
true-false e = cc

-- The version of one of the records.
abbrev pub IsVersionIn : Version → List StoredRecord → Type 0
IsVersionIn v [] = ⊥
IsVersionIn v (r ∷ rs) = (v ≡ version_of r) ⊎ IsVersionIn v rs

equal_iff : (a b : Version) → (equal a b ≡ true) ↔ (a ≡ b)
equal_iff a b = (
  λ h. compare_version-IsTotal.eq_of_cmp a b ((equal-iff-compare_version a b).0 h),
  λ e.
      (equal-iff-compare_version a b).1
        (subst (λ v. compare_version a v ≡ eq) e (compare_version-IsTotal.cmp_refl a)),
)

other_versions_iff :
    (w : StoredRecord) (rs : List StoredRecord) (v : Version)
    → IsIn v (other_versions w rs) ↔ (IsVersionIn v rs × (v ≢ version_of w))
unfolding other_versions
other_versions_iff w [] v = (λ i. absurd i, λ h. absurd h.0)
other_versions_iff w (r ∷ rs) v =
    let (there, back) = other_versions_iff w rs v in
    elim (Bool-cases (equal (version_of r) (version_of w))) [
      | inl e ↦
          let same : version_of r ≡ version_of w = (equal_iff (version_of r) (version_of w)).0 e in
          rw e (
            λ i. let h = there i in (inr h.0, h.1),
            λ (i, n). elim i [ inl p ↦ absurd (n (p ∙ same)) | inr j ↦ back (j, n) ],
          )
      | inr e ↦
          let apart : version_of r ≢ version_of w = λ same.
            let yes_equal = (equal_iff (version_of r) (version_of w)).1 same in
            true-false (sym yes_equal ∙ e) in
          rw e (
            elim [
              | inl p ↦ (inl p, λ q. apart (sym p ∙ q))
              | inr j ↦ (let h = there j in (inr h.0, h.1))
            ],
            λ (i, n). elim i [ inl p ↦ inl p | inr j ↦ inr (back (j, n)) ],
          )
    ]

-- After a set of siblings is applied, the pointer of the key has the version and the tombstone bit of a
-- highest sibling, and beside it exactly the versions of the siblings that are other versions.
pub apply_siblings-IsHighest :
    (s : Store) (namespace key : Bytes) (r : StoredRecord) (rs : List StoredRecord)
    → (w : StoredRecord) × IsHighest w (r ∷ rs)
      × ((lp : LatestPointer) × (get_pointer (apply_siblings s namespace key (r ∷ rs)) namespace key
            ≡ some lp)
          × (lp.winner ≡ version_of w)
          × (lp.tombstone ≡ w.tombstone)
          × ((v : Version)
              → IsIn v lp.sibling_versions ↔ (IsVersionIn v (r ∷ rs) × (v ≢ version_of w))))
unfolding apply_siblings get_pointer sibling_pointer
apply_siblings-IsHighest s namespace key r rs =
    let w = highest_of r rs in
    let k = latest_key namespace key in
    (
      w,
      highest_of-IsHighest r rs,
      (
        sibling_pointer w (r ∷ rs),
        rw (lookup-insert k k (sibling_pointer w (r ∷ rs), pos 0) s.meta, bytes_eq_refl k) refl,
        refl,
        refl,
        other_versions_iff w (r ∷ rs),
      ),
    )
