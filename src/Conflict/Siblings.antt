-- ===== src/Conflict/Siblings.antt =====
-- keep-siblings keeps the highest record of each writer, sorted, whatever the order of its inputs and
-- of the map iteration.
use wave_span.Base.{
  All, IsWithout, split_sep, ◌≡◌, ◌↔◌, ◌∙◌, refl, sym, ap, Option, none, some, List, [], ◌∷◌, ◌++◌,
  inl, inr, IsIn, All-at, NotAfter-antisymm, Bool-cases, subst,
}
use wave_span.Version.{compare_version}
use wave_span.Version.Order.{compare_version-IsTotal}
use wave_span.Records.{StoredRecord, version_of}
use wave_span.Conflict.{
  ResolveResult, single, collapse, writer_key, consider_all, sort_versions, keep_siblings,
}
use wave_span.Conflict.Highest.{NotNewer, present, inputs, HasUniqueVersions, SameRecords}
use wave_span.Conflict.Sort.{
  IsSorted, HasNoRepeat, sort_versions_mem, sort_versions-IsSorted, sort_versions-HasNoRepeat,
  sorted_unique,
}
use wave_span.Conflict.Writers.{
  HasOneEach, Covers, consider_all-HasOneEach, consider_all_sound, consider_all-Covers,
}

-- A map iteration yields each entry once.
pub record IsRange (range : List StoredRecord → List StoredRecord) : Type 0 where
  pub same : (m : List StoredRecord) → SameRecords (range m) m
  pub once : (m : List StoredRecord) → HasNoRepeat m → HasNoRepeat (range m)

-- One writer: the same member of the same cluster.
abbrev pub SameWriter : StoredRecord → StoredRecord → Type 0
SameWriter r s =
    ((version_of r).writer_cluster_id ≡ (version_of s).writer_cluster_id)
    × ((version_of r).writer_member_id ≡ (version_of s).writer_member_id)

-- `s` is one of the records, and no record of its writer is newer.
abbrev pub IsKept : List StoredRecord → StoredRecord → Type 0
IsKept rs s = IsIn s rs × ((r : StoredRecord) → IsIn r rs → SameWriter r s → NotNewer r s)

-- No cluster id holds the byte that ends it in the map's key.
abbrev pub HasPlainIds : List StoredRecord → Type 0
HasPlainIds rs = All (λ (r : StoredRecord). IsWithout 0 (version_of r).writer_cluster_id) rs

-- The same, for the keys of the code's map.
abbrev IsKeptByKey : List StoredRecord → StoredRecord → Type 0
IsKeptByKey rs s =
    IsIn s rs × ((r : StoredRecord) → IsIn r rs → writer_key r ≡ writer_key s → NotNewer r s)

writer_key_iff :
    (r s : StoredRecord)
    → IsWithout 0 (version_of r).writer_cluster_id
    → IsWithout 0 (version_of s).writer_cluster_id
    → (writer_key r ≡ writer_key s) ↔ SameWriter r s
unfolding writer_key
writer_key_iff r s h k = (
  λ e. split_sep 0 (version_of r).writer_cluster_id (version_of s).writer_cluster_id _ _ h k e,
  λ e. rw (e.0, e.1),
)

IsKept-iff :
    (rs : List StoredRecord) (s : StoredRecord) → HasPlainIds rs → IsKeptByKey rs s ↔ IsKept rs s
IsKept-iff rs s plain =
    let id : (r : StoredRecord) → IsIn r rs → IsWithout 0 (version_of r).writer_cluster_id = λ r i.
      All-at (λ (x : StoredRecord). IsWithout 0 (version_of x).writer_cluster_id) r rs i plain in
    (
      λ k. (k.0, λ r i e. k.1 r i ((writer_key_iff r s (id r i) (id s k.0)).1 e)),
      λ k. (k.0, λ r i e. k.1 r i ((writer_key_iff r s (id r i) (id s k.0)).0 e)),
    )

abbrev pub records_of : ResolveResult → List StoredRecord
records_of (ResolveResult.winner r) = r ∷ []
records_of (ResolveResult.tombstone r) = r ∷ []
records_of (ResolveResult.siblings rs) = rs
records_of ResolveResult.reject = []

HasOneEach-NoRepeat : (m : List StoredRecord) → HasOneEach m → HasNoRepeat m
HasOneEach-NoRepeat [] h = tt
HasOneEach-NoRepeat (s ∷ ss) h =
    (λ i. All-at (λ t. ¬ (writer_key s ≡ writer_key t)) s ss i h.0 refl, HasOneEach-NoRepeat ss h.1)

one_each_same :
    (m : List StoredRecord) (s t : StoredRecord)
    → HasOneEach m
    → IsIn s m
    → IsIn t m
    → writer_key s ≡ writer_key t
    → s ≡ t
one_each_same [] s t h i j e = elim i [ ]
one_each_same (x ∷ xs) s t h (inl p) (inl q) e = p ∙ sym q
one_each_same (x ∷ xs) s t h (inl p) (inr j) e =
    absurd (All-at (λ a. ¬ (writer_key x ≡ writer_key a)) t xs j h.0 (ap writer_key (sym p) ∙ e))
one_each_same (x ∷ xs) s t h (inr i) (inl q) e =
    absurd
      (All-at (λ a. ¬ (writer_key x ≡ writer_key a)) s xs i h.0 (ap writer_key (sym q) ∙ sym e))
one_each_same (x ∷ xs) s t h (inr i) (inr j) e = one_each_same xs s t h.1 i j e

-- The entries of a map that has one record for each writer and covers the inputs are the kept ones.
entries-IsKept :
    (rs m : List StoredRecord)
    → HasUniqueVersions rs
    → HasOneEach m
    → ((s : StoredRecord) → IsIn s m → IsIn s rs)
    → ((y : StoredRecord) → IsIn y rs → Covers m y)
    → (s : StoredRecord) → IsIn s m ↔ IsKeptByKey rs s
entries-IsKept rs m u one sound cover s = (there, back)
  where
    there : IsIn s m → IsKeptByKey rs s
    there i = (
      sound s i,
      λ r j e.
          let (t, k, w, n) = cover r j in
          subst (NotNewer r) (one_each_same m t s one k i (sym w ∙ e)) n,
    )

    back : IsKeptByKey rs s → IsIn s m
    back (i, top) =
        let (t, k, w, n) = cover s i in
        let same : s ≡ t = u s t i (sound t k) (
          NotAfter-antisymm compare_version compare_version-IsTotal (version_of s) (version_of t) n
            (top t (sound t k) (sym w))) in
        subst (λ x. IsIn x m) (sym same) k

records_of-single : (r : StoredRecord) → records_of (single r) ≡ r ∷ []
records_of-single r = elim (Bool-cases r.tombstone) [ inl dead ↦ simp dead | inr live ↦ simp live ]

records_of-collapse : (rs : List StoredRecord) → records_of (collapse rs) ≡ rs
records_of-collapse [] = refl
records_of-collapse (r ∷ []) = records_of-single r
records_of-collapse (r ∷ s ∷ rs) = refl

-- `existing` in order, then `incoming`: the same records as `inputs`.
rotate_mem :
    (existing : List (Option StoredRecord)) (incoming : Option StoredRecord) (s : StoredRecord)
    → IsIn s (present (existing ++ incoming ∷ [])) ↔ IsIn s (inputs existing incoming)
rotate_mem [] incoming s = (λ i. i, λ i. i)
rotate_mem (none ∷ es) none s = rotate_mem es none s
rotate_mem (none ∷ es) (some r) s = rotate_mem es (some r) s
rotate_mem (some e ∷ es) none s =
    let (there, back) = rotate_mem es none s in
    (elim [ inl p ↦ inl p | inr i ↦ inr (there i) ], elim [ inl p ↦ inl p | inr i ↦ inr (back i) ])
rotate_mem (some e ∷ es) (some r) s =
    let (there, back) = rotate_mem es (some r) s in
    (
      elim [ inl p ↦ inr (inl p) | inr i ↦ elim (there i) [ inl p ↦ inl p | inr j ↦ inr (inr j) ] ],
      elim [ inl p ↦ inr (back (inl p)) | inr (inl p) ↦ inl p | inr (inr j) ↦ inr (back (inr j)) ],
    )

-- The list before it is collapsed.
record IsSiblingList (rs out : List StoredRecord) : Type 0 where
  kept : (s : StoredRecord) → IsIn s out ↔ IsKeptByKey rs s
  sorted : IsSorted out
  once : HasNoRepeat out

sibling_list :
    (range : List StoredRecord → List StoredRecord) (rs : List (Option StoredRecord))
    → IsRange range
    → HasUniqueVersions (present rs)
    → IsSiblingList (present rs) (sort_versions (range (consider_all rs [])))
sibling_list range rs ok u =
    let m = consider_all rs [] in
    let one = consider_all-HasOneEach rs [] tt in
    let entries =
      entries-IsKept (present rs) m u one
        (λ s i. elim (consider_all_sound rs [] s i) [ inl j ↦ j | inr j ↦ absurd j ])
        (consider_all-Covers rs []) in
    record {
      kept = λ s. (
        λ i. (entries s).0 ((ok.same m s).0 ((sort_versions_mem (range m) s).0 i)),
        λ k. (sort_versions_mem (range m) s).1 ((ok.same m s).1 ((entries s).1 k)),
      );
      sorted = sort_versions-IsSorted (range m);
      once = sort_versions-HasNoRepeat (range m) (ok.once m (HasOneEach-NoRepeat m one));
    }

IsKeptByKey-imp :
    (rs ss : List StoredRecord)
    → SameRecords rs ss
    → (s : StoredRecord) → IsKeptByKey rs s
    → IsKeptByKey ss s
IsKeptByKey-imp rs ss same s (i, top) = ((same s).0 i, λ r j. top r ((same r).1 j))

SameRecords-flip : (rs ss : List StoredRecord) → SameRecords rs ss → SameRecords ss rs
SameRecords-flip rs ss same r = ((same r).1, (same r).0)

HasUniqueVersions-imp :
    (rs ss : List StoredRecord) → SameRecords rs ss → HasUniqueVersions rs → HasUniqueVersions ss
HasUniqueVersions-imp rs ss same u r s i j = u r s ((same r).1 i) ((same s).1 j)

by_key_lem :
    (range : List StoredRecord → List StoredRecord) (existing : List (Option StoredRecord))
    (incoming : Option StoredRecord)
    → IsRange range
    → HasUniqueVersions (inputs existing incoming)
    → ((s : StoredRecord)
        → IsIn s (records_of (keep_siblings range existing incoming))
          ↔ IsKeptByKey (inputs existing incoming) s)
      × IsSorted (records_of (keep_siblings range existing incoming))
      × HasNoRepeat (records_of (keep_siblings range existing incoming))
unfolding keep_siblings
by_key_lem range existing incoming ok u =
    let all = existing ++ incoming ∷ [] in
    let same = rotate_mem existing incoming in
    let out = sort_versions (range (consider_all all [])) in
    let l = sibling_list range all ok (
      HasUniqueVersions-imp (inputs existing incoming) (present all)
        (SameRecords-flip (present all) (inputs existing incoming) same) u) in
    rw (records_of-collapse out) (
      (λ s. (
        λ i. IsKeptByKey-imp (present all) (inputs existing incoming) same s ((l.kept s).0 i),
        λ k. (l.kept s).1 (
            IsKeptByKey-imp (inputs existing incoming) (present all)
              (SameRecords-flip (present all) (inputs existing incoming) same) s k),
      )),
      l.sorted,
      l.once,
    )

-- Keep-siblings returns, oldest first and without repetition, exactly the records that no record of the
-- same cluster and member is newer than, among the inputs, where a version names one record and no
-- cluster id holds a zero byte, for every order of the map iteration.
pub keep_siblings_lem :
    (range : List StoredRecord → List StoredRecord) (existing : List (Option StoredRecord))
    (incoming : Option StoredRecord)
    → IsRange range
    → HasUniqueVersions (inputs existing incoming)
    → HasPlainIds (inputs existing incoming)
    → ((s : StoredRecord)
        → IsIn s (records_of (keep_siblings range existing incoming))
          ↔ IsKept (inputs existing incoming) s)
      × IsSorted (records_of (keep_siblings range existing incoming))
      × HasNoRepeat (records_of (keep_siblings range existing incoming))
keep_siblings_lem range existing incoming ok u plain =
    let (kept, sorted, once) = by_key_lem range existing incoming ok u in
    (
      λ s. (
        λ i. (IsKept-iff (inputs existing incoming) s plain).0 ((kept s).0 i),
        λ k. (kept s).1 ((IsKept-iff (inputs existing incoming) s plain).1 k),
      ),
      sorted,
      once,
    )

HasUniqueVersions-out :
    (rs out : List StoredRecord)
    → IsSiblingList rs out
    → HasUniqueVersions rs
    → HasUniqueVersions out
HasUniqueVersions-out rs out l u r s i j = u r s ((l.kept r).0 i).0 ((l.kept s).0 j).0

sibling_list_unique :
    (rs ss out out' : List StoredRecord)
    → HasUniqueVersions rs
    → SameRecords rs ss
    → IsSiblingList rs out
    → IsSiblingList ss out'
    → out ≡ out'
sibling_list_unique rs ss out out' u same l k =
    sorted_unique out out' (HasUniqueVersions-out rs out l u) l.sorted l.once k.sorted k.once (λ r.
      (
        λ i. (k.kept r).1 (IsKeptByKey-imp rs ss same r ((l.kept r).0 i)),
        λ i. (l.kept r).1 (IsKeptByKey-imp ss rs (SameRecords-flip rs ss same) r ((k.kept r).0 i)),
      ))

-- Two clusters that are given the same records, in any order and with any of them as the incoming one,
-- keep the same siblings in the same order, whatever the iteration order of their maps, where a
-- version names one record.
pub keep_siblings_converges :
    (range range' : List StoredRecord → List StoredRecord)
    (existing existing' : List (Option StoredRecord)) (incoming incoming' : Option StoredRecord)
    → IsRange range
    → IsRange range'
    → HasUniqueVersions (inputs existing incoming)
    → SameRecords (inputs existing incoming) (inputs existing' incoming')
    → keep_siblings range existing incoming ≡ keep_siblings range' existing' incoming'
unfolding keep_siblings
keep_siblings_converges range range' existing existing' incoming incoming' ok ok' u same =
    let all = existing ++ incoming ∷ [] in
    let all' = existing' ++ incoming' ∷ [] in
    let in_all = SameRecords-flip _ _ (rotate_mem existing incoming) in
    let in_all' = SameRecords-flip _ _ (rotate_mem existing' incoming') in
    let u_all = HasUniqueVersions-imp (inputs existing incoming) (present all) in_all u in
    let u_in' =
      HasUniqueVersions-imp (inputs existing incoming) (inputs existing' incoming') same u in
    let u_all' = HasUniqueVersions-imp (inputs existing' incoming') (present all') in_all' u_in' in
    let same_all : SameRecords (present all) (present all') = λ r. (
      λ i. (in_all' r).0 ((same r).0 ((in_all r).1 i)),
      λ i. (in_all r).0 ((same r).1 ((in_all' r).1 i)),
    ) in
    ap collapse (
      sibling_list_unique (present all) (present all') _ _ u_all same_all
        (sibling_list range all ok u_all) (sibling_list range' all' ok' u_all'))
