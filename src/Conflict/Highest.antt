-- ===== src/Conflict/Highest.antt =====
-- hlc-last-write-wins picks the highest version, whatever the order of its inputs.
use wave_span.Base.{
  ◌≡◌, ◌↔◌, ◌⊎◌, refl, sym, ap, arith, true, false, Option, none, some, List, [], ◌∷◌, inl, inr,
  IsIn, All, All-at, NotAfter, NotAfter-refl, NotAfter-trans, NotAfter-antisymm, NotAfter-of_gt,
  Bool-cases, subst,
}
use wave_span.Version.{compare_version}
use wave_span.Version.Order.{compare_version-IsTotal}
use wave_span.Records.{StoredRecord, version_of}
use wave_span.Conflict.{
  ResolveResult, result_of, is_newer, last_write_loop, last_write_wins, single,
}

-- The records that are not nil.
abbrev pub present : List (Option StoredRecord) → List StoredRecord
present [] = []
present (none ∷ rs) = present rs
present (some r ∷ rs) = r ∷ present rs

-- The version of `r` is not newer than that of `s`.
abbrev pub NotNewer : StoredRecord → StoredRecord → Type 0
NotNewer r s = NotAfter compare_version (version_of r) (version_of s)

pub NotNewer-refl : (r : StoredRecord) → NotNewer r r
NotNewer-refl r = NotAfter-refl compare_version compare_version-IsTotal (version_of r)

pub NotNewer-trans : (r s t : StoredRecord) → NotNewer r s → NotNewer s t → NotNewer r t
NotNewer-trans r s t =
    NotAfter-trans compare_version compare_version-IsTotal (version_of r) (version_of s)
      (version_of t)

-- `r` is one of the records, and none is newer.
abbrev pub IsHighest : StoredRecord → List StoredRecord → Type 0
IsHighest r rs = IsIn r rs × All (λ s. NotNewer s r) rs

pub newer_lem : (e w : StoredRecord) → is_newer e w ≡ true → NotNewer w e
newer_lem e w h =
    NotAfter-of_gt compare_version compare_version-IsTotal (version_of e) (version_of w)
      (ground arith)

pub not_newer_lem : (e w : StoredRecord) → is_newer e w ≡ false → NotNewer e w
not_newer_lem e w h = ground arith

IsIn-skip : (w e r : StoredRecord) (rs : List StoredRecord) → IsIn r (w ∷ rs) → IsIn r (w ∷ e ∷ rs)
IsIn-skip w e r rs (inl p) = inl p
IsIn-skip w e r rs (inr q) = inr (inr q)

loop-IsHighest :
    (w : StoredRecord) (es : List (Option StoredRecord))
    → (r : StoredRecord) × (last_write_loop (some w) es ≡ some r) × IsHighest r (w ∷ present es)
unfolding last_write_loop
loop-IsHighest w [] = (w, refl, (inl refl, (NotNewer-refl w, tt)))
loop-IsHighest w (none ∷ es) = loop-IsHighest w es
loop-IsHighest w (some e ∷ es) = elim (Bool-cases (is_newer e w)) [
  | inl newer ↦
      let (r, p, (at, top)) = loop-IsHighest e es in
      (r, rw newer p, (inr at, (NotNewer-trans w e r (newer_lem e w newer) top.0, top)))
  | inr older ↦
      let (r, p, (at, top)) = loop-IsHighest w es in
      (
        r,
        rw older p,
        (
          IsIn-skip w e r (present es) at,
          (top.0, (NotNewer-trans e w r (not_newer_lem e w older) top.0, top.1)),
        ),
      )
]

loop_none :
    (es : List (Option StoredRecord))
    → ((last_write_loop none es ≡ none) × (present es ≡ []))
      ⊎ ((r : StoredRecord) × (last_write_loop none es ≡ some r) × IsHighest r (present es))
unfolding last_write_loop
loop_none [] = inl (refl, refl)
loop_none (none ∷ es) = loop_none es
loop_none (some e ∷ es) = inr (loop-IsHighest e es)

-- The records that a resolver is given: those not nil among the existing ones and the incoming one.
abbrev pub inputs : List (Option StoredRecord) → Option StoredRecord → List StoredRecord
inputs existing incoming = present (incoming ∷ existing)

-- A highest record among the inputs decides: it wins, as a tombstone if it is one; without any
-- record the result is a rejection.
abbrev pub IsLastWrite : List StoredRecord → ResolveResult → Type 0
IsLastWrite rs (ResolveResult.winner r) = IsHighest r rs × (r.tombstone ≡ false)
IsLastWrite rs (ResolveResult.tombstone r) = IsHighest r rs × (r.tombstone ≡ true)
IsLastWrite rs (ResolveResult.siblings _) = ⊥
IsLastWrite rs ResolveResult.reject = rs ≡ []

single_lem :
    (rs : List StoredRecord) (r : StoredRecord) → IsHighest r rs → IsLastWrite rs (single r)
single_lem rs r h = elim (Bool-cases r.tombstone) [
  | inl dead ↦ simp dead (h, refl)
  | inr live ↦ simp live (h, refl)
]

abbrev IsLastOf : List StoredRecord → Option StoredRecord → Type 0
IsLastOf rs none = rs ≡ []
IsLastOf rs (some r) = IsHighest r rs

result_of_lem :
    (rs : List StoredRecord) (o : Option StoredRecord)
    → IsLastOf rs o
    → IsLastWrite rs (result_of o)
result_of_lem rs none h = h
result_of_lem rs (some r) h = single_lem rs r h

loop_lem :
    (incoming : Option StoredRecord) (existing : List (Option StoredRecord))
    → IsLastOf (inputs existing incoming) (last_write_loop incoming existing)
loop_lem none existing = elim (loop_none existing) [
  | inl (p, q) ↦ subst (IsLastOf (present existing)) (sym p) q
  | inr (r, p, h) ↦ subst (IsLastOf (present existing)) (sym p) h
]
loop_lem (some w) existing =
    let (r, p, h) = loop-IsHighest w existing in subst (IsLastOf (w ∷ present existing)) (sym p) h

-- Last-write-wins returns a record of the highest version among its inputs, as a tombstone exactly if
-- that record is one; it rejects exactly when there is no record.
pub last_write_wins-IsLastWrite :
    (existing : List (Option StoredRecord)) (incoming : Option StoredRecord)
    → IsLastWrite (inputs existing incoming) (last_write_wins existing incoming)
unfolding last_write_wins
last_write_wins-IsLastWrite existing incoming =
    result_of_lem (inputs existing incoming) (last_write_loop incoming existing)
      (loop_lem incoming existing)

-- A version names one record.
abbrev pub HasUniqueVersions : List StoredRecord → Type 0
HasUniqueVersions rs =
    (r s : StoredRecord) → IsIn r rs → IsIn s rs → version_of r ≡ version_of s → r ≡ s

abbrev pub SameRecords : List StoredRecord → List StoredRecord → Type 0
SameRecords rs ss = (r : StoredRecord) → IsIn r rs ↔ IsIn r ss

highest_unique :
    (rs ss : List StoredRecord) (r s : StoredRecord)
    → HasUniqueVersions rs
    → SameRecords rs ss
    → IsHighest r rs
    → IsHighest s ss
    → r ≡ s
highest_unique rs ss r s u same (ri, rt) (si, st) =
    let s_in : IsIn s rs = (same s).1 si in
    u r s ri s_in (
      NotAfter-antisymm compare_version compare_version-IsTotal (version_of r) (version_of s)
        (All-at (λ x. NotNewer x s) r ss ((same r).0 ri) st)
        (All-at (λ x. NotNewer x r) s rs s_in rt))

empty_lem :
    (rs ss : List StoredRecord) (r : StoredRecord) → SameRecords rs ss → rs ≡ [] → IsIn r ss → ⊥
empty_lem rs ss r same e at = subst (IsIn r) e ((same r).1 at)

result_unique :
    (rs ss : List StoredRecord) (o p : Option StoredRecord)
    → HasUniqueVersions rs
    → SameRecords rs ss
    → IsLastOf rs o
    → IsLastOf ss p
    → o ≡ p
result_unique rs ss none none u same h k = refl
result_unique rs ss none (some s) u same h k = absurd (empty_lem rs ss s same h k.0)
result_unique rs ss (some r) none u same h k =
    absurd (empty_lem ss rs r (λ x. ((same x).1, (same x).0)) k h.0)
result_unique rs ss (some r) (some s) u same h k = ap some (highest_unique rs ss r s u same h k)

-- Two clusters that are given the same records, in any order, with any repetition and any of them as
-- the incoming one, resolve to the same result, where a version names one record.
pub last_write_wins_converges :
    (existing existing' : List (Option StoredRecord)) (incoming incoming' : Option StoredRecord)
    → HasUniqueVersions (inputs existing incoming)
    → SameRecords (inputs existing incoming) (inputs existing' incoming')
    → last_write_wins existing incoming ≡ last_write_wins existing' incoming'
unfolding last_write_wins
last_write_wins_converges existing existing' incoming incoming' u same = ap result_of (
    result_unique (inputs existing incoming) (inputs existing' incoming') _ _ u same
      (loop_lem incoming existing) (loop_lem incoming' existing'))
