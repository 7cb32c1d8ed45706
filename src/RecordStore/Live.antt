-- ===== src/RecordStore/Live.antt =====
-- The winner and the live-key counter after `Apply` of internal/recordstore/store.go.
use wave_span.Base.{
  ℕ, ◌+◌, ◌-◌, ◌^◌, ◌≤◌, ◌<◌, ◌≡◌, ◌⊎◌, refl, sym, ap, ◌∙◌, subst, arith, Bool, true, false, not,
  Bool-cases, inl, inr, Option, none, some, lookup, total, measure, total-insert, total-erase,
  NotAfter, NotAfter-refl, if◌then◌else◌,
}
use wave_span.Base.Int.{ℤ, pos, eq_of_parts}
use wave_span.Base.Int64.{add64, sub64, add64_parts, sub64_parts}
use wave_span.Version.{Version, compare_version}
use wave_span.Version.Order.{compare_version-IsTotal}
use wave_span.Records.{StoredRecord, version_of}
use wave_span.RecordStore.{Store, LatestPointer}
use wave_span.RecordStore.Keys.{latest_key}
use wave_span.RecordStore.Timeless.{IsTimeless, apply-IsTimeless, timeless_pointer}
use wave_span.RecordStore.Apply.{
  by_pointer, choose, get_pointer, stored_pointer, write, apply, take_incoming, is_not_before,
  first_of, adjust_live, pointer_of, Choice, engine_expiry,
}
use wave_span.RecordStore.Cache.{IsCoherent, IsName, choose-by_pointer, own_row}

-- `v` is not newer than `w`.
abbrev pub NotPast : Version → Version → Type 0
NotPast v w = NotAfter compare_version v w

-- The winner among the record and the stored pointer.
abbrev pub IsWinner : StoredRecord → Option LatestPointer → Version → Type 0
IsWinner r none w = w ≡ version_of r
IsWinner r (some lp) w =
    ((w ≡ version_of r) ⊎ (w ≡ lp.winner)) × NotPast (version_of r) w × NotPast lp.winner w

stands : (v w : Version) → is_not_before w v ≡ true → NotPast v w
stands v w h = ground (arith, compare_version-IsTotal.cmp_swap v w)

yields : (v w : Version) → is_not_before w v ≡ false → NotPast w v
yields v w h = ground arith

by_pointer-IsWinner :
    (r : StoredRecord) (lp : Option LatestPointer) → IsWinner r lp (by_pointer r lp).winner
unfolding by_pointer take_incoming
by_pointer-IsWinner r none = refl
by_pointer-IsWinner r (some lp) = elim (Bool-cases (is_not_before lp.winner (version_of r))) [
  | inl holds ↦ rw holds (
    inr refl,
    stands (version_of r) lp.winner holds,
    NotAfter-refl compare_version compare_version-IsTotal lp.winner,
  )
  | inr falls ↦ rw falls (
    inl refl,
    NotAfter-refl compare_version compare_version-IsTotal (version_of r),
    yields (version_of r) lp.winner falls,
  )
]

-- With a coherent cache, `Apply` returns the highest of the incoming version and the stored winner, and
-- the pointer row that it leaves under the key has that winner; the namespace has no zero byte.
pub apply-IsWinner :
    (s : Store) (r : StoredRecord) (kind : ℕ)
    → IsCoherent s
    → IsName r.namespace
    → IsWinner r (get_pointer s r.namespace r.logical_key) (apply s r kind).1
      × ((lp : LatestPointer) × (stored_pointer (apply s r kind).0 r.namespace r.logical_key
            ≡ some lp)
          × (lp.winner ≡ (apply s r kind).1))
unfolding apply pointer_of
apply-IsWinner s r kind k n =
    let same = choose-by_pointer s r k n in
    let p = get_pointer s r.namespace r.logical_key in
    (
      subst (λ (c : Choice). IsWinner r p c.winner) (sym same) (by_pointer-IsWinner r p),
      (pointer_of r (choose s r), ap first_of (own_row s r kind (choose s r)), refl),
    )

abbrev pub live : LatestPointer × ℤ → ℕ
live (lp, expiry) = if lp.tombstone then 0 else 1

-- The number of keys whose winner is not a tombstone.
abbrev pub live_count : Store → ℕ
live_count s = total live s.meta

abbrev count : Bool → ℕ
count b = if b then 1 else 0

adjust_live_lem :
    (before after : Bool) (n : ℕ)
    → count before ≤ n
    → n + 1 < 2 ^ 63
    → adjust_live before after (pos n) ≡ pos (n + count after - count before)
unfolding adjust_live
adjust_live_lem true true n h k = ap pos (omega arith)
adjust_live_lem false false n h k = ap pos (omega arith)
adjust_live_lem false true n h k =
    let a = add64_parts (pos n) (pos 1) refl refl (omega arith) in
    eq_of_parts (add64 (pos n) (pos 1)) (pos (n + 1 - 0)) (omega arith)
adjust_live_lem true false n h k =
    let a = sub64_parts (pos n) (pos 1) refl refl (omega arith) h in
    eq_of_parts (sub64 (pos n) (pos 1)) (pos (n + 0 - 1)) (omega arith)

-- Whether a key was live, as `Apply` reads it off the pointer.
before_lem :
    (r : StoredRecord) (o : Option (LatestPointer × ℤ))
    → count (by_pointer r (first_of o)).before_live ≡ measure live o
unfolding by_pointer take_incoming
before_lem r none = refl
before_lem r (some (lp, expiry)) = elim (Bool-cases (is_not_before lp.winner (version_of r))) [
  | inl holds ↦ simp holds (ground arith)
  | inr falls ↦ simp falls (ground arith)
]

pub record IsCounted (s : Store) : Type 0 where
  pub counted : s.live_keys ≡ pos (live_count s)

keeps-IsCounted :
    (s : Store) (r : StoredRecord) (kind : ℕ)
    → IsCoherent s
    → IsTimeless s
    → IsName r.namespace
    → IsCounted s
    → live_count s + 1 < 2 ^ 63
    → IsCounted (apply s r kind).0
unfolding apply write
keeps-IsCounted s r kind k t n i room =
    let c = choose s r in
    let key = latest_key r.namespace r.logical_key in
    let row : LatestPointer × ℤ = (pointer_of r c, engine_expiry c.expiry c.tombstone) in
    let before : count c.before_live ≡ measure live (lookup key s.meta) =
      ap (λ (d : Choice). count d.before_live) (choose-by_pointer s r k n)
      ∙ (ap (λ p. count (by_pointer r p).before_live)
            (timeless_pointer s r.namespace r.logical_key t)
          ∙ before_lem r (lookup key s.meta)) in
    let after : live row ≡ count (not c.tombstone) = unfold pointer_of in ground arith in
    let inserted = total-insert live key row s.meta in
    let within = total-erase live key s.meta in
    let value = adjust_live_lem c.before_live (not c.tombstone) (live_count s) (omega arith) room in
    record {
      counted =
          ap (adjust_live c.before_live (not c.tombstone)) i.counted
          ∙ (value ∙ ap pos (omega arith));
    }

-- With a coherent cache, and where neither the record nor a row of the store has an expiry, `Apply` keeps
-- the counter of live keys exact, as long as there is room in an int64, and gives no row an expiry; the
-- namespace has no zero byte.
pub apply-IsCounted :
    (s : Store) (r : StoredRecord) (kind : ℕ)
    → IsCoherent s
    → IsTimeless s
    → IsName r.namespace
    → r.expires_at_unix_ms ≡ none
    → IsCounted s
    → live_count s + 1 < 2 ^ 63
    → IsCounted (apply s r kind).0 × IsTimeless (apply s r kind).0
apply-IsCounted s r kind k t n lasts i room =
    (keeps-IsCounted s r kind k t n i room, apply-IsTimeless s r kind t lasts)
