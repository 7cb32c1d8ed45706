-- ===== src/RecordStore/Cache.antt =====
-- The version cache of the record store: the fast path of `Apply` beside the slow path.
use wave_span.Base.{
  ℕ, ◌^◌, ◌<◌, ◌==◌, ==_iff, ==_refl, ◌≡◌, ◌⊎◌, refl, sym, subst, arith, true, false, Bool-cases,
  inl, inr, Bytes, bytes_eq, bytes_eq_iff, bytes_eq_refl, IsWithout, Option, none, some, List,
  length, ltb, lookup, lookup-insert,
}
use wave_span.Base.Int.{pos}
use wave_span.Version.{Version}
use wave_span.Version.Order.{compare_version-IsTotal}
use wave_span.Records.{StoredRecord, version_of}
use wave_span.RecordStore.{Store, LatestPointer, LatestEntry}
use wave_span.RecordStore.Keys.{
  latest_key, cache_key, stripe_idx, latest_key-injective, cache_key-injective,
}
use wave_span.RecordStore.Timeless.{IsTimeless, apply-IsTimeless, shown-first_of, engine_lasts}
use wave_span.RecordStore.Apply.{
  by_pointer, by_cache, choose, get_pointer, get_cached, write, apply, is_after, is_not_before,
  put_cached, set_stripe, Choice, pointer_of, engine_expiry, max_ver_cache_per,
}

-- A cached winner is the stored one, with its tombstone bit.
abbrev pub Agrees : Option LatestEntry → Option LatestPointer → Type 0
Agrees none lp = Unit
Agrees (some e) none = ⊥
Agrees (some e) (some lp) = (lp.winner ≡ e.ver) × (lp.tombstone ≡ e.tombstone)

-- A namespace without a zero byte, of a length that Go has.
pub record IsName (namespace : Bytes) : Type 0 where
  pub no_zero : IsWithout 0 namespace
  pub short : length namespace < 2 ^ 63

-- Every cached winner is the stored one.
pub record IsCoherent (s : Store) : Type 0 where
  pub agrees :
      (namespace key : Bytes)
      → IsName namespace
      → Agrees (get_cached s namespace key) (get_pointer s namespace key)

older_loses : (v : Version) (w : Version) → is_after v w ≡ true → is_not_before w v ≡ false
older_loses v w h = ground (arith, compare_version-IsTotal.cmp_swap v w)

by_cache-by_pointer :
    (r : StoredRecord) (c : Option LatestEntry) (lp : Option LatestPointer)
    → Agrees c lp
    → by_cache r c lp ≡ by_pointer r lp
unfolding by_cache by_pointer
by_cache-by_pointer r none lp h = refl
by_cache-by_pointer r (some e) none h = absurd h
by_cache-by_pointer r (some e) (some lp) h = elim (Bool-cases (is_after (version_of r) e.ver)) [
  | inl newer ↦
      let old : is_not_before lp.winner (version_of r) ≡ false =
        subst (λ w. is_not_before w (version_of r) ≡ false) (sym h.0)
          (older_loses (version_of r) e.ver newer) in
      simp (newer, old, h.1) refl
  | inr older ↦ simp older refl
]

-- With a coherent cache, the choice of `Apply` is that of its slow path, whichever path it takes, for a
-- namespace without a zero byte.
pub choose-by_pointer :
    (s : Store) (r : StoredRecord)
    → IsCoherent s
    → IsName r.namespace
    → choose s r ≡ by_pointer r (get_pointer s r.namespace r.logical_key)
unfolding choose
choose-by_pointer s r k n = by_cache-by_pointer r _ _ (k.agrees r.namespace r.logical_key n)

-- Another key finds in the map what it found before, or nothing.
put_cached_other :
    (key other : Bytes) (e : LatestEntry) (m : List (Bytes × LatestEntry))
    → bytes_eq key other ≡ false
    → (lookup other (put_cached key e m) ≡ none)
      ⊎ (lookup other (put_cached key e m) ≡ lookup other m)
unfolding put_cached lookup
put_cached_other key other e m h = elim (Bool-cases (ltb (length m) max_ver_cache_per)) [
  | inl room ↦ inr (rw room (rw (lookup-insert other key e m) (rw h refl)))
  | inr full ↦ inl (rw full (rw h refl))
]

put_cached_same :
    (key : Bytes) (e : LatestEntry) (m : List (Bytes × LatestEntry))
    → lookup key (put_cached key e m) ≡ some e
unfolding put_cached lookup
put_cached_same key e m = elim (Bool-cases (ltb (length m) max_ver_cache_per)) [
  | inl room ↦ rw room (rw (lookup-insert key key e m, bytes_eq_refl key) refl)
  | inr full ↦ rw full (rw (bytes_eq_refl key) refl)
]

set_stripe_other :
    (i j : ℕ) (f : ℕ → List (Bytes × LatestEntry)) (key other : Bytes) (e : LatestEntry)
    → bytes_eq key other ≡ false
    → (lookup other (set_stripe i (put_cached key e (f i)) f j) ≡ none)
      ⊎ (lookup other (set_stripe i (put_cached key e (f i)) f j) ≡ lookup other (f j))
set_stripe_other i j f key other e h = elim (Bool-cases (i == j)) [
  | inl here ↦
      let same : i ≡ j = (==_iff i j).0 here in
      rw here (
        subst
          (λ k.
            (lookup other (put_cached key e (f i)) ≡ none)
            ⊎ (lookup other (put_cached key e (f i)) ≡ lookup other (f k)))
          same (put_cached_other key other e (f i) h))
  | inr away ↦ inr (rw away refl)
]

abbrev entry_of : Choice → LatestEntry
entry_of c = record { ver = c.winner; tombstone = c.tombstone }

own_cached :
    (s : Store) (r : StoredRecord) (kind : ℕ) (c : Choice)
    → get_cached (write r kind c s) r.namespace r.logical_key ≡ some (entry_of c)
unfolding get_cached write
own_cached s r kind c =
    let i = stripe_idx r.namespace r.logical_key in
    rw (==_refl i)
      (put_cached_same (cache_key r.namespace r.logical_key) (entry_of c) (s.latest_ver i))

pub own_row :
    (s : Store) (r : StoredRecord) (kind : ℕ) (c : Choice)
    → lookup (latest_key r.namespace r.logical_key) (write r kind c s).meta
      ≡ some (pointer_of r c, engine_expiry c.expiry c.tombstone)
unfolding write
own_row s r kind c =
    let key = latest_key r.namespace r.logical_key in
    rw
      (
        lookup-insert key key (pointer_of r c, engine_expiry c.expiry c.tombstone) s.meta,
        bytes_eq_refl key,
      )
      refl

pub own_pointer :
    (s : Store) (r : StoredRecord) (kind : ℕ) (c : Choice)
    → engine_expiry c.expiry c.tombstone ≡ pos 0
    → get_pointer (write r kind c s) r.namespace r.logical_key ≡ some (pointer_of r c)
unfolding get_pointer
own_pointer s r kind c h = rw (own_row s r kind c) (
    shown-first_of (write r kind c s).engine_ms (pointer_of r c)
      (engine_expiry c.expiry c.tombstone) h)

own-Agrees :
    (s : Store) (r : StoredRecord) (kind : ℕ) (c : Choice)
    → engine_expiry c.expiry c.tombstone ≡ pos 0
    → Agrees
        (get_cached (write r kind c s) r.namespace r.logical_key)
        (get_pointer (write r kind c s) r.namespace r.logical_key)
unfolding pointer_of
own-Agrees s r kind c h = rw (own_cached s r kind c, own_pointer s r kind c h) (refl, refl)

-- A name and a key that are not both those of the record.
module _ (s : Store) (r : StoredRecord) (kind : ℕ) (c : Choice) (k : IsCoherent s)
    (name : IsName r.namespace) (namespace key : Bytes) (n : IsName namespace)
    (lasts : engine_expiry c.expiry c.tombstone ≡ pos 0) where
  other_pointer :
      bytes_eq (cache_key r.namespace r.logical_key) (cache_key namespace key) ≡ false
      → get_pointer (write r kind c s) namespace key ≡ get_pointer s namespace key
  unfolding get_pointer write
  other_pointer h =
      elim (Bool-cases
        (bytes_eq (latest_key r.namespace r.logical_key) (latest_key namespace key))) [
          | inl same ↦
              let (p, q) =
                latest_key-injective r.namespace namespace r.logical_key key name.short n.short (
                  (bytes_eq_iff (latest_key r.namespace r.logical_key) (latest_key namespace key)).0
                    same) in
              let z : bytes_eq (cache_key r.namespace r.logical_key) (cache_key namespace key)
                  ≡ true =
                rw (p, q) (bytes_eq_refl (cache_key namespace key)) in
              ground arith
          | inr away ↦
              rw
                (
                  lookup-insert (latest_key namespace key) (latest_key r.namespace r.logical_key)
                      (pointer_of r c, engine_expiry c.expiry c.tombstone) s.meta,
                  away,
                )
                refl
        ]

  other_cached :
      bytes_eq (cache_key r.namespace r.logical_key) (cache_key namespace key) ≡ false
      → (get_cached (write r kind c s) namespace key ≡ none)
        ⊎ (get_cached (write r kind c s) namespace key ≡ get_cached s namespace key)
  unfolding get_cached write
  other_cached h =
      set_stripe_other (stripe_idx r.namespace r.logical_key) (stripe_idx namespace key)
        s.latest_ver (cache_key r.namespace r.logical_key) (cache_key namespace key) (entry_of c) h

  write-Agrees :
      Agrees
        (get_cached (write r kind c s) namespace key)
        (get_pointer (write r kind c s) namespace key)
  write-Agrees =
      elim (Bool-cases (bytes_eq (cache_key r.namespace r.logical_key) (cache_key namespace key))) [
        | inl same ↦
            let (p, q) =
              cache_key-injective r.namespace namespace r.logical_key key name.no_zero n.no_zero (
                (bytes_eq_iff (cache_key r.namespace r.logical_key) (cache_key namespace key)).0
                  same) in
            let w : Store = write r kind c s in
            subst (λ x. Agrees (get_cached w x key) (get_pointer w x key)) p
              (subst (λ y. Agrees (get_cached w r.namespace y) (get_pointer w r.namespace y)) q
                (own-Agrees s r kind c lasts))
        | inr away ↦ elim (other_cached away) [
          | inl nothing ↦ rw nothing tt
          | inr kept ↦ rw (kept, other_pointer away) (k.agrees namespace key n)
        ]
      ]

keeps-IsCoherent :
    (s : Store) (r : StoredRecord) (kind : ℕ)
    → IsCoherent s
    → IsName r.namespace
    → engine_expiry (choose s r).expiry (choose s r).tombstone ≡ pos 0
    → IsCoherent (apply s r kind).0
unfolding apply
keeps-IsCoherent s r kind k name lasts = record {
  agrees = λ namespace key n. write-Agrees s r kind (choose s r) k name namespace key n lasts;
}

-- Every application of a record without an expiry, whose namespace has no zero byte, to a store in which
-- no row has an expiry keeps the cache coherent, and gives no row an expiry.
pub apply-IsCoherent :
    (s : Store) (r : StoredRecord) (kind : ℕ)
    → IsCoherent s
    → IsTimeless s
    → IsName r.namespace
    → r.expires_at_unix_ms ≡ none
    → IsCoherent (apply s r kind).0 × IsTimeless (apply s r kind).0
apply-IsCoherent s r kind k t name lasts =
    (keeps-IsCoherent s r kind k name (engine_lasts s r t lasts), apply-IsTimeless s r kind t lasts)
