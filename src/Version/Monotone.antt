-- ===== src/Version/Monotone.antt =====
-- One call of the clock: `normalize` terminates with a 16-bit counter, `Now` issues a later stamp, and
-- `Update` issues a stamp later than both of the stamps that it merges, or rejects.
use wave_span.Base.{
  ℕ, zero, suc, ◌+◌, ◌*◌, ◌/◌, ◌-◌, ◌%◌, ◌^◌, ◌≤◌, ◌<◌, ◌≡◌, refl, lt, arith, Bool-cases, ltb, ◌==◌,
  if◌then◌else◌, inl, inr,
}
use wave_span.Version.{Timestamp, compare_timestamp}
use wave_span.Version.Clock.{
  Clock, UpdateResult, max_logical, normalize_loop, normalize, now, update, merged_logical,
  max_uint,
}

-- The stamp as one number, as long as `logical` fits its 16 bits.
abbrev pub ticks : Timestamp → ℕ
ticks t = t.physical_ms * 65536 + t.logical

pub record IsNormalOf (phys logical : ℕ) (r : Timestamp) : Type 0 where
  pub fits : r.logical ≤ max_logical
  pub carried : ticks r ≡ phys * 65536 + logical

normalize_loop_lem :
    (rounds phys logical : ℕ)
    → logical < rounds * 65536 + 65536
    → phys + logical / 65536 < 2 ^ 64
    → IsNormalOf phys logical (normalize_loop rounds phys logical)
unfolding normalize_loop
normalize_loop_lem zero phys logical h k = ground arith
normalize_loop_lem (suc rounds) phys logical h k =
    ground (arith, normalize_loop_lem rounds ((phys + 1) % 2 ^ 64) (logical - 65536))

-- With room in the physical field, `normalize` ends with `logical` within 16 bits, and what it takes
-- from `logical` it adds to the physical part.
pub normalize-IsNormalOf :
    (phys logical : ℕ)
    → phys + logical / 65536 < 2 ^ 64
    → IsNormalOf phys logical (normalize phys logical)
unfolding normalize
normalize-IsNormalOf phys logical h = normalize_loop_lem logical phys logical (omega arith) h

-- Facts of a stamp that was just issued.
pub record IsLater (t r : Timestamp) : Type 0 where
  pub later : compare_timestamp t r ≡ lt
  pub fits : r.logical ≤ max_logical

IsLater-of :
    (t r : Timestamp) (phys logical : ℕ)
    → IsNormalOf phys logical r
    → t.physical_ms ≤ phys
    → (t.physical_ms ≡ phys → t.logical < logical)
    → IsLater t r
unfolding compare_timestamp
IsLater-of t r phys logical n h k = record { later = ground arith; fits = n.fits }

-- `Now`, with a 16-bit last counter and room in the physical fields, issues a stamp later than the last
-- one, not behind the wall clock, at most one millisecond ahead of both, with a 16-bit counter, and
-- keeps it as the last stamp.
pub now-IsLater :
    (c : Clock) (wall : ℕ)
    → c.last.logical ≤ max_logical
    → c.last.physical_ms + 1 < 2 ^ 64
    → wall + 1 < 2 ^ 64
    → IsLater c.last (now c wall).1
      × (wall ≤ (now c wall).1.physical_ms)
      × ((now c wall).0.last ≡ (now c wall).1)
      × ((now c wall).1.physical_ms ≤ max_uint c.last.physical_ms wall + 1)
unfolding now max_uint
now-IsLater c wall f h k =
    let phys = max_uint c.last.physical_ms wall in
    let logical = if phys == c.last.physical_ms then (c.last.logical + 1) % 2 ^ 32 else 0 in
    let n : IsNormalOf phys logical (normalize phys logical) =
      normalize-IsNormalOf phys logical (ground arith) in
    (
      IsLater-of c.last (normalize phys logical) phys logical n (ground arith) (λ e. ground arith),
      ground arith,
      refl,
      ground arith,
    )

max_uint_bounds :
    (a b w : ℕ)
    → (a ≤ max_uint (max_uint a b) w)
      × (b ≤ max_uint (max_uint a b) w)
      × (w ≤ max_uint (max_uint a b) w)
      × (max_uint (max_uint a b) w ≤ a + (b + w))
      × ((k : ℕ) → a ≤ k → b ≤ k → w ≤ k → max_uint (max_uint a b) w ≤ k)
unfolding max_uint
max_uint_bounds a b w = (ground arith, ground arith, ground arith, ground arith, λ k. ground arith)

-- The counter that `Update` picks, before it is carried: past both counters of the same millisecond,
-- and at most 65536 while the remote counter is not the largest uint32.
merged_logical_bounds :
    (phys : ℕ) (last remote : Timestamp)
    → last.logical ≤ max_logical
    → remote.logical + 1 < 2 ^ 32
    → (last.physical_ms ≡ phys → last.logical < merged_logical phys last remote)
      × (remote.physical_ms ≡ phys → remote.logical < merged_logical phys last remote)
      × (merged_logical phys last remote < 2 ^ 32)
unfolding merged_logical
merged_logical_bounds phys last remote h k = (λ e. ground arith, λ e. ground arith, ground arith)

-- What `Update` leaves and answers.
abbrev pub UpdateSpec : Clock → Timestamp → ℕ → Clock → UpdateResult → Type 0
UpdateSpec c remote wall c' (UpdateResult.accepted r) =
    (remote.physical_ms ≤ wall + c.max_skew_ms)
    × IsLater c.last r
    × IsLater remote r
    × (wall ≤ r.physical_ms)
    × (c' ≡ record c { last = r })
UpdateSpec c remote wall c' (UpdateResult.rejected e) =
    (wall + c.max_skew_ms < remote.physical_ms)
    × (e ≡ record { remote_ms = remote.physical_ms; wall_ms = wall; skew_ms = c.max_skew_ms })
    × (c'.last ≡ c.last)
    × (c'.skew_rejects ≡ (c.skew_rejects + 1) % 2 ^ 64)

-- `Update`, with a 16-bit last counter, room in the physical fields and a remote counter below the
-- largest uint32, either rejects a remote stamp beyond wall + skew, reporting the three numbers,
-- counting it and leaving the last stamp alone, or issues and keeps a stamp that is later than the
-- last one and than the remote one, and not behind the wall clock.
pub update_lem :
    (c : Clock) (remote : Timestamp) (wall : ℕ)
    → c.last.logical ≤ max_logical
    → c.last.physical_ms + 65536 < 2 ^ 64
    → wall + c.max_skew_ms + 65536 < 2 ^ 64
    → remote.logical + 1 < 2 ^ 32
    → UpdateSpec c remote wall (update c remote wall).0 (update c remote wall).1
unfolding update
update_lem c remote wall f h k l =
    elim (Bool-cases (ltb ((wall + c.max_skew_ms) % 2 ^ 64) remote.physical_ms)) [
      | inl far ↦ rw far (ground arith, refl, refl, refl)
      | inr near ↦ rw near (
          let last = c.last in
          let phys = max_uint (max_uint c.last.physical_ms remote.physical_ms) wall in
          let logical = merged_logical phys c.last remote in
          let top = max_uint_bounds c.last.physical_ms remote.physical_ms wall in
          let b = merged_logical_bounds phys c.last remote f l in
          let n : IsNormalOf phys logical (normalize phys logical) =
            normalize-IsNormalOf phys logical (ground (arith, top.4 (2 ^ 64 - 65537))) in
          (
            ground arith,
            IsLater-of c.last (normalize phys logical) phys logical n top.0 b.0,
            IsLater-of remote (normalize phys logical) phys logical n top.1 b.1,
            ground arith,
            refl,
          ))
    ]

-- One event moves the physical part at most 65536 ms past the largest of last, wall + skew.
pub update_bound :
    (c : Clock) (remote : Timestamp) (wall top : ℕ)
    → c.last.logical ≤ max_logical
    → c.last.physical_ms ≤ top
    → wall + c.max_skew_ms ≤ top
    → top + 65536 < 2 ^ 64
    → remote.logical + 1 < 2 ^ 32
    → ((update c remote wall).0.last.physical_ms ≤ top + 65536)
      × ((update c remote wall).0.last.logical ≤ max_logical)
      × ((update c remote wall).0.max_skew_ms ≡ c.max_skew_ms)
unfolding update
update_bound c remote wall top f h w k l =
    elim (Bool-cases (ltb ((wall + c.max_skew_ms) % 2 ^ 64) remote.physical_ms)) [
      | inl far ↦ rw far (ground arith, f, refl)
      | inr near ↦ rw near (
          let phys = max_uint (max_uint c.last.physical_ms remote.physical_ms) wall in
          let logical = merged_logical phys c.last remote in
          let bound = (max_uint_bounds c.last.physical_ms remote.physical_ms wall).4 top in
          let b = merged_logical_bounds phys c.last remote f l in
          let n : IsNormalOf phys logical (normalize phys logical) =
            normalize-IsNormalOf phys logical (ground arith) in
          (ground arith, n.fits, refl))
    ]

-- A remote stamp of the last stamp's millisecond that carries the largest uint32 counter makes the
-- merged counter wrap to 0, where the last stamp is not behind the wall clock, within the skew bound,
-- and has a positive 16-bit counter: the clock goes back behind that last stamp, and the caller gets
-- the earlier stamp with no error.
pub update_regresses :
    (c : Clock) (remote : Timestamp) (wall : ℕ)
    → wall + c.max_skew_ms < 2 ^ 64
    → wall ≤ c.last.physical_ms
    → c.last.physical_ms ≤ wall + c.max_skew_ms
    → 0 < c.last.logical
    → c.last.logical ≤ max_logical
    → remote ≡ record { physical_ms = c.last.physical_ms; logical = 2 ^ 32 - 1 }
    → (compare_timestamp (update c remote wall).0.last c.last ≡ lt)
      × ((update c remote wall).1
          ≡ UpdateResult.accepted (record { physical_ms = c.last.physical_ms; logical = 0 }))
unfolding update compare_timestamp merged_logical max_uint normalize normalize_loop
update_regresses c remote wall w h k p f e = rw e (ground arith)

pub now_bound :
    (c : Clock) (wall top : ℕ)
    → c.last.logical ≤ max_logical
    → c.last.physical_ms ≤ top
    → wall ≤ top
    → top + 65536 < 2 ^ 64
    → ((now c wall).0.last.physical_ms ≤ top + 65536)
      × ((now c wall).0.last.logical ≤ max_logical)
      × ((now c wall).0.max_skew_ms ≡ c.max_skew_ms)
now_bound c wall top f h w k =
    let n = now-IsLater c wall f (omega arith) (omega arith) in
    (rw n.2 (unfold max_uint in ground arith), rw n.2 n.0.fits, unfold now in refl)
