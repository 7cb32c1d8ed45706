-- ===== src/Version/Clock.antt =====
-- The hybrid logical clock of internal/version/hlc.go. The mutex makes each method one step; the wall
-- clock is read once in each and is an argument.
use wave_span.Base.{ℕ, zero, suc, ◌+◌, ◌-◌, ◌%◌, ◌^◌, ltb, ◌==◌, ◌&&◌, if◌then◌else◌, true, false}
use wave_span.Version.{Timestamp}

abbrev pub max_logical : ℕ
max_logical = 0xFFFF

pub record Clock : Type 0 where
  pub last : Timestamp
  pub max_skew_ms : ℕ  -- uint64
  pub skew_rejects : ℕ  -- uint64

pub record SkewError : Type 0 where
  pub remote_ms : ℕ
  pub wall_ms : ℕ
  pub skew_ms : ℕ

pub data UpdateResult : Type 0 where
  accepted : Timestamp → UpdateResult
  rejected : SkewError → UpdateResult

unfoldable pub new_clock : ℕ → Clock
new_clock max_skew_ms = record {
  last = record { physical_ms = 0; logical = 0 };
  max_skew_ms = if max_skew_ms == 0 then 500 else max_skew_ms;
  skew_rejects = 0;
}

-- `max64` and `max32`.
unfoldable pub max_uint : ℕ → ℕ → ℕ
max_uint a b = if ltb b a then a else b

-- The `for` of `normalize`: each round takes 65536 from `logical`.
unfoldable pub normalize_loop : ℕ → ℕ → ℕ → Timestamp
normalize_loop zero phys logical = record { physical_ms = phys; logical = logical }
normalize_loop (suc rounds) phys logical = elim (ltb max_logical logical) [
  | true ↦ normalize_loop rounds ((phys + 1) % 2 ^ 64) (logical - (max_logical + 1))
  | false ↦ record { physical_ms = phys; logical = logical }
]

-- At most 2^16 rounds are needed for a uint32; `logical` rounds are always enough.
unfoldable pub normalize : ℕ → ℕ → Timestamp
normalize phys logical = normalize_loop logical phys logical

unfoldable pub now : Clock → ℕ → Clock × Timestamp
unfolding max_uint
now c wall =
    let phys = max_uint c.last.physical_ms wall in
    let logical = if phys == c.last.physical_ms then (c.last.logical + 1) % 2 ^ 32 else 0 in
    let last = normalize phys logical in (record c { last = last }, last)

-- The logical counter that `Update` picks.
unfoldable pub merged_logical : ℕ → Timestamp → Timestamp → ℕ
unfolding max_uint
merged_logical phys last remote =
    if phys == last.physical_ms && phys == remote.physical_ms
    then (max_uint last.logical remote.logical + 1) % 2 ^ 32
    else if phys == last.physical_ms
    then (last.logical + 1) % 2 ^ 32
    else if phys == remote.physical_ms
    then (remote.logical + 1) % 2 ^ 32
    else 0

unfoldable pub update : Clock → Timestamp → ℕ → Clock × UpdateResult
unfolding max_uint
update c remote wall =
    if ltb ((wall + c.max_skew_ms) % 2 ^ 64) remote.physical_ms
    then (
      record c { skew_rejects = (c.skew_rejects + 1) % 2 ^ 64 },
      UpdateResult.rejected
          (record { remote_ms = remote.physical_ms; wall_ms = wall; skew_ms = c.max_skew_ms }),
    )
    else let phys = max_uint (max_uint c.last.physical_ms remote.physical_ms) wall in
      let last = normalize phys (merged_logical phys c.last remote) in
      (record c { last = last }, UpdateResult.accepted last)
