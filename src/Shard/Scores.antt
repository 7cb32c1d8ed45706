-- ===== src/Shard/Scores.antt =====
-- `sortableScore` and `unsortableScore` of internal/collections/command.go, on float64 bit patterns.
use wave_span.Base.{ℕ, ◌+◌, ◌-◌, ◌^◌, ltb, Bytes, if◌then◌else◌}
use wave_span.Budget.Wire.{get_u64, put_u64}

-- The sign bit set: every bit is flipped, which is 2^64 - 1 minus the pattern; else the sign bit is
-- set.
unfoldable pub sortable_score : ℕ → Bytes
sortable_score bits = put_u64 (if ltb bits (2 ^ 63) then bits + 2 ^ 63 else 2 ^ 64 - 1 - bits)

unfoldable pub unsortable_score : Bytes → ℕ
unsortable_score b =
    let bits = get_u64 b in if ltb bits (2 ^ 63) then 2 ^ 64 - 1 - bits else bits - 2 ^ 63
