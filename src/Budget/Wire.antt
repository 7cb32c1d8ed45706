-- ===== src/Budget/Wire.antt =====
-- The byte layouts of internal/collections/budget.go: big-endian int64 fields at fixed offsets.
use wave_span.Base.{ℕ, zero, suc, ◌+◌, ◌*◌, ◌/◌, ◌%◌, ◌^◌, Bytes, [], ◌∷◌}
use wave_span.Base.Int.{ℤ}
use wave_span.Base.Int64.{to_u64, from_u64}

-- `binary.BigEndian.Uint64`: the first eight bytes.
abbrev pub be_read : ℕ → ℕ → Bytes → ℕ
be_read zero acc bs = acc
be_read (suc n) acc [] = acc
be_read (suc n) acc (b ∷ bs) = be_read n (acc * 256 + b % 256) bs

unfoldable pub get_u64 : Bytes → ℕ
get_u64 b = be_read 8 0 b

unfoldable pub get_i64 : Bytes → ℤ
unfolding get_u64
get_i64 b = from_u64 (get_u64 b)

-- `binary.BigEndian.PutUint64`.
unfoldable pub put_u64 : ℕ → Bytes
put_u64 n =
    n / 2 ^ 56 % 256
    ∷ n / 2 ^ 48 % 256
    ∷ n / 2 ^ 40 % 256
    ∷ n / 2 ^ 32 % 256
    ∷ n / 2 ^ 24 % 256
    ∷ n / 2 ^ 16 % 256
    ∷ n / 2 ^ 8 % 256
    ∷ n % 256
    ∷ []

unfoldable pub put_i64 : ℤ → Bytes
unfolding put_u64
put_i64 v = put_u64 (to_u64 v)
