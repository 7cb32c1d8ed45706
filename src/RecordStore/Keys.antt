-- ===== src/RecordStore/Keys.antt =====
-- The keys of internal/recordstore/encode.go and ttl.go, and the stripes.
use wave_span.Base.{
  ℕ, zero, suc, ◌+◌, ◌-◌, ◌*◌, ◌/◌, ◌%◌, ◌^◌, ◌<◌, ◌≡◌, refl, sym, ap, ◌∙◌, arith, ltb, false,
  append_assoc, IsWithout, split_sep, Bool-cases, inl, inr, Bytes, [], ◌∷◌, ◌++◌, length, drop,
  take, take-append, drop-append, if◌then◌else◌,
}
use Prim.Native.Nat.{bit_xor}
use native.Mathlib.Nat.{pow-suc}
use wave_span.Base.Int.{ℤ, pos}
use wave_span.Base.Int64.{div64, mul64}
use wave_span.Version.{Version}
use wave_span.Budget.Wire.{put_u64, put_i64}
use wave_span.Budget.Codec.{put_u32}

-- `binary.PutUvarint`: seven bits in a byte, the last byte below 128; ten bytes hold every uint64.
unfoldable pub put_uvarint : ℕ → ℕ → Bytes
put_uvarint zero n = []
put_uvarint (suc bytes) n =
    let rest = put_uvarint bytes (n / 128) in if ltb n 128 then n ∷ [] else (n % 128 + 128) ∷ rest

unfoldable pub len_prefix : Bytes → Bytes
unfolding put_uvarint
len_prefix b = put_uvarint 10 (length b) ++ b

unfoldable pub latest_key : Bytes → Bytes → Bytes
unfolding len_prefix
latest_key namespace user_key = len_prefix namespace ++ user_key

unfoldable pub encode_version : Version → Bytes
unfolding len_prefix
encode_version v =
    put_u64 v.hlc_physical_ms
    ++ put_u32 v.hlc_logical
    ++ len_prefix v.writer_cluster_id
    ++ len_prefix v.writer_member_id
    ++ put_u64 v.writer_sequence

unfoldable pub data_key : Bytes → Bytes → Version → Bytes
unfolding len_prefix encode_version
data_key namespace user_key v = len_prefix namespace ++ len_prefix user_key ++ encode_version v

abbrev pub ttl_sentinel : ℕ
ttl_sentinel = 255

abbrev pub ttl_bucket_ms : ℤ
ttl_bucket_ms = pos 60000

unfoldable pub ttl_bucket_start : ℤ → ℤ
ttl_bucket_start expires_ms = mul64 (div64 expires_ms ttl_bucket_ms) ttl_bucket_ms

unfoldable pub ttl_key : ℤ → Bytes → Bytes → Bytes
unfolding ttl_bucket_start len_prefix
ttl_key expires_ms namespace user_key =
    ttl_sentinel ∷ (put_i64 (ttl_bucket_start expires_ms) ++ len_prefix namespace ++ user_key)

-- The key of the version cache.
unfoldable pub cache_key : Bytes → Bytes → Bytes
cache_key namespace user_key = namespace ++ 0 ∷ user_key

abbrev pub num_stripes : ℕ
num_stripes = 512

-- FNV-1a on uint32.
unfoldable pub fnv : ℕ → Bytes → ℕ
fnv h [] = h
fnv h (b ∷ bs) = fnv (bit_xor h b * 16777619 % 2 ^ 32) bs

unfoldable pub stripe_idx : Bytes → Bytes → ℕ
unfolding fnv
stripe_idx namespace key = fnv (fnv 2166136261 namespace) key % num_stripes

-- Reading a uvarint back: its value, and what is behind it.
abbrev read_uvarint : ℕ → Bytes → ℕ × Bytes
read_uvarint zero bs = (0, bs)
read_uvarint (suc bytes) [] = (0, [])
read_uvarint (suc bytes) (b ∷ bs) =
    let (v, rest) = read_uvarint bytes bs in
    if ltb b 128 then (b, bs) else (v * 128 + (b - 128), rest)

read_uvarint-put_uvarint :
    (bytes n : ℕ) (rest : Bytes)
    → n < 128 ^ bytes
    → read_uvarint bytes (put_uvarint bytes n ++ rest) ≡ (n, rest)
unfolding put_uvarint
read_uvarint-put_uvarint zero n rest h = ground arith
read_uvarint-put_uvarint (suc bytes) n rest h = elim (Bool-cases (ltb n 128)) [
  | inl last ↦ rw (last, last) refl
  | inr more ↦
      let ih = read_uvarint-put_uvarint bytes (n / 128) rest (omega (arith, pow-suc 128 bytes)) in
      let long : ltb (n % 128 + 128) 128 ≡ false = ground arith in
      rw (more, long, ih) (ap (λ v. (v, rest)) (omega arith))
]

read-len_prefix :
    (xs us : Bytes)
    → length xs < 2 ^ 63
    → read_uvarint 10 (len_prefix xs ++ us) ≡ (length xs, xs ++ us)
unfolding len_prefix
read-len_prefix xs us h =
    ap (read_uvarint 10) (append_assoc (put_uvarint 10 (length xs)) xs us)
    ∙ read_uvarint-put_uvarint 10 (length xs) (xs ++ us) (omega arith)

split_len_prefix :
    (xs ys us vs : Bytes)
    → length xs < 2 ^ 63
    → length ys < 2 ^ 63
    → len_prefix xs ++ us ≡ len_prefix ys ++ vs
    → (xs ≡ ys) × (us ≡ vs)
split_len_prefix xs ys us vs h k e =
    let p : ◌≡◌ {A = ℕ × Bytes} (length xs, xs ++ us) (length ys, ys ++ vs) =
      sym (read-len_prefix xs us h) ∙ (ap (read_uvarint 10) e ∙ read-len_prefix ys vs k) in
    (
      sym (take-append xs us) ∙ (ap (λ (q : ℕ × Bytes). take q.0 q.1) p ∙ take-append ys vs),
      sym (drop-append xs us) ∙ (ap (λ (q : ℕ × Bytes). drop q.0 q.1) p ∙ drop-append ys vs),
    )

-- Pointer keys name one namespace and one key.
pub latest_key-injective :
    (n n' k k' : Bytes)
    → length n < 2 ^ 63
    → length n' < 2 ^ 63
    → latest_key n k ≡ latest_key n' k'
    → (n ≡ n') × (k ≡ k')
unfolding latest_key
latest_key-injective n n' k k' h h' e = split_len_prefix n n' k k' h h' e

-- Cache keys do so for namespaces without a zero byte.
pub cache_key-injective :
    (n n' k k' : Bytes)
    → IsWithout 0 n
    → IsWithout 0 n'
    → cache_key n k ≡ cache_key n' k'
    → (n ≡ n') × (k ≡ k')
unfolding cache_key
cache_key-injective n n' k k' h h' e = split_sep 0 n n' k k' h h' e
