-- ===== src/RecordStore/Namespace.antt =====
-- The namespace of a key: `NamespaceOfKey` (internal/recordstore/selection.go) and `parseTTLKey`.
use wave_span.Base.{
  ℕ, zero, suc, ◌+◌, ◌-◌, ◌*◌, ◌^◌, ◌<◌, ◌==◌, ◌≡◌, refl, arith, ltb, not, ◌||◌, true, false, Bool,
  Bytes, Option, none, some, [], ◌∷◌, ◌++◌, append_assoc, length, length-append, drop, take,
  take-append, drop-append, if◌then◌else◌, sym, ap, ◌∙◌,
}
use wave_span.Base.Int.{ℤ}
use wave_span.Version.{Version}
use wave_span.Budget.Wire.{put_i64, put_u64}
use wave_span.RecordStore.Keys.{
  put_uvarint, len_prefix, latest_key, data_key, ttl_key, ttl_sentinel, encode_version,
}

-- One more byte of a uvarint, over what the rest reads as.
abbrev pub more_bits : ℕ → Option (ℕ × Bytes) → Option (ℕ × Bytes)
more_bits b none = none
more_bits b (some (v, rest)) = some (v * 128 + (b - 128), rest)

-- `binary.Uvarint`: none where it answers n <= 0, for a text that ends early or a value past 64 bits.
unfoldable pub take_uvarint : ℕ → Bytes → Option (ℕ × Bytes)
take_uvarint zero bs = none
take_uvarint (suc bytes) [] = none
take_uvarint (suc bytes) (b ∷ bs) =
    let rest = take_uvarint bytes bs in if ltb b 128 then some (b, bs) else more_bits b rest

abbrev pub fits_u64 : Option (ℕ × Bytes) → Option (ℕ × Bytes)
fits_u64 none = none
fits_u64 (some (v, rest)) = if ltb v (2 ^ 64) then some (v, rest) else none

-- The namespace behind its length, and what follows; none if the length is past the end.
abbrev pub cut : Option (ℕ × Bytes) → Option (Bytes × Bytes)
cut none = none
cut (some (n, rest)) = if ltb (length rest) n then none else some (take n rest, drop n rest)

unfoldable pub split_namespace : Bytes → Option (Bytes × Bytes)
unfolding take_uvarint
split_namespace key = cut (fits_u64 (take_uvarint 10 key))

abbrev pub starts_ttl : Bytes → Bool
starts_ttl [] = false
starts_ttl (b ∷ bs) = b == ttl_sentinel

unfoldable pub parse_ttl_key : Bytes → Option (Bytes × Bytes)
unfolding split_namespace
parse_ttl_key k =
    if ltb (length k) 9 || not (starts_ttl k) then none else split_namespace (drop 9 k)

abbrev pub namespace_in : Option (Bytes × Bytes) → Option Bytes
namespace_in none = none
namespace_in (some (namespace, rest)) = some namespace

unfoldable pub namespace_of_key : Bytes → Option Bytes
unfolding parse_ttl_key split_namespace
namespace_of_key [] = none
namespace_of_key (b ∷ bs) =
    if b == ttl_sentinel
    then namespace_in (parse_ttl_key (b ∷ bs))
    else namespace_in (split_namespace (b ∷ bs))

-- A namespace shorter than 128 bytes is one byte of length and its text.
split-len_prefix :
    (namespace rest : Bytes)
    → length namespace < 128
    → split_namespace (len_prefix namespace ++ rest) ≡ some (namespace, rest)
unfolding split_namespace len_prefix put_uvarint take_uvarint
split-len_prefix namespace rest h =
    let one : ltb (length namespace) 128 ≡ true = ground arith in
    let wide : ltb (length namespace) (2 ^ 64) ≡ true = ground arith in
    let there : ltb (length (namespace ++ rest)) (length namespace) ≡ false =
      ground (arith, length-append namespace rest) in
    rw (one, one, wide, there, take-append namespace rest, drop-append namespace rest) refl

one_byte :
    (namespace rest : Bytes)
    → length namespace < 128
    → len_prefix namespace ++ rest ≡ length namespace ∷ (namespace ++ rest)
unfolding len_prefix put_uvarint
one_byte namespace rest h =
    let one : ltb (length namespace) 128 ≡ true = ground arith in rw one refl

plain_key :
    (namespace rest : Bytes)
    → length namespace < 128
    → namespace_of_key (len_prefix namespace ++ rest) ≡ some namespace
unfolding namespace_of_key
plain_key namespace rest h =
    let other : (length namespace == ttl_sentinel) ≡ false = ground arith in
    let split =
      ap namespace_in (
        ap split_namespace (sym (one_byte namespace rest h)) ∙ split-len_prefix namespace rest h) in
    rw (one_byte namespace rest h, other) split

ttl_index_key :
    (expires_ms : ℤ) (namespace key : Bytes)
    → length namespace < 128
    → namespace_of_key (ttl_key expires_ms namespace key) ≡ some namespace
unfolding namespace_of_key parse_ttl_key ttl_key put_i64 put_u64
ttl_index_key expires_ms namespace key h =
    let long : ltb (length (ttl_key expires_ms namespace key)) 9 ≡ false = ground arith in
    rw long (ap namespace_in (split-len_prefix namespace key h))

-- Every kind of key gives its namespace back, where that is shorter than 128 bytes: a latest-pointer
-- key, a versioned-record key, and a key of the time-to-live index.
pub namespace_of_key-keys :
    (namespace key : Bytes) (v : Version) (expires_ms : ℤ)
    → length namespace < 128
    → (namespace_of_key (latest_key namespace key) ≡ some namespace)
      × (namespace_of_key (data_key namespace key v) ≡ some namespace)
      × (namespace_of_key (ttl_key expires_ms namespace key) ≡ some namespace)
unfolding latest_key data_key
namespace_of_key-keys namespace key v expires_ms h = (
  plain_key namespace key h,
  ap namespace_of_key (append_assoc (len_prefix namespace) (len_prefix key) (encode_version v))
      ∙ plain_key namespace (len_prefix key ++ encode_version v) h,
  ttl_index_key expires_ms namespace key h,
)
