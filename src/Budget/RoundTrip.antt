-- ===== src/Budget/RoundTrip.antt =====
-- What is encoded is decoded again.
use wave_span.Base.{
  ℕ, ◌+◌, ◌%◌, ◌^◌, ◌≤◌, ◌<◌, ◌≡◌, refl, ap, ◌∙◌, arith, false, ltb, Bytes, some, [], ◌∷◌, ◌++◌,
  length, length-append, drop, take-append, drop-append,
}
use wave_span.Base.Int.{ℤ, pos_part, neg_part}
use wave_span.Base.Int64.{from_u64, to_u64}
use wave_span.Budget.{PoolRec, LeaseRec, TombRec, GrantResult}
use wave_span.Budget.Wire.{be_read, get_u64, get_i64, put_u64, put_i64}
use wave_span.Budget.Codec.{
  put_u32, append_chunk, take_chunk, encode_pool, decode_pool, encode_lease, lease_of, decode_lease,
  encode_tomb, decode_tomb, encode_grant_result, decode_grant_result, tail_i64,
}

pub get_u64-put_u64 : (n : ℕ) (rest : Bytes) → n < 2 ^ 64 → get_u64 (put_u64 n ++ rest) ≡ n
unfolding get_u64 put_u64
get_u64-put_u64 n rest h = omega arith

-- The values of an int64.
abbrev pub IsInt64 : ℤ → Type 0
IsInt64 x = (pos_part x < 2 ^ 63) × (neg_part x ≤ 2 ^ 63)

from_u64-to_u64 : (x : ℤ) → IsInt64 x → from_u64 (to_u64 x) ≡ x
from_u64-to_u64 x h = ground arith

pub get_i64-put_i64 : (x : ℤ) (rest : Bytes) → IsInt64 x → get_i64 (put_i64 x ++ rest) ≡ x
unfolding get_i64 put_i64
get_i64-put_i64 x rest h =
    ap from_u64 (get_u64-put_u64 (to_u64 x) rest (omega arith)) ∙ from_u64-to_u64 x h

head_i64-put_i64 :
    (offset : ℕ) (b : Bytes) (x : ℤ) (rest : Bytes)
    → drop offset b ≡ put_i64 x ++ rest
    → IsInt64 x
    → get_i64 (drop offset b) ≡ x
head_i64-put_i64 offset b x rest e k = ap get_i64 e ∙ get_i64-put_i64 x rest k

head_u64-put_u64 :
    (offset : ℕ) (b : Bytes) (n : ℕ) (rest : Bytes)
    → drop offset b ≡ put_u64 n ++ rest
    → n < 2 ^ 64
    → get_u64 (drop offset b) ≡ n
head_u64-put_u64 offset b n rest e k = ap get_u64 e ∙ get_u64-put_u64 n rest k

-- A field of a tail that is there.
tail_i64-put_i64 :
    (needed offset : ℕ) (b : Bytes) (x : ℤ) (rest : Bytes)
    → ltb (length b) needed ≡ false
    → drop offset b ≡ put_i64 x ++ rest
    → IsInt64 x
    → tail_i64 needed offset b ≡ x
unfolding tail_i64
tail_i64-put_i64 needed offset b x rest h e k = rw h (ap get_i64 e ∙ get_i64-put_i64 x rest k)

-- The tombstone's number is an int64.
pub decode_tomb-encode_tomb :
    (t : TombRec) → IsInt64 t.final_spent → decode_tomb (encode_tomb t) ≡ some t
unfolding decode_tomb encode_tomb put_i64 put_u64
decode_tomb-encode_tomb t h = simp (get_i64-put_i64 t.final_spent (t.reason ∷ []) h) refl

pub record IsInt64Grant (r : GrantResult) : Type 0 where
  pub granted : IsInt64 r.granted
  pub granted_ms : IsInt64 r.granted_ms
  pub ttl_ms : IsInt64 r.ttl_ms
  pub self_guard_ms : IsInt64 r.self_guard_ms
  pub max_pause_ms : IsInt64 r.max_pause_ms

-- The reply of a grant whose five numbers are int64 values is read back as it was written.
pub decode_grant_result-encode_grant_result :
    (r : GrantResult) → IsInt64Grant r → decode_grant_result (encode_grant_result r) ≡ r
unfolding decode_grant_result encode_grant_result put_i64 put_u64
decode_grant_result-encode_grant_result r h =
    let b = encode_grant_result r in
    λ i. record {
      granted = tail_i64-put_i64 8 0 b r.granted _ refl refl h.granted i;
      granted_ms = tail_i64-put_i64 16 8 b r.granted_ms _ refl refl h.granted_ms i;
      ttl_ms = tail_i64-put_i64 40 16 b r.ttl_ms _ refl refl h.ttl_ms i;
      self_guard_ms = tail_i64-put_i64 40 24 b r.self_guard_ms _ refl refl h.self_guard_ms i;
      max_pause_ms = tail_i64-put_i64 40 32 b r.max_pause_ms [] refl refl h.max_pause_ms i;
    }

-- The fields of a pool in the ranges of their Go types.
pub record IsPoolRange (p : PoolRec) : Type 0 where
  pub cap : IsInt64 p.cap
  pub available : IsInt64 p.available
  pub leased_out : IsInt64 p.leased_out
  pub spent : IsInt64 p.spent
  pub epoch : p.epoch < 2 ^ 64
  pub rate : IsInt64 p.rate
  pub burst : IsInt64 p.burst
  pub last_refill_ms : IsInt64 p.last_refill_ms
  pub tokens : IsInt64 p.tokens
  pub self_guard_ms : IsInt64 p.self_guard_ms
  pub max_pause_ms : IsInt64 p.max_pause_ms
  pub default_ttl_ms : IsInt64 p.default_ttl_ms
  pub dedup_retry_window_ms : IsInt64 p.dedup_retry_window_ms
  pub spent_reported : IsInt64 p.spent_reported

-- A stored pool whose fields are in the ranges of their types is read back as it was, field by field.
pub decode_pool-encode_pool : (p : PoolRec) → IsPoolRange p → decode_pool (encode_pool p) ≡ some p
unfolding decode_pool encode_pool put_i64 put_u64
decode_pool-encode_pool p h =
    let b = encode_pool p in
    λ i. some (record {
      cap = head_i64-put_i64 0 b p.cap _ refl h.cap i;
      available = head_i64-put_i64 8 b p.available _ refl h.available i;
      leased_out = head_i64-put_i64 16 b p.leased_out _ refl h.leased_out i;
      spent = head_i64-put_i64 24 b p.spent _ refl h.spent i;
      epoch = head_u64-put_u64 32 b p.epoch _ refl h.epoch i;
      mode = p.mode;
      rate = head_i64-put_i64 41 b p.rate _ refl h.rate i;
      burst = head_i64-put_i64 49 b p.burst _ refl h.burst i;
      last_refill_ms = tail_i64-put_i64 73 57 b p.last_refill_ms _ refl refl h.last_refill_ms i;
      tokens = tail_i64-put_i64 73 65 b p.tokens _ refl refl h.tokens i;
      self_guard_ms = tail_i64-put_i64 105 73 b p.self_guard_ms _ refl refl h.self_guard_ms i;
      max_pause_ms = tail_i64-put_i64 105 81 b p.max_pause_ms _ refl refl h.max_pause_ms i;
      default_ttl_ms = tail_i64-put_i64 105 89 b p.default_ttl_ms _ refl refl h.default_ttl_ms i;
      dedup_retry_window_ms =
          tail_i64-put_i64 105 97 b p.dedup_retry_window_ms _ refl refl h.dedup_retry_window_ms i;
      spent_reported = tail_i64-put_i64 113 105 b p.spent_reported [] refl refl h.spent_reported i;
    })

-- A chunk of fewer than 2^32 bytes is taken off again, whatever follows, if all of it has fewer
-- than 2^32 bytes.
pub take_chunk-append_chunk :
    (b rest : Bytes)
    → length b + length rest < 2 ^ 32
    → take_chunk (append_chunk b ++ rest) ≡ some (b, rest)
unfolding take_chunk append_chunk put_u32
take_chunk-append_chunk b rest h =
    let n : be_read 4 0 (append_chunk b ++ rest) ≡ length b = omega arith in
    let all = length-append b rest in
    let header : ltb (length (append_chunk b ++ rest)) 4 ≡ false = ground arith in
    let body : ltb (length (b ++ rest) % 2 ^ 32) (length b) ≡ false = ground arith in
    rw (take_chunk, header, n, body, take-append b rest, drop-append b rest) refl

pub record IsLeaseRange (l : LeaseRec) : Type 0 where
  pub holder : length l.holder + 24 < 2 ^ 32
  pub amount : IsInt64 l.amount
  pub spent : IsInt64 l.spent
  pub epoch : l.epoch < 2 ^ 64
  pub granted_ms : IsInt64 l.granted_ms
  pub reclaim_not_before_ms : IsInt64 l.reclaim_not_before_ms
  pub expires_ms : IsInt64 l.expires_ms

-- The timing tail of a lease.
abbrev timing : LeaseRec → Bytes
unfolding put_i64
timing l = put_i64 l.granted_ms ++ put_i64 l.reclaim_not_before_ms ++ put_i64 l.expires_ms

lease_of-encode_lease :
    (l : LeaseRec) → IsLeaseRange l → lease_of (encode_lease l) (some (l.holder, timing l)) ≡ some l
unfolding lease_of encode_lease put_i64 put_u64
lease_of-encode_lease l h =
    let b = encode_lease l in
    λ i. some (record {
      holder = l.holder;
      amount = head_i64-put_i64 0 b l.amount _ refl h.amount i;
      spent = head_i64-put_i64 8 b l.spent _ refl h.spent i;
      epoch = head_u64-put_u64 16 b l.epoch _ refl h.epoch i;
      granted_ms = tail_i64-put_i64 24 0 (timing l) l.granted_ms _ refl refl h.granted_ms i;
      reclaim_not_before_ms =
          tail_i64-put_i64 24 8 (timing l) l.reclaim_not_before_ms _ refl refl
            h.reclaim_not_before_ms i;
      expires_ms = tail_i64-put_i64 24 16 (timing l) l.expires_ms [] refl refl h.expires_ms i;
    })

-- A stored lease whose fields are in the ranges of their types, with a holder that a chunk can carry,
-- is read back as it was, field by field.
pub decode_lease-encode_lease :
    (l : LeaseRec) → IsLeaseRange l → decode_lease (encode_lease l) ≡ some l
unfolding decode_lease encode_lease put_i64 put_u64
decode_lease-encode_lease l h =
    let chunk : take_chunk (drop 24 (encode_lease l)) ≡ some (l.holder, timing l) =
      take_chunk-append_chunk l.holder (timing l) h.holder in
    let long : ltb (length (encode_lease l)) 24 ≡ false = ground arith in
    rw long (ap (lease_of (encode_lease l)) chunk ∙ lease_of-encode_lease l h)
