-- ===== src/Budget/Codec.antt =====
-- The records of a budget as bytes: encodePool, decodePool, encodeLease, decodeLease, encodeTomb,
-- decodeTomb, encodeGrantResult, decodeGrantResult, and the chunks of internal/collections/command.go.
-- A buffer that is filled at fixed offsets is the concatenation of its fields.
use wave_span.Base.{
  ℕ, ◌/◌, ◌%◌, ◌^◌, ltb, Bytes, Option, none, some, [], ◌∷◌, ◌++◌, length, drop, take,
  if◌then◌else◌,
}
use wave_span.Base.Int.{ℤ, pos}
use wave_span.Budget.{PoolRec, LeaseRec, TombRec, GrantResult}
use wave_span.Budget.Wire.{be_read, get_u64, get_i64, put_u64, put_i64}
use wave_span.Budget.Grant.{first_byte}

unfoldable pub put_u32 : ℕ → Bytes
put_u32 n = n / 2 ^ 24 % 256 ∷ n / 2 ^ 16 % 256 ∷ n / 2 ^ 8 % 256 ∷ n % 256 ∷ []

-- `appendChunk`: the length as a uint32, then the bytes.
unfoldable pub append_chunk : Bytes → Bytes
unfolding put_u32
append_chunk b = put_u32 (length b % 2 ^ 32) ++ b

-- `takeChunk`: the chunk, and what is behind it.
unfoldable pub take_chunk : Bytes → Option (Bytes × Bytes)
take_chunk b =
    if ltb (length b) 4
    then none
    else let n = be_read 4 0 b in
      let rest = drop 4 b in
      if ltb (length rest % 2 ^ 32) n then none else some (take n rest, drop n rest)

unfoldable pub encode_pool : PoolRec → Bytes
encode_pool p =
    put_i64 p.cap
    ++ put_i64 p.available
    ++ put_i64 p.leased_out
    ++ put_i64 p.spent
    ++ put_u64 p.epoch
    ++ p.mode
      ∷ (put_i64 p.rate
          ++ put_i64 p.burst
          ++ put_i64 p.last_refill_ms
          ++ put_i64 p.tokens
          ++ put_i64 p.self_guard_ms
          ++ put_i64 p.max_pause_ms
          ++ put_i64 p.default_ttl_ms
          ++ put_i64 p.dedup_retry_window_ms
          ++ put_i64 p.spent_reported)

-- A field of a tail, which an older record lacks.
unfoldable pub tail_i64 : ℕ → ℕ → Bytes → ℤ
tail_i64 needed offset b = if ltb (length b) needed then pos 0 else get_i64 (drop offset b)

unfoldable pub decode_pool : Bytes → Option PoolRec
unfolding tail_i64
decode_pool b =
    if ltb (length b) 57
    then none
    else some (record {
      cap = get_i64 b;
      available = get_i64 (drop 8 b);
      leased_out = get_i64 (drop 16 b);
      spent = get_i64 (drop 24 b);
      epoch = get_u64 (drop 32 b);
      mode = first_byte (drop 40 b);
      rate = get_i64 (drop 41 b);
      burst = get_i64 (drop 49 b);
      last_refill_ms = tail_i64 73 57 b;
      tokens = tail_i64 73 65 b;
      self_guard_ms = tail_i64 105 73 b;
      max_pause_ms = tail_i64 105 81 b;
      default_ttl_ms = tail_i64 105 89 b;
      dedup_retry_window_ms = tail_i64 105 97 b;
      spent_reported = tail_i64 113 105 b;
    })

unfoldable pub encode_lease : LeaseRec → Bytes
unfolding append_chunk
encode_lease l =
    put_i64 l.amount
    ++ put_i64 l.spent
    ++ put_u64 l.epoch
    ++ (append_chunk l.holder
        ++ (put_i64 l.granted_ms ++ put_i64 l.reclaim_not_before_ms ++ put_i64 l.expires_ms))

-- The lease, from the fixed part and from the holder and the rest.
unfoldable pub lease_of : Bytes → Option (Bytes × Bytes) → Option LeaseRec
unfolding tail_i64
lease_of b none = none
lease_of b (some (holder, rest)) = some (record {
  holder = holder;
  amount = get_i64 b;
  spent = get_i64 (drop 8 b);
  epoch = get_u64 (drop 16 b);
  granted_ms = tail_i64 24 0 rest;
  reclaim_not_before_ms = tail_i64 24 8 rest;
  expires_ms = tail_i64 24 16 rest;
})

unfoldable pub decode_lease : Bytes → Option LeaseRec
unfolding take_chunk lease_of
decode_lease b = if ltb (length b) 24 then none else lease_of b (take_chunk (drop 24 b))

unfoldable pub encode_tomb : TombRec → Bytes
encode_tomb t = put_i64 t.final_spent ++ t.reason ∷ []

unfoldable pub decode_tomb : Bytes → Option TombRec
decode_tomb b =
    if ltb (length b) 9
    then none
    else some (record { final_spent = get_i64 b; reason = first_byte (drop 8 b) })

unfoldable pub encode_grant_result : GrantResult → Bytes
encode_grant_result r =
    put_i64 r.granted
    ++ put_i64 r.granted_ms
    ++ put_i64 r.ttl_ms
    ++ put_i64 r.self_guard_ms
    ++ put_i64 r.max_pause_ms

unfoldable pub decode_grant_result : Bytes → GrantResult
unfolding tail_i64
decode_grant_result b = record {
  granted = tail_i64 8 0 b;
  granted_ms = tail_i64 16 8 b;
  ttl_ms = tail_i64 40 16 b;
  self_guard_ms = tail_i64 40 24 b;
  max_pause_ms = tail_i64 40 32 b;
}
