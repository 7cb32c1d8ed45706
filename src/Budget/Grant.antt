-- ===== src/Budget/Grant.antt =====
-- `applyBudInit` and `applyBudGrant`.
use wave_span.Base.{
  ℕ, ◌==◌, ltb, not, ◌&&◌, ◌||◌, Bool, Bytes, Option, none, some, [], ◌∷◌, length, drop, is_empty,
  if◌then◌else◌,
}
use wave_span.Base.Int.{ℤ, pos, ltb_ℤ}
use wave_span.Base.Int64.{add64, sub64, mul64, div64, min64, clamp_i64, eq_ℤ}
use wave_span.Budget.{
  PoolRec, LeaseRec, Reply, Item, Budget, Sentinel, mode_strict, max_clock_skew_ms,
  pacing_burst_ceil, min_dedup_retry_window_ms, type_budget, set_pool, get_lease, set_lease,
  get_tomb, set_bud_exp, pacing_max_elapsed_ms,
}
use wave_span.Budget.Wire.{get_i64}

-- A budget definition: the fixed part of the key, then the timing tail (0 where it is missing).
pub record Definition : Type 0 where
  pub mode : ℕ
  pub capacity : ℤ
  pub rate : ℤ
  pub burst : ℤ
  pub self_guard_ms : ℤ
  pub max_pause_ms : ℤ
  pub default_ttl_ms : ℤ
  pub dedup_retry_window_ms : ℤ

abbrev pub first_byte : Bytes → ℕ
first_byte [] = 0
first_byte (b ∷ bs) = b

unfoldable pub read_definition : Bytes → Definition
read_definition k =
    let timed = not (ltb (length k) 57) in
    record {
      mode = first_byte k;
      capacity = get_i64 (drop 1 k);
      rate = get_i64 (drop 9 k);
      burst = get_i64 (drop 17 k);
      self_guard_ms = if timed then get_i64 (drop 25 k) else pos 0;
      max_pause_ms = if timed then get_i64 (drop 33 k) else pos 0;
      default_ttl_ms = if timed then get_i64 (drop 41 k) else pos 0;
      dedup_retry_window_ms = if timed then get_i64 (drop 49 k) else pos 0;
    }

unfoldable pub is_bad_mode : Definition → Bool
is_bad_mode d = not (d.mode == mode_strict) || ltb_ℤ d.capacity (pos 0)

unfoldable pub is_bad_param : Definition → Bool
is_bad_param d =
    ltb_ℤ d.rate (pos 0)
    || (ltb_ℤ d.burst (pos 0)
        || (ltb_ℤ pacing_burst_ceil d.burst
            || ((ltb_ℤ (pos 0) d.default_ttl_ms && ltb_ℤ d.self_guard_ms max_clock_skew_ms)
                || (ltb_ℤ (pos 0) d.default_ttl_ms
                    && ltb_ℤ d.dedup_retry_window_ms min_dedup_retry_window_ms))))

unfoldable pub new_pool : Definition → PoolRec
new_pool d = record {
  cap = d.capacity;
  available = d.capacity;
  leased_out = pos 0;
  spent = pos 0;
  epoch = 1;
  mode = d.mode;
  rate = d.rate;
  burst = d.burst;
  last_refill_ms = pos 0;
  tokens = if ltb_ℤ (pos 0) d.rate then d.burst else pos 0;
  self_guard_ms = d.self_guard_ms;
  max_pause_ms = d.max_pause_ms;
  default_ttl_ms = d.default_ttl_ms;
  dedup_retry_window_ms = d.dedup_retry_window_ms;
  spent_reported = pos 0;
}

-- `ensureType` with the dispatch guard before it: the header is absent or already a budget's.
unfoldable pub init : Definition → Budget → Budget × Reply
unfolding is_bad_mode is_bad_param new_pool set_pool
init d b =
    if is_bad_mode d
    then (b, Reply.sentinel Sentinel.bad_mode)
    else if is_bad_param d
    then (b, Reply.sentinel Sentinel.bad_param)
    else elim b.pool [
      | some _ ↦ (b, Reply.sentinel Sentinel.exists)
      | none ↦
          if b.type == 0 || b.type == type_budget
          then (set_pool (new_pool d) (record b { type = type_budget }), Reply.value (pos 1))
          else (b, Reply.sentinel Sentinel.wrong_type)
    ]

unfoldable pub apply_bud_init : Option Item → Budget → Budget × Reply
unfolding init read_definition
apply_bud_init none b = (b, Reply.short_command)
apply_bud_init (some c) b =
    if ltb (length c.key) 25 then (b, Reply.short_command) else init (read_definition c.key) b

-- The reply to a retried grant: the stored lease with the same timing.
unfoldable pub echo : LeaseRec → Option PoolRec → Reply
echo l p =
    let ttl = if ltb_ℤ (pos 0) l.expires_ms then sub64 l.expires_ms l.granted_ms else pos 0 in
    elim p [
      | none ↦ Reply.grant (record {
        granted = l.amount;
        granted_ms = l.granted_ms;
        ttl_ms = ttl;
        self_guard_ms = pos 0;
        max_pause_ms = pos 0;
      })
      | some q ↦ Reply.grant (record {
        granted = l.amount;
        granted_ms = l.granted_ms;
        ttl_ms = ttl;
        self_guard_ms = q.self_guard_ms;
        max_pause_ms = q.max_pause_ms;
      })
    ]

-- The token bucket: accrue for the time since the last refill, within burst and unspent cap.
unfoldable pub pace : ℤ → PoolRec → PoolRec
unfolding pacing_max_elapsed_ms
pace granted_ms p =
    if ltb_ℤ (pos 0) p.rate
    then (let last = if eq_ℤ p.last_refill_ms (pos 0) then granted_ms else p.last_refill_ms in
        let elapsed =
          clamp_i64 (sub64 granted_ms last) (pos 0) (pacing_max_elapsed_ms p.rate p.burst) in
        let accrued = div64 (mul64 p.rate elapsed) (pos 1000) in
        let ceil = min64 p.burst (sub64 p.cap p.spent) in
        let tokens = min64 ceil (add64 p.tokens accrued) in
        record p {
          tokens = if ltb_ℤ tokens (pos 0) then pos 0 else tokens;
          last_refill_ms = if ltb_ℤ last granted_ms then granted_ms else last;
        })
    else p

-- What a grant of `amount` may take from a paced pool.
unfoldable pub grantable : ℤ → PoolRec → ℤ
grantable amount p =
    let wanted = if ltb_ℤ (pos 0) p.rate then min64 amount p.tokens else amount in
    if ltb_ℤ p.available wanted then p.available else wanted

-- The pool after `granted` units are leased out.
unfoldable pub lease_out : ℤ → PoolRec → PoolRec
lease_out granted p = record p {
  available = sub64 p.available granted;
  leased_out = add64 p.leased_out granted;
  tokens = if ltb_ℤ (pos 0) p.rate then sub64 p.tokens granted else p.tokens;
}

-- A timed lease carries its reclaim deadline; an untimed one carries 0.
unfoldable pub new_lease : ℤ → ℤ → ℤ → Bytes → PoolRec → LeaseRec
new_lease granted granted_ms ttl holder p =
    let timed = ltb_ℤ (pos 0) ttl in
    record {
      holder = holder;
      amount = granted;
      spent = pos 0;
      epoch = p.epoch;
      granted_ms = granted_ms;
      reclaim_not_before_ms =
          if timed
          then add64 (add64 (add64 granted_ms ttl) (mul64 (pos 3) max_clock_skew_ms)) p.max_pause_ms
          else pos 0;
      expires_ms = if timed then add64 granted_ms ttl else pos 0;
    }

unfoldable pub write_grant : Bytes → ℤ → ℤ → ℤ → Bytes → PoolRec → Budget → Budget × Reply
unfolding lease_out new_lease set_pool set_lease set_bud_exp
write_grant id granted granted_ms ttl holder p b =
    let l = new_lease granted granted_ms ttl holder p in
    let b' = set_pool (lease_out granted p) b in
    let b'' = if ltb_ℤ (pos 0) ttl then set_bud_exp id l.reclaim_not_before_ms b' else b' in
    (
      set_lease id l b'',
      Reply.grant (record {
        granted = granted;
        granted_ms = granted_ms;
        ttl_ms = ttl;
        self_guard_ms = p.self_guard_ms;
        max_pause_ms = p.max_pause_ms;
      }),
    )

-- The override, else the budget's default.
unfoldable pub effective_ttl : ℤ → PoolRec → ℤ
effective_ttl ttl_override p = if eq_ℤ ttl_override (pos 0) then p.default_ttl_ms else ttl_override

-- A timed lease of a budget whose guard band is below the clock skew.
unfoldable pub is_unguarded : ℤ → PoolRec → Bool
is_unguarded ttl p = ltb_ℤ (pos 0) ttl && ltb_ℤ p.self_guard_ms max_clock_skew_ms

-- A grant to a lease id that is neither settled nor live.
unfoldable pub grant_new : Bytes → ℤ → ℤ → ℤ → Bytes → PoolRec → Budget → Budget × Reply
unfolding effective_ttl is_unguarded
grant_new id amount granted_ms ttl_override holder p b =
    let ttl = effective_ttl ttl_override p in
    if is_unguarded ttl p
    then (b, Reply.sentinel Sentinel.bad_param)
    else let q = pace granted_ms p in
      let granted = grantable amount q in
      if ltb_ℤ (pos 0) granted
      then write_grant id granted granted_ms ttl holder q b
      else (b, Reply.sentinel Sentinel.no_capacity)

unfoldable pub grant : Bytes → ℤ → ℤ → ℤ → Bytes → Budget → Budget × Reply
unfolding get_tomb get_lease
grant id amount granted_ms ttl_override holder b =
    if ltb_ℤ amount (pos 0)
    then (b, Reply.sentinel Sentinel.no_capacity)
    else elim (get_tomb id b) [
      | some _ ↦ (b, Reply.sentinel Sentinel.settled)
      | none ↦ elim (get_lease id b) [
        | some l ↦ (b, echo l b.pool)
        | none ↦ elim b.pool [
          | none ↦ (b, Reply.sentinel Sentinel.no_budget)
          | some p ↦ grant_new id amount granted_ms ttl_override holder p b
        ]
      ]
    ]

-- Val: amount(8) | grantedMs(8) | ttlOverride(8) | holder.
unfoldable pub apply_bud_grant : Option Item → Budget → Budget × Reply
apply_bud_grant none b = (b, Reply.short_command)
apply_bud_grant (some c) b =
    if is_empty c.key || ltb (length c.val) 24
    then (b, Reply.short_command)
    else grant c.key (get_i64 c.val) (get_i64 (drop 8 c.val)) (get_i64 (drop 16 c.val))
        (drop 24 c.val) b
