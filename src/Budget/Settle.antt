-- ===== src/Budget/Settle.antt =====
-- `applyBudReport`, `applyBudReturn`, `applyBudExpire`, `applyBudTombGC` and `applyBudReconcile`.
use wave_span.Base.{
  ltb, not, ◌&&◌, ◌||◌, Bool, false, Bytes, bytes_eq, Option, none, some, length, drop, is_empty,
  if◌then◌else◌,
}
use wave_span.Base.Int.{ℤ, pos, ltb_ℤ}
use wave_span.Base.Int64.{add64, sub64, clamp_i64}
use wave_span.Budget.{
  PoolRec, LeaseRec, reason_return, reason_expire, Reply, Item, Budget, Sentinel, set_pool,
  get_lease, set_lease, del_lease, get_tomb, set_tomb, del_tomb, del_bud_exp, set_bud_tomb_gc,
  del_bud_tomb_gc,
}
use wave_span.Budget.Wire.{get_i64}

-- Both sides name a holder, and they differ.
unfoldable pub holder_conflict : Bytes → LeaseRec → Bool
holder_conflict caller l =
    not (is_empty caller) && (not (is_empty l.holder) && not (bytes_eq caller l.holder))

-- The reported total, clamped to the lease's amount.
unfoldable pub folded : ℤ → LeaseRec → ℤ
folded reported l = if ltb_ℤ l.amount reported then l.amount else reported

-- `delta` units go from leased out to spent, attested by the holder.
unfoldable pub book : ℤ → PoolRec → PoolRec
book delta p = record p {
  leased_out = sub64 p.leased_out delta;
  spent = add64 p.spent delta;
  spent_reported = add64 p.spent_reported delta;
}

unfoldable pub fold_report : Bytes → ℤ → LeaseRec → PoolRec → Budget → Budget
unfolding folded book set_pool set_lease
fold_report id reported l p b =
    let total = folded reported l in
    set_lease id (record l { spent = total }) (set_pool (book (sub64 total l.spent) p) b)

unfoldable pub report : Bytes → ℤ → Bytes → Budget → Budget × Reply
unfolding get_lease
report id total caller b = elim (get_lease id b) [
  | none ↦ (b, Reply.sentinel Sentinel.no_lease)
  | some l ↦
      if holder_conflict caller l
      then (b, Reply.sentinel Sentinel.wrong_holder)
      else if not (ltb_ℤ l.spent total)
      then (b, Reply.value (sub64 l.amount l.spent))
      else elim b.pool [
        | none ↦ (b, Reply.missing_pool)
        | some p ↦ (fold_report id total l p b, Reply.value (sub64 l.amount (folded total l)))
      ]
]

-- Val: cumulative(8) | holder.
unfoldable pub apply_bud_report : Option Item → Budget → Budget × Reply
apply_bud_report none b = (b, Reply.short_command)
apply_bud_report (some c) b =
    if is_empty c.key || ltb (length c.val) 8
    then (b, Reply.short_command)
    else report c.key (get_i64 c.val) (drop 8 c.val) b

-- The final report of a return, if it brings one that is larger.
unfoldable pub final_spent : Option ℤ → LeaseRec → ℤ
unfolding folded
final_spent none l = l.spent
final_spent (some reported) l = if ltb_ℤ l.spent reported then folded reported l else l.spent

unfoldable pub final_pool : Option ℤ → LeaseRec → PoolRec → PoolRec
unfolding folded book
final_pool none l p = p
final_pool (some reported) l p =
    if ltb_ℤ l.spent reported then book (sub64 (folded reported l) l.spent) p else p

-- The attested remainder goes back to available.
unfoldable pub credit : ℤ → PoolRec → PoolRec
credit rem p = record p { available = add64 p.available rem; leased_out = sub64 p.leased_out rem }

-- The settled row of a timed lease: its tombstone, and the index entries.
unfoldable pub bury_timed : Bytes → LeaseRec → ℤ → PoolRec → Budget → Budget
unfolding del_bud_exp set_tomb set_bud_tomb_gc
bury_timed id l spent p b =
    if ltb_ℤ (pos 0) l.reclaim_not_before_ms
    then set_bud_tomb_gc id (add64 l.reclaim_not_before_ms p.dedup_retry_window_ms) (
        set_tomb id (record { final_spent = spent; reason = reason_return })
          (del_bud_exp id l.reclaim_not_before_ms b))
    else b

unfoldable pub settle_return : Bytes → Option ℤ → LeaseRec → PoolRec → Budget → Budget × Reply
unfolding final_spent final_pool credit bury_timed set_pool del_lease
settle_return id reported l p b =
    let spent = final_spent reported l in
    let rem = sub64 l.amount spent in
    let q = credit rem (final_pool reported l p) in
    (bury_timed id l spent q (del_lease id (set_pool q b)), Reply.value rem)

-- The report and the holder of a return.
abbrev pub reported : Option (ℤ × Bytes) → Option ℤ
reported none = none
reported (some (cumulative, holder)) = some cumulative

unfoldable pub conflict : Option (ℤ × Bytes) → LeaseRec → Bool
unfolding holder_conflict
conflict none l = false
conflict (some (cumulative, holder)) l = holder_conflict holder l

unfoldable pub return_lease : Bytes → Option (ℤ × Bytes) → Budget → Budget × Reply
unfolding get_tomb get_lease
return_lease id final b = elim (get_tomb id b) [
  | some _ ↦ (b, Reply.value (pos 0))
  | none ↦ elim (get_lease id b) [
    | none ↦ (b, Reply.sentinel Sentinel.no_lease)
    | some l ↦ if conflict final l then (b, Reply.sentinel Sentinel.wrong_holder) else elim b.pool [
      | none ↦ (b, Reply.missing_pool)
      | some p ↦ settle_return id (reported final) l p b
    ]
  ]
]

-- A Val shorter than 8 bytes carries neither report nor holder.
unfoldable pub apply_bud_return : Option Item → Budget → Budget × Reply
apply_bud_return none b = (b, Reply.short_command)
apply_bud_return (some c) b =
    if is_empty c.key
    then (b, Reply.short_command)
    else return_lease c.key
        (if ltb (length c.val) 8 then none else some (get_i64 c.val, drop 8 c.val)) b

-- The whole remainder is booked as spent; nothing goes back to available.
unfoldable pub debit : ℤ → PoolRec → PoolRec
debit rem p = record p { spent = add64 p.spent rem; leased_out = sub64 p.leased_out rem }

unfoldable pub settle_expire : Bytes → LeaseRec → PoolRec → Budget → Budget × Reply
unfolding debit set_pool del_lease del_bud_exp set_tomb set_bud_tomb_gc
settle_expire id l p b =
    let rem = sub64 l.amount l.spent in
    let q = debit rem p in
    let b' = del_lease id (set_pool q b) in
    let b'' =
      if ltb_ℤ (pos 0) l.reclaim_not_before_ms
      then del_bud_exp id l.reclaim_not_before_ms b'
      else b' in
    (
      set_bud_tomb_gc id (add64 l.reclaim_not_before_ms p.dedup_retry_window_ms)
          (set_tomb id (record { final_spent = l.spent; reason = reason_expire }) b''),
      Reply.value rem,
    )

-- The tombstone of a lease whose row is already gone.
unfoldable pub bury_absent : Bytes → ℤ → Budget → Budget
unfolding set_tomb set_bud_tomb_gc
bury_absent id sweep_now_ms b =
    let b' = set_tomb id (record { final_spent = pos 0; reason = reason_expire }) b in
    elim b.pool [
      | none ↦ b'
      | some p ↦ set_bud_tomb_gc id (add64 sweep_now_ms p.dedup_retry_window_ms) b'
    ]

unfoldable pub expire : Bytes → ℤ → Budget → Budget × Reply
unfolding get_tomb get_lease bury_absent
expire id sweep_now_ms b = elim (get_tomb id b) [
  | some _ ↦ (b, Reply.value (pos 0))
  | none ↦ elim (get_lease id b) [
    | none ↦ (bury_absent id sweep_now_ms b, Reply.value (pos 0))
    | some l ↦
        if ltb_ℤ sweep_now_ms l.reclaim_not_before_ms
        then (b, Reply.value (sub64 l.amount l.spent))
        else elim b.pool [ none ↦ (b, Reply.missing_pool) | some p ↦ settle_expire id l p b ]
  ]
]

unfoldable pub apply_bud_expire : Option Item → Budget → Budget × Reply
apply_bud_expire none b = (b, Reply.short_command)
apply_bud_expire (some c) b =
    if is_empty c.key || ltb (length c.val) 8
    then (b, Reply.short_command)
    else expire c.key (get_i64 c.val) b

unfoldable pub apply_bud_tomb_gc : Option Item → Budget → Budget × Reply
unfolding del_tomb del_bud_tomb_gc
apply_bud_tomb_gc none b = (b, Reply.short_command)
apply_bud_tomb_gc (some c) b =
    if is_empty c.key || ltb (length c.val) 8
    then (b, Reply.short_command)
    else (del_bud_tomb_gc c.key (get_i64 c.val) (del_tomb c.key b), Reply.value (pos 0))

-- Spent is set to the acknowledged total, within [spent_reported, cap].
unfoldable pub reconcile_pool : ℤ → PoolRec → PoolRec
reconcile_pool true_acked p =
    let target = clamp_i64 true_acked p.spent_reported p.cap in
    let available = sub64 (sub64 p.cap target) p.leased_out in
    record p { spent = target; available = if ltb_ℤ available (pos 0) then pos 0 else available }

unfoldable pub reconcile : ℤ → Budget → Budget × Reply
unfolding reconcile_pool set_pool
reconcile true_acked b = elim b.pool [
  | none ↦ (b, Reply.sentinel Sentinel.no_budget)
  | some p ↦ (
    set_pool (reconcile_pool true_acked p) b,
    Reply.recovered (sub64 p.spent (clamp_i64 true_acked p.spent_reported p.cap)),
  )
]

unfoldable pub apply_bud_reconcile : Option Item → Budget → Budget × Reply
apply_bud_reconcile none b = (b, Reply.short_command)
apply_bud_reconcile (some c) b =
    if ltb (length c.val) 8 then (b, Reply.short_command) else reconcile (get_i64 c.val) b
