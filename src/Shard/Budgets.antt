-- ===== src/Shard/Budgets.antt =====
-- The apply functions of the budget on the shard's rows: applyBudInit to applyBudReconcile of
-- internal/collections/budget.go. The guards and the movements of money are those of Budget, on whose
-- rows the theorems on the money stand.
use wave_span.Base.{
  ℕ, ◌==◌, ltb, not, ◌||◌, Bool, true, false, Bytes, Option, none, some, codes, List, [], ◌∷◌,
  length, drop, is_empty, if◌then◌else◌,
}
use wave_span.Base.Int.{ℤ, pos, ltb_ℤ}
use wave_span.Base.Int64.{add64, sub64, to_u64, clamp_i64}
use wave_span.Budget.{PoolRec, LeaseRec, TombRec, Reply, Sentinel, reason_return, reason_expire}
use wave_span.Budget.Wire.{get_i64, put_i64}
use wave_span.Budget.Codec.{encode_grant_result}
use wave_span.Budget.Grant.{
  Definition, read_definition, is_bad_mode, is_bad_param, new_pool, echo, pace, grantable,
  lease_out, new_lease, effective_ttl, is_unguarded,
}
use wave_span.Budget.Settle.{
  holder_conflict, folded, book, final_spent, final_pool, credit, debit, reconcile_pool,
}
use wave_span.Shard.{Item, UpdateCtx, ProposeResult, Fault, type_budget}
use wave_span.Shard.Exec.{Exec, Res, pure, lift, reads, modify, ◌>>=◌, ◌>>◌}
use wave_span.Shard.Context.{ensure_type}
use wave_span.Shard.Leases.{
  get_pool, set_pool, get_lease, set_lease, del_lease, get_tomb, set_tomb, del_tomb, set_bud_exp,
  del_bud_exp, set_bud_tomb_gc, del_bud_tomb_gc,
}

abbrev op_bud_init : ℕ
op_bud_init = 16

abbrev op_bud_grant : ℕ
op_bud_grant = 17

abbrev op_bud_report : ℕ
op_bud_report = 18

abbrev op_bud_return : ℕ
op_bud_return = 19

abbrev op_bud_expire : ℕ
op_bud_expire = 20

abbrev op_bud_tomb_gc : ℕ
op_bud_tomb_gc = 21

abbrev pub wrong_type : Bytes
wrong_type = codes "WRONGTYPE"

abbrev pub sentinel : Bytes → ProposeResult
sentinel mark = record { value = 0; reply = mark }

abbrev sentinel_mark : Sentinel → Bytes
sentinel_mark Sentinel.no_capacity = codes "BUDNOCAP"
sentinel_mark Sentinel.exists = codes "BUDEXISTS"
sentinel_mark Sentinel.no_lease = codes "BUDNOLEASE"
sentinel_mark Sentinel.no_budget = codes "BUDNOBUDGET"
sentinel_mark Sentinel.bad_mode = codes "BUDBADMODE"
sentinel_mark Sentinel.bad_param = codes "BUDBADPARAM"
sentinel_mark Sentinel.settled = codes "BUDSETTLED"
sentinel_mark Sentinel.wrong_holder = codes "BUDWRONGHOLDER"
sentinel_mark Sentinel.wrong_type = wrong_type

-- The result of a proposal that a reply stands for.
unfoldable pub reply_result : Reply → Res ProposeResult
unfolding encode_grant_result
reply_result (Reply.value v) = Res.ok (record { value = to_u64 v; reply = [] })
reply_result (Reply.grant r) =
    Res.ok (record { value = to_u64 r.granted; reply = encode_grant_result r })
reply_result (Reply.recovered v) = Res.ok (record { value = to_u64 v; reply = put_i64 v })
reply_result (Reply.sentinel s) = Res.ok (sentinel (sentinel_mark s))
reply_result Reply.short_command = Res.fail Fault.short_command
reply_result Reply.missing_pool = Res.fail Fault.missing_pool

unfoldable pub replies : Reply → Exec UpdateCtx ProposeResult
unfolding reply_result lift
replies r = lift (reply_result r)

abbrev refuse : Sentinel → Exec UpdateCtx ProposeResult
refuse s = replies (Reply.sentinel s)

module _ (ns coll : Bytes) where
  unfoldable pub open_pool : Definition → Bool → Exec UpdateCtx ProposeResult
  unfolding set_pool replies modify ◌>>=◌ new_pool
  open_pool d false = refuse Sentinel.wrong_type
  open_pool d true = do modify (set_pool ns coll (new_pool d)); replies (Reply.value (pos 1))

  unfoldable pub define_new : Definition → Option PoolRec → Exec UpdateCtx ProposeResult
  unfolding open_pool ensure_type replies ◌>>=◌
  define_new d (some p) = refuse Sentinel.exists
  define_new d none = do fits ← ensure_type ns coll type_budget; open_pool d fits

  unfoldable pub define : Definition → Exec UpdateCtx ProposeResult
  unfolding define_new get_pool is_bad_mode is_bad_param replies reads ◌>>=◌
  define d =
      if is_bad_mode d
      then refuse Sentinel.bad_mode
      else if is_bad_param d
      then refuse Sentinel.bad_param
      else do p ← reads (get_pool ns coll); define_new d p

  unfoldable pub write_grant : Bytes → ℤ → ℤ → ℤ → Bytes → PoolRec → Exec UpdateCtx ProposeResult
  unfolding lease_out new_lease set_pool set_lease set_bud_exp replies pure modify ◌>>=◌
  write_grant id granted granted_ms ttl holder p = do
    let l = new_lease granted granted_ms ttl holder p
    modify (set_pool ns coll (lease_out granted p))
    if ltb_ℤ (pos 0) ttl then modify (set_bud_exp ns coll id l.reclaim_not_before_ms) else pure tt
    modify (set_lease ns coll id l)
    replies (
        Reply.grant (record {
          granted = granted;
          granted_ms = granted_ms;
          ttl_ms = ttl;
          self_guard_ms = p.self_guard_ms;
          max_pause_ms = p.max_pause_ms;
        }))

  unfoldable pub grant_from :
      Bytes → ℤ → ℤ → ℤ → Bytes → Option PoolRec → Exec UpdateCtx ProposeResult
  unfolding write_grant effective_ttl is_unguarded pace grantable replies
  grant_from id amount granted_ms ttl_override holder none = refuse Sentinel.no_budget
  grant_from id amount granted_ms ttl_override holder (some p) =
      let ttl = effective_ttl ttl_override p in
      let q = pace granted_ms p in
      let granted = grantable amount q in
      if is_unguarded ttl p
      then refuse Sentinel.bad_param
      else if ltb_ℤ (pos 0) granted
      then write_grant id granted granted_ms ttl holder q
      else refuse Sentinel.no_capacity

  -- A live lease of the id is echoed; or else the pool grants.
  unfoldable pub grant_unless_live :
      Bytes → ℤ → ℤ → ℤ → Bytes → Option LeaseRec → Exec UpdateCtx ProposeResult
  unfolding grant_from get_pool echo replies reads ◌>>=◌
  grant_unless_live id amount granted_ms ttl_override holder (some l) = do
    p ← reads (get_pool ns coll)
    replies (echo l p)
  grant_unless_live id amount granted_ms ttl_override holder none = do
    p ← reads (get_pool ns coll)
    grant_from id amount granted_ms ttl_override holder p

  unfoldable pub grant_unless_settled :
      Bytes → ℤ → ℤ → ℤ → Bytes → Option TombRec → Exec UpdateCtx ProposeResult
  unfolding grant_unless_live get_lease replies reads ◌>>=◌
  grant_unless_settled id amount granted_ms ttl_override holder (some t) = refuse Sentinel.settled
  grant_unless_settled id amount granted_ms ttl_override holder none = do
    l ← reads (get_lease ns coll id)
    grant_unless_live id amount granted_ms ttl_override holder l

  unfoldable pub grant : Bytes → ℤ → ℤ → ℤ → Bytes → Exec UpdateCtx ProposeResult
  unfolding grant_unless_settled get_tomb replies reads ◌>>=◌
  grant id amount granted_ms ttl_override holder =
      if ltb_ℤ amount (pos 0) then refuse Sentinel.no_capacity else do
        t ← reads (get_tomb ns coll id)
        grant_unless_settled id amount granted_ms ttl_override holder t

  -- The report is folded into the pool and the lease.
  unfoldable pub fold_report : Bytes → ℤ → LeaseRec → Option PoolRec → Exec UpdateCtx ProposeResult
  unfolding folded book set_pool set_lease replies modify ◌>>=◌
  fold_report id reported l none = replies Reply.missing_pool
  fold_report id reported l (some p) = do
    let total = folded reported l
    modify (set_pool ns coll (book (sub64 total l.spent) p))
    modify (set_lease ns coll id (record l { spent = total }))
    replies (Reply.value (sub64 l.amount total))

  unfoldable pub report_on : Bytes → ℤ → Bytes → Option LeaseRec → Exec UpdateCtx ProposeResult
  unfolding fold_report get_pool holder_conflict replies reads ◌>>=◌
  report_on id total caller none = refuse Sentinel.no_lease
  report_on id total caller (some l) =
      if holder_conflict caller l
      then refuse Sentinel.wrong_holder
      else if not (ltb_ℤ l.spent total)
      then replies (Reply.value (sub64 l.amount l.spent))
      else do p ← reads (get_pool ns coll); fold_report id total l p

  unfoldable pub bury : Bytes → LeaseRec → ℤ → PoolRec → Exec UpdateCtx (Unit {0})
  unfolding del_bud_exp set_tomb set_bud_tomb_gc modify ◌>>=◌
  bury id l spent p = do
    modify (del_bud_exp ns coll id l.reclaim_not_before_ms)
    modify (set_tomb ns coll id (record { final_spent = spent; reason = reason_return }))
    modify (set_bud_tomb_gc ns coll id (add64 l.reclaim_not_before_ms p.dedup_retry_window_ms))

  -- A timed lease leaves its tombstone and the index entries.
  unfoldable pub bury_timed : Bytes → LeaseRec → ℤ → PoolRec → Exec UpdateCtx (Unit {0})
  unfolding bury pure
  bury_timed id l spent p =
      if ltb_ℤ (pos 0) l.reclaim_not_before_ms then bury id l spent p else pure tt

  unfoldable pub settle_return :
      Bytes → Option ℤ → LeaseRec → Option PoolRec → Exec UpdateCtx ProposeResult
  unfolding final_spent final_pool credit bury_timed set_pool del_lease replies modify ◌>>=◌
  settle_return id reported l none = replies Reply.missing_pool
  settle_return id reported l (some p) = do
    let spent = final_spent reported l
    let rem = sub64 l.amount spent
    modify (set_pool ns coll (credit rem (final_pool reported l p)))
    modify (del_lease ns coll id)
    bury_timed id l spent p
    replies (Reply.value rem)

  unfoldable pub return_live :
      Bytes → Option ℤ → Bytes → Option LeaseRec → Exec UpdateCtx ProposeResult
  unfolding settle_return get_pool holder_conflict replies reads ◌>>=◌
  return_live id reported caller none = refuse Sentinel.no_lease
  return_live id reported caller (some l) =
      if holder_conflict caller l
      then refuse Sentinel.wrong_holder
      else do p ← reads (get_pool ns coll); settle_return id reported l p

  unfoldable pub return_lease :
      Bytes → Option ℤ → Bytes → Option TombRec → Exec UpdateCtx ProposeResult
  unfolding return_live get_lease replies reads ◌>>=◌
  return_lease id reported caller (some t) = replies (Reply.value (pos 0))
  return_lease id reported caller none = do
    l ← reads (get_lease ns coll id)
    return_live id reported caller l

  -- The tombstone of a lease whose row is gone; a pool schedules its collection.
  unfoldable pub bury_absent : Bytes → ℤ → Option PoolRec → Exec UpdateCtx ProposeResult
  unfolding set_tomb set_bud_tomb_gc replies modify ◌>>=◌
  bury_absent id now none = do
    modify (set_tomb ns coll id (record { final_spent = pos 0; reason = reason_expire }))
    replies (Reply.value (pos 0))
  bury_absent id now (some p) = do
    modify (set_tomb ns coll id (record { final_spent = pos 0; reason = reason_expire }))
    modify (set_bud_tomb_gc ns coll id (add64 now p.dedup_retry_window_ms))
    replies (Reply.value (pos 0))

  unfoldable pub settle_expire : Bytes → LeaseRec → Option PoolRec → Exec UpdateCtx ProposeResult
  unfolding debit set_pool del_lease del_bud_exp set_tomb set_bud_tomb_gc replies pure modify ◌>>=◌
  settle_expire id l none = replies Reply.missing_pool
  settle_expire id l (some p) = do
    let rem = sub64 l.amount l.spent
    modify (set_pool ns coll (debit rem p))
    modify (del_lease ns coll id)
    if ltb_ℤ (pos 0) l.reclaim_not_before_ms
        then modify (del_bud_exp ns coll id l.reclaim_not_before_ms)
        else pure tt
    modify (set_tomb ns coll id (record { final_spent = l.spent; reason = reason_expire }))
    modify (set_bud_tomb_gc ns coll id (add64 l.reclaim_not_before_ms p.dedup_retry_window_ms))
    replies (Reply.value rem)

  unfoldable pub expire_live :
      Bytes → ℤ → Option LeaseRec → Option PoolRec → Exec UpdateCtx ProposeResult
  unfolding bury_absent settle_expire replies
  expire_live id now none p = bury_absent id now p
  expire_live id now (some l) p =
      if ltb_ℤ now l.reclaim_not_before_ms
      then replies (Reply.value (sub64 l.amount l.spent))
      else settle_expire id l p

  unfoldable pub expire_lease : Bytes → ℤ → Option TombRec → Exec UpdateCtx ProposeResult
  unfolding expire_live get_lease get_pool replies reads ◌>>=◌
  expire_lease id now (some t) = replies (Reply.value (pos 0))
  expire_lease id now none = do
    l ← reads (get_lease ns coll id)
    p ← reads (get_pool ns coll)
    expire_live id now l p

  unfoldable pub reconcile : ℤ → Option PoolRec → Exec UpdateCtx ProposeResult
  unfolding reconcile_pool set_pool replies modify ◌>>=◌
  reconcile true_acked none = refuse Sentinel.no_budget
  reconcile true_acked (some p) = do
    modify (set_pool ns coll (reconcile_pool true_acked p))
    replies (Reply.recovered (sub64 p.spent (clamp_i64 true_acked p.spent_reported p.cap)))

  unfoldable pub bud_init : Item → Exec UpdateCtx ProposeResult
  unfolding define replies
  bud_init it =
      if ltb (length it.key) 25
      then replies Reply.short_command
      else define (read_definition it.key)

  -- Val: amount(8) | grantedMs(8) | ttlOverride(8) | holder.
  unfoldable pub bud_grant : Item → Exec UpdateCtx ProposeResult
  unfolding grant replies
  bud_grant it =
      if is_empty it.key || ltb (length it.val) 24
      then replies Reply.short_command
      else grant it.key (get_i64 it.val) (get_i64 (drop 8 it.val)) (get_i64 (drop 16 it.val))
          (drop 24 it.val)

  -- Whether an item has no lease, or no time or amount.
  abbrev is_short_item : Item → Bool
  is_short_item it = is_empty it.key || ltb (length it.val) 8

  unfoldable pub bud_report : Item → Exec UpdateCtx ProposeResult
  unfolding report_on get_lease replies reads ◌>>=◌
  bud_report it = if is_short_item it then replies Reply.short_command else do
    l ← reads (get_lease ns coll it.key)
    report_on it.key (get_i64 it.val) (drop 8 it.val) l

  -- A Val shorter than 8 bytes carries neither report nor holder.
  unfoldable pub bud_return : Item → Exec UpdateCtx ProposeResult
  unfolding return_lease get_tomb replies reads ◌>>=◌
  bud_return it = if is_empty it.key then replies Reply.short_command else do
    t ← reads (get_tomb ns coll it.key)
    return_lease it.key (if ltb (length it.val) 8 then none else some (get_i64 it.val))
        (drop 8 it.val) t

  unfoldable pub bud_expire : Item → Exec UpdateCtx ProposeResult
  unfolding expire_lease get_tomb replies reads ◌>>=◌
  bud_expire it =
      if is_short_item it
      then replies Reply.short_command
      else do t ← reads (get_tomb ns coll it.key); expire_lease it.key (get_i64 it.val) t

  unfoldable pub collect_tomb : Bytes → ℤ → Exec UpdateCtx ProposeResult
  unfolding del_tomb del_bud_tomb_gc replies modify ◌>>=◌
  collect_tomb id gc_due_ms = do
    modify (del_tomb ns coll id)
    modify (del_bud_tomb_gc ns coll id gc_due_ms)
    replies (Reply.value (pos 0))

  unfoldable pub bud_tomb_gc : Item → Exec UpdateCtx ProposeResult
  unfolding collect_tomb replies
  bud_tomb_gc it =
      if is_short_item it then replies Reply.short_command else collect_tomb it.key (get_i64 it.val)

  unfoldable pub bud_reconcile : Item → Exec UpdateCtx ProposeResult
  unfolding reconcile get_pool replies reads ◌>>=◌
  bud_reconcile it =
      if ltb (length it.val) 8
      then replies Reply.short_command
      else do p ← reads (get_pool ns coll); reconcile (get_i64 it.val) p

  -- The opcodes 16 to 22; a command without an item is too short.
  unfoldable pub apply_budget : ℕ → List Item → Exec UpdateCtx ProposeResult
  unfolding bud_init bud_grant bud_report bud_return bud_expire bud_tomb_gc bud_reconcile replies
  apply_budget op [] = replies Reply.short_command
  apply_budget op (it ∷ its) =
      if op == op_bud_init
      then bud_init it
      else if op == op_bud_grant
      then bud_grant it
      else if op == op_bud_report
      then bud_report it
      else if op == op_bud_return
      then bud_return it
      else if op == op_bud_expire
      then bud_expire it
      else if op == op_bud_tomb_gc
      then bud_tomb_gc it
      else bud_reconcile it
