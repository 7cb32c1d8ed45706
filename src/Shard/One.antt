-- ===== src/Shard/One.antt =====
-- `applyOne` of internal/collections/statemachine.go: one decoded command behind the guards of freeze,
-- idempotency and type. The conversions of numbers are a parameter.
use wave_span.Base.{
  ℕ, ◌==◌, not, ◌&&◌, ◌||◌, Bool, true, false, Option, none, some, Bytes, bytes_eq, codes, List, [],
  ◌∷◌, lookup, insert, is_empty, compare_bytes, lt, eq, gt, if◌then◌else◌,
}
use wave_span.Shard.{
  Item, Command, Fault, UpdateCtx, ProposeResult, FrozenRange, op_expire, op_remove, op_h_incr_by,
  op_h_incr_by_float, type_budget, type_for_op,
}
use wave_span.Shard.Exec.{Exec, Res, pure, lift, reads, modify, ◌>>=◌, ◌>>◌}
use wave_span.Shard.Keys.{route_key}
use wave_span.Shard.Codec.{decode_command}
use wave_span.Shard.Context.{type_of, ensure_type, dedup_get, dedup_record}
use wave_span.Shard.Budgets.{apply_budget}
pub use wave_span.Shard.Budgets.{wrong_type, sentinel}
use wave_span.Shard.Apply.{apply_command}
use wave_span.Shard.Counter.{Strconv, not_number, apply_h_incr_int, apply_h_incr_float}

unfoldable pub mutates : ℕ → Bool
unfolding type_for_op
mutates op = not (type_for_op op == 0) || op == op_expire || op == op_remove

abbrev is_at_least : Bytes → Bytes → Bool
is_at_least a b = elim (compare_bytes a b) [ lt ↦ false | eq ↦ true | gt ↦ true ]

abbrev is_below : Bytes → Bytes → Bool
is_below a b = elim (compare_bytes a b) [ lt ↦ true | eq ↦ false | gt ↦ false ]

-- An empty bound is none.
unfoldable pub in_route : Bytes → Bytes → Bytes → Bool
in_route rk start end =
    (is_empty start || is_at_least rk start) && (is_empty end || is_below rk end)

unfoldable pub frozen_covers : List FrozenRange → Bytes → Bool
unfolding in_route
frozen_covers [] key = false
frozen_covers (r ∷ rs) key = in_route key r.start r.end || frozen_covers rs key

abbrev pub frozen_mark : Bytes
frozen_mark = codes "FROZEN"

-- The first of two values that may be there.
abbrev pub prefer {ℓ} : {A : Type ℓ} → Option A → Option A → Option A
prefer (some a) o = some a
prefer none o = o

-- The answer that was given to the key before: in this batch, or in the store.
unfoldable pub dedup_find : UpdateCtx → Bytes → Option ProposeResult
unfolding dedup_get
dedup_find u key = prefer (lookup key u.in_batch_dedup) (dedup_get u key)

unfoldable pub remember : Bytes → ProposeResult → UpdateCtx → UpdateCtx
unfolding dedup_record
remember key r u =
    let u' = dedup_record key r u in record u' { in_batch_dedup = insert key r u.in_batch_dedup }

-- Whether a command carries an idempotency key that counts.
unfoldable pub is_keyed : Command → Bool
unfolding mutates
is_keyed c = mutates c.op && not (is_empty c.idem)

-- The result, remembered under the key of a keyed command.
unfoldable pub answer : Bool → Command → ProposeResult → Exec UpdateCtx ProposeResult
unfolding remember pure modify ◌>>=◌
answer keyed c r = do if keyed then modify (remember c.idem r) else pure tt; pure r

abbrev pub is_counter : ℕ → Bool
is_counter op = op == op_h_incr_by || op == op_h_incr_by_float

-- The type guard of a command that may create its collection; the budget has its own.
unfoldable pub check_type : Command → Exec UpdateCtx Bool
unfolding ensure_type pure
check_type c =
    if not (c.op == op_expire) && (not (c.op == op_remove) && not (type_for_op c.op == type_budget))
    then ensure_type c.ns c.coll (type_for_op c.op)
    else pure true

module _ (conv : Strconv) where
  unfoldable pub count_up : Command → List Item → Exec UpdateCtx ProposeResult
  unfolding lift apply_h_incr_int apply_h_incr_float
  count_up c [] = lift (Res.fail Fault.short_command)
  count_up c (it ∷ its) =
      if c.op == op_h_incr_by then apply_h_incr_int conv c it else apply_h_incr_float conv c it

  -- A budget command: its guard does not create the type.
  unfoldable pub budget_command : Command → Exec UpdateCtx ProposeResult
  unfolding type_of apply_budget pure ◌>>=◌
  budget_command c = do
    t ← type_of c.ns c.coll
    if not (t == 0) && not (t == type_budget)
        then pure (sentinel wrong_type)
        else apply_budget c.ns c.coll c.op c.items

  -- A counter, and then every other command, behind the guards.
  unfoldable pub counter_command : Bool → Command → Exec UpdateCtx ProposeResult
  unfolding count_up answer ◌>>=◌
  counter_command keyed c = do
    r ← count_up c c.items
    answer (keyed && not (bytes_eq r.reply not_number)) c r

  unfoldable pub plain_command : Bool → Command → Exec UpdateCtx ProposeResult
  unfolding apply_command answer ◌>>=◌
  plain_command keyed c = do
    changed ← apply_command c
    answer keyed c (record { value = changed; reply = [] })

  -- The apply functions of the opcode, where the type fits.
  unfoldable pub dispatch_typed : Bool → Command → Bool → Exec UpdateCtx ProposeResult
  unfolding counter_command budget_command plain_command pure
  dispatch_typed keyed c fits =
      if not fits
      then pure (sentinel wrong_type)
      else if is_counter c.op
      then counter_command keyed c
      else if type_for_op c.op == type_budget
      then budget_command c
      else plain_command keyed c

  unfoldable pub typed_command : Bool → Command → Exec UpdateCtx ProposeResult
  unfolding check_type dispatch_typed ◌>>=◌
  typed_command keyed c = do fits ← check_type c; dispatch_typed keyed c fits

  -- A keyed command that was answered before gets its answer again.
  unfoldable pub once : Command → Option ProposeResult → Exec UpdateCtx ProposeResult
  unfolding is_keyed typed_command pure
  once c (some r) = pure r
  once c none = typed_command (is_keyed c) c

  unfoldable pub find_answer : Command → UpdateCtx → Res (Option ProposeResult)
  unfolding dedup_find is_keyed
  find_answer c u = Res.ok (if is_keyed c then dedup_find u c.idem else none)

  -- `applyOne` behind the decoder.
  unfoldable pub apply_decoded : List FrozenRange → Command → Exec UpdateCtx ProposeResult
  unfolding frozen_covers mutates route_key find_answer once pure reads ◌>>=◌
  apply_decoded frozen c =
      if mutates c.op && frozen_covers frozen (route_key c.ns c.coll)
      then pure (sentinel frozen_mark)
      else do found ← reads (find_answer c); once c found

  unfoldable pub apply_one : Bytes → List FrozenRange → Exec UpdateCtx ProposeResult
  unfolding decode_command apply_decoded lift ◌>>=◌
  apply_one cmd frozen = do c ← lift (decode_command cmd); apply_decoded frozen c
