-- ===== src/Shard/Guarded.antt =====
-- The guards of `applyOne` (internal/collections/statemachine.go) before a command on a set.
use wave_span.Base.{
  ◌==◌, ◌≡◌, ◌⊎◌, arith, Bool, true, false, not, ◌&&◌, Bool-cases, ==_iff, inl, inr, Option, none,
  some, Bytes, if◌then◌else◌,
}
use wave_span.Shard.{
  Command, ProposeResult, type_set, op_s_add, op_s_rem, op_expire, op_remove, type_for_op,
  type_budget,
}
use wave_span.Shard.Exec.{pure, modify, ◌>>=◌, after, Keeps, Keeps-pure, keeps_rules}
use wave_span.Shard.Context.{note_type}
use wave_span.Shard.Apply.{apply_command}
use wave_span.Shard.Counter.{Strconv}
use wave_span.Shard.Budgets.{apply_budget}
use wave_span.Shard.One.{
  remember, answer, check_type, budget_command, plain_command, dispatch_typed, typed_command, once,
  is_counter, sentinel, wrong_type,
}
use wave_span.Shard.Disjoint.{IsShort}
use wave_span.Shard.Counted.{IsCounted}
use wave_span.Shard.Expiring.{remember-Keeps}
use wave_span.Shard.Own.{IsSetOp, note_type-IsCounted, ensure_type-own, typed_bind, apply_items-own}

module _ (c : Command) (short : IsShort c.ns × IsShort c.coll) where
  remember-own :
      (key : Bytes) (r : ProposeResult) → Keeps (IsCounted c.ns c.coll) (modify (remember key r))
  remember-own = remember-Keeps c.ns c.coll short

  set_ops : (type_set == type_for_op c.op) ≡ true → (c.op ≡ op_s_add) ⊎ (c.op ≡ op_s_rem)
  unfolding type_for_op
  set_ops h = ground arith

  free_ops :
      (not (c.op == op_expire)
          && (not (c.op == op_remove) && not (type_for_op c.op == type_budget)))
        ≡ false
      → IsSetOp c ⊎ (type_for_op c.op ≡ type_budget)
  free_ops g = elim (Bool-cases (c.op == op_expire)) [
    | inl e ↦ inl (inr (inl ((==_iff c.op op_expire).0 e)))
    | inr e ↦ elim (Bool-cases (c.op == op_remove)) [
      | inl e' ↦ inl (inr (inr ((==_iff c.op op_remove).0 e')))
      | inr e' ↦ inr (ground arith)
    ]
  ]

  module _ (conv : Strconv) where
    plain_command-own :
        IsSetOp c → (keyed : Bool) → Keeps (IsCounted c.ns c.coll) (plain_command conv keyed c)
    unfolding plain_command apply_command answer
    plain_command-own h keyed = search (keeps_rules, apply_items-own c short h, remember-own)

    budget_command-own : Keeps (IsCounted c.ns c.coll) (budget_command conv c)
    unfolding budget_command
    budget_command-own =
        typed_bind c short
          (λ t.
            if not (t == 0) && not (t == type_budget)
            then pure (sentinel wrong_type)
            else apply_budget c.ns c.coll c.op c.items)
          (Keeps-pure (sentinel wrong_type))

    dispatch_own :
        (keyed : Bool)
        → IsSetOp c ⊎ (type_for_op c.op ≡ type_budget)
        → Keeps (IsCounted c.ns c.coll) (dispatch_typed conv keyed c true)
    unfolding dispatch_typed
    dispatch_own keyed (inl h) =
        let plain : is_counter c.op ≡ false = ground arith in
        let other : (type_for_op c.op == type_budget) ≡ false =
          unfold type_for_op in ground arith in
        rw (plain, other) (plain_command-own h keyed)
    dispatch_own keyed (inr h) =
        let plain : is_counter c.op ≡ false = unfold type_for_op in ground arith in
        let budget : (type_for_op c.op == type_budget) ≡ true = ground arith in
        rw (plain, budget) budget_command-own

    dispatch_refused :
        (keyed : Bool) → Keeps (IsCounted c.ns c.coll) (dispatch_typed conv keyed c false)
    unfolding dispatch_typed
    dispatch_refused keyed = Keeps-pure (sentinel wrong_type)

    -- Where the guard is taken, the opcode asks for a type.
    guarded :
        (keyed : Bool)
        → (not (c.op == op_expire)
            && (not (c.op == op_remove) && not (type_for_op c.op == type_budget)))
          ≡ true
        → Keeps (IsCounted c.ns c.coll) (typed_command conv keyed c)
    unfolding typed_command check_type ◌>>=◌ after
    guarded keyed g = elim (Bool-cases (type_set == type_for_op c.op)) [
      | inl e ↦ record {
        at = λ u h.
            rw (g, ensure_type-own c short (type_for_op c.op) u h, e)
              ((dispatch_own keyed (inl (inl (set_ops e)))).at (note_type c.ns c.coll type_set u)
                (note_type-IsCounted c.ns c.coll u h));
      }
      | inr e ↦ record {
        at = λ u h.
            rw (g, ensure_type-own c short (type_for_op c.op) u h, e)
              ((dispatch_refused keyed).at (note_type c.ns c.coll type_set u)
                (note_type-IsCounted c.ns c.coll u h));
      }
    ]

    unguarded :
        (keyed : Bool)
        → (not (c.op == op_expire)
            && (not (c.op == op_remove) && not (type_for_op c.op == type_budget)))
          ≡ false
        → Keeps (IsCounted c.ns c.coll) (typed_command conv keyed c)
    unfolding typed_command check_type pure ◌>>=◌ after
    unguarded keyed g = record { at = λ u h. rw g ((dispatch_own keyed (free_ops g)).at u h) }

    -- A command on the set, whatever its opcode.
    pub once-own :
        (found : Option ProposeResult) → Keeps (IsCounted c.ns c.coll) (once conv c found)
    unfolding once
    once-own (some r) = Keeps-pure r
    once-own none =
        elim (Bool-cases (
          not (c.op == op_expire)
          && (not (c.op == op_remove) && not (type_for_op c.op == type_budget)))) [
            | inl g ↦ guarded _ g
            | inr g ↦ unguarded _ g
          ]
