-- ===== src/Budget/Machine.antt =====
-- The budget branch of `applyOne` (internal/collections/statemachine.go): the type guard, then the
-- apply function of the opcode; and a sequence of committed commands.
use wave_span.Base.{◌==◌, not, ◌&&◌, Option, List, [], ◌∷◌, if◌then◌else◌}
use wave_span.Budget.{Budget, Item, Reply, Sentinel, type_budget}
use wave_span.Budget.Grant.{apply_bud_init, apply_bud_grant}
use wave_span.Budget.Settle.{
  apply_bud_report, apply_bud_return, apply_bud_expire, apply_bud_tomb_gc, apply_bud_reconcile,
}

pub data Op : Type 0 where
  bud_init bud_grant bud_report bud_return bud_expire bud_tomb_gc bud_reconcile : Op

unfoldable pub dispatch : Op → Option Item → Budget → Budget × Reply
dispatch bud_init c b = apply_bud_init c b
dispatch bud_grant c b = apply_bud_grant c b
dispatch bud_report c b = apply_bud_report c b
dispatch bud_return c b = apply_bud_return c b
dispatch bud_expire c b = apply_bud_expire c b
dispatch bud_tomb_gc c b = apply_bud_tomb_gc c b
dispatch bud_reconcile c b = apply_bud_reconcile c b

unfoldable pub apply_one : Op → Option Item → Budget → Budget × Reply
unfolding dispatch
apply_one op c b =
    if not (b.type == 0) && not (b.type == type_budget)
    then (b, Reply.sentinel Sentinel.wrong_type)
    else dispatch op c b

-- An error rolls the entry back: the apply functions return the budget unchanged with it.
unfoldable pub apply_all : List (Op × Option Item) → Budget → Budget
apply_all [] b = b
apply_all ((op, c) ∷ cs) b = apply_all cs (apply_one op c b).0
