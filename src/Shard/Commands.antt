-- ===== src/Shard/Commands.antt =====
-- The commands of `applyOne` (internal/collections/statemachine.go), taken apart into single writes.
use wave_span.Base.{ℕ, Bool, Bytes, Option, none, some, List, [], ◌∷◌}
use wave_span.Shard.{Item, Command, UpdateCtx, ProposeResult}
use wave_span.Shard.Exec.{modify, Keeps, keeps_rules}
use wave_span.Shard.Context.{type_of, ensure_type, set_ttl, clear_ttl}
use wave_span.Shard.Apply.{
  create_elem, delete_elem, replace_elem, note_val, put_score, drop_score, set_add, finish_add,
  finish_drop, remove_elem, drop_expired, expire_elem, hash_set, z_add, z_rem, remove_any,
  apply_item, apply_items, apply_command,
}
use wave_span.Shard.Counter.{
  Strconv, write_counter, store_counter, apply_h_incr_int, apply_h_incr_float,
}
use wave_span.Shard.BudgetSteps.{BudgetAtoms, apply_budget-Keeps}
use wave_span.Shard.One.{
  remember, answer, check_type, count_up, budget_command, counter_command, plain_command,
  dispatch_typed, typed_command, once,
}

-- The single writes and lookups of a command on a collection keep `P`.
pub record Atoms (P : UpdateCtx → Type 0) (ns coll : Bytes) : Type 0 where
  pub typed : Keeps P (type_of ns coll)
  pub ensured : (want : ℕ) → Keeps P (ensure_type ns coll want)
  pub expiring : (member : Bytes) (expiry : ℕ) → Keeps P (set_ttl ns coll member expiry)
  pub cleared : (member : Bytes) → Keeps P (clear_ttl ns coll member)
  pub created : (member val : Bytes) → Keeps P (modify (create_elem ns coll member val))
  pub deleted : (member : Bytes) → Keeps P (modify (delete_elem ns coll member))
  pub forgotten :
      (member : Bytes)
      → Keeps P (modify (λ u. note_val ns coll member none (delete_elem ns coll member u)))
  pub replaced : (member val : Bytes) → Keeps P (modify (replace_elem ns coll member val))
  pub noted : (member : Bytes) (v : Option Bytes) → Keeps P (modify (note_val ns coll member v))
  pub scored :
      (member : Bytes) (score : ℕ) (old : Option ℕ)
      → Keeps P (modify (put_score ns coll member score old))
  pub unscored :
      (member : Bytes) (old : Option ℕ) → Keeps P (modify (drop_score ns coll member old))
  pub counter :
      (member val : Bytes) (found : Bool)
      → Keeps P (modify (write_counter ns coll member val found))
  pub budget : BudgetAtoms P ns coll

module _ (P : UpdateCtx → Type 0) (c : Command) (a : Atoms P c.ns c.coll) where
  set_add-Keeps : (it : Item) → Keeps P (set_add c it)
  unfolding set_add finish_add
  set_add-Keeps it = search (keeps_rules, a.created, a.expiring)

  remove_elem-Keeps : (it : Item) → Keeps P (remove_elem c it)
  unfolding remove_elem finish_drop
  remove_elem-Keeps it = search (keeps_rules, a.forgotten, a.cleared)

  drop_expired-Keeps : (it : Item) → Keeps P (drop_expired c it)
  unfolding drop_expired finish_drop
  drop_expired-Keeps it = search (keeps_rules, a.deleted, a.cleared)

  expire_elem-Keeps : (it : Item) → Keeps P (expire_elem c it)
  unfolding expire_elem
  expire_elem-Keeps it = search (keeps_rules, drop_expired-Keeps)

  hash_set-Keeps : (it : Item) → Keeps P (hash_set c it)
  unfolding hash_set
  hash_set-Keeps it = search (keeps_rules, a.created, a.replaced, a.noted)

  z_add-Keeps : (it : Item) → Keeps P (z_add c it)
  unfolding z_add
  z_add-Keeps it = search (keeps_rules, a.scored)

  z_rem-Keeps : (it : Item) → Keeps P (z_rem c it)
  unfolding z_rem
  z_rem-Keeps it = search (keeps_rules, a.unscored)

  remove_any-Keeps : (it : Item) → Keeps P (remove_any c it)
  unfolding remove_any
  remove_any-Keeps it = search (keeps_rules, a.typed, remove_elem-Keeps, z_rem-Keeps)

  apply_item-Keeps : (it : Item) → Keeps P (apply_item c it)
  unfolding apply_item
  apply_item-Keeps it =
      search
        (
          keeps_rules, set_add-Keeps, remove_elem-Keeps, expire_elem-Keeps, hash_set-Keeps,
          z_add-Keeps, z_rem-Keeps, remove_any-Keeps,
        )
        depth 14

  apply_items-Keeps : (its : List Item) → Keeps P (apply_items c its)
  unfolding apply_items
  apply_items-Keeps [] = search keeps_rules
  apply_items-Keeps (it ∷ its) = search (keeps_rules, apply_item-Keeps it, apply_items-Keeps its)

  store_counter-Keeps :
      (it : Item) (cur : Option Bytes) (new : Option (Bytes × Bytes))
      → Keeps P (store_counter c it cur new)
  unfolding store_counter
  store_counter-Keeps it cur none = search keeps_rules
  store_counter-Keeps it cur (some (text, reply)) = search (keeps_rules, a.counter)

  check_type-Keeps : Keeps P (check_type c)
  unfolding check_type
  check_type-Keeps = search (keeps_rules, a.ensured)

  module _ (conv : Strconv)
      (remembered : (key : Bytes) (r : ProposeResult) → Keeps P (modify (remember key r))) where
    answer-Keeps : (keyed : Bool) (r : ProposeResult) → Keeps P (answer keyed c r)
    unfolding answer
    answer-Keeps keyed r = search (keeps_rules, remembered)

    count_up-Keeps : (its : List Item) → Keeps P (count_up conv c its)
    unfolding count_up apply_h_incr_int apply_h_incr_float
    count_up-Keeps [] = search keeps_rules
    count_up-Keeps (it ∷ its) = search (keeps_rules, store_counter-Keeps)

    counter_command-Keeps : (keyed : Bool) → Keeps P (counter_command conv keyed c)
    unfolding counter_command
    counter_command-Keeps keyed = search (keeps_rules, count_up-Keeps, answer-Keeps)

    budget_command-Keeps : Keeps P (budget_command conv c)
    unfolding budget_command
    budget_command-Keeps =
        search (keeps_rules, a.typed, apply_budget-Keeps P c.ns c.coll a.ensured a.budget)

    plain_command-Keeps : (keyed : Bool) → Keeps P (plain_command conv keyed c)
    unfolding plain_command apply_command
    plain_command-Keeps keyed = search (keeps_rules, apply_items-Keeps, answer-Keeps)

    typed_command-Keeps : (keyed : Bool) → Keeps P (typed_command conv keyed c)
    unfolding typed_command dispatch_typed
    typed_command-Keeps keyed =
        search
          (
            keeps_rules, check_type-Keeps, counter_command-Keeps, budget_command-Keeps,
            plain_command-Keeps,
          )
          depth 14

    pub once-Keeps : (found : Option ProposeResult) → Keeps P (once conv c found)
    unfolding once
    once-Keeps none = typed_command-Keeps _
    once-Keeps (some r) = search keeps_rules
