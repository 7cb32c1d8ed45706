-- ===== src/Budget/Ledger.antt =====
-- The books of a budget over any sequence of committed commands.
use wave_span.Base.{
  ◌⊎◌, ℕ, ◌^◌, ◌<◌, ◌≡◌, refl, false, arith, Option, none, some, List, [], ◌∷◌, Bytes, by_if,
  by_option, subst, not, ltb, ◌||◌, ◌&&◌, ◌==◌, is_empty, length, drop, All,
}
use wave_span.Base.Int.{pos, pos_part, ltb_ℤ}
use wave_span.Base.Int64.{from_u64}
use wave_span.Budget.{Budget, Reply, Item, type_budget, set_pool, empty_budget}
use wave_span.Budget.Wire.{get_i64, get_u64}
use wave_span.Budget.Grant.{
  Definition, init, new_pool, is_bad_mode, is_bad_param, apply_bud_init, apply_bud_grant,
  read_definition,
}
use wave_span.Budget.Settle.{
  apply_bud_report, apply_bud_return, apply_bud_expire, apply_bud_tomb_gc,
}
use wave_span.Budget.Machine.{
  Op, dispatch, apply_one, apply_all, bud_init, bud_grant, bud_report, bud_return, bud_expire,
  bud_tomb_gc, bud_reconcile,
}
use wave_span.Budget.Pool.{IsPool}
use wave_span.Budget.Invariant.{PoolMatches, IsSound, SoundAfter, grant-IsSound}
use wave_span.Budget.Cap.{cap_of, apply_one_cap}
use wave_span.Budget.Conserve.{report-IsSound, return_lease-IsSound, expire-IsSound}

from_u64_range : (m : ℕ) → pos_part (from_u64 m) < 2 ^ 63
from_u64_range m = ground arith

-- Reading eight bytes gives an int64.
get_i64_range : (b : Bytes) → pos_part (get_i64 b) < 2 ^ 63
unfolding get_i64
get_i64_range b = from_u64_range (get_u64 b)

capacity_nonneg : (d : Definition) → is_bad_mode d ≡ false → ltb_ℤ d.capacity (pos 0) ≡ false
unfolding is_bad_mode
capacity_nonneg d h = ground arith

new_pool-IsPool :
    (d : Definition)
    → ltb_ℤ d.capacity (pos 0) ≡ false
    → pos_part d.capacity < 2 ^ 63
    → IsPool 0 0 (new_pool d)
unfolding new_pool
new_pool-IsPool d h k = ground arith

-- Defining a budget over a sound state opens balanced books, or changes nothing.
new_pool-IsSound :
    (e : ℕ) (d : Definition) (b : Budget)
    → ltb_ℤ d.capacity (pos 0) ≡ false
    → pos_part d.capacity < 2 ^ 63
    → IsSound e b
    → b.pool ≡ none
    → IsSound e (set_pool (new_pool d) (record b { type = type_budget }))
unfolding set_pool
new_pool-IsSound e d b h k s have =
    let (empty, balanced) = subst (PoolMatches e b.leases) have s.matches in
    record {
      matches = rw (empty, balanced) (new_pool-IsPool d h k);
      keys = s.keys;
      values = s.values;
    }

-- Defining a budget opens balanced books, or changes nothing.
init-IsSound :
    (e : ℕ) (d : Definition) (b : Budget)
    → pos_part d.capacity < 2 ^ 63
    → IsSound e b
    → SoundAfter e (init d b)
unfolding init
init-IsSound e d b k s =
    let same : (a : Reply) → SoundAfter e (b, a) = λ a. record { sound = s } in
    by_if (SoundAfter e) (is_bad_mode d) (λ _. same _)
      (λ good.
        by_if (SoundAfter e) (is_bad_param d) (λ _. same _)
          (λ _.
            by_option (SoundAfter e) b.pool
              (λ have.
                by_if (SoundAfter e) (b.type == 0 || b.type == type_budget)
                  (λ _. record { sound = new_pool-IsSound e d b (capacity_nonneg d good) k s have })
                  (λ _. same _))
              (λ p _. same _)))

-- Each apply function reads its item and hands the numbers on, or refuses a short one.
apply_bud_init-IsSound :
    (e : ℕ) (c : Option Item) (b : Budget) → IsSound e b → SoundAfter e (apply_bud_init c b)
unfolding apply_bud_init read_definition
apply_bud_init-IsSound e none b s = record { sound = s }
apply_bud_init-IsSound e (some c) b s =
    by_if (SoundAfter e) (ltb (length c.key) 25) (λ _. record { sound = s })
      (λ _. init-IsSound e (read_definition c.key) b (get_i64_range (drop 1 c.key)) s)

apply_bud_grant-IsSound :
    (e : ℕ) (c : Option Item) (b : Budget) → IsSound e b → SoundAfter e (apply_bud_grant c b)
unfolding apply_bud_grant
apply_bud_grant-IsSound e none b s = record { sound = s }
apply_bud_grant-IsSound e (some c) b s =
    by_if (SoundAfter e) (is_empty c.key || ltb (length c.val) 24) (λ _. record { sound = s })
      (λ _. grant-IsSound e c.key _ _ _ (drop 24 c.val) b s)

apply_bud_report-IsSound :
    (e : ℕ) (c : Option Item) (b : Budget) → IsSound e b → SoundAfter e (apply_bud_report c b)
unfolding apply_bud_report
apply_bud_report-IsSound e none b s = record { sound = s }
apply_bud_report-IsSound e (some c) b s =
    by_if (SoundAfter e) (is_empty c.key || ltb (length c.val) 8) (λ _. record { sound = s })
      (λ _. report-IsSound e c.key _ (drop 8 c.val) b s)

apply_bud_return-IsSound :
    (e : ℕ) (c : Option Item) (b : Budget) → IsSound e b → SoundAfter e (apply_bud_return c b)
unfolding apply_bud_return
apply_bud_return-IsSound e none b s = record { sound = s }
apply_bud_return-IsSound e (some c) b s =
    by_if (SoundAfter e) (is_empty c.key) (λ _. record { sound = s })
      (λ _. return_lease-IsSound e c.key _ b s)

apply_bud_expire-IsSound :
    (e : ℕ) (c : Option Item) (b : Budget) → IsSound e b → SoundAfter e (apply_bud_expire c b)
unfolding apply_bud_expire
apply_bud_expire-IsSound e none b s = record { sound = s }
apply_bud_expire-IsSound e (some c) b s =
    by_if (SoundAfter e) (is_empty c.key || ltb (length c.val) 8) (λ _. record { sound = s })
      (λ _. expire-IsSound e c.key _ b s)

apply_bud_tomb_gc-IsSound :
    (e : ℕ) (c : Option Item) (b : Budget) → IsSound e b → SoundAfter e (apply_bud_tomb_gc c b)
unfolding apply_bud_tomb_gc
apply_bud_tomb_gc-IsSound e none b s = record { sound = s }
apply_bud_tomb_gc-IsSound e (some c) b s =
    by_if (SoundAfter e) (is_empty c.key || ltb (length c.val) 8) (λ _. record { sound = s })
      (λ _. record { sound = s })

abbrev pub IsReconcile : Op → Type 0
IsReconcile bud_reconcile = Unit
IsReconcile _ = ⊥

dispatch-IsSound :
    (e : ℕ) (op : Op) (c : Option Item) (b : Budget)
    → ¬ (IsReconcile op)
    → IsSound e b
    → SoundAfter e (dispatch op c b)
unfolding dispatch
dispatch-IsSound e bud_init c b n s = apply_bud_init-IsSound e c b s
dispatch-IsSound e bud_grant c b n s = apply_bud_grant-IsSound e c b s
dispatch-IsSound e bud_report c b n s = apply_bud_report-IsSound e c b s
dispatch-IsSound e bud_return c b n s = apply_bud_return-IsSound e c b s
dispatch-IsSound e bud_expire c b n s = apply_bud_expire-IsSound e c b s
dispatch-IsSound e bud_tomb_gc c b n s = apply_bud_tomb_gc-IsSound e c b s
dispatch-IsSound e bud_reconcile c b n s = absurd (n tt)

keeps-IsSound :
    (e : ℕ) (op : Op) (c : Option Item) (b : Budget)
    → ¬ (IsReconcile op)
    → IsSound e b
    → IsSound e (apply_one op c b).0
unfolding apply_one
keeps-IsSound e op c b n s =
    let after : SoundAfter e (apply_one op c b) =
      by_if (SoundAfter e) (not (b.type == 0) && not (b.type == type_budget))
        (λ _. record { sound = s }) (λ _. dispatch-IsSound e op c b n s) in
    after.sound

-- Any command but a reconciliation, with any bytes, keeps the books: the buckets are non-negative and
-- add up to the cap plus the same excess, the leased bucket is what the outstanding leases hold, and no
-- more is reported than spent; and a pool that was there keeps its cap.
pub apply_one-IsSound :
    (e : ℕ) (op : Op) (c : Option Item) (b : Budget)
    → ¬ (IsReconcile op)
    → IsSound e b
    → IsSound e (apply_one op c b).0
      × ((b.pool ≡ none) ⊎ (cap_of (apply_one op c b).0.pool ≡ cap_of b.pool))
apply_one-IsSound e op c b n s = (keeps-IsSound e op c b n s, apply_one_cap op c b)

pub apply_all-IsSound :
    (e : ℕ) (cs : List (Op × Option Item)) (b : Budget)
    → All (λ c. ¬ (IsReconcile c.0)) cs
    → IsSound e b
    → IsSound e (apply_all cs b)
unfolding apply_all
apply_all-IsSound e [] b n s = s
apply_all-IsSound e ((op, c) ∷ cs) b n s =
    apply_all-IsSound e cs (apply_one op c b).0 n.1 (keeps-IsSound e op c b n.0 s)

-- From a collection with no budget, any sequence of commands without a reconciliation ends in a pool
-- whose buckets add up to its cap, with the leased bucket equal to what the outstanding leases hold.
pub apply_all_conserves :
    (cs : List (Op × Option Item))
    → All (λ c. ¬ (IsReconcile c.0)) cs
    → IsSound 0 (apply_all cs empty_budget)
apply_all_conserves cs n =
    apply_all-IsSound 0 cs empty_budget n
      (record { matches = (refl, refl); keys = tt; values = tt })
