-- ===== src/Budget/Tests.antt =====
-- The theorems on the budget, applied to concrete budgets.
use wave_span.Base.{
  ◌⊎◌, none, ◌≡◌, inl, refl, Option, some, List, [], ◌∷◌, ◌++◌, lookup, erase, compare_bytes,
  bytes_eq, arith, ◌+◌, ◌≤◌, true,
}
use wave_span.Base.Int.{pos, pos_part, neg_part, ltb_ℤ, ◌+ℤ◌, ◌-ℤ◌, ◌*ℤ◌}
use wave_span.Base.Int64.{add64, sub64, mul64, div64, min64, clamp_i64, wrap64}
use wave_span.Budget.{
  PoolRec, LeaseRec, GrantResult, Reply, Item, Budget, empty_budget, pacing_max_elapsed_ms,
}
use wave_span.Budget.Wire.{put_i64, get_i64, get_u64}
use wave_span.Budget.Grant.{
  apply_bud_init, init, read_definition, is_bad_mode, is_bad_param, new_pool, grant, grant_new,
  write_grant, grantable, pace, effective_ttl, is_unguarded,
}
use wave_span.Budget.Settle.{
  reconcile, reconcile_pool, return_lease, conflict, settle_return, apply_bud_return, expire,
}
use wave_span.Budget.Machine.{
  Op, dispatch, apply_one, apply_all, bud_init, bud_grant, bud_report, bud_return, bud_expire,
}
use wave_span.Budget.Pool.{IsPool}
use wave_span.Budget.Invariant.{IsSound}
use wave_span.Budget.Cap.{cap_of}
use wave_span.Budget.Ledger.{apply_all_conserves, apply_one-IsSound}
use wave_span.Budget.Reconcile.{reconcile_lem, overcommit_persists, overcommit, IsReconciled}
use wave_span.Budget.Rows.{IsSettledOnce}
use wave_span.Budget.Settled.{apply_one-IsSettledOnce}
use wave_span.Budget.Retry.{grant_retry, expire_again}
use wave_span.Budget.Check.{lookup_bud_check, lookup_bud_check-apply_all}
use wave_span.Budget.Pacing.{pace_lem, IsPaced}
use wave_span.Budget.Codec.{encode_pool, decode_pool, encode_lease, decode_lease}
use wave_span.Budget.RoundTrip.{decode_pool-encode_pool, decode_lease-encode_lease}

-- A budget of 100 with 30 leased out to a holder, and 20 tokens.
abbrev sample_pool : PoolRec
sample_pool = record {
  cap = pos 100;
  available = pos 70;
  leased_out = pos 30;
  spent = pos 0;
  epoch = 1;
  mode = 1;
  rate = pos 1000;
  burst = pos 50;
  last_refill_ms = pos 1000;
  tokens = pos 20;
  self_guard_ms = pos 500;
  max_pause_ms = pos 0;
  default_ttl_ms = pos 60000;
  dedup_retry_window_ms = pos 30000;
  spent_reported = pos 0;
}

abbrev sample_lease : LeaseRec
sample_lease = record {
  holder = 72 ∷ [];
  amount = pos 30;
  spent = pos 0;
  epoch = 1;
  granted_ms = pos 1000;
  reclaim_not_before_ms = pos 62500;
  expires_ms = pos 61000;
}

abbrev sample_budget : Budget
sample_budget = record {
  type = 4;
  pool = some sample_pool;
  leases = (1 ∷ [], sample_lease) ∷ [];
  tombs = [];
  expiry = (pos 62500, 1 ∷ []) ∷ [];
  tomb_gc = [];
}

sample_budget-IsSound : IsSound 0 sample_budget
unfolding lookup
sample_budget-IsSound = record {
  matches = record {
    available_nonneg = refl;
    leased_nonneg = refl;
    spent_nonneg = refl;
    reported_nonneg = refl;
    cap_nonneg = refl;
    leases_held = refl;
    reported_spent = omega arith;
    adds_up = refl;
    in_range = omega arith;
  };
  keys = (refl, tt);
  values = (
    record {
      amount_nonneg = refl;
      spent_nonneg = refl;
      spent-le-amount = omega arith;
      amount_range = omega arith;
    },
    tt,
  );
}

-- The budget from nothing: defined with 100, 30 granted for a minute, 12 reported, the rest returned,
-- and one more grant that expires.
abbrev sample_commands : List (Op × Option Item)
unfolding put_i64
sample_commands =
    (
      bud_init,
      some (record {
        key =
            1
            ∷ (put_i64 (pos 100)
                ++ put_i64 (pos 0)
                ++ put_i64 (pos 0)
                ++ put_i64 (pos 500)
                ++ put_i64 (pos 0)
                ++ put_i64 (pos 60000)
                ++ put_i64 (pos 30000));
        val = [];
      }),
    )
    ∷ (
      bud_grant,
      some (record {
        key = 1 ∷ [];
        val = put_i64 (pos 30) ++ put_i64 (pos 1000) ++ put_i64 (pos 0) ++ 72 ∷ [];
      }),
    )
    ∷ (bud_report, some (record { key = 1 ∷ []; val = put_i64 (pos 12) ++ 72 ∷ [] }))
    ∷ (bud_return, some (record { key = 1 ∷ []; val = [] }))
    ∷ (
      bud_grant,
      some (record {
        key = 2 ∷ [];
        val = put_i64 (pos 20) ++ put_i64 (pos 2000) ++ put_i64 (pos 0) ++ 72 ∷ [];
      }),
    )
    ∷ (bud_expire, some (record { key = 2 ∷ []; val = put_i64 (pos 90000) }))
    ∷ []

apply_all_conserves_example : IsSound 0 (apply_all sample_commands empty_budget)
unfolding sample_commands
apply_all_conserves_example =
    apply_all_conserves sample_commands
      (λ x. x, (λ x. x, (λ x. x, (λ x. x, (λ x. x, (λ x. x, tt))))))

abbrev expire_item : Item
unfolding put_i64
expire_item = record { key = 1 ∷ []; val = put_i64 (pos 70000) }

apply_one-IsSound_example :
    IsSound 0 (apply_one bud_expire (some expire_item) sample_budget).0
    × ((sample_budget.pool ≡ none)
        ⊎ (cap_of (apply_one bud_expire (some expire_item) sample_budget).0.pool
            ≡ cap_of sample_budget.pool))
apply_one-IsSound_example =
    apply_one-IsSound 0 bud_expire (some expire_item) sample_budget (λ x. x) sample_budget-IsSound

sample_budget-IsSettledOnce : IsSettledOnce sample_budget.tombs sample_budget.leases
unfolding lookup
sample_budget-IsSettledOnce = record {
  apart = λ j. inl refl;
  tomb_keys = tt;
  lease_keys = (refl, tt);
}

apply_one-IsSettledOnce_example :
    IsSettledOnce
      (apply_one bud_expire (some expire_item) sample_budget).0.tombs
      (apply_one bud_expire (some expire_item) sample_budget).0.leases
apply_one-IsSettledOnce_example =
    apply_one-IsSettledOnce bud_expire (some expire_item) sample_budget sample_budget-IsSettledOnce

-- The ledger says that all 100 were spent; the 30 outstanding are then returned.
reconcile_lem_example :
    (q : PoolRec) × ((reconcile (pos 100) sample_budget).0.pool ≡ some q)
    × IsReconciled (pos 100) sample_pool q
    × IsSound (overcommit (pos 100) sample_pool) (reconcile (pos 100) sample_budget).0
reconcile_lem_example =
    reconcile_lem (pos 100) sample_budget sample_pool sample_budget-IsSound refl (omega arith)

abbrev return_command : List (Op × Option Item)
return_command = (bud_return, some (record { key = 1 ∷ []; val = [] })) ∷ []

abbrev overspent_pool : PoolRec
overspent_pool = record sample_pool {
  available = pos 30;
  leased_out = pos 0;
  spent = pos 100;
  tokens = pos 20;
}

returned_pool :
    (apply_all return_command (reconcile (pos 100) sample_budget).0).pool ≡ some overspent_pool
unfolding apply_all apply_one dispatch reconcile apply_bud_return return_lease conflict
    settle_return reconcile_pool clamp_i64 sub64 add64 wrap64 ◌+ℤ◌ ◌-ℤ◌ lookup compare_bytes
    bytes_eq
returned_pool = refl

returned_leases : (apply_all return_command (reconcile (pos 100) sample_budget).0).leases ≡ []
unfolding apply_all apply_one dispatch reconcile apply_bud_return return_lease conflict
    settle_return reconcile_pool clamp_i64 sub64 add64 wrap64 ◌+ℤ◌ ◌-ℤ◌ lookup compare_bytes
    bytes_eq erase
returned_leases = refl

overcommit_persists_example : 30 + 100 ≡ 100 + overcommit (pos 100) sample_pool
overcommit_persists_example =
    overcommit_persists (pos 100) sample_budget sample_pool overspent_pool return_command
      sample_budget-IsSound refl (omega arith) (λ x. x, tt) returned_pool returned_leases

-- A second lease of 10 units, asked for again at a later time with other arguments.
abbrev second_grant : GrantResult
second_grant = record {
  granted = pos 10;
  granted_ms = pos 2000;
  ttl_ms = pos 60000;
  self_guard_ms = pos 500;
  max_pause_ms = pos 0;
}

second_granted :
    (grant (2 ∷ []) (pos 10) (pos 2000) (pos 0) (72 ∷ []) sample_budget).1
    ≡ Reply.grant second_grant
unfolding grant grant_new write_grant pace grantable pacing_max_elapsed_ms clamp_i64 min64 div64
    mul64 sub64 add64 wrap64 ◌+ℤ◌ ◌-ℤ◌ ◌*ℤ◌ lookup compare_bytes bytes_eq effective_ttl is_unguarded
second_granted = refl

grant_retry_example :
    grant
      (2 ∷ [])
      (pos 25)
      (pos 9000)
      (pos 7)
      []
      (grant (2 ∷ []) (pos 10) (pos 2000) (pos 0) (72 ∷ []) sample_budget).0
    ≡ (
      (grant (2 ∷ []) (pos 10) (pos 2000) (pos 0) (72 ∷ []) sample_budget).0,
      Reply.grant second_grant,
    )
unfolding effective_ttl
grant_retry_example =
    grant_retry (2 ∷ []) (pos 10) (pos 2000) (pos 0) (72 ∷ []) sample_budget sample_pool
      second_grant (pos 25) (pos 9000) (pos 7) [] refl refl refl (omega arith) second_granted refl

expire_again_example :
    (expire (1 ∷ []) (pos 70000) (expire (1 ∷ []) (pos 70000) sample_budget).0).0
    ≡ (expire (1 ∷ []) (pos 70000) sample_budget).0
expire_again_example = expire_again (1 ∷ []) (pos 70000) sample_budget

sample_pool-IsPool : IsPool 0 30 sample_pool
sample_pool-IsPool = record {
  available_nonneg = refl;
  leased_nonneg = refl;
  spent_nonneg = refl;
  reported_nonneg = refl;
  cap_nonneg = refl;
  leases_held = refl;
  reported_spent = omega arith;
  adds_up = refl;
  in_range = omega arith;
}

sample_pool-IsPaced : IsPaced sample_pool
sample_pool-IsPaced = record {
  rate_positive = refl;
  rate_range = omega arith;
  burst_nonneg = refl;
  burst_range = omega arith;
  tokens_nonneg = refl;
  tokens_range = omega arith;
}

-- 15 ms at 1000 units per second bring 15 tokens.
pace_lem_example :
    (neg_part (pace (pos 1015) sample_pool).tokens ≡ 0)
    × (pos_part (pace (pos 1015) sample_pool).tokens ≡ 35)
    × (1000 ≤ pos_part (pace (pos 1015) sample_pool).last_refill_ms)
    × (1015 ≤ pos_part (pace (pos 1015) sample_pool).last_refill_ms)
    × IsPaced (pace (pos 1015) sample_pool)
    × (pace (pos 1015) sample_pool ≡ record sample_pool {
      tokens = (pace (pos 1015) sample_pool).tokens;
      last_refill_ms = (pace (pos 1015) sample_pool).last_refill_ms;
    })
pace_lem_example =
    pace_lem (pos 1015) 30 sample_pool sample_pool-IsPool sample_pool-IsPaced refl (omega arith)
      refl (omega arith)

paced_grant : ltb_ℤ (pos 0) (grantable (pos 50) sample_pool) ≡ true
unfolding grantable min64
paced_grant = refl

decode_pool-encode_pool_example : decode_pool (encode_pool sample_pool) ≡ some sample_pool
decode_pool-encode_pool_example = decode_pool-encode_pool sample_pool (ground arith)

decode_lease-encode_lease_example : decode_lease (encode_lease sample_lease) ≡ some sample_lease
decode_lease-encode_lease_example = decode_lease-encode_lease sample_lease (ground arith)

abbrev define_command : Op × Option Item
unfolding put_i64
define_command = (
  bud_init,
  some (record { key = 1 ∷ (put_i64 (pos 100) ++ put_i64 (pos 0) ++ put_i64 (pos 0)); val = [] }),
)

abbrev defined_pool : PoolRec
defined_pool = record sample_pool {
  available = pos 100;
  leased_out = pos 0;
  rate = pos 0;
  burst = pos 0;
  last_refill_ms = pos 0;
  tokens = pos 0;
  self_guard_ms = pos 0;
  default_ttl_ms = pos 0;
  dedup_retry_window_ms = pos 0;
}

sample_pool_after : (apply_all (define_command ∷ []) empty_budget).pool ≡ some defined_pool
unfolding define_command apply_all apply_one dispatch apply_bud_init init read_definition
    is_bad_mode is_bad_param new_pool get_i64 get_u64
sample_pool_after = refl

lookup_bud_check-apply_all_example :
    ((lookup_bud_check (some defined_pool)).exists ≡ true)
    × ((lookup_bud_check (some defined_pool)).ok ≡ true)
unfolding define_command
lookup_bud_check-apply_all_example =
    lookup_bud_check-apply_all (define_command ∷ []) defined_pool (λ x. x, tt) sample_pool_after
