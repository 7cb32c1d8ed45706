-- ===== src/Budget.antt =====
-- internal/collections/budget.go: the data of the leased budget of one collection, and its constants.
-- An int64 is a ℤ whose arithmetic wraps (`Base.Int64`). The records of one collection, as an entry
-- reads them through the overlay of its batch, are the fields of `Budget`: the pool row, the lease
-- rows, the tombstone rows, and the entries of the two shard-level due indices. Storage faults, which
-- stop the replica, are not modelled.
pub mod Wire
pub mod Grant
pub mod Settle
pub mod Pool
pub mod Machine
pub mod Invariant
pub mod Conserve
pub mod Cap
pub mod Ledger
pub mod Reconcile
pub mod Rows
pub mod Settled
pub mod Retry
pub mod Pacing
pub mod Check
pub mod Codec
pub mod RoundTrip
mod Tests
use wave_span.Base.{
  ℕ, ◌+◌, ◌*◌, ◌^◌, Bytes, bytes_eq, Option, none, some, List, [], ◌∷◌, lookup, insert, erase,
  if◌then◌else◌,
}
use wave_span.Base.Int.{ℤ, pos, ltb_ℤ}
use wave_span.Base.Int64.{mul64, div64, eq_ℤ}

pub record PoolRec : Type 0 where
  pub cap : ℤ
  pub available : ℤ
  pub leased_out : ℤ
  pub spent : ℤ
  pub epoch : ℕ  -- uint64
  pub mode : ℕ  -- uint8
  pub rate : ℤ
  pub burst : ℤ
  pub last_refill_ms : ℤ
  pub tokens : ℤ
  pub self_guard_ms : ℤ
  pub max_pause_ms : ℤ
  pub default_ttl_ms : ℤ
  pub dedup_retry_window_ms : ℤ
  pub spent_reported : ℤ

pub record LeaseRec : Type 0 where
  pub holder : Bytes
  pub amount : ℤ
  pub spent : ℤ
  pub epoch : ℕ  -- uint64
  pub granted_ms : ℤ
  pub reclaim_not_before_ms : ℤ
  pub expires_ms : ℤ

pub record TombRec : Type 0 where
  pub final_spent : ℤ
  pub reason : ℕ  -- byte

abbrev pub reason_return : ℕ
reason_return = 1

abbrev pub reason_expire : ℕ
reason_expire = 2

abbrev pub mode_strict : ℕ
mode_strict = 1

abbrev pub max_clock_skew_ms : ℤ
max_clock_skew_ms = pos 500

abbrev pub pacing_burst_ceil : ℤ
pacing_burst_ceil = pos (2 ^ 50)

abbrev pub min_dedup_retry_window_ms : ℤ
min_dedup_retry_window_ms = pos 30000

-- An index key without its prefix: the due time and the lease.
abbrev pub Due : Type 0
Due = List (ℤ × Bytes)

-- A command's first item: `c.Items[0]`.
pub record Item : Type 0 where
  pub key : Bytes
  pub val : Bytes

-- The collection's type header: 0 is absent.
abbrev pub type_budget : ℕ
type_budget = 4

pub record Budget : Type 0 where
  pub type : ℕ  -- the header row
  pub pool : Option PoolRec
  pub leases : List (Bytes × LeaseRec)
  pub tombs : List (Bytes × TombRec)
  pub expiry : Due  -- subBudExp
  pub tomb_gc : Due  -- subBudTombGC

abbrev pub empty_budget : Budget
empty_budget = record { type = 0; pool = none; leases = []; tombs = []; expiry = []; tomb_gc = [] }

-- The sentinels of `ProposeResult.Data`.
pub data Sentinel : Type 0 where
  no_capacity exists no_lease no_budget bad_mode bad_param settled wrong_holder wrong_type :
      Sentinel

pub record GrantResult : Type 0 where
  pub granted : ℤ
  pub granted_ms : ℤ
  pub ttl_ms : ℤ
  pub self_guard_ms : ℤ
  pub max_pause_ms : ℤ

-- What an apply function returns: a value alone, a value with the encoded grant, a value with the
-- recovered amount, a sentinel, or an error.
pub data Reply : Type 0 where
  value : ℤ → Reply
  grant : GrantResult → Reply
  recovered : ℤ → Reply
  sentinel : Sentinel → Reply
  short_command missing_pool : Reply

unfoldable pub put_due : ℤ → Bytes → Due → Due
put_due ms id due = (ms, id) ∷ due

-- A delete removes every mark of the key.
unfoldable pub del_due : ℤ → Bytes → Due → Due
del_due ms id [] = []
del_due ms id ((t, j) ∷ due) =
    let rest = del_due ms id due in
    if eq_ℤ t ms then (if bytes_eq j id then rest else (t, j) ∷ rest) else (t, j) ∷ rest

unfoldable pub set_pool : PoolRec → Budget → Budget
set_pool p b = record b { pool = some p }

unfoldable pub get_lease : Bytes → Budget → Option LeaseRec
get_lease id b = lookup id b.leases

unfoldable pub set_lease : Bytes → LeaseRec → Budget → Budget
set_lease id l b = record b { leases = insert id l b.leases }

unfoldable pub del_lease : Bytes → Budget → Budget
del_lease id b = record b { leases = erase id b.leases }

unfoldable pub get_tomb : Bytes → Budget → Option TombRec
get_tomb id b = lookup id b.tombs

unfoldable pub set_tomb : Bytes → TombRec → Budget → Budget
set_tomb id t b = record b { tombs = insert id t b.tombs }

unfoldable pub del_tomb : Bytes → Budget → Budget
del_tomb id b = record b { tombs = erase id b.tombs }

unfoldable pub set_bud_exp : Bytes → ℤ → Budget → Budget
set_bud_exp id ms b = record b { expiry = put_due ms id b.expiry }

unfoldable pub del_bud_exp : Bytes → ℤ → Budget → Budget
del_bud_exp id ms b = record b { expiry = del_due ms id b.expiry }

unfoldable pub set_bud_tomb_gc : Bytes → ℤ → Budget → Budget
set_bud_tomb_gc id ms b = record b { tomb_gc = put_due ms id b.tomb_gc }

unfoldable pub del_bud_tomb_gc : Bytes → ℤ → Budget → Budget
del_bud_tomb_gc id ms b = record b { tomb_gc = del_due ms id b.tomb_gc }

-- How much idle time one grant may accrue tokens for.
unfoldable pub pacing_max_elapsed_ms : ℤ → ℤ → ℤ
pacing_max_elapsed_ms rate burst =
    if ltb_ℤ (pos 0) rate then div64 (mul64 (mul64 (pos 4) burst) (pos 1000)) rate else pos 0
