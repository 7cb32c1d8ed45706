-- ===== src/Shard.antt =====
-- The data shard of internal/collections: a replicated state machine for sets, hashes, sorted sets and
-- budgets. Its rows are an association list from keys to values, the column family CFReplData of the
-- storage engine; the operations that an update collects are applied to it as one batch. A float64 is
-- its 64-bit pattern. Storage faults, which stop the replica, are not modelled, but for a cardinality
-- row of a wrong length.
pub mod Exec
pub mod Keys
pub mod Codec
pub mod Scores
pub mod Context
pub mod Apply
pub mod Counter
pub mod Leases
pub mod Budgets
pub mod One
pub mod Migrate
pub mod Update
pub mod ScoreOrder
pub mod RoundTrip
pub mod BudgetSteps
pub mod Commands
pub mod Entries
pub mod Growth
pub mod Skip
pub mod Disjoint
pub mod Outside
pub mod Count
pub mod Families
pub mod Counted
pub mod Members
pub mod Expiring
pub mod LeaseRows
pub mod Foreign
pub mod Own
pub mod Guarded
pub mod Cards
pub mod Flush
pub mod Cardinality
pub mod Once
pub mod Frozen
pub mod Refresh
mod Samples
mod Tests
mod Runs
use wave_span.Base.{ℕ, Bytes, Bool, Option, List, [], ◌∷◌, ◌==◌, ◌||◌, if◌then◌else◌, insert, erase}
use wave_span.Base.Int.{ℤ}

-- One element of a command.
pub record Item : Type 0 where
  pub key : Bytes
  pub val : Bytes
  pub score : ℕ  -- float64 bits
  pub expiry_ms : ℤ  -- int64

pub record Command : Type 0 where
  pub op : ℕ
  pub ns : Bytes
  pub coll : Bytes
  pub idem : Bytes
  pub items : List Item

-- Why an entry is skipped: an error of a decoder, a lease without a pool, or a panic that `applyEntrySafe` recovers.
pub data Fault : Type 0 where
  short_command unknown_op panic short_row missing_pool : Fault

pub data StoreOp : Type 0 where
  put : Bytes → Bytes → StoreOp
  delete : Bytes → StoreOp

abbrev pub Rows : Type 0
Rows = List (Bytes × Bytes)

-- One operation of a batch.
abbrev pub apply_op : StoreOp → Rows → Rows
apply_op (StoreOp.put k v) rows = insert k v rows
apply_op (StoreOp.delete k) rows = erase k rows

-- `LocalStore.BatchRC`: the operations in their order.
unfoldable pub apply_ops : List StoreOp → Rows → Rows
apply_ops [] rows = rows
apply_ops (op ∷ ops) rows = apply_ops ops (apply_op op rows)

-- The state machine of one shard: its store, and the prefix of its keys.
pub record ShardSm : Type 0 where
  pub store : Rows
  pub prefix : Bytes

pub record ProposeResult : Type 0 where
  pub value : ℕ  -- uint64
  pub reply : Bytes

pub record FrozenRange : Type 0 where
  pub start : Bytes
  pub end : Bytes

-- The overlays of one update.
pub record UpdateCtx : Type 0 where
  pub s : ShardSm
  pub ops : List StoreOp
  pub exists : List (Bytes × Bool)
  pub zscore : List (Bytes × Option ℕ)
  pub card_delta : List (Bytes × ℤ)
  pub htype : List (Bytes × ℕ)
  pub vals : List (Bytes × Option Bytes)
  pub dedup_seq : ℕ  -- uint64
  pub in_batch_dedup : List (Bytes × ProposeResult)

abbrev pub op_s_add : ℕ
op_s_add = 1

abbrev pub op_s_rem : ℕ
op_s_rem = 2

abbrev pub op_h_set : ℕ
op_h_set = 3

abbrev pub op_h_del : ℕ
op_h_del = 4

abbrev pub op_z_add : ℕ
op_z_add = 5

abbrev pub op_z_rem : ℕ
op_z_rem = 6

abbrev pub op_expire : ℕ
op_expire = 7

abbrev pub op_ingest : ℕ
op_ingest = 8

abbrev pub op_purge : ℕ
op_purge = 9

abbrev pub op_freeze : ℕ
op_freeze = 10

abbrev pub op_unfreeze : ℕ
op_unfreeze = 11

abbrev pub op_h_incr_by : ℕ
op_h_incr_by = 12

abbrev pub op_h_incr_by_float : ℕ
op_h_incr_by_float = 13

abbrev pub op_remove : ℕ
op_remove = 14

abbrev pub op_batch : ℕ
op_batch = 15

abbrev pub type_set : ℕ
type_set = 1

abbrev pub type_hash : ℕ
type_hash = 2

abbrev pub type_z_set : ℕ
type_z_set = 3

abbrev pub type_budget : ℕ
type_budget = 4

-- The datatype that an opcode asks for; 0 is none. The budget's opcodes are 16 to 22.
unfoldable pub type_for_op : ℕ → ℕ
type_for_op op =
    if op == op_s_add || op == op_s_rem
    then type_set
    else if op == op_h_set || op == op_h_del || op == op_h_incr_by || op == op_h_incr_by_float
    then type_hash
    else if op == op_z_add || op == op_z_rem
    then type_z_set
    else if op == 16 || op == 17 || op == 18 || op == 19 || op == 20 || op == 21 || op == 22
    then type_budget
    else 0
