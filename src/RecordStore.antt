-- ===== src/RecordStore.antt =====
-- internal/recordstore: the local record store. The column families are association lists: the
-- latest pointers and the versioned records by their keys, each row with the expiry that the engine is
-- given, the time-to-live index, and the mutation log. A read does not see a row whose expiry is past at
-- the engine's time. The entries of the index are kept apart from the pointers, whose column family they
-- share: their keys differ for namespaces below 128 bytes. The lock of a stripe makes each operation on a
-- key one step. Storage faults, after which nothing is changed, are not modelled.
pub mod Keys
pub mod Apply
pub mod Timeless
pub mod Cache
pub mod Live
pub mod Read
pub mod Namespace
pub mod Siblings
pub mod Forget
mod Tests
use wave_span.Base.{ℕ, Bytes, Bool, Option, List}
use wave_span.Base.Int.{ℤ}
use wave_span.Version.{Version}
use wave_span.Records.{StoredRecord, ValueBody}

pub record LatestPointer : Type 0 where
  pub winner : Version
  pub sibling_versions : List Version
  pub expires_at_unix_ms : Option ℤ
  pub tombstone : Bool
  pub inline_value : Option Bytes

pub record MutationEnvelope : Type 0 where
  pub mutation_id : Bytes
  pub kind : ℕ
  pub logical_key : Bytes
  pub value : Option ValueBody
  pub version : Option Version
  pub expires_at_unix_ms : Option ℤ
  pub tombstone : Bool
  pub namespace : Bytes
  pub origin_cluster_id : Bytes
  pub origin_member_id : Bytes
  pub origin_sequence : ℕ

-- The cached winner of a key.
pub record LatestEntry : Type 0 where
  pub ver : Version
  pub tombstone : Bool

pub record Store : Type 0 where
  pub meta : List (Bytes × (LatestPointer × ℤ))  -- CFKVMeta, the latest pointers
  pub ttl : List (Bytes × Bytes)  -- CFKVMeta, the entries behind the sentinel
  pub records : List (Bytes × (StoredRecord × ℤ))  -- CFKVData
  pub log : List (Bytes × (ℕ × MutationEnvelope))  -- CFReplLog, by namespace and sequence
  pub log_seq : ℕ
  pub latest_ver : ℕ → List (Bytes × LatestEntry)  -- one map for each stripe
  pub live_keys : ℤ  -- int64
  pub engine_ms : ℤ  -- the time by which the engine hides expired rows
