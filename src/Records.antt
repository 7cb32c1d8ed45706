-- ===== src/Records.antt =====
-- The wire and disk forms of a record: StoredRecord and ValueBody of proto/wavespan/v1/common.proto.
-- A message pointer that may be nil is an `Option`; an optional scalar too. Fields that no modelled
-- code reads (kind, local_apply_unix_ms, conflict_state) are left out.
use wave_span.Base.{Bytes, Bool, Option}
use wave_span.Base.Int.{ℤ}
use wave_span.Version.{Version, from_proto}

-- The oneof of ValueBody: inline bytes (nil or not), or a pointer to an external object.
pub data ValueBody : Type 0 where
  inline : Option Bytes → ValueBody
  external : Bytes → ValueBody

pub record StoredRecord : Type 0 where
  pub logical_key : Bytes
  pub value : Option ValueBody
  pub version : Option Version
  pub expires_at_unix_ms : Option ℤ
  pub tombstone : Bool
  pub namespace : Bytes
  pub origin_cluster_id : Bytes
  pub origin_member_id : Bytes

-- `version.FromProto(r.GetVersion())`.
abbrev pub version_of : StoredRecord → Version
unfolding from_proto
version_of r = from_proto r.version
