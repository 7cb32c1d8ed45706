-- ===== src/Conflict.antt =====
-- internal/conflict: the two resolvers of v1 and the registry of policies. A nil record pointer is
-- `none`. Go ranges over a map in an unspecified order: that order is the argument `range`.
pub mod Highest
pub mod Sort
pub mod Writers
pub mod Siblings
pub mod Policies
mod Tests
use wave_span.Base.{
  Bytes, bytes_eq, codes, Ordering, lt, eq, gt, Bool, true, false, Option, none, some, List, [],
  ◌∷◌, ◌++◌, if◌then◌else◌,
}
use wave_span.Version.{Version, compare_version}
use wave_span.Records.{StoredRecord, version_of}

pub data ResolveResult : Type 0 where
  winner : StoredRecord → ResolveResult
  tombstone : StoredRecord → ResolveResult
  siblings : List StoredRecord → ResolveResult
  reject : ResolveResult

-- `Compare(..) > 0`.
abbrev pub is_newer : StoredRecord → StoredRecord → Bool
is_newer a b = elim (compare_version (version_of a) (version_of b)) [
  | gt ↦ true
  | eq ↦ false
  | lt ↦ false
]

-- The loop of `HLCLastWriteWins.Resolve`.
unfoldable pub last_write_loop :
    Option StoredRecord → List (Option StoredRecord) → Option StoredRecord
last_write_loop w [] = w
last_write_loop w (none ∷ es) = last_write_loop w es
last_write_loop none (some e ∷ es) = last_write_loop (some e) es
last_write_loop (some w) (some e ∷ es) = last_write_loop (some (if is_newer e w then e else w)) es

abbrev pub single : StoredRecord → ResolveResult
single r = if r.tombstone then ResolveResult.tombstone r else ResolveResult.winner r

abbrev pub result_of : Option StoredRecord → ResolveResult
result_of none = ResolveResult.reject
result_of (some r) = single r

unfoldable pub last_write_wins : List (Option StoredRecord) → Option StoredRecord → ResolveResult
unfolding last_write_loop
last_write_wins existing incoming = result_of (last_write_loop incoming existing)

-- The key of `byWriter`: cluster, a zero byte, member.
unfoldable pub writer_key : StoredRecord → Bytes
writer_key r = (version_of r).writer_cluster_id ++ 0 ∷ (version_of r).writer_member_id

-- `consider` on a record that is not nil: keep it if its writer is new or it is newer.
unfoldable pub consider : StoredRecord → List StoredRecord → List StoredRecord
unfolding writer_key
consider r [] = r ∷ []
consider r (s ∷ ss) =
    if bytes_eq (writer_key r) (writer_key s)
    then (if is_newer r s then r else s) ∷ ss
    else s ∷ consider r ss

unfoldable pub consider_all : List (Option StoredRecord) → List StoredRecord → List StoredRecord
consider_all [] by_writer = by_writer
consider_all (none ∷ rs) by_writer = consider_all rs by_writer
consider_all (some r ∷ rs) by_writer = consider_all rs (consider r by_writer)

-- `sort.Slice(sibs, Compare < 0)`.
abbrev pub is_older : StoredRecord → StoredRecord → Bool
is_older a b = elim (compare_version (version_of a) (version_of b)) [
  | lt ↦ true
  | eq ↦ false
  | gt ↦ false
]

unfoldable pub insert_sorted : StoredRecord → List StoredRecord → List StoredRecord
insert_sorted r [] = r ∷ []
insert_sorted r (s ∷ ss) = if is_older s r then s ∷ insert_sorted r ss else r ∷ s ∷ ss

unfoldable pub sort_versions : List StoredRecord → List StoredRecord
unfolding insert_sorted
sort_versions [] = []
sort_versions (r ∷ rs) = insert_sorted r (sort_versions rs)

abbrev pub collapse : List StoredRecord → ResolveResult
collapse [] = ResolveResult.reject
collapse (r ∷ []) = single r
collapse (r ∷ s ∷ rs) = ResolveResult.siblings (r ∷ s ∷ rs)

unfoldable pub keep_siblings :
    (List StoredRecord → List StoredRecord)
    → List (Option StoredRecord)
    → Option StoredRecord
    → ResolveResult
unfolding consider_all consider sort_versions
keep_siblings range existing incoming =
    collapse (sort_versions (range (consider_all (existing ++ incoming ∷ []) [])))

-- A registry: the resolvers by policy name, and the fallback.
abbrev pub Resolver : Type 0
Resolver = List (Option StoredRecord) → Option StoredRecord → ResolveResult

pub record Registry : Type 0 where
  pub resolvers : List (Bytes × Resolver)
  pub fallback : Resolver

abbrev pub policy_hlc_last_write_wins : Bytes
policy_hlc_last_write_wins = codes "hlc-last-write-wins"

abbrev pub policy_keep_siblings : Bytes
policy_keep_siblings = codes "keep-siblings"

unfoldable pub new_registry : (List StoredRecord → List StoredRecord) → Registry
new_registry range = record {
  resolvers =
      (policy_hlc_last_write_wins, last_write_wins)
      ∷ (policy_keep_siblings, keep_siblings range)
      ∷ [];
  fallback = last_write_wins;
}

-- `DeferredPolicies`: specified, and not registered.
abbrev pub deferred_policies : List Bytes
deferred_policies =
    codes "crdt-g-counter"
    ∷ codes "crdt-pn-counter"
    ∷ codes "crdt-or-set"
    ∷ codes "crdt-lww-register"
    ∷ codes "application"
    ∷ []

unfoldable pub lookup_policy : Bytes → List (Bytes × Resolver) → Option Resolver
lookup_policy policy [] = none
lookup_policy policy ((name, r) ∷ rs) =
    if bytes_eq name policy then some r else lookup_policy policy rs

unfoldable pub register : Registry → Bytes → Resolver → Registry
register g policy r = record g { resolvers = (policy, r) ∷ g.resolvers }

abbrev pub or_fallback : Resolver → Option Resolver → Resolver
or_fallback fallback none = fallback
or_fallback fallback (some r) = r

unfoldable pub resolver : Registry → Bytes → Resolver
unfolding lookup_policy
resolver g policy = or_fallback g.fallback (lookup_policy policy g.resolvers)
