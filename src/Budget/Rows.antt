-- ===== src/Budget/Rows.antt =====
-- The tombstone rows and the lease rows of a budget: what keeps them apart.
use wave_span.Base.{
  ◌≡◌, ◌⊎◌, arith, none, List, Bytes, bytes_eq_iff, lookup, insert, erase, lookup-insert,
  lookup-erase, IsMap, insert-IsMap, erase-IsMap,
}
use wave_span.Budget.{LeaseRec, TombRec}

-- Under each id, a tombstone or a lease, or neither.
abbrev pub IsApart : List (Bytes × TombRec) → List (Bytes × LeaseRec) → Type 0
IsApart tombs leases = (id : Bytes) → (lookup id tombs ≡ none) ⊎ (lookup id leases ≡ none)

-- The tombstone rows and the lease rows: each a map, and apart.
pub record IsSettledOnce (tombs : List (Bytes × TombRec)) (leases : List (Bytes × LeaseRec))
    : Type 0 where
  pub apart : IsApart tombs leases
  pub tomb_keys : IsMap tombs
  pub lease_keys : IsMap leases

module _ (id : Bytes) (tombs : List (Bytes × TombRec)) (leases : List (Bytes × LeaseRec))
    (s : IsSettledOnce tombs leases) where
  -- A lease row is written under an id without a tombstone.
  pub lease_put : (l : LeaseRec) → lookup id tombs ≡ none → IsSettledOnce tombs (insert id l leases)
  lease_put l free = record {
    apart = λ j. ground (arith, lookup-insert j id l leases, bytes_eq_iff id j, s.apart j);
    tomb_keys = s.tomb_keys;
    lease_keys = insert-IsMap id l leases s.lease_keys;
  }

  pub lease_gone : IsSettledOnce tombs (erase id leases)
  lease_gone = record {
    apart =
        λ j. ground (arith, lookup-erase j id leases s.lease_keys, bytes_eq_iff id j, s.apart j);
    tomb_keys = s.tomb_keys;
    lease_keys = erase-IsMap id leases s.lease_keys;
  }

  pub lease_buried : (t : TombRec) → IsSettledOnce (insert id t tombs) (erase id leases)
  lease_buried t = record {
    apart = λ j. ground (
      arith,
      lookup-erase j id leases s.lease_keys,
      lookup-insert j id t tombs,
      bytes_eq_iff id j,
      s.apart j,
    );
    tomb_keys = insert-IsMap id t tombs s.tomb_keys;
    lease_keys = erase-IsMap id leases s.lease_keys;
  }

  pub absent_buried :
      (t : TombRec) → lookup id leases ≡ none → IsSettledOnce (insert id t tombs) leases
  absent_buried t free = record {
    apart = λ j. ground (arith, lookup-insert j id t tombs, bytes_eq_iff id j, s.apart j);
    tomb_keys = insert-IsMap id t tombs s.tomb_keys;
    lease_keys = s.lease_keys;
  }

  pub tomb_gone : IsSettledOnce (erase id tombs) leases
  tomb_gone = record {
    apart = λ j. ground (arith, lookup-erase j id tombs s.tomb_keys, bytes_eq_iff id j, s.apart j);
    tomb_keys = erase-IsMap id tombs s.tomb_keys;
    lease_keys = s.lease_keys;
  }
