-- ===== src/Budget/Invariant.antt =====
-- The books of a budget: the pool row beside the outstanding leases (internal/collections/budget.go).
use wave_span.Base.{
  ℕ, ◌+◌, ◌^◌, ◌≤◌, ◌<◌, ◌≡◌, arith, Option, none, some, List, [], Bytes, lookup, insert, erase,
  IsMap, total, measure, Values, total-insert, total-erase, insert-IsMap, erase-IsMap,
  insert-Values, erase-Values, by_if, by_option, subst,
}
use wave_span.Base.Int.{ℤ, pos, pos_part, neg_part, ltb_ℤ}
use wave_span.Budget.{Budget, PoolRec, LeaseRec, Reply, set_lease}
use wave_span.Budget.Grant.{
  pace, grantable, lease_out, new_lease, write_grant, grant_new, grant, effective_ttl, is_unguarded,
}
use wave_span.Budget.Pool.{IsPool, IsLease, held, pace-IsPool, lease_out-IsPool, grantable_bounds}

-- The pool row against the leases; without a pool there is no lease.
abbrev pub PoolMatches : ℕ → List (Bytes × LeaseRec) → Option PoolRec → Type 0
PoolMatches e leases none = (leases ≡ []) × (e ≡ 0)
PoolMatches e leases (some p) = IsPool e (total held leases) p

pub record IsSoundRows (excess : ℕ) (pool : Option PoolRec) (leases : List (Bytes × LeaseRec))
    : Type 0 where
  pub matches : PoolMatches excess leases pool
  pub keys : IsMap leases
  pub values : Values IsLease leases

-- `excess` is 0 where the buckets add up to the cap.
abbrev pub IsSound : ℕ → Budget → Type 0
IsSound excess b = IsSoundRows excess b.pool b.leases

-- The budget that an operation leaves is sound.
pub record SoundAfter (excess : ℕ) (r : Budget × Reply) : Type 0 where
  pub sound : IsSound excess r.0

pub pool_of :
    (e : ℕ) (b : Budget) (p : PoolRec)
    → IsSound e b
    → b.pool ≡ some p
    → IsPool e (total held b.leases) p
pool_of e b p s h = subst (PoolMatches e b.leases) h s.matches

new_lease-IsLease :
    (g t ttl : ℤ) (holder : Bytes) (p : PoolRec)
    → neg_part g ≡ 0
    → pos_part g < 2 ^ 63
    → IsLease (new_lease g t ttl holder p) × (held (new_lease g t ttl holder p) ≡ pos_part g)
unfolding new_lease
new_lease-IsLease g t ttl holder p n k = (ground arith, omega arith)

-- A live lease holds part of what is held in all.
pub held-le-total :
    (id : Bytes) (l : LeaseRec) (leases : List (Bytes × LeaseRec))
    → lookup id leases ≡ some l
    → held l ≤ total held leases
held-le-total id l leases h = let eq = rw h at (total-erase held id leases) in omega arith

-- The rows after a lease is written, and after it is deleted.
pub written :
    (e h : ℕ) (id : Bytes) (p : PoolRec) (l : LeaseRec) (leases : List (Bytes × LeaseRec))
    → IsMap leases
    → Values IsLease leases
    → IsPool e h p
    → IsLease l
    → h + measure held (lookup id leases) ≡ total held leases + held l
    → IsSoundRows e (some p) (insert id l leases)
written e h id p l leases m v i k eq = record {
  matches = subst (λ n. IsPool e n p) (omega (arith, total-insert held id l leases)) i;
  keys = insert-IsMap id l leases m;
  values = insert-Values IsLease id l leases k v;
}

pub deleted :
    (e h : ℕ) (id : Bytes) (p : PoolRec) (leases : List (Bytes × LeaseRec))
    → IsMap leases
    → Values IsLease leases
    → IsPool e h p
    → h + measure held (lookup id leases) ≡ total held leases
    → IsSoundRows e (some p) (erase id leases)
deleted e h id p leases m v i eq = record {
  matches = subst (λ n. IsPool e n p) (omega (arith, total-erase held id leases)) i;
  keys = erase-IsMap id leases m;
  values = erase-Values IsLease id leases v;
}

write_grant-IsSound :
    (e : ℕ) (id : Bytes) (g t ttl : ℤ) (holder : Bytes) (p : PoolRec) (b : Budget)
    → IsSound e b
    → IsPool e (total held b.leases) p
    → lookup id b.leases ≡ none
    → neg_part g ≡ 0
    → pos_part g ≤ pos_part p.available
    → IsSound e (write_grant id g t ttl holder p b).0
unfolding write_grant
write_grant-IsSound e id g t ttl holder p b s i fresh n k =
    let (lease, holds) = new_lease-IsLease g t ttl holder p n (omega arith) in
    let rows : IsSoundRows e (some (lease_out g p))
        (insert id (new_lease g t ttl holder p) b.leases) =
      written e (total held b.leases + pos_part g) id (lease_out g p) (new_lease g t ttl holder p)
        b.leases s.keys s.values (lease_out-IsPool g e (total held b.leases) p i n k) lease
        (rw fresh (omega (arith, holds))) in
    by_if (λ c. IsSound e (set_lease id (new_lease g t ttl holder p) c)) (ltb_ℤ (pos 0) ttl)
      (λ _. rows) (λ _. rows)

grant_new-IsSound :
    (e : ℕ) (id : Bytes) (amount t o : ℤ) (holder : Bytes) (p : PoolRec) (b : Budget)
    → IsSound e b
    → b.pool ≡ some p
    → lookup id b.leases ≡ none
    → SoundAfter e (grant_new id amount t o holder p b)
unfolding grant_new
grant_new-IsSound e id amount t o holder p b s have fresh =
    let ttl = effective_ttl o p in
    let i = pace-IsPool t e (total held b.leases) p (pool_of e b p s have) in
    let g = grantable amount (pace t p) in
    by_if (SoundAfter e) (is_unguarded ttl p) (λ _. record { sound = s })
      (λ _.
        by_if (SoundAfter e) (ltb_ℤ (pos 0) g)
          (λ gives.
            let bounds = grantable_bounds amount (pace t p) gives i.available_nonneg in
            record {
              sound =
                  write_grant-IsSound e id g t ttl holder (pace t p) b s i fresh bounds.0 bounds.1;
            })
          (λ _. record { sound = s }))

-- A grant keeps the books.
pub grant-IsSound :
    (e : ℕ) (id : Bytes) (amount t o : ℤ) (holder : Bytes) (b : Budget)
    → IsSound e b
    → SoundAfter e (grant id amount t o holder b)
unfolding grant
grant-IsSound e id amount t o holder b s =
    let same : (a : Reply) → SoundAfter e (b, a) = λ a. record { sound = s } in
    by_if (SoundAfter e) (ltb_ℤ amount (pos 0)) (λ _. same _)
      (λ _.
        by_option (SoundAfter e) (lookup id b.tombs)
          (λ _.
            by_option (SoundAfter e) (lookup id b.leases)
              (λ fresh.
                by_option (SoundAfter e) b.pool (λ _. same _)
                  (λ p have. grant_new-IsSound e id amount t o holder p b s have fresh))
              (λ l _. same _))
          (λ t _. same _))
