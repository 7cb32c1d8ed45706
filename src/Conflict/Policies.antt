-- ===== src/Conflict/Policies.antt =====
-- Which resolver the registry gives for a policy name.
use wave_span.Base.{
  ◌≡◌, refl, subst, Bool, Option, none, some, compare_bytes, Bytes, bytes_eq, bytes_eq_iff, List,
  if◌then◌else◌, true, false,
}
use wave_span.Records.{StoredRecord}
use wave_span.Conflict.{
  Resolver, Registry, last_write_wins, keep_siblings, new_registry, register, resolver,
  lookup_policy, or_fallback, policy_keep_siblings, policy_hlc_last_write_wins,
}

pick :
    (b : Bool) (r fallback : Resolver) (o : Option Resolver)
    → or_fallback fallback (if b then some r else o) ≡ (if b then r else or_fallback fallback o)
pick true r fallback o = refl
pick false r fallback o = refl

pick_two :
    (b c : Bool) (f k : Resolver)
    → (b ≡ true → c ≡ false)
    → or_fallback f (if b then some f else if c then some k else none) ≡ (if c then k else f)
pick_two true c f k h = rw (h refl)
pick_two false true f k h = refl
pick_two false false f k h = refl

names_differ : bytes_eq policy_keep_siblings policy_hlc_last_write_wins ≡ false
unfolding compare_bytes bytes_eq
names_differ = refl

-- A fresh registry gives keep-siblings for its name, and last-write-wins for every other name:
-- empty, unknown and deferred policies included.
pub resolver-new_registry :
    (range : List StoredRecord → List StoredRecord) (policy : Bytes)
    → resolver (new_registry range) policy
      ≡ (if bytes_eq policy_keep_siblings policy then keep_siblings range else last_write_wins)
unfolding resolver lookup_policy new_registry
resolver-new_registry range policy =
    pick_two (bytes_eq policy_hlc_last_write_wins policy) (bytes_eq policy_keep_siblings policy)
      last_write_wins (keep_siblings range)
      (λ h.
        subst (λ p. bytes_eq policy_keep_siblings p ≡ false)
          ((bytes_eq_iff policy_hlc_last_write_wins policy).0 h) names_differ)

-- A registered resolver is found under its name, and every other name is resolved as before.
pub resolver-register :
    (g : Registry) (policy name : Bytes) (r : Resolver)
    → resolver (register g policy r) name ≡ (if bytes_eq policy name then r else resolver g name)
unfolding resolver register lookup_policy
resolver-register g policy name r =
    pick (bytes_eq policy name) r g.fallback (lookup_policy name g.resolvers)
