-- ===== src/Idempotency.antt =====
-- internal/replication/local/idempotency.go: the bounded cache of mutation ids. The mutex makes each
-- method one step.
mod Tests
use wave_span.Base.{
  ℕ, ◌+◌, ◌≤◌, ◌<◌, ◌≡◌, refl, sym, ap, ◌∙◌, arith, ltb, ◌==◌, not, Bool-cases, Option-cases, inl,
  inr, true, false, Bytes, bytes_eq, bytes_eq_refl, Option, none, some, List, [], ◌∷◌, ◌++◌, length,
  length-append, lookup, insert, erase, lookup-insert, by_if, if◌then◌else◌,
}
use wave_span.Version.{Version}

pub record Idempotency : Type 0 where
  pub seen : List (Bytes × Version)
  pub order : List Bytes
  pub cap : ℕ

unfoldable pub new_idempotency : ℕ → Idempotency
new_idempotency capacity = record {
  seen = [];
  order = [];
  cap = if capacity == 0 then 8192 else capacity;
}

unfoldable pub check : Idempotency → Bytes → Option Version
check i id = lookup id i.seen

-- The oldest entry goes.
abbrev pub drop_oldest : List Bytes → Idempotency → Idempotency
drop_oldest [] i = i
drop_oldest (oldest ∷ order) i = record i { seen = erase oldest i.seen; order = order }

unfoldable pub make_room : Idempotency → Idempotency
make_room i = if ltb (length i.order) i.cap then i else drop_oldest i.order i

abbrev pub put : Bytes → Version → Idempotency → Idempotency
put id v i = record i { seen = insert id v i.seen; order = i.order ++ id ∷ [] }

-- `Record`, once it has looked the id up.
abbrev pub record_at : Idempotency → Bytes → Version → Option Version → Idempotency
unfolding make_room
record_at i id v none = put id v (make_room i)
record_at i id v (some _) = i

-- `Record`.
unfoldable pub record_id : Idempotency → Bytes → Version → Idempotency
unfolding check record_at
record_id i id v = record_at i id v (check i id)

record_known :
    (i : Idempotency) (id : Bytes) (v w : Version) → check i id ≡ some w → record_id i id v ≡ i
unfolding record_id record_at
record_known i id v w known = ap (record_at i id v) known

record_fresh :
    (i : Idempotency) (id : Bytes) (v : Version)
    → check i id ≡ none
    → record_id i id v ≡ put id v (make_room i)
unfolding record_id record_at
record_fresh i id v fresh = ap (record_at i id v) fresh

-- The version that a mutation id resolves to.
abbrev pub resolved : Option Version → Version → Version
resolved none v = v
resolved (some w) v = w

check-put : (i : Idempotency) (id : Bytes) (v : Version) → check (put id v i) id ≡ some v
unfolding check
check-put i id v = rw (lookup-insert id id v i.seen, bytes_eq_refl id) refl

-- After an id is recorded it resolves to its first version: the one recorded before, else the new one.
pub check-record_id :
    (i : Idempotency) (id : Bytes) (v : Version)
    → check (record_id i id v) id ≡ some (resolved (check i id) v)
check-record_id i id v = elim (Option-cases (check i id)) [
  | inr (w, known) ↦ rw (record_known i id v w known, known) refl
  | inl fresh ↦ rw (record_fresh i id v fresh, fresh) (check-put (make_room i) id v)
]

-- A retry of an id changes nothing, whatever version it brings.
pub record_id_again :
    (i : Idempotency) (id : Bytes) (v w : Version)
    → record_id (record_id i id v) id w ≡ record_id i id v
record_id_again i id v w =
    record_known (record_id i id v) id w (resolved (check i id) v) (check-record_id i id v)

abbrev HasRoom : ℕ → Idempotency → Type 0
HasRoom cap i = (i.cap ≡ cap) × (length i.order + 1 ≤ cap)

drop_oldest-HasRoom :
    (order : List Bytes) (i : Idempotency)
    → i.order ≡ order
    → 0 < i.cap
    → length order ≤ i.cap
    → HasRoom i.cap (drop_oldest order i)
drop_oldest-HasRoom [] i e h k = (refl, rw e (omega arith))
drop_oldest-HasRoom (oldest ∷ order) i e h k = (refl, omega arith)

make_room-HasRoom :
    (i : Idempotency) → 0 < i.cap → length i.order ≤ i.cap → HasRoom i.cap (make_room i)
unfolding make_room
make_room-HasRoom i h k =
    by_if (HasRoom i.cap) (ltb (length i.order) i.cap) (λ room. (refl, ground arith))
      (λ full. drop_oldest-HasRoom i.order i refl h k)

-- A cache of positive capacity that holds at most its capacity does so after an id is recorded, and
-- its capacity stays.
pub record_id_bound :
    (i : Idempotency) (id : Bytes) (v : Version)
    → 0 < i.cap
    → length i.order ≤ i.cap
    → (length (record_id i id v).order ≤ i.cap) × ((record_id i id v).cap ≡ i.cap)
record_id_bound i id v h k = elim (Option-cases (check i id)) [
  | inr (w, known) ↦ rw (record_known i id v w known) (k, refl)
  | inl fresh ↦
      let (cap, room) = make_room-HasRoom i h k in
      rw (record_fresh i id v fresh)
        (omega (arith, length-append (make_room i).order (id ∷ [])), cap)
]
