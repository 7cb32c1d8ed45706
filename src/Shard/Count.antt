-- ===== src/Shard/Count.antt =====
-- The number of rows under a prefix, through the operations of a batch.
use wave_span.Base.{
  ℕ, ◌+◌, ◌≡◌, refl, ◌∙◌, subst, arith, false, Option, none, some, Option-cases, Bool-cases, inl,
  inr, Bytes, bytes_eq, bytes_eq_iff, List, [], ◌∷◌, ◌++◌, length, lookup, insert, erase, IsMap,
  lookup-insert, lookup-erase, insert-IsMap, erase-IsMap, if◌then◌else◌, All,
}
use wave_span.Shard.{Rows, StoreOp, apply_op, apply_ops}
use wave_span.Shard.Context.{is_some}
use wave_span.Shard.Migrate.{suffix_of, scan}

abbrev pub hit : Bytes → Bytes → ℕ
hit p k = if is_some (suffix_of p k) then 1 else 0

abbrev pub present {ℓ} : {A : Type ℓ} → Option A → ℕ → ℕ
present none n = 0
present (some a) n = n

-- `cardCheckQuery` counts the rows of a scan.
unfoldable pub count : Bytes → Rows → ℕ
unfolding scan
count p rows = length (scan p rows)

count-cons : (p k v : Bytes) (rows : Rows) → count p ((k, v) ∷ rows) ≡ hit p k + count p rows
unfolding count
count-cons p k v rows = elim (Option-cases (suffix_of p k)) [
  | inl e ↦ rw e (omega arith)
  | inr (r, e) ↦ rw e (omega arith)
]

pub count-insert :
    (p k v : Bytes) (rows : Rows)
    → count p (insert k v rows) + present (lookup k rows) (hit p k) ≡ count p rows + hit p k
unfolding insert lookup
count-insert p k v [] = omega (arith, count-cons p k v [])
count-insert p k v ((j, w) ∷ rows) = elim (Bool-cases (bytes_eq j k)) [
  | inl same ↦
      let e : j ≡ k = (bytes_eq_iff j k).0 same in
      rw same (
        subst (λ x. count p ((j, v) ∷ rows) + hit p x ≡ count p ((j, w) ∷ rows) + hit p x) e
          (omega (arith, count-cons p j v rows, count-cons p j w rows)))
  | inr other ↦ rw other (
      omega
        (arith, count-cons p j w (insert k v rows), count-cons p j w rows, count-insert p k v rows))
]

pub count-erase :
    (p k : Bytes) (rows : Rows)
    → count p (erase k rows) + present (lookup k rows) (hit p k) ≡ count p rows
unfolding erase lookup
count-erase p k [] = omega arith
count-erase p k ((j, w) ∷ rows) = elim (Bool-cases (bytes_eq j k)) [
  | inl same ↦
      let e : j ≡ k = (bytes_eq_iff j k).0 same in
      rw same (
        subst (λ x. count p rows + hit p x ≡ count p ((j, w) ∷ rows)) e
          (omega (arith, count-cons p j w rows)))
  | inr other ↦
      rw other (
        omega (arith, count-cons p j w (erase k rows), count-cons p j w rows, count-erase p k rows))
]

abbrev pub key_of : StoreOp → Bytes
key_of (StoreOp.put k v) = k
key_of (StoreOp.delete k) = k

pub apply_op-IsMap : (op : StoreOp) (rows : Rows) → IsMap rows → IsMap (apply_op op rows)
apply_op-IsMap (StoreOp.put k v) rows h = insert-IsMap k v rows h
apply_op-IsMap (StoreOp.delete k) rows h = erase-IsMap k rows h

pub apply_ops-IsMap : (ops : List StoreOp) (rows : Rows) → IsMap rows → IsMap (apply_ops ops rows)
unfolding apply_ops
apply_ops-IsMap [] rows h = h
apply_ops-IsMap (op ∷ ops) rows h =
    apply_ops-IsMap ops (apply_op op rows) (apply_op-IsMap op rows h)

pub apply_ops-append :
    (ops more : List StoreOp) (rows : Rows)
    → apply_ops (ops ++ more) rows ≡ apply_ops more (apply_ops ops rows)
unfolding apply_ops
apply_ops-append [] more rows = refl
apply_ops-append (op ∷ ops) more rows = apply_ops-append ops more (apply_op op rows)

-- An operation on another key.
pub lookup-apply_op :
    (j : Bytes) (op : StoreOp) (rows : Rows)
    → IsMap rows
    → bytes_eq (key_of op) j ≡ false
    → lookup j (apply_op op rows) ≡ lookup j rows
lookup-apply_op j (StoreOp.put k v) rows m h = rw (lookup-insert j k v rows, h) refl
lookup-apply_op j (StoreOp.delete k) rows m h = rw (lookup-erase j k rows m, h) refl

pub lookup-apply_ops :
    (j : Bytes) (ops : List StoreOp) (rows : Rows)
    → IsMap rows
    → All (λ op. bytes_eq (key_of op) j ≡ false) ops
    → lookup j (apply_ops ops rows) ≡ lookup j rows
unfolding apply_ops
lookup-apply_ops j [] rows m h = refl
lookup-apply_ops j (op ∷ ops) rows m h =
    lookup-apply_ops j ops (apply_op op rows) (apply_op-IsMap op rows m) h.1
    ∙ lookup-apply_op j op rows m h.0

count-apply_op :
    (p : Bytes) (op : StoreOp) (rows : Rows)
    → suffix_of p (key_of op) ≡ none
    → count p (apply_op op rows) ≡ count p rows
count-apply_op p (StoreOp.put k v) rows h =
    let c = count-insert p k v rows in
    let z : hit p k ≡ 0 = rw h refl in
    elim (Option-cases (lookup k rows)) [
      | inl e ↦ omega (arith, rw e at c)
      | inr (w, e) ↦ omega (arith, rw e at c)
    ]
count-apply_op p (StoreOp.delete k) rows h =
    let c = count-erase p k rows in
    let z : hit p k ≡ 0 = rw h refl in
    elim (Option-cases (lookup k rows)) [
      | inl e ↦ omega (arith, rw e at c)
      | inr (w, e) ↦ omega (arith, rw e at c)
    ]

pub count-apply_ops :
    (p : Bytes) (ops : List StoreOp) (rows : Rows)
    → All (λ op. suffix_of p (key_of op) ≡ none) ops
    → count p (apply_ops ops rows) ≡ count p rows
unfolding apply_ops
count-apply_ops p [] rows h = refl
count-apply_ops p (op ∷ ops) rows h =
    count-apply_ops p ops (apply_op op rows) h.1 ∙ count-apply_op p op rows h.0
