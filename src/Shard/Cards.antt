-- ===== src/Shard/Cards.antt =====
-- The cardinality rows that `Update` writes.
use wave_span.Base.{
  ℕ, ◌+◌, ◌%◌, ◌^◌, ◌<◌, ◌≡◌, refl, sym, ap, subst, ◌∙◌, arith, false, Option, none, some,
  Option-cases, Bool-cases, inl, inr, Bytes, bytes_eq, bytes_eq_iff, List, [], ◌∷◌, lookup, insert,
  IsMap, lookup-insert, All, if◌then◌else◌,
}
use wave_span.Base.Int.{ℤ, pos}
use wave_span.Base.Int64.{add64, wrap64, to_u64, from_u64, to_u64-add64, to_u64-from_u64, eq_ℤ}
use wave_span.Budget.Wire.{put_u64}
use wave_span.Shard.{Rows, StoreOp, apply_ops}
use wave_span.Shard.Count.{key_of}
use wave_span.Shard.Update.{read_card, new_card, card_ops}

-- A row after its change: nothing without a change of it.
unfoldable pub card_after : Option ℤ → Option ℕ → Option Bytes → Option Bytes
unfolding new_card
card_after none cur row = row
card_after (some d) none row = row
card_after (some d) (some cur) row = if eq_ℤ d (pos 0) then row else some (put_u64 (new_card cur d))

-- The operation for one change, and those for the rest.
card_ops-cons :
    (rows : Rows) (k : Bytes) (d : ℤ) (deltas : List (Bytes × ℤ)) (ops : List StoreOp)
    → card_ops rows ((k, d) ∷ deltas) ≡ some ops
    → eq_ℤ d (pos 0) ≡ false
    → (cur : ℕ) × (more : List StoreOp) × (read_card rows k ≡ some cur)
      × (card_ops rows deltas ≡ some more)
      × (ops ≡ StoreOp.put k (put_u64 (new_card cur d)) ∷ more)
unfolding card_ops
card_ops-cons rows k d deltas ops h e =
    let h' = rw e at h in
    elim (Option-cases (read_card rows k)) [
      | inl r ↦ let h'' = rw r at h' in ground arith
      | inr (cur, r) ↦ elim (Option-cases (card_ops rows deltas)) [
        | inl q ↦ let h'' = rw (r, q) at h' in ground arith
        | inr (more, q) ↦ (cur, more, r, q, let h'' = rw (r, q) at h' in ground arith)
      ]
    ]

pub lookup-card_ops :
    (rows : Rows) (deltas : List (Bytes × ℤ)) (ops : List StoreOp) (j : Bytes) (base : Rows)
    → IsMap deltas
    → card_ops rows deltas ≡ some ops
    → lookup j (apply_ops ops base)
      ≡ card_after (lookup j deltas) (read_card rows j) (lookup j base)
unfolding card_ops apply_ops lookup card_after
lookup-card_ops rows [] ops j base m h =
    let e : [] ≡ ops = ground arith in
    subst (λ o. lookup j (apply_ops o base) ≡ lookup j base) e refl
lookup-card_ops rows ((k, d) ∷ deltas) ops j base m h = elim (Bool-cases (eq_ℤ d (pos 0))) [
  | inl z ↦
      let rest = lookup-card_ops rows deltas ops j base m.1 (rw z at h) in
      elim (Bool-cases (bytes_eq k j)) [
        | inl same ↦
            let e : k ≡ j = (bytes_eq_iff k j).0 same in
            let none' : lookup j deltas ≡ none = subst (λ x. lookup x deltas ≡ none) e m.0 in
            elim (Option-cases (read_card rows j)) [
              | inl r ↦ rw (same, r) (rest ∙ rw none' refl)
              | inr (cur, r) ↦ rw (same, r, z) (rest ∙ rw none' refl)
            ]
        | inr other ↦ rw other rest
      ]
  | inr nz ↦
      let (cur, more, r, q, e) = card_ops-cons rows k d deltas ops h nz in
      let v = put_u64 (new_card cur d) in
      let rest = lookup-card_ops rows deltas more j (insert k v base) m.1 q in
      let start : lookup j (apply_ops ops base) ≡ lookup j (apply_ops more (insert k v base)) =
        ap (λ o. lookup j (apply_ops o base)) e in
      let put = lookup-insert j k v base in
      start
      ∙ (rest ∙ elim (Bool-cases (bytes_eq k j)) [
        | inl same ↦
            let e : k ≡ j = (bytes_eq_iff k j).0 same in
            let none' : lookup j deltas ≡ none = subst (λ x. lookup x deltas ≡ none) e m.0 in
            let found : read_card rows j ≡ some cur =
              subst (λ x. read_card rows x ≡ some cur) e r in
            rw (none', put, same, found, nz) refl
        | inr other ↦ rw (put, other) refl
      ])
]

-- Every operation is on the key of a change.
pub card_ops-All {κ} :
    (P : Bytes → Type κ) (rows : Rows) (deltas : List (Bytes × ℤ)) (ops : List StoreOp)
    → card_ops rows deltas ≡ some ops
    → All (λ (e : Bytes × ℤ). P e.0) deltas
    → All (λ op. P (key_of op)) ops
unfolding card_ops
card_ops-All P rows [] ops h k =
    let e : [] ≡ ops = ground arith in subst (All (λ op. P (key_of op))) e tt
card_ops-All P rows ((j, d) ∷ deltas) ops h k = elim (Bool-cases (eq_ℤ d (pos 0))) [
  | inl z ↦ card_ops-All P rows deltas ops (rw z at h) k.1
  | inr nz ↦
      let (cur, more, r, q, e) = card_ops-cons rows j d deltas ops h nz in
      subst (All (λ op. P (key_of op))) (sym e) (k.0, card_ops-All P rows deltas more q k.1)
]

-- The new cardinality is the old one and the change, where it is below 2^63.
pub new_card_lem :
    (cur : ℕ) (d : ℤ) (n : ℕ)
    → cur < 2 ^ 63
    → n < 2 ^ 63
    → (to_u64 d + cur) % 2 ^ 64 ≡ n % 2 ^ 64
    → new_card cur d ≡ n
unfolding new_card add64 wrap64
new_card_lem cur d n h k e = ground (arith, to_u64-add64 (from_u64 cur) d, to_u64-from_u64 cur)
