-- ===== src/Shard/Members.antt =====
-- A member comes or goes: the cases of `applyCommand` (internal/collections/statemachine.go) that write
-- and delete element rows.
use wave_span.Base.{
  ℕ, ◌+◌, ◌%◌, ◌^◌, ◌≡◌, refl, sym, ap, subst, ◌∙◌, arith, Bool, true, false, Option, Option-cases,
  Bool-cases, inl, inr, Bytes, bytes_eq, bytes_eq_iff, bytes_eq_refl, List, [], ◌∷◌, ◌++◌, lookup,
  insert, lookup-insert, lookup-erase, insert-IsMap,
}
use wave_span.Base.Int.{ℤ, pos, negsuc}
use wave_span.Base.Int64.{add64, to_u64, to_u64-add64}
use wave_span.Shard.{UpdateCtx, ShardSm, StoreOp, apply_op, apply_ops}
use wave_span.Shard.Keys.{card_key, type_key, elem_prefix, elem_key}
use wave_span.Shard.Context.{is_some, elem_exists, known_type, emit, bump}
use wave_span.Shard.Apply.{create_elem, delete_elem}
use wave_span.Shard.Count.{
  count, count-insert, count-erase, apply_ops-append, apply_ops-IsMap, hit, key_of, lookup-apply_op,
}
use wave_span.Shard.Disjoint.{IsShort}
use wave_span.Shard.Outside.{IsAside, suffix_of-append, card_key-IsAside, type_apart, card_apart}
use wave_span.Shard.Counted.{IsCounted, IsCardMap, pending, delta_of}

pub insert-IsCardMap :
    (s : ShardSm) (ns coll ck : Bytes) (d : ℤ) (deltas : List (Bytes × ℤ))
    → IsAside s ns coll ck
    → IsCardMap s ns coll deltas
    → IsCardMap s ns coll (insert ck d deltas)
unfolding insert
insert-IsCardMap s ns coll ck d [] h k = (h, tt)
insert-IsCardMap s ns coll ck d ((j, e) ∷ deltas) h k = elim (Bool-cases (bytes_eq j ck)) [
  | inl same ↦ rw same k
  | inr other ↦ rw other (k.0, insert-IsCardMap s ns coll ck d deltas h k.1)
]

-- The count after a change of one.
delta_step :
    (d : ℤ) (step : ℤ) (base before after : ℕ)
    → (to_u64 d + base) % 2 ^ 64 ≡ before % 2 ^ 64
    → (before + to_u64 step) % 2 ^ 64 ≡ after % 2 ^ 64
    → (to_u64 (add64 d step) + base) % 2 ^ 64 ≡ after % 2 ^ 64
delta_step d step base before after h k = omega (arith, to_u64-add64 d step)

new_delta :
    (ck : Bytes) (d : ℤ) (deltas : List (Bytes × ℤ))
    → delta_of (insert ck (add64 (delta_of deltas ck) d) deltas) ck ≡ add64 (delta_of deltas ck) d
new_delta ck d deltas =
    rw (lookup-insert ck ck (add64 (delta_of deltas ck) d) deltas, bytes_eq_refl ck) refl

own_hit :
    (s : ShardSm) (ns coll member : Bytes)
    → hit (elem_prefix s ns coll) (elem_key s ns coll member) ≡ 1
unfolding elem_key
own_hit s ns coll member = rw (suffix_of-append (elem_prefix s ns coll) member) refl

module _ (ns coll : Bytes) (short : IsShort ns × IsShort coll) where
  -- One write of the row of a member, with the overlays that say so.
  own_write :
      (member : Bytes) (op : StoreOp) (flag : Bool) (step : ℤ) (vals : List (Bytes × Option Bytes))
      (u : UpdateCtx)
      → key_of op ≡ elem_key u.s ns coll member
      → is_some (lookup (elem_key u.s ns coll member) (apply_op op (pending u))) ≡ flag
      → (count (elem_prefix u.s ns coll) (pending u) + to_u64 step) % 2 ^ 64
        ≡ count (elem_prefix u.s ns coll) (apply_op op (pending u)) % 2 ^ 64
      → IsCounted ns coll u
      → IsCounted ns coll (record u {
        ops = u.ops ++ op ∷ [];
        exists = insert (elem_key u.s ns coll member) flag u.exists;
        card_delta =
            insert
              (card_key u.s ns coll)
              (add64 (delta_of u.card_delta (card_key u.s ns coll)) step)
              u.card_delta;
        vals = vals;
      })
  unfolding elem_exists known_type apply_ops
  own_write member op flag step vals u key there counted h =
      let ek = elem_key u.s ns coll member in
      let ck = card_key u.s ns coll in
      let p = elem_prefix u.s ns coll in
      let split : apply_ops (u.ops ++ op ∷ []) u.s.store ≡ apply_op op (pending u) =
        apply_ops-append u.ops (op ∷ []) u.s.store in
      let is_map = apply_ops-IsMap u.ops u.s.store h.rows in
      let away = λ (j : Bytes) (apart : bytes_eq ek j ≡ false).
        ap (lookup j) split
        ∙ lookup-apply_op j op (pending u) is_map
            (subst (λ k. bytes_eq k j ≡ false) (sym key) apart) in
      record {
        rows = h.rows;
        room = h.room;
        stored = h.stored;
        of_set = h.of_set;
        seen = λ m. elim (Bool-cases (bytes_eq ek (elem_key u.s ns coll m))) [
          | inl same ↦
              let e : ek ≡ elem_key u.s ns coll m =
                (bytes_eq_iff ek (elem_key u.s ns coll m)).0 same in
              rw (lookup-insert (elem_key u.s ns coll m) ek flag u.exists, same)
                (sym (subst (λ k. is_some (lookup k (apply_op op (pending u))) ≡ flag) e there)
                  ∙ ap (λ rows. is_some (lookup (elem_key u.s ns coll m) rows)) (sym split))
          | inr other ↦
              rw (lookup-insert (elem_key u.s ns coll m) ek flag u.exists, other)
                (h.seen m ∙ sym (ap is_some (away (elem_key u.s ns coll m) other)))
        ];
        deltas = insert-IsMap ck _ u.card_delta h.deltas;
        aside =
            insert-IsCardMap u.s ns coll ck _ u.card_delta
              (card_key-IsAside u.s ns coll short ns coll short) h.aside;
        delta =
            ap (λ d. (to_u64 d + count p u.s.store) % 2 ^ 64) (new_delta ck step u.card_delta)
            ∙ (delta_step (delta_of u.card_delta ck) step (count p u.s.store) (count p (pending u))
                  (count p (apply_op op (pending u))) h.delta counted
                ∙ sym (ap (λ rows. count p rows % 2 ^ 64) split));
        typed = h.typed;
        header = away (type_key u.s ns coll) (type_apart u.s ns coll short member) ∙ h.header;
        card = away ck (card_apart u.s ns coll short member) ∙ h.card;
      }

  pub create_elem-IsCounted :
      (member val : Bytes) (u : UpdateCtx)
      → elem_exists u (elem_key u.s ns coll member) ≡ false
      → IsCounted ns coll u
      → IsCounted ns coll (create_elem ns coll member val u)
  unfolding create_elem emit bump
  create_elem-IsCounted member val u absent h =
      let ek = elem_key u.s ns coll member in
      let p = elem_prefix u.s ns coll in
      let gone : is_some (lookup ek (pending u)) ≡ false = sym (h.seen member) ∙ absent in
      let more = count-insert p ek val (pending u) in
      let one = own_hit u.s ns coll member in
      own_write member (StoreOp.put ek val) true (pos 1) u.vals u refl
        (rw (lookup-insert ek ek val (pending u), bytes_eq_refl ek) refl)
        (elim (Option-cases (lookup ek (pending u))) [
          | inl e ↦ let c = rw e at more in omega (arith, one, c)
          | inr (w, e) ↦ let c = rw e at gone in ground arith
        ])
        h

  pub delete_elem-IsCounted :
      (member : Bytes) (vals : List (Bytes × Option Bytes)) (u : UpdateCtx)
      → elem_exists u (elem_key u.s ns coll member) ≡ true
      → IsCounted ns coll u
      → IsCounted ns coll (record (delete_elem ns coll member u) { vals = vals })
  unfolding delete_elem emit bump
  delete_elem-IsCounted member vals u seen h =
      let ek = elem_key u.s ns coll member in
      let p = elem_prefix u.s ns coll in
      let there : is_some (lookup ek (pending u)) ≡ true = sym (h.seen member) ∙ seen in
      let less = count-erase p ek (pending u) in
      let one = own_hit u.s ns coll member in
      let is_map = apply_ops-IsMap u.ops u.s.store h.rows in
      own_write member (StoreOp.delete ek) false (negsuc 0) vals u refl
        (rw (lookup-erase ek ek (pending u) is_map, bytes_eq_refl ek) refl)
        (elim (Option-cases (lookup ek (pending u))) [
          | inl e ↦ let c = rw e at there in ground arith
          | inr (w, e) ↦ let c = rw e at less in omega (arith, one, c)
        ])
        h
