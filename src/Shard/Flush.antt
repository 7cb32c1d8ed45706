-- ===== src/Shard/Flush.antt =====
-- The one write at the end of `Update` (internal/collections/statemachine.go), and the cardinality rows
-- in it.
use wave_span.Base.{
  ℕ, ◌+◌, ◌%◌, ◌^◌, ◌<◌, ◌==◌, ◌≡◌, sym, ap, subst, ◌∙◌, arith, Option, none, some, Option-cases,
  Bool-cases, inl, inr, Bytes, List, [], ◌∷◌, ◌++◌, lookup, IsMap, All, All-append, All-imp,
}
use wave_span.Base.Int.{ℤ, pos}
use wave_span.Base.Int64.{to_u64, eq_ℤ, eq_ℤ_iff}
use wave_span.Budget.Wire.{get_u64, put_u64}
use wave_span.Budget.RoundTrip.{get_u64-put_u64}
use wave_span.Shard.{UpdateCtx, ShardSm, Rows, StoreOp, apply_ops, type_set}
use wave_span.Shard.Keys.{card_key, type_key, elem_prefix, coll_scope, data_space, applied_key}
use wave_span.Shard.Context.{or_else, type_from}
use wave_span.Shard.Update.{
  read_card, card_ops, seq_op, batch_of, flush, read_dedup_seq, card_of, written,
}
use wave_span.Shard.Disjoint.{IsShort}
use wave_span.Shard.Outside.{IsAside, IsOutside}
use wave_span.Shard.Families.{dedup_seq_key-IsOutside, applied_key-IsOutside}
use wave_span.Shard.Count.{
  count, count-apply_ops, key_of, apply_ops-append, apply_ops-IsMap, lookup-apply_ops,
}
use wave_span.Shard.Counted.{IsCounted, pending}
use wave_span.Shard.Cards.{lookup-card_ops, card_ops-All, card_after, new_card_lem}

-- The collection is a set whose stored cardinality is the number of its element rows, which is below
-- 2^63.
pub record IsSetRow (ns coll : Bytes) (s : ShardSm) : Type 0 where
  pub rows : IsMap s.store
  pub header : type_from none (lookup (type_key s ns coll) s.store) ≡ some type_set
  pub card : read_card s.store (card_key s ns coll) ≡ some (count (elem_prefix s ns coll) s.store)
  pub room : count (elem_prefix s ns coll) s.store < 2 ^ 63

card_of-put_u64 : (n : ℕ) → n < 2 ^ 64 → card_of (some (put_u64 n)) ≡ some n
unfolding put_u64
card_of-put_u64 n h = let e : get_u64 (put_u64 n) ≡ n = get_u64-put_u64 n [] h in ap (λ m. some m) e

-- The row of a cardinality after its change, from the row before.
changed_card :
    (change : Option ℤ) (row : Option Bytes) (before after : ℕ)
    → card_of row ≡ some before
    → before < 2 ^ 63
    → after < 2 ^ 63
    → (to_u64 (or_else change (pos 0)) + before) % 2 ^ 64 ≡ after % 2 ^ 64
    → card_of (card_after change (some before) row) ≡ some after
unfolding card_after
changed_card none row before after h room room' e = h ∙ ap (λ n. some n) (omega (arith, e))
changed_card (some d) row before after h room room' e = elim (Bool-cases (eq_ℤ d (pos 0))) [
  | inl z ↦
      let zero : d ≡ pos 0 = (eq_ℤ_iff d (pos 0)).0 z in
      let e' = subst (λ x. (to_u64 x + before) % 2 ^ 64 ≡ after % 2 ^ 64) zero e in
      rw z (h ∙ ap (λ n. some n) (omega (arith, e')))
  | inr nz ↦
      let value = new_card_lem before d after room room' e in
      rw (nz, value) (card_of-put_u64 after (omega (arith, room')))
]

absurd_of {ℓ} : {A : Type ℓ} {a : A} → ◌≡◌ {A = Option A} none (some a) → ⊥
absurd_of e = cc

none-some {ℓ κ} : {A : Type ℓ} {a : A} {C : Type κ} → ◌≡◌ {A = Option A} none (some a) → C
none-some e = elim (absurd_of e) [ ]

some-inj {ℓ} : {A : Type ℓ} {a b : A} → ◌≡◌ {A = Option A} (some a) (some b) → a ≡ b
some-inj e = cc

module _ (ns coll : Bytes) (short : IsShort ns × IsShort coll) (u : UpdateCtx) (index : ℕ) where
  abbrev seq_ops : List StoreOp
  unfolding read_dedup_seq
  seq_ops = seq_op u.s (read_dedup_seq u.s) u.dedup_seq

  abbrev last_op : StoreOp
  last_op = StoreOp.put (applied_key u.s) (put_u64 index)

  seq_ops-IsOutside : All (λ (op : StoreOp). IsOutside u.s ns coll (key_of op)) seq_ops
  unfolding seq_ops
  seq_ops-IsOutside = elim (Bool-cases (u.dedup_seq == read_dedup_seq u.s)) [
    | inl e ↦ rw e tt
    | inr e ↦ rw e (dedup_seq_key-IsOutside u.s ns coll short, tt)
  ]

  rest_ops-IsAside :
      (cards : List StoreOp)
      → IsCounted ns coll u
      → card_ops u.s.store u.card_delta ≡ some cards
      → All (λ (op : StoreOp). IsAside u.s ns coll (key_of op)) (seq_ops ++ (cards ++ last_op ∷ []))
  rest_ops-IsAside cards h q =
      All-append _ seq_ops (cards ++ last_op ∷ [])
        (All-imp (λ op (k : IsOutside u.s ns coll (key_of op)). k.aside) seq_ops seq_ops-IsOutside)
        (All-append _ cards (last_op ∷ [])
          (card_ops-All (IsAside u.s ns coll) u.s.store u.card_delta cards q h.aside)
          ((applied_key-IsOutside u.s ns coll short).aside, tt))

  -- The rows after the batch, the sequence of the ring and the cardinalities.
  abbrev through : List StoreOp → Rows
  through cards = apply_ops (seq_ops ++ (cards ++ last_op ∷ [])) (pending u)

  card_through :
      (cards : List StoreOp)
      → IsCounted ns coll u
      → card_ops u.s.store u.card_delta ≡ some cards
      → lookup (card_key u.s ns coll) (through cards)
        ≡ card_after
            (lookup (card_key u.s ns coll) u.card_delta)
            (some (count (elem_prefix u.s ns coll) u.s.store))
            (lookup (card_key u.s ns coll) u.s.store)
  card_through cards h q =
      let ck = card_key u.s ns coll in
      let start = apply_ops seq_ops (pending u) in
      let is_map = apply_ops-IsMap u.ops u.s.store h.rows in
      let is_map' = apply_ops-IsMap seq_ops (pending u) is_map in
      let split = apply_ops-append seq_ops (cards ++ last_op ∷ []) (pending u) in
      let split' = apply_ops-append cards (last_op ∷ []) start in
      let last =
        lookup-apply_ops ck (last_op ∷ []) (apply_ops cards start)
          (apply_ops-IsMap cards start is_map')
          ((applied_key-IsOutside u.s ns coll short).card, tt) in
      let first = lookup-apply_ops ck seq_ops (pending u) is_map (
        All-imp (λ op (k : IsOutside u.s ns coll (key_of op)). k.card) seq_ops seq_ops-IsOutside) in
      ap (lookup ck) (split ∙ split')
      ∙ (last
          ∙ (lookup-card_ops u.s.store u.card_delta cards ck start h.deltas q ∙ λ i.
              card_after (lookup ck u.card_delta) (h.stored i) ((first ∙ h.card) i)))

  flushed :
      (cards : List StoreOp)
      → IsCounted ns coll u
      → card_ops u.s.store u.card_delta ≡ some cards
      → count (elem_prefix u.s ns coll) (through cards) < 2 ^ 63
      → IsSetRow ns coll (record u.s { store = through cards })
  unfolding read_card card_key type_key elem_prefix coll_scope data_space
  flushed cards h q room =
      let p = elem_prefix u.s ns coll in
      let ops = seq_ops ++ (cards ++ last_op ∷ []) in
      let aside = rest_ops-IsAside cards h q in
      let is_map = apply_ops-IsMap u.ops u.s.store h.rows in
      let same : count p (through cards) ≡ count p (pending u) =
        count-apply_ops p ops (pending u)
          (All-imp (λ op (k : IsAside u.s ns coll (key_of op)). k.elem) ops aside) in
      let header =
        lookup-apply_ops (type_key u.s ns coll) ops (pending u) is_map
          (All-imp (λ op (k : IsAside u.s ns coll (key_of op)). k.header) ops aside) in
      let change = lookup (card_key u.s ns coll) u.card_delta in
      record {
        rows = apply_ops-IsMap ops (pending u) is_map;
        header = ap (type_from none) (header ∙ h.header) ∙ h.of_set;
        card =
            ap card_of (card_through cards h q)
            ∙ changed_card change (lookup (card_key u.s ns coll) u.s.store) (count p u.s.store)
                (count p (through cards)) h.stored h.room room
                (h.delta ∙ ap (λ n. n % 2 ^ 64) (sym same));
        room = room;
      }

  written_lem :
      (s' : ShardSm)
      → flush u index ≡ some s'
      → (cards : List StoreOp) × (card_ops u.s.store u.card_delta ≡ some cards)
        × (s' ≡ record u.s { store = through cards })
  unfolding flush batch_of seq_ops read_dedup_seq
  written_lem s' h = elim (Option-cases (card_ops u.s.store u.card_delta)) [
    | inl q ↦ none-some (sym (ap (λ o. written u.s (batch_of u index o)) q) ∙ h)
    | inr (cards, q) ↦
        let all = u.ops ++ (seq_ops ++ (cards ++ last_op ∷ [])) in
        let done : some (record u.s { store = apply_ops all u.s.store }) ≡ some s' =
          sym (ap (λ o. written u.s (batch_of u index o)) q) ∙ h in
        let split = apply_ops-append u.ops (seq_ops ++ (cards ++ last_op ∷ [])) u.s.store in
        (cards, q, sym (some-inj done) ∙ λ i. record u.s { store = split i })
  ]

  -- The write leaves the set with the number of its rows as its cardinality, if that is below 2^63.
  pub flush-IsSetRow :
      (s' : ShardSm)
      → IsCounted ns coll u
      → flush u index ≡ some s'
      → count (elem_prefix s' ns coll) s'.store < 2 ^ 63
      → IsSetRow ns coll s'
  unfolding elem_prefix coll_scope data_space
  flush-IsSetRow s' h e room =
      let (cards, q, form) = written_lem s' e in
      subst (IsSetRow ns coll) (sym form) (
        flushed cards h q
          (subst (λ (x : ShardSm). count (elem_prefix x ns coll) x.store < 2 ^ 63) form room))
