-- ===== src/Shard/Counted.antt =====
-- The cardinality of a set: the invariant of the overlays, and what the single writes keep.
use wave_span.Base.{
  ℕ, ◌+◌, ◌%◌, ◌^◌, ◌<◌, ◌≡◌, ◌≢◌, sym, ap, ◌∙◌, arith, Bool, false, Option, none, some, Bytes,
  bytes_eq, bytes_eq_iff, List, ◌++◌, lookup, IsMap, All, All-imp,
}
use wave_span.Base.Int.{ℤ, pos}
use wave_span.Base.Int64.{to_u64}
use wave_span.Shard.{UpdateCtx, ShardSm, Rows, StoreOp, apply_ops, ProposeResult, type_set}
use wave_span.Shard.Keys.{card_key, type_key, elem_prefix, elem_key, coll_scope}
use wave_span.Shard.Context.{is_some, or_else, type_from, elem_exists, known_type, get_data}
use wave_span.Shard.Migrate.{suffix_of}
use wave_span.Shard.Update.{read_card}
use wave_span.Shard.Count.{
  count, count-apply_ops, key_of, apply_ops-append, apply_ops-IsMap, lookup-apply_ops,
}
use wave_span.Shard.Outside.{IsAside, IsOutside, suffix_of-append}

-- The rows that the batch will leave.
abbrev pub pending : UpdateCtx → Rows
pending u = apply_ops u.ops u.s.store

-- The change of a cardinality, as the overlay has it.
abbrev pub delta_of : List (Bytes × ℤ) → Bytes → ℤ
delta_of deltas ck = or_else (lookup ck deltas) (pos 0)

-- Every change is one of a cardinality row.
abbrev pub IsCardMap : ShardSm → Bytes → Bytes → List (Bytes × ℤ) → Type 0
IsCardMap s ns coll deltas = All (λ (e : Bytes × ℤ). IsAside s ns coll e.0) deltas

-- The collection is a set; the overlay shows which members the batch leaves, and the change of the
-- cardinality is the change of their number, up to the wrap of a uint64.
pub record IsCounted (ns coll : Bytes) (u : UpdateCtx) : Type 0 where
  pub rows : IsMap u.s.store
  pub room : count (elem_prefix u.s ns coll) u.s.store < 2 ^ 63
  pub stored :
      read_card u.s.store (card_key u.s ns coll) ≡ some (count (elem_prefix u.s ns coll) u.s.store)
  pub of_set : type_from none (lookup (type_key u.s ns coll) u.s.store) ≡ some type_set
  pub seen :
      (m : Bytes)
      → elem_exists u (elem_key u.s ns coll m)
        ≡ is_some (lookup (elem_key u.s ns coll m) (pending u))
  pub deltas : IsMap u.card_delta
  pub aside : IsCardMap u.s ns coll u.card_delta
  pub delta :
      (to_u64 (delta_of u.card_delta (card_key u.s ns coll))
          + count (elem_prefix u.s ns coll) u.s.store)
        % 2 ^ 64
      ≡ count (elem_prefix u.s ns coll) (pending u) % 2 ^ 64
  pub typed : known_type u ns coll ≡ some type_set
  pub header : lookup (type_key u.s ns coll) (pending u) ≡ lookup (type_key u.s ns coll) u.s.store
  pub card : lookup (card_key u.s ns coll) (pending u) ≡ lookup (card_key u.s ns coll) u.s.store

none-some {ℓ} : {A : Type ℓ} {a : A} → ◌≡◌ {A = Option A} none (some a) → ⊥
none-some e = cc

-- The reads of a row of an element past a key that is aside.
pub elem_apart :
    (s : ShardSm) (ns coll k m : Bytes)
    → IsAside s ns coll k
    → bytes_eq k (elem_key s ns coll m) ≡ false
unfolding elem_key
elem_apart s ns coll k m h =
    let not_it : k ≢ elem_prefix s ns coll ++ m = λ e.
      let found : suffix_of (elem_prefix s ns coll) k ≡ some m =
        ap (suffix_of (elem_prefix s ns coll)) e ∙ suffix_of-append (elem_prefix s ns coll) m in
      none-some (sym h.elem ∙ found) in
    ground (arith, bytes_eq_iff k (elem_prefix s ns coll ++ m))

-- Writes outside the collection's rows, with overlays that are the same at its rows.
pub frame_lem :
    (ns coll : Bytes) (u : UpdateCtx) (ops : List StoreOp) (exists : List (Bytes × Bool))
    (zscore : List (Bytes × Option ℕ)) (card_delta : List (Bytes × ℤ)) (htype : List (Bytes × ℕ))
    (vals : List (Bytes × Option Bytes)) (seq : ℕ) (dedup : List (Bytes × ProposeResult))
    → IsCounted ns coll u
    → All (λ (op : StoreOp). IsOutside u.s ns coll (key_of op)) ops
    → ((m : Bytes)
        → lookup (elem_key u.s ns coll m) exists ≡ lookup (elem_key u.s ns coll m) u.exists)
    → IsMap card_delta
    → IsCardMap u.s ns coll card_delta
    → lookup (card_key u.s ns coll) card_delta ≡ lookup (card_key u.s ns coll) u.card_delta
    → lookup (coll_scope u.s ns coll) htype ≡ lookup (coll_scope u.s ns coll) u.htype
    → IsCounted ns coll (record {
      s = u.s;
      ops = u.ops ++ ops;
      exists = exists;
      zscore = zscore;
      card_delta = card_delta;
      htype = htype;
      vals = vals;
      dedup_seq = seq;
      in_batch_dedup = dedup;
    })
unfolding elem_exists known_type get_data
frame_lem ns coll u ops exists zscore card_delta htype vals seq dedup h out ex m a ck scope =
    let split = apply_ops-append u.ops ops u.s.store in
    let is_map = apply_ops-IsMap u.ops u.s.store h.rows in
    let away = λ (j : Bytes) (apart : All (λ (op : StoreOp). bytes_eq (key_of op) j ≡ false) ops).
      ap (lookup j) split ∙ lookup-apply_ops j ops (pending u) is_map apart in
    record {
      rows = h.rows;
      room = h.room;
      stored = h.stored;
      of_set = h.of_set;
      seen = λ member.
          ap (λ o. or_else o (is_some (lookup (elem_key u.s ns coll member) u.s.store))) (ex member)
          ∙ (h.seen member
              ∙ sym (
                  ap is_some (
                    away (elem_key u.s ns coll member) (
                      All-imp
                        (λ op (k : IsOutside u.s ns coll (key_of op)).
                          elem_apart u.s ns coll (key_of op) member k.aside)
                        ops out))));
      deltas = m;
      aside = a;
      delta =
          ap
            (λ o. (to_u64 (or_else o (pos 0)) + count (elem_prefix u.s ns coll) u.s.store) % 2 ^ 64)
            ck
          ∙ (h.delta
              ∙ sym (
                  ap (λ n. n % 2 ^ 64)
                    (ap (count (elem_prefix u.s ns coll)) split
                      ∙ count-apply_ops (elem_prefix u.s ns coll) ops (pending u) (
                          All-imp (λ op (k : IsOutside u.s ns coll (key_of op)). k.aside.elem) ops
                            out))));
      typed = ap (λ o. type_from o (lookup (type_key u.s ns coll) u.s.store)) scope ∙ h.typed;
      header =
          away (type_key u.s ns coll)
            (All-imp (λ op (k : IsOutside u.s ns coll (key_of op)). k.aside.header) ops out)
          ∙ h.header;
      card =
          away (card_key u.s ns coll)
            (All-imp (λ op (k : IsOutside u.s ns coll (key_of op)). k.card) ops out)
          ∙ h.card;
    }

-- Overlays that are the same at the collection's rows.
pub overlay_lem :
    (ns coll : Bytes) (u : UpdateCtx) (exists : List (Bytes × Bool))
    (zscore : List (Bytes × Option ℕ)) (htype : List (Bytes × ℕ))
    (vals : List (Bytes × Option Bytes)) (seq : ℕ) (dedup : List (Bytes × ProposeResult))
    → IsCounted ns coll u
    → ((m : Bytes)
        → lookup (elem_key u.s ns coll m) exists ≡ lookup (elem_key u.s ns coll m) u.exists)
    → lookup (coll_scope u.s ns coll) htype ≡ lookup (coll_scope u.s ns coll) u.htype
    → IsCounted ns coll (record u {
      exists = exists;
      zscore = zscore;
      htype = htype;
      vals = vals;
      dedup_seq = seq;
      in_batch_dedup = dedup;
    })
unfolding elem_exists known_type get_data
overlay_lem ns coll u exists zscore htype vals seq dedup h ex scope = record {
  rows = h.rows;
  room = h.room;
  stored = h.stored;
  of_set = h.of_set;
  seen = λ member.
      ap (λ o. or_else o (is_some (lookup (elem_key u.s ns coll member) u.s.store))) (ex member)
      ∙ h.seen member;
  deltas = h.deltas;
  aside = h.aside;
  delta = h.delta;
  typed = ap (λ o. type_from o (lookup (type_key u.s ns coll) u.s.store)) scope ∙ h.typed;
  header = h.header;
  card = h.card;
}
