-- ===== src/Shard/Foreign.antt =====
-- The writes for another collection than a given set: updateCtx of internal/collections.
use wave_span.Base.{
  ℕ, ◌≡◌, refl, Bool, true, false, Option, none, some, Bytes, bytes_eq, List, ◌++◌, lookup, insert,
  lookup-insert, insert-IsMap, All,
}
use wave_span.Base.Int.{ℤ}
use wave_span.Shard.{UpdateCtx, StoreOp}
use wave_span.Shard.Keys.{card_key, elem_key, coll_scope}
use wave_span.Shard.Exec.{modify, Keeps, Keeps-modify}
use wave_span.Shard.Context.{
  emit, bump, note_type, note_known, create_type, ensure_with, type_of, ensure_type, set_field_val,
  known_type,
}
use wave_span.Shard.Apply.{create_elem, delete_elem, replace_elem, note_val, put_score, drop_score}
use wave_span.Shard.Counter.{write_counter}
use wave_span.Shard.Commands.{Atoms}
use wave_span.Shard.Count.{key_of}
use wave_span.Shard.Disjoint.{IsShort}
use wave_span.Shard.Outside.{IsOutside, card_key-IsAside}
use wave_span.Shard.Families.{
  elem_key-IsOutside, zscore_key-IsOutside, zptr_key-IsOutside, type_key-IsOutside,
  card_key-IsOutside, coll_scope_apart,
}
use wave_span.Shard.Counted.{IsCounted, elem_apart, frame_lem, overlay_lem}
use wave_span.Shard.Members.{insert-IsCardMap}
use wave_span.Shard.LeaseRows.{leases-Atoms}
use wave_span.Shard.Expiring.{quiet_write, set_ttl-Keeps, clear_ttl-Keeps}

module _ (ns coll : Bytes) (short : IsShort ns × IsShort coll) where
  -- A collection other than the set.
  module _ (ns' coll' : Bytes) (short' : IsShort ns' × IsShort coll')
      (other : (ns' ≡ ns) × (coll' ≡ coll) → ⊥) where
    -- The member's overlay of the other collection.
    same_exists :
        (u : UpdateCtx) (member : Bytes) (flag : Bool) (m : Bytes)
        → lookup (elem_key u.s ns coll m) (insert (elem_key u.s ns' coll' member) flag u.exists)
          ≡ lookup (elem_key u.s ns coll m) u.exists
    same_exists u member flag m =
        let ek = elem_key u.s ns' coll' member in
        let apart : bytes_eq ek (elem_key u.s ns coll m) ≡ false =
          elem_apart u.s ns coll ek m
            (elem_key-IsOutside u.s ns coll short ns' coll' short' other member).aside in
        rw (lookup-insert (elem_key u.s ns coll m) ek flag u.exists, apart) refl

    -- Operations outside, and a change of the other collection's cardinality.
    bumped :
        (u : UpdateCtx) (ops : List StoreOp) (exists : List (Bytes × Bool))
        (zscore : List (Bytes × Option ℕ)) (vals : List (Bytes × Option Bytes)) (d : ℤ)
        → IsCounted ns coll u
        → All (λ (op : StoreOp). IsOutside u.s ns coll (key_of op)) ops
        → ((m : Bytes)
            → lookup (elem_key u.s ns coll m) exists ≡ lookup (elem_key u.s ns coll m) u.exists)
        → IsCounted ns coll (record u {
          ops = u.ops ++ ops;
          exists = exists;
          zscore = zscore;
          vals = vals;
          card_delta = insert (card_key u.s ns' coll') d u.card_delta;
        })
    bumped u ops exists zscore vals d h out ex =
        let ck = card_key u.s ns' coll' in
        let apart = (card_key-IsOutside u.s ns coll short ns' coll' short' other).card in
        frame_lem ns coll u ops exists zscore (insert ck d u.card_delta) u.htype vals u.dedup_seq
          u.in_batch_dedup h out ex (insert-IsMap ck d u.card_delta h.deltas)
          (insert-IsCardMap u.s ns coll ck d u.card_delta
            (card_key-IsAside u.s ns coll short ns' coll' short') h.aside)
          (rw (lookup-insert (card_key u.s ns coll) ck d u.card_delta, apart) refl) refl

    create_elem-Keeps :
        (member val : Bytes) → Keeps (IsCounted ns coll) (modify (create_elem ns' coll' member val))
    unfolding create_elem emit bump
    create_elem-Keeps member val = Keeps-modify _ λ u h.
        bumped u _ _ u.zscore u.vals _ h
          (elem_key-IsOutside u.s ns coll short ns' coll' short' other member, tt)
          (same_exists u member true)

    delete_elem-Keeps :
        (member : Bytes) → Keeps (IsCounted ns coll) (modify (delete_elem ns' coll' member))
    unfolding delete_elem emit bump
    delete_elem-Keeps member = Keeps-modify _ λ u h.
        bumped u _ _ u.zscore u.vals _ h
          (elem_key-IsOutside u.s ns coll short ns' coll' short' other member, tt)
          (same_exists u member false)

    forget_elem-Keeps :
        (member : Bytes)
        → Keeps
            (IsCounted ns coll)
            (modify (λ u. note_val ns' coll' member none (delete_elem ns' coll' member u)))
    unfolding note_val delete_elem emit bump
    forget_elem-Keeps member = Keeps-modify _ λ u h.
        bumped u _ _ u.zscore _ _ h
          (elem_key-IsOutside u.s ns coll short ns' coll' short' other member, tt)
          (same_exists u member false)

    replace_elem-Keeps :
        (member val : Bytes)
        → Keeps (IsCounted ns coll) (modify (replace_elem ns' coll' member val))
    unfolding replace_elem emit
    replace_elem-Keeps member val = Keeps-modify _ λ u h.
        quiet_write ns coll u _ _ u.zscore u.vals u.dedup_seq u.in_batch_dedup h
          (elem_key-IsOutside u.s ns coll short ns' coll' short' other member, tt)
          (same_exists u member true)

    note_val-Keeps :
        (member : Bytes) (v : Option Bytes)
        → Keeps (IsCounted ns coll) (modify (note_val ns' coll' member v))
    unfolding note_val
    note_val-Keeps member v = Keeps-modify _ λ u h.
        overlay_lem ns coll u u.exists u.zscore u.htype _ u.dedup_seq u.in_batch_dedup h (λ m. refl)
          refl

    put_score-Keeps :
        (member : Bytes) (score : ℕ) (old : Option ℕ)
        → Keeps (IsCounted ns coll) (modify (put_score ns' coll' member score old))
    unfolding put_score emit bump
    put_score-Keeps member score none = Keeps-modify _ λ u h.
        bumped u _ u.exists _ u.vals _ h
          (
            zscore_key-IsOutside u.s ns coll short ns' coll' short' other score member,
            (zptr_key-IsOutside u.s ns coll short ns' coll' short' other member, tt),
          )
          (λ m. refl)
    put_score-Keeps member score (some old) = Keeps-modify _ λ u h.
        quiet_write ns coll u _ u.exists _ u.vals u.dedup_seq u.in_batch_dedup h
          (
            zscore_key-IsOutside u.s ns coll short ns' coll' short' other old member,
            (
              zscore_key-IsOutside u.s ns coll short ns' coll' short' other score member,
              (zptr_key-IsOutside u.s ns coll short ns' coll' short' other member, tt),
            ),
          )
          (λ m. refl)

    drop_score-Keeps :
        (member : Bytes) (old : Option ℕ)
        → Keeps (IsCounted ns coll) (modify (drop_score ns' coll' member old))
    unfolding drop_score emit bump
    drop_score-Keeps member none = Keeps-modify _ (λ u h. h)
    drop_score-Keeps member (some old) = Keeps-modify _ λ u h.
        bumped u _ u.exists _ u.vals _ h
          (
            zscore_key-IsOutside u.s ns coll short ns' coll' short' other old member,
            (zptr_key-IsOutside u.s ns coll short ns' coll' short' other member, tt),
          )
          (λ m. refl)

    write_counter-Keeps :
        (member val : Bytes) (found : Bool)
        → Keeps (IsCounted ns coll) (modify (write_counter ns' coll' member val found))
    unfolding write_counter set_field_val emit bump
    write_counter-Keeps member val true = Keeps-modify _ λ u h.
        quiet_write ns coll u _ _ u.zscore _ u.dedup_seq u.in_batch_dedup h
          (elem_key-IsOutside u.s ns coll short ns' coll' short' other member, tt)
          (same_exists u member true)
    write_counter-Keeps member val false = Keeps-modify _ λ u h.
        bumped u _ _ u.zscore _ _ h
          (elem_key-IsOutside u.s ns coll short ns' coll' short' other member, tt)
          (same_exists u member true)

    note_known-Keeps :
        (t : Option ℕ) (u : UpdateCtx)
        → IsCounted ns coll u
        → IsCounted ns coll (note_known ns' coll' t u)
    unfolding note_known note_type
    note_known-Keeps none u h = h
    note_known-Keeps (some t) u h =
        overlay_lem ns coll u u.exists u.zscore _ u.vals u.dedup_seq u.in_batch_dedup h (λ m. refl)
          (rw
            (
              lookup-insert (coll_scope u.s ns coll) (coll_scope u.s ns' coll') t u.htype,
              coll_scope_apart u.s ns coll short ns' coll' short' other,
            )
            refl)

    type_of-Keeps : Keeps (IsCounted ns coll) (type_of ns' coll')
    unfolding type_of
    type_of-Keeps = record { at = λ u h. note_known-Keeps (known_type u ns' coll') u h }

    ensure_with-Keeps :
        (want : ℕ) (t : Option ℕ) (u : UpdateCtx)
        → IsCounted ns coll u
        → IsCounted ns coll (ensure_with ns' coll' want t u).0
    unfolding ensure_with create_type note_type emit
    ensure_with-Keeps want (some t) u h = unfold note_known in note_known-Keeps (some t) u h
    ensure_with-Keeps want none u h =
        frame_lem ns coll u _ u.exists u.zscore u.card_delta _ u.vals u.dedup_seq u.in_batch_dedup h
          (type_key-IsOutside u.s ns coll short ns' coll' short' other, tt) (λ m. refl) h.deltas
          h.aside refl
          (rw
            (
              lookup-insert (coll_scope u.s ns coll) (coll_scope u.s ns' coll') want u.htype,
              coll_scope_apart u.s ns coll short ns' coll' short' other,
            )
            refl)

    ensure_type-Keeps : (want : ℕ) → Keeps (IsCounted ns coll) (ensure_type ns' coll' want)
    unfolding ensure_type
    ensure_type-Keeps want = record {
      at = λ u h. ensure_with-Keeps want (known_type u ns' coll') u h;
    }

    pub foreign-Atoms : Atoms (IsCounted ns coll) ns' coll'
    foreign-Atoms = record {
      typed = type_of-Keeps;
      ensured = ensure_type-Keeps;
      expiring = λ member expiry. set_ttl-Keeps ns coll short ns' coll' member expiry short';
      cleared = λ member. clear_ttl-Keeps ns coll short ns' coll' member short';
      created = create_elem-Keeps;
      deleted = delete_elem-Keeps;
      forgotten = forget_elem-Keeps;
      replaced = replace_elem-Keeps;
      noted = note_val-Keeps;
      scored = put_score-Keeps;
      unscored = drop_score-Keeps;
      counter = write_counter-Keeps;
      budget = leases-Atoms ns coll short ns' coll' short';
    }
