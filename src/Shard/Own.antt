-- ===== src/Shard/Own.antt =====
-- The items of a command on a set: `applyCommand` of internal/collections/statemachine.go.
use wave_span.Base.{
  ℕ, ◌==◌, ◌≡◌, ◌⊎◌, refl, ap, Bool, ◌||◌, Bool-cases, inl, inr, none, some, Bytes, bytes_eq_refl,
  List, [], ◌∷◌, lookup, insert, lookup-insert, if◌then◌else◌,
}
use wave_span.Shard.{
  UpdateCtx, Item, Command, type_set, type_hash, type_z_set, op_s_add, op_s_rem, op_expire,
  op_remove,
}
use wave_span.Shard.Keys.{elem_key, coll_scope, type_key}
use wave_span.Shard.Exec.{Exec, Res, pure, reads, modify, ◌>>=◌, after, Keeps, keeps_rules}
use wave_span.Shard.Context.{
  elem_exists, known_type, type_from, note_type, note_known, type_of, ensure_with, ensure_type,
  set_ttl, clear_ttl,
}
use wave_span.Shard.Apply.{
  create_elem, delete_elem, note_val, finish_add, finish_drop, set_add, remove_elem, drop_expired,
  expire_elem, z_rem, remove_any, apply_item, apply_items,
}
use wave_span.Shard.Disjoint.{IsShort}
use wave_span.Shard.Counted.{IsCounted}
use wave_span.Shard.Members.{create_elem-IsCounted, delete_elem-IsCounted}
use wave_span.Shard.Expiring.{set_ttl-Keeps, clear_ttl-Keeps}

after_at :
    {A B : Type 0} (P : UpdateCtx → Type 0) (r : Res A) (f : A → Exec UpdateCtx B) (u : UpdateCtx)
    → P u
    → ((a : A) → Keeps P (f a))
    → P (after r f u).0
unfolding after
after_at P (Res.ok a) f u p k = (k a).at u p
after_at P (Res.fail e) f u p k = p

-- A first action from where it stands, and then one that keeps the predicate.
bind_at :
    {A B : Type 0} (P : UpdateCtx → Type 0) (m : Exec UpdateCtx A) (f : A → Exec UpdateCtx B)
    (u : UpdateCtx)
    → P (m u).0
    → ((a : A) → Keeps P (f a))
    → P ((m >>= f) u).0
unfolding ◌>>=◌
bind_at P m f u p k = after_at P (m u).1 f (m u).0 p k

pub note_type-IsCounted :
    (ns coll : Bytes) (u : UpdateCtx)
    → IsCounted ns coll u
    → IsCounted ns coll (note_type ns coll type_set u)
unfolding note_type known_type elem_exists
note_type-IsCounted ns coll u h =
    let found : lookup (coll_scope u.s ns coll) (insert (coll_scope u.s ns coll) type_set u.htype)
        ≡ some type_set =
      rw
        (
          lookup-insert (coll_scope u.s ns coll) (coll_scope u.s ns coll) type_set u.htype,
          bytes_eq_refl (coll_scope u.s ns coll),
        )
        refl in
    record {
      rows = h.rows;
      room = h.room;
      stored = h.stored;
      of_set = h.of_set;
      seen = h.seen;
      deltas = h.deltas;
      aside = h.aside;
      delta = h.delta;
      typed = ap (λ o. type_from o (lookup (type_key u.s ns coll) u.s.store)) found;
      header = h.header;
      card = h.card;
    }

-- The opcodes that pass the guard of a set.
abbrev pub IsSetOp : Command → Type 0
IsSetOp c = ((c.op ≡ op_s_add) ⊎ (c.op ≡ op_s_rem)) ⊎ ((c.op ≡ op_expire) ⊎ (c.op ≡ op_remove))

module _ (c : Command) (short : IsShort c.ns × IsShort c.coll) where
  -- The overlay's answer for the item's member.
  abbrev seen : Item → UpdateCtx → Bool
  seen it u = elem_exists u (elem_key u.s c.ns c.coll it.key)

  abbrev add_first : Item → Bool → Exec UpdateCtx (Unit {0})
  add_first it present = if present then pure tt else modify (create_elem c.ns c.coll it.key [])

  abbrev drop_first : Item → Bool → Exec UpdateCtx (Unit {0})
  drop_first it present = if present then modify (delete_elem c.ns c.coll it.key) else pure tt

  abbrev forget_first : Item → Bool → Exec UpdateCtx (Unit {0})
  forget_first it present =
      if present
      then modify (λ u. note_val c.ns c.coll it.key none (delete_elem c.ns c.coll it.key u))
      else pure tt

  add_first-IsCounted :
      (it : Item) (u : UpdateCtx)
      → IsCounted c.ns c.coll u
      → IsCounted c.ns c.coll (add_first it (seen it u) u).0
  unfolding pure modify
  add_first-IsCounted it u h = elim (Bool-cases (seen it u)) [
    | inl e ↦ rw e h
    | inr e ↦ rw e (create_elem-IsCounted c.ns c.coll short it.key [] u e h)
  ]

  drop_first-IsCounted :
      (it : Item) (u : UpdateCtx)
      → IsCounted c.ns c.coll u
      → IsCounted c.ns c.coll (drop_first it (seen it u) u).0
  unfolding pure modify delete_elem
  drop_first-IsCounted it u h = elim (Bool-cases (seen it u)) [
    | inl e ↦ rw e (delete_elem-IsCounted c.ns c.coll short it.key u.vals u e h)
    | inr e ↦ rw e h
  ]

  forget_first-IsCounted :
      (it : Item) (u : UpdateCtx)
      → IsCounted c.ns c.coll u
      → IsCounted c.ns c.coll (forget_first it (seen it u) u).0
  unfolding pure modify note_val delete_elem
  forget_first-IsCounted it u h = elim (Bool-cases (seen it u)) [
    | inl e ↦ rw e (delete_elem-IsCounted c.ns c.coll short it.key _ u e h)
    | inr e ↦ rw e h
  ]

  expiring-own :
      (member : Bytes) (expiry : ℕ)
      → Keeps (IsCounted c.ns c.coll) (set_ttl c.ns c.coll member expiry)
  expiring-own member expiry = set_ttl-Keeps c.ns c.coll short c.ns c.coll member expiry short

  cleared-own : (member : Bytes) → Keeps (IsCounted c.ns c.coll) (clear_ttl c.ns c.coll member)
  cleared-own member = clear_ttl-Keeps c.ns c.coll short c.ns c.coll member short

  finish_add-own :
      (it : Item) (present : Bool) → Keeps (IsCounted c.ns c.coll) (finish_add c it present)
  unfolding finish_add
  finish_add-own it present = search (keeps_rules, expiring-own)

  finish_drop-own :
      (it : Item) (present : Bool) → Keeps (IsCounted c.ns c.coll) (finish_drop c it present)
  unfolding finish_drop
  finish_drop-own it present = search (keeps_rules, cleared-own)

  set_add-own : (it : Item) → Keeps (IsCounted c.ns c.coll) (set_add c it)
  unfolding set_add reads ◌>>=◌ after
  set_add-own it = record {
    at = λ u h.
        bind_at (IsCounted c.ns c.coll) (add_first it (seen it u))
          (λ _. finish_add c it (seen it u)) u (add_first-IsCounted it u h)
          (λ _. finish_add-own it (seen it u));
  }

  remove_elem-own : (it : Item) → Keeps (IsCounted c.ns c.coll) (remove_elem c it)
  unfolding remove_elem reads ◌>>=◌ after
  remove_elem-own it = record {
    at = λ u h.
        bind_at (IsCounted c.ns c.coll) (forget_first it (seen it u))
          (λ _. finish_drop c it (seen it u)) u (forget_first-IsCounted it u h)
          (λ _. finish_drop-own it (seen it u));
  }

  drop_expired-own : (it : Item) → Keeps (IsCounted c.ns c.coll) (drop_expired c it)
  unfolding drop_expired reads ◌>>=◌ after
  drop_expired-own it = record {
    at = λ u h.
        bind_at (IsCounted c.ns c.coll) (drop_first it (seen it u))
          (λ _. finish_drop c it (seen it u)) u (drop_first-IsCounted it u h)
          (λ _. finish_drop-own it (seen it u));
  }

  expire_elem-own : (it : Item) → Keeps (IsCounted c.ns c.coll) (expire_elem c it)
  unfolding expire_elem
  expire_elem-own it = search (keeps_rules, drop_expired-own)

  -- The type of the set is read off the overlay or the header, and kept in the overlay.
  type_of-own :
      (u : UpdateCtx)
      → IsCounted c.ns c.coll u
      → type_of c.ns c.coll u ≡ (note_type c.ns c.coll type_set u, Res.ok type_set)
  unfolding type_of note_known
  type_of-own u h = rw h.typed refl

  pub ensure_type-own :
      (want : ℕ) (u : UpdateCtx)
      → IsCounted c.ns c.coll u
      → ensure_type c.ns c.coll want u
        ≡ (note_type c.ns c.coll type_set u, Res.ok (type_set == want))
  unfolding ensure_type ensure_with
  ensure_type-own want u h = rw h.typed refl

  -- An action that begins with the lookup of the type.
  pub typed_bind :
      {A : Type 0} (f : ℕ → Exec UpdateCtx A)
      → Keeps (IsCounted c.ns c.coll) (f type_set)
      → Keeps (IsCounted c.ns c.coll) (type_of c.ns c.coll >>= f)
  unfolding ◌>>=◌ after
  typed_bind f k = record {
    at = λ u h.
        rw (type_of-own u h)
          (k.at (note_type c.ns c.coll type_set u) (note_type-IsCounted c.ns c.coll u h));
  }

  remove_any-own : (it : Item) → Keeps (IsCounted c.ns c.coll) (remove_any c it)
  unfolding remove_any
  remove_any-own it =
      typed_bind
        (λ t.
          if t == type_set || t == type_hash
          then remove_elem c it
          else if t == type_z_set
          then z_rem c it
          else pure 0)
        (remove_elem-own it)

  apply_item-own : IsSetOp c → (it : Item) → Keeps (IsCounted c.ns c.coll) (apply_item c it)
  unfolding apply_item
  apply_item-own (inl (inl e)) it = simp e (set_add-own it)
  apply_item-own (inl (inr e)) it = simp e (remove_elem-own it)
  apply_item-own (inr (inl e)) it = simp e (expire_elem-own it)
  apply_item-own (inr (inr e)) it = simp e (remove_any-own it)

  pub apply_items-own :
      IsSetOp c → (its : List Item) → Keeps (IsCounted c.ns c.coll) (apply_items c its)
  unfolding apply_items
  apply_items-own h [] = search keeps_rules
  apply_items-own h (it ∷ its) = search (keeps_rules, apply_item-own h it, apply_items-own h its)
