-- ===== src/Shard/Refresh.antt =====
-- The expiry of a member that comes and goes in one batch: `setTTL` and `clearTTL` of
-- internal/collections/ttl.go read the store and not the batch.
use wave_span.Base.{
  ◌≡◌, refl, ap, ◌∙◌, arith, true, false, none, some, bytes_eq, bytes_eq_iff, bytes_eq_refl, [],
  ◌∷◌, ◌++◌, lookup, insert, erase, lookup-insert, lookup-erase, IsMap, insert-IsMap,
}
use wave_span.Base.Int.{pos, ltb_ℤ}
use wave_span.Base.Int64.{to_u64}
use wave_span.Budget.Wire.{put_u64}
use wave_span.Shard.{UpdateCtx, StoreOp, Item, Command, apply_ops}
use wave_span.Shard.Keys.{elem_key, ttl_ptr_key, ttl_index_key}
use wave_span.Shard.Exec.{Res, pure, reads, modify, ◌>>=◌, after}
use wave_span.Shard.Context.{
  emit, bump, elem_exists, get_data, ttl_expiry_of, write_ttl, set_ttl, erase_ttl, clear_ttl,
}
use wave_span.Shard.Apply.{
  create_elem, delete_elem, note_val, finish_add, finish_drop, set_add, remove_elem,
}
use wave_span.Shard.Count.{apply_ops-append, apply_ops-IsMap}
use wave_span.Shard.Counted.{pending, elem_apart}
use wave_span.Shard.Disjoint.{IsShort}
use wave_span.Shard.Families.{ttl_ptr_key-IsOutside}

module _ (c : Command) (it : Item) (u : UpdateCtx) where
  -- The member is new, and the store has no expiry of it.
  pub record IsNew : Type 0 where
    pub absent : elem_exists u (elem_key u.s c.ns c.coll it.key) ≡ false
    pub no_ttl : get_data u (ttl_ptr_key u.s c.ns c.coll it.key) ≡ none
    pub expiring : ltb_ℤ (pos 0) it.expiry_ms ≡ true
    pub rows : IsMap u.s.store

  abbrev added : UpdateCtx
  added =
      write_ttl c.ns c.coll it.key (to_u64 it.expiry_ms) none (create_elem c.ns c.coll it.key [] u)

  set_add-added : IsNew → set_add c it u ≡ (added, Res.ok 1)
  unfolding set_add finish_add set_ttl ttl_expiry_of write_ttl create_elem emit bump pure reads
      modify ◌>>=◌ after get_data
  set_add-added h = rw (h.absent, h.expiring, h.no_ttl) refl

  abbrev dropped : UpdateCtx
  dropped = note_val c.ns c.coll it.key none (delete_elem c.ns c.coll it.key added)

  remove_elem-dropped : IsNew → remove_elem c it added ≡ (dropped, Res.ok 1)
  unfolding remove_elem finish_drop clear_ttl erase_ttl ttl_expiry_of write_ttl create_elem
      delete_elem note_val emit bump pure reads modify ◌>>=◌ after get_data elem_exists
  remove_elem-dropped h =
      let ek = elem_key u.s c.ns c.coll it.key in
      let found : lookup ek (insert ek true u.exists) ≡ some true =
        rw (lookup-insert ek ek true u.exists, bytes_eq_refl ek) refl in
      rw (found, h.no_ttl) refl

  -- A member that is added with an expiry and removed again in one batch leaves its expiry behind,
  -- without the member: where it was not there before, and had no expiry in the store, both commands
  -- succeed, and the batch has the expiry's row but no row of the member.
  pub expiry_stays :
      IsShort c.ns × IsShort c.coll
      → IsNew
      → (v : UpdateCtx) × (w : UpdateCtx) × (set_add c it u ≡ (v, Res.ok 1))
        × (remove_elem c it v ≡ (w, Res.ok 1))
        × (lookup (ttl_ptr_key u.s c.ns c.coll it.key) (pending w)
            ≡ some (put_u64 (to_u64 it.expiry_ms)))
        × (lookup (elem_key u.s c.ns c.coll it.key) (pending w) ≡ none)
  unfolding write_ttl create_elem delete_elem note_val emit bump apply_ops
  expiry_stays short h =
      let ek = elem_key u.s c.ns c.coll it.key in
      let ptr = ttl_ptr_key u.s c.ns c.coll it.key in
      let idx = ttl_index_key u.s (to_u64 it.expiry_ms) c.ns c.coll it.key in
      let text = put_u64 (to_u64 it.expiry_ms) in
      let base = pending u in
      let rows = insert ptr text (insert idx [] (insert ek [] base)) in
      let is_map : IsMap rows = insert-IsMap ptr text _ (
        insert-IsMap idx [] _ (insert-IsMap ek [] base (apply_ops-IsMap u.ops u.s.store h.rows))) in
      let form : pending dropped ≡ erase ek rows =
        apply_ops-append
          ((u.ops ++ StoreOp.put ek [] ∷ []) ++ StoreOp.put idx [] ∷ StoreOp.put ptr text ∷ [])
          (StoreOp.delete ek ∷ []) u.s.store
        ∙ ap (erase ek) (
            apply_ops-append (u.ops ++ StoreOp.put ek [] ∷ [])
              (StoreOp.put idx [] ∷ StoreOp.put ptr text ∷ []) u.s.store
            ∙ ap (λ m. insert ptr text (insert idx [] m))
                (apply_ops-append u.ops (StoreOp.put ek [] ∷ []) u.s.store)) in
      let apart : bytes_eq ptr ek ≡ false =
        elem_apart u.s c.ns c.coll ptr it.key
          (ttl_ptr_key-IsOutside u.s c.ns c.coll short c.ns c.coll it.key short).aside in
      let apart' : bytes_eq ek ptr ≡ false =
        ground (arith, bytes_eq_iff ek ptr, bytes_eq_iff ptr ek) in
      (
        added,
        dropped,
        set_add-added h,
        remove_elem-dropped h,
        ap (lookup ptr) form
            ∙ (rw
                (
                  lookup-erase ptr ek rows is_map,
                  apart',
                  lookup-insert ptr ptr text (insert idx [] (insert ek [] base)),
                  bytes_eq_refl ptr,
                )
                refl),
        ap (lookup ek) form ∙ (rw (lookup-erase ek ek rows is_map, bytes_eq_refl ek) refl),
      )
