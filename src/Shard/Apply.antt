-- ===== src/Shard/Apply.antt =====
-- `applyCommand` of internal/collections/statemachine.go, one action for each case of its switch. The
-- number of changes counts items, of which a command has fewer than 2^32.
use wave_span.Base.{
  ℕ, ◌+◌, ◌==◌, ltb, ◌||◌, Bool, true, false, Option, none, some, Bytes, List, [], ◌∷◌, insert,
  if◌then◌else◌,
}
use wave_span.Base.Int.{pos, negsuc, ltb_ℤ}
use wave_span.Base.Int64.{to_u64}
use wave_span.Budget.Wire.{put_u64}
use wave_span.Shard.{
  Item, Command, StoreOp, UpdateCtx, op_s_add, op_s_rem, op_h_set, op_h_del, op_z_add, op_z_rem,
  op_expire, op_remove, type_set, type_hash, type_z_set,
}
use wave_span.Shard.Exec.{Exec, Res, pure, reads, modify, ◌>>=◌, ◌>>◌}
use wave_span.Shard.Keys.{card_key, elem_key, zscore_key, zptr_key}
use wave_span.Shard.Context.{
  elem_exists, emit, bump, z_score, type_of, ttl_expiry_of, set_ttl, clear_ttl,
}

-- The element row, the overlay and the count together.
unfoldable pub create_elem : Bytes → Bytes → Bytes → Bytes → UpdateCtx → UpdateCtx
unfolding emit bump
create_elem ns coll member val u =
    let ek = elem_key u.s ns coll member in
    let u' = emit (StoreOp.put ek val ∷ []) u in
    bump (card_key u.s ns coll) (pos 1) (record u' { exists = insert ek true u.exists })

unfoldable pub delete_elem : Bytes → Bytes → Bytes → UpdateCtx → UpdateCtx
unfolding emit bump
delete_elem ns coll member u =
    let ek = elem_key u.s ns coll member in
    let u' = emit (StoreOp.delete ek ∷ []) u in
    bump (card_key u.s ns coll) (negsuc 0) (record u' { exists = insert ek false u.exists })

-- The row of an element that is there already.
unfoldable pub replace_elem : Bytes → Bytes → Bytes → Bytes → UpdateCtx → UpdateCtx
unfolding emit
replace_elem ns coll member val u =
    let ek = elem_key u.s ns coll member in
    let u' = emit (StoreOp.put ek val ∷ []) u in record u' { exists = insert ek true u.exists }

unfoldable pub note_val : Bytes → Bytes → Bytes → Option Bytes → UpdateCtx → UpdateCtx
note_val ns coll member v u = record u { vals = insert (elem_key u.s ns coll member) v u.vals }

unfoldable pub is_present : Bytes → Bytes → Bytes → UpdateCtx → Res Bool
unfolding elem_exists
is_present ns coll member u = Res.ok (elem_exists u (elem_key u.s ns coll member))

-- The expiry of a member that is asked for one, and the count of new members.
unfoldable pub finish_add : Command → Item → Bool → Exec UpdateCtx ℕ
unfolding set_ttl pure ◌>>=◌
finish_add c it present = do
  if ltb_ℤ (pos 0) it.expiry_ms then set_ttl c.ns c.coll it.key (to_u64 it.expiry_ms) else pure tt
  pure (if present then 0 else 1)

unfoldable pub set_add : Command → Item → Exec UpdateCtx ℕ
unfolding is_present create_elem finish_add pure reads modify ◌>>=◌
set_add c it = do
  present ← reads (is_present c.ns c.coll it.key)
  if present then pure tt else modify (create_elem c.ns c.coll it.key [])
  finish_add c it present

-- The expiry goes with the element; the count of removed elements.
unfoldable pub finish_drop : Command → Item → Bool → Exec UpdateCtx ℕ
unfolding clear_ttl pure ◌>>=◌
finish_drop c it present = do clear_ttl c.ns c.coll it.key; pure (if present then 1 else 0)

-- `opSRem` and `opHDel`, and `opRemove` on a set or a hash.
unfoldable pub remove_elem : Command → Item → Exec UpdateCtx ℕ
unfolding is_present delete_elem note_val finish_drop pure reads modify ◌>>=◌
remove_elem c it = do
  present ← reads (is_present c.ns c.coll it.key)
  if present
      then modify (λ u. note_val c.ns c.coll it.key none (delete_elem c.ns c.coll it.key u))
      else pure tt
  finish_drop c it present

-- Whether the recorded expiry is not past the one of the command.
abbrev pub is_due : Item → Option ℕ → Bool
is_due it none = false
is_due it (some exp) = if ltb (to_u64 it.expiry_ms) exp then false else true

unfoldable pub drop_expired : Command → Item → Exec UpdateCtx ℕ
unfolding is_present delete_elem finish_drop pure reads modify ◌>>=◌
drop_expired c it = do
  present ← reads (is_present c.ns c.coll it.key)
  if present then modify (delete_elem c.ns c.coll it.key) else pure tt
  finish_drop c it present

unfoldable pub expire_elem : Command → Item → Exec UpdateCtx ℕ
unfolding ttl_expiry_of drop_expired pure reads ◌>>=◌
expire_elem c it = do
  exp ← reads (ttl_expiry_of c.ns c.coll it.key)
  if is_due it exp then drop_expired c it else pure 0

unfoldable pub hash_set : Command → Item → Exec UpdateCtx ℕ
unfolding is_present create_elem replace_elem note_val pure reads modify ◌>>=◌
hash_set c it = do
  present ← reads (is_present c.ns c.coll it.key)
  if present
      then modify (replace_elem c.ns c.coll it.key it.val)
      else modify (create_elem c.ns c.coll it.key it.val)
  modify (note_val c.ns c.coll it.key (some it.val))
  pure (if present then 0 else 1)

-- The rows of a scored member: the index by score, and the pointer to the score.
unfoldable pub put_score : Bytes → Bytes → Bytes → ℕ → Option ℕ → UpdateCtx → UpdateCtx
unfolding emit bump
put_score ns coll member score none u =
    let pk = zptr_key u.s ns coll member in
    let u' = bump (card_key u.s ns coll) (pos 1) u in
    let u'' =
      emit
        (StoreOp.put (zscore_key u.s ns coll score member) [] ∷ StoreOp.put pk (put_u64 score) ∷ [])
        u' in
    record u'' { zscore = insert pk (some score) u.zscore }
put_score ns coll member score (some old) u =
    let pk = zptr_key u.s ns coll member in
    let u' =
      emit
        (StoreOp.delete (zscore_key u.s ns coll old member)
          ∷ StoreOp.put (zscore_key u.s ns coll score member) []
          ∷ StoreOp.put pk (put_u64 score)
          ∷ [])
        u in
    record u' { zscore = insert pk (some score) u.zscore }

unfoldable pub drop_score : Bytes → Bytes → Bytes → Option ℕ → UpdateCtx → UpdateCtx
unfolding emit bump
drop_score ns coll member none u = u
drop_score ns coll member (some old) u =
    let pk = zptr_key u.s ns coll member in
    let u' = emit (StoreOp.delete (zscore_key u.s ns coll old member) ∷ StoreOp.delete pk ∷ []) u in
    bump (card_key u.s ns coll) (negsuc 0) (record u' { zscore = insert pk none u.zscore })

unfoldable pub z_add : Command → Item → Exec UpdateCtx ℕ
unfolding z_score put_score pure reads modify ◌>>=◌
z_add c it = do
  old ← reads (z_score c.ns c.coll it.key)
  modify (put_score c.ns c.coll it.key it.score old)
  pure (elim old [ some _ ↦ 0 | none ↦ 1 ])

-- `opZRem`, and `opRemove` on a sorted set.
unfoldable pub z_rem : Command → Item → Exec UpdateCtx ℕ
unfolding z_score drop_score pure reads modify ◌>>=◌
z_rem c it = do
  old ← reads (z_score c.ns c.coll it.key)
  modify (drop_score c.ns c.coll it.key old)
  pure (elim old [ some _ ↦ 1 | none ↦ 0 ])

-- The removal that fits the collection's type; nothing where it has none.
unfoldable pub remove_any : Command → Item → Exec UpdateCtx ℕ
unfolding type_of remove_elem z_rem pure ◌>>=◌
remove_any c it = do
  t ← type_of c.ns c.coll
  if t == type_set || t == type_hash
      then remove_elem c it
      else if t == type_z_set
      then z_rem c it
      else pure 0

unfoldable pub apply_item : Command → Item → Exec UpdateCtx ℕ
unfolding set_add remove_elem expire_elem hash_set z_add z_rem remove_any pure
apply_item c it =
    if c.op == op_s_add
    then set_add c it
    else if c.op == op_s_rem || c.op == op_h_del
    then remove_elem c it
    else if c.op == op_expire
    then expire_elem c it
    else if c.op == op_h_set
    then hash_set c it
    else if c.op == op_z_add
    then z_add c it
    else if c.op == op_z_rem
    then z_rem c it
    else if c.op == op_remove
    then remove_any c it
    else pure 0

unfoldable pub apply_items : Command → List Item → Exec UpdateCtx ℕ
unfolding apply_item pure ◌>>=◌
apply_items c [] = pure 0
apply_items c (it ∷ its) = do n ← apply_item c it; m ← apply_items c its; pure (n + m)

unfoldable pub apply_command : Command → Exec UpdateCtx ℕ
unfolding apply_items
apply_command c = apply_items c c.items
