-- ===== src/Shard/Growth.antt =====
-- The batch of an update under the actions of internal/collections: operations are appended.
use wave_span.Base.{
  ℕ, ◌≡◌, refl, sym, ap, ◌∙◌, Bool, true, false, Bytes, List, [], ◌∷◌, ◌++◌, append_assoc, Option,
  none, some,
}
use wave_span.Shard.{UpdateCtx, StoreOp, ProposeResult}
use wave_span.Shard.Exec.{modify, Keeps, Keeps-modify, keeps_rules}
use wave_span.Shard.Context.{
  emit, bump, note_type, note_known, create_type, ensure_with, type_of, ensure_type, write_ttl,
  set_ttl, erase_ttl, clear_ttl, dedup_record, set_field_val, known_type,
}
use wave_span.Shard.Apply.{create_elem, delete_elem, replace_elem, note_val, put_score, drop_score}
use wave_span.Shard.Counter.{write_counter}
use wave_span.Shard.Leases.{
  set_pool, set_lease, del_lease, set_tomb, del_tomb, set_bud_exp, del_bud_exp, set_bud_tomb_gc,
  del_bud_tomb_gc, del_field_val,
}
use wave_span.Shard.BudgetSteps.{BudgetAtoms}
use wave_span.Shard.One.{remember}
use wave_span.Shard.Commands.{Atoms}

pub append_nil {ℓ} : {A : Type ℓ} (xs : List A) → xs ++ [] ≡ xs
append_nil [] = refl
append_nil (x ∷ xs) = ap (λ ys. x ∷ ys) (append_nil xs)

-- `u` comes after `u₀`.
pub record Extends (u₀ u : UpdateCtx) : Type 0 where
  pub s : u.s ≡ u₀.s
  pub more : List StoreOp
  pub grown : u.ops ≡ u₀.ops ++ more

pub Extends-refl : (u : UpdateCtx) → Extends u u
Extends-refl u = record { s = refl; more = []; grown = sym (append_nil u.ops) }

-- The overlays changed, and not the batch.
kept-Extends : (u₀ u v : UpdateCtx) → v.s ≡ u.s → v.ops ≡ u.ops → Extends u₀ u → Extends u₀ v
kept-Extends u₀ u v p q h = record { s = p ∙ h.s; more = h.more; grown = q ∙ h.grown }

-- Operations behind the others.
grown-Extends :
    (ops : List StoreOp) (u₀ u v : UpdateCtx)
    → v.s ≡ u.s
    → v.ops ≡ u.ops ++ ops
    → Extends u₀ u
    → Extends u₀ v
grown-Extends ops u₀ u v p q h = record {
  s = p ∙ h.s;
  more = h.more ++ ops;
  grown = q ∙ (ap (λ xs. xs ++ ops) h.grown ∙ append_assoc u₀.ops h.more ops);
}

module _ (u₀ : UpdateCtx) where
  note_known-Extends :
      (ns coll : Bytes) (t : Option ℕ) (u : UpdateCtx)
      → Extends u₀ u
      → Extends u₀ (note_known ns coll t u)
  unfolding note_known note_type
  note_known-Extends ns coll none u h = h
  note_known-Extends ns coll (some t) u h = kept-Extends u₀ u _ refl refl h

  ensure_with-Extends :
      (ns coll : Bytes) (want : ℕ) (t : Option ℕ) (u : UpdateCtx)
      → Extends u₀ u
      → Extends u₀ (ensure_with ns coll want t u).0
  unfolding ensure_with create_type note_type emit
  ensure_with-Extends ns coll want none u h = grown-Extends _ u₀ u _ refl refl h
  ensure_with-Extends ns coll want (some t) u h = kept-Extends u₀ u _ refl refl h

  type_of-Keeps : (ns coll : Bytes) → Keeps (Extends u₀) (type_of ns coll)
  unfolding type_of
  type_of-Keeps ns coll = record {
    at = λ u h. note_known-Extends ns coll (known_type u ns coll) u h;
  }

  ensure_type-Keeps : (ns coll : Bytes) (want : ℕ) → Keeps (Extends u₀) (ensure_type ns coll want)
  unfolding ensure_type
  ensure_type-Keeps ns coll want = record {
    at = λ u h. ensure_with-Extends ns coll want (known_type u ns coll) u h;
  }

  write_ttl-Keeps :
      (ns coll member : Bytes) (expiry : ℕ) (old : Option ℕ)
      → Keeps (Extends u₀) (modify (write_ttl ns coll member expiry old))
  unfolding write_ttl emit
  write_ttl-Keeps ns coll member expiry old =
      Keeps-modify _ (λ u h. grown-Extends _ u₀ u _ refl refl h)

  erase_ttl-Keeps :
      (ns coll member : Bytes) (old : Option ℕ)
      → Keeps (Extends u₀) (modify (erase_ttl ns coll member old))
  unfolding erase_ttl emit
  erase_ttl-Keeps ns coll member none = Keeps-modify _ (λ u h. h)
  erase_ttl-Keeps ns coll member (some old) =
      Keeps-modify _ (λ u h. grown-Extends _ u₀ u _ refl refl h)

  set_ttl-Keeps :
      (ns coll member : Bytes) (expiry : ℕ) → Keeps (Extends u₀) (set_ttl ns coll member expiry)
  unfolding set_ttl
  set_ttl-Keeps ns coll member expiry = search (keeps_rules, write_ttl-Keeps)

  clear_ttl-Keeps : (ns coll member : Bytes) → Keeps (Extends u₀) (clear_ttl ns coll member)
  unfolding clear_ttl
  clear_ttl-Keeps ns coll member = search (keeps_rules, erase_ttl-Keeps)

  create_elem-Keeps :
      (ns coll member val : Bytes) → Keeps (Extends u₀) (modify (create_elem ns coll member val))
  unfolding create_elem emit bump
  create_elem-Keeps ns coll member val = Keeps-modify _ (λ u h. grown-Extends _ u₀ u _ refl refl h)

  delete_elem-Keeps :
      (ns coll member : Bytes) → Keeps (Extends u₀) (modify (delete_elem ns coll member))
  unfolding delete_elem emit bump
  delete_elem-Keeps ns coll member = Keeps-modify _ (λ u h. grown-Extends _ u₀ u _ refl refl h)

  forget_elem-Keeps :
      (ns coll member : Bytes)
      → Keeps
          (Extends u₀)
          (modify (λ u. note_val ns coll member none (delete_elem ns coll member u)))
  unfolding delete_elem note_val emit bump
  forget_elem-Keeps ns coll member = Keeps-modify _ (λ u h. grown-Extends _ u₀ u _ refl refl h)

  replace_elem-Keeps :
      (ns coll member val : Bytes) → Keeps (Extends u₀) (modify (replace_elem ns coll member val))
  unfolding replace_elem emit
  replace_elem-Keeps ns coll member val = Keeps-modify _ (λ u h. grown-Extends _ u₀ u _ refl refl h)

  note_val-Keeps :
      (ns coll member : Bytes) (v : Option Bytes)
      → Keeps (Extends u₀) (modify (note_val ns coll member v))
  unfolding note_val
  note_val-Keeps ns coll member v = Keeps-modify _ (λ u h. kept-Extends u₀ u _ refl refl h)

  put_score-Keeps :
      (ns coll member : Bytes) (score : ℕ) (old : Option ℕ)
      → Keeps (Extends u₀) (modify (put_score ns coll member score old))
  unfolding put_score emit bump
  put_score-Keeps ns coll member score none =
      Keeps-modify _ (λ u h. grown-Extends _ u₀ u _ refl refl h)
  put_score-Keeps ns coll member score (some old) =
      Keeps-modify _ (λ u h. grown-Extends _ u₀ u _ refl refl h)

  drop_score-Keeps :
      (ns coll member : Bytes) (old : Option ℕ)
      → Keeps (Extends u₀) (modify (drop_score ns coll member old))
  unfolding drop_score emit bump
  drop_score-Keeps ns coll member none = Keeps-modify _ (λ u h. h)
  drop_score-Keeps ns coll member (some old) =
      Keeps-modify _ (λ u h. grown-Extends _ u₀ u _ refl refl h)

  write_counter-Keeps :
      (ns coll member val : Bytes) (found : Bool)
      → Keeps (Extends u₀) (modify (write_counter ns coll member val found))
  unfolding write_counter set_field_val emit bump
  write_counter-Keeps ns coll member val true =
      Keeps-modify _ (λ u h. grown-Extends _ u₀ u _ refl refl h)
  write_counter-Keeps ns coll member val false =
      Keeps-modify _ (λ u h. grown-Extends _ u₀ u _ refl refl h)

  pub remember-Keeps :
      (key : Bytes) (r : ProposeResult) → Keeps (Extends u₀) (modify (remember key r))
  unfolding remember dedup_record emit
  remember-Keeps key r = Keeps-modify _ (λ u h. grown-Extends _ u₀ u _ refl refl h)

  pub emit-Keeps :
      (ops : UpdateCtx → List StoreOp) → Keeps (Extends u₀) (modify (λ u. emit (ops u) u))
  unfolding emit
  emit-Keeps ops = Keeps-modify _ (λ u h. grown-Extends _ u₀ u _ refl refl h)

  -- The writes of a budget: one operation each.
  budget-Atoms : (ns coll : Bytes) → BudgetAtoms (Extends u₀) ns coll
  unfolding set_pool set_lease del_lease set_tomb del_tomb set_bud_exp del_bud_exp set_bud_tomb_gc
      del_bud_tomb_gc set_field_val del_field_val emit
  budget-Atoms ns coll = record {
    pooled = λ p. Keeps-modify _ (λ u h. grown-Extends _ u₀ u _ refl refl h);
    leased = λ id l. Keeps-modify _ (λ u h. grown-Extends _ u₀ u _ refl refl h);
    unleased = λ id. Keeps-modify _ (λ u h. grown-Extends _ u₀ u _ refl refl h);
    buried = λ id t. Keeps-modify _ (λ u h. grown-Extends _ u₀ u _ refl refl h);
    unburied = λ id. Keeps-modify _ (λ u h. grown-Extends _ u₀ u _ refl refl h);
    due = λ id ms. Keeps-modify _ (λ u h. grown-Extends _ u₀ u _ refl refl h);
    undue = λ id ms. Keeps-modify _ (λ u h. grown-Extends _ u₀ u _ refl refl h);
    gc_due = λ id ms. Keeps-modify _ (λ u h. grown-Extends _ u₀ u _ refl refl h);
    gc_undue = λ id ms. Keeps-modify _ (λ u h. grown-Extends _ u₀ u _ refl refl h);
  }

  pub growth-Atoms : (ns coll : Bytes) → Atoms (Extends u₀) ns coll
  growth-Atoms ns coll = record {
    typed = type_of-Keeps ns coll;
    ensured = ensure_type-Keeps ns coll;
    expiring = set_ttl-Keeps ns coll;
    cleared = clear_ttl-Keeps ns coll;
    created = create_elem-Keeps ns coll;
    deleted = delete_elem-Keeps ns coll;
    forgotten = forget_elem-Keeps ns coll;
    replaced = replace_elem-Keeps ns coll;
    noted = note_val-Keeps ns coll;
    scored = put_score-Keeps ns coll;
    unscored = drop_score-Keeps ns coll;
    counter = write_counter-Keeps ns coll;
    budget = budget-Atoms ns coll;
  }
