-- ===== src/Shard/Entries.antt =====
-- The entries of `applyEntry` (internal/collections/sm_fatal.go), taken apart into commands.
use wave_span.Base.{
  ℕ, zero, suc, ◌^◌, ◌≤◌, ◌<◌, ◌==◌, ◌≡◌, refl, sym, ap, arith, Bool, true, false, Bytes, Option,
  none, some, List, [], ◌∷◌, length, take, drop, subst, ==_iff, if◌then◌else◌,
}
use wave_span.Budget.Wire.{be_read}
use wave_span.Budget.Codec.{take_chunk}
use wave_span.Shard.{
  Item, Command, Fault, UpdateCtx, ProposeResult, FrozenRange, op_ingest, op_purge,
}
use wave_span.Shard.Exec.{Exec, Res, lift, ◌>>=◌, after, Keeps, Keeps-if, keeps_rules}
use wave_span.Shard.Codec.{with_chunk, with_items, decode_command}
use wave_span.Shard.Counter.{Strconv}
use wave_span.Shard.One.{once, apply_decoded, apply_one}
use wave_span.Shard.Migrate.{ingest, purge, freeze}
use wave_span.Shard.Update.{apply_subs, apply_batch, apply_entry}
use wave_span.Shard.Disjoint.{IsShort}

length-take : (n : ℕ) (xs : Bytes) → length (take n xs) ≤ n
length-take zero xs = ground arith
length-take (suc n) [] = ground arith
length-take (suc n) (x ∷ xs) = omega (arith, length-take n xs)

be_read-bound : (b : Bytes) → be_read 4 0 b < 2 ^ 32
be_read-bound [] = ground arith
be_read-bound (a ∷ []) = omega arith
be_read-bound (a ∷ b ∷ []) = omega arith
be_read-bound (a ∷ b ∷ c ∷ []) = omega arith
be_read-bound (a ∷ b ∷ c ∷ d ∷ rest) = omega arith

take_chunk-IsShort : (b v r : Bytes) → take_chunk b ≡ some (v, r) → IsShort v
unfolding take_chunk
take_chunk-IsShort b v r h = ground (arith, length-take (be_read 4 0 b) (drop 4 b), be_read-bound b)

-- What follows a chunk that was read.
with_chunk-ok {ℓ} :
    {A : Type ℓ} (o : Option (Bytes × Bytes)) (f : Bytes → Bytes → Res A) (y : A)
    → with_chunk o f ≡ Res.ok y
    → (v : Bytes) × (r : Bytes) × (o ≡ some (v, r)) × (f v r ≡ Res.ok y)
with_chunk-ok none f y h = cc
with_chunk-ok (some (v, r)) f y h = (v, r, refl, h)

with_items-ok :
    (op : ℕ) (ns coll idem : Bytes) (items : Res (List Item)) (c : Command)
    → with_items op ns coll idem items ≡ Res.ok c
    → (c.ns ≡ ns) × (c.coll ≡ coll)
with_items-ok op ns coll idem (Res.ok items) c h = ground arith
with_items-ok op ns coll idem (Res.fail e) c h = cc

if-ok {ℓ} :
    {A : Type ℓ} (b : Bool) (e : Fault) (m : Res A) (y : A)
    → (if b then Res.fail e else m) ≡ Res.ok y
    → m ≡ Res.ok y
if-ok true e m y h = cc
if-ok false e m y h = h

-- The names of a decoded command came in chunks.
pub decode_command-IsShort :
    (cmd : Bytes) (c : Command) → decode_command cmd ≡ Res.ok c → IsShort c.ns × IsShort c.coll
unfolding decode_command
decode_command-IsShort [] c h = cc
decode_command-IsShort (op ∷ b) c h =
    let (ns, r, e, h₁) = with_chunk-ok (take_chunk b) _ c (if-ok _ _ _ c h) in
    let (coll, r₁, e₁, h₂) = with_chunk-ok (take_chunk r) _ c h₁ in
    let (idem, r₂, e₂, h₃) = with_chunk-ok (take_chunk r₁) _ c h₂ in
    let names = with_items-ok op ns coll idem _ c (if-ok _ _ _ c h₃) in
    (
      subst IsShort (sym names.0) (take_chunk-IsShort b ns r e),
      subst IsShort (sym names.1) (take_chunk-IsShort r coll r₁ e₁),
    )

module _ (P : UpdateCtx → Type 0) where
  Keeps-lift-bind :
      {A B : Type 0} (r : Res A) (f : A → Exec UpdateCtx B)
      → ((a : A) → r ≡ Res.ok a → Keeps P (f a))
      → Keeps P (lift r >>= f)
  unfolding ◌>>=◌ lift after
  Keeps-lift-bind (Res.ok a) f h = record { at = (h a refl).at }
  Keeps-lift-bind (Res.fail e) f h = record { at = λ s p. p }

  module _ (conv : Strconv)
      (kept : (c : Command)
        → IsShort c.ns × IsShort c.coll
        → (found : Option ProposeResult) → Keeps P (once conv c found)) where
    apply_decoded-Keeps :
        (frozen : List FrozenRange) (c : Command)
        → IsShort c.ns × IsShort c.coll
        → Keeps P (apply_decoded conv frozen c)
    unfolding apply_decoded
    apply_decoded-Keeps frozen c short = search (keeps_rules, kept c short) depth 14

    apply_one-Keeps :
        (cmd : Bytes) (frozen : List FrozenRange) → Keeps P (apply_one conv cmd frozen)
    unfolding apply_one
    apply_one-Keeps cmd frozen =
        Keeps-lift-bind (decode_command cmd) _
          λ c e. apply_decoded-Keeps frozen c (decode_command-IsShort cmd c e)

    apply_subs-Keeps :
        (frozen : List FrozenRange) (cmds : List Bytes) → Keeps P (apply_subs conv frozen cmds)
    unfolding apply_subs
    apply_subs-Keeps frozen [] = search keeps_rules
    apply_subs-Keeps frozen (cmd ∷ cmds) =
        search (keeps_rules, apply_one-Keeps cmd frozen, apply_subs-Keeps frozen cmds) depth 14

    -- An entry that moves no rows, or that keeps `P` all the same.
    pub apply_entry-Keeps :
        (frozen : List FrozenRange) (cmd : Bytes)
        → ((on : Bool) (rest : Bytes) → Keeps P (freeze on rest))
        → ((rest : Bytes) → cmd ≡ op_ingest ∷ rest → Keeps P (ingest rest))
        → ((rest : Bytes) → cmd ≡ op_purge ∷ rest → Keeps P (purge rest))
        → Keeps P (apply_entry conv frozen cmd)
    unfolding apply_entry apply_batch
    apply_entry-Keeps frozen [] freezes ingests purges = apply_one-Keeps [] frozen
    apply_entry-Keeps frozen (op ∷ rest) freezes ingests purges =
        Keeps-if (op == op_ingest) _ _
          (λ e. ingests rest (ap (λ o. o ∷ rest) ((==_iff op op_ingest).0 e)))
          λ _.
            Keeps-if (op == op_purge) _ _
              (λ e. purges rest (ap (λ o. o ∷ rest) ((==_iff op op_purge).0 e)))
              λ _. search (keeps_rules, freezes, apply_one-Keeps, apply_subs-Keeps) depth 14
