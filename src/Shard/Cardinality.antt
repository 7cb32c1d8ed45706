-- ===== src/Shard/Cardinality.antt =====
-- The cardinality row of a set under `Update` of internal/collections/statemachine.go.
use wave_span.Base.{
  ◌%◌, ◌^◌, ◌<◌, ◌≡◌, ◌≢◌, refl, sym, ap, subst, ◌∙◌, arith, Bool, true, false, Option, none, some,
  Bool-cases, inl, inr, Bytes, bytes_eq, bytes_eq_iff, List, [], ◌∷◌, lookup, All,
}
use wave_span.Shard.{
  Command, UpdateCtx, ShardSm, apply_ops, ProposeResult, FrozenRange, op_ingest, op_purge,
}
use wave_span.Shard.Keys.{elem_prefix}
use wave_span.Shard.Exec.{Res, modify, Keeps, Keeps-modify, keeps_rules}
use wave_span.Shard.Context.{elem_exists, known_type, get_data, emit}
use wave_span.Shard.Counter.{Strconv}
use wave_span.Shard.One.{once}
use wave_span.Shard.Migrate.{freeze, freeze_op, load_frozen}
use wave_span.Shard.Update.{
  Entry, fresh, settle, flush, last_index, apply_entry, run_entry, run_entries, update,
  with_results,
}
use wave_span.Shard.Commands.{once-Keeps}
use wave_span.Shard.Entries.{apply_entry-Keeps}
use wave_span.Shard.Skip.{run_entry-fail}
use wave_span.Shard.Disjoint.{IsShort}
use wave_span.Shard.Families.{frozen_key-IsOutside}
use wave_span.Shard.Count.{count}
use wave_span.Shard.Counted.{IsCounted}
use wave_span.Shard.Foreign.{foreign-Atoms}
use wave_span.Shard.Expiring.{quiet_write, remember-Keeps}
use wave_span.Shard.Guarded.{once-own}
use wave_span.Shard.Flush.{IsSetRow, flush-IsSetRow}

-- The entry moves no rows between shards.
pub record IsLocal (e : Entry) : Type 0 where
  pub no_ingest : (rest : Bytes) → e.cmd ≢ op_ingest ∷ rest
  pub no_purge : (rest : Bytes) → e.cmd ≢ op_purge ∷ rest

true-false : ◌≡◌ {A = Bool} true false → ⊥
true-false e = cc

module _ (ns coll : Bytes) (short : IsShort ns × IsShort coll) where
  freeze_op-Keeps :
      (on : Bool) (range : Bytes × Bytes)
      → Keeps (IsCounted ns coll) (modify (λ u. emit (freeze_op on range u.s ∷ []) u))
  unfolding freeze_op emit
  freeze_op-Keeps true range = Keeps-modify _ λ u h.
      quiet_write ns coll u _ u.exists u.zscore u.vals u.dedup_seq u.in_batch_dedup h
        (frozen_key-IsOutside u.s ns coll short range.0, tt) (λ m. refl)
  freeze_op-Keeps false range = Keeps-modify _ λ u h.
      quiet_write ns coll u _ u.exists u.zscore u.vals u.dedup_seq u.in_batch_dedup h
        (frozen_key-IsOutside u.s ns coll short range.0, tt) (λ m. refl)

  freeze-Keeps : (on : Bool) (rest : Bytes) → Keeps (IsCounted ns coll) (freeze on rest)
  unfolding freeze
  freeze-Keeps on rest = search (keeps_rules, freeze_op-Keeps)

  module _ (conv : Strconv) where
    foreign :
        (c : Command)
        → IsShort c.ns × IsShort c.coll
        → (found : Option ProposeResult) → ((c.ns ≡ ns) × (c.coll ≡ coll) → ⊥)
        → Keeps (IsCounted ns coll) (once conv c found)
    foreign c short' found other =
        once-Keeps (IsCounted ns coll) c (foreign-Atoms ns coll short c.ns c.coll short' other) conv
          (remember-Keeps ns coll short) found

    once-IsCounted :
        (c : Command)
        → IsShort c.ns × IsShort c.coll
        → (found : Option ProposeResult) → Keeps (IsCounted ns coll) (once conv c found)
    once-IsCounted c short' found = elim (Bool-cases (bytes_eq c.ns ns)) [
      | inl e ↦ elim (Bool-cases (bytes_eq c.coll coll)) [
        | inl e' ↦
            let p : c.ns ≡ ns = (bytes_eq_iff c.ns ns).0 e in
            let q : c.coll ≡ coll = (bytes_eq_iff c.coll coll).0 e' in
            let own = once-own c short' conv found in
            subst (λ x. Keeps (IsCounted x coll) (once conv c found)) p
              (subst (λ x. Keeps (IsCounted c.ns x) (once conv c found)) q own)
        | inr f ↦
            foreign c short' found (λ h. true-false (sym ((bytes_eq_iff c.coll coll).1 h.1) ∙ f))
      ]
      | inr f ↦ foreign c short' found (λ h. true-false (sym ((bytes_eq_iff c.ns ns).1 h.0) ∙ f))
    ]

    apply_entry-IsCounted :
        (frozen : List FrozenRange) (e : Entry)
        → IsLocal e
        → Keeps (IsCounted ns coll) (apply_entry conv frozen e.cmd)
    apply_entry-IsCounted frozen e h =
        apply_entry-Keeps (IsCounted ns coll) conv once-IsCounted frozen e.cmd freeze-Keeps
          (λ rest q. elim (h.no_ingest rest q) [ ]) (λ rest q. elim (h.no_purge rest q) [ ])

    settled :
        (frozen : List FrozenRange) (e : Entry) (u : UpdateCtx) (r : UpdateCtx × Res ProposeResult)
        → apply_entry conv frozen e.cmd u ≡ r
        → IsCounted ns coll u
        → IsCounted ns coll r.0
        → IsCounted ns coll (run_entry conv frozen e u).0
    unfolding run_entry settle
    settled frozen e u (v, Res.ok x) q h k = rw q k
    settled frozen e u (v, Res.fail f) q h k =
        subst (λ (p : UpdateCtx × ProposeResult). IsCounted ns coll p.0)
          (sym (run_entry-fail conv frozen e u v f q)) h

    run_entry-IsCounted :
        (frozen : List FrozenRange) (e : Entry) (u : UpdateCtx)
        → IsLocal e
        → IsCounted ns coll u
        → IsCounted ns coll (run_entry conv frozen e u).0
    run_entry-IsCounted frozen e u l h =
        let kept = (apply_entry-IsCounted frozen e l).at u h in
        settled frozen e u (apply_entry conv frozen e.cmd u) refl h kept

    run_entries-IsCounted :
        (frozen : List FrozenRange) (es : List Entry) (u : UpdateCtx)
        → All IsLocal es
        → IsCounted ns coll u
        → IsCounted ns coll (run_entries conv frozen es u).0
    unfolding run_entries
    run_entries-IsCounted frozen [] u l h = h
    run_entries-IsCounted frozen (e ∷ es) u l h =
        run_entries-IsCounted frozen es _ l.1 (run_entry-IsCounted frozen e u l.0 h)

fresh-IsCounted : (ns coll : Bytes) (s : ShardSm) → IsSetRow ns coll s → IsCounted ns coll (fresh s)
unfolding fresh elem_exists known_type get_data apply_ops lookup
fresh-IsCounted ns coll s h = record {
  rows = h.rows;
  room = h.room;
  stored = h.card;
  of_set = h.header;
  seen = λ m. refl;
  deltas = tt;
  aside = tt;
  delta = ap (λ n. n % 2 ^ 64) (omega arith);
  typed = h.header;
  header = refl;
  card = refl;
}

with_results-some {ℓ} :
    {A : Type ℓ} (o : Option ShardSm) (rs rs' : A) (s' : ShardSm)
    → with_results o rs ≡ some (s', rs')
    → o ≡ some s'
with_results-some none rs rs' s' h = cc
with_results-some (some s) rs rs' s' h = cc

-- After an update with whatever entries but moves of rows between shards, corrupt ones and commands of
-- budgets included, the stored cardinality of a set is again the number of its element rows, if that is
-- below 2^63, and it is still a set. The names of the set fit in chunks.
pub update-IsSetRow :
    (ns coll : Bytes) (conv : Strconv)
    → IsShort ns × IsShort coll
    → (s : ShardSm) (es : List Entry) (s' : ShardSm) (rs : List ProposeResult) → IsSetRow ns coll s
    → All IsLocal es
    → update conv s es ≡ some (s', rs)
    → count (elem_prefix s' ns coll) s'.store < 2 ^ 63
    → IsSetRow ns coll s'
unfolding update
update-IsSetRow ns coll conv short s [] s' rs h l e room =
    let same : s ≡ s' = cc in subst (IsSetRow ns coll) same h
update-IsSetRow ns coll conv short s (x ∷ es) s' rs h l e room =
    let done = run_entries conv (load_frozen s) (x ∷ es) (fresh s) in
    let counted =
      run_entries-IsCounted ns coll short conv (load_frozen s) (x ∷ es) (fresh s) l
        (fresh-IsCounted ns coll s h) in
    flush-IsSetRow ns coll short done.0 (last_index x es) s' counted
      (with_results-some (flush done.0 (last_index x es)) done.1 rs s' e) room
