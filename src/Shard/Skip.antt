-- ===== src/Shard/Skip.antt =====
-- Entries that cannot be applied: `snapshot` and `restore` of internal/collections/sm_fatal.go, and the
-- loop of `Update`.
use wave_span.Base.{◌≡◌, ap, subst, ◌∙◌, Bytes, List, [], ◌∷◌, ◌++◌, length, take, take-append}
use wave_span.Shard.{Fault, UpdateCtx, ProposeResult, FrozenRange}
use wave_span.Shard.Exec.{Res, Keeps, keeps_rules}
use wave_span.Shard.Counter.{Strconv}
use wave_span.Shard.Migrate.{ingest, purge, freeze}
use wave_span.Shard.Update.{Entry, restore, no_result, settle, apply_entry, run_entry, run_entries}
use wave_span.Shard.Commands.{once-Keeps}
use wave_span.Shard.Entries.{apply_entry-Keeps}
use wave_span.Shard.Growth.{Extends, Extends-refl, growth-Atoms, remember-Keeps, emit-Keeps}

-- Every entry only appends.
pub apply_entry-Extends :
    (u₀ : UpdateCtx) (conv : Strconv)
    → (frozen : List FrozenRange) (cmd : Bytes) → Keeps (Extends u₀) (apply_entry conv frozen cmd)
unfolding ingest purge freeze
apply_entry-Extends u₀ conv frozen cmd =
    apply_entry-Keeps (Extends u₀) conv
      (λ c short found.
        once-Keeps (Extends u₀) c (growth-Atoms u₀ c.ns c.coll) conv (remember-Keeps u₀) found)
      frozen cmd (λ on rest. search (keeps_rules, emit-Keeps))
      (λ rest e. search (keeps_rules, emit-Keeps)) (λ rest e. search (keeps_rules, emit-Keeps))

restore-Extends : (u₀ u : UpdateCtx) → Extends u₀ u → restore u₀ u ≡ u₀
unfolding restore
restore-Extends u₀ u h =
    let cut : take (length u₀.ops) u.ops ≡ u₀.ops =
      ap (take (length u₀.ops)) h.grown ∙ take-append u₀.ops h.more in
    λ i. record u₀ { s = h.s i; ops = cut i }

module _ (conv : Strconv) where
  -- An entry whose application fails, with whatever bytes, leaves the overlays, the batch and the
  -- sequence of the ring as they were, and its result is empty.
  pub run_entry-fail :
      (frozen : List FrozenRange) (e : Entry) (u u' : UpdateCtx) (fault : Fault)
      → apply_entry conv frozen e.cmd u ≡ (u', Res.fail fault)
      → run_entry conv frozen e u ≡ (u, no_result)
  unfolding run_entry settle
  run_entry-fail frozen e u u' fault h =
      let grown : Extends u (apply_entry conv frozen e.cmd u).0 =
        (apply_entry-Extends u conv frozen e.cmd).at u (Extends-refl u) in
      let grown' : Extends u u' =
        subst (λ (p : UpdateCtx × Res ProposeResult). Extends u p.0) h grown in
      rw h (λ i. (restore-Extends u u' grown' i, no_result))

  -- Every replica may skip a bad entry: if the entry fails where it stands, the batch of all entries
  -- leaves the same overlays as the batch without it.
  pub run_entries-fail :
      (frozen : List FrozenRange) (es : List Entry) (e : Entry) (fs : List Entry) (u u' : UpdateCtx)
      (fault : Fault)
      → apply_entry conv frozen e.cmd (run_entries conv frozen es u).0 ≡ (u', Res.fail fault)
      → (run_entries conv frozen (es ++ e ∷ fs) u).0 ≡ (run_entries conv frozen (es ++ fs) u).0
  unfolding run_entries
  run_entries-fail frozen [] e fs u u' fault h =
      ap (λ (p : UpdateCtx × ProposeResult). (run_entries conv frozen fs p.0).0)
        (run_entry-fail frozen e u u' fault h)
  run_entries-fail frozen (f ∷ es) e fs u u' fault h =
      run_entries-fail frozen es e fs (run_entry conv frozen f u).0 u' fault h
