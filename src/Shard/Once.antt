-- ===== src/Shard/Once.antt =====
-- Commands that carry an idempotency key, sent again in the same batch: `applyOne` of
-- internal/collections/statemachine.go and dedup.go.
use wave_span.Base.{
  ◌==◌, ◌≡◌, ◌≢◌, refl, sym, ap, subst, ◌∙◌, Bool, true, false, not, ◌&&◌, Bool-cases, Option-cases,
  inl, inr, some, Bytes, bytes_eq, bytes_eq_iff, bytes_eq_refl, List, [], lookup, insert,
  lookup-insert,
}
use wave_span.Shard.{Command, UpdateCtx, ProposeResult, FrozenRange, type_for_op, type_budget}
use wave_span.Shard.Exec.{Exec, Res, pure, reads, modify, ◌>>=◌, after}
use wave_span.Shard.Keys.{route_key}
use wave_span.Shard.Context.{dedup_get}
use wave_span.Shard.Apply.{apply_command}
use wave_span.Shard.Counter.{Strconv, not_number}
use wave_span.Shard.One.{
  mutates, frozen_covers, frozen_mark, wrong_type, sentinel, prefer, dedup_find, remember, is_keyed,
  answer, is_counter, check_type, count_up, counter_command, plain_command, dispatch_typed,
  typed_command, once, find_answer, apply_decoded,
}

-- An answer that is remembered: no refusal.
pub record IsAnswer (r : ProposeResult) : Type 0 where
  pub not_frozen : r.reply ≢ frozen_mark
  pub not_wrong : r.reply ≢ wrong_type
  pub not_nan : r.reply ≢ not_number

-- After the action, its answer is found under the key.
record Remembers (key : Bytes) (m : Exec UpdateCtx ProposeResult) : Type 0 where
  at :
      (u u' : UpdateCtx) (r : ProposeResult)
      → m u ≡ (u', Res.ok r)
      → IsAnswer r
      → dedup_find u' key ≡ some r

Remembers-after :
    {A : Type 0} (key : Bytes) (f : A → Exec UpdateCtx ProposeResult)
    → ((a : A) → Remembers key (f a))
    → (r : Res A) (v u' : UpdateCtx) (x : ProposeResult) → after r f v ≡ (u', Res.ok x)
    → IsAnswer x
    → dedup_find u' key ≡ some x
unfolding after
Remembers-after key f k (Res.ok a) v u' x h i = (k a).at v u' x h i
Remembers-after key f k (Res.fail e) v u' x h i = cc

Remembers-bind :
    {A : Type 0} (key : Bytes) (m : Exec UpdateCtx A) (f : A → Exec UpdateCtx ProposeResult)
    → ((a : A) → Remembers key (f a))
    → Remembers key (m >>= f)
unfolding ◌>>=◌
Remembers-bind key m f k = record {
  at = λ u u' r h i. Remembers-after key f k (m u).1 (m u).0 u' r h i;
}

find-remember :
    (key : Bytes) (r : ProposeResult) (u : UpdateCtx) → dedup_find (remember key r u) key ≡ some r
unfolding dedup_find remember
find-remember key r u =
    let found : lookup key (insert key r u.in_batch_dedup) ≡ some r =
      rw (lookup-insert key key r u.in_batch_dedup, bytes_eq_refl key) refl in
    ap (λ o. prefer o (dedup_get (remember key r u) key)) found

answer-Remembers : (c : Command) (r : ProposeResult) → Remembers c.idem (answer true c r)
unfolding answer pure modify ◌>>=◌ after
answer-Remembers c r = record {
  at = λ u u' x h i.
      let state : remember c.idem r u ≡ u' = ap (λ (p : UpdateCtx × Res ProposeResult). p.0) h in
      let same : r ≡ x = cc in
      subst (λ v. dedup_find v c.idem ≡ some x) state
        (subst (λ y. dedup_find (remember c.idem r u) c.idem ≡ some y) same
          (find-remember c.idem r u));
}

-- What a failed increment answers is no answer to remember.
answer-fail :
    (c : Command) (r : ProposeResult) → r.reply ≡ not_number → Remembers c.idem (answer false c r)
unfolding answer pure ◌>>=◌ after
answer-fail c r e = record {
  at = λ u u' x h i.
      let same : r ≡ x = cc in
      elim (i.not_nan (sym (ap (λ (y : ProposeResult). y.reply) same) ∙ e)) [ ];
}

answer-if :
    (c : Command) (r : ProposeResult)
    → Remembers c.idem (answer (true && not (bytes_eq r.reply not_number)) c r)
answer-if c r = elim (Bool-cases (bytes_eq r.reply not_number)) [
  | inl e ↦ rw e (answer-fail c r ((bytes_eq_iff r.reply not_number).0 e))
  | inr e ↦ rw e (answer-Remembers c r)
]

refused : (key mark : Bytes) → mark ≡ wrong_type → Remembers key (pure (sentinel mark))
unfolding pure
refused key mark e = record {
  at = λ u u' x h i.
      let same : sentinel mark ≡ x = cc in
      elim (i.not_wrong (sym (ap (λ (y : ProposeResult). y.reply) same) ∙ e)) [ ];
}

module _ (conv : Strconv) where
  dispatch-Remembers :
      (c : Command) (fits : Bool)
      → (type_for_op c.op == type_budget) ≡ false
      → Remembers c.idem (dispatch_typed conv true c fits)
  unfolding dispatch_typed counter_command plain_command
  dispatch-Remembers c false e = refused c.idem wrong_type refl
  dispatch-Remembers c true e = elim (Bool-cases (is_counter c.op)) [
    | inl k ↦ rw k (
        Remembers-bind c.idem (count_up conv c c.items)
          (λ r. answer (true && not (bytes_eq r.reply not_number)) c r) (answer-if c))
    | inr k ↦
        rw (k, e)
          (Remembers-bind c.idem (apply_command c)
            (λ changed. answer true c (record { value = changed; reply = [] }))
            (λ changed. answer-Remembers c (record { value = changed; reply = [] })))
  ]

  typed-Remembers :
      (c : Command)
      → (type_for_op c.op == type_budget) ≡ false
      → Remembers c.idem (typed_command conv true c)
  unfolding typed_command
  typed-Remembers c e =
      Remembers-bind c.idem (check_type c) (dispatch_typed conv true c)
        (λ fits. dispatch-Remembers c fits e)

  -- A keyed command that was answered, and not refused, is found.
  found_after :
      (c : Command) (u u' : UpdateCtx) (r : ProposeResult)
      → is_keyed c ≡ true
      → (type_for_op c.op == type_budget) ≡ false
      → once conv c (dedup_find u c.idem) u ≡ (u', Res.ok r)
      → IsAnswer r
      → dedup_find u' c.idem ≡ some r
  unfolding once
  found_after c u u' r keyed e h i = elim (Option-cases (dedup_find u c.idem)) [
    | inl q ↦ (typed-Remembers c e).at u u' r (rw (q, keyed) at h) i
    | inr (x, q) ↦
        let h' : ◌≡◌ {A = UpdateCtx × Res ProposeResult} (u, Res.ok x) (u', Res.ok r) =
          unfold pure in rw q at h in
        let state : u ≡ u' = ap (λ (p : UpdateCtx × Res ProposeResult). p.0) h' in
        let same : x ≡ r = cc in
        subst (λ v. dedup_find v c.idem ≡ some r) state (q ∙ ap (λ y. some y) same)
  ]

  -- When a keyed command of a set, a hash or a sorted set was answered, with no refusal
  -- for a freeze, a type or a value that is no number, then the same command, run again on the overlays
  -- that it left, changes nothing and gets the same answer.
  pub apply_decoded-again :
      (frozen : List FrozenRange) (c : Command) (u u' : UpdateCtx) (r : ProposeResult)
      → is_keyed c ≡ true
      → (type_for_op c.op == type_budget) ≡ false
      → apply_decoded conv frozen c u ≡ (u', Res.ok r)
      → IsAnswer r
      → apply_decoded conv frozen c u' ≡ (u', Res.ok r)
  unfolding apply_decoded find_answer reads pure once ◌>>=◌ after
  apply_decoded-again frozen c u u' r keyed e h i =
      elim (Bool-cases (mutates c.op && frozen_covers frozen (route_key c.ns c.coll))) [
        | inl f ↦
            let h' = rw f at h in
            let same : sentinel frozen_mark ≡ r = cc in
            elim (i.not_frozen (sym (ap (λ (y : ProposeResult). y.reply) same))) [ ]
        | inr f ↦
            let h' = rw (f, keyed) at h in
            let found = found_after c u u' r keyed e h' i in rw (f, keyed, found) refl
      ]
