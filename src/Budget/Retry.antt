-- ===== src/Budget/Retry.antt =====
-- Commands are retried after a lost reply: what a second application does.
use wave_span.Base.{
  ◌+◌, ◌^◌, ◌<◌, ◌≡◌, refl, sym, ◌∙◌, arith, true, false, Bool-cases, inl, inr, none, some, Bytes,
  bytes_eq_refl, lookup, insert, lookup-insert, by_if, by_option, subst,
}
use wave_span.Base.Int.{ℤ, pos, pos_part, neg_part, ltb_ℤ, eq_of_parts}
use wave_span.Base.Int64.{sub64, add64, add64_parts, sub64_parts}
use wave_span.Budget.{
  Budget, PoolRec, LeaseRec, TombRec, reason_expire, Reply, Sentinel, GrantResult, set_lease,
}
use wave_span.Budget.Grant.{
  grant, grant_new, write_grant, new_lease, lease_out, echo, pace, grantable, effective_ttl,
  is_unguarded,
}
use wave_span.Budget.Settle.{expire, settle_expire, bury_absent}

-- A live lease without a tombstone, whose echo over the pool is `a`.
pub record Answers (id : Bytes) (b : Budget) (a : Reply) : Type 0 where
  pub unsettled : lookup id b.tombs ≡ none
  pub lease : LeaseRec
  pub live : lookup id b.leases ≡ some lease
  pub same : echo lease b.pool ≡ a

Answers-again :
    (id : Bytes) (amount t o : ℤ) (holder : Bytes) (b : Budget) (a : Reply)
    → ltb_ℤ amount (pos 0) ≡ false
    → Answers id b a
    → grant id amount t o holder b ≡ (b, a)
unfolding grant
Answers-again id amount t o holder b a h k = rw (h, k.unsettled, k.live, k.same) refl

timed_ttl :
    (t ttl : ℤ)
    → neg_part t ≡ 0
    → neg_part ttl ≡ 0
    → pos_part t + pos_part ttl < 2 ^ 63
    → ltb_ℤ (pos 0) ttl ≡ true
    → (ltb_ℤ (pos 0) (add64 t ttl) ≡ true) × (sub64 (add64 t ttl) t ≡ ttl)
timed_ttl t ttl h k l m =
    let s = add64_parts t ttl h k l in
    let d = sub64_parts (add64 t ttl) t s.0 h (omega arith) (omega arith) in
    (ground arith, eq_of_parts (sub64 (add64 t ttl) t) ttl (omega arith))

-- A reply that reports a grant is the reply of every later attempt.
record IsRetryable (id : Bytes) (r : Budget × Reply) : Type 0 where
  answer : (g : GrantResult) → r.1 ≡ Reply.grant g → Answers id r.0 r.1

-- The reply of `write_grant`.
abbrev grant_reply : ℤ → ℤ → ℤ → PoolRec → Reply
grant_reply g t ttl p = Reply.grant (record {
  granted = g;
  granted_ms = t;
  ttl_ms = ttl;
  self_guard_ms = p.self_guard_ms;
  max_pause_ms = p.max_pause_ms;
})

write_grant_echo :
    (g t ttl : ℤ) (holder : Bytes) (p : PoolRec)
    → neg_part t ≡ 0
    → neg_part ttl ≡ 0
    → pos_part t + pos_part ttl < 2 ^ 63
    → echo (new_lease g t ttl holder p) (some (lease_out g p)) ≡ grant_reply g t ttl p
unfolding echo new_lease lease_out
write_grant_echo g t ttl holder p h k l = elim (Bool-cases (ltb_ℤ (pos 0) ttl)) [
  | inl timed ↦
      let (positive, back) = timed_ttl t ttl h k l timed in simp (timed, positive, back) refl
  | inr plain ↦ let zero : ttl ≡ pos 0 = eq_of_parts ttl (pos 0) (ground arith) in rw zero refl
]

write_grant-Answers :
    (id : Bytes) (g t ttl : ℤ) (holder : Bytes) (p : PoolRec) (b : Budget)
    → neg_part t ≡ 0
    → neg_part ttl ≡ 0
    → pos_part t + pos_part ttl < 2 ^ 63
    → lookup id b.tombs ≡ none
    → Answers id (write_grant id g t ttl holder p b).0 (write_grant id g t ttl holder p b).1
unfolding write_grant
write_grant-Answers id g t ttl holder p b h k l free =
    let lease = new_lease g t ttl holder p in
    let stored : lookup id (insert id lease b.leases) ≡ some lease =
      rw (lookup-insert id id lease b.leases, bytes_eq_refl id) refl in
    let echoed = write_grant_echo g t ttl holder p h k l in
    by_if (λ c. Answers id (set_lease id lease c) (grant_reply g t ttl p)) (ltb_ℤ (pos 0) ttl)
      (λ _. record { unsettled = free; lease = lease; live = stored; same = echoed })
      (λ _. record { unsettled = free; lease = lease; live = stored; same = echoed })

module _ (id : Bytes) (amount t o : ℤ) (holder : Bytes) (b : Budget) (p : PoolRec)
    (have : b.pool ≡ some p) (at : neg_part t ≡ 0) (lasts : neg_part (effective_ttl o p) ≡ 0)
    (ends : pos_part t + pos_part (effective_ttl o p) < 2 ^ 63) where
  refused : (s : Sentinel) → IsRetryable id (b, Reply.sentinel s)
  refused s = record { answer = λ g e. ground arith }

  grant_new-IsRetryable :
      lookup id b.tombs ≡ none → IsRetryable id (grant_new id amount t o holder p b)
  unfolding grant_new
  grant_new-IsRetryable free =
      by_if (IsRetryable id) (is_unguarded (effective_ttl o p) p) (λ _. refused _)
        (λ _.
          by_if (IsRetryable id) (ltb_ℤ (pos 0) (grantable amount (pace t p)))
            (λ _. record {
              answer = λ g _.
                  write_grant-Answers id (grantable amount (pace t p)) t (effective_ttl o p) holder
                    (pace t p) b at lasts ends free;
            })
            (λ _. refused _))

  grant-IsRetryable : IsRetryable id (grant id amount t o holder b)
  unfolding grant
  grant-IsRetryable =
      by_if (IsRetryable id) (ltb_ℤ amount (pos 0)) (λ _. refused _)
        (λ _.
          by_option (IsRetryable id) (lookup id b.tombs)
            (λ free.
              by_option (IsRetryable id) (lookup id b.leases)
                (λ _.
                  by_option (IsRetryable id) b.pool (λ _. refused _)
                    (λ q this.
                      subst (λ z. IsRetryable id (grant_new id amount t o holder z b))
                        (ground (arith, sym have ∙ this)) (grant_new-IsRetryable free)))
                (λ l live. record {
                  answer = λ g _. record { unsettled = free; lease = l; live = live; same = refl };
                }))
            (λ _ _. refused _))

-- A retry of a lease id whose grant was answered, with whatever amount that is not negative, time, ttl
-- and holder, changes nothing and gets the first answer again; the grant time and the effective ttl
-- are not negative, and their sum is an int64.
pub grant_retry :
    (id : Bytes) (amount t o : ℤ) (holder : Bytes) (b : Budget) (p : PoolRec) (g : GrantResult)
    (amount' t' o' : ℤ) (holder' : Bytes)
    → b.pool ≡ some p
    → neg_part t ≡ 0
    → neg_part (effective_ttl o p) ≡ 0
    → pos_part t + pos_part (effective_ttl o p) < 2 ^ 63
    → (grant id amount t o holder b).1 ≡ Reply.grant g
    → ltb_ℤ amount' (pos 0) ≡ false
    → grant id amount' t' o' holder' (grant id amount t o holder b).0
      ≡ ((grant id amount t o holder b).0, Reply.grant g)
grant_retry id amount t o holder b p g amount' t' o' holder' have at lasts ends answered asks =
    let r = grant-IsRetryable id amount t o holder b p have at lasts ends in
    Answers-again id amount' t' o' holder' (grant id amount t o holder b).0 (Reply.grant g) asks
      (subst (Answers id (grant id amount t o holder b).0) answered (r.answer g answered))

-- A tombstone stands under the id.
record Buried (id : Bytes) (b : Budget) : Type 0 where
  tomb : TombRec
  at : lookup id b.tombs ≡ some tomb

settle_expire_buries :
    (id : Bytes) (l : LeaseRec) (p : PoolRec) (b : Budget) → Buried id (settle_expire id l p b).0
unfolding settle_expire
settle_expire_buries id l p b =
    let t : TombRec = record { final_spent = l.spent; reason = reason_expire } in
    let at : lookup id (insert id t b.tombs) ≡ some t =
      rw (lookup-insert id id t b.tombs, bytes_eq_refl id) refl in
    elim (Bool-cases (ltb_ℤ (pos 0) l.reclaim_not_before_ms)) [
      | inl timed ↦ record { tomb = t; at = rw timed at }
      | inr plain ↦ record { tomb = t; at = rw plain at }
    ]

bury_absent_buries : (id : Bytes) (t : ℤ) (b : Budget) → Buried id (bury_absent id t b)
unfolding bury_absent
bury_absent_buries id t b =
    let z : TombRec = record { final_spent = pos 0; reason = reason_expire } in
    let at : lookup id (insert id z b.tombs) ≡ some z =
      rw (lookup-insert id id z b.tombs, bytes_eq_refl id) refl in
    by_option (Buried id) b.pool (λ _. record { tomb = z; at = at })
      (λ p _. record { tomb = z; at = at })

-- What an expiry leaves is left alone by the next one.
record IsFixed (id : Bytes) (t : ℤ) (r : Budget × Reply) : Type 0 where
  fixed : (expire id t r.0).0 ≡ r.0

Buried-IsFixed : (id : Bytes) (t : ℤ) (b : Budget) (a : Reply) → Buried id b → IsFixed id t (b, a)
unfolding expire
Buried-IsFixed id t b a k = record { fixed = rw (expire, k.at) refl }

expire-IsFixed : (id : Bytes) (t : ℤ) (b : Budget) → IsFixed id t (expire id t b)
unfolding expire
expire-IsFixed id t b =
    by_option (IsFixed id t) (lookup id b.tombs)
      (λ clear.
        by_option (IsFixed id t) (lookup id b.leases)
          (λ _. Buried-IsFixed id t (bury_absent id t b) _ (bury_absent_buries id t b))
          (λ l live.
            by_if (IsFixed id t) (ltb_ℤ t l.reclaim_not_before_ms)
              (λ early. record { fixed = rw (expire, clear, live, early) refl })
              (λ due.
                by_option (IsFixed id t) b.pool
                  (λ none_here. record { fixed = simp (expire, clear, live, due, none_here) refl })
                  (λ p _.
                    Buried-IsFixed id t (settle_expire id l p b).0 _
                      (settle_expire_buries id l p b)))))
      (λ z settled. Buried-IsFixed id t b _ (record { tomb = z; at = settled }))

-- A second expiry of the same lease at the same sweep time changes nothing, whatever the first one did:
-- settled it, found it too early, found no row, or found no pool.
pub expire_again :
    (id : Bytes) (t : ℤ) (b : Budget) → (expire id t (expire id t b).0).0 ≡ (expire id t b).0
expire_again id t b = (expire-IsFixed id t b).fixed
