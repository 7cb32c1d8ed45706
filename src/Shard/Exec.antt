-- ===== src/Shard/Exec.antt =====
-- Actions on the overlays of an update that may fail: what was written before a failure stays written,
-- and the caller rolls it back. Postconditions of actions, one rule for each way to build an action.
use wave_span.Base.{◌≡◌, refl, Bool, true, false, if◌then◌else◌}
use wave_span.Shard.{Fault}

pub data Res {ℓ} (A : Type ℓ) : Type ℓ where
  ok : A → Res A
  fail : Fault → Res A

abbrev pub Exec : Type 0 → Type 0 → Type 0
Exec S A = S → S × Res A

module _ {S A : Type 0} where
  unfoldable pub pure : A → Exec S A
  pure a s = (s, Res.ok a)

  unfoldable pub lift : Res A → Exec S A
  lift r s = (s, r)

  unfoldable pub reads : (S → Res A) → Exec S A
  reads f s = (s, f s)

unfoldable pub modify : {S : Type 0} → (S → S) → Exec S (Unit {0})
modify f s = (f s, Res.ok tt)

module _ {S A B : Type 0} where
  unfoldable pub after : Res A → (A → Exec S B) → Exec S B
  after (Res.ok a) f s = f a s
  after (Res.fail e) f s = (s, Res.fail e)

  infixl 5 ◌>>=◌ ◌>>◌
  unfoldable pub ◌>>=◌ : Exec S A → (A → Exec S B) → Exec S B
  unfolding after
  ◌>>=◌ m f s = after (m s).1 f (m s).0

  abbrev pub ◌>>◌ : Exec S A → Exec S B → Exec S B
  m >> n = m >>= λ _. n

-- The action keeps `I`, whether it fails or not.
pub record Keeps {S R : Type 0} (I : S → Type 0) (action : Exec S R) : Type 0 where
  pub at : (s : S) → I s → I (action s).0

pub Keeps-modify :
    {S : Type 0} {I : S → Type 0} (f : S → S) → ((s : S) → I s → I (f s)) → Keeps I (modify f)
unfolding modify
Keeps-modify f h = record { at = h }

module _ {S R : Type 0} {I : S → Type 0} where
  pub Keeps-if :
      (b : Bool) (m m' : Exec S R)
      → (b ≡ true → Keeps I m)
      → (b ≡ false → Keeps I m')
      → Keeps I (if b then m else m')
  Keeps-if true m m' h k = h refl
  Keeps-if false m m' h k = k refl

  pub Keeps-reads : (f : S → Res R) → Keeps I (reads f)
  unfolding reads
  Keeps-reads f = record { at = λ s inv. inv }

  pub Keeps-lift : (r : Res R) → Keeps I (lift r)
  unfolding lift
  Keeps-lift r = record { at = λ s inv. inv }

  pub Keeps-pure : (r : R) → Keeps I (pure r)
  unfolding pure
  Keeps-pure r = record { at = λ s inv. inv }

module _ {S Q R : Type 0} {I : S → Type 0} where
  Keeps-after : (q : Res Q) (f : Q → Exec S R) → ((x : Q) → Keeps I (f x)) → Keeps I (after q f)
  unfolding after
  Keeps-after (Res.ok x) f h = h x
  Keeps-after (Res.fail e) f h = record { at = λ s inv. inv }

  pub Keeps-bind :
      (m : Exec S Q) (f : Q → Exec S R) → Keeps I m → ((x : Q) → Keeps I (f x)) → Keeps I (m >>= f)
  unfolding ◌>>=◌
  Keeps-bind m f h k = record { at = λ s inv. (Keeps-after (m s).1 f k).at (m s).0 (h.at s inv) }

pub ruleset keeps_rules = (Keeps-if, Keeps-reads, Keeps-lift, Keeps-pure, Keeps-bind)
