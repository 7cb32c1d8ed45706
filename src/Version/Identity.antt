-- ===== src/Version/Identity.antt =====
-- Mutation identities are injective, and the sequencer never repeats.
use wave_span.Base.{
  IsWithout, split_sep, ℕ, zero, suc, ◌+◌, ◌*◌, ◌-◌, ◌/◌, ◌%◌, ◌^◌, ◌<◌, ◌≡◌, ◌≢◌, refl, sym, ap,
  ◌∙◌, arith, Bytes, List, [], ◌∷◌, ◌++◌, All-append, ltb, Bool-cases, inl, inr, ◌↔◌, subst,
}
use native.Mathlib.Nat.{pow-suc}
use wave_span.Version.{Version, decimal, format_uint, id_sep, mutation_id, Sequencer, next}

-- Reading the digits back.
abbrev value : ℕ → Bytes → ℕ
value acc [] = acc
value acc (d ∷ ds) = value (acc * 10 + (d - 48)) ds

value-append : (acc : ℕ) (xs ys : Bytes) → value acc (xs ++ ys) ≡ value (value acc xs) ys
value-append acc [] ys = refl
value-append acc (x ∷ xs) ys = value-append (acc * 10 + (x - 48)) xs ys

value-decimal : (digits n : ℕ) → n < 10 ^ digits → value 0 (decimal digits n) ≡ n
unfolding decimal
value-decimal zero n h = omega arith
value-decimal (suc digits) n h = elim (Bool-cases (ltb n 10)) [
  | inl one ↦ rw one (ground arith)
  | inr more ↦
      rw (more, value-append 0 (decimal digits (n / 10)) ((48 + n % 10) ∷ []))
        (rw (value-decimal digits (n / 10) (omega (arith, pow-suc 10 digits))) (omega arith))
]

-- No separator byte.
abbrev pub IsId : Bytes → Type 0
IsId xs = IsWithout id_sep xs

decimal-IsId : (digits n : ℕ) → IsId (decimal digits n)
unfolding decimal
decimal-IsId zero n = tt
decimal-IsId (suc digits) n = elim (Bool-cases (ltb n 10)) [
  | inl one ↦ rw one (omega arith, tt)
  | inr more ↦ rw more (
      All-append (λ b. b ≢ id_sep) (decimal digits (n / 10)) _ (decimal-IsId digits (n / 10))
        (omega arith, tt))
]

format_uint-injective : (m n : ℕ) → m < 2 ^ 64 → n < 2 ^ 64 → format_uint m ≡ format_uint n → m ≡ n
unfolding format_uint
format_uint-injective m n h k e =
    sym (value-decimal 20 m (omega arith)) ∙ (ap (value 0) e ∙ value-decimal 20 n (omega arith))

-- Two versions have the same mutation id exactly when cluster, member and sequence are the same,
-- where no identifier holds the separator byte and sequences are uint64; the clock reading is not
-- part of it.
pub mutation_id_iff :
    (a b : Version)
    → IsId a.writer_cluster_id
    → IsId a.writer_member_id
    → IsId b.writer_cluster_id
    → IsId b.writer_member_id
    → a.writer_sequence < 2 ^ 64
    → b.writer_sequence < 2 ^ 64
    → (mutation_id a ≡ mutation_id b) ↔ (
        (a.writer_cluster_id ≡ b.writer_cluster_id)
        × (a.writer_member_id ≡ b.writer_member_id)
        × (a.writer_sequence ≡ b.writer_sequence))
unfolding mutation_id
mutation_id_iff a b ca ma cb mb sa sb = (
  λ e.
      let (cluster, rest) = split_sep id_sep a.writer_cluster_id b.writer_cluster_id _ _ ca cb e in
      let (member, digits) =
        split_sep id_sep a.writer_member_id b.writer_member_id _ _ ma mb rest in
      (cluster, member, format_uint-injective a.writer_sequence b.writer_sequence sa sb digits),
  λ e. rw (e.0, e.1, e.2),
)

abbrev pub draws : ℕ → Sequencer → List ℕ
draws zero s = []
draws (suc n) s = let (s', x) = next s in x ∷ draws n s'

abbrev pub Follows : ℕ → List ℕ → Type 0
Follows x [] = Unit
Follows x (y ∷ ys) = (y ≡ x + 1) × Follows y ys

next_lem :
    (s : Sequencer)
    → s.last + 1 < 2 ^ 64
    → ((next s).1 ≡ s.last + 1) × ((next s).0.last ≡ (next s).1)
unfolding next
next_lem s h = (omega arith, refl)

-- The sequencer issues start + 1, start + 2, and so on, without gap or repetition, below 2^64.
pub draws-Follows : (n : ℕ) (s : Sequencer) → s.last + n < 2 ^ 64 → Follows s.last (draws n s)
draws-Follows zero s h = tt
draws-Follows (suc n) s h =
    let (step, kept) = next_lem s (omega arith) in
    (
      step,
      subst (λ x. Follows x (draws n (next s).0)) kept (draws-Follows n (next s).0 (omega arith)),
    )
