-- ===== src/Base/Assoc.antt =====
-- Go maps keyed by byte strings, as association lists with one entry for each key.
use Prim.Native.Nat.{ℕ, ◌+◌}
use mathlib.Core.Path.{◌≡◌, refl, subst}
use mathlib.Core.Logic.{inl, inr}
use mathlib.Core.Option.{Option, none, some}
use mathlib.Core.List.{List, [], ◌∷◌}
use native.Mathlib.Omega.{arith}
use wave_span.Base.Tests.{if◌then◌else◌, Bool-cases}
use wave_span.Base.ByteString.{Bytes, bytes_eq, bytes_eq_iff}

module _ {ℓ} {V : Type ℓ} where
  unfoldable pub lookup : Bytes → List (Bytes × V) → Option V
  lookup k [] = none
  lookup k ((j, v) ∷ m) = if bytes_eq j k then some v else lookup k m

  unfoldable pub insert : Bytes → V → List (Bytes × V) → List (Bytes × V)
  insert k v [] = (k, v) ∷ []
  insert k v ((j, w) ∷ m) = if bytes_eq j k then (j, v) ∷ m else (j, w) ∷ insert k v m

  unfoldable pub erase : Bytes → List (Bytes × V) → List (Bytes × V)
  erase k [] = []
  erase k ((j, w) ∷ m) = if bytes_eq j k then m else (j, w) ∷ erase k m

  -- No key twice.
  abbrev pub IsMap : List (Bytes × V) → Type ℓ
  IsMap [] = Unit
  IsMap ((j, w) ∷ m) = (lookup j m ≡ none) × IsMap m

  pub lookup-insert :
      (j k : Bytes) (v : V) (m : List (Bytes × V))
      → lookup j (insert k v m) ≡ (if bytes_eq k j then some v else lookup j m)
  unfolding lookup insert
  lookup-insert j k v [] = refl
  lookup-insert j k v ((i, w) ∷ m) =
      ground (arith, bytes_eq_iff i k, bytes_eq_iff i j, bytes_eq_iff k j, lookup-insert j k v m)

  pub lookup-erase :
      (j k : Bytes) (m : List (Bytes × V))
      → IsMap m
      → lookup j (erase k m) ≡ (if bytes_eq k j then none else lookup j m)
  unfolding lookup erase
  lookup-erase j k [] h = ground arith
  lookup-erase j k ((i, w) ∷ m) h =
      ground
        (arith, h.0, bytes_eq_iff i k, bytes_eq_iff i j, bytes_eq_iff k j, lookup-erase j k m h.1)

  pub insert-IsMap : (k : Bytes) (v : V) (m : List (Bytes × V)) → IsMap m → IsMap (insert k v m)
  unfolding insert lookup
  insert-IsMap k v [] h = (refl, tt)
  insert-IsMap k v ((i, w) ∷ m) h = elim (Bool-cases (bytes_eq i k)) [
    | inl same ↦ rw same h
    | inr other ↦ rw other (
      rw (lookup-insert i k v m) (ground (arith, bytes_eq_iff i k, bytes_eq_iff k i, h.0)),
      insert-IsMap k v m h.1,
    )
  ]

  pub erase-IsMap : (k : Bytes) (m : List (Bytes × V)) → IsMap m → IsMap (erase k m)
  unfolding erase lookup
  erase-IsMap k [] h = tt
  erase-IsMap k ((i, w) ∷ m) h = elim (Bool-cases (bytes_eq i k)) [
    | inl same ↦ rw same h.1
    | inr other ↦ rw other (rw (lookup-erase i k m h.1) (ground (arith, h.0)), erase-IsMap k m h.1)
  ]

  -- The sum of a measure over the entries.
  abbrev pub total : (V → ℕ) → List (Bytes × V) → ℕ
  total f [] = 0
  total f ((j, w) ∷ m) = f w + total f m

  -- The measure of a value that may be there.
  abbrev pub measure : (V → ℕ) → Option V → ℕ
  measure f none = 0
  measure f (some v) = f v

  pub total-insert :
      (f : V → ℕ) (k : Bytes) (v : V) (m : List (Bytes × V))
      → total f (insert k v m) + measure f (lookup k m) ≡ total f m + f v
  unfolding insert lookup
  total-insert f k v [] = omega arith
  total-insert f k v ((i, w) ∷ m) = elim (Bool-cases (bytes_eq i k)) [
    | inl same ↦ rw same (omega arith)
    | inr other ↦ rw other (omega (arith, total-insert f k v m))
  ]

  pub total-erase :
      (f : V → ℕ) (k : Bytes) (m : List (Bytes × V))
      → total f (erase k m) + measure f (lookup k m) ≡ total f m
  unfolding erase lookup
  total-erase f k [] = omega arith
  total-erase f k ((i, w) ∷ m) = elim (Bool-cases (bytes_eq i k)) [
    | inl same ↦ rw same (omega arith)
    | inr other ↦ rw other (omega (arith, total-erase f k m))
  ]

  -- Every value satisfies `P`.
  abbrev pub Values {κ} : (V → Type κ) → List (Bytes × V) → Type κ
  Values P [] = Unit
  Values P ((j, w) ∷ m) = P w × Values P m

  pub Values-lookup {κ} :
      (P : V → Type κ) (k : Bytes) (m : List (Bytes × V)) {v : V}
      → Values P m
      → lookup k m ≡ some v
      → P v
  unfolding lookup
  Values-lookup P k [] h e = ground arith
  Values-lookup P k ((i, w) ∷ m) {v = v} h e = elim (Bool-cases (bytes_eq i k)) [
    | inl same ↦ let q : some w ≡ some v = rw same at e in let r : w ≡ v = cc in subst P r h.0
    | inr other ↦ Values-lookup P k m h.1 (rw other at e)
  ]

  pub insert-Values {κ} :
      (P : V → Type κ) (k : Bytes) (v : V) (m : List (Bytes × V))
      → P v
      → Values P m
      → Values P (insert k v m)
  unfolding insert
  insert-Values P k v [] p h = (p, tt)
  insert-Values P k v ((i, w) ∷ m) p h = elim (Bool-cases (bytes_eq i k)) [
    | inl same ↦ rw same (p, h.1)
    | inr other ↦ rw other (h.0, insert-Values P k v m p h.1)
  ]

  pub erase-Values {κ} :
      (P : V → Type κ) (k : Bytes) (m : List (Bytes × V)) → Values P m → Values P (erase k m)
  unfolding erase
  erase-Values P k [] h = tt
  erase-Values P k ((i, w) ∷ m) h = elim (Bool-cases (bytes_eq i k)) [
    | inl same ↦ rw same h.1
    | inr other ↦ rw other (h.0, erase-Values P k m h.1)
  ]
