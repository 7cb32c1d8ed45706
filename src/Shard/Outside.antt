-- ===== src/Shard/Outside.antt =====
-- The keys that are no element, header or cardinality row of a given collection.
use wave_span.Base.{
  ℕ, ◌≡◌, ◌≢◌, refl, sym, ◌∙◌, arith, false, Option, none, some, Bytes, bytes_eq, bytes_eq_iff, [],
  ◌∷◌, ◌++◌, append_assoc,
}
use wave_span.Shard.{ShardSm}
use wave_span.Shard.Keys.{
  coll_scope, card_key, type_key, elem_prefix, elem_key, sub_data, scope_elem, scope_type,
  scope_card,
}
use wave_span.Shard.Migrate.{suffix_of}
use wave_span.Shard.Disjoint.{IsShort, append-cancel, coll_scope_split, scope_form, head_of}

pub suffix_of-some : (p k r : Bytes) → suffix_of p k ≡ some r → k ≡ p ++ r
unfolding suffix_of
suffix_of-some [] k r h = ground arith
suffix_of-some (p ∷ ps) [] r h = ground arith
suffix_of-some (p ∷ ps) (k ∷ ks) r h = ground (arith, suffix_of-some ps ks r)

pub suffix_of-append : (p r : Bytes) → suffix_of p (p ++ r) ≡ some r
unfolding suffix_of
suffix_of-append [] r = refl
suffix_of-append (p ∷ ps) r = ground (arith, suffix_of-append ps r)

abbrev IsNone {ℓ} : {A : Type ℓ} → Option A → Type 0
IsNone none = Unit
IsNone (some a) = ⊥

pub bytes_neq : (a b : Bytes) → a ≢ b → bytes_eq a b ≡ false
bytes_neq a b h = ground (arith, bytes_eq_iff a b)

none_if : {A : Type 0} (o : Option A) → ((a : A) → o ≡ some a → ⊥) → o ≡ none
none_if none h = refl
none_if (some a) h = elim (h a refl) [ ]

pub record IsAside (s : ShardSm) (ns coll k : Bytes) : Type 0 where
  pub elem : suffix_of (elem_prefix s ns coll) k ≡ none
  pub header : bytes_eq k (type_key s ns coll) ≡ false

pub record IsOutside (s : ShardSm) (ns coll k : Bytes) : Type 0 where
  pub aside : IsAside s ns coll k
  pub card : bytes_eq k (card_key s ns coll) ≡ false

-- The collection in question.
module _ (s : ShardSm) (ns coll : Bytes) (short : IsShort ns × IsShort coll) where
  IsAside-of :
      (k : Bytes)
      → ((r : Bytes) → k ≢ coll_scope s ns coll ++ scope_elem ∷ r)
      → k ≢ coll_scope s ns coll ++ scope_type ∷ []
      → IsAside s ns coll k
  unfolding elem_prefix type_key
  IsAside-of k h h' = record {
    elem = none_if _ λ r e. h r (
        suffix_of-some (elem_prefix s ns coll) k r e
        ∙ append_assoc (coll_scope s ns coll) (scope_elem ∷ []) r);
    header = bytes_neq k (type_key s ns coll) h';
  }

  IsOutside-of :
      (k : Bytes)
      → ((r : Bytes) → k ≢ coll_scope s ns coll ++ scope_elem ∷ r)
      → k ≢ coll_scope s ns coll ++ scope_type ∷ []
      → k ≢ coll_scope s ns coll ++ scope_card ∷ []
      → IsOutside s ns coll k
  unfolding card_key
  IsOutside-of k h h' h'' = record {
    aside = IsAside-of k h h';
    card = bytes_neq k (card_key s ns coll) h'';
  }

  other_tag :
      (tag : ℕ) (body x : Bytes)
      → tag ≢ sub_data
      → s.prefix ++ tag ∷ body ≢ coll_scope s ns coll ++ x
  other_tag tag body x h e = h (head_of (append-cancel s.prefix _ _ (e ∙ scope_form s ns coll x)))

  pub tag-IsOutside :
      (tag : ℕ) (body : Bytes) → tag ≢ sub_data → IsOutside s ns coll (s.prefix ++ tag ∷ body)
  tag-IsOutside tag body h =
      IsOutside-of (s.prefix ++ tag ∷ body) (λ r. other_tag tag body (scope_elem ∷ r) h)
        (other_tag tag body (scope_type ∷ []) h) (other_tag tag body (scope_card ∷ []) h)

  scope_differs :
      (ns' coll' : Bytes) (scope scope' : ℕ) (suffix x : Bytes)
      → IsShort ns' × IsShort coll'
      → scope ≢ scope'
      → coll_scope s ns' coll' ++ scope ∷ suffix ≢ coll_scope s ns coll ++ scope' ∷ x
  scope_differs ns' coll' scope scope' suffix x short' p e = p (
      head_of
        (coll_scope_split s ns' coll' ns coll (scope ∷ suffix) (scope' ∷ x) short'.0 short'.1
          short.0 short.1 e).2)

  pub scope-IsOutside :
      (ns' coll' : Bytes) (scope : ℕ) (suffix : Bytes)
      → IsShort ns' × IsShort coll'
      → (scope ≢ scope_elem) × (scope ≢ scope_type) × (scope ≢ scope_card)
      → IsOutside s ns coll (coll_scope s ns' coll' ++ scope ∷ suffix)
  scope-IsOutside ns' coll' scope suffix short' h =
      IsOutside-of _ (λ r. scope_differs ns' coll' scope scope_elem suffix r short' h.0)
        (scope_differs ns' coll' scope scope_type suffix [] short' h.1)
        (scope_differs ns' coll' scope scope_card suffix [] short' h.2)

  -- A cardinality row, of whatever collection.
  pub card_key-IsAside :
      (ns' coll' : Bytes) → IsShort ns' × IsShort coll' → IsAside s ns coll (card_key s ns' coll')
  unfolding card_key
  card_key-IsAside ns' coll' short' =
      IsAside-of _ (λ r. scope_differs ns' coll' scope_card scope_elem [] r short' (ground arith))
        (scope_differs ns' coll' scope_card scope_type [] [] short' (ground arith))

  coll_differs :
      (ns' coll' x y : Bytes)
      → IsShort ns' × IsShort coll'
      → ((ns' ≡ ns) × (coll' ≡ coll) → ⊥)
      → coll_scope s ns' coll' ++ x ≢ coll_scope s ns coll ++ y
  coll_differs ns' coll' x y short' other e =
      let parts = coll_scope_split s ns' coll' ns coll x y short'.0 short'.1 short.0 short.1 e in
      other (parts.0, parts.1)

  pub coll-IsOutside :
      (ns' coll' x : Bytes)
      → IsShort ns' × IsShort coll'
      → ((ns' ≡ ns) × (coll' ≡ coll) → ⊥)
      → IsOutside s ns coll (coll_scope s ns' coll' ++ x)
  coll-IsOutside ns' coll' x short' other =
      IsOutside-of _ (λ r. coll_differs ns' coll' x (scope_elem ∷ r) short' other)
        (coll_differs ns' coll' x (scope_type ∷ []) short' other)
        (coll_differs ns' coll' x (scope_card ∷ []) short' other)

  -- The keys of the element rows themselves.
  elem_differs :
      (member : Bytes) (scope : ℕ) (x : Bytes)
      → scope ≢ scope_elem
      → bytes_eq (elem_key s ns coll member) (coll_scope s ns coll ++ scope ∷ x) ≡ false
  unfolding elem_key elem_prefix
  elem_differs member scope x h = bytes_neq _ _ λ e.
      scope_differs ns coll scope_elem scope member x short (λ p. h (sym p))
        (sym (append_assoc (coll_scope s ns coll) (scope_elem ∷ []) member) ∙ e)

  pub type_apart :
      (member : Bytes) → bytes_eq (elem_key s ns coll member) (type_key s ns coll) ≡ false
  unfolding type_key
  type_apart member = elem_differs member scope_type [] (ground arith)

  pub card_apart :
      (member : Bytes) → bytes_eq (elem_key s ns coll member) (card_key s ns coll) ≡ false
  unfolding card_key
  card_apart member = elem_differs member scope_card [] (ground arith)
