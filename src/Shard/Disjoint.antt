-- ===== src/Shard/Disjoint.antt =====
-- Rows of different kinds, of different collections and of different members: their keys, which
-- internal/collections/statemachine.go builds.
use wave_span.Base.{
  ℕ, ◌^◌, ◌<◌, ◌≡◌, refl, sym, ap, ◌∙◌, arith, Bytes, List, [], ◌∷◌, ◌++◌, length, drop, take,
  append_assoc, take-append, drop-append,
}
use wave_span.Budget.Wire.{be_read}
use wave_span.Budget.Codec.{put_u32, append_chunk}
use wave_span.Shard.{ShardSm}
use wave_span.Shard.Keys.{coll_scope, data_space, sub_data}

-- A name that a chunk can carry.
abbrev pub IsShort : Bytes → Type 0
IsShort b = length b < 2 ^ 32

pub append-cancel {ℓ} : {A : Type ℓ} (xs a b : List A) → xs ++ a ≡ xs ++ b → a ≡ b
append-cancel xs a b e = sym (drop-append xs a) ∙ (ap (drop (length xs)) e ∙ drop-append xs b)

-- A length, and the text behind it, are read back from a chunk with a rest.
size_of : (a x : Bytes) → IsShort a → be_read 4 0 (append_chunk a ++ x) ≡ length a
unfolding append_chunk put_u32
size_of a x h = omega (arith, h)

body_of : (a x : Bytes) → drop 4 (append_chunk a ++ x) ≡ a ++ x
unfolding append_chunk put_u32
body_of a x = refl

pub append_chunk_split :
    (a b x y : Bytes)
    → IsShort a
    → IsShort b
    → append_chunk a ++ x ≡ append_chunk b ++ y
    → (a ≡ b) × (x ≡ y)
append_chunk_split a b x y h k e =
    let sizes : length a ≡ length b = sym (size_of a x h) ∙ (ap (be_read 4 0) e ∙ size_of b y k) in
    let bodies : a ++ x ≡ b ++ y = sym (body_of a x) ∙ (ap (drop 4) e ∙ body_of b y) in
    (
      sym (take-append a x) ∙ ((λ i. take (sizes i) (bodies i)) ∙ take-append b y),
      sym (drop-append a x) ∙ ((λ i. drop (sizes i) (bodies i)) ∙ drop-append b y),
    )

pub scope_form :
    (s : ShardSm) (ns coll x : Bytes)
    → coll_scope s ns coll ++ x
      ≡ s.prefix ++ (sub_data ∷ (append_chunk ns ++ (append_chunk coll ++ x)))
unfolding coll_scope data_space
scope_form s ns coll x =
    append_assoc (data_space s ++ append_chunk ns) (append_chunk coll) x
    ∙ (append_assoc (data_space s) (append_chunk ns) (append_chunk coll ++ x)
        ∙ append_assoc s.prefix (sub_data ∷ []) (append_chunk ns ++ (append_chunk coll ++ x)))

pub tail_of {ℓ} : {A : Type ℓ} {x y : A} {xs ys : List A} → x ∷ xs ≡ y ∷ ys → xs ≡ ys
tail_of {x = x} {xs = xs} e = ap (λ zs. drop 1 zs) e

pub head_of : {x y : ℕ} {xs ys : Bytes} → x ∷ xs ≡ y ∷ ys → x ≡ y
head_of e = cc

-- A collection's rows: the name, and what follows it, are determined by the key.
pub coll_scope_split :
    (s : ShardSm) (ns coll ns' coll' x y : Bytes)
    → IsShort ns
    → IsShort coll
    → IsShort ns'
    → IsShort coll'
    → coll_scope s ns coll ++ x ≡ coll_scope s ns' coll' ++ y
    → (ns ≡ ns') × (coll ≡ coll') × (x ≡ y)
coll_scope_split s ns coll ns' coll' x y h k h' k' e =
    let forms = sym (scope_form s ns coll x) ∙ (e ∙ scope_form s ns' coll' y) in
    let names = append_chunk_split ns ns' _ _ h h' (tail_of (append-cancel s.prefix _ _ forms)) in
    let rests = append_chunk_split coll coll' x y k k' names.1 in (names.0, rests.0, rests.1)
