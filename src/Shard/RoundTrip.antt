-- ===== src/Shard/RoundTrip.antt =====
-- The encoders of the proposer and the decoders of the state machine: internal/collections/command.go.
use wave_span.Base.{
  ℕ, ◌+◌, ◌%◌, ◌^◌, ◌==◌, ◌≢◌, not, ◌&&◌, ◌<◌, ◌≡◌, ◌⊎◌, refl, ap, ◌∙◌, arith, false, ltb, Bytes,
  List, [], ◌∷◌, ◌++◌, length, length-append, All,
}
use wave_span.Budget.Wire.{be_read, put_u64, put_i64}
use wave_span.Budget.Codec.{put_u32, append_chunk, take_chunk}
use wave_span.Budget.RoundTrip.{IsInt64, get_u64-put_u64, get_i64-put_i64, take_chunk-append_chunk}
use wave_span.Shard.{Item, Command, ProposeResult, type_for_op, op_expire, op_remove}
use wave_span.Shard.Exec.{Res}
use wave_span.Shard.Codec.{
  append_items, append_command, decode_items, decode_command, append_chunks, encode_batch,
  take_chunks, decode_batch, append_results, encode_batch_result, take_results, decode_batch_result,
  with_chunk, with_items, prepend,
}

pub record IsItem (it : Item) : Type 0 where
  pub score : it.score < 2 ^ 64
  pub expiry_ms : IsInt64 it.expiry_ms

be_read-put_u32 : (n : ℕ) (rest : Bytes) → n < 2 ^ 32 → be_read 4 0 (put_u32 n ++ rest) ≡ n
unfolding put_u32
be_read-put_u32 n rest h = omega arith

pub length-append_chunk : (b : Bytes) → length (append_chunk b) ≡ 4 + length b
unfolding append_chunk put_u32
length-append_chunk b = omega arith

-- A chunk at the head of a text that is short enough as a whole.
pub with_chunk-append_chunk {ℓ} :
    {A : Type ℓ} (b rest : Bytes) (f : Bytes → Bytes → Res A)
    → length (append_chunk b ++ rest) < 2 ^ 32
    → with_chunk (take_chunk (append_chunk b ++ rest)) f ≡ f b rest
with_chunk-append_chunk b rest f h =
    let l = length-append (append_chunk b) rest in
    rw (take_chunk-append_chunk b rest (omega (arith, l, length-append_chunk b, h))) refl

tail_bound : (a b : Bytes) → length (a ++ b) < 2 ^ 32 → length b < 2 ^ 32
tail_bound a b h = omega (arith, length-append a b)

decode_items-append_items :
    (its : List Item)
    → All IsItem its
    → length (append_items its) < 2 ^ 32
    → decode_items (length its) (append_items its) ≡ Res.ok its
unfolding decode_items append_items
decode_items-append_items [] h k = refl
decode_items-append_items (it ∷ its) h k =
    let last = append_items its in
    let numbers = put_u64 it.score ++ (put_i64 it.expiry_ms ++ last) in
    let second = append_chunk it.val ++ numbers in
    let k₁ = tail_bound (append_chunk it.key) second k in
    let k₂ = tail_bound (append_chunk it.val) numbers k₁ in
    let k₃ = tail_bound (put_u64 it.score) (put_i64 it.expiry_ms ++ last) k₂ in
    let k₄ = tail_bound (put_i64 it.expiry_ms) last k₃ in
    let long : ltb (length numbers) 16 ≡ false = unfold put_u64 put_i64 in ground arith in
    let score = get_u64-put_u64 it.score (put_i64 it.expiry_ms ++ last) h.0.score in
    let expiry = get_i64-put_i64 it.expiry_ms last h.0.expiry_ms in
    with_chunk-append_chunk it.key second _ k
    ∙ (with_chunk-append_chunk it.val numbers _ k₁
        ∙ (rw long λ i.
            prepend (record it { score = score i; expiry_ms = expiry i })
              (decode_items-append_items its h.1 k₄ i)))

-- A command that the state machine takes, with items whose numbers are in range.
pub record IsCommand (c : Command) : Type 0 where
  pub op : (type_for_op c.op ≢ 0) ⊎ ((c.op ≡ op_expire) ⊎ (c.op ≡ op_remove))
  pub items : All IsItem c.items
  pub few : length c.items < 2 ^ 32

known_op :
    (op : ℕ)
    → (type_for_op op ≢ 0) ⊎ ((op ≡ op_expire) ⊎ (op ≡ op_remove))
    → (type_for_op op == 0 && (not (op == op_expire) && not (op == op_remove))) ≡ false
known_op op h = ground arith

-- A command of a known opcode whose numbers are in range and whose encoding has fewer than 2^32 bytes is
-- decoded as it was.
pub decode_command-append_command :
    (c : Command)
    → IsCommand c
    → length (append_command c) < 2 ^ 32
    → decode_command (append_command c) ≡ Res.ok c
unfolding decode_command append_command
decode_command-append_command c h k =
    let last = append_items c.items in
    let counted = put_u32 (length c.items % 2 ^ 32) ++ last in
    let third = append_chunk c.idem ++ counted in
    let second = append_chunk c.coll ++ third in
    let k₁ : length (append_chunk c.ns ++ second) < 2 ^ 32 = omega (arith, k) in
    let k₂ = tail_bound (append_chunk c.ns) second k₁ in
    let k₃ = tail_bound (append_chunk c.coll) third k₂ in
    let k₄ = tail_bound (append_chunk c.idem) counted k₃ in
    let k₅ = tail_bound (put_u32 (length c.items % 2 ^ 32)) last k₄ in
    let known : (type_for_op c.op == 0 && (not (c.op == op_expire) && not (c.op == op_remove)))
        ≡ false =
      known_op c.op h.op in
    let long : ltb (length counted) 4 ≡ false = unfold put_u32 in ground arith in
    let count : be_read 4 0 counted ≡ length c.items =
      be_read-put_u32 (length c.items % 2 ^ 32) last (omega arith) ∙ omega (arith, h.few) in
    rw known (
      with_chunk-append_chunk c.ns second _ k₁
      ∙ (with_chunk-append_chunk c.coll third _ k₂
          ∙ (with_chunk-append_chunk c.idem counted _ k₃
              ∙ (rw (long, count)
                  (ap (with_items c.op c.ns c.coll c.idem)
                    (decode_items-append_items c.items h.items k₅))))))

take_chunks-append_chunks :
    (cmds : List Bytes)
    → length (append_chunks cmds) < 2 ^ 32
    → take_chunks (length cmds) (append_chunks cmds) ≡ Res.ok cmds
unfolding take_chunks append_chunks
take_chunks-append_chunks [] h = refl
take_chunks-append_chunks (c ∷ cmds) h =
    with_chunk-append_chunk c (append_chunks cmds) _ h
    ∙ ap (prepend c) (take_chunks-append_chunks cmds (tail_bound (append_chunk c) _ h))

-- A batch whose encoding has fewer than 2^32 bytes is split into the commands that it was made of.
pub decode_batch-encode_batch :
    (cmds : List Bytes)
    → length cmds < 2 ^ 32
    → length (append_chunks cmds) < 2 ^ 32
    → decode_batch (encode_batch cmds) ≡ Res.ok cmds
unfolding decode_batch encode_batch
decode_batch-encode_batch cmds few h =
    let n = length cmds % 2 ^ 32 in
    let long : ltb (length (put_u32 n ++ append_chunks cmds)) 4 ≡ false =
      unfold put_u32 in ground arith in
    let count : be_read 4 0 (put_u32 n ++ append_chunks cmds) ≡ length cmds =
      be_read-put_u32 n (append_chunks cmds) (omega arith) ∙ omega (arith, few) in
    rw (long, count) (unfold put_u32 in take_chunks-append_chunks cmds h)

-- A value of a result is a uint64.
pub record IsResult (r : ProposeResult) : Type 0 where
  pub value : r.value < 2 ^ 64

take_results-append_results :
    (rs : List ProposeResult)
    → All IsResult rs
    → length (append_results rs) < 2 ^ 32
    → take_results (length rs) (append_results rs) ≡ Res.ok rs
unfolding take_results append_results
take_results-append_results [] h k = refl
take_results-append_results (r ∷ rs) h k =
    let last = append_results rs in
    let text = put_u64 r.value ++ (append_chunk r.reply ++ last) in
    let k₁ = tail_bound (put_u64 r.value) (append_chunk r.reply ++ last) k in
    let k₂ = tail_bound (append_chunk r.reply) last k₁ in
    let long : ltb (length text) 8 ≡ false = unfold put_u64 in ground arith in
    let value = get_u64-put_u64 r.value (append_chunk r.reply ++ last) h.0.value in
    rw long (
      (unfold put_u64 in with_chunk-append_chunk r.reply last _ k₁) ∙ λ i.
      prepend (record r { value = value i }) (take_results-append_results rs h.1 k₂ i))

-- The proposer reads the results of a batch as the state machine gave them, where it expects their
-- number and they take fewer than 2^32 bytes.
pub decode_batch_result-encode_batch_result :
    (rs : List ProposeResult)
    → All IsResult rs
    → length rs < 2 ^ 32
    → length (append_results rs) < 2 ^ 32
    → decode_batch_result (encode_batch_result rs) (length rs) ≡ Res.ok rs
unfolding decode_batch_result encode_batch_result
decode_batch_result-encode_batch_result rs h few k =
    let n = length rs % 2 ^ 32 in
    let long : ltb (length (put_u32 n ++ append_results rs)) 4 ≡ false =
      unfold put_u32 in ground arith in
    let count : be_read 4 0 (put_u32 n ++ append_results rs) ≡ length rs =
      be_read-put_u32 n (append_results rs) (omega arith) ∙ omega (arith, few) in
    let same : not (length rs == length rs) ≡ false = ground arith in
    rw (long, count, same) (unfold put_u32 in take_results-append_results rs h k)
