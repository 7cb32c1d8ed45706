-- ===== src/Shard/Codec.antt =====
-- The wire form of a command, and of a batch of them: internal/collections/command.go.
use wave_span.Base.{
  ℕ, zero, suc, ◌%◌, ◌^◌, ◌==◌, ltb, not, ◌&&◌, Option, none, some, Bytes, List, [], ◌∷◌, ◌++◌,
  length, drop, if◌then◌else◌,
}
use wave_span.Budget.Wire.{be_read, get_u64, get_i64, put_u64, put_i64}
use wave_span.Budget.Codec.{put_u32, append_chunk, take_chunk}
use wave_span.Shard.{
  Item, Command, Fault, type_for_op, op_expire, op_remove, op_batch, ProposeResult,
}
use wave_span.Shard.Exec.{Res}

unfoldable pub append_items : List Item → Bytes
unfolding append_chunk put_u64 put_i64
append_items [] = []
append_items (it ∷ its) =
    append_chunk it.key
    ++ (append_chunk it.val ++ (put_u64 it.score ++ (put_i64 it.expiry_ms ++ append_items its)))

unfoldable pub append_command : Command → Bytes
unfolding append_chunk put_u32 append_items
append_command c =
    c.op
    ∷ (append_chunk c.ns
        ++ (append_chunk c.coll
            ++ (append_chunk c.idem
                ++ (put_u32 (length c.items % 2 ^ 32) ++ append_items c.items))))

abbrev pub with_chunk {ℓ} : {A : Type ℓ} → Option (Bytes × Bytes) → (Bytes → Bytes → Res A) → Res A
with_chunk none f = Res.fail Fault.short_command
with_chunk (some (chunk, rest)) f = f chunk rest

-- The tail of a list, behind an item that was read before it.
abbrev pub prepend {ℓ} : {A : Type ℓ} → A → Res (List A) → Res (List A)
prepend x (Res.ok xs) = Res.ok (x ∷ xs)
prepend x (Res.fail e) = Res.fail e

unfoldable pub decode_items : ℕ → Bytes → Res (List Item)
decode_items zero rest = Res.ok []
decode_items (suc n) rest = with_chunk (take_chunk rest) λ key rest₁.
    with_chunk (take_chunk rest₁) λ val rest₂.
      let more = decode_items n (drop 16 rest₂) in
      if ltb (length rest₂) 16
      then Res.fail Fault.short_command
      else prepend
          (record {
            key = key;
            val = val;
            score = get_u64 rest₂;
            expiry_ms = get_i64 (drop 8 rest₂);
          })
          more

abbrev pub with_items : ℕ → Bytes → Bytes → Bytes → Res (List Item) → Res Command
with_items op ns coll idem (Res.ok items) =
    Res.ok (record { op = op; ns = ns; coll = coll; idem = idem; items = items })
with_items op ns coll idem (Res.fail e) = Res.fail e

unfoldable pub decode_command : Bytes → Res Command
decode_command [] = Res.fail Fault.short_command
decode_command (op ∷ b) =
    if type_for_op op == 0 && (not (op == op_expire) && not (op == op_remove))
    then Res.fail Fault.unknown_op
    else with_chunk (take_chunk b) λ ns rest. with_chunk (take_chunk rest) λ coll rest₁.
      with_chunk (take_chunk rest₁) λ idem rest₂.
        if ltb (length rest₂) 4
        then Res.fail Fault.short_command
        else with_items op ns coll idem (decode_items (be_read 4 0 rest₂) (drop 4 rest₂))

unfoldable pub append_chunks : List Bytes → Bytes
unfolding append_chunk
append_chunks [] = []
append_chunks (c ∷ cs) = append_chunk c ++ append_chunks cs

-- `encodeBatchInto`.
unfoldable pub encode_batch : List Bytes → Bytes
unfolding put_u32 append_chunks
encode_batch cmds = op_batch ∷ (put_u32 (length cmds % 2 ^ 32) ++ append_chunks cmds)

unfoldable pub take_chunks : ℕ → Bytes → Res (List Bytes)
take_chunks zero rest = Res.ok []
take_chunks (suc n) rest =
    with_chunk (take_chunk rest) λ chunk rest₁. prepend chunk (take_chunks n rest₁)

unfoldable pub decode_batch : Bytes → Res (List Bytes)
decode_batch [] = Res.fail Fault.short_command
decode_batch (op ∷ rest) =
    if not (op == op_batch)
    then Res.fail Fault.short_command
    else if ltb (length rest) 4
    then Res.fail Fault.short_command
    else take_chunks (be_read 4 0 rest) (drop 4 rest)

-- The results of a batch, in the order of its commands.
unfoldable pub append_results : List ProposeResult → Bytes
unfolding put_u64 append_chunk
append_results [] = []
append_results (r ∷ rs) = put_u64 r.value ++ (append_chunk r.reply ++ append_results rs)

unfoldable pub encode_batch_result : List ProposeResult → Bytes
unfolding put_u32 append_results
encode_batch_result rs = put_u32 (length rs % 2 ^ 32) ++ append_results rs

unfoldable pub take_results : ℕ → Bytes → Res (List ProposeResult)
take_results zero rest = Res.ok []
take_results (suc n) rest =
    if ltb (length rest) 8
    then Res.fail Fault.short_command
    else with_chunk (take_chunk (drop 8 rest)) λ reply rest₁.
      prepend (record { value = get_u64 rest; reply = reply }) (take_results n rest₁)

-- `decodeBatchResult`; a count is never negative.
unfoldable pub decode_batch_result : Bytes → ℕ → Res (List ProposeResult)
decode_batch_result b want =
    if ltb (length b) 4
    then Res.fail Fault.short_command
    else if not (be_read 4 0 b == want)
    then Res.fail Fault.short_command
    else take_results want (drop 4 b)
