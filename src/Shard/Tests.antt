-- ===== src/Shard/Tests.antt =====
-- Runs of the data shard, and the theorems applied to them.
use wave_span.Base.{
  ℕ, ◌≡◌, ◌<◌, refl, arith, true, Bytes, Option, none, some, List, [], ◌∷◌, codes, All, sym, ◌∙◌,
  inl, compare_bytes, lookup, insert, erase, bytes_eq,
}
use wave_span.Base.Int.{◌+ℤ◌}
use wave_span.Base.Int64.{add64, wrap64}
use wave_span.Budget.Wire.{get_u64}
use wave_span.Budget.Codec.{take_chunk}
use wave_span.Shard.{ShardSm, ProposeResult, UpdateCtx, Fault, apply_ops, type_for_op}
use wave_span.Shard.Exec.{Res}
use wave_span.Shard.Keys.{
  card_key, elem_prefix, coll_scope, type_key, dedup_key, dedup_ring_key, dedup_seq_key,
  ttl_ptr_key, applied_key,
}
use wave_span.Shard.Scores.{sortable_score}
use wave_span.Shard.Codec.{
  append_command, decode_command, decode_items, append_results, encode_batch_result,
  decode_batch_result,
}
use wave_span.Shard.Context.{is_some}
use wave_span.Shard.Update.{update, Entry, read_card, fresh, apply_entry, run_entries}
use wave_span.Shard.ScoreOrder.{IsScoreOrder, compare_bytes-sortable_score}
use wave_span.Shard.RoundTrip.{
  decode_command-append_command, decode_batch_result-encode_batch_result,
}
use wave_span.Shard.Skip.{run_entries-fail}
use wave_span.Shard.Count.{count}
use wave_span.Shard.Flush.{IsSetRow}
use wave_span.Shard.Cardinality.{update-IsSetRow, IsLocal}
use wave_span.Shard.Disjoint.{head_of}
use wave_span.Shard.Samples.{conv, set_sm, shop, tags, entries, add_two}

-- The state after an update, and its results.
abbrev state_of {ℓ} : {A : Type ℓ} → Option (ShardSm × A) → ShardSm
state_of none = record { store = []; prefix = [] }
state_of (some (s, a)) = s

abbrev results_of {ℓ} : {A : Type ℓ} → Option (ShardSm × List A) → List A
results_of none = []
results_of (some (s, a)) = a

abbrev outcome : Option (ShardSm × List ProposeResult)
outcome = update conv set_sm entries

outcome_of {ℓ} :
    {A : Type ℓ} (o : Option (ShardSm × List A))
    → is_some o ≡ true
    → o ≡ some (state_of o, results_of o)
outcome_of none h = cc
outcome_of (some (s, rs)) h = refl

-- One member is added, an entry is skipped, and the first member goes: one is left.
outcome_card :
    (is_some outcome ≡ true)
    × (read_card (state_of outcome).store (card_key set_sm shop tags) ≡ some 1)
unfolding update read_card card_key lookup bytes_eq conv set_sm entries take_chunk decode_items
    coll_scope elem_prefix dedup_key insert ttl_ptr_key add64 wrap64 ◌+ℤ◌ apply_ops dedup_ring_key
    dedup_seq_key erase applied_key
outcome_card = (refl, refl)

outcome_room : count (elem_prefix (state_of outcome) shop tags) (state_of outcome).store ≡ 1
unfolding update read_card card_key lookup bytes_eq conv set_sm entries take_chunk decode_items
    coll_scope elem_prefix dedup_key insert ttl_ptr_key add64 wrap64 ◌+ℤ◌ apply_ops dedup_ring_key
    dedup_seq_key erase applied_key count
outcome_room = refl

set_sm-IsSetRow : IsSetRow shop tags set_sm
unfolding set_sm read_card lookup bytes_eq card_key type_key elem_prefix coll_scope count get_u64
set_sm-IsSetRow = record {
  rows = (refl, (refl, (refl, tt)));
  header = refl;
  card = refl;
  room = omega arith;
}

-- An entry that begins with another opcode moves no rows.
local : (e : Entry) (b : ℕ) (bs : Bytes) → e.cmd ≡ b ∷ bs → b < 8 → IsLocal e
local e b bs h k = record {
  no_ingest = λ rest q. let same = head_of (sym h ∙ q) in omega (arith, same, k);
  no_purge = λ rest q. let same = head_of (sym h ∙ q) in omega (arith, same, k);
}

entries-IsLocal : All IsLocal entries
unfolding entries
entries-IsLocal = (
  local _ 1 _ refl (omega arith),
  (local _ 1 _ refl (omega arith), (local _ 2 _ refl (omega arith), tt)),
)

update-IsSetRow_example : IsSetRow shop tags (state_of outcome)
update-IsSetRow_example =
    update-IsSetRow shop tags conv (omega arith, omega arith) set_sm entries (state_of outcome)
      (results_of outcome) set_sm-IsSetRow entries-IsLocal (outcome_of outcome outcome_card.0)
      (omega (arith, outcome_room))

abbrev first_entry : Entry
unfolding append_command
first_entry = record { index = 5; cmd = append_command add_two }

-- An entry that is cut short.
abbrev bad_entry : Entry
bad_entry = record { index = 6; cmd = 1 ∷ 0 ∷ [] }

abbrev after_first : UpdateCtx
after_first = (run_entries conv [] (first_entry ∷ []) (fresh set_sm)).0

run_entries-fail_example :
    (run_entries conv [] (first_entry ∷ bad_entry ∷ []) (fresh set_sm)).0
    ≡ (run_entries conv [] (first_entry ∷ []) (fresh set_sm)).0
unfolding apply_entry decode_command take_chunk
run_entries-fail_example =
    run_entries-fail conv [] (first_entry ∷ []) bad_entry [] (fresh set_sm) after_first
      Fault.short_command refl

decode_command-append_command_example : decode_command (append_command add_two) ≡ Res.ok add_two
unfolding append_command type_for_op
decode_command-append_command_example =
    decode_command-append_command add_two
      (record {
        op = inl (omega arith);
        items = (
          record { score = omega arith; expiry_ms = (omega arith, omega arith) },
          (record { score = omega arith; expiry_ms = (omega arith, omega arith) }, tt),
        );
        few = omega arith;
      })
      (omega arith)

abbrev one_result : List ProposeResult
one_result = record { value = 9; reply = codes "x" } ∷ []

decode_batch_result-encode_batch_result_example :
    decode_batch_result (encode_batch_result one_result) 1 ≡ Res.ok one_result
unfolding append_results
decode_batch_result-encode_batch_result_example =
    decode_batch_result-encode_batch_result one_result (record { value = omega arith }, tt)
      (omega arith) (omega arith)

-- 1.0 and -2.0.
compare_bytes-sortable_score_example :
    IsScoreOrder 4607182418800017408 13835058055282163712
      (compare_bytes (sortable_score 4607182418800017408) (sortable_score 13835058055282163712))
compare_bytes-sortable_score_example =
    compare_bytes-sortable_score 4607182418800017408 13835058055282163712 (omega arith)
      (omega arith)
