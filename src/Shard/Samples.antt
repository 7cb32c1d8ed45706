-- ===== src/Shard/Samples.antt =====
-- A shard with one set, and commands on it, for the tests.
use wave_span.Base.{ℕ, Bytes, none, some, List, [], ◌∷◌, codes}
use wave_span.Base.Int.{pos}
use wave_span.Budget.Wire.{put_u64, get_i64, put_i64}
use wave_span.Shard.{Item, Command, ShardSm, Rows, op_s_add, op_s_rem, type_set}
use wave_span.Shard.Keys.{type_key, card_key, elem_key}
use wave_span.Shard.Codec.{append_command}
use wave_span.Shard.Counter.{Strconv}
use wave_span.Shard.Update.{Entry}

-- Conversions that keep a number in eight bytes.
unfoldable pub conv : Strconv
unfolding get_i64 put_i64 put_u64
conv = record {
  parse_int = λ b. some (get_i64 b);
  format_int = put_i64;
  parse_float = λ b. none;
  format_float = put_u64;
  add_float = λ a b. a;
}

unfoldable pub empty_sm : ShardSm
empty_sm = record { store = []; prefix = 7 ∷ [] }

abbrev pub shop : Bytes
shop = codes "s"

abbrev pub tags : Bytes
tags = codes "t"

unfoldable pub set_rows : Rows
unfolding empty_sm type_key card_key elem_key put_u64
set_rows =
    (type_key empty_sm shop tags, type_set ∷ [])
    ∷ (card_key empty_sm shop tags, put_u64 1)
    ∷ (elem_key empty_sm shop tags (codes "r"), [])
    ∷ []

unfoldable pub set_sm : ShardSm
unfolding empty_sm set_rows
set_sm = record empty_sm { store = set_rows }

abbrev pub item_of : Bytes → Item
item_of key = record { key = key; val = []; score = 0; expiry_ms = pos 0 }

abbrev pub command_of : ℕ → Bytes → List Item → Command
command_of op idem items = record { op = op; ns = shop; coll = tags; idem = idem; items = items }

abbrev pub add_two : Command
add_two = command_of op_s_add (codes "k") (item_of (codes "r") ∷ item_of (codes "b") ∷ [])

unfoldable pub entries : List Entry
unfolding append_command
entries =
    record { index = 5; cmd = append_command add_two }
    ∷ record { index = 6; cmd = 1 ∷ 0 ∷ [] }
    ∷ record { index = 7; cmd = append_command (command_of op_s_rem [] (item_of (codes "r") ∷ [])) }
    ∷ []
