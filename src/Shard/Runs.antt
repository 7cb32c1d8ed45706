-- ===== src/Shard/Runs.antt =====
-- Retries, freezes and expiries of the data shard at concrete commands.
use wave_span.Base.{
  compare_bytes, ◌≡◌, refl, arith, some, none, [], ◌∷◌, codes, lookup, insert, bytes_eq,
}
use wave_span.Base.Int.{pos}
use wave_span.Budget.Wire.{put_u64}
use wave_span.Budget.Codec.{append_chunk}
use wave_span.Shard.{Item, UpdateCtx, ShardSm, ProposeResult}
use wave_span.Shard.Exec.{Res}
use wave_span.Shard.Keys.{
  elem_key, ttl_ptr_key, route_key, coll_scope, elem_prefix, type_key, dedup_key, card_key,
}
use wave_span.Shard.Context.{elem_exists, get_data}
use wave_span.Shard.Apply.{set_add, remove_elem}
use wave_span.Shard.One.{mutates, is_keyed, in_route, apply_decoded, frozen_mark, sentinel}
use wave_span.Shard.Migrate.{load_frozen}
use wave_span.Shard.Update.{fresh, update}
use wave_span.Shard.Counted.{pending}
use wave_span.Shard.Once.{apply_decoded-again}
use wave_span.Shard.Frozen.{freeze_entry, update-freeze}
use wave_span.Shard.Refresh.{IsNew, expiry_stays}
use wave_span.Shard.Samples.{conv, set_sm, set_rows, shop, tags, add_two}

abbrev first_run : UpdateCtx × Res ProposeResult
first_run = apply_decoded conv [] add_two (fresh set_sm)

abbrev one_added : ProposeResult
one_added = record { value = 1; reply = [] }

first_run_lem : first_run.1 ≡ Res.ok one_added
unfolding apply_decoded fresh conv set_sm lookup bytes_eq insert coll_scope dedup_key elem_prefix
first_run_lem = refl

apply_decoded-again_example :
    apply_decoded conv [] add_two first_run.0 ≡ (first_run.0, Res.ok one_added)
unfolding is_keyed mutates
apply_decoded-again_example =
    apply_decoded-again conv [] add_two (fresh set_sm) first_run.0 one_added refl refl
      (λ i. (first_run.0, first_run_lem i))
      (record { not_frozen = λ e. cc; not_wrong = λ e. cc; not_nan = λ e. cc })

update-freeze_example :
    (s' : ShardSm) × (update conv set_sm (freeze_entry 9 (0 ∷ []) (1 ∷ []) ∷ [])
      ≡ some (s', record { value = 1; reply = [] } ∷ []))
    × (apply_decoded conv (load_frozen s') add_two (fresh set_sm)
        ≡ (fresh set_sm, Res.ok (sentinel frozen_mark)))
unfolding append_chunk mutates in_route route_key compare_bytes
update-freeze_example =
    update-freeze conv set_sm 9 (0 ∷ []) (1 ∷ []) add_two (fresh set_sm) (omega arith) refl refl

abbrev timed : Item
timed = record { key = codes "x"; val = []; score = 0; expiry_ms = pos 1000 }

timed-IsNew : IsNew add_two timed (fresh set_sm)
unfolding elem_exists get_data fresh set_sm lookup bytes_eq elem_key ttl_ptr_key set_rows type_key
    card_key coll_scope elem_prefix
timed-IsNew = record {
  absent = refl;
  no_ttl = refl;
  expiring = refl;
  rows = (refl, (refl, (refl, tt)));
}

expiry_stays_example :
    (v : UpdateCtx) × (w : UpdateCtx) × (set_add add_two timed (fresh set_sm) ≡ (v, Res.ok 1))
    × (remove_elem add_two timed v ≡ (w, Res.ok 1))
    × (lookup (ttl_ptr_key set_sm shop tags (codes "x")) (pending w) ≡ some (put_u64 1000))
    × (lookup (elem_key set_sm shop tags (codes "x")) (pending w) ≡ none)
unfolding fresh
expiry_stays_example =
    expiry_stays add_two timed (fresh set_sm) (omega arith, omega arith) timed-IsNew
