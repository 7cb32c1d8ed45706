-- ===== src/Shard/Counter.antt =====
-- The counters of internal/collections/hincr.go: fields of a hash that hold a number.
use wave_span.Base.{
  ℕ, ltb, Bool, true, false, Option, none, some, Bytes, codes, length, insert, if◌then◌else◌,
}
use wave_span.Base.Int.{ℤ, pos}
use wave_span.Base.Int64.{add64}
use wave_span.Budget.Wire.{get_i64, put_u64, put_i64}
use wave_span.Shard.{Item, Command, Fault, UpdateCtx, ProposeResult}
use wave_span.Shard.Exec.{Exec, Res, pure, lift, reads, modify, ◌>>=◌, ◌>>◌}
use wave_span.Shard.Keys.{card_key, elem_key}
use wave_span.Shard.Context.{bump, field_val, set_field_val}

-- Go's strconv and float64 addition; a float64 is its bit pattern.
pub record Strconv : Type 0 where
  pub parse_int : Bytes → Option ℤ
  pub format_int : ℤ → Bytes
  pub parse_float : Bytes → Option ℕ
  pub format_float : ℕ → Bytes
  pub add_float : ℕ → ℕ → ℕ

abbrev pub not_number : Bytes
not_number = codes "NOTNUM"

-- A counter's new value, and the reply; the field is new where it was not found.
unfoldable pub write_counter : Bytes → Bytes → Bytes → Bytes → Bool → UpdateCtx → UpdateCtx
unfolding set_field_val bump
write_counter ns coll member val found u =
    let ek = elem_key u.s ns coll member in
    let u' = set_field_val ek val u in
    let u'' = record u' { exists = insert ek true u.exists } in
    if found then u'' else bump (card_key u.s ns coll) (pos 1) u''

-- The new value of a counter: none where the old one is no number.
abbrev pub counted {ℓ} : {A : Type ℓ} → A → (A → A) → (Bytes → Option A) → Option Bytes → Option A
counted zero add parse none = some (add zero)
counted zero add parse (some cur) = elim (parse cur) [ none ↦ none | some base ↦ some (add base) ]

abbrev pub is_found {ℓ} : {A : Type ℓ} → Option A → Bool
is_found none = false
is_found (some a) = true

unfoldable pub store_counter :
    Command → Item → Option Bytes → Option (Bytes × Bytes) → Exec UpdateCtx ProposeResult
unfolding write_counter pure modify ◌>>=◌
store_counter c it cur none = pure (record { value = 0; reply = not_number })
store_counter c it cur (some (text, reply)) = do
  modify (write_counter c.ns c.coll it.key text (is_found cur))
  pure (record { value = if is_found cur then 0 else 1; reply = reply })

unfoldable pub field_of : Command → Item → UpdateCtx → Res (Option Bytes)
unfolding field_val
field_of c it u = Res.ok (field_val u (elem_key u.s c.ns c.coll it.key))

module _ (conv : Strconv) where
  unfoldable pub incr_int : Item → Option Bytes → Option (Bytes × Bytes)
  incr_int it cur =
      elim (counted (pos 0) (λ base. add64 base (get_i64 it.val)) conv.parse_int cur) [
        | none ↦ none
        | some nv ↦ some (conv.format_int nv, put_i64 nv)
      ]

  unfoldable pub incr_float : Item → Option Bytes → Option (Bytes × Bytes)
  incr_float it cur = elim (counted 0 (λ base. conv.add_float base it.score) conv.parse_float cur) [
    | none ↦ none
    | some nv ↦ some (conv.format_float nv, put_u64 nv)
  ]

  unfoldable pub apply_h_incr_int : Command → Item → Exec UpdateCtx ProposeResult
  unfolding field_of incr_int store_counter lift reads ◌>>=◌
  apply_h_incr_int c it =
      if ltb (length it.val) 8
      then lift (Res.fail Fault.short_command)
      else do cur ← reads (field_of c it); store_counter c it cur (incr_int it cur)

  unfoldable pub apply_h_incr_float : Command → Item → Exec UpdateCtx ProposeResult
  unfolding field_of incr_float store_counter reads ◌>>=◌
  apply_h_incr_float c it = do
    cur ← reads (field_of c it)
    store_counter c it cur (incr_float it cur)
