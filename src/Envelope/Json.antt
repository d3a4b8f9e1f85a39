-- ===== src/Envelope/Json.antt =====
-- web/features/player/runtime/envelope.ts: the options of a target, plain JSON of bounded size.
use retrom.Prelude.{
  ℕ, ◌+◌, ◌*◌, Bool, true, false, ◌&&◌, Option, none, some, ltb, leb, if◌then◌else◌, length, all,
  magnitude,
}
use retrom.Value.{
  Value, Items, Fields, null, bool, num, str, array, object, nil, cons, end, field, items, keys,
}
use retrom.CanonicalJson.Numbers.{safe_bound}
use retrom.Envelope.Texts.{well_formed}
use retrom.Envelope.Checks.{on_record, own_keys}

abbrev pub max_depth : ℕ
max_depth = 8

-- `jsonValue`: the depth is tested first, at each value.
unfoldable mutual
  pub json_value : Value → ℕ → Bool
  json_value null depth = if ltb max_depth depth then false else true
  json_value (bool b) depth = if ltb max_depth depth then false else true
  json_value (str s) depth = if ltb max_depth depth then false else well_formed s
  json_value (num n) depth = if ltb max_depth depth then false else ltb (magnitude n) safe_bound
  json_value (array vs) depth =
      let each = json_items vs (depth + 1) in
      if ltb max_depth depth then false else leb (length (items vs)) 256 && each
  json_value (object proto fs) depth =
      let each = json_fields fs (depth + 1) in
      if ltb max_depth depth
      then false
      else leb (length (keys fs)) 64 && all well_formed (keys fs) && each

  pub json_items : Items → ℕ → Bool
  json_items nil depth = true
  json_items (cons v vs) depth = json_value v depth && json_items vs depth

  pub json_fields : Fields → ℕ → Bool
  json_fields end depth = true
  json_fields (field k v fs) depth = json_value v depth && json_fields fs depth

-- `jsonRecord`.
unfoldable pub json_record : Value → Bool
unfolding json_value well_formed own_keys
json_record v = leb (length (own_keys v)) 64 && all well_formed (own_keys v) && json_value v 0

abbrev pub max_option_bytes : ℕ
max_option_bytes = 16 * 1024

-- `validTargetOptions`, over the number of bytes of the JSON text of a value; the text may fail.
unfoldable pub valid_target_options : (Value → Option ℕ) → Option Value → Bool
unfolding json_record
valid_target_options json_bytes v =
    on_record
      (λ o. json_record o && elim (json_bytes o) [ none ↦ false | some n ↦ leb n max_option_bytes ])
      v
