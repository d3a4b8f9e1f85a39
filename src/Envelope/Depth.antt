-- ===== src/Envelope/Depth.antt =====
-- The bounds that `jsonValue` of envelope.ts puts on a value.
use retrom.Prelude.{ℕ, suc, ◌+◌, ◌≤◌, ◌≡◌, true, arith, max, length}
use retrom.Value.{
  Value, Items, Fields, null, bool, num, str, array, object, nil, cons, end, field, items, keys,
}
use retrom.Envelope.Json.{json_value, json_items, json_fields, max_depth, json_record}

-- How deep arrays and objects are nested, and the largest number of entries of one of them.
unfoldable mutual
  pub nesting : Value → ℕ
  nesting null = 0
  nesting (bool b) = 0
  nesting (num n) = 0
  nesting (str s) = 0
  nesting (array vs) = nesting_items vs
  nesting (object proto fs) = nesting_fields fs

  pub nesting_items : Items → ℕ
  nesting_items nil = 0
  nesting_items (cons v vs) = max (suc (nesting v)) (nesting_items vs)

  pub nesting_fields : Fields → ℕ
  nesting_fields end = 0
  nesting_fields (field k v fs) = max (suc (nesting v)) (nesting_fields fs)

unfoldable mutual
  pub breadth : Value → ℕ
  breadth null = 0
  breadth (bool b) = 0
  breadth (num n) = 0
  breadth (str s) = 0
  breadth (array vs) = max (length (items vs)) (breadth_items vs)
  breadth (object proto fs) = max (length (keys fs)) (breadth_fields fs)

  pub breadth_items : Items → ℕ
  breadth_items nil = 0
  breadth_items (cons v vs) = max (breadth v) (breadth_items vs)

  pub breadth_fields : Fields → ℕ
  breadth_fields end = 0
  breadth_fields (field k v fs) = max (breadth v) (breadth_fields fs)

mutual
  unfolding json_value nesting breadth

  json_value-bounds :
      (v : Value) (depth : ℕ)
      → json_value v depth ≡ true
      → (depth + nesting v ≤ max_depth) × (breadth v ≤ 256)
  json_value-bounds null depth h = ground arith
  json_value-bounds (bool b) depth h = ground arith
  json_value-bounds (num n) depth h = ground arith
  json_value-bounds (str s) depth h = ground arith
  json_value-bounds (array vs) depth h = ground (arith, json_items-bounds vs depth)
  json_value-bounds (object proto fs) depth h = ground (arith, json_fields-bounds fs depth)

  json_items-bounds :
      (vs : Items) (depth : ℕ)
      → json_items vs (depth + 1) ≡ true
      → depth ≤ max_depth
      → (depth + nesting_items vs ≤ max_depth) × (breadth_items vs ≤ 256)
  json_items-bounds nil depth h k = omega arith
  json_items-bounds (cons v vs) depth h k =
      ground (arith, json_value-bounds v (depth + 1), json_items-bounds vs depth)

  json_fields-bounds :
      (fs : Fields) (depth : ℕ)
      → json_fields fs (depth + 1) ≡ true
      → depth ≤ max_depth
      → (depth + nesting_fields fs ≤ max_depth) × (breadth_fields fs ≤ 256)
  json_fields-bounds end depth h k = omega arith
  json_fields-bounds (field k v fs) depth h l =
      ground (arith, json_value-bounds v (depth + 1), json_fields-bounds fs depth)

-- The options of a target nest at most eight deep, and no array or object in them has more than
-- 256 entries.
pub json_record-bounds : (v : Value) → json_record v ≡ true → (nesting v ≤ 8) × (breadth v ≤ 256)
unfolding json_record
json_record-bounds v h = ground (arith, json_value-bounds v 0)
